-- ===== src/Blob/Executor/Intents.antt =====
-- Which events make a machine ask for a new connection handler.
use hoarder.Base.{
  ℕ, ◌+◌, ◌≡◌, refl, ap, ◌∙◌, arith, ℤ, Option, none, some, List, [], ◌∷◌, ◌++◌, ◌%◌, ◌^◌, subst,
  leb, is_zero, is_negative, as_u32, add_u32, done, ◌>>=◌, Build, ltb, length, assert,
  if◌then◌else◌,
}
use hoarder.Base.Post.{Post, Post-bind, Post-after, Post-if}
use hoarder.Collections.BufferPool as BufferPool
use hoarder.Collections.BufferPool.{Memory, BufferHandle}
use hoarder.Error.{Errno, is_one_of, from_raw_syscall_error}
use hoarder.Blob.Protocol.{
  MachineEvent, spawned, io_completed, MachineIntent, retry, terminate, close_fixed,
  spawn_conn_handler, submit_recv, ExecutorContext, submit_intent, MsgHeader, header_size,
}
use hoarder.Blob.ConnHandler as Conn
use hoarder.Blob.ConnHandler.{ConnHandler, ConnHandlerState, Step}

-- How many handlers an intent asks for, and how many a list of them does.
abbrev pub asks : MachineIntent → ℕ
asks (spawn_conn_handler fixed) = 1
asks _ = 0

abbrev pub requests : List MachineIntent → ℕ
requests [] = 0
requests (intent ∷ intents) = asks intent + requests intents

-- How many handlers an event may ask for.
abbrev pub allowance : MachineEvent → ℕ
allowance spawned = 0
allowance (io_completed res flags) = 1

requests-snoc :
    (xs : List MachineIntent) (x : MachineIntent) → requests (xs ++ (x ∷ [])) ≡ requests xs + asks x
requests-snoc [] x = omega arith
requests-snoc (y ∷ xs) x = omega (arith, requests-snoc xs x)

abbrev pub Asks : ℕ → ExecutorContext → Type 0
Asks n ctx = requests ctx.intents ≡ n

pub submit_intent-Asks :
    (n : ℕ) (ctx : ExecutorContext) (x : MachineIntent)
    → Asks n ctx
    → Post (Asks (n + asks x)) (submit_intent ctx x)
unfolding submit_intent
submit_intent-Asks n ctx x e =
    Post-after (Asks (n + asks x)) (assert (ltb (length ctx.intents) ctx.slots)) _
      λ _. requests-snoc ctx.intents x ∙ ap (λ k. k + asks x) e

-- An intent that asks for no handler.
pub plain :
    (n : ℕ) (ctx : ExecutorContext) (x : MachineIntent)
    → asks x ≡ 0
    → Asks n ctx
    → Post (Asks n) (submit_intent ctx x)
plain n ctx x no_request e =
    subst (λ k. Post (Asks k) (submit_intent ctx x)) (omega (arith, no_request))
      (submit_intent-Asks n ctx x e)

-- A method of a connection handler asks for none.
abbrev StepAsks : ℕ → Step → Type 0
StepAsks n r = Asks n r.1

module _ (n : ℕ) where
  recv-Asks :
      (c : ConnHandler) (ctx : ExecutorContext) → Asks n ctx → Post (Asks n) (Conn.recv c ctx)
  unfolding Conn.recv
  recv-Asks c ctx e =
      Post-after (Asks n) (Conn.buf_handle c) _
        λ h. plain n ctx (submit_recv c.socket h (c.offset % 2 ^ 16)) refl e

  release_buffer-Asks :
      (build : Build) (h : Option BufferHandle) (ctx : ExecutorContext)
      → Asks n ctx
      → Post (Asks n) (Conn.release_buffer build h ctx)
  unfolding Conn.release_buffer
  release_buffer-Asks build none ctx e = e
  release_buffer-Asks build (some h) ctx e =
      Post-after (Asks n) (BufferPool.free build ctx.buffers h) _ λ _. e

  -- A method's last intent, then its value.
  then_plain {ℓ} :
      {A : Type ℓ} (Q : A → Type 0) (ctx : ExecutorContext) (x : MachineIntent)
      (k : ExecutorContext → A)
      → asks x ≡ 0
      → Asks n ctx
      → ((ctx' : ExecutorContext) → Asks n ctx' → Q (k ctx'))
      → Post Q (submit_intent ctx x >>= λ ctx'. done (k ctx'))
  then_plain Q ctx x k no_request e holds =
      Post-bind Q (Asks n) (submit_intent ctx x) _ (plain n ctx x no_request e) holds

  close-Asks :
      (build : Build) (c : ConnHandler) (ctx : ExecutorContext)
      → Asks n ctx
      → Post (λ r. Asks n r.1) (Conn.close build c ctx)
  unfolding Conn.close
  close-Asks build c ctx e =
      Post-bind (λ r. Asks n r.1) (Asks n) (Conn.release_buffer build c.handle ctx) _
        (release_buffer-Asks build c.handle ctx e)
        λ released e'.
          then_plain (λ r. Asks n r.1) released (close_fixed c.socket) _ refl e' λ ctx' e''. e''

  -- Closing, with the state that follows.
  closing-Asks :
      (build : Build) (c : ConnHandler) (ctx : ExecutorContext)
      → Asks n ctx
      → Post (StepAsks n) (Conn.close build c ctx >>= λ r. done (r.0, r.1, Conn.closing))
  closing-Asks build c ctx e =
      Post-bind (StepAsks n) (λ r. Asks n r.1) (Conn.close build c ctx) _ (close-Asks build c ctx e)
        λ r e'. e'

  start-Asks :
      (c : ConnHandler) (ctx : ExecutorContext) (r : Option BufferHandle)
      → Asks n ctx
      → Post (StepAsks n) (Conn.start c ctx r)
  unfolding Conn.start
  start-Asks c ctx (some h) e =
      Post-bind (StepAsks n) (Asks n) (Conn.recv (record c { handle = some h }) ctx) _
        (recv-Asks (record c { handle = some h }) ctx e) λ ctx' e'. e'
  start-Asks c ctx none e = then_plain (StepAsks n) ctx retry _ refl e λ ctx' e'. e'

  on_init-Asks :
      (build : Build) (c : ConnHandler) (ctx : ExecutorContext)
      → Asks n ctx
      → Post (StepAsks n) (Conn.on_init build c ctx)
  unfolding Conn.on_init
  on_init-Asks build c ctx e =
      Post-after (StepAsks n) (BufferPool.alloc build ctx.buffers) _
        λ r. start-Asks c (record ctx { buffers = r.0 }) r.1 e

  on_closing-Asks :
      (build : Build) (c : ConnHandler) (ctx : ExecutorContext) (res : ℤ)
      → Asks n ctx
      → Post (StepAsks n) (Conn.on_closing build c ctx res)
  unfolding Conn.on_closing
  on_closing-Asks build c ctx res e =
      Post-if (StepAsks n) (is_zero res) _ _
        (then_plain (StepAsks n) ctx terminate _ refl e λ ctx' e'. e') (closing-Asks build c ctx e)

  dispatch_error-Asks :
      (build : Build) (c : ConnHandler) (ctx : ExecutorContext) (error : Errno)
      → Asks n ctx
      → Post (StepAsks n) (Conn.dispatch_error build c ctx error)
  unfolding Conn.dispatch_error
  dispatch_error-Asks build c ctx error e =
      Post-if (StepAsks n) (is_one_of error Conn.transient_errors) _ _
        (Post-bind (StepAsks n) (Asks n) (Conn.recv c ctx) _ (recv-Asks c ctx e) λ ctx' e'. e')
        (Post-if (StepAsks n) (is_one_of error Conn.logical_errors) _ _ tt (
          Post-if (StepAsks n) (is_one_of error Conn.connection_errors) _ _
            (closing-Asks build c ctx e) e))

  handle_io_error-Asks :
      (build : Build) (c : ConnHandler) (ctx : ExecutorContext) (res : ℤ)
      → Asks n ctx
      → Post (StepAsks n) (Conn.handle_io_error build c ctx res)
  unfolding Conn.handle_io_error
  handle_io_error-Asks build c ctx res e =
      Post-after (StepAsks n) (from_raw_syscall_error build res) _
        λ error. dispatch_error-Asks build c ctx error e

module _ (n : ℕ) (build : Build) (read_header : List ℕ → Option MsgHeader) (mem : Memory) where
  received-Asks :
      (c : ConnHandler) (ctx : ExecutorContext) (res : ℤ)
      → Asks n ctx
      → Post (StepAsks n) (Conn.received build read_header mem c ctx res)
  unfolding Conn.received
  received-Asks c ctx res e =
      Post-after (StepAsks n) (add_u32 build c.offset (as_u32 res)) _ λ offset.
        Post-if (StepAsks n) (leb header_size offset) _ _
          (Post-after (StepAsks n)
            (Conn.parse_header build read_header mem (record c { offset = offset }) ctx) _
            λ header. e)
          e

  on_recv-Asks :
      (c : ConnHandler) (ctx : ExecutorContext) (res : ℤ)
      → Asks n ctx
      → Post (StepAsks n) (Conn.on_recv build read_header mem c ctx res)
  unfolding Conn.on_recv
  on_recv-Asks c ctx res e = Post-if (StepAsks n) (is_zero res) _ _ (closing-Asks n build c ctx e) (
      Post-bind (StepAsks n) (StepAsks n)
        (if is_negative res
          then Conn.handle_io_error build c ctx res
          else Conn.received build read_header mem c ctx res)
        _
        (Post-if (StepAsks n) (is_negative res) _ _ (handle_io_error-Asks n build c ctx res e)
          (received-Asks c ctx res e))
        λ r e'.
          Post-bind (StepAsks n) (Asks n) (Conn.recv r.0 r.1) _ (recv-Asks n r.0 r.1 e')
            λ ctx' e''. e'')

  handle_event-Asks :
      (s : ConnHandlerState) (event : MachineEvent) (c : ConnHandler) (ctx : ExecutorContext)
      → Asks n ctx
      → Post (StepAsks n) (Conn.handle_event build read_header mem s event c ctx)
  unfolding Conn.handle_event
  handle_event-Asks Conn.init spawned c ctx e = on_init-Asks n build c ctx e
  handle_event-Asks Conn.init (io_completed res flags) c ctx e = tt
  handle_event-Asks (Conn.receiving phase) (io_completed res flags) c ctx e =
      on_recv-Asks c ctx res e
  handle_event-Asks (Conn.receiving phase) spawned c ctx e = tt
  handle_event-Asks Conn.closing (io_completed res flags) c ctx e =
      on_closing-Asks n build c ctx res e
  handle_event-Asks Conn.closing spawned c ctx e = tt
  handle_event-Asks Conn.closed event c ctx e = e

  pub handler-requests :
      (c : ConnHandler) (ctx : ExecutorContext) (event : MachineEvent)
      → Asks n ctx
      → Post (λ r. Asks n r.1) (Conn.process_event build read_header mem c ctx event)
  unfolding Conn.process_event
  handler-requests c ctx event e =
      Post-bind (λ r. Asks n r.1) (StepAsks n)
        (Conn.handle_event build read_header mem c.state event c ctx) _
        (handle_event-Asks c.state event c ctx e) λ r e'. e'
