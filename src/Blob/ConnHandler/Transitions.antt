-- ===== src/Blob/ConnHandler/Transitions.antt =====
-- Which state may follow which, on which event.
use hoarder.Base.{
  ℕ, zero, suc, ℤ, pos, negsuc, ◌<◌, ◌≤◌, ◌≡◌, refl, ap, sym, Bool, leb, le→leb, true, Option, none,
  some, List, [], ◌∷◌, arith, false, ◌⊎◌, as_u32, add_u32, dec_lt, inl, inr, done, ◌>>=◌,
  >>=-eq-done, done-injective, subst, Build, is_zero, if◌then◌else◌,
}
use hoarder.Error.{Errno, errno, is_one_of, from_raw_syscall_error}
use hoarder.Collections.BufferPool
use hoarder.Collections.BufferPool.{Memory, BufferHandle}
use hoarder.Blob.Protocol.{
  MachineEvent, spawned, io_completed, ExecutorContext, MsgHeader, header_size,
}
use hoarder.Blob.ConnHandler.{
  ConnHandler, ConnHandlerState, init, closing, closed, receiving, RecvPhase, receiving_header,
  receiving_body, Step, start, on_closing, transient_errors, logical_errors, connection_errors,
  recv, dispatch_error, handle_io_error, received, parse_header, on_recv, handle_event,
  process_event,
}

-- Linux's numbers of the errors after which a receive is tried again: EINTR, EAGAIN, ENOBUFS, ENOMEM
-- and ETIMEDOUT.
abbrev passing : List Errno
passing = errno (pos 4) ∷ errno (pos 11) ∷ errno (pos 105) ∷ errno (pos 12) ∷ errno (pos 110) ∷ []

-- Of the errors that only a mistake of the program can cause: EBADF, EFAULT, EINVAL, ENOTSOCK,
-- EAFNOSUPPORT and EOPNOTSUPP.
abbrev mistakes : List Errno
mistakes =
    errno (pos 9)
    ∷ errno (pos 14)
    ∷ errno (pos 22)
    ∷ errno (pos 88)
    ∷ errno (pos 97)
    ∷ errno (pos 95)
    ∷ []

-- Of the errors that end a connection: EIO, ECONNRESET, ENOTCONN, ESHUTDOWN, ECONNABORTED,
-- ENETDOWN, ENETUNREACH and ENETRESET.
abbrev ending : List Errno
ending =
    errno (pos 5)
    ∷ errno (pos 104)
    ∷ errno (pos 107)
    ∷ errno (pos 108)
    ∷ errno (pos 103)
    ∷ errno (pos 100)
    ∷ errno (pos 101)
    ∷ errno (pos 102)
    ∷ []

-- The error passes, or is of no kind that the protocol knows.
abbrev pub Stays : Errno → Type 0
Stays e =
    (is_one_of e passing ≡ true) ⊎ ((is_one_of e mistakes ≡ false) × (is_one_of e ending ≡ false))

abbrev pub Ends : Errno → Type 0
Ends e =
    (is_one_of e passing ≡ false) × (is_one_of e mistakes ≡ false) × (is_one_of e ending ≡ true)

-- The steps that the connection's protocol allows to a handler that has received so many bytes: it
-- has its header once five bytes are there, and an error ends it or not by its kind.
pub data Next (build : Build) (offset : ℕ)
    : ConnHandlerState → MachineEvent → ConnHandlerState → Type 0 where
  opens : Next build offset init spawned (receiving receiving_header)
  waits : Next build offset init spawned init
  end_of_stream :
      (phase : RecvPhase) (flags : ℕ)
      → Next build offset (receiving phase) (io_completed (pos 0) flags) closing
  header_part :
      (phase : RecvPhase) (n flags there : ℕ)
      → add_u32 build offset (as_u32 (pos (suc n))) ≡ done there
      → there < 5
      → Next build offset
          (receiving phase)
          (io_completed (pos (suc n)) flags)
          (receiving receiving_header)
  header_read :
      (phase : RecvPhase) (n flags there : ℕ) (header : MsgHeader)
      → add_u32 build offset (as_u32 (pos (suc n))) ≡ done there
      → 5 ≤ there
      → Next build offset
          (receiving phase)
          (io_completed (pos (suc n)) flags)
          (receiving (receiving_body header))
  error_stays :
      (phase : RecvPhase) (n flags : ℕ) (e : Errno)
      → from_raw_syscall_error build (negsuc n) ≡ done e
      → Stays e
      → Next build offset (receiving phase) (io_completed (negsuc n) flags) (receiving phase)
  error_closes :
      (phase : RecvPhase) (n flags : ℕ) (e : Errno)
      → from_raw_syscall_error build (negsuc n) ≡ done e
      → Ends e
      → Next build offset (receiving phase) (io_completed (negsuc n) flags) closing
  is_closed : (flags : ℕ) → Next build offset closing (io_completed (pos 0) flags) closed
  close_again :
      (res : ℤ) (flags : ℕ)
      → is_zero res ≡ false
      → Next build offset closing (io_completed res flags) closing
  stays_closed : (event : MachineEvent) → Next build offset closed event closed

start-state :
    (c : ConnHandler) (ctx : ExecutorContext) (h : Option BufferHandle) {r : Step}
    → start c ctx h ≡ done r
    → (r.2 ≡ receiving receiving_header) ⊎ (r.2 ≡ init)
unfolding start
start-state c ctx (some h) e = ground arith
start-state c ctx none e = ground arith

on_closing-state :
    (build : Build) (c : ConnHandler) (ctx : ExecutorContext) (res : ℤ) {r : Step}
    → on_closing build c ctx res ≡ done r
    → r.2 ≡ (if is_zero res then closed else closing)
unfolding on_closing
on_closing-state build c ctx res e = ground arith

-- An error leaves the state as it is or closes, by its kind.
dispatch_error-state :
    (build : Build) (c : ConnHandler) (ctx : ExecutorContext) (e : Errno) {r : Step}
    → dispatch_error build c ctx e ≡ done r
    → ((r.2 ≡ c.state) × Stays e) ⊎ ((r.2 ≡ closing) × Ends e)
unfolding dispatch_error
dispatch_error-state build c ctx e {r} q =
    by_kind (is_one_of e transient_errors) (is_one_of e logical_errors)
      (is_one_of e connection_errors) refl refl refl
  where
    by_kind :
        (a b d : Bool)
        → is_one_of e transient_errors ≡ a
        → is_one_of e logical_errors ≡ b
        → is_one_of e connection_errors ≡ d
        → ((r.2 ≡ c.state) × Stays e) ⊎ ((r.2 ≡ closing) × Ends e)
    by_kind true b d ea eb ed = inl (ground arith, inl ea)
    by_kind false true d ea eb ed = absurd (ground arith)
    by_kind false false true ea eb ed = inr (ground arith, (ea, eb, ed))
    by_kind false false false ea eb ed = inl (ground arith, inr (eb, ed))

start-Next :
    (build : Build) (offset : ℕ) (s : ConnHandlerState)
    → (s ≡ receiving receiving_header) ⊎ (s ≡ init)
    → Next build offset init spawned s
start-Next build offset s (inl e) = rw e opens
start-Next build offset s (inr e) = rw e waits

closing-Next :
    (build : Build) (offset : ℕ) (res : ℤ) (flags : ℕ) (s : ConnHandlerState)
    → s ≡ (if is_zero res then closed else closing)
    → Next build offset closing (io_completed res flags) s
closing-Next build offset (pos zero) flags s e = rw e (is_closed flags)
closing-Next build offset (pos (suc n)) flags s e = rw e (close_again (pos (suc n)) flags refl)
closing-Next build offset (negsuc n) flags s e = rw e (close_again (negsuc n) flags refl)

module _ (build : Build) (read_header : List ℕ → Option MsgHeader) (mem : Memory) where
  received-state :
      (c : ConnHandler) (ctx : ExecutorContext) (res : ℤ) {r : Step}
      → received build read_header mem c ctx res ≡ done r
      → (there : ℕ) × (add_u32 build c.offset (as_u32 res) ≡ done there)
        × (((there < 5) × (r.2 ≡ receiving receiving_header))
            ⊎ ((5 ≤ there) × (header : MsgHeader) × (r.2 ≡ receiving (receiving_body header))))
  unfolding received
  received-state c ctx res {r} e =
      let (there, up, e') = >>=-eq-done (add_u32 build c.offset (as_u32 res)) _ e in
      (
        there,
        up,
        elim (dec_lt there 5) [
          | yes h ↦ inl (h, ground arith)
          | no h ↦ let (header, state) = read there h e' in inr (omega arith, header, state)
        ],
      )
    where
      read :
          (there : ℕ)
          → ¬ (there < 5)
          → (if leb header_size there
              then (do
                header ← parse_header build read_header mem (record c { offset = there }) ctx
                done (record c { offset = there }, ctx, receiving (receiving_body header)))
              else done (record c { offset = there }, ctx, receiving receiving_header))
            ≡ done r
          → (header : MsgHeader) × (r.2 ≡ receiving (receiving_body header))
      read there h e =
          let (header, _, same) =
            >>=-eq-done (parse_header build read_header mem (record c { offset = there }) ctx) _
              (rw (le→leb header_size there (omega arith)) at e) in
          (header, sym (ap (λ x. x.2) (done-injective same)))

  after_recv :
      (c : ConnHandler) (ctx : ExecutorContext) (s : ConnHandlerState) {r : Step}
      → (recv c ctx >>= λ ctx'. done (c, ctx', s)) ≡ done r
      → r.2 ≡ s
  after_recv c ctx s e =
      let (ctx', _, e') = >>=-eq-done (recv c ctx) (λ ctx'. done (c, ctx', s)) e in
      sym (ap (λ x. x.2) (done-injective e'))

  received-Next :
      (phase : RecvPhase) (n flags offset : ℕ) (s : ConnHandlerState)
      → (there : ℕ) × (add_u32 build offset (as_u32 (pos (suc n))) ≡ done there)
        × (((there < 5) × (s ≡ receiving receiving_header))
            ⊎ ((5 ≤ there) × (header : MsgHeader) × (s ≡ receiving (receiving_body header))))
      → Next build offset (receiving phase) (io_completed (pos (suc n)) flags) s
  received-Next phase n flags offset s (there, up, inl (few, e)) =
      rw e (header_part phase n flags there up few)
  received-Next phase n flags offset s (there, up, inr (enough, header, e)) =
      rw e (header_read phase n flags there header up enough)

  error-Next :
      (phase : RecvPhase) (n flags offset : ℕ) (s : ConnHandlerState)
      → (e : Errno) × (from_raw_syscall_error build (negsuc n) ≡ done e)
        × (((s ≡ receiving phase) × Stays e) ⊎ ((s ≡ closing) × Ends e))
      → Next build offset (receiving phase) (io_completed (negsuc n) flags) s
  error-Next phase n flags offset s (e, raw, inl (q, stays)) =
      rw q (error_stays phase n flags e raw stays)
  error-Next phase n flags offset s (e, raw, inr (q, ends)) =
      rw q (error_closes phase n flags e raw ends)

  handle_io_error-state :
      (c : ConnHandler) (ctx : ExecutorContext) (res : ℤ) {r : Step}
      → handle_io_error build c ctx res ≡ done r
      → (e : Errno) × (from_raw_syscall_error build res ≡ done e)
        × (((r.2 ≡ c.state) × Stays e) ⊎ ((r.2 ≡ closing) × Ends e))
  unfolding handle_io_error
  handle_io_error-state c ctx res q =
      let (e, raw, q') =
        >>=-eq-done (from_raw_syscall_error build res) (dispatch_error build c ctx) q in
      (e, raw, dispatch_error-state build c ctx e q')

  on_recv-Next :
      (phase : RecvPhase) (c : ConnHandler) (ctx : ExecutorContext) (res : ℤ) (flags : ℕ) {r : Step}
      → c.state ≡ receiving phase
      → on_recv build read_header mem c ctx res ≡ done r
      → Next build c.offset (receiving phase) (io_completed res flags) r.2
  unfolding on_recv
  on_recv-Next phase c ctx (pos zero) flags {r} s e =
      let closes : r.2 ≡ closing = ground arith in rw closes (end_of_stream phase flags)
  on_recv-Next phase c ctx (pos (suc n)) flags {r} s e =
      let ((c', ctx', s'), e₁, e₂) =
        >>=-eq-done (received build read_header mem c ctx (pos (suc n))) _ e in
      rw (after_recv c' ctx' s' e₂)
        (received-Next phase n flags c.offset s' (received-state c ctx (pos (suc n)) e₁))
  on_recv-Next phase c ctx (negsuc n) flags {r} s e =
      let ((c', ctx', s'), e₁, e₂) = >>=-eq-done (handle_io_error build c ctx (negsuc n)) _ e in
      rw (after_recv c' ctx' s' e₂)
        (error-Next phase n flags c.offset s' (rw s at (handle_io_error-state c ctx (negsuc n) e₁)))

  handle_event-Next :
      (s : ConnHandlerState) (event : MachineEvent) (c : ConnHandler) (ctx : ExecutorContext)
      {r : Step}
      → c.state ≡ s
      → handle_event build read_header mem s event c ctx ≡ done r
      → Next build c.offset s event r.2
  unfolding handle_event
  handle_event-Next init spawned c ctx {r} q e =
      let ((pool, h), _, e') = >>=-eq-done (BufferPool.alloc build ctx.buffers) _ e in
      start-Next build c.offset r.2 (start-state c (record ctx { buffers = pool }) h e')
  handle_event-Next (receiving phase) (io_completed res flags) c ctx q e =
      on_recv-Next phase c ctx res flags q e
  handle_event-Next closing (io_completed res flags) c ctx {r} q e =
      closing-Next build c.offset res flags r.2 (on_closing-state build c ctx res e)
  handle_event-Next closed event c ctx {r} q e =
      let same : r.2 ≡ closed = ground arith in rw same (stays_closed event)
  handle_event-Next init (io_completed res flags) c ctx q e = absurd (cc)
  handle_event-Next (receiving phase) spawned c ctx q e = absurd (cc)
  handle_event-Next closing spawned c ctx q e = absurd (cc)

  -- Where `process_event` of the connection handler returns, its state has made one of the steps
  -- that the relation `Next` allows for the event: on the spawn event it receives or waits; a
  -- positive result leads to a header just when five bytes are there with it; an error keeps the
  -- state where its number is one of those that pass or is listed nowhere, and closes where it is
  -- one of those that end a connection; a result of 0 while closing is the end, and any other
  -- result closes again.
  pub process_event-Next :
      (c c' : ConnHandler) (ctx ctx' : ExecutorContext) (event : MachineEvent)
      → process_event build read_header mem c ctx event ≡ done (c', ctx')
      → Next build c.offset c.state event c'.state
  unfolding process_event
  process_event-Next c c' ctx ctx' event e =
      let ((c₁, ctx₁, s), e₁, e₂) =
        >>=-eq-done (handle_event build read_header mem c.state event c ctx) _ e in
      subst (λ x. Next build c.offset c.state event x.state) (ap (λ x. x.0) (done-injective e₂))
        (handle_event-Next c.state event c ctx refl e₁)
