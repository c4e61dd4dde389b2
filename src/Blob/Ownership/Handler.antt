-- ===== src/Blob/Ownership/Handler.antt =====
-- hoarder-blob/src/state_machine/conn_handler.rs: a handler has its buffer just while it receives,
-- whatever event comes.
use hoarder.Base.{
  true, ℕ, ◌≡◌, refl, sym, ap, subst, Option, none, List, [], ◌∷◌, ◌++◌, length, ltb, assert,
  Outcome, done, ◌>>=◌, debug, ◌⊎◌, inl, inr, is_zero,
}
use hoarder.Base.Post.{Safe, Safe-bind, Safe-after, Safe-if, Safe-map, assert-IsDefined}
use hoarder.Collections.GenAlloc.Invariant.{Book}
use hoarder.Collections.BufferPool.{Memory, Slice, BufferHandle, BufferPool}
use hoarder.Collections.BufferPool.Laws.{Holds}
use hoarder.Blob.Protocol.{
  MachineEvent, spawned, io_completed, MachineIntent, terminate, ExecutorContext, submit_intent,
  MsgHeader,
}
use hoarder.Blob.ConnHandler.{ConnHandlerState, RecvPhase, ConnHandler, Step, buf_size, buf_align}
use hoarder.Blob.ConnHandler as Conn
use hoarder.Blob.Ownership.Release.{IsOut, Moves, unmoved, release-stale, IsGentle}
use hoarder.Blob.Ownership.Holding.{held_in, IsRight, Kept, forget, closing-Kept, on_init-Kept}
use hoarder.Blob.Ownership.Receiving.{on_recv-Kept}

-- A handler that asks for its end is closed, and asks for nothing else.
abbrev pub Fate : List MachineIntent → ConnHandlerState → Type 0
Fate xs s = IsGentle xs ⊎ ((xs ≡ terminate ∷ []) × (s ≡ Conn.closed))

-- The same of a whole event.
abbrev pub Handled : BufferPool → Book → Option BufferHandle → Step → Type 0
Handled p book v r =
    Moves p book v r.1.buffers (held_in r.2 r.0.handle)
    × IsRight r.1.buffers.allocator r.2 r.0.handle
    × Fate r.1.intents r.2

module _ (book : Book) (q : List ℕ) (c : ConnHandler) (ctx : ExecutorContext)
    (hs : Holds buf_size ctx.buffers q book) (first : ctx.intents ≡ []) where
  gently :
      (v : Option BufferHandle) (m : Outcome Step)
      → Safe (Kept ctx.buffers book v) m
      → Safe (Handled ctx.buffers book v) m
  gently v m k =
      Safe-map (Kept ctx.buffers book v) (Handled ctx.buffers book v) m k
        λ r (moves, right, gs). (moves, right, inl gs)

  terminates :
      Safe
        (Handled ctx.buffers book none)
        (submit_intent ctx terminate >>= λ ctx'. done (c, ctx', Conn.closed))
  unfolding submit_intent
  terminates =
      Safe-bind (Handled ctx.buffers book none)
        (λ ctx'. (ctx'.buffers ≡ ctx.buffers) × (ctx'.intents ≡ terminate ∷ []))
        (submit_intent ctx terminate) _
        (Safe-after _ (assert (ltb (length ctx.intents) ctx.slots)) _
          (assert-IsDefined (ltb (length ctx.intents) ctx.slots))
          λ _. (refl, ap (λ xs. xs ++ (terminate ∷ [])) first))
        λ ctx' (bufs, only). (
          subst (λ b. Moves ctx.buffers book none b none) (sym bufs) (unmoved book q hs refl),
          tt,
          inr (only, refl),
        )

  gentle : IsGentle ctx.intents
  gentle = subst IsGentle (sym first) tt

  module _ (read_header : List ℕ → Option MsgHeader) (mem : Memory)
      (ready : (x : Slice) → mem.ready x ≡ true) where
    handle_event-Handled :
        (s : ConnHandlerState) (event : MachineEvent)
        → c.state ≡ s
        → IsOut book (held_in s c.handle)
        → IsRight ctx.buffers.allocator s c.handle
        → Safe
            (Handled ctx.buffers book (held_in s c.handle))
            (Conn.handle_event debug read_header mem s event c ctx)
    unfolding Conn.handle_event Conn.on_closing
    handle_event-Handled Conn.init spawned same out right =
        gently none (Conn.on_init debug c ctx) (on_init-Kept book q c ctx hs gentle)
    handle_event-Handled Conn.init (io_completed res flags) same out right = tt
    handle_event-Handled (Conn.receiving phase) (io_completed res flags) same out right =
        gently c.handle (Conn.on_recv debug read_header mem c ctx res)
          (on_recv-Kept book q c ctx hs gentle right phase same out read_header mem ready res)
    handle_event-Handled (Conn.receiving phase) spawned same out right = tt
    handle_event-Handled Conn.closing (io_completed res flags) same out right =
        Safe-if (Handled ctx.buffers book none) (is_zero res) _ _ terminates (
          gently none _ (
            forget ctx.buffers book none c.handle _ (
              closing-Kept book q c ctx none hs gentle
                (release-stale ctx book q hs c.handle right))))
    handle_event-Handled Conn.closing spawned same out right = tt
    handle_event-Handled Conn.closed event same out right = (unmoved book q hs refl, tt, inl gentle)

    pub process_event-Handled :
        (event : MachineEvent)
        → IsOut book (held_in c.state c.handle)
        → IsRight ctx.buffers.allocator c.state c.handle
        → Safe
            (λ r. Handled ctx.buffers book (held_in c.state c.handle) (r.0, r.1, r.0.state))
            (Conn.process_event debug read_header mem c ctx event)
    unfolding Conn.process_event
    process_event-Handled event out right =
        Safe-bind _ (Handled ctx.buffers book (held_in c.state c.handle))
          (Conn.handle_event debug read_header mem c.state event c ctx) _
          (handle_event-Handled c.state event refl out right) λ r h. h
