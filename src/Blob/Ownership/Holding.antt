-- ===== src/Blob/Ownership/Holding.antt =====
-- hoarder-blob/src/state_machine/conn_handler.rs: the buffer that a handler's state answers for, when
-- it starts and when it closes.
use hoarder.Base.{
  undefined, ℕ, ◌≡◌, refl, sym, subst, Option, none, some, List, [], ◌∷◌, arith, Outcome, done,
  ◌>>=◌, debug, ◌%◌, ◌^◌,
}
use hoarder.Base.Post.{Safe, IsDefined, Safe-bind, Safe-after, Safe-map}
use hoarder.Collections.GenAlloc.Defs.{GenAlloc}
use hoarder.Collections.GenAlloc.Invariant.{Book, generation_at}
use hoarder.Collections.GenAlloc.Laws.{after_alloc, id_at}
use hoarder.Collections.BufferPool.{BufferHandle, BufferPool}
use hoarder.Collections.BufferPool.Laws.{Holds, allocated, exhausted}
use hoarder.Blob.Protocol.{retry, close_fixed, submit_recv, ExecutorContext, submit_intent}
use hoarder.Blob.ConnHandler.{ConnHandlerState, RecvPhase, ConnHandler, Step, buf_size, buf_align}
use hoarder.Blob.ConnHandler as Conn
use hoarder.Blob.Ownership.Books.{takes}
use hoarder.Blob.Ownership.Release.{
  IsStale, Moves, unmoved, Released, IsGentle, Further, submit-Further,
}

-- The handle that a handler in a state answers for.
abbrev pub held_in : ConnHandlerState → Option BufferHandle → Option BufferHandle
held_in (Conn.receiving phase) h = h
held_in _ h = none

abbrev pub IsThere : Option BufferHandle → Type 0
IsThere none = ⊥
IsThere (some h) = Unit

-- While it receives there is a handle, and while it closes its handle has been given back.
abbrev pub IsRight : GenAlloc → ConnHandlerState → Option BufferHandle → Type 0
IsRight g Conn.closing h = IsStale g h
IsRight g (Conn.receiving phase) h = IsThere h
IsRight g _ h = Unit

-- What a method makes of a handler that had a buffer or had none.
abbrev pub Kept : BufferPool → Book → Option BufferHandle → Step → Type 0
Kept p book v r =
    Moves p book v r.1.buffers (held_in r.2 r.0.handle)
    × IsRight r.1.buffers.allocator r.2 r.0.handle
    × IsGentle r.1.intents

-- The same where the handle stays.
abbrev pub Stays : BufferPool → Book → Option BufferHandle → Option BufferHandle → Step → Type 0
Stays p book v h r =
    (r.0.handle ≡ h)
    × Moves p book v r.1.buffers (held_in r.2 r.0.handle)
    × IsRight r.1.buffers.allocator r.2 r.0.handle
    × IsGentle r.1.intents

pub forget :
    (p : BufferPool) (book : Book) (v h : Option BufferHandle) (m : Outcome Step)
    → Safe (Stays p book v h) m
    → Safe (Kept p book v) m
forget p book v h m k =
    Safe-map (Stays p book v h) (Kept p book v) m k λ r (same, moves, right, gs). (moves, right, gs)

pub buf_handle-IsDefined : (c : ConnHandler) → IsThere c.handle → IsDefined (Conn.buf_handle c)
unfolding Conn.buf_handle
buf_handle-IsDefined c there = of c.handle there
  where
    of :
        (h : Option BufferHandle)
        → IsThere h
        → IsDefined {A = BufferHandle} (elim h [ none ↦ undefined | some x ↦ done x ])
    of none there = absurd there
    of (some x) there = tt

module _ (book : Book) (q : List ℕ) where
  pub recv-Further :
      (c : ConnHandler) (ctx : ExecutorContext)
      → IsThere c.handle
      → IsGentle ctx.intents
      → Safe (Further ctx) (Conn.recv c ctx)
  unfolding Conn.recv
  recv-Further c ctx there gs =
      Safe-after (Further ctx) (Conn.buf_handle c) _ (buf_handle-IsDefined c there)
        λ h. submit-Further ctx (submit_recv c.socket h (c.offset % 2 ^ 16)) gs tt

  -- `close`, given what `release_buffer` does.
  pub closing-Kept :
      (c : ConnHandler) (ctx : ExecutorContext) (v : Option BufferHandle)
      (hs : Holds buf_size ctx.buffers q book)
      → IsGentle ctx.intents
      → Safe (Released book q hs ctx c.handle v) (Conn.release_buffer debug c.handle ctx)
      → Safe
          (Stays ctx.buffers book v c.handle)
          (Conn.close debug c ctx >>= λ r. done (r.0, r.1, Conn.closing))
  unfolding Conn.close Released
  closing-Kept c ctx v hs gs released =
      Safe-bind (Stays ctx.buffers book v c.handle)
        (λ r.
          (r.0.handle ≡ c.handle)
          × Moves ctx.buffers book v r.1.buffers none
          × IsStale r.1.buffers.allocator c.handle
          × IsGentle r.1.intents)
        (Conn.close debug c ctx) _
        (Safe-bind _ (Released book q hs ctx c.handle v) (Conn.release_buffer debug c.handle ctx) _
          released
          λ ctx₁ (same, moves, stale).
            Safe-bind _ (Further ctx₁) (submit_intent ctx₁ (close_fixed c.socket)) _
              (submit-Further ctx₁ (close_fixed c.socket) (subst IsGentle (sym same) gs) tt)
              λ ctx₂ (bufs, gs'). (
                refl,
                subst (λ b. Moves ctx.buffers book v b none) (sym bufs) moves,
                subst (λ b. IsStale b.allocator c.handle) (sym bufs) stale,
                gs',
              ))
        λ r (same, moves, stale, gs').
          (same, moves, subst (IsStale r.1.buffers.allocator) (sym same) stale, gs')

-- The first free buffer goes to a handler that had none.
takes-Moves :
    (book : Book) (i : ℕ) (q : List ℕ) {p : BufferPool}
    → Holds buf_size p (i ∷ q) book
    → Moves p book none
        (record p { allocator = after_alloc p.allocator })
        (some (record { id = id_at p.allocator i }))
unfolding after_alloc
takes-Moves book i q {p} hs =
    let (_, unheld, hs', _) = allocated buf_size buf_align debug i q hs in
    record {
      vacant = _;
      books = _;
      holds = hs';
      change = takes i (generation_at p.allocator i) refl refl unheld refl;
      rises = λ j. omega arith;
    }

pub on_init-Kept :
    (book : Book) (q : List ℕ) (c : ConnHandler) (ctx : ExecutorContext)
    → Holds buf_size ctx.buffers q book
    → IsGentle ctx.intents
    → Safe (Kept ctx.buffers book none) (Conn.on_init debug c ctx)
unfolding Conn.on_init Conn.start
on_init-Kept book [] c ctx hs gs = rw (exhausted buf_size buf_align debug hs) (
    Safe-bind (Kept ctx.buffers book none) (Further ctx) (submit_intent ctx retry) _
      (submit-Further ctx retry gs tt)
      λ ctx' (bufs, gs'). (
        subst (λ b. Moves ctx.buffers book none b none) (sym bufs) (unmoved book [] hs refl),
        tt,
        gs',
      ))
on_init-Kept book (i ∷ q) c ctx hs gs =
    let (made, _, _, _) = allocated buf_size buf_align debug i q hs in
    let ctx₁ : ExecutorContext = record ctx {
      buffers = record ctx.buffers { allocator = after_alloc ctx.buffers.allocator };
    } in
    let h : BufferHandle = record { id = id_at ctx.buffers.allocator i } in
    rw made (
      Safe-bind (Kept ctx.buffers book none) (Further ctx₁)
        (Conn.recv (record c { handle = some h }) ctx₁) _
        (recv-Further book q (record c { handle = some h }) ctx₁ tt gs)
        λ ctx' (bufs, gs'). (
          subst (λ b. Moves ctx.buffers book none b (some h)) (sym bufs) (takes-Moves book i q hs),
          tt,
          gs',
        ))
