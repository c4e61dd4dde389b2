-- ===== src/Blob/Ownership/Slots.antt =====
-- hoarder-blob/src/executor/mod.rs: the handlers in the slots of their pool as the owners of the
-- buffers.
use hoarder.Base.{
  ℕ, ◌≤◌, ◌≡◌, refl, sym, ap, ◌∙◌, subst, Option, none, some, List, arith, inl, inr, ℕ_discrete,
}
use hoarder.Collections.GenAlloc.Defs.{GenAlloc}
use hoarder.Collections.GenAlloc.Invariant.{Book, generation_at}
use hoarder.Collections.BufferPool.{BufferHandle, BufferPool}
use hoarder.Collections.BufferPool.Laws as Buffers
use hoarder.Collections.ObjectHandle
use hoarder.Collections.ObjectHandle.{ObjectHandle}
use hoarder.Collections.ObjectPool.{ObjectPool}
use hoarder.Collections.ObjectPool.Laws as Objects
use hoarder.Collections.ObjectPool.Laws.{slot_at, IsHeld}
use hoarder.Collections.ObjectPool.Posts.{Written, Spawned, Despawned}
use hoarder.Blob.Protocol.{ExecutorContext}
use hoarder.Blob.ConnHandler.{ConnHandlerState, ConnHandler, buf_size}
use hoarder.Blob.ConnHandler as Conn
use hoarder.Blob.Ownership.Books.{Owners, Owned, Change, Change-Owned, same-Owned}
use hoarder.Blob.Ownership.Release.{IsOut}
use hoarder.Blob.Ownership.Holding.{held_in, IsRight}
use hoarder.Blob.Ownership.Handler.{Handled}

-- What a slot answers for.
abbrev pub holder : Option ConnHandler → Option BufferHandle
holder none = none
holder (some c) = held_in c.state c.handle

abbrev pub owners : ObjectPool ConnHandler → Owners
owners conns i = holder (slot_at conns i)

abbrev pub IsRightSlot : GenAlloc → Option ConnHandler → Type 0
IsRightSlot g none = Unit
IsRightSlot g (some c) = IsRight g c.state c.handle

-- Both pools are well formed, a buffer is out just while one handler receives into it, and what the
-- closing handlers had has been given back.
pub record IsOwned (conns : ObjectPool ConnHandler) (bufs : BufferPool) : Type 0 where
  pub free_conns : List ℕ
  pub conn_book : Book
  pub free_bufs : List ℕ
  pub buf_book : Book
  pub conns_hold : Objects.Holds conns free_conns conn_book
  pub bufs_hold : Buffers.Holds buf_size bufs free_bufs buf_book
  pub owned : Owned (owners conns) buf_book
  pub right : (i : ℕ) → IsRightSlot bufs.allocator (slot_at conns i)

-- Generations that rise leave what is over.
IsRightSlot-rises :
    (g g' : GenAlloc) (o : Option ConnHandler)
    → ((i : ℕ) → generation_at g i ≤ generation_at g' i)
    → IsRightSlot g o
    → IsRightSlot g' o
IsRightSlot-rises g g' none rises old = tt
IsRightSlot-rises g g' (some c) rises old = of c.state c.handle old
  where
    of : (s : ConnHandlerState) (h : Option BufferHandle) → IsRight g s h → IsRight g' s h
    of Conn.closing none old = tt
    of Conn.closing (some h) old = omega (arith, rises h.id.index)
    of Conn.closed h old = tt
    of Conn.init h old = tt
    of (Conn.receiving phase) h old = old

module _ {conns : ObjectPool ConnHandler} {bufs : BufferPool} (o : IsOwned conns bufs) where
  -- The handler of a slot has what the books say.
  pub slot-IsOut :
      (i : ℕ) (c : ConnHandler)
      → slot_at conns i ≡ some c
      → IsOut o.buf_book (held_in c.state c.handle)
  slot-IsOut i c there = of (held_in c.state c.handle) (ap holder there)
    where
      of : (v : Option BufferHandle) → owners conns i ≡ v → IsOut o.buf_book v
      of none e = tt
      of (some h) e = o.owned.live i h.id.index h.id.generation e

  -- A handler after an event, put back.
  pub Written-IsOwned :
      (h : ObjectHandle) (c c' : ConnHandler) (ctx : ExecutorContext)
      {conns' : ObjectPool ConnHandler}
      → slot_at conns (ObjectHandle.index h) ≡ some c
      → Handled bufs o.buf_book (held_in c.state c.handle) (c', ctx, c'.state)
      → Written o.free_conns o.conns_hold h c' conns'
      → (o' : IsOwned conns' ctx.buffers) × (o'.conn_book ≡ o.conn_book)
  Written-IsOwned h c c' ctx {conns'} there (moves, right, _) (holds, here, others) = (
    record {
      free_conns = o.free_conns;
      conn_book = o.conn_book;
      free_bufs = moves.vacant;
      buf_book = moves.books;
      conns_hold = holds;
      bufs_hold = moves.holds;
      owned =
          Change-Owned (owners conns) (owners conns') o.buf_book moves.books (ObjectHandle.index h)
            o.owned (λ j ne. ap holder (others j ne))
            (subst (λ v. Change o.buf_book v (owners conns' (ObjectHandle.index h)) moves.books)
              (sym (ap holder there))
              (subst (λ v. Change o.buf_book (held_in c.state c.handle) v moves.books)
                (sym (ap holder here)) moves.change));
      right = λ j. elim (ℕ_discrete j (ObjectHandle.index h)) [
        | yes e ↦
            subst (λ k. IsRightSlot ctx.buffers.allocator (slot_at conns' k)) (sym e)
              (subst (IsRightSlot ctx.buffers.allocator) (sym here) right)
        | no ne ↦ subst (IsRightSlot ctx.buffers.allocator) (sym (others j ne)) (
            IsRightSlot-rises bufs.allocator ctx.buffers.allocator (slot_at conns j) moves.rises
              (o.right j))
      ];
    },
    refl,
  )

  -- A new handler has no buffer.
  pub Spawned-IsOwned :
      (fd : ℕ) {conns' : ObjectPool ConnHandler}
      → Spawned conns (Conn.new fd) conns'
      → IsOwned conns' bufs
  unfolding Conn.new
  Spawned-IsOwned fd {conns'} s = record {
    free_conns = s.vacant;
    conn_book = s.books;
    free_bufs = o.free_bufs;
    buf_book = o.buf_book;
    conns_hold = s.holds;
    bufs_hold = o.bufs_hold;
    owned = same-Owned o.owned λ j. elim (s.slots j) [
      | inl e ↦ ap holder e
      | inr (before, now) ↦ ap holder now ∙ sym (ap holder before)
    ];
    right = λ j. elim (s.slots j) [
      | inl e ↦ subst (IsRightSlot bufs.allocator) (sym e) (o.right j)
      | inr (before, now) ↦ subst (IsRightSlot bufs.allocator) (sym now) tt
    ];
  }

  -- A handler without a buffer goes.
  pub Despawned-IsOwned :
      (h : ObjectHandle) {conns' : ObjectPool ConnHandler}
      → owners conns (ObjectHandle.index h) ≡ none
      → Despawned conns h conns'
      → IsOwned conns' bufs
  Despawned-IsOwned h {conns'} idle s = record {
    free_conns = s.vacant;
    conn_book = s.books;
    free_bufs = o.free_bufs;
    buf_book = o.buf_book;
    conns_hold = s.holds;
    bufs_hold = o.bufs_hold;
    owned = same-Owned o.owned λ j. elim (s.slots j) [
      | inl e ↦ ap holder e
      | inr (here, now) ↦ ap holder now ∙ sym (ap (owners conns) here ∙ idle)
    ];
    right = λ j. elim (s.slots j) [
      | inl e ↦ subst (IsRightSlot bufs.allocator) (sym e) (o.right j)
      | inr (here, now) ↦ subst (IsRightSlot bufs.allocator) (sym now) tt
    ];
  }
