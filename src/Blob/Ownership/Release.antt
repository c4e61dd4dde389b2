-- ===== src/Blob/Ownership/Release.antt =====
-- hoarder-blob/src/state_machine/conn_handler.rs, `close`: giving a buffer back, once or twice.
use hoarder.Base.{
  true, sym, ◌==◌, if◌then◌else◌, ℕ, ◌+◌, ◌≤◌, ◌<◌, ◌≡◌, refl, ap, ◌∙◌, subst, Option, none, some,
  List, [], ◌∷◌, ◌++◌, length, ltb, assert, arith, done, panic, overflow, false, debug, add_u32,
  inl, inr, get_or-set_self, get_or-set_ne, ℕ_discrete,
}
use hoarder.Base.Post.{Safe, Safe-after, Safe-if, IsDefined, assert-IsDefined}
use hoarder.Collections.GenAlloc.Defs.{GenAlloc, is_valid}
use hoarder.Collections.GenAlloc.Invariant.{Book, size, generation_at, held_room, is_valid_lem}
use hoarder.Collections.GenAlloc.Laws.{after_free, add_u32_cases, free_stops, free_refused}
use hoarder.Collections.AlignedBuffers.{buf_ptr}
use hoarder.Collections.AlignedBuffers.Laws.{IsSound, buf_ptr_lem}
use hoarder.Collections.BufferPool
use hoarder.Collections.BufferPool.{Memory, Slice, BufferHandle, BufferPool}
use hoarder.Collections.BufferPool.Laws.{Holds, handle, freed}
use hoarder.Blob.Protocol.{
  MachineIntent, retry, terminate, close_fixed, spawn_conn_handler, submit_multishot_accept,
  submit_recv, ExecutorContext, submit_intent,
}
use hoarder.Blob.ConnHandler.{
  ConnHandlerState, receiving, closing, ConnHandler, buf_size, buf_align,
}
use hoarder.Blob.ConnHandler as Conn
use hoarder.Blob.Ownership.Books.{Change, keeps, gives}

-- The generation of the handle is over.
abbrev pub IsStale : GenAlloc → Option BufferHandle → Type 0
IsStale g none = Unit
IsStale g (some h) = h.id.generation < generation_at g h.id.index

-- The handle, if there is one, is out.
abbrev pub IsOut : Book → Option BufferHandle → Type 0
IsOut book none = Unit
IsOut book (some h) = book h.id.index ≡ some h.id.generation

-- A pool that was well formed with a book becomes another one, while an owner's handle changes.
pub record Moves (p : BufferPool) (book : Book) (v : Option BufferHandle) (p' : BufferPool)
    (v' : Option BufferHandle) : Type 0 where
  pub vacant : List ℕ
  pub books : Book
  pub holds : Holds buf_size p' vacant books
  pub change : Change book v v' books
  pub rises : (i : ℕ) → generation_at p.allocator i ≤ generation_at p'.allocator i

pub unmoved :
    {p : BufferPool} (book : Book) (q : List ℕ) {v v' : Option BufferHandle}
    → Holds buf_size p q book
    → v' ≡ v
    → Moves p book v p v'
unmoved book q hs e = record {
  vacant = q;
  books = book;
  holds = hs;
  change = keeps e refl;
  rises = λ i. omega arith;
}

-- The next generation in a debug build.
next_debug : (gen : ℕ) {next : ℕ} → add_u32 debug gen 1 ≡ done next → next ≡ gen + 1
unfolding add_u32
next_debug gen e = ground arith

module _ {p : BufferPool} (book : Book) (q : List ℕ) (hs : Holds buf_size p q book) where
  module _ (b g : ℕ) (out : book b ≡ some g) {next : ℕ} (e : add_u32 debug g 1 ≡ done next) where
    raised : generation_at (after_free p.allocator b next) b ≡ g + 1
    unfolding after_free
    raised =
        let (inside, _, _) = held_room q hs.books out in
        get_or-set_self p.allocator.generation.cells b next 0 (omega (arith, hs.books.table))
        ∙ next_debug g e

    freed-rises :
        (i : ℕ) → generation_at p.allocator i ≤ generation_at (after_free p.allocator b next) i
    unfolding after_free
    freed-rises i = elim (ℕ_discrete b i) [
      | yes f ↦
          subst (λ k. generation_at p.allocator k ≤ generation_at (after_free p.allocator b next) k)
            f (omega (arith, raised, hs.books.current b g out))
      | no ne ↦ omega (arith, get_or-set_ne p.allocator.generation.cells next 0 ne)
    ]

    gives-Moves :
        Moves p book
          (some (handle b g))
          (record p { allocator = after_free p.allocator b next })
          none
    gives-Moves =
        let (_, hs', _) = freed buf_size buf_align debug q b g hs out e in
        record {
          vacant = _;
          books = _;
          holds = hs';
          change = gives b g refl refl refl;
          rises = freed-rises;
        }

  -- What `release_buffer` leaves: no buffer, and a handle whose generation is over.
  unfoldable pub Released :
      ExecutorContext → Option BufferHandle → Option BufferHandle → ExecutorContext → Type 0
  Released ctx h v ctx' =
      (ctx'.intents ≡ ctx.intents)
      × Moves p book v ctx'.buffers none
      × IsStale ctx'.buffers.allocator h

module _ {p : BufferPool} {book : Book} (q : List ℕ) (hs : Holds buf_size p q book)
    (h : BufferHandle) where
  -- Past the largest generation.
  pool_stops :
      book h.id.index ≡ some h.id.generation
      → add_u32 debug h.id.generation 1 ≡ panic overflow
      → BufferPool.free debug p h ≡ panic overflow
  unfolding BufferPool.free
  pool_stops out e = rw (free_stops debug q hs.books out e) refl

  -- A generation that is over.
  pool_refuses : IsStale p.allocator (some h) → BufferPool.free debug p h ≡ done (p, false)
  unfolding BufferPool.free
  pool_refuses stale =
      let invalid : is_valid p.allocator h.id ≡ done false =
        is_valid_lem p.allocator h.id hs.books.table ∙ ap done (ground arith) in
      rw (free_refused debug p.allocator h.id invalid) refl

pub ptr-IsDefined : (p : BufferPool) (i : ℕ) → IsSound p.pool → IsDefined (buf_ptr debug p.pool i)
ptr-IsDefined p i sound = elim (buf_ptr_lem debug p.pool i sound) [
  | inl (_, e, _, _) ↦ subst IsDefined (sym e) tt
  | inr (_, e) ↦ subst IsDefined (sym e) tt
]

-- Looking a buffer up.
pub get-IsDefined :
    {p : BufferPool} {book : Book} (q : List ℕ)
    → Holds buf_size p q book
    → (mem : Memory) → ((x : Slice) → mem.ready x ≡ true)
    → (h : BufferHandle) → IsDefined (BufferPool.get buf_size buf_align debug mem p h)
unfolding BufferPool.get
get-IsDefined {p} q hs mem ready h = rw (is_valid_lem p.allocator h.id hs.books.table) (
    Safe-if (λ _. Unit)
      (if ltb h.id.index (size p.allocator)
        then h.id.generation == generation_at p.allocator h.id.index
        else false)
      _ _
      (Safe-after (λ _. Unit) (buf_ptr debug p.pool h.id.index) _
        (ptr-IsDefined p h.id.index hs.block)
        λ start. rw (ready (record { start = start; len = buf_size })) tt)
      tt)

module _ (ctx : ExecutorContext) (book : Book) (q : List ℕ)
    (hs : Holds buf_size ctx.buffers q book) where
  -- A handle that is out.
  pub release-out :
      (h : Option BufferHandle)
      → IsOut book h
      → Safe (Released book q hs ctx h h) (Conn.release_buffer debug h ctx)
  unfolding Conn.release_buffer Released
  release-out none out = (refl, unmoved book q hs refl, tt)
  release-out (some h) out = elim (add_u32_cases debug h.id.generation) [
    | inl (next, e) ↦
        let (ef, _, _) = freed buf_size buf_align debug q h.id.index h.id.generation hs out e in
        rw ef (
          refl,
          gives-Moves book q hs h.id.index h.id.generation out e,
          omega (arith, raised book q hs h.id.index h.id.generation out e),
        )
    | inr e ↦ rw (pool_stops q hs h out e) tt
  ]

  -- A handle that was given back before.
  pub release-stale :
      (h : Option BufferHandle)
      → IsStale ctx.buffers.allocator h
      → Safe (Released book q hs ctx h none) (Conn.release_buffer debug h ctx)
  unfolding Conn.release_buffer Released
  release-stale none stale = (refl, unmoved book q hs refl, tt)
  release-stale (some h) stale =
      rw (pool_refuses q hs h stale) (refl, unmoved book q hs refl, stale)

-- No intent to end.
abbrev pub IsGentle : List MachineIntent → Type 0
IsGentle [] = Unit
IsGentle (terminate ∷ xs) = ⊥
IsGentle (x ∷ xs) = IsGentle xs

IsGentle-snoc :
    (xs : List MachineIntent) (x : MachineIntent)
    → IsGentle xs
    → IsGentle (x ∷ [])
    → IsGentle (xs ++ (x ∷ []))
IsGentle-snoc [] x gs g = g
IsGentle-snoc (retry ∷ xs) x gs g = IsGentle-snoc xs x gs g
IsGentle-snoc (terminate ∷ xs) x gs g = gs
IsGentle-snoc (close_fixed f ∷ xs) x gs g = IsGentle-snoc xs x gs g
IsGentle-snoc (spawn_conn_handler f ∷ xs) x gs g = IsGentle-snoc xs x gs g
IsGentle-snoc (submit_multishot_accept f ∷ xs) x gs g = IsGentle-snoc xs x gs g
IsGentle-snoc (submit_recv f h n ∷ xs) x gs g = IsGentle-snoc xs x gs g

-- A further intent that is not the one to end.
abbrev pub Further : ExecutorContext → ExecutorContext → Type 0
Further ctx ctx' = (ctx'.buffers ≡ ctx.buffers) × IsGentle ctx'.intents

pub submit-Further :
    (ctx : ExecutorContext) (x : MachineIntent)
    → IsGentle ctx.intents
    → IsGentle (x ∷ [])
    → Safe (Further ctx) (submit_intent ctx x)
unfolding submit_intent
submit-Further ctx x gs g =
    Safe-after (Further ctx) (assert (ltb (length ctx.intents) ctx.slots)) _
      (assert-IsDefined (ltb (length ctx.intents) ctx.slots))
      λ _. (refl, IsGentle-snoc ctx.intents x gs g)
