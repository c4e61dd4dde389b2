-- ===== src/Collections/ObjectPool/Laws.antt =====
-- The object pool against a partial map from the handles that are out to objects.
use hoarder.Base.{
  ℕ, length, ==_refl, ◌^◌, ◌≤◌, ◌<◌, ◌≡◌, ◌≢◌, refl, sym, ap, ◌∙◌, List, [], ◌∷◌, ◌++◌, Option,
  none, some, arith, true, false, done, Build, subst, add_u32, get_or, set, get_or-set_self,
  get_or-set_ne, length-set, ℕ_discrete,
}
use hoarder.Collections.Array.Laws.{IsSound, index_lem, set_index_lem}
use hoarder.Collections.GenAlloc.Defs.{is_valid}
use hoarder.Collections.GenAlloc.Invariant.{
  Book, enter, taken, Owns, size, generation_at, free_head, held_room,
}
use hoarder.Collections.GenAlloc.Laws.{
  alloc_lem, alloc-none, free_lem, held_valid, after_alloc, after_free, id_at,
}
use hoarder.Collections.ObjectHandle
use hoarder.Collections.ObjectHandle.{ObjectHandle, handle_fields}
use hoarder.Collections.ObjectPool.{ObjectPool, id_of, spawn, get, despawn}

abbrev pub occupied {ℓ} : {A : Type ℓ} → Option A → ℕ
occupied none = 0
occupied (some x) = 1

-- The handle is out.
abbrev pub IsHeld : Book → ObjectHandle → Type 0
IsHeld held h = held (ObjectHandle.index h) ≡ some (ObjectHandle.generation h)

module _ {ℓ} {A : Type ℓ} where
  pub empty_slot : (o : Option A) → occupied o ≡ 0 → o ≡ none
  empty_slot none e = refl
  empty_slot (some x) e = absurd (omega arith)

  -- A slot that is written together with the book agrees with it.
  pub filled-set :
      (cells : List (Option A)) (held : Book) (i j : ℕ) (v : Option A) (n : Option ℕ)
      → i < length cells
      → occupied v ≡ taken n
      → occupied (get_or cells j none) ≡ taken (held j)
      → occupied (get_or (set cells i v) j none) ≡ taken (enter held i n j)
  filled-set cells held i j v n inside agree other = elim (ℕ_discrete i j) [
    | yes e ↦
        subst (λ k. occupied (get_or (set cells i v) k none) ≡ taken (enter held i n k)) e
          (rw (get_or-set_self cells i v none inside, ==_refl i) agree)
    | no ne ↦ ground (arith, get_or-set_ne cells v none ne)
  ]

  abbrev pub slot_at : ObjectPool A → ℕ → Option A
  slot_at p i = get_or p.slots.cells i none

  -- The books are complete, there is a slot for every index, the indices fit a handle, and a slot
  -- is filled just while its index is out.
  pub record Holds (p : ObjectPool A) (q : List ℕ) (held : Book) : Type ℓ where
    pub books : Owns p.allocator q held
    pub sound : IsSound p.slots
    pub room : size p.allocator ≤ p.slots.size
    pub small : size p.allocator ≤ 2 ^ 24
    pub filled : (i : ℕ) → occupied (slot_at p i) ≡ taken (held i)

  unfoldable pub after_spawn : ObjectPool A → ℕ → A → ObjectPool A
  after_spawn p i x = record {
    slots = record p.slots { cells = set p.slots.cells i (some x) };
    allocator = after_alloc p.allocator;
  }

  -- `get` on a handle that is out gives its object.
  pub get_held :
      {p : ObjectPool A} {held : Book} (q : List ℕ) (h : ObjectHandle)
      → Holds p q held
      → IsHeld held h
      → get p h ≡ done (slot_at p (ObjectHandle.index h))
  unfolding get
  get_held {p} q h hs out =
      let (inside, _, _) = held_room q hs.books out in
      rw (
        held_valid q hs.books out,
        index_lem p.slots (ObjectHandle.index h) none hs.sound (omega (arith, hs.room)),
      )

  -- `get` on a handle whose id is not valid gives nothing.
  pub get_refused :
      (p : ObjectPool A) (h : ObjectHandle)
      → is_valid p.allocator (id_of h) ≡ done false
      → get p h ≡ done none
  unfolding get
  get_refused p h e = rw e

  pub after_spawn-Holds :
      (build : Build) {p : ObjectPool A} {held : Book} (i : ℕ) (q : List ℕ) (x : A)
      → Holds p (i ∷ q) held
      → Holds (after_spawn p i x) q (enter held i (some (generation_at p.allocator i)))
  unfolding after_spawn after_alloc
  after_spawn-Holds build {p} {held} i q x hs =
      let (inside, unheld, _) = free_head hs.books in
      let (_, _, books) = alloc_lem build hs.books in
      record {
        books = books;
        sound = length-set p.slots.cells i (some x) ∙ hs.sound;
        room = hs.room;
        small = hs.small;
        filled = λ j.
            filled-set p.slots.cells held i j (some x) (some (generation_at p.allocator i))
              (omega (arith, hs.room, hs.sound)) refl (hs.filled j);
      }

  pub spawn_done :
      (pool_id : ℕ) (build : Build) {p : ObjectPool A} {held : Book} (i : ℕ) (q : List ℕ) (x : A)
      → Holds p (i ∷ q) held
      → spawn pool_id build p x
        ≡ done (after_spawn p i x, some (ObjectHandle.new pool_id (id_at p.allocator i)))
  unfolding spawn after_spawn
  spawn_done pool_id build {p} {held} i q x hs =
      let (inside, unheld, _) = free_head hs.books in
      let (e, _, _) = alloc_lem build hs.books in
      let vacant = empty_slot (slot_at p i) (hs.filled i ∙ ap taken unheld) in
      rw (
        e,
        index_lem p.slots i none hs.sound (omega (arith, hs.room)),
        vacant,
        set_index_lem p.slots i (some x) hs.sound (omega (arith, hs.room)),
      )

  pub spawned_slot :
      (build : Build) {p : ObjectPool A} {held : Book} (i : ℕ) (q : List ℕ) (x : A)
      → Holds p (i ∷ q) held
      → slot_at (after_spawn p i x) i ≡ some x
  unfolding after_spawn
  spawned_slot build {p} i q x hs =
      let (inside, _, _) = free_head hs.books in
      get_or-set_self p.slots.cells i (some x) none (omega (arith, hs.room, hs.sound))

  -- While an index is free in a well-formed pool whose id fits a byte, `spawn` puts the object into
  -- a free slot and gives a handle of this pool whose index nobody holds; the pool stays well
  -- formed with the handle in its books, and `get` on it gives the object.
  pub spawn_lem :
      (pool_id : ℕ) (build : Build) {p : ObjectPool A} {held : Book} (i : ℕ) (q : List ℕ) (x : A)
      → pool_id < 2 ^ 8
      → Holds p (i ∷ q) held
      → let h = ObjectHandle.new pool_id (id_at p.allocator i) in
        (spawn pool_id build p x ≡ done (after_spawn p i x, some h))
        × (ObjectHandle.pool_id h ≡ pool_id)
        × (held (ObjectHandle.index h) ≡ none)
        × Holds
            (after_spawn p i x)
            q
            (enter held (ObjectHandle.index h) (some (ObjectHandle.generation h)))
        × (get (after_spawn p i x) h ≡ done (some x))
  spawn_lem pool_id build {p} {held} i q x word hs =
      let (inside, unheld, _) = free_head hs.books in
      let (pf, xf, gf) =
        handle_fields pool_id i (generation_at p.allocator i) word (omega (arith, hs.small))
          (hs.books.words i) in
      let h = ObjectHandle.new pool_id (id_at p.allocator i) in
      let hs' : Holds (after_spawn p i x) q
          (enter held (ObjectHandle.index h) (some (ObjectHandle.generation h))) =
        rw (xf, gf) (after_spawn-Holds build i q x hs) in
      (
        spawn_done pool_id build i q x hs,
        pf,
        rw xf unheld,
        hs',
        get_held q h hs' (rw (==_refl (ObjectHandle.index h)))
            ∙ ap done (rw xf (spawned_slot build i q x hs)),
      )

  -- In a well-formed pool, the state after `spawn` gives on every handle that was out what the pool
  -- gave before.
  pub spawn_others :
      (build : Build) {p : ObjectPool A} {held : Book} (i : ℕ) (q : List ℕ) (x : A)
      (h : ObjectHandle)
      → Holds p (i ∷ q) held
      → IsHeld held h
      → get (after_spawn p i x) h ≡ get p h
  unfolding after_spawn
  spawn_others build {p} {held} i q x h hs out =
      let (inside, unheld, _) = free_head hs.books in
      let ne : i ≢ ObjectHandle.index h = λ e. cc in
      let hs' = after_spawn-Holds build i q x hs in
      get_held q h hs' (ground arith)
      ∙ ap done (get_or-set_ne p.slots.cells (some x) none ne)
      ∙ sym (get_held (i ∷ q) h hs out)

  -- With every index out, `spawn` gives nothing and the pool stays as it is.
  pub spawn_full :
      (pool_id : ℕ) (build : Build) {p : ObjectPool A} {held : Book} (x : A)
      → Holds p [] held
      → spawn pool_id build p x ≡ done (p, none)
  unfolding spawn
  spawn_full pool_id build x hs = rw (alloc-none build hs.books)

  unfoldable pub after_despawn : ObjectPool A → ℕ → ℕ → ObjectPool A
  after_despawn p i next = record {
    slots = record p.slots { cells = set p.slots.cells i none };
    allocator = after_free p.allocator i next;
  }

  pub despawn_done :
      (build : Build) {p : ObjectPool A} {held : Book} (q : List ℕ) (h : ObjectHandle) {next : ℕ}
      → Holds p q held
      → IsHeld held h
      → add_u32 build (ObjectHandle.generation h) 1 ≡ done next
      → despawn build p h ≡ done (after_despawn p (ObjectHandle.index h) next, true)
  unfolding despawn after_despawn
  despawn_done build {p} q h hs out e =
      let (inside, _, _) = held_room q hs.books out in
      rw (
        (free_lem build q hs.books out e).0,
        set_index_lem p.slots (ObjectHandle.index h) none hs.sound (omega (arith, hs.room)),
      )

  -- In a well-formed pool, `despawn` of a handle that is out and whose generation can still rise
  -- empties its slot, takes the handle out of the books and gives its index back; the pool that it
  -- leaves is well formed, and there `get` on the handle gives nothing.
  pub despawn_lem :
      (build : Build) {p : ObjectPool A} {held : Book} (q : List ℕ) (h : ObjectHandle) {next : ℕ}
      → Holds p q held
      → IsHeld held h
      → add_u32 build (ObjectHandle.generation h) 1 ≡ done next
      → (despawn build p h ≡ done (after_despawn p (ObjectHandle.index h) next, true))
        × Holds
            (after_despawn p (ObjectHandle.index h) next)
            (q ++ (ObjectHandle.index h ∷ []))
            (enter held (ObjectHandle.index h) none)
        × (get (after_despawn p (ObjectHandle.index h) next) h ≡ done none)
  unfolding after_despawn after_free
  despawn_lem build {p} {held} q h {next} hs out e =
      let (inside, _, _) = held_room q hs.books out in
      let (_, books, invalid) = free_lem build q hs.books out e in
      (
        despawn_done build q h hs out e,
        record {
          books = books;
          sound = length-set p.slots.cells (ObjectHandle.index h) none ∙ hs.sound;
          room = hs.room;
          small = hs.small;
          filled = λ j.
              filled-set p.slots.cells held (ObjectHandle.index h) j none none
                (omega (arith, hs.room, hs.sound)) refl (hs.filled j);
        },
        get_refused (after_despawn p (ObjectHandle.index h) next) h invalid,
      )

  -- In a well-formed pool, the state after `despawn` of a handle that is out and whose generation
  -- can still rise gives on every other handle that is out what the pool gave before.
  pub despawn_others :
      (build : Build) {p : ObjectPool A} {held : Book} (q : List ℕ) (h h' : ObjectHandle) {next : ℕ}
      → Holds p q held
      → IsHeld held h
      → IsHeld held h'
      → ObjectHandle.index h ≢ ObjectHandle.index h'
      → add_u32 build (ObjectHandle.generation h) 1 ≡ done next
      → get (after_despawn p (ObjectHandle.index h) next) h' ≡ get p h'
  unfolding after_despawn
  despawn_others build {p} q h h' {next} hs out out' ne e =
      let (_, hs', _) = despawn_lem build q h hs out e in
      get_held (q ++ (ObjectHandle.index h ∷ [])) h' hs' (ground arith)
      ∙ ap done (get_or-set_ne p.slots.cells none none ne)
      ∙ sym (get_held q h' hs out')
