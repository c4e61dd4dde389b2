-- ===== src/Collections/ObjectPool/Posts.antt =====
-- What the calls of an object pool leave when they return: which slot an answer comes from, and the
-- books after a write, a `spawn` and a `despawn` of an object that is there.
use hoarder.Base.{
  ℕ, length, ==_refl, ◌<◌, ◌≡◌, ◌≢◌, refl, sym, ap, ◌∙◌, ◌⊎◌, inl, inr, List, [], ◌∷◌, Option, none,
  some, arith, true, false, Bool, Bool-cases, done, panic, overflow, Build, add_u32, subst,
  get_or-set_self, get_or-set_ne, length-set, ℕ_discrete, ltb, ◌==◌, if◌then◌else◌,
}
use hoarder.Base.Post.{Safe}
use hoarder.Collections.Array.Laws.{index_lem, set_index_lem}
use hoarder.Collections.GenAlloc.Invariant.{
  Book, enter, taken, size, generation_at, free_head, held_room, is_valid_lem,
}
use hoarder.Collections.GenAlloc.Laws.{add_u32_cases, free_stops}
use hoarder.Collections.ObjectHandle
use hoarder.Collections.ObjectHandle.{ObjectHandle}
use hoarder.Collections.ObjectPool.{ObjectPool, id_of, spawn, get, write_back, despawn}
use hoarder.Collections.ObjectPool.Laws.{
  IsHeld, slot_at, Holds, occupied, filled-set, get_refused, spawn_full, spawn_done, after_spawn,
  after_spawn-Holds, spawned_slot, empty_slot, after_despawn, despawn_lem,
}

module _ {A : Type 0} {p : ObjectPool A} {held : Book} (q : List ℕ) (hs : Holds p q held) where
  -- What `get` answers stands in the slot of the handle, which is out.
  abbrev pub Answer : ObjectHandle → Option A → Type 0
  Answer h none = Unit
  Answer h (some x) = IsHeld held h × (slot_at p (ObjectHandle.index h) ≡ some x)

  filled-out : (i : ℕ) (x : A) → slot_at p i ≡ some x → (gen : ℕ) × (held i ≡ some gen)
  filled-out i x e = of (held i) refl
    where
      of : (v : Option ℕ) → held i ≡ v → (gen : ℕ) × (held i ≡ some gen)
      of none f = absurd (omega (arith, hs.filled i, ap taken f, ap occupied e))
      of (some gen) f = (gen, f)

  slot-Answer :
      (h : ObjectHandle) (v : Option A)
      → ObjectHandle.generation h ≡ generation_at p.allocator (ObjectHandle.index h)
      → slot_at p (ObjectHandle.index h) ≡ v
      → Answer h v
  slot-Answer h none same e = tt
  slot-Answer h (some x) same e =
      let (gen, out) = filled-out (ObjectHandle.index h) x e in
      (out ∙ ap some (sym (hs.books.current (ObjectHandle.index h) gen out) ∙ sym same), e)

  -- Whether the table has just this generation.
  current : ObjectHandle → Bool
  current h =
      if ltb (ObjectHandle.index h) (size p.allocator)
      then ObjectHandle.generation h == generation_at p.allocator (ObjectHandle.index h)
      else false

  get_current :
      (h : ObjectHandle)
      → current h ≡ true
      → (get p h ≡ done (slot_at p (ObjectHandle.index h)))
        × (ObjectHandle.generation h ≡ generation_at p.allocator (ObjectHandle.index h))
  unfolding get current
  get_current h e =
      let (inside, same) : (ObjectHandle.index h < size p.allocator)
          × (ObjectHandle.generation h ≡ generation_at p.allocator (ObjectHandle.index h)) =
        ground arith in
      (
        rw
            (
              is_valid_lem p.allocator (id_of h) hs.books.table,
              e,
              index_lem p.slots (ObjectHandle.index h) none hs.sound (omega (arith, hs.room)),
            )
            refl,
        same,
      )

  get_outdated : (h : ObjectHandle) → current h ≡ false → get p h ≡ done none
  unfolding current
  get_outdated h e = get_refused p h (is_valid_lem p.allocator (id_of h) hs.books.table ∙ ap done e)

  pub get-Answer : (h : ObjectHandle) → Safe (Answer h) (get p h)
  get-Answer h = elim (Bool-cases (current h)) [
    | inl e ↦
        let (found, same) = get_current h e in
        subst (Safe (Answer h)) (sym found)
          (slot-Answer h (slot_at p (ObjectHandle.index h)) same refl)
    | inr e ↦ subst (Safe (Answer h)) (sym (get_outdated h e)) tt
  ]

  -- A write to an object that is out.
  abbrev pub Written : ObjectHandle → A → ObjectPool A → Type 0
  Written h x p' =
      Holds p' q held
      × (slot_at p' (ObjectHandle.index h) ≡ some x)
      × ((j : ℕ) → j ≢ ObjectHandle.index h → slot_at p' j ≡ slot_at p j)

  pub write_back-Written :
      (h : ObjectHandle) (x : A) → IsHeld held h → Safe (Written h x) (write_back p h x)
  unfolding write_back
  write_back-Written h x out =
      let i = ObjectHandle.index h in
      let (inside, _, _) = held_room q hs.books out in
      let room : i < p.slots.size = omega (arith, hs.room) in
      let cells : i < length p.slots.cells = omega (arith, hs.sound) in
      rw (set_index_lem p.slots i (some x) hs.sound room) (
        record {
          books = hs.books;
          sound = length-set p.slots.cells i (some x) ∙ hs.sound;
          room = hs.room;
          small = hs.small;
          filled = λ j.
              filled-set p.slots.cells held i j (some x) (held i) cells (sym (ap taken out))
                (hs.filled j)
              ∙ ap taken (entered_self held i j);
        },
        get_or-set_self p.slots.cells i (some x) none cells,
        λ j ne. get_or-set_ne p.slots.cells (some x) none (λ e. ne (sym e)),
      )
    where
      entered_self : (held : Book) (i j : ℕ) → enter held i (held i) j ≡ held j
      entered_self held i j = elim (ℕ_discrete i j) [
        | yes e ↦ subst (λ k. enter held i (held i) k ≡ held k) e (rw (==_refl i) refl)
        | no ne ↦ ground arith
      ]

module _ {A : Type 0} (p : ObjectPool A) where
  spawned_other : (i j : ℕ) (x : A) → i ≢ j → slot_at (after_spawn p i x) j ≡ slot_at p j
  unfolding after_spawn
  spawned_other i j x ne = get_or-set_ne p.slots.cells (some x) none ne

  despawned_other : (i j next : ℕ) → i ≢ j → slot_at (after_despawn p i next) j ≡ slot_at p j
  unfolding after_despawn
  despawned_other i j next ne = get_or-set_ne p.slots.cells none none ne

  module _ {held : Book} (q : List ℕ) (h : ObjectHandle) where
    despawned_slot :
        (next : ℕ)
        → Holds p q held
        → IsHeld held h
        → slot_at (after_despawn p (ObjectHandle.index h) next) (ObjectHandle.index h) ≡ none
    unfolding after_despawn
    despawned_slot next hs out =
        let (inside, _, _) = held_room q hs.books out in
        get_or-set_self p.slots.cells (ObjectHandle.index h) none none
          (omega (arith, hs.sound, hs.room))

    despawn_stops :
        (build : Build)
        → Holds p q held
        → IsHeld held h
        → add_u32 build (ObjectHandle.generation h) 1 ≡ panic overflow
        → despawn build p h ≡ panic overflow
    unfolding despawn
    despawn_stops build hs out e = rw (free_stops build q hs.books out e) refl

-- The pool is well formed, and its slots have changed in one place at most.
pub record Changed {A : Type 0} (p : ObjectPool A) (At : ℕ → Option A → Type 0) (p' : ObjectPool A)
    : Type 0 where
  pub vacant : List ℕ
  pub books : Book
  pub holds : Holds p' vacant books
  pub slots : (j : ℕ) → (slot_at p' j ≡ slot_at p j) ⊎ At j (slot_at p' j)

module _ {A : Type 0} where
  -- A new object stands in a slot that was empty.
  abbrev pub Spawned : ObjectPool A → A → ObjectPool A → Type 0
  Spawned p x = Changed p λ j v. (slot_at p j ≡ none) × (v ≡ some x)

  pub spawn-Spawned :
      {held : Book} (pool_id : ℕ) (build : Build) (p : ObjectPool A) (q : List ℕ) (x : A)
      → Holds p q held
      → Safe (λ r. Spawned p x r.0) (spawn pool_id build p x)
  spawn-Spawned {held} pool_id build p [] x hs =
      rw (spawn_full pool_id build x hs)
        (record { vacant = []; books = held; holds = hs; slots = λ j. inl refl })
  spawn-Spawned pool_id build p (i ∷ q) x hs =
      let (inside, unheld, _) = free_head hs.books in
      let vacant : slot_at p i ≡ none = empty_slot (slot_at p i) (hs.filled i ∙ ap taken unheld) in
      rw (spawn_done pool_id build i q x hs) (record {
        vacant = q;
        books = _;
        holds = after_spawn-Holds build i q x hs;
        slots = λ j. elim (ℕ_discrete i j) [
          | yes e ↦ inr (
            subst (λ k. slot_at p k ≡ none) e vacant,
            subst (λ k. slot_at (after_spawn p i x) k ≡ some x) e (spawned_slot build i q x hs),
          )
          | no ne ↦ inl (spawned_other p i j x ne)
        ];
      })

  -- The slot of the handle is empty.
  abbrev pub Despawned : ObjectPool A → ObjectHandle → ObjectPool A → Type 0
  Despawned p h = Changed p λ j v. (j ≡ ObjectHandle.index h) × (v ≡ none)

  pub despawn-Despawned :
      {held : Book} (build : Build) (p : ObjectPool A) (q : List ℕ) (h : ObjectHandle)
      → Holds p q held
      → IsHeld held h
      → Safe (λ r. Despawned p h r.0) (despawn build p h)
  despawn-Despawned build p q h hs out = elim (add_u32_cases build (ObjectHandle.generation h)) [
    | inl (next, e) ↦
        let (made, hs', _) = despawn_lem build q h hs out e in
        rw made (record {
          vacant = _;
          books = _;
          holds = hs';
          slots = λ j. elim (ℕ_discrete (ObjectHandle.index h) j) [
            | yes f ↦ inr (
              sym f,
              subst (λ k. slot_at (after_despawn p (ObjectHandle.index h) next) k ≡ none) f
                  (despawned_slot p q h next hs out),
            )
            | no ne ↦ inl (despawned_other p (ObjectHandle.index h) j next ne)
          ];
        })
    | inr e ↦ rw (despawn_stops p q h build hs out e) tt
  ]
