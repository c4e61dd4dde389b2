-- ===== src/Collections/GenAlloc/View.antt =====
-- hoarder-collections/src/alloc.rs, `GenAlloc`: which indices are free, apart from the order in which
-- `alloc` hands them out, and what that order is when two ids are given back.
use mathlib.Core.Quot
use mathlib.Core.Quot.{Quot}
use hoarder.Base.{
  ℕ, ◌≡◌, ◌≢◌, refl, sym, ap, ◌∙◌, Option, none, some, List, [], ◌∷◌, ◌++◌, map, arith, true, false,
  ltb, done, ◌>>=◌, Build, count, count-append, get_or-set_self, get_or-set_ne, add_u32,
  if◌then◌else◌, ◌==◌, ℕ_discrete,
}
use hoarder.Collections.Array.Laws.{IsSound}
use hoarder.Collections.RingBuffer.Refine.{Models, contents}
use hoarder.Collections.GenAlloc.Defs.{GenId, GenAlloc, free, is_valid}
use hoarder.Collections.GenAlloc.Invariant.{
  Book, enter, Owns, size, generation_at, is_valid_lem, held_room,
}
use hoarder.Collections.GenAlloc.Laws.{after_free, free_lem}

-- Two lists have the same indices, as often.
abbrev pub SameIndices : List ℕ → List ℕ → Type 0
SameIndices xs ys = (a : ℕ) → count a xs ≡ count a ys

-- The values of the cells that hold one.
abbrev pub somes : List (Option ℕ) → List ℕ
somes [] = []
somes (none ∷ xs) = somes xs
somes (some x ∷ xs) = x ∷ somes xs

somes-map : (xs : List ℕ) → somes (map some xs) ≡ xs
somes-map [] = refl
somes-map (x ∷ xs) = ap (λ t. x ∷ t) (somes-map xs)

abbrev pub Free : Type 0
Free = Quot SameIndices

-- Which indices are free, without the order of the free list, which the next `alloc` does follow.
abbrev pub free_indices : GenAlloc → Free
free_indices g = Quot.mk (somes (contents g.free_list))

free_indices-Owns :
    (g : GenAlloc) (q : List ℕ) (held : Book) → Owns g q held → free_indices g ≡ Quot.mk q
free_indices-Owns g q held o = ap Quot.mk (ap somes o.queue.holds ∙ somes-map q)

generation-after_free :
    (g : GenAlloc) (i next k : ℕ) (q : List ℕ) (held : Book) {gen : ℕ}
    → Owns g q held
    → held i ≡ some gen
    → generation_at (after_free g i next) k ≡ (if i == k then next else generation_at g k)
unfolding after_free
generation-after_free g i next k q held o out =
    let (inside, _, _) = held_room q o out in
    ground (
      arith,
      get_or-set_self g.generation.cells i next 0,
      get_or-set_ne g.generation.cells {i = i} {j = k} next 0,
      o.table,
      ℕ_discrete i k,
    )

size-after_free : (g : GenAlloc) (i next : ℕ) → size (after_free g i next) ≡ size g
unfolding after_free
size-after_free g i next = refl

-- Allocators of one size with the same generations accept the same ids.
same_ids :
    (a b : GenAlloc)
    → IsSound a.generation
    → IsSound b.generation
    → size a ≡ size b
    → ((k : ℕ) → generation_at a k ≡ generation_at b k)
    → (id : GenId) → is_valid a id ≡ is_valid b id
same_ids a b s s' same gens id =
    is_valid_lem a id s
    ∙ ap (λ n. done (if ltb id.index n then id.generation == generation_at a id.index else false))
        same
    ∙ ap (λ n. done (if ltb id.index (size b) then id.generation == n else false)) (gens id.index)
    ∙ sym (is_valid_lem b id s')

module _ (build : Build) {g : GenAlloc} {held : Book} (q : List ℕ) (i j a b a' b' : ℕ) where
  -- Giving two ids back, one after the other.
  free_both :
      Owns g q held
      → held i ≡ some a
      → held j ≡ some b
      → i ≢ j
      → add_u32 build a 1 ≡ done a'
      → add_u32 build b 1 ≡ done b'
      → ((free build g (record { index = i; generation = a }) >>= λ r.
            free build r.0 (record { index = j; generation = b }))
          ≡ done (after_free (after_free g i a') j b', true))
        × Owns
            (after_free (after_free g i a') j b')
            ((q ++ (i ∷ [])) ++ (j ∷ []))
            (enter (enter held i none) j none)
        × ((k : ℕ)
            → generation_at (after_free (after_free g i a') j b') k
              ≡ (if j == k then b' else if i == k then a' else generation_at g k))
  free_both o out out' ne up up' =
      let (e, o₁, _) = free_lem build q o out up in
      let still : enter held i none j ≡ some b = ground arith in
      let (e', o₂, _) = free_lem build (q ++ (i ∷ [])) o₁ still up' in
      (
        rw (e) e',
        o₂,
        λ k.
            generation-after_free (after_free g i a') j b' k (q ++ (i ∷ [])) (enter held i none) o₁
              still
            ∙ ap (λ n. if j == k then b' else n) (generation-after_free g i a' k q held o out),
      )

-- Giving two ids back that are out, in either order, succeeds and leaves the same indices free and
-- the same ids valid; what the order of the calls decides is the order of the free list, whose last
-- two indices are the two, first freed first. The books are complete, the indices differ, and both
-- generations can still rise.
pub frees_commute :
    (build : Build) {g : GenAlloc} {held : Book} (q : List ℕ) (i j a b : ℕ) {a' b' : ℕ}
    → Owns g q held
    → held i ≡ some a
    → held j ≡ some b
    → i ≢ j
    → add_u32 build a 1 ≡ done a'
    → add_u32 build b 1 ≡ done b'
    → (g₁ : GenAlloc) × (g₂ : GenAlloc) × ((free build g (record { index = i; generation = a })
          >>= λ r. free build r.0 (record { index = j; generation = b }))
        ≡ done (g₁, true))
      × ((free build g (record { index = j; generation = b }) >>= λ r.
            free build r.0 (record { index = i; generation = a }))
          ≡ done (g₂, true))
      × (free_indices g₁ ≡ free_indices g₂)
      × Models g₁.free_list ((q ++ (i ∷ [])) ++ (j ∷ []))
      × Models g₂.free_list ((q ++ (j ∷ [])) ++ (i ∷ []))
      × ((id : GenId) → is_valid g₁ id ≡ is_valid g₂ id)
frees_commute build {g} {held} q i j a b {a'} {b'} o out out' ne up up' =
    let (e, o₁, gens) = free_both build q i j a b a' b' o out out' ne up up' in
    let (f, o₂, gens') = free_both build q j i b a b' a' o out' out (λ s. ne (sym s)) up' up in
    let g₁ : GenAlloc = after_free (after_free g i a') j b' in
    let g₂ : GenAlloc = after_free (after_free g j b') i a' in
    let same : SameIndices ((q ++ (i ∷ [])) ++ (j ∷ [])) ((q ++ (j ∷ [])) ++ (i ∷ [])) = λ x.
      omega (
        arith,
        count-append x (q ++ (i ∷ [])) (j ∷ []),
        count-append x q (i ∷ []),
        count-append x (q ++ (j ∷ [])) (i ∷ []),
        count-append x q (j ∷ []),
      ) in
    (
      g₁,
      g₂,
      e,
      f,
      free_indices-Owns g₁ ((q ++ (i ∷ [])) ++ (j ∷ [])) (enter (enter held i none) j none) o₁
          ∙ Quot.sound same
          ∙ sym (
              free_indices-Owns g₂ ((q ++ (j ∷ [])) ++ (i ∷ [])) (enter (enter held j none) i none)
                o₂),
      o₁.queue,
      o₂.queue,
      same_ids g₁ g₂ o₁.table o₂.table
          (size-after_free (after_free g i a') j b'
            ∙ size-after_free g i a'
            ∙ sym (size-after_free g j b')
            ∙ sym (size-after_free (after_free g j b') i a'))
          (λ k. gens k ∙ swapped k ∙ sym (gens' k)),
    )
  where
    swapped :
        (k : ℕ)
        → (if j == k then b' else if i == k then a' else generation_at g k)
          ≡ (if i == k then a' else if j == k then b' else generation_at g k)
    swapped k = ground arith
