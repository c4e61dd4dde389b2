-- ===== src/Collections/GenAlloc/Reach.antt =====
-- A client that frees only ids that it holds: the states that it can bring the allocator to.
use hoarder.Base.{
  ℕ, ◌≡◌, refl, List, [], ◌∷◌, ◌++◌, Option, none, some, arith, done, Build, Bool, true, false,
  subst, inl, inr,
}
use hoarder.Collections.GenAlloc.Defs.{GenId, GenAlloc, new, alloc, free, is_valid}
use hoarder.Collections.GenAlloc.Invariant.{Book, enter, Owns}
use hoarder.Collections.GenAlloc.Laws.{
  alloc_lem, alloc-none, add_u32_cases, free_stops, free_lem, after_alloc, after_free, id_at,
}
use hoarder.Collections.GenAlloc.Construct.{empty_book, new-Owns}

-- The state, and the book that the client keeps of the ids that it holds.
pub data Reach (build : Build) : GenAlloc → Book → Type 0 where
  created :
      {g : GenAlloc} (raw_generation raw_free : Option ℕ) (capacity mask : ℕ)
      → new build raw_generation raw_free capacity mask ≡ done g
      → Reach build g empty_book
  given :
      {g g' : GenAlloc} {held : Book} (id : GenId)
      → Reach build g held
      → alloc build g ≡ done (g', some id)
      → Reach build g' (enter held id.index (some id.generation))
  refused :
      {g g' : GenAlloc} {held : Book}
      → Reach build g held
      → alloc build g ≡ done (g', none)
      → Reach build g' held
  returned :
      {g g' : GenAlloc} {held : Book} {r : Bool} (i gen : ℕ)
      → Reach build g held
      → held i ≡ some gen
      → free build g (record { index = i; generation = gen }) ≡ done (g', r)
      → Reach build g' (enter held i none)

-- Some list of free indices makes the books complete.
abbrev pub HasBooks : GenAlloc → Book → Type 0
HasBooks g held = (q : List ℕ) × Owns g q held

given-HasBooks :
    (build : Build) {g g' : GenAlloc} {held : Book} (q : List ℕ) (id : GenId)
    → Owns g q held
    → alloc build g ≡ done (g', some id)
    → HasBooks g' (enter held id.index (some id.generation)) × (held id.index ≡ none)
given-HasBooks build {g} [] id o e = absurd (ground (arith, alloc-none build o))
given-HasBooks build {g} {g'} {held} (i ∷ q) id o e =
    let (e', unheld, o') = alloc_lem build o in
    let same : (after_alloc g ≡ g') × (id_at g i ≡ id) = ground arith in
    rw (← same.0, ← same.1) ((q, o'), unheld)

refused-HasBooks :
    (build : Build) {g g' : GenAlloc} {held : Book} (q : List ℕ)
    → Owns g q held
    → alloc build g ≡ done (g', none)
    → HasBooks g' held
refused-HasBooks build {g} {g'} {held} [] o e =
    let same : g ≡ g' = ground (arith, alloc-none build o) in
    ([], subst (λ x. Owns x [] held) same o)
refused-HasBooks build {g} (i ∷ q) o e = absurd (ground (arith, (alloc_lem build o).0))

returned-HasBooks :
    (build : Build) {g g' : GenAlloc} {held : Book} {r : Bool} (i gen : ℕ) (q : List ℕ)
    → Owns g q held
    → held i ≡ some gen
    → free build g (record { index = i; generation = gen }) ≡ done (g', r)
    → HasBooks g' (enter held i none)
      × (r ≡ true)
      × (is_valid g' (record { index = i; generation = gen }) ≡ done false)
returned-HasBooks build {g} {g'} {held} {r} i gen q o h e = elim (add_u32_cases build gen) [
  | inl (next, en) ↦
      let (e', o', invalid) = free_lem build q o h en in
      let same : (after_free g i next ≡ g') × (true ≡ r) = ground arith in
      rw (← same.0, ← same.1) ((q ++ (i ∷ []), o'), refl, invalid)
  | inr stops ↦ absurd (ground (arith, free_stops build q o h stops))
]

-- In every state that such a client can reach the books are complete.
pub Reach-HasBooks :
    {build : Build} {g : GenAlloc} {held : Book} → Reach build g held → HasBooks g held
Reach-HasBooks {build} (created raw_generation raw_free capacity mask e) =
    (_, (new-Owns build raw_generation raw_free capacity mask e).0)
Reach-HasBooks {build} (given id r e) =
    let (q, o) = Reach-HasBooks r in (given-HasBooks build q id o e).0
Reach-HasBooks {build} (refused r e) = let (q, o) = Reach-HasBooks r in refused-HasBooks build q o e
Reach-HasBooks {build} (returned i gen r h e) =
    let (q, o) = Reach-HasBooks r in (returned-HasBooks build i gen q o h e).0
