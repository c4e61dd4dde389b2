-- ===== src/Collections/GenAlloc/Safety.antt =====
-- What a client that frees only what it holds can rely on, and where the generations give out.
use hoarder.Base.{
  get_or-set_self, ℕ, ◌-◌, ◌<◌, ◌^◌, ◌≡◌, refl, ap, ◌∙◌, List, [], ◌∷◌, none, some, arith, done,
  panic, overflow, Build, debug, release, true, false, ◌⊎◌, inl, inr, ltb, if◌then◌else◌, count-nil,
  add_u32,
}
use hoarder.Collections.GenAlloc.Defs.{GenId, GenAlloc, alloc, free, is_valid}
use hoarder.Collections.GenAlloc.Invariant.{Book, taken, Owns, size, is_valid_lem, held_room}
use hoarder.Collections.GenAlloc.Laws.{
  alloc_lem, alloc-none, free_lem, free_stops, add_u32_cases, held_valid, after_alloc, after_free,
  id_at,
}
use hoarder.Collections.GenAlloc.Reach.{Reach, Reach-HasBooks, HasBooks}

-- Only at the largest value, in a debug build, is there no next generation.
add_u32-panic :
    (build : Build) (gen : ℕ)
    → gen < 2 ^ 32
    → add_u32 build gen 1 ≡ panic overflow
    → (build ≡ debug) × (gen ≡ 2 ^ 32 - 1)
unfolding add_u32
add_u32-panic debug gen small e = (refl, ground arith)
add_u32-panic release gen small e = cc

module _ {build : Build} {g : GenAlloc} {held : Book} (reached : Reach build g held) where
  -- In every state that a client can reach which frees only ids that it holds, `alloc` returns:
  -- either an id whose index nobody holds, valid from then on, or nothing, with the allocator
  -- unchanged and every index below its size handed out.
  pub alloc_fresh :
      ((g' : GenAlloc) × (id : GenId) × (alloc build g ≡ done (g', some id))
        × (held id.index ≡ none)
        × (is_valid g' id ≡ done true))
      ⊎ ((alloc build g ≡ done (g, none))
          × ((i : ℕ) → taken (held i) ≡ (if ltb i (size g) then 1 else 0)))
  alloc_fresh = go (Reach-HasBooks reached)
    where
      go :
          HasBooks g held
          → ((g' : GenAlloc) × (id : GenId) × (alloc build g ≡ done (g', some id))
              × (held id.index ≡ none)
              × (is_valid g' id ≡ done true))
            ⊎ ((alloc build g ≡ done (g, none))
                × ((i : ℕ) → taken (held i) ≡ (if ltb i (size g) then 1 else 0)))
      go ([], o) = inr (alloc-none build o, λ i. ground (arith, o.partition i, count-nil i))
      go (i ∷ q, o) =
          let (e, unheld, o') = alloc_lem build o in
          inl (after_alloc g, id_at g i, e, unheld, held_valid q o' (ground arith))

  -- In every state that a client can reach which frees only ids that it holds, an id that it holds
  -- is in range and valid, and freeing it succeeds, after which the id is not valid; only a debug
  -- build panics instead, at the largest generation.
  pub held_freed :
      (i gen : ℕ)
      → held i ≡ some gen
      → (i < size g)
        × (is_valid g (record { index = i; generation = gen }) ≡ done true)
        × (((g' : GenAlloc) × (free build g (record { index = i; generation = gen })
                ≡ done (g', true))
              × (is_valid g' (record { index = i; generation = gen }) ≡ done false))
            ⊎ ((build ≡ debug)
                × (gen ≡ 2 ^ 32 - 1)
                × (free build g (record { index = i; generation = gen }) ≡ panic overflow)))
  held_freed i gen h = go (Reach-HasBooks reached)
    where
      freed :
          (q : List ℕ)
          → Owns g q held
          → ((g' : GenAlloc) × (free build g (record { index = i; generation = gen })
                ≡ done (g', true))
              × (is_valid g' (record { index = i; generation = gen }) ≡ done false))
            ⊎ ((build ≡ debug)
                × (gen ≡ 2 ^ 32 - 1)
                × (free build g (record { index = i; generation = gen }) ≡ panic overflow))
      freed q o = elim (add_u32_cases build gen) [
        | inl (next, e) ↦ let (f, _, v) = free_lem build q o h e in inl (after_free g i next, f, v)
        | inr e ↦
            let (d, top) =
              add_u32-panic build gen (omega (arith, o.words i, o.current i gen h)) e in
            inr (d, top, free_stops build q o h e)
      ]

      go :
          HasBooks g held
          → (i < size g)
            × (is_valid g (record { index = i; generation = gen }) ≡ done true)
            × (((g' : GenAlloc) × (free build g (record { index = i; generation = gen })
                    ≡ done (g', true))
                  × (is_valid g' (record { index = i; generation = gen }) ≡ done false))
                ⊎ ((build ≡ debug)
                    × (gen ≡ 2 ^ 32 - 1)
                    × (free build g (record { index = i; generation = gen }) ≡ panic overflow)))
      go (q, o) = ((held_room q o h).0, held_valid q o h, freed q o)

-- In a release build generations come round: with complete books, freeing the id of an index with
-- the largest generation, 2 ^ 32 - 1, succeeds and makes the id of that index with generation 0,
-- the first that the index ever had, valid again. A debug build panics there.
pub generation_wraps :
    (build : Build) (g : GenAlloc) (q : List ℕ) (held : Book) (i : ℕ)
    → Owns g q held
    → held i ≡ some (2 ^ 32 - 1)
    → ((build ≡ release)
        × (g' : GenAlloc) × (free build g (record { index = i; generation = 2 ^ 32 - 1 })
            ≡ done (g', true))
        × (is_valid g' (record { index = i; generation = 0 }) ≡ done true))
      ⊎ ((build ≡ debug)
          × (free build g (record { index = i; generation = 2 ^ 32 - 1 }) ≡ panic overflow))
unfolding add_u32 after_free
generation_wraps debug g q held i o h = inr (refl, free_stops debug q o h refl)
generation_wraps release g q held i o h =
    let (e, o', _) = free_lem release q {next = 0} o h refl in
    inl (
      refl,
      after_free g i 0,
      e,
      is_valid_lem (after_free g i 0) (record { index = i; generation = 0 }) o'.table
          ∙ ap done (ground (arith, get_or-set_self g.generation.cells i 0 0, held_room q o h)),
    )
