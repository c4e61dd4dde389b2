-- ===== src/Collections/GenAlloc/Laws.antt =====
-- What `alloc` and `free` do to the books.
use hoarder.Base.{
  panic, overflow, ◌⊎◌, inl, inr, ℕ, ◌+◌, ◌<◌, ◌^◌, ◌%◌, ◌≡◌, refl, ap, ◌∙◌, ◌≢◌, List, [], ◌∷◌,
  ◌++◌, none, some, arith, length-set, set, get_or-set_self, get_or-set_ne, count-cons, count-nil,
  count-append, done, Build, debug, release, true, false, add_u32, dec_lt, ℕ_discrete,
}
use hoarder.Collections.Array.Laws.{index_lem, set_index_lem}
use hoarder.Collections.RingBuffer.Refine.{
  push_lem, pop_lem, pop_empty, push_unwrap_lem, after_push, after_pop,
}
use hoarder.Collections.GenAlloc.Defs.{GenId, GenAlloc, alloc, free, is_valid}
use hoarder.Collections.GenAlloc.Invariant.{
  Book, enter, generation_at, Owns, free_head, held_room, is_valid_lem,
}

unfoldable pub after_alloc : GenAlloc → GenAlloc
after_alloc g = record g { free_list = after_pop g.free_list }

unfoldable pub after_free : GenAlloc → ℕ → ℕ → GenAlloc
after_free g i next = record {
  generation = record g.generation { cells = set g.generation.cells i next };
  free_list = after_push g.free_list i;
}

-- The id that the next `alloc` gives for a free index.
abbrev pub id_at : GenAlloc → ℕ → GenId
id_at g i = record { index = i; generation = generation_at g i }

module _ (build : Build) {g : GenAlloc} {held : Book} where
  after_alloc-Owns :
      {i : ℕ} {q : List ℕ}
      → Owns g (i ∷ q) held
      → Owns (after_alloc g) q (enter held i (some (generation_at g i)))
  unfolding after_alloc
  after_alloc-Owns {i} {q} o =
      let (_, m, s) = pop_lem build g.free_list i q o.queue in
      let (inside, unheld, _) = free_head o in
      record {
        table = o.table;
        queue = m;
        same = s ∙ o.same;
        partition = λ j. ground (arith, o.partition j, count-cons j i q);
        current = λ j gen e. ground (arith, o.current j gen);
        words = o.words;
      }

  -- While an index is free, `alloc` hands out the oldest free one, which nobody holds, with the
  -- generation of the table, and enters it in the books.
  pub alloc_lem :
      {i : ℕ} {q : List ℕ}
      → Owns g (i ∷ q) held
      → (alloc build g ≡ done (after_alloc g, some (id_at g i)))
        × (held i ≡ none)
        × Owns (after_alloc g) q (enter held i (some (generation_at g i)))
  unfolding alloc after_alloc
  alloc_lem {i} {q} o =
      let (e, _, _) = pop_lem build g.free_list i q o.queue in
      let (inside, unheld, _) = free_head o in
      (rw (e, index_lem g.generation i 0 o.table inside), unheld, after_alloc-Owns o)

  -- With every index handed out it gives nothing and changes nothing.
  pub alloc-none : Owns g [] held → alloc build g ≡ done (g, none)
  unfolding alloc
  alloc-none o = rw (pop_empty build g.free_list o.queue)

-- The next generation is another one, in the builds and at the values where there is one.
pub next_generation :
    (build : Build) (gen next : ℕ)
    → gen < 2 ^ 32
    → add_u32 build gen 1 ≡ done next
    → (next < 2 ^ 32) × (next ≢ gen)
unfolding add_u32
next_generation debug gen next h e = ground arith
next_generation release gen next h e = ground arith

module _ (build : Build) {g : GenAlloc} {held : Book} {i gen : ℕ} (q : List ℕ) where
  after_free-Owns :
      {next : ℕ}
      → Owns g q held
      → held i ≡ some gen
      → add_u32 build gen 1 ≡ done next
      → Owns (after_free g i next) (q ++ (i ∷ [])) (enter held i none)
  unfolding after_free
  after_free-Owns {next} o h e =
      let (inside, miss, room) = held_room q o h in
      let (_, m, s) = push_lem build g.free_list i q o.queue (omega (arith, o.same)) in
      let (small, _) =
        next_generation build gen next (omega (arith, o.words i, o.current i gen h)) e in
      record {
        table = length-set g.generation.cells i next ∙ o.table;
        queue = m;
        same = s ∙ o.same;
        partition = λ j.
            ground
              (arith, o.partition j, count-append j q (i ∷ []), count-cons j i [], count-nil j);
        current = λ j gen' e'.
            ground
              (arith, o.current j gen', get_or-set_ne g.generation.cells {i = i} {j = j} next 0);
        words = λ j. ground (
          arith,
          o.words j,
          get_or-set_self g.generation.cells i next 0,
          get_or-set_ne g.generation.cells {i = i} {j = j} next 0,
          ℕ_discrete i j,
        );
      }

  freed_invalid :
      {next : ℕ}
      → Owns g q held
      → held i ≡ some gen
      → add_u32 build gen 1 ≡ done next
      → is_valid (after_free g i next) (record { index = i; generation = gen }) ≡ done false
  unfolding after_free
  freed_invalid {next} o h e =
      let o' = after_free-Owns o h e in
      let (inside, _, _) = held_room q o h in
      let (_, other) =
        next_generation build gen next (omega (arith, o.words i, o.current i gen h)) e in
      is_valid_lem (after_free g i next) (record { index = i; generation = gen }) o'.table
      ∙ ap done (ground (arith, get_or-set_self g.generation.cells i next 0))

  free_done :
      {next : ℕ}
      → Owns g q held
      → held i ≡ some gen
      → add_u32 build gen 1 ≡ done next
      → free build g (record { index = i; generation = gen }) ≡ done (after_free g i next, true)
  unfolding free after_free
  free_done {next} o h e =
      let (inside, _, room) = held_room q o h in
      ground (
        arith,
        o.current i gen h,
        index_lem g.generation i 0 o.table inside,
        set_index_lem g.generation i next o.table inside,
        push_unwrap_lem build g.free_list i q o.queue (omega (arith, o.same)),
      )

  -- `free` of an id that is handed out gives the index back, raises the generation and takes the
  -- id out of the books; the id is invalid from then on.
  pub free_lem :
      {next : ℕ}
      → Owns g q held
      → held i ≡ some gen
      → add_u32 build gen 1 ≡ done next
      → (free build g (record { index = i; generation = gen }) ≡ done (after_free g i next, true))
        × Owns (after_free g i next) (q ++ (i ∷ [])) (enter held i none)
        × (is_valid (after_free g i next) (record { index = i; generation = gen }) ≡ done false)
  free_lem {next} o h e = (free_done o h e, after_free-Owns o h e, freed_invalid o h e)

  -- Where the generation cannot be raised, `free` stops with that panic.
  pub free_stops :
      Owns g q held
      → held i ≡ some gen
      → add_u32 build gen 1 ≡ panic overflow
      → free build g (record { index = i; generation = gen }) ≡ panic overflow
  unfolding free
  free_stops o h e =
      let (inside, _, room) = held_room q o h in
      ground (arith, o.current i gen h, index_lem g.generation i 0 o.table inside)

-- Raising a generation gives the next one, or panics at the largest one in a debug build.
pub add_u32_cases :
    (build : Build) (gen : ℕ)
    → ((next : ℕ) × (add_u32 build gen 1 ≡ done next)) ⊎ (add_u32 build gen 1 ≡ panic overflow)
unfolding add_u32
add_u32_cases debug gen = elim (dec_lt (gen + 1) (2 ^ 32)) [
  | yes h ↦ inl (gen + 1, ground arith)
  | no h ↦ inr (ground arith)
]
add_u32_cases release gen = inl ((gen + 1) % 2 ^ 32, refl)

-- An id that is handed out is valid.
pub held_valid :
    {g : GenAlloc} {held : Book} {i gen : ℕ} (q : List ℕ)
    → Owns g q held
    → held i ≡ some gen
    → is_valid g (record { index = i; generation = gen }) ≡ done true
held_valid {g} {held} {i} {gen} q o h =
    let (inside, _, _) = held_room q o h in
    is_valid_lem g (record { index = i; generation = gen }) o.table
    ∙ ap done (ground (arith, o.current i gen h))

-- `free` of an id that is not valid changes nothing.
pub free_refused :
    (build : Build) (g : GenAlloc) (id : GenId)
    → is_valid g id ≡ done false
    → free build g id ≡ done (g, false)
unfolding free
free_refused build g id e = rw e
