-- ===== src/Collections/GenAlloc/Invariant.antt =====
-- The books of `GenAlloc`: every index is either free, once, or handed out under the generation
-- that the table holds for it.
use hoarder.Base.{
  ℕ, ◌+◌, ◌<◌, ◌^◌, ◌≡◌, List, ◌∷◌, Option, none, some, arith, length, get_or, count, count-cons,
  done, ltb, ◌==◌, if◌then◌else◌, false, dec_lt, lt→ltb, le→ltb_false,
}
use hoarder.Collections.Array.Laws.{IsSound, index_lem}
use hoarder.Collections.RingBuffer.Refine.{Models}
use hoarder.Collections.GenAlloc.Defs.{GenId, GenAlloc, is_valid}
use hoarder.Collections.GenAlloc.Pigeon.{length-lt}

-- Which indices are handed out, and under which generation.
abbrev pub Book : Type 0
Book = ℕ → Option ℕ

abbrev pub enter : Book → ℕ → Option ℕ → Book
enter held i v j = if i == j then v else held j

abbrev pub taken : Option ℕ → ℕ
taken none = 0
taken (some gen) = 1

abbrev pub size : GenAlloc → ℕ
size g = g.generation.size

abbrev pub generation_at : GenAlloc → ℕ → ℕ
generation_at g i = get_or g.generation.cells i 0

pub record Owns (g : GenAlloc) (q : List ℕ) (held : Book) : Type 0 where
  pub table : IsSound g.generation
  pub queue : Models g.free_list q
  pub same : g.free_list.size ≡ size g
  pub partition : (i : ℕ) → count i q + taken (held i) ≡ (if ltb i (size g) then 1 else 0)
  pub current : (i gen : ℕ) → held i ≡ some gen → generation_at g i ≡ gen
  pub words : (i : ℕ) → generation_at g i < 2 ^ 32

module _ {g : GenAlloc} {held : Book} where
  -- A free index is in range and not handed out.
  pub free_head :
      {i : ℕ} {q : List ℕ} → Owns g (i ∷ q) held → (i < size g) × (held i ≡ none) × (count i q ≡ 0)
  free_head {i} {q} o = ground (arith, o.partition i, count-cons i i q)

  -- A handed-out index is in range, and there is room for it in the free list.
  pub held_room :
      {i gen : ℕ} (q : List ℕ)
      → Owns g q held
      → held i ≡ some gen
      → (i < size g) × (count i q ≡ 0) × (length q < size g)
  held_room {i} q o h =
      let (inside, miss) = here in
      (
        inside,
        miss,
        length-lt (size g) i q (λ j. ground (arith, o.partition j))
            (λ j out. ground (arith, o.partition j)) inside miss,
      )
    where
      here : (i < size g) × (count i q ≡ 0)
      here = ground (arith, o.partition i)

-- `is_valid` says whether the table holds just this generation at the index.
pub is_valid_lem :
    (g : GenAlloc) (id : GenId)
    → IsSound g.generation
    → is_valid g id
      ≡ done (if ltb id.index (size g) then id.generation == generation_at g id.index else false)
unfolding is_valid
is_valid_lem g id s = elim (dec_lt id.index (size g)) [
  | yes h ↦ rw (lt→ltb id.index (size g) h, index_lem g.generation id.index 0 s h)
  | no h ↦ rw (le→ltb_false id.index (size g) (omega arith))
]
