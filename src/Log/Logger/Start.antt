-- ===== src/Log/Logger/Start.antt =====
-- `Logger::new`: both blocks, and the shared state that the threads start from.
use hoarder.Base.{
  ℕ, ◌+◌, ◌%◌, ◌≤◌, ◌≡◌, refl, arith, Option, some, none, List, ◌⊎◌, inl, inr, done, true,
  isize_max, le→leb,
}
use hoarder.Error.{ok, err, mem_alloc_fail}
use hoarder.Collections.AlignedBuffers as Aligned
use hoarder.Collections.AlignedBuffers.{AlignedBuffers, is_power_of_two}
use hoarder.Collections.AlignedBuffers.Laws.{IsSound, new_lem}
use hoarder.Log.Logger.Defs.{new}
use hoarder.Log.Logger.System.{start}

page_power : is_power_of_two 0x1000 ≡ true
unfolding is_power_of_two
page_power = refl

-- For a size that is a multiple of 4096, not zero and fits an allocation, and an allocator that
-- answers with aligned addresses, `Logger::new` either reports that memory ran out, and then the
-- allocator refused one of the two blocks, or gives two sound blocks of that size and the shared
-- state that all runs start from.
pub logger_new_lem :
    (raw_0 raw_1 : Option ℕ) (memory : ℕ → List ℕ) (buf_size : ℕ)
    → 0x1000 ≤ buf_size
    → buf_size % 0x1000 ≡ 0
    → buf_size + 0xfff ≤ isize_max
    → ((p : ℕ) → raw_0 ≡ some p → p % 0x1000 ≡ 0)
    → ((p : ℕ) → raw_1 ≡ some p → p % 0x1000 ≡ 0)
    → (((raw_0 ≡ none) ⊎ (raw_1 ≡ none))
        × (new raw_0 raw_1 memory buf_size ≡ done (err mem_alloc_fail)))
      ⊎ ((b : AlignedBuffers) × (b' : AlignedBuffers) × (new raw_0 raw_1 memory buf_size
            ≡ done (ok (b, b', (start memory).shared)))
          × IsSound b
          × IsSound b'
          × (b.buf_size ≡ buf_size)
          × (b'.buf_size ≡ buf_size))
unfolding new start
logger_new_lem raw_0 raw_1 memory buf_size large whole fit align_0 align_1 =
    let big = le→leb 0x1000 buf_size large in
    elim (block raw_0 align_0) [
      | inl (e, made) ↦ inl (inl e, rw (big, made) refl)
      | inr (b, made, sound, _, sized) ↦ elim (block raw_1 align_1) [
        | inl (e, made') ↦ inl (inr e, rw (big, made, made') refl)
        | inr (b', made', sound', _, sized') ↦
            inr (b, b', rw (big, made, made') refl, sound, sound', sized, sized')
      ]
    ]
  where
    block :
        (raw : Option ℕ)
        → ((p : ℕ) → raw ≡ some p → p % 0x1000 ≡ 0)
        → ((raw ≡ none) × (Aligned.new raw 1 buf_size 0x1000 ≡ done (err mem_alloc_fail)))
          ⊎ ((b : AlignedBuffers) × (Aligned.new raw 1 buf_size 0x1000 ≡ done (ok b))
              × IsSound b
              × (b.count ≡ 1)
              × (b.buf_size ≡ buf_size))
    block raw align =
        new_lem raw 1 buf_size 0x1000 page_power whole (omega arith) (omega arith) align
