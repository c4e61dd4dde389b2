-- ===== src/Collections/AlignedBuffers.antt =====
-- hoarder-collections/src/alloc.rs, `AlignedBuffers`: one aligned block, cut into equal buffers.
pub mod Laws
use Prim.Native.Nat.{bit_and}
use hoarder.Base.{
  ℕ, ◌+◌, ◌-◌, ◌*◌, ◌%◌, ◌^◌, Bool, true, false, not, ◌&&◌, Option, none, some, ltb, leb, ◌==◌,
  if◌then◌else◌, Outcome, done, panic, undefined, overflow, assert, assert_failed, rem_usize, ◌>>=◌,
  ◌>>◌, Build, debug, release, Layout, isize_max,
}
use hoarder.Error.{Result, ok, err, mem_alloc_fail}

pub record AlignedBuffers : Type 0 where
  pub ptr : ℕ
  pub buf_size : ℕ
  pub count : ℕ
  pub alignment : ℕ
  pub total_size : ℕ

-- `usize::checked_mul`
abbrev pub checked_mul : ℕ → ℕ → Option ℕ
checked_mul a b = if ltb (a * b) (2 ^ 64) then some (a * b) else none

abbrev pub mul_usize : Build → ℕ → ℕ → Outcome ℕ
mul_usize debug a b = if ltb (a * b) (2 ^ 64) then done (a * b) else panic overflow
mul_usize release a b = done ((a * b) % 2 ^ 64)

-- `assert!(total.is_some())`, and then `unwrap_unchecked`
unfoldable pub unwrap_asserted : Option ℕ → Outcome ℕ
unwrap_asserted none = panic assert_failed
unwrap_asserted (some n) = done n

-- `usize::is_power_of_two`
unfoldable pub is_power_of_two : ℕ → Bool
is_power_of_two n = not (n == 0) && bit_and n (n - 1) == 0

-- Undefined behaviour where the size, rounded up to the alignment, passes `isize::MAX`.
unfoldable pub layout_unchecked : ℕ → ℕ → Outcome Layout
layout_unchecked bytes align =
    if leb (bytes + (align - 1)) isize_max
    then done (record { bytes = bytes; align = align })
    else undefined

-- `alloc::alloc` with a layout of size zero is undefined behaviour. Otherwise the answer is the
-- parameter, `none` for null.
unfoldable pub raw_alloc : Layout → Option ℕ → Outcome (Option ℕ)
raw_alloc layout raw = if layout.bytes == 0 then undefined else done raw

-- `NonNull::new(raw).ok_or_else(..)?`
unfoldable pub or_fail : Option ℕ → (ℕ → AlignedBuffers) → Result AlignedBuffers
or_fail none make = err mem_alloc_fail
or_fail (some ptr) make = ok (make ptr)

unfoldable pub new : Option ℕ → ℕ → ℕ → ℕ → Outcome (Result AlignedBuffers)
unfolding unwrap_asserted is_power_of_two layout_unchecked raw_alloc or_fail
new raw count buf_size alignment = do
  total ← unwrap_asserted (checked_mul count buf_size)
  assert (is_power_of_two alignment)
  rest ← rem_usize buf_size alignment
  assert (rest == 0)
  layout ← layout_unchecked total alignment
  answer ← raw_alloc layout raw
  done (
      or_fail answer λ ptr. record {
        ptr = ptr;
        buf_size = buf_size;
        count = count;
        alignment = alignment;
        total_size = total;
      })

-- `ptr.add(index * buf_size)`; `buf_ptr` and `buf_ptr_mut` have the same body.
unfoldable pub buf_ptr : Build → AlignedBuffers → ℕ → Outcome ℕ
buf_ptr build b index = do
  assert (ltb index b.count)
  offset ← mul_usize build index b.buf_size
  if leb offset b.total_size then done (b.ptr + offset) else undefined

-- `Drop`: the address and the layout that go to `dealloc`.
unfoldable pub drop : AlignedBuffers → Outcome (ℕ × Layout)
unfolding layout_unchecked
drop b = do layout ← layout_unchecked b.total_size b.alignment; done (b.ptr, layout)
