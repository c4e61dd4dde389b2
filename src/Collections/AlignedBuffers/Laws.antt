-- ===== src/Collections/AlignedBuffers/Laws.antt =====
-- When `AlignedBuffers::new` succeeds, and where its buffers lie.
use native.Mathlib.Nat.{add-mod, zero-mod}
use hoarder.Base.{
  ℕ, zero, dec_lt, suc, ◌+◌, ◌-◌, ◌*◌, ◌%◌, ◌^◌, ◌≤◌, ◌<◌, ◌≡◌, refl, ap, ◌∙◌, ◌⊎◌, inl, inr, true,
  Option, none, some, arith, done, panic, undefined, assert_failed, Build, debug, release,
  isize_max, lt→ltb, le→ltb_false, le→leb,
}
use hoarder.Error.{ok, err, mem_alloc_fail}
use hoarder.Collections.AlignedBuffers.{AlignedBuffers, mul_usize, is_power_of_two, new, buf_ptr}

-- What a block that was allocated satisfies, the allocator's alignment included.
pub record IsSound (b : AlignedBuffers) : Type 0 where
  pub total : b.total_size ≡ b.count * b.buf_size
  pub nonzero : 0 < b.total_size
  pub fits : b.total_size + (b.alignment - 1) ≤ isize_max
  pub whole : b.buf_size % b.alignment ≡ 0
  pub aligned : b.ptr % b.alignment ≡ 0

-- A whole number of aligned steps from an aligned address.
mod-multiple : (p s a i : ℕ) → p % a ≡ 0 → s % a ≡ 0 → (p + i * s) % a ≡ 0
mod-multiple p s a zero hp hs = ap (λ n. n % a) {y = p} (omega arith) ∙ hp
mod-multiple p s a (suc i) hp hs =
    ap (λ n. n % a) {y = p + i * s + s} (omega arith)
    ∙ add-mod (p + i * s) s a
    ∙ rw (mod-multiple p s a i hp hs, hs) (zero-mod a)

mul_usize_lem : (build : Build) (a b : ℕ) → a * b < 2 ^ 64 → mul_usize build a b ≡ done (a * b)
mul_usize_lem debug a b h = ground arith
mul_usize_lem release a b h = ground arith

ends_inside : (i c s : ℕ) → i < c → i * s + s ≤ c * s
ends_inside i c s h = grind arith

-- With an alignment that is a power of two and divides the buffer size, a total size that is not
-- zero and that fits an allocation, and an allocator that answers with aligned addresses, `new`
-- gives a sound block of the count and the buffer size, or reports that memory ran out, as the
-- allocator answers.
pub new_lem :
    (raw : Option ℕ) (count buf_size alignment : ℕ)
    → is_power_of_two alignment ≡ true
    → buf_size % alignment ≡ 0
    → 0 < count * buf_size
    → count * buf_size + (alignment - 1) ≤ isize_max
    → ((p : ℕ) → raw ≡ some p → p % alignment ≡ 0)
    → ((raw ≡ none) × (new raw count buf_size alignment ≡ done (err mem_alloc_fail)))
      ⊎ ((b : AlignedBuffers) × (new raw count buf_size alignment ≡ done (ok b))
          × IsSound b
          × (b.count ≡ count)
          × (b.buf_size ≡ buf_size))
unfolding new is_power_of_two
new_lem none count buf_size alignment pow whole pos fit align = inl (refl, ground arith)
new_lem (some p) count buf_size alignment pow whole pos fit align = inr (
  record {
    ptr = p;
    buf_size = buf_size;
    count = count;
    alignment = alignment;
    total_size = count * buf_size;
  },
  ground arith,
  record { total = refl; nonzero = pos; fits = fit; whole = whole; aligned = align p refl },
  refl,
  refl,
)

-- With no buffers, an alignment that is a power of two, fits an allocation and divides the buffer
-- size, `new` asks the allocator for zero bytes, which is undefined behaviour, although every
-- assertion passes.
pub new_empty :
    (raw : Option ℕ) (buf_size alignment : ℕ)
    → is_power_of_two alignment ≡ true
    → buf_size % alignment ≡ 0
    → alignment ≤ isize_max
    → new raw 0 buf_size alignment ≡ undefined
unfolding new is_power_of_two
new_empty raw buf_size alignment pow whole small = ground arith

-- With an alignment that is a power of two and divides the buffer size, a total size that fits 64
-- bits but passes `isize::MAX` once rounded up is undefined behaviour, although every assertion
-- passes.
pub new_too_large :
    (raw : Option ℕ) (count buf_size alignment : ℕ)
    → is_power_of_two alignment ≡ true
    → buf_size % alignment ≡ 0
    → isize_max < count * buf_size + (alignment - 1)
    → count * buf_size < 2 ^ 64
    → new raw count buf_size alignment ≡ undefined
unfolding new is_power_of_two
new_too_large raw count buf_size alignment pow whole big small = ground arith

-- In a sound block every index below the count has a buffer: the address is that many buffers into
-- the block, it is aligned, and the buffer ends inside the block. Other indices stop at the
-- assertion.
pub buf_ptr_lem :
    (build : Build) (b : AlignedBuffers) (i : ℕ)
    → IsSound b
    → ((i < b.count)
        × (buf_ptr build b i ≡ done (b.ptr + i * b.buf_size))
        × ((b.ptr + i * b.buf_size) % b.alignment ≡ 0)
        × (i * b.buf_size + b.buf_size ≤ b.total_size))
      ⊎ ((b.count ≤ i) × (buf_ptr build b i ≡ panic assert_failed))
unfolding buf_ptr
buf_ptr_lem build b i s = elim (dec_lt i b.count) [
  | yes h ↦
      let inside = ends_inside i b.count b.buf_size h in
      inl (
        h,
        rw (
          lt→ltb i b.count h,
          mul_usize_lem build i b.buf_size (omega (arith, s.total, s.fits)),
          le→leb (i * b.buf_size) b.total_size (omega (arith, s.total)),
        ),
        mod-multiple b.ptr b.buf_size b.alignment i s.aligned s.whole,
        omega (arith, s.total),
      )
  | no h ↦ inr (omega arith, rw (le→ltb_false i b.count (omega arith)))
]

-- Buffers of two indices do not overlap.
pub buf_disjoint :
    (b : AlignedBuffers) (i j : ℕ)
    → i < j
    → b.ptr + i * b.buf_size + b.buf_size ≤ b.ptr + j * b.buf_size
buf_disjoint b i j h = grind arith
