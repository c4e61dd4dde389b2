-- ===== src/Base/Fallible.antt =====
-- What a call of Rust code can come to: a value, a panic, or undefined behaviour of an `unsafe`
-- block. Integer arithmetic follows the build: a debug build panics on overflow, a release build
-- wraps. Allocation: `Layout::array` and the null check after `alloc`.
use Prim.Native.Nat.{ℕ, ◌+◌, ◌-◌, ◌*◌, ◌%◌, ◌^◌, ◌<◌, ◌≤◌}
use mathlib.Core.Path.{◌≡◌, refl}
use mathlib.Core.Bool.{Bool, true, false}
use mathlib.Core.Option.{Option, none, some}
use mathlib.Core.List.{List}
use native.Mathlib.Omega.{arith}
use hoarder.Base.Branch.{ltb, leb, ◌==◌, if◌then◌else◌, lt→ltb, le→leb}
use hoarder.Base.Lists.{length, get_elem?, set, get_or, get_elem?-eq-get_or}

pub data Panic : Type 0 where
  assert_failed unwrap_failed out_of_bounds overflow div_by_zero unreachable_code : Panic
  explicit_panic alloc_error : Panic

pub data Outcome {ℓ} (A : Type ℓ) : Type ℓ where
  done : A → Outcome A
  panic : Panic → Outcome A
  undefined : Outcome A

infixl 5 ◌>>=◌ ◌>>◌
abbrev pub ◌>>=◌ {ℓ κ} : {A : Type ℓ} {B : Type κ} → Outcome A → (A → Outcome B) → Outcome B
done a >>= f = f a
panic p >>= f = panic p
undefined >>= f = undefined

abbrev pub ◌>>◌ {ℓ} : {B : Type ℓ} → Outcome (Unit {0}) → Outcome B → Outcome B
m >> k = m >>= λ _. k

abbrev pub assert : Bool → Outcome (Unit {0})
assert true = done tt
assert false = panic assert_failed

-- `Option::unwrap`
abbrev pub unwrap {ℓ} : {A : Type ℓ} → Option A → Outcome A
unwrap none = panic unwrap_failed
unwrap (some a) = done a

-- The profile that the crate is built with.
pub data Build : Type 0 where
  debug release : Build

-- `a + b` of an unsigned type with `2 ^ w` values.
abbrev pub add_word : Build → ℕ → ℕ → ℕ → Outcome ℕ
add_word debug w a b = if ltb (a + b) (2 ^ w) then done (a + b) else panic overflow
add_word release w a b = done ((a + b) % 2 ^ w)

unfoldable pub add_usize : Build → ℕ → ℕ → Outcome ℕ
add_usize build a b = add_word build 64 a b

unfoldable pub add_u32 : Build → ℕ → ℕ → Outcome ℕ
add_u32 build a b = add_word build 32 a b

pub add_usize_lem : (build : Build) (a b : ℕ) → a + b < 2 ^ 64 → add_usize build a b ≡ done (a + b)
unfolding add_usize
add_usize_lem debug a b h = ground arith
add_usize_lem release a b h = ground arith

pub add_u32_lem : (build : Build) (a b : ℕ) → a + b < 2 ^ 32 → add_u32 build a b ≡ done (a + b)
unfolding add_u32
add_u32_lem debug a b h = ground arith
add_u32_lem release a b h = ground arith

abbrev pub sub_usize : Build → ℕ → ℕ → Outcome ℕ
sub_usize debug a b = if leb b a then done (a - b) else panic overflow
sub_usize release a b = if leb b a then done (a - b) else done (2 ^ 64 + a - b)

-- `a % b` panics at a zero divisor.
abbrev pub rem_usize : ℕ → ℕ → Outcome ℕ
rem_usize a b = if b == 0 then panic div_by_zero else done (a % b)

abbrev pub isize_max : ℕ
isize_max = 2 ^ 63 - 1

abbrev pub u32_max : ℕ
u32_max = 2 ^ 32 - 1

-- `size_of::<T>()` and `align_of::<T>()`
pub record Repr : Type 0 where
  pub size_of : ℕ
  pub align_of : ℕ

pub record Layout : Type 0 where
  pub bytes : ℕ
  pub align : ℕ

-- `Layout::array::<T>(n)` fails where the size, rounded up to the alignment, passes `isize::MAX`.
unfoldable pub layout_array : Repr → ℕ → Option Layout
layout_array r n =
    if leb (r.size_of * n + (r.align_of - 1)) isize_max
    then some (record { bytes = r.size_of * n; align = r.align_of })
    else none

-- `alloc::alloc(layout)`, which is undefined behaviour for a layout of size zero, and
-- `if raw_ptr.is_null() { handle_alloc_error(layout) }`: the allocator's answer is a parameter,
-- `none` for null.
abbrev pub allocate : Layout → Option ℕ → Outcome ℕ
allocate layout none = if layout.bytes == 0 then undefined else panic alloc_error
allocate layout (some p) = if layout.bytes == 0 then undefined else done p

pub allocate_lem : (layout : Layout) (p : ℕ) → 0 < layout.bytes → allocate layout (some p) ≡ done p
allocate_lem layout p h = ground arith

pub product_pos : (a b : ℕ) → 0 < a → 0 < b → 0 < a * b
product_pos a b h k = grind arith

-- What an array needs to be allocated: elements and a size that are not zero, and a size in bytes
-- that fits.
pub record Allocates (r : Repr) (n : ℕ) : Type 0 where
  pub element : 0 < r.size_of
  pub nonempty : 0 < n
  pub fits : r.size_of * n + (r.align_of - 1) ≤ isize_max

abbrev pub layout_of : Repr → ℕ → Layout
layout_of r n = record { bytes = r.size_of * n; align = r.align_of }

pub layout_array_lem : (r : Repr) (n : ℕ) → Allocates r n → layout_array r n ≡ some (layout_of r n)
unfolding layout_array
layout_array_lem r n a = rw (le→leb (r.size_of * n + (r.align_of - 1)) isize_max a.fits)

pub allocate_array :
    (r : Repr) (n p : ℕ) → Allocates r n → allocate (layout_of r n) (some p) ≡ done p
allocate_array r n p a =
    allocate_lem (layout_of r n) p (product_pos r.size_of n a.element a.nonempty)

-- A write through `ptr.add(i)` outside the allocation is undefined behaviour.
unfoldable pub write_cell {ℓ} : {A : Type ℓ} → List A → ℕ → A → Outcome (List A)
write_cell xs i a = if ltb i (length xs) then done (set xs i a) else undefined

-- `assume_init_read` moves the value out: a read of a cell that was never written, or whose value
-- has been moved out already, is undefined behaviour.
read_slot {ℓ} : {A : Type ℓ} → Option (Option A) → Outcome A
read_slot (some (some a)) = done a
read_slot _ = undefined

unfoldable pub read_cell {ℓ} : {A : Type ℓ} → List (Option A) → ℕ → Outcome A
unfolding read_slot
read_cell xs i = read_slot (get_elem? xs i)

pub write_cell_lem {ℓ} :
    {A : Type ℓ} (xs : List A) (i : ℕ) (a : A)
    → i < length xs
    → write_cell xs i a ≡ done (set xs i a)
unfolding write_cell
write_cell_lem xs i a h = rw (lt→ltb i (length xs) h)

pub read_cell_lem {ℓ} :
    {A : Type ℓ} (xs : List (Option A)) (i : ℕ) (a : A)
    → i < length xs
    → get_or xs i none ≡ some a
    → read_cell xs i ≡ done a
unfolding read_cell
read_cell_lem xs i a h e = rw (get_elem?-eq-get_or xs i none h, e)

pub >>=-eq-done {ℓ κ} :
    {A : Type ℓ} {B : Type κ} (m : Outcome A) (f : A → Outcome B) {b : B}
    → (m >>= f) ≡ done b
    → (a : A) × (m ≡ done a) × (f a ≡ done b)
>>=-eq-done (done a) f h = (a, refl, h)
>>=-eq-done (panic p) f h = cc
>>=-eq-done undefined f h = cc

pub done-injective {ℓ} : {A : Type ℓ} {a b : A} → done a ≡ done b → a ≡ b
done-injective e = cc
