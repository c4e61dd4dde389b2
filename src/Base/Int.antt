-- ===== src/Base/Int.antt =====
-- The signed 32-bit numbers of results and errno values, as integers over the native numbers.
use Prim.Native.Nat.{ℕ, zero, suc, ◌-◌, ◌^◌, ◌<◌}
use mathlib.Core.Bool.{Bool, true, false}
use hoarder.Base.Branch.{◌==◌, if◌then◌else◌}
use hoarder.Base.Fallible.{Outcome, done, panic, overflow, Build, debug, release}

-- `negsuc n` is -(n + 1).
pub data ℤ : Type 0 where
  pos : ℕ → ℤ
  negsuc : ℕ → ℤ

abbrev pub IsI32 : ℤ → Type 0
IsI32 (pos n) = n < 2 ^ 31
IsI32 (negsuc n) = n < 2 ^ 31

abbrev pub is_negative : ℤ → Bool
is_negative (pos n) = false
is_negative (negsuc n) = true

abbrev pub is_zero : ℤ → Bool
is_zero (pos zero) = true
is_zero (pos (suc n)) = false
is_zero (negsuc n) = false

abbrev pub int_eq : ℤ → ℤ → Bool
int_eq (pos m) (pos n) = m == n
int_eq (pos m) (negsuc n) = false
int_eq (negsuc m) (pos n) = false
int_eq (negsuc m) (negsuc n) = m == n

-- `-v` overflows at `i32::MIN` only, where a release build wraps to the same number.
abbrev pub neg_i32 : Build → ℤ → Outcome ℤ
neg_i32 build (pos zero) = done (pos 0)
neg_i32 build (pos (suc n)) = done (negsuc n)
neg_i32 debug (negsuc n) = if n == 2 ^ 31 - 1 then panic overflow else done (pos (suc n))
neg_i32 release (negsuc n) = if n == 2 ^ 31 - 1 then done (negsuc n) else done (pos (suc n))

-- `v as u32`
abbrev pub as_u32 : ℤ → ℕ
as_u32 (pos n) = n
as_u32 (negsuc n) = 2 ^ 32 - 1 - n
