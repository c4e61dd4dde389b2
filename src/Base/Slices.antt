-- ===== src/Base/Slices.antt =====
-- Prefixes and suffixes of memory, and writes into it.
use Prim.Native.Nat.{ℕ, zero, suc, ◌-◌, ◌≤◌, ◌<◌, min}
use mathlib.Core.Path.{◌≡◌, refl, sym, ap, ◌∙◌}
use mathlib.Core.List.{List, [], ◌∷◌, ◌++◌}
use native.Mathlib.Omega.{arith}
use hoarder.Base.Lists.{length, take, drop, set}

abbrev pub concat {ℓ} : {A : Type ℓ} → List (List A) → List A
concat [] = []
concat (xs ∷ xss) = xs ++ concat xss

module _ {ℓ} {A : Type ℓ} where
  pub length-drop : (n : ℕ) (xs : List A) → length (drop n xs) ≡ length xs - n
  length-drop zero xs = omega arith
  length-drop (suc n) [] = omega arith
  length-drop (suc n) (x ∷ xs) = omega (arith, length-drop n xs)

  pub take-exact : (n : ℕ) (xs ys : List A) → length xs ≡ n → take n (xs ++ ys) ≡ xs
  take-exact zero [] ys e = refl
  take-exact zero (x ∷ xs) ys e = absurd (omega arith)
  take-exact (suc n) [] ys e = absurd (omega arith)
  take-exact (suc n) (x ∷ xs) ys e = ap (λ t. x ∷ t) (take-exact n xs ys (omega arith))

  pub take-nil : (n : ℕ) → take {A = A} n [] ≡ []
  take-nil zero = refl
  take-nil (suc n) = refl

  -- Only as much of the second list as is left of the number, and as it has.
  pub take-append :
      (n : ℕ) (xs ys : List A)
      → take n (xs ++ ys) ≡ take n xs ++ take (min (length ys) (n - length (take n xs))) ys
  take-append zero xs [] = refl
  take-append zero xs (y ∷ ys) = ap (λ k. take k (y ∷ ys)) {x = 0} (omega arith)
  take-append (suc n) [] ys =
      all (suc n) ys ∙ ap (λ k. take k ys) {x = min (length ys) (suc n)} (omega arith)
    where
      all : (n : ℕ) (ys : List A) → take n ys ≡ take (min (length ys) n) ys
      all zero [] = sym (take-nil (min 0 0))
      all zero (y ∷ ys) = ap (λ k. take k (y ∷ ys)) {x = 0} (omega arith)
      all (suc n) [] = sym (take-nil (min 0 (suc n)))
      all (suc n) (y ∷ ys) =
          ap (λ t. y ∷ t) (all n ys)
          ∙ ap (λ k. take k (y ∷ ys)) {x = suc (min (length ys) n)} (omega arith)
  take-append (suc n) (x ∷ xs) ys =
      ap (λ t. x ∷ t) (take-append n xs ys)
      ∙ ap (λ k. x ∷ (take n xs ++ take k ys)) {x = min (length ys) (n - length (take n xs))}
          (omega arith)

  -- A write at the end of a prefix makes it longer by the written value, and a write behind it
  -- leaves it as it is.
  pub take-set_at :
      (xs : List A) (n : ℕ) (v : A)
      → n < length xs
      → take (suc n) (set xs n v) ≡ take n xs ++ (v ∷ [])
  take-set_at [] n v h = absurd (omega arith)
  take-set_at (x ∷ xs) zero v h = refl
  take-set_at (x ∷ xs) (suc n) v h = ap (λ t. x ∷ t) (take-set_at xs n v (omega arith))

  pub take-set_behind : (xs : List A) (k n : ℕ) (v : A) → k ≤ n → take k (set xs n v) ≡ take k xs
  take-set_behind xs zero n v h = refl
  take-set_behind [] (suc k) n v h = refl
  take-set_behind (x ∷ xs) (suc k) zero v h = absurd (omega arith)
  take-set_behind (x ∷ xs) (suc k) (suc n) v h =
      ap (λ t. x ∷ t) (take-set_behind xs k n v (omega arith))
