-- ===== src/Collections/GenAlloc/Pigeon.antt =====
-- A list of distinct numbers below a bound that misses one of them is shorter than the bound.
use hoarder.Base.{
  refl, ℕ, zero, suc, ◌+◌, ◌≤◌, ◌<◌, ◌≡◌, ap, List, [], ◌∷◌, arith, length, count, count-cons,
  count-nil, ltb, if◌then◌else◌, dec_lt,
}

-- How many elements of the list are below the bound, counted by value.
total : ℕ → List ℕ → ℕ
total zero q = 0
total (suc n) q = total n q + count n q

total-nil : (n : ℕ) → total n [] ≡ 0
unfolding total
total-nil zero = refl
total-nil (suc n) = omega (arith, total-nil n, count-nil n)

total-cons : (n x : ℕ) (q : List ℕ) → total n (x ∷ q) ≡ (if ltb x n then 1 else 0) + total n q
unfolding total
total-cons zero x q = ground arith
total-cons (suc n) x q = ground (arith, total-cons n x q, count-cons n x q)

total-length : (n : ℕ) (q : List ℕ) → ((i : ℕ) → n ≤ i → count i q ≡ 0) → total n q ≡ length q
total-length n [] out = total-nil n
total-length n (x ∷ q) out = ground (
  arith,
  total-cons n x q,
  total-length n q (λ i h. ground (arith, out i h, count-cons i x q)),
  out x,
  count-cons x x q,
)

total-le : (n : ℕ) (q : List ℕ) → ((i : ℕ) → count i q ≤ 1) → total n q ≤ n
unfolding total
total-le zero q once = omega arith
total-le (suc n) q once = omega (arith, total-le n q once, once n)

total-lt :
    (n i : ℕ) (q : List ℕ) → ((j : ℕ) → count j q ≤ 1) → i < n → count i q ≡ 0 → total n q < n
unfolding total
total-lt zero i q once h miss = absurd (omega arith)
total-lt (suc n) i q once h miss = elim (dec_lt i n) [
  | yes below ↦ omega (arith, total-lt n i q once below miss, once n)
  | no last ↦
      let same : i ≡ n = omega arith in omega (arith, total-le n q once, ap (λ k. count k q) same)
]

pub length-lt :
    (n i : ℕ) (q : List ℕ)
    → ((j : ℕ) → count j q ≤ 1)
    → ((j : ℕ) → n ≤ j → count j q ≡ 0)
    → i < n
    → count i q ≡ 0
    → length q < n
length-lt n i q once out h miss = omega (arith, total-length n q out, total-lt n i q once h miss)
