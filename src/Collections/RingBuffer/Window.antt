-- ===== src/Collections/RingBuffer/Window.antt =====
-- The cells of a ring buffer read round the end of the storage.
use native.Mathlib.Nat.{mod-add-mod, mod-eq_of_lt, mod-eq-sub-mod, add-zero}
use mathlib.Core.Path.{◌≡⟨◌⟩◌, ◌∎}
use mathlib.Core.List.{map-append}
use hoarder.Base.{
  ℕ, zero, suc, ◌+◌, ◌-◌, ◌%◌, ◌≤◌, ◌<◌, ◌≡◌, refl, ap, ◌∙◌, ◌≢◌, List, [], ◌∷◌, ◌++◌, Option, none,
  arith, length, get_or, set, get_or-set_ne, get_or-set_self, dec_lt, map, some, sym,
}

-- Fewer than `size` steps round the storage do not come back to the start.
pub add-mod-ne : {size h k : ℕ} → h < size → suc k < size → (h + suc k) % size ≢ h
add-mod-ne {size} {h} {k} hh hk = elim (dec_lt (h + suc k) size) [
  | yes p ↦ omega (arith, mod-eq_of_lt p)
  | no p ↦ omega (
    arith,
    mod-eq-sub-mod {n = h + suc k} {m = size} (omega arith),
    mod-eq_of_lt {n = h + suc k - size} {m = size} (omega arith),
  )
]

pub step_round : (h k size : ℕ) → (h + suc k) % size ≡ ((h + 1) % size + k) % size
step_round h k size = rw mod-add-mod (ap (λ n. n % size) (omega arith))

-- The start is the last cell of the round that begins after it.
last_step : (h size : ℕ) → h < size → h ≡ ((h + 1) % size + (size - 1)) % size
last_step h size hh =
    h
    ≡⟨ grind arith ⟩ (h + size) % size
    ≡⟨ ap (λ n. (h + n) % size) (omega arith) ⟩ (h + suc (size - 1)) % size
    ≡⟨ step_round h (size - 1) size ⟩ ((h + 1) % size + (size - 1)) % size ∎

-- An index goes on round the end as the one that it is counted from does.
pub next_round : (w h n size : ℕ) → w ≡ (h + n) % size → (w + 1) % size ≡ (h + (n + 1)) % size
next_round w h n size e = rw (e, mod-add-mod) (ap (λ k. k % size) (omega arith))

-- The end stays where it is when the start goes on by one.
pub start_round :
    (w h n size : ℕ) → 0 < n → w ≡ (h + n) % size → w ≡ ((h + 1) % size + (n - 1)) % size
start_round w h n size pos e =
    w
    ≡⟨ e ⟩ (h + n) % size
    ≡⟨ ap (λ k. (h + k) % size) (omega arith) ⟩ (h + suc (n - 1)) % size
    ≡⟨ step_round h (n - 1) size ⟩ ((h + 1) % size + (n - 1)) % size ∎

module _ {ℓ} {A : Type ℓ} (size : ℕ) where
  -- The `n` cells from index `h` on, going round at `size`.
  abbrev pub window : List (Option A) → ℕ → ℕ → List (Option A)
  window cells h zero = []
  window cells h (suc n) = get_or cells h none ∷ window cells ((h + 1) % size) n

  pub length-window : (cells : List (Option A)) (h n : ℕ) → length (window cells h n) ≡ n
  length-window cells h zero = refl
  length-window cells h (suc n) = ap suc (length-window cells ((h + 1) % size) n)

  -- A write past the window leaves it alone.
  pub window-set :
      (cells : List (Option A)) (v : Option A) (n k h i : ℕ)
      → h < size
      → n ≤ k
      → k < size
      → i ≡ (h + k) % size
      → window (set cells i v) h n ≡ window cells h n
  window-set cells v zero k h i hh hn hk e = refl
  window-set cells v (suc n) zero h i hh hn hk e = absurd (omega arith)
  window-set cells v (suc n) (suc k) h i hh hn hk e = λ j.
      get_or-set_ne cells {i = i} {j = h} v none (rw e (add-mod-ne hh hk)) j
      ∷ window-set cells v n k ((h + 1) % size) i (omega arith) (omega arith) (omega arith)
          (e ∙ step_round h k size) j

  -- A longer window ends with the next cell.
  pub window-suc :
      (cells : List (Option A)) (n h : ℕ)
      → h < size
      → window cells h (suc n) ≡ window cells h n ++ (get_or cells ((h + n) % size) none ∷ [])
  window-suc cells zero h hh = rw (add-zero h, mod-eq_of_lt hh)
  window-suc cells (suc n) h hh =
      rw (step_round h n size)
        (ap (λ w. get_or cells h none ∷ w) (window-suc cells n ((h + 1) % size) (omega arith)))

  -- A write just past the window makes it longer by that value.
  pub window-push :
      (cells : List (Option A)) (x : A) (n h i : ℕ) (q : List A)
      → size ≡ length cells
      → h < size
      → n < size
      → i ≡ (h + n) % size
      → window cells h n ≡ map some q
      → window (set cells i (some x)) h (n + 1) ≡ map some (q ++ (x ∷ []))
  window-push cells x n h i q hs hh hn e held =
      window (set cells i (some x)) h (n + 1)
      ≡⟨ ap (window (set cells i (some x)) h) {y = suc n} (omega arith) ⟩
        window (set cells i (some x)) h (suc n)
      ≡⟨ window-suc (set cells i (some x)) n h hh ⟩
        window (set cells i (some x)) h n
        ++ (get_or (set cells i (some x)) ((h + n) % size) none ∷ [])
      ≡⟨ push_end ⟩ map some q ++ (some x ∷ [])
      ≡⟨ sym (map-append some q (x ∷ [])) ⟩ map some (q ++ (x ∷ [])) ∎
    where
      push_end :
          window (set cells i (some x)) h n
            ++ (get_or (set cells i (some x)) ((h + n) % size) none ∷ [])
          ≡ map some q ++ (some x ∷ [])
      push_end = rw (
        window-set cells (some x) n n h i hh (omega arith) hn e,
        held,
        ← e,
        get_or-set_self cells i (some x) none (rw e (omega arith)),
      )

  -- Taking the first value out leaves the window of the others.
  pub window-pop :
      (cells : List (Option A)) (x : A) (n h : ℕ) (q : List A)
      → h < size
      → n ≤ size
      → window cells h n ≡ map some (x ∷ q)
      → (get_or cells h none ≡ some x)
        × (window (set cells h none) ((h + 1) % size) (n - 1) ≡ map some q)
  window-pop cells x zero h q hh hn held = absurd (omega (arith, ap length held))
  window-pop cells x (suc n) h q hh hn held = (
    cc,
    ap (window (set cells h none) ((h + 1) % size)) (omega arith)
        ∙ window-set cells none n (size - 1) ((h + 1) % size) h (omega arith) (omega arith)
            (omega arith) (last_step h size hh)
        ∙ cc,
  )
