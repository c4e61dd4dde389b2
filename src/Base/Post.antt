-- ===== src/Base/Post.antt =====
-- What holds of the value of a call that returns one.
use mathlib.Core.Bool.{Bool, true, false}
use hoarder.Base.Branch.{if◌then◌else◌}
use mathlib.Core.Option.{Option, none, some}
use hoarder.Base.Fallible.{Outcome, done, panic, undefined, ◌>>=◌, assert, unwrap}

abbrev pub Post {ℓ κ} : {A : Type ℓ} → (A → Type κ) → Outcome A → Type κ
Post P (done a) = P a
Post P (panic e) = Unit
Post P undefined = Unit

module _ {ℓ κ μ} {A : Type ℓ} {B : Type κ} (Q : B → Type μ) where
  pub Post-bind {ν} :
      (P : A → Type ν) (m : Outcome A) (f : A → Outcome B)
      → Post P m
      → ((a : A) → P a → Post Q (f a))
      → Post Q (m >>= f)
  Post-bind P (done a) f p next = next a p
  Post-bind P (panic e) f p next = tt
  Post-bind P undefined f p next = tt

  -- Whatever the first call gives.
  pub Post-after : (m : Outcome A) (f : A → Outcome B) → ((a : A) → Post Q (f a)) → Post Q (m >>= f)
  Post-after (done a) f next = next a
  Post-after (panic e) f next = tt
  Post-after undefined f next = tt

pub Post-if {ℓ κ} :
    {A : Type ℓ} (Q : A → Type κ) (b : Bool) (m k : Outcome A)
    → Post Q m
    → Post Q k
    → Post Q (if b then m else k)
Post-if Q true m k p q = p
Post-if Q false m k p q = q

pub Post-map {ℓ κ μ} :
    {A : Type ℓ} (P : A → Type κ) (Q : A → Type μ) (m : Outcome A)
    → Post P m
    → ((a : A) → P a → Q a)
    → Post Q m
Post-map P Q (done a) p next = next a p
Post-map P Q (panic e) p next = tt
Post-map P Q undefined p next = tt

-- The same, of a call that is free of undefined behaviour.
abbrev pub Safe {ℓ} : {A : Type ℓ} → (A → Type 0) → Outcome A → Type 0
Safe P (done a) = P a
Safe P (panic e) = Unit
Safe P undefined = ⊥

abbrev pub IsDefined {ℓ} : {A : Type ℓ} → Outcome A → Type 0
IsDefined m = Safe (λ _. Unit {0}) m

module _ {ℓ κ} {A : Type ℓ} {B : Type κ} (Q : B → Type 0) where
  pub Safe-bind :
      (P : A → Type 0) (m : Outcome A) (f : A → Outcome B)
      → Safe P m
      → ((a : A) → P a → Safe Q (f a))
      → Safe Q (m >>= f)
  Safe-bind P (done a) f p next = next a p
  Safe-bind P (panic e) f p next = tt
  Safe-bind P undefined f p next = absurd p

  -- Whatever the first call gives.
  pub Safe-after :
      (m : Outcome A) (f : A → Outcome B)
      → IsDefined m
      → ((a : A) → Safe Q (f a))
      → Safe Q (m >>= f)
  Safe-after (done a) f p next = next a
  Safe-after (panic e) f p next = tt
  Safe-after undefined f p next = absurd p

pub Safe-if {ℓ} :
    {A : Type ℓ} (Q : A → Type 0) (b : Bool) (m k : Outcome A)
    → Safe Q m
    → Safe Q k
    → Safe Q (if b then m else k)
Safe-if Q true m k p q = p
Safe-if Q false m k p q = q

pub Safe-map {ℓ} :
    {A : Type ℓ} (P : A → Type 0) (Q : A → Type 0) (m : Outcome A)
    → Safe P m
    → ((a : A) → P a → Q a)
    → Safe Q m
Safe-map P Q (done a) p next = next a p
Safe-map P Q (panic e) p next = tt
Safe-map P Q undefined p next = absurd p

pub assert-IsDefined : (b : Bool) → IsDefined (assert b)
assert-IsDefined true = tt
assert-IsDefined false = tt

pub unwrap-IsDefined {ℓ} : {A : Type ℓ} (o : Option A) → IsDefined (unwrap o)
unwrap-IsDefined none = tt
unwrap-IsDefined (some a) = tt

-- Two things that hold of the value.
pub Safe-both {ℓ} :
    {A : Type ℓ} (P Q : A → Type 0) (m : Outcome A) → Post P m → Safe Q m → Safe (λ a. P a × Q a) m
Safe-both P Q (done a) p q = (p, q)
Safe-both P Q (panic e) p q = tt
Safe-both P Q undefined p q = absurd q
