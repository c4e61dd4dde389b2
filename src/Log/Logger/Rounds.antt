-- ===== src/Log/Logger/Rounds.antt =====
-- The consumer catches up with a producer that rests.
use hoarder.Base.{
  ℕ, zero, suc, ◌-◌, ◌^◌, ◌<◌, ◌≡◌, refl, sym, ap, ◌∙◌, List, [], ◌++◌, length, arith, done, ltb,
  Bool-cases, inl, inr, append-nil, subst,
}
use hoarder.Log.Logger.Defs.{update, ConsumePc, consume_step, swap, exchange}
use hoarder.Log.Logger.Inv.{writer, contents, pending}
use hoarder.Log.Logger.System.{System, Actor, run, start, IsSolo, reaches-Inv}
use hoarder.Log.Logger.Alone.{consume_steps}

-- The system after a `consume` that nobody interrupts: the other buffer is active, the one that was
-- has been read and emptied.
abbrev caught_up : System → ℕ → List ℕ → System
caught_up s active got = record s {
  shared = record {
    word = 1 - active;
    offsets = update s.shared.offsets active 0;
    bytes = s.shared.bytes;
  };
  consumer = ConsumePc.idle;
  out = (((((s.out ++ []) ++ []) ++ []) ++ []) ++ got) ++ [];
}

module _ (size : ℕ) (s : System) (waits : s.consumer ≡ ConsumePc.idle) where
  -- Either buffer may be the active one, and it may be empty.
  consumes_all :
      (active : ℕ)
      → active < 2
      → s.shared.word ≡ active
      → run size consume_steps s
        ≡ done (caught_up s active (contents s.shared.offsets s.shared.bytes active))
  unfolding run consume_step swap exchange
  consumes_all zero h word = elim (Bool-cases (ltb 0 (s.shared.offsets 0))) [
    | inl some_bytes ↦ rw (waits, word, some_bytes) refl
    | inr none_there ↦ let e : s.shared.offsets 0 ≡ 0 = ground arith in rw (waits, word, e) refl
  ]
  consumes_all (suc zero) h word = elim (Bool-cases (ltb 0 (s.shared.offsets 1))) [
    | inl some_bytes ↦ rw (waits, word, some_bytes) refl
    | inr none_there ↦ let e : s.shared.offsets 1 ≡ 0 = ground arith in rw (waits, word, e) refl
  ]
  consumes_all (suc (suc n)) h word = absurd (omega arith)

-- Appending nothing, so often as the steps of a `consume` do.
plus_nothing : (out got : List ℕ) → (((((out ++ []) ++ []) ++ []) ++ []) ++ got) ++ [] ≡ out ++ got
plus_nothing out got =
    append-nil ((((((out ++ []) ++ []) ++ []) ++ []) ++ got))
    ∙ ap (λ t. t ++ got)
        (append-nil (((out ++ []) ++ []) ++ [])
          ∙ append-nil ((out ++ []) ++ [])
          ∙ append-nil (out ++ [])
          ∙ append-nil out)

-- One `consume` that nobody interrupts, while the producer holds no buffer.
pub consumer_catches_up :
    (size : ℕ) (memory : ℕ → List ℕ) (schedule : List Actor) (s : System)
    → size < 2 ^ 64
    → ((i : ℕ) → length (memory i) ≡ size)
    → IsSolo schedule
    → run size schedule (start memory) ≡ done s
    → writer (s.producers 0) ≡ 0
    → s.consumer ≡ ConsumePc.idle
    → (s' : System) × (run size consume_steps s ≡ done s')
      × (s'.consumer ≡ ConsumePc.idle)
      × (s'.producers ≡ s.producers)
      × (s'.log ≡ s.log)
      × (s'.out ≡ s.log)
consumer_catches_up size memory schedule s small sized solo e rests waits =
    let (active, v) = reaches-Inv size memory schedule s small sized solo e in
    let word : s.shared.word ≡ active = omega (arith, v.word, rests) in
    let got : List ℕ = contents s.shared.offsets s.shared.bytes active in
    let whole : s.log ≡ s.out ++ got =
      subst (λ c. s.log ≡ s.out ++ (pending active s.shared.offsets s.shared.bytes c ++ got)) waits
        v.whole in
    (
      caught_up s active got,
      consumes_all size s waits active v.binary word,
      refl,
      refl,
      refl,
      plus_nothing s.out got ∙ sym whole,
    )
