-- ===== src/Log/Logger/Flush.antt =====
-- `Producer::panic_flush` after any interleaving of one producer and the consumer.
use hoarder.Base.{
  ℕ, zero, suc, ◌-◌, ◌^◌, ◌<◌, ◌≡◌, refl, sym, ap, ◌∙◌, List, [], ◌∷◌, ◌++◌, length, take, arith,
  done, none, ltb, subst, append-nil, lt→ltb, if◌then◌else◌,
}
use hoarder.Base.Slices.{concat}
use hoarder.Log.Logger.Defs.{Shared, ConsumePc, panic_flush, flush}
use hoarder.Log.Logger.Inv.{contents, pending, OwnConsume}
use hoarder.Log.Logger.System.{System, Actor, run, start, IsSolo, reaches-Inv, consumes_from}

concat-flush :
    (m : Shared) (i : ℕ) (rest : List (List ℕ))
    → concat (flush m i rest) ≡ contents m.offsets m.bytes i ++ concat rest
unfolding flush
concat-flush m i rest = by_offset (m.offsets i)
  where
    by_offset :
        (n : ℕ)
        → concat (if ltb 0 n then take n (m.bytes i) ∷ rest else rest)
          ≡ take n (m.bytes i) ++ concat rest
    by_offset zero = refl
    by_offset (suc n) = rw (lt→ltb 0 (suc n) (omega arith)) refl

pub concat-panic_flush :
    (m : Shared)
    → concat (panic_flush m) ≡ contents m.offsets m.bytes 0 ++ contents m.offsets m.bytes 1
unfolding panic_flush
concat-panic_flush m =
    concat-flush m 0 (flush m 1 [])
    ∙ ap (λ t. contents m.offsets m.bytes 0 ++ t)
        (concat-flush m 1 [] ∙ append-nil (contents m.offsets m.bytes 1))

-- The other buffer has nothing in it.
beside_empty :
    (active : ℕ) (offsets : ℕ → ℕ) (bytes : ℕ → List ℕ)
    → active < 2
    → offsets (1 - active) ≡ 0
    → contents offsets bytes active ≡ contents offsets bytes 0 ++ contents offsets bytes 1
beside_empty zero offsets bytes h e =
    sym (append-nil (contents offsets bytes 0))
    ∙ ap (λ n. contents offsets bytes 0 ++ take n (bytes 1)) (sym e)
beside_empty (suc zero) offsets bytes h e =
    ap (λ n. take n (bytes 0) ++ contents offsets bytes 1) (sym e)
beside_empty (suc (suc n)) offsets bytes h e = absurd (omega arith)

-- While the consumer holds no buffer.
resting :
    (active : ℕ) (offsets : ℕ → ℕ) (bytes : ℕ → List ℕ) (c : ConsumePc)
    → active < 2
    → consumes_from c ≡ none
    → OwnConsume active offsets c
    → pending active offsets bytes c ++ contents offsets bytes active
      ≡ contents offsets bytes 0 ++ contents offsets bytes 1
resting active offsets bytes ConsumePc.idle h e own = beside_empty active offsets bytes h own
resting active offsets bytes ConsumePc.loading h e own = beside_empty active offsets bytes h own
resting active offsets bytes (ConsumePc.loaded w) h e own = beside_empty active offsets bytes h own
resting active offsets bytes (ConsumePc.swapped i) h e own = absurd cc
resting active offsets bytes (ConsumePc.reading i n) h e own = absurd cc
resting active offsets bytes (ConsumePc.resetting i) h e own = absurd cc

module _ (size : ℕ) (memory : ℕ → List ℕ) (schedule : List Actor) where
  -- At the end of every interleaving of producer 0 with the consumer in which the consumer has not
  -- swapped the buffers and not yet emptied the one it took, what the callback of `consume` has
  -- received, followed by what `panic_flush` hands out, is the whole log. Both buffers have the
  -- size that the producer tests against, which fits 64 bits.
  pub panic_flush_completes :
      (s : System)
      → size < 2 ^ 64
      → ((i : ℕ) → length (memory i) ≡ size)
      → IsSolo schedule
      → run size schedule (start memory) ≡ done s
      → consumes_from s.consumer ≡ none
      → s.log ≡ s.out ++ concat (panic_flush s.shared)
  panic_flush_completes s small sized solo e c =
      let (active, v) = reaches-Inv size memory schedule s small sized solo e in
      v.whole
      ∙ ap (λ t. s.out ++ t)
          (resting active s.shared.offsets s.shared.bytes s.consumer v.binary c v.consume
            ∙ sym (concat-panic_flush s.shared))

  -- While the consumer has taken buffer 1 and not yet read its offset, the log goes on with buffer
  -- 1 and then buffer 0, but `panic_flush` hands out buffer 0 before buffer 1. This holds at the
  -- end of every such interleaving of producer 0 with the consumer, over buffers of the size that
  -- the producer tests against, which fits 64 bits.
  pub panic_flush_reorders :
      (s : System)
      → size < 2 ^ 64
      → ((i : ℕ) → length (memory i) ≡ size)
      → IsSolo schedule
      → run size schedule (start memory) ≡ done s
      → s.consumer ≡ ConsumePc.swapped 1
      → (s.log
          ≡ s.out
            ++ (contents s.shared.offsets s.shared.bytes 1
                ++ contents s.shared.offsets s.shared.bytes 0))
        × (concat (panic_flush s.shared)
            ≡ contents s.shared.offsets s.shared.bytes 0
              ++ contents s.shared.offsets s.shared.bytes 1)
  panic_flush_reorders s small sized solo e c =
      let (active, v) = reaches-Inv size memory schedule s small sized solo e in
      let own : 1 ≡ 1 - active = subst (λ x. OwnConsume active s.shared.offsets x) c v.consume in
      let first : active ≡ 0 = omega (arith, v.binary) in
      (
        subst
            (λ a.
              s.log
              ≡ s.out
                ++ (contents s.shared.offsets s.shared.bytes (1 - a)
                    ++ contents s.shared.offsets s.shared.bytes a))
            first
            (subst
              (λ x.
                s.log
                ≡ s.out
                  ++ (pending active s.shared.offsets s.shared.bytes x
                      ++ contents s.shared.offsets s.shared.bytes active))
              c v.whole),
        concat-panic_flush s.shared,
      )
