-- ===== src/Log/Logger/System.antt =====
-- Producers and the consumer in any interleaving.
use hoarder.Base.{
  ℕ, ◌+◌, ◌^◌, ◌%◌, ◌<◌, ◌≡◌, ◌≢◌, refl, ap, ◌∙◌, List, [], ◌∷◌, ◌++◌, length, arith, Bool, Outcome,
  done, ◌>>=◌, Option, none, some, subst,
}
use hoarder.Log.Logger.Defs.{
  Shared, update, PushPc, idle, claimed, copying, Choice, push_step, ConsumePc, consume_step,
}
use hoarder.Log.Logger.Inv.{writer, contents, pending, Inv}
use hoarder.Log.Logger.Pushing.{push_step-Inv}
use hoarder.Log.Logger.Consuming.{consume_step-Inv}

-- The producers by number, the bytes of the pushes that went through, in their order, and what the
-- callback of `consume` has received.
pub record System : Type 0 where
  pub shared : Shared
  pub producers : ℕ → PushPc
  pub consumer : ConsumePc
  pub log : List ℕ
  pub out : List ℕ

-- Who takes the next step.
pub data Actor : Type 0 where
  produces : ℕ → Choice → Actor
  consumes : Bool → Actor

pub step : ℕ → Actor → System → Outcome System
step size (produces i choice) s = do
  (m, p, bytes) ← push_step size choice s.shared (s.producers i)
  done (record s { shared = m; producers = update s.producers i p; log = s.log ++ bytes })
step size (consumes spurious) s = do
  (m, c, bytes) ← consume_step spurious s.shared s.consumer
  done (record s { shared = m; consumer = c; out = s.out ++ bytes })

unfoldable pub run : ℕ → List Actor → System → Outcome System
unfolding step
run size [] s = done s
run size (a ∷ schedule) s = do s' ← step size a s; run size schedule s'

-- What `Logger::new` leaves behind, over memory of any content.
unfoldable pub start : (ℕ → List ℕ) → System
start memory = record {
  shared = record { word = 0; offsets = λ i. 0; bytes = memory };
  producers = λ i. idle;
  consumer = ConsumePc.idle;
  log = [];
  out = [];
}

-- Only producer 0 takes steps, beside the consumer.
abbrev pub IsSolo : List Actor → Type 0
IsSolo [] = Unit
IsSolo (produces i choice ∷ schedule) = (i ≡ 0) × IsSolo schedule
IsSolo (consumes spurious ∷ schedule) = IsSolo schedule

abbrev pub active_index : System → ℕ
active_index s = s.shared.word % 2

-- What was pushed and is still to be delivered: what the consumer holds, then the active buffer.
abbrev pub unread : System → List ℕ
unread s =
    pending (active_index s) s.shared.offsets s.shared.bytes s.consumer
    ++ contents s.shared.offsets s.shared.bytes (active_index s)

-- The buffer that a thread accesses.
abbrev pub pushes_into : PushPc → Option ℕ
pushes_into (claimed text i) = some i
pushes_into (copying text i pos rest) = some i
pushes_into _ = none

abbrev pub consumes_from : ConsumePc → Option ℕ
consumes_from (ConsumePc.swapped i) = some i
consumes_from (ConsumePc.reading i offset) = some i
consumes_from (ConsumePc.resetting i) = some i
consumes_from _ = none

abbrev pub SystemInv : ℕ → System → Type 0
SystemInv size s = (active : ℕ) × Inv size active s.shared (s.producers 0) s.consumer s.log s.out

start-Inv :
    (size : ℕ) (memory : ℕ → List ℕ)
    → size < 2 ^ 64
    → ((i : ℕ) → length (memory i) ≡ size)
    → SystemInv size (start memory)
unfolding start
start-Inv size memory small sized = (
  0,
  record {
    small = small;
    binary = omega arith;
    sized = sized;
    room = λ i. omega arith;
    word = refl;
    push = tt;
    consume = refl;
    whole = refl;
  },
)

-- A schedule of one producer and the consumer runs to its end and keeps the invariant.
run-Inv :
    (size : ℕ) (schedule : List Actor) (s : System)
    → IsSolo schedule
    → SystemInv size s
    → (s' : System) × (run size schedule s ≡ done s') × SystemInv size s'
unfolding run step
run-Inv size [] s solo v = (s, refl, v)
run-Inv size (produces i choice ∷ schedule) s (first, solo) (active, v) =
    let ((m, p, bytes), e, v') =
      push_step-Inv size active choice s.shared s.consumer s.log s.out (s.producers 0) v in
    let s₁ : System = record s {
      shared = m;
      producers = update s.producers 0 p;
      log = s.log ++ bytes;
    } in
    let (s₂, e₂, v₂) = run-Inv size schedule s₁ solo (active, v') in (s₂, rw (first, e) e₂, v₂)
run-Inv size (consumes spurious ∷ schedule) s solo (active, v) =
    let ((m, c, bytes), active', e, v') =
      consume_step-Inv size active spurious s.shared (s.producers 0) s.log s.out s.consumer v in
    let s₁ : System = record s { shared = m; consumer = c; out = s.out ++ bytes } in
    let (s₂, e₂, v₂) = run-Inv size schedule s₁ solo (active', v') in (s₂, rw e e₂, v₂)

-- What a run of one producer ends in.
pub reaches-Inv :
    (size : ℕ) (memory : ℕ → List ℕ) (schedule : List Actor) (s : System)
    → size < 2 ^ 64
    → ((i : ℕ) → length (memory i) ≡ size)
    → IsSolo schedule
    → run size schedule (start memory) ≡ done s
    → SystemInv size s
reaches-Inv size memory schedule s small sized solo e =
    let (s', e', v) =
      run-Inv size schedule (start memory) solo (start-Inv size memory small sized) in
    let same : s' ≡ s = cc in subst (λ x. SystemInv size x) same v

writer-even : (p : PushPc) (active : ℕ) → active < 2 → (writer p + active) % 2 ≡ active
writer-even p active h = ground arith

active_lem :
    (size active : ℕ) (s : System)
    → Inv size active s.shared (s.producers 0) s.consumer s.log s.out
    → active_index s ≡ active
active_lem size active s v = ap (λ w. w % 2) v.word ∙ writer-even (s.producers 0) active v.binary

different_buffers :
    (size active i j : ℕ) (m : Shared) (p : PushPc) (c : ConsumePc) (log out : List ℕ)
    → Inv size active m p c log out
    → pushes_into p ≡ some i
    → consumes_from c ≡ some j
    → i ≢ j
different_buffers size active i j m p c log out v e f = ground (arith, v.push, v.consume, v.binary)

module _ (size : ℕ) (memory : ℕ → List ℕ) (schedule : List Actor) where
  pub run_delivers :
      size < 2 ^ 64
      → ((i : ℕ) → length (memory i) ≡ size)
      → IsSolo schedule
      → (s : System) × (run size schedule (start memory) ≡ done s) × (s.log ≡ s.out ++ unread s)
  run_delivers small sized solo =
      let (s, e, (active, v)) =
        run-Inv size schedule (start memory) solo (start-Inv size memory small sized) in
      (s, e, rw (active_lem size active s v) v.whole)

  -- At the end of every interleaving of producer 0 with the consumer, the two never access the same
  -- buffer. Both buffers have the size that the producer tests against, which fits 64 bits.
  pub run_excludes :
      (s : System) (i j : ℕ)
      → size < 2 ^ 64
      → ((i : ℕ) → length (memory i) ≡ size)
      → IsSolo schedule
      → run size schedule (start memory) ≡ done s
      → pushes_into (s.producers 0) ≡ some i
      → consumes_from s.consumer ≡ some j
      → i ≢ j
  run_excludes s i j small sized solo e p c =
      let (active, v) = reaches-Inv size memory schedule s small sized solo e in
      different_buffers size active i j s.shared (s.producers 0) s.consumer s.log s.out v p c
