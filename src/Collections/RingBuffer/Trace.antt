-- ===== src/Collections/RingBuffer/Trace.antt =====
-- Sequences of calls: a ring buffer against a bounded queue.
use hoarder.Base.{
  ℕ, ◌≡◌, refl, List, [], ◌∷◌, ◌++◌, Option, none, some, arith, length, Outcome, done, ◌>>=◌, Build,
  ltb, if◌then◌else◌, dec_lt, lt→ltb, le→ltb_false,
}
use hoarder.Error.{Result, ok, err, push_error}
use hoarder.Collections.RingBuffer.Defs.{RingBuffer, push, pop}
use hoarder.Collections.RingBuffer.Refine.{
  Models, Models-len, push_lem, push_full, after_push, after_pop, pop_lem, pop_empty,
}

-- A call of a client, and what it returns.
pub data Op {ℓ} (A : Type ℓ) : Type ℓ where
  put : A → Op A
  take_out : Op A

pub data Reply {ℓ} (A : Type ℓ) : Type ℓ where
  pushed : Result (Unit {0}) → Reply A
  popped : Option A → Reply A

module _ {ℓ} {A : Type ℓ} where
  pub step : Build → RingBuffer A → Op A → Outcome (RingBuffer A × Reply A)
  step build b (put x) = do (b', r) ← push build b x; done (b', pushed r)
  step build b take_out = do (b', x) ← pop build b; done (b', popped x)

  unfoldable pub run : Build → RingBuffer A → List (Op A) → Outcome (List (Reply A))
  unfolding step
  run build b [] = done []
  run build b (op ∷ ops) = do (b', r) ← step build b op; rs ← run build b' ops; done (r ∷ rs)

  -- The specification: a first-in first-out queue of at most `size` values.
  pub queue_step : ℕ → List A → Op A → List A × Reply A
  queue_step size q (put x) =
      if ltb (length q) size then (q ++ (x ∷ []), pushed (ok tt)) else (q, pushed (err push_error))
  queue_step size [] take_out = ([], popped none)
  queue_step size (x ∷ q) take_out = (q, popped (some x))

  unfoldable pub queue_run : ℕ → List A → List (Op A) → List (Reply A)
  unfolding queue_step
  queue_run size q [] = []
  queue_run size q (op ∷ ops) = let (q', r) = queue_step size q op in r ∷ queue_run size q' ops

  step_refines :
      (build : Build) (b : RingBuffer A) (q : List A) (op : Op A)
      → Models b q
      → (b' : RingBuffer A) × (step build b op ≡ done (b', (queue_step b.size q op).1))
        × Models b' (queue_step b.size q op).0
        × (b'.size ≡ b.size)
  unfolding step queue_step
  step_refines build b q (put x) m = elim (dec_lt (length q) b.size) [
    | yes room ↦
        let (e, m', s) = push_lem build b x q m room in
        (after_push b x, rw (e, lt→ltb _ _ room), rw (lt→ltb _ _ room) m', s)
    | no full ↦
        let e = push_full build b x q m (omega (arith, Models-len b q m, m.fits)) in
        (
          b,
          rw (e, le→ltb_false (length q) b.size (omega arith)),
          rw (le→ltb_false (length q) b.size (omega arith)) m,
          refl,
        )
  ]
  step_refines build b [] take_out m = (b, rw (pop_empty build b m), m, refl)
  step_refines build b (x ∷ q) take_out m =
      let (e, m', s) = pop_lem build b x q m in (after_pop b, rw e, m', s)

  -- Every sequence of `push` and `pop` on a well-formed ring buffer ends without a panic and
  -- without undefined behaviour, in both builds, and returns what a bounded first-in first-out
  -- queue of the same capacity returns that starts with the values of the buffer.
  pub run_refines :
      (build : Build) (ops : List (Op A)) (b : RingBuffer A) (q : List A)
      → Models b q
      → run build b ops ≡ done (queue_run b.size q ops)
  unfolding run queue_run
  run_refines build [] b q m = refl
  run_refines build (op ∷ ops) b q m =
      let (b', e, m', s) = step_refines build b q op m in
      rw (e, run_refines build ops b' (queue_step b.size q op).0 m', s)
