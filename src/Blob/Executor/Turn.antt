-- ===== src/Blob/Executor/Turn.antt =====
-- A whole turn of the loop of `run`.
use hoarder.Base.{
  ℕ, zero, suc, ◌*◌, ◌<◌, ◌≡◌, refl, sym, ap, ◌∙◌, arith, Option, some, none, done, ◌>>=◌, Build,
  List, [], ◌∷◌, length, subst,
}
use hoarder.Base.Post.{Post, Post-bind, Post-after}
use hoarder.Collections.RingBuffer.Defs.{push_unwrap}
use hoarder.Collections.RingBuffer.Refine.{Models}
use hoarder.Collections.BufferPool.{unwrap_result}
use hoarder.Blob.Protocol.{MsgHeader}
use hoarder.Blob.TcpServer.{Net}
use hoarder.Blob.Executor.Defs.{
  Io, Cqe, Executor, RunQueueEvent, QueueIndex, queue_0, queue_1, other, queue_at,
}
use hoarder.Blob.Executor.Dispatch.{push_event, after_io}
use hoarder.Blob.Executor.Loop.{drain_queue, drain_completions, turn, and_then, switch_run_queue}
use hoarder.Blob.Executor.Drain.{IsDrained, drain_queue_ends}
use hoarder.Blob.Executor.Completions.{event_of, Delivers, at_end, at_next}

module _ (build : Build) (io : Io) (net : Net) (read_header : List ℕ → Option MsgHeader) where
  -- The current queue stays empty, and the IO as it is.
  Keeps : QueueIndex → io.State → Executor io → Type 0
  Keeps c s e = (e.current_run_queue ≡ c) × Models (queue_at e c) [] × (e.io_state ≡ s)

  push-Keeps :
      (c : QueueIndex) (e : Executor io) (x : RunQueueEvent)
      → e.current_run_queue ≡ c
      → Models (queue_at e c) []
      → Post (Keeps c e.io_state) (push_event build io net read_header e (other c) x)
  unfolding push_event Keeps
  push-Keeps queue_0 e x cur m =
      Post-after (Keeps queue_0 e.io_state) (push_unwrap build e.run_queue_1 x) _
        λ queue. (cur, m, refl)
  push-Keeps queue_1 e x cur m =
      Post-after (Keeps queue_1 e.io_state) (push_unwrap build e.run_queue_0 x) _
        λ queue. (cur, m, refl)

  completions-IsDrained :
      (pending : io.State → List Cqe) (c : QueueIndex) (fuel : ℕ) (cs : List Cqe) (e : Executor io)
      → Delivers io pending
      → pending e.io_state ≡ cs
      → length cs < fuel
      → e.current_run_queue ≡ c
      → Models (queue_at e c) []
      → Post
          (IsDrained build io net read_header c)
          (drain_completions build io net read_header fuel e)
  unfolding Keeps
  completions-IsDrained pending c zero cs e law there enough cur m = absurd (omega arith)
  completions-IsDrained pending c (suc fuel) [] e law there enough cur m =
      let (s, none_left) = law.nothing e.io_state there in
      subst (Post (IsDrained build io net read_header c))
        (sym (at_end build io net read_header fuel e s none_left)) (cur, m)
  completions-IsDrained pending c (suc fuel) (x ∷ cs) e law there enough cur m =
      let (s, got, left) = law.first e.io_state x cs there in
      let e₁ : Executor io = record e { io_state = s } in
      subst (Post (IsDrained build io net read_header c))
        (sym (at_next build io net read_header fuel e s x got))
        (Post-bind (IsDrained build io net read_header c) (Keeps c s)
          (push_event build io net read_header e₁ (other e.current_run_queue) (event_of x)) _
          (subst
            (λ i. Post (Keeps c s) (push_event build io net read_header e₁ (other i) (event_of x)))
            (sym cur) (push-Keeps c e₁ (event_of x) cur m))
          λ e₂ (cur₂, m₂, same).
            completions-IsDrained pending c fuel cs e₂ law (ap pending same ∙ left) (omega arith)
              cur₂ m₂)

  -- The queues have changed places, and the one for the next completions is empty.
  abbrev pub IsTurned : QueueIndex → Option (Executor io) → Type 0
  IsTurned c none = ⊥
  IsTurned c (some e) = (e.current_run_queue ≡ other c) × Models (queue_at e c) []

  switched-IsTurned :
      (c : QueueIndex) (r : Option (Executor io))
      → IsDrained build io net read_header c r
      → Post (IsTurned c) (elim r [
        | none ↦ done none
        | some e ↦ done (some (switch_run_queue build io net read_header e))
      ])
  switched-IsTurned c none d = d
  switched-IsTurned c (some e) (cur, m) = (ap other cur, m)

  -- What follows the loop over the current queue.
  waited-IsTurned :
      (pending : io.State → List Cqe) (fuel : ℕ) (c : QueueIndex) (r : Option (Executor io))
      → Delivers io pending
      → ((s : io.State) → length (pending (io.submit_and_wait s 1).0) < fuel)
      → IsDrained build io net read_header c r
      → Post (IsTurned c) (
          and_then build io net read_header (done r) λ drained.
            after_io build io net read_header
              (io.submit_and_wait drained.io_state 1)
              drained
              (λ _ e'. done e')
            >>= λ waited.
                and_then build io net read_header
                  (drain_completions build io net read_header fuel waited)
                  λ reaped. done (some (switch_run_queue build io net read_header reaped)))
  waited-IsTurned pending fuel c none law few d = d
  waited-IsTurned pending fuel c (some e) law few (cur, m) =
      let waited : Executor io = record e { io_state = (io.submit_and_wait e.io_state 1).0 } in
      Post-bind (IsTurned c) (λ x. x ≡ waited)
        (after_io build io net read_header (io.submit_and_wait e.io_state 1) e (λ _ e'. done e')) _
        (Post-after (λ x. x ≡ waited) (unwrap_result (io.submit_and_wait e.io_state 1).1) _
          λ got. refl)
        λ x same.
          subst
            (λ w. Post (IsTurned c) (
              and_then build io net read_header (drain_completions build io net read_header fuel w)
                λ reaped. done (some (switch_run_queue build io net read_header reaped))))
            (sym same)
            (Post-bind (IsTurned c) (IsDrained build io net read_header c)
              (drain_completions build io net read_header fuel waited) _
              (completions-IsDrained pending c fuel (pending waited.io_state) waited law refl
                (few e.io_state) cur m)
              λ r d. switched-IsTurned c r d)

  -- A turn of the loop of `run` that starts with a well-formed current queue ends: on fuel above
  -- twice the number of its events, and above the number of completions that are there whenever the
  -- IO has been waited for, it either stops with a panic or undefined behaviour, or has switched to
  -- the other queue and left the one that was current empty, for the next completions. The IO hands
  -- out the completions that are there one by one and then none.
  pub turn_ends :
      (pending : io.State → List Cqe) (fuel : ℕ) (e : Executor io) (q : List RunQueueEvent)
      → Delivers io pending
      → ((s : io.State) → length (pending (io.submit_and_wait s 1).0) < fuel)
      → Models (queue_at e e.current_run_queue) q
      → length q * 2 < fuel
      → Post (IsTurned e.current_run_queue) (turn build io net read_header fuel e)
  unfolding turn
  turn_ends pending fuel e q law few m enough =
      let c : QueueIndex = e.current_run_queue in
      Post-bind (IsTurned c) (IsDrained build io net read_header c)
        (drain_queue build io net read_header fuel e) _
        (drain_queue_ends build io net read_header fuel e q m enough)
        λ r d. waited-IsTurned pending fuel c r law few d
