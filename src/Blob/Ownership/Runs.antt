-- ===== src/Blob/Ownership/Runs.antt =====
-- hoarder-blob/src/executor/mod.rs, the loop of `run`: the owners of the buffers after any number of
-- turns.
use hoarder.Base.{ℕ, zero, suc, Option, none, some, List, debug, Outcome, done, ◌>>=◌}
use hoarder.Base.Post.{Safe, Safe-bind, Safe-after}
use hoarder.Collections.RingBuffer.Defs.{pop}
use hoarder.Collections.RingBuffer.Posts.{IsQueue, pop-IsQueue}
use hoarder.Collections.BufferPool.{unwrap_result}
use hoarder.Blob.Protocol.{MsgHeader}
use hoarder.Blob.TcpServer.{Net}
use hoarder.Blob.Executor.Defs.{
  IsReady, Io, Cqe, Executor, RunQueueEvent, QueueIndex, queue_0, queue_1, other,
}
use hoarder.Blob.Executor.Dispatch.{pop_event, push_event, handle_one, after_io}
use hoarder.Blob.Executor.Loop.{drain_queue, drain_completions, turn, and_then, turns}
use hoarder.Blob.Executor.Completions.{event_of}
use hoarder.Blob.Ownership.Intents.{Accounted, push-Accounted, unwrap_result-IsDefined}
use hoarder.Blob.Ownership.Events.{handle_one-Accounted}

module _ (n : ℕ) (io : Io) (net : Net) (read_header : List ℕ → Option MsgHeader)
    (ready : IsReady io) where
  pop-Accounted :
      (e : Executor io) (i : QueueIndex)
      → Accounted n io net read_header e
      → Safe (λ r. Accounted n io net read_header r.0) (pop_event debug io net read_header e i)
  unfolding pop_event
  pop-Accounted e queue_0 (o, l, w, w') =
      Safe-bind _ (λ r. IsQueue n r.0) (pop debug e.run_queue_0) _
        (pop-IsQueue n debug e.run_queue_0 w) λ r w₁. (o, l, w₁, w')
  pop-Accounted e queue_1 (o, l, w, w') =
      Safe-bind _ (λ r. IsQueue n r.0) (pop debug e.run_queue_1) _
        (pop-IsQueue n debug e.run_queue_1 w') λ r w₁. (o, l, w, w₁)

  -- What a loop leaves that has come to its end.
  abbrev pub Settled : Option (Executor io) → Type 0
  Settled none = Unit
  Settled (some e) = Accounted n io net read_header e

  -- After `pop`, given the rest of the loop.
  after_pop-Settled :
      (rest : Executor io → Outcome (Option (Executor io)))
      → ((e : Executor io) → Accounted n io net read_header e → Safe Settled (rest e))
      → (e : Executor io) (popped : Option RunQueueEvent) → Accounted n io net read_header e
      → Safe Settled (elim popped [
        | none ↦ done (some e)
        | some event ↦ handle_one debug io net read_header e event >>= λ e'. rest e'
      ])
  after_pop-Settled rest ih e none a = a
  after_pop-Settled rest ih e (some event) a =
      Safe-bind Settled (Accounted n io net read_header)
        (handle_one debug io net read_header e event) _
        (handle_one-Accounted n io net read_header ready e event a) ih

  drain-Settled :
      (fuel : ℕ) (e : Executor io)
      → Accounted n io net read_header e
      → Safe Settled (drain_queue debug io net read_header fuel e)
  unfolding drain_queue
  drain-Settled zero e a = tt
  drain-Settled (suc fuel) e a =
      Safe-bind Settled (λ r. Accounted n io net read_header r.0)
        (pop_event debug io net read_header e e.current_run_queue) _
        (pop-Accounted e e.current_run_queue a)
        λ r a'.
          after_pop-Settled (drain_queue debug io net read_header fuel) (drain-Settled fuel) r.0 r.1
            a'

  -- After `next`, given the rest of the loop.
  after_next-Settled :
      (rest : Executor io → Outcome (Option (Executor io)))
      → ((e : Executor io) → Accounted n io net read_header e → Safe Settled (rest e))
      → (e : Executor io) (s : io.State) (completion : Option Cqe)
      → Accounted n io net read_header e
      → Safe Settled (elim completion [
        | none ↦ done (some (record e { io_state = s }))
        | some cqe ↦
            push_event debug io net read_header
              (record e { io_state = s })
              (other e.current_run_queue)
              (event_of cqe)
            >>= λ e'. rest e'
      ])
  after_next-Settled rest ih e s none a = a
  after_next-Settled rest ih e s (some cqe) a =
      Safe-bind Settled (Accounted n io net read_header)
        (push_event debug io net read_header (record e { io_state = s }) (other e.current_run_queue)
          (event_of cqe))
        _
        (push-Accounted n io net read_header (record e { io_state = s }) (other e.current_run_queue)
          (event_of cqe) a)
        ih

  completions-Settled :
      (fuel : ℕ) (e : Executor io)
      → Accounted n io net read_header e
      → Safe Settled (drain_completions debug io net read_header fuel e)
  unfolding drain_completions
  completions-Settled zero e a = tt
  completions-Settled (suc fuel) e a =
      after_next-Settled (drain_completions debug io net read_header fuel)
        (completions-Settled fuel) e (io.next_completion e.io_state).0
        (io.next_completion e.io_state).1 a

  and_then-Settled :
      (m : Outcome (Option (Executor io))) (k : Executor io → Outcome (Option (Executor io)))
      → Safe Settled m
      → ((e : Executor io) → Accounted n io net read_header e → Safe Settled (k e))
      → Safe Settled (and_then debug io net read_header m k)
  and_then-Settled m k before after = Safe-bind Settled Settled m _ before go
    where
      go :
          (r : Option (Executor io))
          → Settled r
          → Safe Settled (elim r [ none ↦ done none | some e ↦ k e ])
      go none s = tt
      go (some e) s = after e s

  pub turn-Settled :
      (fuel : ℕ) (e : Executor io)
      → Accounted n io net read_header e
      → Safe Settled (turn debug io net read_header fuel e)
  unfolding turn
  turn-Settled fuel e a =
      and_then-Settled (drain_queue debug io net read_header fuel e) _ (drain-Settled fuel e a)
        λ drained a₁.
          Safe-bind Settled (Accounted n io net read_header)
            (after_io debug io net read_header (io.submit_and_wait drained.io_state 1) drained
              (λ _ e'. done e'))
            _
            (Safe-after (Accounted n io net read_header)
              (unwrap_result (io.submit_and_wait drained.io_state 1).1) _
              (unwrap_result-IsDefined (io.submit_and_wait drained.io_state 1).1) λ got. a₁)
            λ waited a₂.
              and_then-Settled (drain_completions debug io net read_header fuel waited) _
                (completions-Settled fuel waited a₂) λ reaped a₃. a₃

  pub turns-Settled :
      (fuel k : ℕ) (e : Executor io)
      → Accounted n io net read_header e
      → Safe Settled (turns debug io net read_header fuel k e)
  unfolding turns
  turns-Settled fuel zero e a = a
  turns-Settled fuel (suc k) e a =
      and_then-Settled (turn debug io net read_header fuel e) _ (turn-Settled fuel e a)
        (turns-Settled fuel k)
