-- ===== src/Blob/Ownership/Progress.antt =====
-- hoarder-blob/src/executor/mod.rs, `run`: turn after turn comes to its end.
use hoarder.Base.{
  ℕ, zero, suc, ◌*◌, ◌<◌, arith, ◌≡◌, refl, Option, none, some, List, length, debug, Outcome, done,
}
use hoarder.Base.Post.{Safe, Safe-bind, Safe-map, Safe-both}
use hoarder.Collections.RingBuffer.Refine.{Models-len}
use hoarder.Collections.RingBuffer.Posts.{IsQueue}
use hoarder.Blob.Protocol.{MsgHeader}
use hoarder.Blob.TcpServer.{Net}
use hoarder.Blob.Executor.Defs.{IsReady, Io, Cqe, Executor, QueueIndex, queue_0, queue_1, queue_at}
use hoarder.Blob.Executor.Loop.{setup, seed_run_queue, turn, turns, run}
use hoarder.Blob.Executor.Completions.{Delivers}
use hoarder.Blob.Executor.Start.{IsFresh}
use hoarder.Blob.Executor.Turn.{IsTurned, turn_ends}
use hoarder.Blob.Ownership.Intents.{Accounted}
use hoarder.Blob.Ownership.Runs.{Settled, turn-Settled}
use hoarder.Blob.Ownership.Boot.{setup-Accounted, seed-Accounted, fresh-Accounted}

module _ (n : ℕ) (io : Io) (net : Net) (read_header : List ℕ → Option MsgHeader) where
  -- The loop has not come to its end for want of fuel.
  abbrev GoesOn : Option (Executor io) → Type 0
  GoesOn none = ⊥
  GoesOn (some e) = Accounted n io net read_header e

module _ (n : ℕ) (io : Io) (net : Net) (read_header : List ℕ → Option MsgHeader)
    (ready : IsReady io) (pending : io.State → List Cqe) (fuel : ℕ) (law : Delivers io pending)
    (few : (s : io.State) → length (pending (io.submit_and_wait s 1).0) < fuel)
    (enough : n * 2 < fuel) where
  -- The current queue of an executor.
  current-IsQueue :
      (e : Executor io)
      → Accounted n io net read_header e
      → IsQueue n (queue_at e e.current_run_queue)
  current-IsQueue e (_, _, w, w') = of e.current_run_queue
    where
      of : (c : QueueIndex) → IsQueue n (queue_at e c)
      of queue_0 = w
      of queue_1 = w'

  Turned : QueueIndex → Option (Executor io) → Type 0
  Turned c r = IsTurned debug io net read_header c r × Settled n io net read_header ready r

  turn-Turned :
      (e : Executor io)
      → Accounted n io net read_header e
      → Safe (Turned e.current_run_queue) (turn debug io net read_header fuel e)
  unfolding Turned
  turn-Turned e a =
      let w : IsQueue n (queue_at e e.current_run_queue) = current-IsQueue e a in
      Safe-both (IsTurned debug io net read_header e.current_run_queue)
        (Settled n io net read_header ready) (turn debug io net read_header fuel e)
        (turn_ends debug io net read_header pending fuel e w.entries law few w.models (
          omega (
            arith,
            w.sized,
            w.models.fits,
            Models-len (queue_at e e.current_run_queue) w.entries w.models,
          )))
        (turn-Settled n io net read_header ready fuel e a)

  turns-GoesOn :
      (k : ℕ) (e : Executor io)
      → Accounted n io net read_header e
      → Safe (GoesOn n io net read_header) (turns debug io net read_header fuel k e)
  unfolding turns Turned
  turns-GoesOn zero e a = a
  turns-GoesOn (suc k) e a =
      Safe-bind (GoesOn n io net read_header) (Turned e.current_run_queue)
        (turn debug io net read_header fuel e) _ (turn-Turned e a)
        λ r t. go (turns debug io net read_header fuel k) (turns-GoesOn k) r t
    where
      go :
          (rest : Executor io → Outcome (Option (Executor io)))
          → ((e' : Executor io)
              → Accounted n io net read_header e'
              → Safe (GoesOn n io net read_header) (rest e'))
          → (r : Option (Executor io)) → Turned e.current_run_queue r
          → Safe (GoesOn n io net read_header) (elim r [ none ↦ done none | some e' ↦ rest e' ])
      go rest ih none t = t.0
      go rest ih (some e') t = ih e' t.1

  run-GoesOn :
      (raw : Option ℕ) (k : ℕ) (e : Executor io)
      → Accounted n io net read_header e
      → Safe (GoesOn n io net read_header) (run debug io net read_header raw fuel k e)
  unfolding run
  run-GoesOn raw k e a =
      Safe-bind (GoesOn n io net read_header) (Accounted n io net read_header)
        (setup debug io net read_header raw e) _ (setup-Accounted n io net read_header raw e a)
        λ set_up a'.
          Safe-bind (GoesOn n io net read_header) (Accounted n io net read_header)
            (seed_run_queue debug io net read_header set_up) _
            (seed-Accounted n io net read_header set_up a') λ seeded a''. turns-GoesOn k seeded a''

module _ (io : Io) (net : Net) (read_header : List ℕ → Option MsgHeader)
    (listeners conn_handlers buf_count : ℕ) (ready : IsReady io) where
  -- In a debug build, `run` on a fresh executor goes on for ever unless it panics: on fuel above
  -- four times the number of connections, and above the number of completions that are there
  -- whenever the IO has been waited for, any number of turns comes to its end, without undefined
  -- behaviour. The IO hands out the completions that are there one by one and then none. All memory
  -- is ready for slices at any time: initialised, and not written by anybody while a slice is in
  -- use.
  pub run_goes_on :
      (pending : io.State → List Cqe) (raw : Option ℕ) (fuel k : ℕ) (e : Executor io)
      → Delivers io pending
      → ((s : io.State) → length (pending (io.submit_and_wait s 1).0) < fuel)
      → conn_handlers * 4 < fuel
      → IsFresh listeners conn_handlers buf_count e
      → Safe (λ r. (e' : Executor io) × (r ≡ some e')) (run debug io net read_header raw fuel k e)
  run_goes_on pending raw fuel k e law few enough f =
      let n : ℕ = conn_handlers * 2 in
      Safe-map (GoesOn n io net read_header) (λ r. (e' : Executor io) × (r ≡ some e'))
        (run debug io net read_header raw fuel k e)
        (run-GoesOn n io net read_header ready pending fuel law few (omega arith) raw k e
          (fresh-Accounted io net read_header listeners conn_handlers buf_count e f))
        there
    where
      there :
          (r : Option (Executor io))
          → GoesOn (conn_handlers * 2) io net read_header r
          → (e' : Executor io) × (r ≡ some e')
      there none g = absurd g
      there (some e') g = (e', refl)
