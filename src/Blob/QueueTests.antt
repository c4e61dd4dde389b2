-- ===== src/Blob/QueueTests.antt =====
-- The two inner loops of the executor on short queues.
use hoarder.Base.{
  true, pos, ◌≡◌, refl, arith, Option, none, some, List, [], ◌∷◌, ◌++◌, done, panic, unwrap_failed,
  debug,
}
use hoarder.Base.Post.{Post}
use hoarder.Error.{ok}
use hoarder.Collections.RingBuffer.Refine.{Models, after_push, push_lem}
use hoarder.Collections.RingBuffer.Construct.{fresh, fresh-Models}
use hoarder.Blob.Protocol.{io_completed}
use hoarder.Blob.Executor.Defs.{Io, Cqe, Executor, RunQueueEvent, queue_0, queue_1, queue_at}
use hoarder.Blob.Executor.Loop.{drain_completions, turn}
use hoarder.Blob.Executor.Turn.{IsTurned, turn_ends}
use hoarder.Blob.Executor.Completions.{
  Delivers, events_of, completions_queued, completions_overflow,
}
use hoarder.Blob.Tests.{read_bytes, net}
use hoarder.Blob.ExecutorTests.{executor, handler_handle, queue, io}

empty-Models : Models queue []
unfolding fresh
empty-Models = fresh-Models 64 4 (omega arith) (omega arith)

abbrev event : RunQueueEvent
event = record { reason = io_completed (pos 5) 0; handle = handler_handle }

abbrev loaded : Executor io
loaded = record executor { run_queue_0 = after_push queue event }

-- An IO whose state is the completions that are there.
next : List Cqe → List Cqe × Option Cqe
next [] = ([], none)
next (c ∷ cs) = (cs, some c)

abbrev completion : Cqe
completion = record { user_data = 7; result = pos 5; flags = 0 }

abbrev two : List Cqe
two = completion ∷ completion ∷ []

abbrev answering : Io
answering = record {
  State = List Cqe;
  enqueue = λ s entry. (s, ok tt);
  submit_and_wait = λ s want. (two, ok 2);
  next_completion = next;
  register_files = λ s n. (s, ok tt);
  register_buffers = λ s bufs. (s, ok tt);
  memory = λ s. record { byte = λ a. 0; ready = λ x. true };
}

answering-Delivers : Delivers answering (λ s. s)
unfolding next
answering-Delivers = record {
  nothing = λ s none_left. ([], rw none_left refl);
  first = λ s c cs there. (cs, rw there refl, refl);
}

abbrev answered : List Cqe → Executor answering
answered cs = record {
  io_state = cs;
  tcp_listener_pool = executor.tcp_listener_pool;
  conn_handler_pool = executor.conn_handler_pool;
  io_bufs = executor.io_bufs;
  run_queue_0 = queue;
  run_queue_1 = queue;
  current_run_queue = queue_0;
}

completions_queued_example :
    (e : Executor answering) × (drain_completions debug answering net read_bytes 3 (answered two)
      ≡ done (some e))
    × Models (queue_at e queue_1) (events_of two)
    × (e.current_run_queue ≡ queue_0)
completions_queued_example =
    completions_queued debug answering net read_bytes (λ s. s) 3 (answered two) []
      answering-Delivers empty-Models (omega arith) (omega arith)

abbrev five : List Cqe
five = completion ∷ (two ++ two)

completions_overflow_example :
    drain_completions debug answering net read_bytes 5 (answered five) ≡ panic unwrap_failed
completions_overflow_example =
    completions_overflow debug answering net read_bytes (λ s. s) 5 (answered five) []
      answering-Delivers empty-Models (omega arith) (omega arith)

turn_ends_example : Post (IsTurned debug answering net read_bytes queue_0) (
    turn debug answering net read_bytes 3
      (record (answered []) { run_queue_0 = after_push queue event }))
turn_ends_example =
    turn_ends debug answering net read_bytes (λ s. s) 3
      (record (answered []) { run_queue_0 = after_push queue event }) (event ∷ [])
      answering-Delivers (λ s. omega arith)
      (push_lem debug queue event [] empty-Models (omega arith)).1 (omega arith)
