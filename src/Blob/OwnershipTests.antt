-- ===== src/Blob/OwnershipTests.antt =====
-- `run` on a fresh executor with two slots for each kind of machine and two buffers, for three turns:
-- the IO completes one accept whenever it is waited for.
use hoarder.Base.{
  true, pos, ◌%◌, ◌≡◌, ◌≢◌, refl, arith, none, some, Option, List, [], ◌∷◌, debug, undefined,
}
use hoarder.Base.Post.{Safe}
use hoarder.Error.{ok}
use hoarder.Collections.GenAlloc.Laws.{id_at}
use hoarder.Collections.PoolTests.{two_generations}
use hoarder.Collections.ObjectHandle as Handle
use hoarder.Blob.Executor.Defs.{Io, Cqe, Executor}
use hoarder.Blob.Executor.Loop.{run}
use hoarder.Blob.Executor.Completions.{Delivers}
use hoarder.Blob.Executor.Start.{IsFresh}
use hoarder.Blob.Ownership.Isolation.{
  run_is_defined, IsIsolated, run_isolates, IsConserved, run_conserves,
}
use hoarder.Blob.Ownership.Progress.{run_goes_on}
use hoarder.Blob.Tests.{read_bytes, net}
use hoarder.Blob.ExecutorTests.{new_executor, new_executor-IsFresh}

abbrev accepted : Cqe
accepted = record {
  user_data = Handle.into_u64 (Handle.new 1 (id_at two_generations 1));
  result = pos 7;
  flags = 2;
}

next : List Cqe → List Cqe × Option Cqe
next [] = ([], none)
next (c ∷ cs) = (cs, some c)

abbrev serving : Io
serving = record {
  State = List Cqe;
  enqueue = λ s entry. (s, ok tt);
  submit_and_wait = λ s want. (accepted ∷ [], ok 1);
  next_completion = next;
  register_files = λ s n. (s, ok tt);
  register_buffers = λ s bufs. (s, ok tt);
  memory = λ s. record { byte = λ a. a % 256; ready = λ x. true };
}

serving-Delivers : Delivers serving (λ s. s)
unfolding next
serving-Delivers = record {
  nothing = λ s none_left. ([], rw none_left refl);
  first = λ s c cs there. (cs, rw there refl, refl);
}

abbrev fresh_executor : Executor serving
fresh_executor = record {
  io_state = [];
  tcp_listener_pool = new_executor.tcp_listener_pool;
  conn_handler_pool = new_executor.conn_handler_pool;
  io_bufs = new_executor.io_bufs;
  run_queue_0 = new_executor.run_queue_0;
  run_queue_1 = new_executor.run_queue_1;
  current_run_queue = new_executor.current_run_queue;
}

fresh : IsFresh 2 2 2 fresh_executor
fresh = record {
  tcp = new_executor-IsFresh.tcp;
  conn = new_executor-IsFresh.conn;
  bufs = new_executor-IsFresh.bufs;
  empty_0 = new_executor-IsFresh.empty_0;
  empty_1 = new_executor-IsFresh.empty_1;
  room_0 = new_executor-IsFresh.room_0;
  room_1 = new_executor-IsFresh.room_1;
  first = new_executor-IsFresh.first;
}

run_is_defined_example : run debug serving net read_bytes (some 4096) 9 3 fresh_executor ≢ undefined
run_is_defined_example =
    run_is_defined serving net read_bytes 2 2 2 (λ s x. refl) (some 4096) 9 3 fresh_executor fresh

run_isolates_example :
    Safe IsIsolated (run debug serving net read_bytes (some 4096) 9 3 fresh_executor)
run_isolates_example =
    run_isolates serving net read_bytes 2 2 2 (λ s x. refl) (some 4096) 9 3 fresh_executor fresh

run_conserves_example :
    Safe IsConserved (run debug serving net read_bytes (some 4096) 9 3 fresh_executor)
run_conserves_example =
    run_conserves serving net read_bytes 2 2 2 (λ s x. refl) (some 4096) 9 3 fresh_executor fresh

run_goes_on_example :
    Safe
      (λ r. (e : Executor serving) × (r ≡ some e))
      (run debug serving net read_bytes (some 4096) 9 3 fresh_executor)
run_goes_on_example =
    run_goes_on serving net read_bytes 2 2 2 (λ s x. refl) (λ s. s) (some 4096) 9 3 fresh_executor
      serving-Delivers (λ s. omega arith) (omega arith) fresh
