-- ===== src/Blob/MemoryTests.antt =====
-- An executor whose memory nobody has written yet.
use hoarder.Base.{◌≡◌, refl, none, some, List, [], ◌∷◌, arith, false, debug, undefined}
use hoarder.Error.{ok}
use hoarder.Collections.ObjectHandle as Handle
use hoarder.Collections.ObjectPool.{ObjectPool}
use hoarder.Collections.ObjectPool.Laws as ObjectLaws
use hoarder.Collections.ObjectPool.Laws.{after_spawn, spawn_lem}
use hoarder.Collections.ObjectPool.Construct.{new-Holds}
use hoarder.Collections.PoolTests.{two_pool, two_pool-Holds}
use hoarder.Blob.Protocol.{spawned}
use hoarder.Blob.ConnHandler as Conn
use hoarder.Blob.ConnHandler.{ConnHandler}
use hoarder.Blob.Tests.{read_bytes, net}
use hoarder.Blob.Executor.Defs.{Io, Sqe, Executor, queue_0}
use hoarder.Blob.Executor.Dispatch.{handle_one}
use hoarder.Blob.Executor.Unready.{first_receive_undefined}
use hoarder.Blob.ExecutorTests.{
  queue, handler_handle, empty_handlers, created_handlers, own_pool, handler-IsHeld, handler_book,
}

abbrev unwritten : Io
unwritten = record {
  State = List Sqe;
  enqueue = λ s entry. (entry ∷ s, ok tt);
  submit_and_wait = λ s want. (s, ok 0);
  next_completion = λ s. (s, none);
  register_files = λ s n. (s, ok tt);
  register_buffers = λ s bufs. (s, ok tt);
  memory = λ s. record { byte = λ a. 0; ready = λ x. false };
}

abbrev spawned_handlers : ObjectPool ConnHandler
spawned_handlers = after_spawn empty_handlers 1 (Conn.new 3)

spawned_handlers-Holds : ObjectLaws.Holds spawned_handlers (0 ∷ []) handler_book
spawned_handlers-Holds =
    (spawn_lem 2 debug 1 (0 ∷ []) (Conn.new 3) (omega arith)
      (new-Holds debug (record { size_of = 48; align_of = 8 })
        (record { slots = some 8; generations = some 16; free_list = some 24 }) 2
        created_handlers).0).3

spawned_slot : ObjectLaws.slot_at spawned_handlers (Handle.index handler_handle) ≡ some (Conn.new 3)
unfolding Handle.index Handle.new after_spawn
spawned_slot = refl

abbrev executor : Executor unwritten
executor = record {
  io_state = [];
  tcp_listener_pool = record {
    slots = record { ptr = 8; cells = none ∷ none ∷ []; size = 2 };
    allocator = empty_handlers.allocator;
  };
  conn_handler_pool = spawned_handlers;
  io_bufs = two_pool;
  run_queue_0 = queue;
  run_queue_1 = queue;
  current_run_queue = queue_0;
}

first_receive_undefined_example :
    handle_one debug unwritten net read_bytes executor
      (record { reason = spawned; handle = handler_handle })
    ≡ undefined
first_receive_undefined_example =
    first_receive_undefined debug unwritten net read_bytes executor handler_handle (0 ∷ []) (0 ∷ [])
      3 1 own_pool spawned_handlers-Holds handler-IsHeld spawned_slot two_pool-Holds refl
