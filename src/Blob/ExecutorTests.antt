-- ===== src/Blob/ExecutorTests.antt =====
-- The executor on small pools.
use hoarder.Blob.TcpServer.{TcpServer, accepting}
use hoarder.Blob.TcpServer.Laws.{server}
use hoarder.Blob.ConnHandler as Conn
use hoarder.Blob.Executor.Accept.{accept_spawns}
use hoarder.Base.{
  true, pos, negsuc, ◌%◌, ◌≡◌, refl, arith, none, some, List, [], ◌∷◌, done, panic, assert_failed,
  unwrap_failed, debug, write_cell, add_usize, layout_array,
}
use hoarder.Error.{ok}
use hoarder.Collections.Array
use hoarder.Collections.RingBuffer.Defs
use hoarder.Collections.GenAlloc.Defs as Gen
use hoarder.Collections.GenAlloc.Defs.{is_valid}
use hoarder.Collections.GenAlloc.Laws.{id_at}
use hoarder.Collections.GenAlloc.Invariant.{Book, enter}
use hoarder.Collections.GenAlloc.Construct.{empty_book}
use hoarder.Collections.BufferPool as Buffers
use hoarder.Collections.PoolTests.{two_generations, lent_pool, lent-Holds, next_is_one}
use hoarder.Collections.ObjectHandle as Handle
use hoarder.Blob.Protocol.{spawned, io_completed}
use hoarder.Blob.ConnHandler.{ConnHandler, receiving, receiving_header}
use hoarder.Blob.ConnHandler.Effects.{conn}
use hoarder.Blob.TcpServer.{TcpServer, accepting}
use hoarder.Collections.RingBuffer.Defs.{RingBuffer, from_fixed_iter, fill, push_unwrap, push}
use hoarder.Collections.ObjectPool as Objects
use hoarder.Collections.ObjectPool.{ObjectPool}
use hoarder.Collections.ObjectPool.Laws as ObjectLaws
use hoarder.Collections.ObjectPool.Laws.{after_spawn, spawn_lem}
use hoarder.Collections.ObjectPool.Construct.{new-Holds}
use hoarder.Blob.Executor.Defs.{Io, Sqe, Executor, RunQueueEvent, queue_0}
use hoarder.Blob.Executor.Dispatch.{handle_one}
use hoarder.Blob.Executor.Crashes.{connection_error_stops, full_buffer_stops}
use hoarder.Blob.Tests.{read_bytes, socket, header, net, reset_errors}
use hoarder.Blob.Executor.Defs.{Answers}
use hoarder.Blob.Executor.Start.{IsFresh, new-IsFresh}
use hoarder.Base.{Repr, layout_array}
use hoarder.Blob.Executor.Loop
use hoarder.Collections.AlignedBuffers as Aligned
use hoarder.Collections.BufferPool.{unwrap_result}
use hoarder.Collections.RingBuffer.Refine.{Models}
use hoarder.Collections.PoolTests.{two_pool, aligned_8192}

-- An IO that accepts every entry and completes nothing.
abbrev pub io : Io
io = record {
  State = List Sqe;
  enqueue = λ s entry. (entry ∷ s, ok tt);
  submit_and_wait = λ s want. (s, ok 0);
  next_completion = λ s. (s, none);
  register_files = λ s n. (s, ok tt);
  register_buffers = λ s bufs. (s, ok tt);
  memory = λ s. record { byte = λ a. a % 256; ready = λ x. true };
}

-- The pool of handlers, with one that receives at an offset.
abbrev pub empty_handlers : ObjectPool ConnHandler
empty_handlers = record {
  slots = record { ptr = 8; cells = none ∷ none ∷ []; size = 2 };
  allocator = two_generations;
}

abbrev handler : ConnHandler
handler = conn (receiving receiving_header) socket 1 0 2

abbrev handlers : ObjectPool ConnHandler
handlers = after_spawn empty_handlers 1 handler

abbrev pub handler_handle : Handle.ObjectHandle
handler_handle = Handle.new 2 (id_at two_generations 1)

pub created_handlers :
    Objects.new debug
      (record { size_of = 48; align_of = 8 })
      (record { slots = some 8; generations = some 16; free_list = some 24 })
      2
    ≡ done empty_handlers
unfolding Objects.new Gen.new Array.new Array.new_with_fn from_fixed_iter Defs.new fill push_unwrap
    push write_cell add_usize layout_array
created_handlers = refl

abbrev pub handler_book : Book
handler_book =
    enter empty_book (Handle.index handler_handle) (some (Handle.generation handler_handle))

handlers-Holds : ObjectLaws.Holds handlers (0 ∷ []) handler_book
handlers-Holds =
    (spawn_lem 2 debug 1 (0 ∷ []) handler (omega arith)
      (new-Holds debug (record { size_of = 48; align_of = 8 })
        (record { slots = some 8; generations = some 16; free_list = some 24 }) 2
        created_handlers).0).3

abbrev pub queue : RingBuffer RunQueueEvent
queue = record {
  ptr = 64;
  cells = none ∷ none ∷ none ∷ none ∷ [];
  write_idx = 0;
  read_idx = 0;
  size = 4;
  len = 0;
}

abbrev pub executor : Executor io
executor = record {
  io_state = [];
  tcp_listener_pool = record {
    slots = record { ptr = 8; cells = none ∷ none ∷ []; size = 2 };
    allocator = two_generations;
  };
  conn_handler_pool = handlers;
  io_bufs = lent_pool;
  run_queue_0 = queue;
  run_queue_1 = queue;
  current_run_queue = queue_0;
}

pub own_pool : Handle.pool_id handler_handle ≡ 2
unfolding Handle.pool_id Handle.new
own_pool = refl

pub handler-IsHeld : ObjectLaws.IsHeld handler_book handler_handle
unfolding Handle.index Handle.new Handle.generation
handler-IsHeld = refl

handler_slot : ObjectLaws.slot_at handlers (Handle.index handler_handle) ≡ some handler
unfolding Handle.index Handle.new after_spawn
handler_slot = refl

connection_error_stops_example :
    handle_one debug io net read_bytes executor
      (record { reason = io_completed (negsuc 103) 0; handle = handler_handle })
    ≡ panic unwrap_failed
connection_error_stops_example =
    connection_error_stops debug io net read_bytes executor handler_handle (0 ∷ []) (0 ∷ [])
      receiving_header socket 1 0 2 103 0 own_pool handlers-Holds handler-IsHeld handler_slot
      lent-Holds refl next_is_one reset_errors.0 reset_errors.1 reset_errors.2 (omega arith)

full_buffer_stops_example :
    handle_one debug io net read_bytes executor
      (record { reason = io_completed (pos 4094) 0; handle = handler_handle })
    ≡ panic assert_failed
full_buffer_stops_example =
    full_buffer_stops debug io net read_bytes executor handler_handle (0 ∷ []) (0 ∷ [])
      receiving_header socket 1 0 2 4093 0 header own_pool handlers-Holds handler-IsHeld
      handler_slot lent-Holds refl refl refl refl

abbrev pub repr : Repr
repr = record { size_of = 48; align_of = 8 }

abbrev pool_answers : Objects.Answers
pool_answers = record { slots = some 8; generations = some 16; free_list = some 24 }

abbrev pub answers : Answers
answers = record {
  listeners = pool_answers;
  conn_handlers = pool_answers;
  buffers = record { block = some 8192; generations = some 16; free_list = some 24 };
  run_queue_0 = some 64;
  run_queue_1 = some 64;
  listener_repr = repr;
  conn_handler_repr = repr;
  event_repr = repr;
}

abbrev pub new_executor : Executor io
new_executor = record executor { conn_handler_pool = empty_handlers; io_bufs = two_pool }

created_executor : Loop.new debug io net read_bytes answers [] 2 2 2 ≡ done new_executor
unfolding Loop.new Buffers.new Objects.new Aligned.new Aligned.is_power_of_two
    Aligned.unwrap_asserted Aligned.layout_unchecked Aligned.raw_alloc Aligned.or_fail unwrap_result
    Gen.new Array.new Array.new_with_fn from_fixed_iter Defs.new fill push_unwrap push write_cell
    add_usize layout_array
created_executor = refl

pub new_executor-IsFresh : IsFresh 2 2 2 new_executor
new_executor-IsFresh =
    new-IsFresh debug io net read_bytes answers [] 2 2 2 (omega arith) (omega arith) (omega arith)
      aligned_8192 created_executor

-- An executor whose listener accepts.
abbrev empty_listeners : ObjectPool TcpServer
empty_listeners = record {
  slots = record { ptr = 8; cells = none ∷ none ∷ []; size = 2 };
  allocator = two_generations;
}

abbrev listener : TcpServer
listener = server accepting [] 64 (pos 5)

abbrev listener_handle : Handle.ObjectHandle
listener_handle = Handle.new 1 (id_at two_generations 1)

abbrev listener_book : Book
listener_book =
    enter empty_book (Handle.index listener_handle) (some (Handle.generation listener_handle))

abbrev listeners : ObjectPool TcpServer
listeners = after_spawn empty_listeners 1 listener

listeners-Holds : ObjectLaws.Holds listeners (0 ∷ []) listener_book
listeners-Holds = (spawn_lem 1 debug 1 (0 ∷ []) listener (omega arith) new_executor-IsFresh.tcp).3

listener-IsHeld : ObjectLaws.IsHeld listener_book listener_handle
unfolding Handle.index Handle.new Handle.generation
listener-IsHeld = refl

listener_pool : Handle.pool_id listener_handle ≡ 1
unfolding Handle.pool_id Handle.new
listener_pool = refl

listener_slot : ObjectLaws.slot_at listeners (Handle.index listener_handle) ≡ some listener
unfolding Handle.index Handle.new after_spawn
listener_slot = refl

abbrev accepting_executor : Executor io
accepting_executor = record new_executor { tcp_listener_pool = listeners }

accept_spawns_example :
    let h' = Handle.new 2 (id_at two_generations 1) in
    (e' : Executor io) × (handle_one debug io net read_bytes accepting_executor
        (record { reason = io_completed (pos 9) 0; handle = listener_handle })
      ≡ done e')
    × (empty_book (Handle.index h') ≡ none)
    × (Handle.pool_id h' ≡ 2)
    × (Objects.get e'.conn_handler_pool h' ≡ done (some (Conn.new 9)))
    × (e'.current_run_queue ≡ queue_0)
    × Models e'.run_queue_0 (record { reason = spawned; handle = h' } ∷ [])
accept_spawns_example =
    accept_spawns debug io net read_bytes accepting_executor listener_handle (0 ∷ []) (0 ∷ []) 1 []
      64 9 0 (pos 5) [] listener_pool listeners-Holds listener-IsHeld listener_slot
      new_executor-IsFresh.conn new_executor-IsFresh.empty_0 (omega arith) refl
