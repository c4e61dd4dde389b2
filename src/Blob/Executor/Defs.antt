-- ===== src/Blob/Executor/Defs.antt =====
-- The executor's state, and the IO that it is generic over.
use hoarder.Base.{◌≡◌, true, ℕ, ℤ, Option, List, [], ◌∷◌, Repr}
use hoarder.Error.{Result}
use hoarder.Collections.RingBuffer.Defs.{RingBuffer}
use hoarder.Collections.BufferPool
use hoarder.Collections.BufferPool.{Memory, BufferHandle, BufferPool, Slice, unwrap_result}
use hoarder.Collections.ObjectHandle.{ObjectHandle}
use hoarder.Collections.ObjectPool
use hoarder.Collections.ObjectPool.{ObjectPool}
use hoarder.Blob.Protocol.{Fixed, Fd, MachineEvent}
use hoarder.Blob.ConnHandler.{ConnHandler}
use hoarder.Blob.TcpServer.{TcpServer}

abbrev pub tcp_server_id : ℕ
tcp_server_id = 1

abbrev pub conn_handler_id : ℕ
conn_handler_id = 2

-- The entries that the executor builds, each with its user data.
pub data Sqe : Type 0 where
  accept_multi : Fd → ℕ → Sqe
  read_fixed : Fixed → ℕ → ℕ → ℕ → ℕ → Sqe
  close_entry : Fixed → ℕ → Sqe

pub record Cqe : Type 0 where
  pub user_data : ℕ
  pub result : ℤ
  pub flags : ℕ

pub record Iovec : Type 0 where
  pub iov_base : ℕ
  pub iov_len : ℕ

-- The trait `IO`; `next_completion` is `completion().next()`.
pub record Io : Type 1 where
  pub State : Type 0
  pub enqueue : State → Sqe → State × Result (Unit {0})
  pub submit_and_wait : State → ℕ → State × Result ℕ
  pub next_completion : State → State × Option Cqe
  pub register_files : State → ℕ → State × Result (Unit {0})
  pub register_buffers : State → List Iovec → State × Result (Unit {0})
  pub memory : State → Memory

-- The memory is ready for every slice at any time: all of it is initialised, and the kernel writes
-- none of it while a slice is in use.
abbrev pub IsReady : Io → Type 0
IsReady io = (s : io.State) (x : Slice) → (io.memory s).ready x ≡ true

pub record RunQueueEvent : Type 0 where
  pub reason : MachineEvent
  pub handle : ObjectHandle

-- `current_run_queue` starts at 0 and only `1 - current_run_queue` is ever assigned.
pub data QueueIndex : Type 0 where
  queue_0 queue_1 : QueueIndex

abbrev pub other : QueueIndex → QueueIndex
other queue_0 = queue_1
other queue_1 = queue_0

-- `intents` is left out: what its slots hold past the number of intents is never read.
pub record Executor (io : Io) : Type 0 where
  pub io_state : io.State
  pub tcp_listener_pool : ObjectPool TcpServer
  pub conn_handler_pool : ObjectPool ConnHandler
  pub io_bufs : BufferPool
  pub run_queue_0 : RingBuffer RunQueueEvent
  pub run_queue_1 : RingBuffer RunQueueEvent
  pub current_run_queue : QueueIndex

-- `run_queues[i]`
abbrev pub pick :
    QueueIndex → RingBuffer RunQueueEvent → RingBuffer RunQueueEvent → RingBuffer RunQueueEvent
pick queue_0 a b = a
pick queue_1 a b = b

abbrev pub queue_at : {io : Io} → Executor io → QueueIndex → RingBuffer RunQueueEvent
queue_at e c = pick c e.run_queue_0 e.run_queue_1

-- The allocator's answers to what `Executor::new` allocates, and the layouts of the element types.
pub record Answers : Type 0 where
  pub listeners : ObjectPool.Answers
  pub conn_handlers : ObjectPool.Answers
  pub buffers : BufferPool.Answers
  pub run_queue_0 : Option ℕ
  pub run_queue_1 : Option ℕ
  pub listener_repr : Repr
  pub conn_handler_repr : Repr
  pub event_repr : Repr

abbrev pub iovec_repr : Repr
iovec_repr = record { size_of = 16; align_of = 8 }

-- "0.0.0.0:3000"
abbrev pub listen_addr : List ℕ
listen_addr = 48 ∷ 46 ∷ 48 ∷ 46 ∷ 48 ∷ 46 ∷ 48 ∷ 58 ∷ 51 ∷ 48 ∷ 48 ∷ 48 ∷ []
