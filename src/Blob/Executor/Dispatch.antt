-- ===== src/Blob/Executor/Dispatch.antt =====
-- Delivering one event: the machine's handler, and `complete_intent` on what it submits.
use hoarder.Base.{
  ℕ, ◌+◌, ◌-◌, ◌%◌, ◌^◌, Option, none, some, List, [], ◌∷◌, ltb, leb, ◌==◌, if◌then◌else◌, Outcome,
  done, panic, out_of_bounds, unreachable_code, assert, unwrap, ◌>>=◌, ◌>>◌, Build,
}
use hoarder.Error.{Result}
use hoarder.Collections.RingBuffer.Defs.{pop, push_unwrap}
use hoarder.Collections.BufferPool
use hoarder.Collections.BufferPool.{BufferHandle, BufferPool, Slice, unwrap_result}
use hoarder.Collections.ObjectHandle
use hoarder.Collections.ObjectHandle.{ObjectHandle, from_u64, into_u64}
use hoarder.Collections.ObjectPool
use hoarder.Collections.ObjectPool.{ObjectPool}
use hoarder.Blob.Protocol.{
  Fixed, MachineEvent, spawned, MachineIntent, retry, terminate, close_fixed, spawn_conn_handler,
  submit_multishot_accept, submit_recv, ExecutorContext, MsgHeader,
}
use hoarder.Blob.ConnHandler
use hoarder.Blob.ConnHandler.{ConnHandler, buf_size, buf_align}
use hoarder.Blob.TcpServer
use hoarder.Blob.TcpServer.{TcpServer, Net}
use hoarder.Blob.Executor.Defs.{
  Sqe, accept_multi, read_fixed, close_entry, Io, RunQueueEvent, QueueIndex, queue_0, queue_1,
  other, Executor, tcp_server_id, conn_handler_id,
}

module _ (build : Build) (io : Io) (net : Net) (read_header : List ℕ → Option MsgHeader) where
  open io use {State, enqueue, memory}

  -- Carries on with the value of a call of the IO; an error is unwrapped, which panics.
  abbrev pub after_io {ℓ} :
      {A : Type ℓ}
      → State × Result A
      → Executor io
      → (A → Executor io → Outcome (Executor io))
      → Outcome (Executor io)
  after_io (s, r) e k = do a ← unwrap_result r; k a (record e { io_state = s })

  -- `self.run_queues[i].push(event).unwrap()`
  unfoldable pub push_event : Executor io → QueueIndex → RunQueueEvent → Outcome (Executor io)
  push_event e queue_0 event = do
    queue ← push_unwrap build e.run_queue_0 event
    done (record e { run_queue_0 = queue })
  push_event e queue_1 event = do
    queue ← push_unwrap build e.run_queue_1 event
    done (record e { run_queue_1 = queue })

  -- `self.run_queues[i].pop()`
  unfoldable pub pop_event : Executor io → QueueIndex → Outcome (Executor io × Option RunQueueEvent)
  pop_event e queue_0 = do
    (queue, event) ← pop build e.run_queue_0
    done (record e { run_queue_0 = queue }, event)
  pop_event e queue_1 = do
    (queue, event) ← pop build e.run_queue_1
    done (record e { run_queue_1 = queue }, event)

  -- `self.io.enqueue(&entry).unwrap()`
  unfoldable pub enqueue_entry : Executor io → Sqe → Outcome (Executor io)
  enqueue_entry e entry = after_io (enqueue e.io_state entry) e λ _ e'. done e'

  -- `slice[offset..].as_mut_ptr()`
  unfoldable pub suffix_ptr : Slice → ℕ → Outcome ℕ
  suffix_ptr s offset = if leb offset s.len then done (s.start + offset) else panic out_of_bounds

  -- The arm for `SubmitRecv`.
  unfoldable pub submit_read :
      Executor io → ObjectHandle → Fixed → BufferHandle → ℕ → Outcome (Executor io)
  unfolding suffix_ptr enqueue_entry
  submit_read e handle fixed buffer offset = do
    assert (ltb offset e.io_bufs.pool.buf_size)
    found ← BufferPool.get buf_size buf_align build (io.memory e.io_state) e.io_bufs buffer
    slice ← unwrap found
    buf ← suffix_ptr slice offset
    enqueue_entry e (
        read_fixed fixed buf ((e.io_bufs.pool.buf_size - offset) % 2 ^ 32)
          (buffer.id.index % 2 ^ 16) (into_u64 handle))

  -- The arm for `Terminate`.
  unfoldable pub despawn_machine : Executor io → ObjectHandle → Outcome (Executor io)
  despawn_machine e handle =
      if ObjectHandle.pool_id handle == tcp_server_id
      then (do
        (pool, gone) ← ObjectPool.despawn build e.tcp_listener_pool handle
        done (record e { tcp_listener_pool = pool }))
      else if ObjectHandle.pool_id handle == conn_handler_id
      then (do
        (pool, gone) ← ObjectPool.despawn build e.conn_handler_pool handle
        done (record e { conn_handler_pool = pool }))
      else panic unreachable_code

  -- The arm for `SpawnConnHandler`.
  unfoldable pub spawn_machine : Executor io → Fixed → Outcome (Executor io)
  unfolding push_event
  spawn_machine e fixed = do
    (pool, spawned_handle) ←
        ObjectPool.spawn conn_handler_id build e.conn_handler_pool (ConnHandler.new fixed.slot)
    h ← unwrap spawned_handle
    push_event (record e { conn_handler_pool = pool }) e.current_run_queue
        (record { reason = spawned; handle = h })

  -- The body of the loop of `complete_intent`.
  unfoldable pub complete_one : Executor io → ObjectHandle → MachineIntent → Outcome (Executor io)
  unfolding push_event enqueue_entry submit_read despawn_machine spawn_machine
  complete_one e handle retry =
      push_event e (other e.current_run_queue) (record { reason = spawned; handle = handle })
  complete_one e handle (submit_multishot_accept fd) =
      enqueue_entry e (accept_multi fd (into_u64 handle))
  complete_one e handle (spawn_conn_handler fixed) = spawn_machine e fixed
  complete_one e handle (submit_recv fixed buffer offset) = submit_read e handle fixed buffer offset
  complete_one e handle terminate = despawn_machine e handle
  complete_one e handle (close_fixed fixed) = enqueue_entry e (close_entry fixed (into_u64 handle))

  unfoldable pub complete_intent :
      Executor io → List MachineIntent → ObjectHandle → Outcome (Executor io)
  unfolding complete_one
  complete_intent e [] handle = done e
  complete_intent e (intent ∷ intents) handle = do
    e' ← complete_one e handle intent
    complete_intent e' intents handle

  abbrev pub context : Executor io → ExecutorContext
  context e = record { slots = 16; intents = []; buffers = e.io_bufs }

  -- The arm for `TCP_SERVER`, on what `get_mut` gave.
  unfoldable pub deliver_tcp :
      Executor io
      → ObjectHandle
      → MachineEvent
      → Option TcpServer
      → Outcome (Executor io × List MachineIntent)
  deliver_tcp e handle reason none = done (e, [])
  deliver_tcp e handle reason (some listener) = do
    (listener', ctx) ← TcpServer.process_event net listener (context e) reason
    pool ← ObjectPool.write_back e.tcp_listener_pool handle listener'
    done (record e { tcp_listener_pool = pool; io_bufs = ctx.buffers }, ctx.intents)

  -- The arm for `CONN_HANDLER`, on what `get_mut` gave.
  unfoldable pub deliver_conn :
      Executor io
      → ObjectHandle
      → MachineEvent
      → Option ConnHandler
      → Outcome (Executor io × List MachineIntent)
  deliver_conn e handle reason none = done (e, [])
  deliver_conn e handle reason (some conn_handler) = do
    (conn_handler', ctx) ←
        ConnHandler.process_event build read_header (memory e.io_state) conn_handler (context e)
          reason
    pool ← ObjectPool.write_back e.conn_handler_pool handle conn_handler'
    done (record e { conn_handler_pool = pool; io_bufs = ctx.buffers }, ctx.intents)

  -- The match on `handle.pool_id()`.
  unfoldable pub deliver :
      Executor io → ObjectHandle → MachineEvent → Outcome (Executor io × List MachineIntent)
  unfolding deliver_tcp deliver_conn
  deliver e handle reason =
      if ObjectHandle.pool_id handle == tcp_server_id
      then (do found ← ObjectPool.get e.tcp_listener_pool handle; deliver_tcp e handle reason found)
      else if ObjectHandle.pool_id handle == conn_handler_id
      then (do
        found ← ObjectPool.get e.conn_handler_pool handle
        deliver_conn e handle reason found)
      else panic unreachable_code

  -- The body of the loop over the current queue.
  unfoldable pub handle_one : Executor io → RunQueueEvent → Outcome (Executor io)
  unfolding deliver complete_intent
  handle_one e event = do
    (e', intents) ← deliver e event.handle event.reason
    complete_intent e' intents event.handle
