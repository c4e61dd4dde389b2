-- ===== src/Blob/Ownership/Intents.antt =====
-- hoarder-blob/src/executor/mod.rs, `complete_intent`, against the owners of the buffers.
use hoarder.Base.{ℕ, ◌≡◌, Option, none, List, [], ◌∷◌, debug, ◌==◌, false, ltb, leb, assert, unwrap}
use hoarder.Base.Post.{
  Safe, Safe-bind, Safe-after, Safe-if, IsDefined, assert-IsDefined, unwrap-IsDefined,
}
use hoarder.Error.{Result, ok, err}
use hoarder.Collections.RingBuffer.Defs.{push_unwrap}
use hoarder.Collections.RingBuffer.Posts.{IsQueue, push_unwrap-IsQueue}
use hoarder.Collections.GenAlloc.Invariant.{Book}
use hoarder.Collections.BufferPool
use hoarder.Collections.BufferPool.{BufferHandle, Slice, unwrap_result}
use hoarder.Collections.ObjectHandle
use hoarder.Collections.ObjectHandle.{ObjectHandle}
use hoarder.Collections.ObjectPool
use hoarder.Collections.ObjectPool.Laws as Objects
use hoarder.Collections.ObjectPool.Laws.{IsHeld, slot_at}
use hoarder.Collections.ObjectPool.Posts.{Spawned, spawn-Spawned, Despawned, despawn-Despawned}
use hoarder.Blob.Protocol.{
  Fixed, spawned, MachineIntent, retry, terminate, close_fixed, spawn_conn_handler,
  submit_multishot_accept, submit_recv, MsgHeader,
}
use hoarder.Blob.ConnHandler as Conn
use hoarder.Blob.ConnHandler.{ConnHandler, buf_size, buf_align}
use hoarder.Blob.TcpServer.{TcpServer, Net}
use hoarder.Blob.Executor.Defs.{
  IsReady, Sqe, Io, Executor, RunQueueEvent, QueueIndex, queue_0, queue_1, tcp_server_id,
  conn_handler_id, other,
}
use hoarder.Blob.Executor.Dispatch.{
  push_event, enqueue_entry, suffix_ptr, submit_read, despawn_machine, spawn_machine, complete_one,
  complete_intent,
}
use hoarder.Blob.Ownership.Release.{IsGentle, get-IsDefined}
use hoarder.Blob.Ownership.Slots.{IsOwned, owners, Spawned-IsOwned, Despawned-IsOwned}

-- A well-formed pool of listeners.
pub record Listens (p : ObjectPool.ObjectPool TcpServer) : Type 0 where
  pub vacant : List ℕ
  pub books : Book
  pub holds : Objects.Holds p vacant books

pub unwrap_result-IsDefined : {A : Type 0} (r : Result A) → IsDefined (unwrap_result r)
unfolding unwrap_result
unwrap_result-IsDefined (ok a) = tt
unwrap_result-IsDefined (err e) = tt

module _ (n : ℕ) (io : Io) (net : Net) (read_header : List ℕ → Option MsgHeader) where
  -- The pools and the queues of an executor.
  abbrev pub Accounted : Executor io → Type 0
  Accounted e =
      IsOwned e.conn_handler_pool e.io_bufs
      × Listens e.tcp_listener_pool
      × IsQueue n e.run_queue_0
      × IsQueue n e.run_queue_1

  pub push-Accounted :
      (e : Executor io) (i : QueueIndex) (x : RunQueueEvent)
      → Accounted e
      → Safe Accounted (push_event debug io net read_header e i x)
  unfolding push_event
  push-Accounted e queue_0 x (o, l, w, w') =
      Safe-bind Accounted (IsQueue n) (push_unwrap debug e.run_queue_0 x) _
        (push_unwrap-IsQueue n debug e.run_queue_0 x w) λ queue w₁. (o, l, w₁, w')
  push-Accounted e queue_1 x (o, l, w, w') =
      Safe-bind Accounted (IsQueue n) (push_unwrap debug e.run_queue_1 x) _
        (push_unwrap-IsQueue n debug e.run_queue_1 x w') λ queue w₁. (o, l, w, w₁)

  enqueue-Accounted :
      (e : Executor io) (entry : Sqe)
      → Accounted e
      → Safe Accounted (enqueue_entry debug io net read_header e entry)
  unfolding enqueue_entry
  enqueue-Accounted e entry a =
      Safe-after Accounted (unwrap_result (io.enqueue e.io_state entry).1) _
        (unwrap_result-IsDefined (io.enqueue e.io_state entry).1) λ _. a

  suffix-IsDefined :
      (s : Slice) (offset : ℕ) → IsDefined (suffix_ptr debug io net read_header s offset)
  unfolding suffix_ptr
  suffix-IsDefined s offset = Safe-if (λ _. Unit) (leb offset s.len) _ _ tt tt

  submit_read-Accounted :
      (ready : IsReady io) (e : Executor io) (h : ObjectHandle) (fixed : Fixed)
      (buffer : BufferHandle) (offset : ℕ)
      → Accounted e
      → Safe Accounted (submit_read debug io net read_header e h fixed buffer offset)
  unfolding submit_read
  submit_read-Accounted ready e h fixed buffer offset a =
      Safe-after Accounted (assert (ltb offset e.io_bufs.pool.buf_size)) _
        (assert-IsDefined (ltb offset e.io_bufs.pool.buf_size))
        λ _.
          Safe-after Accounted
            (BufferPool.get buf_size buf_align debug (io.memory e.io_state) e.io_bufs buffer) _
            (get-IsDefined a.0.free_bufs a.0.bufs_hold (io.memory e.io_state) (ready e.io_state)
              buffer)
            λ found. Safe-after Accounted (unwrap found) _ (unwrap-IsDefined found) λ slice.
              Safe-after Accounted (suffix_ptr debug io net read_header slice offset) _
                (suffix-IsDefined slice offset) λ buf. enqueue-Accounted e _ a

  spawn_machine-Accounted :
      (e : Executor io) (fixed : Fixed)
      → Accounted e
      → Safe Accounted (spawn_machine debug io net read_header e fixed)
  unfolding spawn_machine
  spawn_machine-Accounted e fixed (o, l, w, w') =
      Safe-bind Accounted (λ r. Spawned e.conn_handler_pool (Conn.new fixed.slot) r.0)
        (ObjectPool.spawn conn_handler_id debug e.conn_handler_pool (Conn.new fixed.slot)) _
        (spawn-Spawned conn_handler_id debug e.conn_handler_pool o.free_conns (Conn.new fixed.slot)
          o.conns_hold)
        λ r s. Safe-after Accounted (unwrap r.1) _ (unwrap-IsDefined r.1) λ h.
          push-Accounted (record e { conn_handler_pool = r.0 }) e.current_run_queue
            (record { reason = spawned; handle = h }) (Spawned-IsOwned o fixed.slot s, l, w, w')

  -- A handler without a buffer may end.
  pub record MayEnd (e : Executor io) (h : ObjectHandle) : Type 0 where
    pub own : (ObjectHandle.pool_id h == tcp_server_id) ≡ false
    pub accounted : IsOwned e.conn_handler_pool e.io_bufs
    pub out : IsHeld accounted.conn_book h
    pub idle : owners e.conn_handler_pool (ObjectHandle.index h) ≡ none

  pub despawn_machine-Accounted :
      (e : Executor io) (h : ObjectHandle)
      → Accounted e
      → MayEnd e h
      → Safe Accounted (despawn_machine debug io net read_header e h)
  unfolding despawn_machine
  despawn_machine-Accounted e h (_, l, w, w') m =
      let o = m.accounted in
      rw m.own (
        Safe-if Accounted (ObjectHandle.pool_id h == conn_handler_id) _ _
          (Safe-bind Accounted (λ r. Despawned e.conn_handler_pool h r.0)
            (ObjectPool.despawn debug e.conn_handler_pool h) _
            (despawn-Despawned debug e.conn_handler_pool o.free_conns h o.conns_hold m.out)
            λ r s. (Despawned-IsOwned o h m.idle s, l, w, w'))
          tt)

  complete_one-Accounted :
      (ready : IsReady io) (e : Executor io) (h : ObjectHandle) (x : MachineIntent)
      → Accounted e
      → IsGentle (x ∷ [])
      → Safe Accounted (complete_one debug io net read_header e h x)
  unfolding complete_one
  complete_one-Accounted ready e h retry a g =
      push-Accounted e (other e.current_run_queue) (record { reason = spawned; handle = h }) a
  complete_one-Accounted ready e h (submit_multishot_accept fd) a g = enqueue-Accounted e _ a
  complete_one-Accounted ready e h (spawn_conn_handler fixed) a g =
      spawn_machine-Accounted e fixed a
  complete_one-Accounted ready e h (submit_recv fixed buffer offset) a g =
      submit_read-Accounted ready e h fixed buffer offset a
  complete_one-Accounted ready e h terminate a g = absurd g
  complete_one-Accounted ready e h (close_fixed fixed) a g = enqueue-Accounted e _ a

  -- The first of gentle intents, and the rest.
  first-IsGentle :
      (x : MachineIntent) (xs : List MachineIntent)
      → IsGentle (x ∷ xs)
      → IsGentle (x ∷ []) × IsGentle xs
  first-IsGentle retry xs g = (tt, g)
  first-IsGentle (submit_multishot_accept fd) xs g = (tt, g)
  first-IsGentle (spawn_conn_handler fixed) xs g = (tt, g)
  first-IsGentle (submit_recv fixed buffer offset) xs g = (tt, g)
  first-IsGentle terminate xs g = absurd g
  first-IsGentle (close_fixed fixed) xs g = (tt, g)

  pub complete-Accounted :
      (ready : IsReady io) (e : Executor io) (xs : List MachineIntent) (h : ObjectHandle)
      → Accounted e
      → IsGentle xs
      → Safe Accounted (complete_intent debug io net read_header e xs h)
  unfolding complete_intent
  complete-Accounted ready e [] h a gs = a
  complete-Accounted ready e (x ∷ xs) h a gs =
      let (g, rest) = first-IsGentle x xs gs in
      Safe-bind Accounted Accounted (complete_one debug io net read_header e h x) _
        (complete_one-Accounted ready e h x a g) λ e' a'. complete-Accounted ready e' xs h a' rest
