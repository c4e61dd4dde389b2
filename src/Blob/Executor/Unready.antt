-- ===== src/Blob/Executor/Unready.antt =====
-- The first event of a connection whose buffer no slice can be made of, as where nobody has
-- initialised what the allocator gave.
use hoarder.Base.{ℕ, ◌≡◌, ◌∙◌, arith, some, List, [], ◌∷◌, Option, false, undefined, Build, lt→ltb}
use hoarder.Collections.ObjectHandle
use hoarder.Collections.ObjectHandle.{ObjectHandle}
use hoarder.Collections.ObjectPool.Laws as Objects
use hoarder.Collections.ObjectPool.Laws.{IsHeld, slot_at}
use hoarder.Collections.GenAlloc.Invariant.{Book, generation_at}
use hoarder.Collections.GenAlloc.Laws.{after_alloc}
use hoarder.Collections.BufferPool.Laws as Buffers
use hoarder.Collections.BufferPool.Laws.{handle}
use hoarder.Blob.Protocol.{spawned, Fixed, submit_recv, MsgHeader}
use hoarder.Blob.ConnHandler.{new, buf_size, buf_align}
use hoarder.Blob.ConnHandler.Life.{serve-opening}
use hoarder.Blob.TcpServer.{Net}
use hoarder.Blob.Executor.Defs.{Io, Executor, conn_handler_id}
use hoarder.Blob.Executor.Dispatch.{handle_one, complete_intent, complete_one, submit_read}
use hoarder.Blob.Executor.Crashes.{handled}

module _ (build : Build) (io : Io) (net : Net) (read_header : List ℕ → Option MsgHeader)
    (e : Executor io) (h : ObjectHandle) where
  receive_undefined :
      (x : Executor io) (fixed : Fixed) (q : List ℕ) {held : Book} (i gen : ℕ)
      → Buffers.Holds buf_size x.io_bufs q held
      → held i ≡ some gen
      → (io.memory x.io_state).ready (Buffers.slice_at x.io_bufs i) ≡ false
      → complete_intent build io net read_header x (submit_recv fixed (handle i gen) 0 ∷ []) h
        ≡ undefined
  unfolding complete_intent complete_one submit_read
  receive_undefined x fixed q i gen hs out r =
      let gone =
        Buffers.get_unready buf_size buf_align build q (io.memory x.io_state) i gen r hs out in
      rw (lt→ltb 0 x.io_bufs.pool.buf_size (omega (arith, hs.sized)), gone)

  -- The event that spawns a connection's handler is undefined behaviour where the memory of the
  -- buffer that the handler takes is not ready for a slice, as where nobody has initialised what
  -- the allocator gave: the handler asks to receive, and the executor makes a slice of the buffer
  -- to have its address. The handle is of the connection pool and out and gives a new handler, both
  -- pools are well formed, and the buffer is the next free one.
  pub first_receive_undefined :
      (q free_buffers : List ℕ) {held lent : Book} (fd i : ℕ)
      → ObjectHandle.pool_id h ≡ conn_handler_id
      → Objects.Holds e.conn_handler_pool q held
      → IsHeld held h
      → slot_at e.conn_handler_pool (ObjectHandle.index h) ≡ some (new fd)
      → Buffers.Holds buf_size e.io_bufs (i ∷ free_buffers) lent
      → (io.memory e.io_state).ready (Buffers.slice_at e.io_bufs i) ≡ false
      → handle_one build io net read_header e (record { reason = spawned; handle = h }) ≡ undefined
  first_receive_undefined q free_buffers fd i own hs out slot bufs r =
      let step =
        serve-opening build read_header (io.memory e.io_state) fd i free_buffers e.io_bufs bufs in
      let (pool, e') = handled build io net read_header e h q _ _ _ spawned own hs out slot step in
      let (_, _, bufs', _) = Buffers.allocated buf_size buf_align build i free_buffers bufs in
      e'
      ∙ receive_undefined
          (record e {
            conn_handler_pool = pool;
            io_bufs = record e.io_bufs { allocator = after_alloc e.io_bufs.allocator };
          })
          (record { slot = fd }) free_buffers i (generation_at e.io_bufs.allocator i) bufs'
          (ground arith) r
