-- ===== src/Blob/Executor/Crashes.antt =====
-- Events from the network that stop the executor, and completions that come too late.
use hoarder.Base.{
  ℕ, suc, pos, negsuc, ◌+◌, ◌-◌, ◌%◌, ◌^◌, ◌<◌, ◌≡◌, refl, ◌∙◌, arith, true, false, Option, none,
  some, List, [], ◌∷◌, done, panic, set, unwrap_failed, assert_failed, ◌>>=◌, Build, add_u32,
  lt→ltb, le→ltb_false,
}
use hoarder.Error.{Result, ok, err, errno, is_one_of}
use hoarder.Collections.ObjectHandle
use hoarder.Collections.ObjectHandle.{ObjectHandle}
use hoarder.Collections.ObjectPool
use hoarder.Collections.ObjectPool.{ObjectPool}
use hoarder.Collections.ObjectPool.Laws as Objects
use hoarder.Collections.ObjectPool.Laws.{IsHeld, slot_at}
use hoarder.Collections.GenAlloc.Invariant.{Book, held_room}
use hoarder.Collections.Array.Laws.{set_index_lem}
use hoarder.Collections.BufferPool
use hoarder.Collections.BufferPool.{Memory, BufferHandle}
use hoarder.Collections.BufferPool.Laws as Buffers
use hoarder.Collections.BufferPool.Laws.{handle}
use hoarder.Blob.Protocol.{
  Fixed, MachineEvent, io_completed, MachineIntent, close_fixed, submit_recv, MsgHeader,
  ExecutorContext, header_size,
}
use hoarder.Blob.ConnHandler
use hoarder.Blob.ConnHandler.{
  ConnHandler, RecvPhase, receiving, receiving_body, closing, buf_size, buf_align, bytes_at,
  transient_errors, logical_errors, connection_errors,
}
use hoarder.Blob.ConnHandler.Effects.{conn, after_close, on_header_read}
use hoarder.Blob.ConnHandler.Errors.{on_connection_error}
use hoarder.Blob.TcpServer.{Net}
use hoarder.Blob.Executor.Defs.{Io, Executor, conn_handler_id, close_entry}
use hoarder.Blob.Executor.Dispatch.{
  context, deliver, deliver_conn, handle_one, complete_intent, complete_one, submit_read,
  enqueue_entry, after_io,
}

module _ (build : Build) (io : Io) (net : Net) (read_header : List ℕ → Option MsgHeader)
    (e : Executor io) (h : ObjectHandle) where
  -- A completion for a connection handler that is gone changes nothing.
  pub late_completion :
      (reason : MachineEvent)
      → ObjectHandle.pool_id h ≡ conn_handler_id
      → ObjectPool.get e.conn_handler_pool h ≡ done none
      → handle_one build io net read_header e (record { reason = reason; handle = h }) ≡ done e
  unfolding handle_one deliver deliver_conn complete_intent
  late_completion reason own gone = rw (own, gone)

  -- What the executor does with a handler that is out: the handler's intents, carried out on the
  -- handler written back.
  pub handled :
      (q : List ℕ) {held : Book} (c c' : ConnHandler) (ctx : ExecutorContext)
      (reason : MachineEvent)
      → ObjectHandle.pool_id h ≡ conn_handler_id
      → Objects.Holds e.conn_handler_pool q held
      → IsHeld held h
      → slot_at e.conn_handler_pool (ObjectHandle.index h) ≡ some c
      → ConnHandler.process_event build read_header
          (io.memory e.io_state)
          c
          (context build io net read_header e)
          reason
        ≡ done (c', ctx)
      → (pool : ObjectPool ConnHandler) × (handle_one build io net read_header e
            (record { reason = reason; handle = h })
          ≡ complete_intent build io net read_header
              (record e { conn_handler_pool = pool; io_bufs = ctx.buffers })
              ctx.intents
              h)
  unfolding handle_one deliver deliver_conn ObjectPool.write_back
  handled q c c' ctx reason own hs out slot step =
      let p = e.conn_handler_pool in
      (
        record p {
          slots = record p.slots { cells = set p.slots.cells (ObjectHandle.index h) (some c') };
        },
        rw (
          own,
          Objects.get_held q h hs out,
          slot,
          step,
          set_index_lem e.conn_handler_pool.slots (ObjectHandle.index h) (some c') hs.sound
              (omega (arith, hs.room, (held_room q hs.books out).0)),
        ),
      )

  -- A receive with a handle that the buffer pool refuses stops the executor.
  stale_recv :
      (x : Executor io) (fixed : Fixed) (buffer : BufferHandle) (offset : ℕ)
      (rest : List MachineIntent)
      → offset < x.io_bufs.pool.buf_size
      → ((m : Memory) → BufferPool.get buf_size buf_align build m x.io_bufs buffer ≡ done none)
      → complete_intent build io net read_header x (submit_recv fixed buffer offset ∷ rest) h
        ≡ panic unwrap_failed
  unfolding complete_intent complete_one submit_read
  stale_recv x fixed buffer offset rest small gone =
      rw (lt→ltb offset x.io_bufs.pool.buf_size small, gone (io.memory x.io_state))

  -- After the request to close, which the IO may refuse, a receive with a refused handle stops the
  -- executor either way.
  close_then_stale :
      (x : Executor io) (fixed : Fixed) (buffer : BufferHandle)
      → 0 < x.io_bufs.pool.buf_size
      → ((m : Memory) → BufferPool.get buf_size buf_align build m x.io_bufs buffer ≡ done none)
      → complete_intent build io net read_header x
          (close_fixed fixed ∷ submit_recv fixed buffer 0 ∷ [])
          h
        ≡ panic unwrap_failed
  unfolding complete_intent complete_one enqueue_entry BufferPool.unwrap_result
  close_then_stale x fixed buffer room gone =
      refused_or_stale (io.enqueue x.io_state (close_entry fixed (ObjectHandle.into_u64 h)))
    where
      refused_or_stale :
          (r : io.State × Result (Unit {0}))
          → (after_io build io net read_header r x (λ _ x'. done x') >>= λ x'.
              complete_intent build io net read_header x' (submit_recv fixed buffer 0 ∷ []) h)
            ≡ panic unwrap_failed
      refused_or_stale (s, ok u) =
          stale_recv (record x { io_state = s }) fixed buffer 0 [] room gone
      refused_or_stale (s, err er) = refl

  -- A connection that fails while its handler receives stops the whole server, whatever the IO
  -- answers: the handler gives its buffer back, asks to close the socket and then to receive into
  -- that buffer, and the executor unwraps what the pool refuses. The handle is of the connection
  -- pool and out, both pools are well formed, the buffer is the handler's and its generation can
  -- still rise, and the errno is one of the connection errors and of no list before them.
  pub connection_error_stops :
      (q free_buffers : List ℕ) {held lent : Book} {next : ℕ} (phase : RecvPhase) (socket : Fixed)
      (i gen offset n flags : ℕ)
      → ObjectHandle.pool_id h ≡ conn_handler_id
      → Objects.Holds e.conn_handler_pool q held
      → IsHeld held h
      → slot_at e.conn_handler_pool (ObjectHandle.index h)
        ≡ some (conn (receiving phase) socket i gen offset)
      → Buffers.Holds buf_size e.io_bufs free_buffers lent
      → lent i ≡ some gen
      → add_u32 build gen 1 ≡ done next
      → is_one_of (errno (pos (suc n))) transient_errors ≡ false
      → is_one_of (errno (pos (suc n))) logical_errors ≡ false
      → is_one_of (errno (pos (suc n))) connection_errors ≡ true
      → n < 2 ^ 31 - 1
      → handle_one build io net read_header e
          (record { reason = io_completed (negsuc n) flags; handle = h })
        ≡ panic unwrap_failed
  connection_error_stops q free_buffers {next = next} phase socket i gen offset n flags own hs out
        slot bufs lend up t l c small =
      let ctx = context build io net read_header e in
      let (step, gone) =
        on_connection_error build read_header (io.memory e.io_state) phase socket i gen offset ctx
          flags n free_buffers t l c small bufs lend up (omega arith) in
      let (pool, e') = handled q _ _ _ (io_completed (negsuc n) flags) own hs out slot step in
      e'
      ∙ close_then_stale
          (record e { conn_handler_pool = pool; io_bufs = (after_close ctx socket i next).buffers })
          socket (handle i gen) (omega (arith, bufs.sized)) gone

  -- A client that fills its buffer, whose first five bytes read as a header, stops the whole
  -- server: the handler asks to receive at the end of the buffer, which the executor asserts never
  -- happens. The handle is of the connection pool and out, both pools are well formed, the buffer
  -- is the handler's, and its memory is ready for a slice.
  pub full_buffer_stops :
      (q free_buffers : List ℕ) {held lent : Book} (phase : RecvPhase) (socket : Fixed)
      (i gen offset n flags : ℕ) (header : MsgHeader)
      → ObjectHandle.pool_id h ≡ conn_handler_id
      → Objects.Holds e.conn_handler_pool q held
      → IsHeld held h
      → slot_at e.conn_handler_pool (ObjectHandle.index h)
        ≡ some (conn (receiving phase) socket i gen offset)
      → Buffers.Holds buf_size e.io_bufs free_buffers lent
      → lent i ≡ some gen
      → offset + suc n ≡ buf_size
      → (io.memory e.io_state).ready (Buffers.slice_at e.io_bufs i) ≡ true
      → read_header
          (bytes_at (io.memory e.io_state).byte (Buffers.slice_at e.io_bufs i).start header_size)
        ≡ some header
      → handle_one build io net read_header e
          (record { reason = io_completed (pos (suc n)) flags; handle = h })
        ≡ panic assert_failed
  unfolding complete_intent complete_one submit_read
  full_buffer_stops q free_buffers phase socket i gen offset n flags header own hs out slot bufs
        lend full ready parsed =
      let ctx = context build io net read_header e in
      let step =
        on_header_read build read_header (io.memory e.io_state) phase socket i gen offset ctx flags
          n header free_buffers bufs lend (omega arith) (omega arith) ready parsed (omega arith) in
      let (pool, e') = handled q _ _ _ (io_completed (pos (suc n)) flags) own hs out slot step in
      e'
      ∙ rw (
          le→ltb_false ((offset + suc n) % 2 ^ 16) e.io_bufs.pool.buf_size
            (omega (arith, bufs.sized)))
