-- ===== src/Blob/ConnHandler/Effects.antt =====
-- What each event does to a handler that holds its buffer: the new state, the offset, the intents
-- and the buffer pool.
use hoarder.Base.{
  true, ℕ, suc, pos, ◌+◌, ◌%◌, ◌^◌, ◌≤◌, ◌<◌, ◌≡◌, Option, none, some, List, [], ◌∷◌, ◌++◌, arith,
  done, Build, le→leb, lt→leb_false, add_u32, add_u32_lem, length,
}
use hoarder.Collections.GenAlloc.Invariant.{Book, enter}
use hoarder.Collections.GenAlloc.Laws.{after_free}
use hoarder.Collections.BufferPool.Laws.{Holds, handle, slice_at, get_held, freed}
use hoarder.Collections.BufferPool.{Memory}
use hoarder.Blob.Protocol.{
  io_completed, MachineIntent, ExecutorContext, submit_intent_lem, MsgHeader, Fixed, header_size,
  close_fixed, submit_recv,
}
use hoarder.Blob.ConnHandler.{
  ConnHandler, ConnHandlerState, closing, receiving, RecvPhase, receiving_header, receiving_body,
  close, release_buffer, recv, received, parse_header, on_recv, handle_event, process_event,
  buf_size, buf_align, bytes_at, prefix,
}

-- A handler that holds the buffer of an id, in a state of its own.
abbrev pub conn : ConnHandlerState → Fixed → ℕ → ℕ → ℕ → ConnHandler
conn state socket i gen offset = record {
  state = state;
  socket = socket;
  handle = some (handle i gen);
  offset = offset;
}

-- The context with more intents.
abbrev pub submitted : ExecutorContext → List MachineIntent → ExecutorContext
submitted ctx more = record ctx { intents = ctx.intents ++ more }

-- The context in which `close` has given the buffer back and asked for the socket to be closed.
abbrev pub after_close : ExecutorContext → Fixed → ℕ → ℕ → ExecutorContext
after_close ctx socket i next = record ctx {
  intents = ctx.intents ++ (close_fixed socket ∷ []);
  buffers = record ctx.buffers { allocator = after_free ctx.buffers.allocator i next };
}

-- The intent to receive at an offset, which goes out in 16 bits.
abbrev pub recv_intent : Fixed → ℕ → ℕ → ℕ → MachineIntent
recv_intent socket i gen offset = submit_recv socket (handle i gen) (offset % 2 ^ 16)

module _ (state : ConnHandlerState) (socket : Fixed) (i gen offset : ℕ)
    (ctx : ExecutorContext) where
  pub recv_lem :
      length ctx.intents < ctx.slots
      → recv (conn state socket i gen offset) ctx
        ≡ done (submitted ctx (recv_intent socket i gen offset ∷ []))
  unfolding recv
  recv_lem room = submit_intent_lem ctx (recv_intent socket i gen offset) room

  pub close_lem :
      (build : Build) (q : List ℕ) {held : Book} {next : ℕ}
      → Holds buf_size ctx.buffers q held
      → held i ≡ some gen
      → add_u32 build gen 1 ≡ done next
      → length ctx.intents < ctx.slots
      → close build (conn state socket i gen offset) ctx
        ≡ done (conn state socket i gen 0, after_close ctx socket i next)
  unfolding close release_buffer
  close_lem build q {held} {next} hs out up room =
      let (e, _, _) = freed buf_size buf_align build q i gen hs out up in
      rw (
        e,
        submit_intent_lem
            (record ctx {
              buffers = record ctx.buffers { allocator = after_free ctx.buffers.allocator i next };
            })
            (close_fixed socket) room,
      )

module _ (build : Build) (read_header : List ℕ → Option MsgHeader) (mem : Memory)
    (phase : RecvPhase) (socket : Fixed) (i gen offset : ℕ) (ctx : ExecutorContext)
    (flags : ℕ) where
  -- At the end of the stream a receiving handler gives its buffer back to the pool, resets the
  -- offset and asks to close the socket, and the pool stays well formed. The buffer pool is well
  -- formed, the buffer is out and its generation can still rise, and there is room for an intent.
  pub on_end_of_stream :
      (q : List ℕ) {held : Book} {next : ℕ}
      → Holds buf_size ctx.buffers q held
      → held i ≡ some gen
      → add_u32 build gen 1 ≡ done next
      → length ctx.intents < ctx.slots
      → (process_event build read_header mem
            (conn (receiving phase) socket i gen offset)
            ctx
            (io_completed (pos 0) flags)
          ≡ done (conn closing socket i gen 0, after_close ctx socket i next))
        × Holds buf_size (after_close ctx socket i next).buffers (q ++ (i ∷ [])) (enter held i none)
  unfolding process_event handle_event on_recv
  on_end_of_stream q hs out up room =
      let (_, hs', _) = freed buf_size buf_align build q i gen hs out up in
      (rw (close_lem (receiving phase) socket i gen offset ctx build q hs out up room), hs')

  -- Fewer than five bytes so far: the offset goes on, and the one intent receives behind them.
  pub on_header_part :
      (n : ℕ)
      → offset + suc n < header_size
      → length ctx.intents < ctx.slots
      → process_event build read_header mem
          (conn (receiving phase) socket i gen offset)
          ctx
          (io_completed (pos (suc n)) flags)
        ≡ done (
          conn (receiving receiving_header) socket i gen (offset + suc n),
          submitted ctx (recv_intent socket i gen (offset + suc n) ∷ []),
        )
  unfolding process_event handle_event on_recv received
  on_header_part n part room = rw (
    add_u32_lem build offset (suc n) (omega arith),
    lt→leb_false header_size (offset + suc n) part,
    submit_intent_lem ctx (recv_intent socket i gen (offset + suc n)) room,
  )

  -- Once five bytes are there, a receiving handler reads the header from the start of its buffer
  -- and asks to receive behind what is there. The buffer pool is well formed, the buffer is out,
  -- the new offset fits 32 bits, the buffer's memory is ready, the first five bytes read as a header, and there is room for an
  -- intent.
  pub on_header_read :
      (n : ℕ) (header : MsgHeader) (q : List ℕ) {held : Book}
      → Holds buf_size ctx.buffers q held
      → held i ≡ some gen
      → header_size ≤ offset + suc n
      → offset + suc n < 2 ^ 32
      → mem.ready (slice_at ctx.buffers i) ≡ true
      → read_header (bytes_at mem.byte (slice_at ctx.buffers i).start header_size) ≡ some header
      → length ctx.intents < ctx.slots
      → process_event build read_header mem
          (conn (receiving phase) socket i gen offset)
          ctx
          (io_completed (pos (suc n)) flags)
        ≡ done (
          conn (receiving (receiving_body header)) socket i gen (offset + suc n),
          submitted ctx (recv_intent socket i gen (offset + suc n) ∷ []),
        )
  unfolding process_event handle_event on_recv received parse_header prefix
  on_header_read n header q hs out enough small ready parsed room = rw (
    add_u32_lem build offset (suc n) small,
    le→leb header_size (offset + suc n) enough,
    (get_held buf_size buf_align build q mem i gen ready hs out).0,
    le→leb header_size ctx.buffers.pool.buf_size (omega (arith, hs.sized)),
    parsed,
    submit_intent_lem ctx (recv_intent socket i gen (offset + suc n)) room,
  )
