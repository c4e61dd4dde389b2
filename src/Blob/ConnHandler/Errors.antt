-- ===== src/Blob/ConnHandler/Errors.antt =====
-- What errors do to a handler that holds its buffer, and what happens while it closes.
use hoarder.Base.{
  ◌-◌, ℕ, suc, ℤ, pos, negsuc, ◌+◌, ◌^◌, ◌<◌, ◌≡◌, Option, none, some, List, [], ◌∷◌, arith, true,
  false, done, panic, Build, debug, release, is_zero, add_u32, length, length-append, append_assoc,
  explicit_panic,
}
use hoarder.Error.{errno, from_raw_syscall_error, is_one_of}
use hoarder.Collections.GenAlloc.Invariant.{Book}
use hoarder.Collections.GenAlloc.Laws.{free_refused}
use hoarder.Collections.GenAlloc.Defs.{is_valid}
use hoarder.Collections.BufferPool
use hoarder.Collections.BufferPool.{Memory, BufferHandle, BufferPool, Slice}
use hoarder.Collections.BufferPool.Laws.{Holds, handle, freed}
use hoarder.Blob.Protocol.{
  io_completed, ExecutorContext, submit_intent_lem, MsgHeader, Fixed, terminate, close_fixed,
}
use hoarder.Blob.ConnHandler.{
  closing, closed, receiving, RecvPhase, close, release_buffer, on_closing, dispatch_error,
  handle_io_error, on_recv, handle_event, process_event, transient_errors, logical_errors,
  connection_errors, buf_size, buf_align,
}
use hoarder.Blob.ConnHandler.Effects.{conn, submitted, after_close, recv_intent, close_lem}

-- A negative result other than the smallest one is the errno of its absolute value.
from_raw_lem :
    (build : Build) (n : ℕ)
    → n < 2 ^ 31 - 1
    → from_raw_syscall_error build (negsuc n) ≡ done (errno (pos (suc n)))
unfolding from_raw_syscall_error
from_raw_lem debug n h = ground arith
from_raw_lem release n h = ground arith

module _ (build : Build) (read_header : List ℕ → Option MsgHeader) (mem : Memory)
    (phase : RecvPhase) (socket : Fixed) (i gen offset : ℕ) (ctx : ExecutorContext)
    (flags n : ℕ) where
  -- An errno of the transient list leaves a receiving handler as it was but submits the same
  -- receive twice: once in `handle_io_error` and once at the end of `on_recv`. There is room for
  -- two intents.
  pub on_transient_error :
      is_one_of (errno (pos (suc n))) transient_errors ≡ true
      → n < 2 ^ 31 - 1
      → length ctx.intents + 1 < ctx.slots
      → process_event build read_header mem
          (conn (receiving phase) socket i gen offset)
          ctx
          (io_completed (negsuc n) flags)
        ≡ done (
          conn (receiving phase) socket i gen offset,
          submitted ctx (recv_intent socket i gen offset ∷ recv_intent socket i gen offset ∷ []),
        )
  unfolding process_event handle_event on_recv handle_io_error dispatch_error
  on_transient_error matches small room =
      let once = recv_intent socket i gen offset in
      rw (
        from_raw_lem build n small,
        matches,
        submit_intent_lem ctx once (omega arith),
        submit_intent_lem (submitted ctx (once ∷ [])) once
            (omega (arith, length-append ctx.intents (once ∷ []))),
        append_assoc ctx.intents (once ∷ []) (once ∷ []),
      )

  -- An errno of the connection list, and of no list before it, closes a receiving handler, which
  -- then asks to receive into the buffer that `close` has just given back: the pool refuses the
  -- handle of that intent. The buffer pool is well formed, the buffer is out and its generation can
  -- still rise, and there is room for two intents.
  pub on_connection_error :
      (q : List ℕ) {held : Book} {next : ℕ}
      → is_one_of (errno (pos (suc n))) transient_errors ≡ false
      → is_one_of (errno (pos (suc n))) logical_errors ≡ false
      → is_one_of (errno (pos (suc n))) connection_errors ≡ true
      → n < 2 ^ 31 - 1
      → Holds buf_size ctx.buffers q held
      → held i ≡ some gen
      → add_u32 build gen 1 ≡ done next
      → length ctx.intents + 1 < ctx.slots
      → (process_event build read_header mem
            (conn (receiving phase) socket i gen offset)
            ctx
            (io_completed (negsuc n) flags)
          ≡ done (
            conn closing socket i gen 0,
            submitted (after_close ctx socket i next) (recv_intent socket i gen 0 ∷ []),
          ))
        × ((m : Memory)
            → BufferPool.get buf_size buf_align build m
                (after_close ctx socket i next).buffers
                (handle i gen)
              ≡ done none)
  unfolding process_event handle_event on_recv handle_io_error dispatch_error
  on_connection_error q {held} {next} not_transient not_logical matches small hs out up room =
      let closes = close_fixed socket in
      let stale = recv_intent socket i gen 0 in
      let (_, _, refused) = freed buf_size buf_align build q i gen hs out up in
      (
        rw (
          from_raw_lem build n small,
          not_transient,
          not_logical,
          matches,
          close_lem (receiving phase) socket i gen offset ctx build q hs out up (omega arith),
          submit_intent_lem (after_close ctx socket i next) stale
              (omega (arith, length-append ctx.intents (closes ∷ []))),
        ),
        refused,
      )

  -- Any other error leaves the handler as it was, and the one intent receives again.
  pub on_other_error :
      is_one_of (errno (pos (suc n))) transient_errors ≡ false
      → is_one_of (errno (pos (suc n))) logical_errors ≡ false
      → is_one_of (errno (pos (suc n))) connection_errors ≡ false
      → n < 2 ^ 31 - 1
      → length ctx.intents < ctx.slots
      → process_event build read_header mem
          (conn (receiving phase) socket i gen offset)
          ctx
          (io_completed (negsuc n) flags)
        ≡ done (
          conn (receiving phase) socket i gen offset,
          submitted ctx (recv_intent socket i gen offset ∷ []),
        )
  unfolding process_event handle_event on_recv handle_io_error dispatch_error
  on_other_error not_transient not_logical not_connection small room = rw (
    from_raw_lem build n small,
    not_transient,
    not_logical,
    not_connection,
    submit_intent_lem ctx (recv_intent socket i gen offset) room,
  )

  -- An error that only a mistake of the program can cause stops it.
  pub on_logical_error :
      is_one_of (errno (pos (suc n))) transient_errors ≡ false
      → is_one_of (errno (pos (suc n))) logical_errors ≡ true
      → n < 2 ^ 31 - 1
      → process_event build read_header mem
          (conn (receiving phase) socket i gen offset)
          ctx
          (io_completed (negsuc n) flags)
        ≡ panic explicit_panic
  unfolding process_event handle_event on_recv handle_io_error dispatch_error
  on_logical_error not_transient matches small =
      rw (from_raw_lem build n small, not_transient, matches)

module _ (build : Build) (read_header : List ℕ → Option MsgHeader) (mem : Memory) (socket : Fixed)
    (i gen offset : ℕ) (ctx : ExecutorContext) (flags : ℕ) where
  -- A close that succeeded ends the machine: it is closed and asks to be taken out of its pool.
  pub on_close_done :
      length ctx.intents < ctx.slots
      → process_event build read_header mem
          (conn closing socket i gen offset)
          ctx
          (io_completed (pos 0) flags)
        ≡ done (conn closed socket i gen offset, submitted ctx (terminate ∷ []))
  unfolding process_event handle_event on_closing
  on_close_done room = rw (submit_intent_lem ctx terminate room)

  -- While closing, a result other than 0 asks again to close the socket. Where the buffer's handle
  -- is not valid any more, the second `free` changes nothing. There is room for an intent.
  pub on_close_failed :
      (res : ℤ)
      → is_zero res ≡ false
      → is_valid ctx.buffers.allocator (handle i gen).id ≡ done false
      → length ctx.intents < ctx.slots
      → process_event build read_header mem
          (conn closing socket i gen offset)
          ctx
          (io_completed res flags)
        ≡ done (conn closing socket i gen 0, submitted ctx (close_fixed socket ∷ []))
  unfolding process_event handle_event on_closing close release_buffer BufferPool.free
  on_close_failed res failed stale room = rw (
    failed,
    free_refused build ctx.buffers.allocator (handle i gen).id stale,
    submit_intent_lem ctx (close_fixed socket) room,
  )
