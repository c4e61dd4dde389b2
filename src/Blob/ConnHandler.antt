-- ===== src/Blob/ConnHandler.antt =====
-- hoarder-blob/src/state_machine/conn_handler.rs: the state machine of one connection.
-- Parameters: the memory when the event is handled, which the kernel writes, and zerocopy's
-- `read_from_bytes`. The log lines are left out.
pub mod Transitions
pub mod Effects
pub mod Errors
pub mod Life
pub mod InFlight
use hoarder.Base.{
  ℕ, zero, suc, ℤ, ◌+◌, ◌%◌, ◌^◌, Bool, true, false, Option, none, some, List, [], ◌∷◌, ltb, leb,
  ◌==◌, if◌then◌else◌, is_negative, is_zero, as_u32, Outcome, done, panic, undefined,
  unreachable_code, explicit_panic, out_of_bounds, unwrap, ◌>>=◌, ◌>>◌, Build, add_u32,
}
use hoarder.Error.{
  Errno, from_raw_syscall_error, is_one_of, eintr, eagain, enobufs, enomem, etimedout, ebadf,
  efault, einval, enotsock, eafnosupport, eopnotsupp, eio, econnreset, enotconn, eshutdown,
  econnaborted, enetdown, enetunreach, enetreset,
}
use hoarder.Collections.BufferPool
use hoarder.Collections.BufferPool.{Memory, BufferHandle, Slice}
use hoarder.Blob.Protocol.{
  Fixed, MachineEvent, spawned, io_completed, MachineIntent, retry, terminate, close_fixed,
  submit_recv, ExecutorContext, submit_intent, MsgHeader, header_size,
}

pub data RecvPhase : Type 0 where
  receiving_header : RecvPhase
  receiving_body : MsgHeader → RecvPhase
  processing : RecvPhase

pub data ConnHandlerState : Type 0 where
  init closing closed : ConnHandlerState
  receiving : RecvPhase → ConnHandlerState

pub record ConnHandler : Type 0 where
  pub state : ConnHandlerState
  pub socket : Fixed
  pub handle : Option BufferHandle
  pub offset : ℕ

-- The const parameters of `BufferPool` by default.
abbrev pub buf_size : ℕ
buf_size = 0x1000

abbrev pub buf_align : ℕ
buf_align = 0x1000

unfoldable pub new : ℕ → ConnHandler
new fd = record { state = init; socket = record { slot = fd }; handle = none; offset = 0 }

-- A handler's method returns the handler, the context and the next state.
abbrev pub Step : Type 0
Step = ConnHandler × ExecutorContext × ConnHandlerState

-- `unwrap_unchecked` of a missing handle is undefined behaviour.
unfoldable pub buf_handle : ConnHandler → Outcome BufferHandle
buf_handle c = elim c.handle [ none ↦ undefined | some h ↦ done h ]

-- The offset goes out `as u16`.
unfoldable pub recv : ConnHandler → ExecutorContext → Outcome ExecutorContext
unfolding buf_handle
recv c ctx = do h ← buf_handle c; submit_intent ctx (submit_recv c.socket h (c.offset % 2 ^ 16))

-- `buf_handle.and_then(|handle| Some(buffers.free(handle)))`
unfoldable pub release_buffer :
    Build → Option BufferHandle → ExecutorContext → Outcome ExecutorContext
release_buffer build none ctx = done ctx
release_buffer build (some h) ctx = do
  (pool, freed) ← BufferPool.free build ctx.buffers h
  done (record ctx { buffers = pool })

unfoldable pub close :
    Build → ConnHandler → ExecutorContext → Outcome (ConnHandler × ExecutorContext)
unfolding release_buffer
close build c ctx = do
  released ← release_buffer build c.handle ctx
  ctx' ← submit_intent released (close_fixed c.socket)
  done (record c { offset = 0 }, ctx')

-- What `on_init` makes of the allocation.
unfoldable pub start : ConnHandler → ExecutorContext → Option BufferHandle → Outcome Step
unfolding recv
start c ctx (some h) = do
  ctx' ← recv (record c { handle = some h }) ctx
  done (record c { handle = some h }, ctx', receiving receiving_header)
start c ctx none = do ctx' ← submit_intent ctx retry; done (c, ctx', init)

unfoldable pub on_init : Build → ConnHandler → ExecutorContext → Outcome Step
unfolding start
on_init build c ctx = do
  (pool, r) ← BufferPool.alloc build ctx.buffers
  start c (record ctx { buffers = pool }) r

unfoldable pub on_closing : Build → ConnHandler → ExecutorContext → ℤ → Outcome Step
unfolding close
on_closing build c ctx res =
    if is_zero res
    then (do ctx' ← submit_intent ctx terminate; done (c, ctx', closed))
    else (do (c', ctx') ← close build c ctx; done (c', ctx', closing))

-- The errno values of the arms of `handle_io_error`.
abbrev pub transient_errors : List Errno
transient_errors = eintr ∷ eagain ∷ enobufs ∷ enomem ∷ etimedout ∷ []

abbrev pub logical_errors : List Errno
logical_errors = ebadf ∷ efault ∷ einval ∷ enotsock ∷ eafnosupport ∷ eopnotsupp ∷ []

abbrev pub connection_errors : List Errno
connection_errors =
    eio ∷ econnreset ∷ enotconn ∷ eshutdown ∷ econnaborted ∷ enetdown ∷ enetunreach ∷ enetreset ∷ []

unfoldable pub dispatch_error : Build → ConnHandler → ExecutorContext → Errno → Outcome Step
unfolding recv close
dispatch_error build c ctx e =
    if is_one_of e transient_errors
    then (do ctx' ← recv c ctx; done (c, ctx', c.state))
    else if is_one_of e logical_errors
    then panic explicit_panic
    else if is_one_of e connection_errors
    then (do (c', ctx') ← close build c ctx; done (c', ctx', closing))
    else done (c, ctx, c.state)

unfoldable pub handle_io_error : Build → ConnHandler → ExecutorContext → ℤ → Outcome Step
unfolding dispatch_error
handle_io_error build c ctx error = do
  e ← from_raw_syscall_error build error
  dispatch_error build c ctx e

abbrev pub bytes_at : (ℕ → ℕ) → ℕ → ℕ → List ℕ
bytes_at mem start zero = []
bytes_at mem start (suc n) = mem start ∷ bytes_at mem (start + 1) n

-- `&slice[..n]` panics where the slice is shorter.
unfoldable pub prefix : Memory → Slice → ℕ → Outcome (List ℕ)
prefix mem s n = if leb n s.len then done (bytes_at mem.byte s.start n) else panic out_of_bounds

module _ (build : Build) (read_header : List ℕ → Option MsgHeader) (mem : Memory) where
  -- `MsgHeader::read_from_bytes(&buffers.get(handle).unwrap()[..5]).unwrap()`
  unfoldable pub parse_header : ConnHandler → ExecutorContext → Outcome MsgHeader
  unfolding buf_handle prefix
  parse_header c ctx = do
    h ← buf_handle c
    found ← BufferPool.get buf_size buf_align build mem ctx.buffers h
    slice ← unwrap found
    bytes ← prefix mem slice header_size
    unwrap (read_header bytes)

  -- The branch of `on_recv` for a result above zero.
  unfoldable pub received : ConnHandler → ExecutorContext → ℤ → Outcome Step
  unfolding parse_header
  received c ctx res = do
    offset ← add_u32 build c.offset (as_u32 res)
    if leb header_size offset
        then (do
          header ← parse_header (record c { offset = offset }) ctx
          done (record c { offset = offset }, ctx, receiving (receiving_body header)))
        else done (record c { offset = offset }, ctx, receiving receiving_header)

  unfoldable pub on_recv : ConnHandler → ExecutorContext → ℤ → Outcome Step
  unfolding close handle_io_error received recv
  on_recv c ctx res =
      if is_zero res then (do (c', ctx') ← close build c ctx; done (c', ctx', closing)) else (do
        (c', ctx', state) ←
            if is_negative res then handle_io_error build c ctx res else received c ctx res
        ctx'' ← recv c' ctx'
        done (c', ctx'', state))

  -- The match of `process_event` on the event and the state.
  unfoldable pub handle_event :
      ConnHandlerState → MachineEvent → ConnHandler → ExecutorContext → Outcome Step
  unfolding on_init on_recv on_closing
  handle_event init spawned c ctx = on_init build c ctx
  handle_event (receiving phase) (io_completed res flags) c ctx = on_recv c ctx res
  handle_event closing (io_completed res flags) c ctx = on_closing build c ctx res
  handle_event closed event c ctx = done (c, ctx, closed)
  handle_event _ _ c ctx = panic unreachable_code

  unfoldable pub process_event :
      ConnHandler → ExecutorContext → MachineEvent → Outcome (ConnHandler × ExecutorContext)
  unfolding handle_event
  process_event c ctx event = do
    (c', ctx', state) ← handle_event c.state event c ctx
    done (record c' { state = state }, ctx')
