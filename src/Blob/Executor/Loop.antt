-- ===== src/Blob/Executor/Loop.antt =====
-- `Executor::new` and `run`: the loops over the current queue and the completions, and what comes
-- before them.
use hoarder.Base.{
  ℕ, zero, suc, ◌+◌, ◌*◌, Option, none, some, List, [], ◌∷◌, Outcome, done, unwrap, ◌>>=◌, Build,
}
use hoarder.Collections.Array
use hoarder.Collections.RingBuffer.Defs
use hoarder.Collections.RingBuffer.Defs.{RingBuffer, pop, push_unwrap}
use hoarder.Collections.AlignedBuffers.{buf_ptr}
use hoarder.Collections.BufferPool
use hoarder.Collections.BufferPool.{BufferHandle, BufferPool, Slice, unwrap_result}
use hoarder.Collections.ObjectHandle.{from_u64}
use hoarder.Collections.ObjectPool
use hoarder.Collections.ObjectPool.{ObjectPool}
use hoarder.Blob.Protocol.{spawned, io_completed, MsgHeader}
use hoarder.Blob.ConnHandler.{buf_size, buf_align}
use hoarder.Blob.TcpServer
use hoarder.Blob.TcpServer.{TcpServer, Net}
use hoarder.Blob.Executor.Defs.{
  Iovec, Io, queue_0, other, Executor, Answers, iovec_repr, listen_addr, tcp_server_id,
}
use hoarder.Blob.Executor.Dispatch.{after_io, push_event, pop_event, handle_one}

module _ (build : Build) (io : Io) (net : Net) (read_header : List ℕ → Option MsgHeader) where
  open io use {State, submit_and_wait, next_completion, register_files, register_buffers}

  unfoldable pub new : Answers → State → ℕ → ℕ → ℕ → Outcome (Executor io)
  new answers s listeners conn_handlers buf_count = do
    tcp_listener_pool ← ObjectPool.new build answers.listener_repr answers.listeners listeners
    conn_handler_pool ←
        ObjectPool.new build answers.conn_handler_repr answers.conn_handlers conn_handlers
    io_bufs ← BufferPool.new buf_size buf_align build answers.buffers buf_count
    run_queue_0 ← Defs.new answers.event_repr answers.run_queue_0 (conn_handlers * 2)
    run_queue_1 ← Defs.new answers.event_repr answers.run_queue_1 (conn_handlers * 2)
    done (record {
      io_state = s;
      tcp_listener_pool = tcp_listener_pool;
      conn_handler_pool = conn_handler_pool;
      io_bufs = io_bufs;
      run_queue_0 = run_queue_0;
      run_queue_1 = run_queue_1;
      current_run_queue = queue_0;
    })

  -- The loop over the current queue, on fuel: without fuel it has not come to an end.
  unfoldable pub drain_queue : ℕ → Executor io → Outcome (Option (Executor io))
  unfolding pop_event handle_one
  drain_queue zero e = done none
  drain_queue (suc fuel) e = do
    (e', popped) ← pop_event build io net read_header e e.current_run_queue
    elim popped [
      | none ↦ done (some e')
      | some event ↦ handle_one build io net read_header e' event >>= λ e''. drain_queue fuel e''
    ]

  -- The loop over the completions, on fuel.
  unfoldable pub drain_completions : ℕ → Executor io → Outcome (Option (Executor io))
  unfolding push_event
  drain_completions zero e = done none
  drain_completions (suc fuel) e =
      let (s, completion) = next_completion e.io_state in
      elim completion [
        | none ↦ done (some (record e { io_state = s }))
        | some cqe ↦
            push_event build io net read_header (record e { io_state = s })
              (other e.current_run_queue)
              (record {
                reason = io_completed cqe.result cqe.flags;
                handle = from_u64 cqe.user_data;
              })
            >>= λ e'. drain_completions fuel e'
      ]

  abbrev pub switch_run_queue : Executor io → Executor io
  switch_run_queue e = record e { current_run_queue = other e.current_run_queue }

  abbrev pub and_then :
      Outcome (Option (Executor io))
      → (Executor io → Outcome (Option (Executor io)))
      → Outcome (Option (Executor io))
  and_then m k = m >>= λ r. elim r [ none ↦ done none | some e ↦ k e ]

  -- One turn of the loop of `run`.
  unfoldable pub turn : ℕ → Executor io → Outcome (Option (Executor io))
  unfolding drain_queue drain_completions
  turn fuel e = and_then (drain_queue fuel e) λ drained.
      (after_io build io net read_header (submit_and_wait drained.io_state 1) drained
        λ _ e'. done e')
      >>= λ waited.
          and_then (drain_completions fuel waited) λ reaped. done (some (switch_run_queue reaped))

  unfoldable pub seed_run_queue : Executor io → Outcome (Executor io)
  unfolding push_event
  seed_run_queue e = do
    (pool, spawned_handle) ←
        ObjectPool.spawn tcp_server_id build e.tcp_listener_pool (TcpServer.new listen_addr 4096)
    h ← unwrap spawned_handle
    push_event build io net read_header (record e { tcp_listener_pool = pool }) e.current_run_queue
        (record { reason = spawned; handle = h })

  -- The entries for the buffers from an index on.
  unfoldable pub iovecs : BufferPool → ℕ → ℕ → Outcome (List Iovec)
  iovecs bufs idx zero = done []
  iovecs bufs idx (suc n) = do
    ptr ← buf_ptr build bufs.pool idx
    rest ← iovecs bufs (idx + 1) n
    done (record { iov_base = ptr; iov_len = 0x1000 } ∷ rest)

  -- `setup().unwrap()`: an error of either call panics. The argument is the allocator's answer.
  -- The source computes each entry as it fills the array, here they are computed before.
  unfoldable pub setup : Option ℕ → Executor io → Outcome (Executor io)
  unfolding iovecs
  setup raw e =
      after_io build io net read_header
        (register_files e.io_state (ObjectPool.capacity e.conn_handler_pool)) e
        λ _ e'. do
          items ← iovecs e'.io_bufs 0 e'.io_bufs.pool.count
          bufs ← Array.from_fixed_iter iovec_repr raw e'.io_bufs.pool.count items
          after_io build io net read_header (register_buffers e'.io_state bufs.cells) e'
              λ _ e''. done e''

  -- So many turns of the loop, each on its own fuel.
  unfoldable pub turns : ℕ → ℕ → Executor io → Outcome (Option (Executor io))
  unfolding turn
  turns fuel zero e = done (some e)
  turns fuel (suc n) e = and_then (turn fuel e) (turns fuel n)

  -- `run`, whose loop has no end, for so many turns.
  unfoldable pub run : Option ℕ → ℕ → ℕ → Executor io → Outcome (Option (Executor io))
  unfolding setup seed_run_queue turns
  run raw fuel n e = do ready ← setup raw e; seeded ← seed_run_queue ready; turns fuel n seeded
