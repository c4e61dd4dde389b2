-- ===== src/Blob/Executor/Start.antt =====
-- What `Executor::new` gives, and the first event.
use hoarder.Base.{
  ℕ, zero, suc, ◌+◌, ◌*◌, ◌%◌, ◌^◌, ◌≤◌, ◌<◌, ◌≡◌, refl, arith, Option, none, some, List, [], ◌∷◌,
  true, done, >>=-eq-done, done-injective, subst, Build, Repr, isize_max, layout_array,
}
use hoarder.Collections.RingBuffer.Defs
use hoarder.Collections.RingBuffer.Defs.{RingBuffer}
use hoarder.Collections.RingBuffer.Refine.{Models, push_unwrap_lem, push_lem, after_push}
use hoarder.Collections.RingBuffer.Construct.{fresh, fresh-Models}
use hoarder.Collections.GenAlloc.Defs.{countdown}
use hoarder.Collections.GenAlloc.Construct.{empty_book}
use hoarder.Collections.GenAlloc.Laws.{id_at}
use hoarder.Collections.ObjectHandle
use hoarder.Collections.ObjectPool
use hoarder.Collections.ObjectPool.{ObjectPool}
use hoarder.Collections.ObjectPool.Laws as Objects
use hoarder.Collections.ObjectPool.Laws.{after_spawn, spawn_lem}
use hoarder.Collections.ObjectPool.Construct.{new-Holds}
use hoarder.Collections.BufferPool
use hoarder.Collections.BufferPool.Laws as Buffers
use hoarder.Collections.BufferPool.Laws.{new_ready}
use hoarder.Collections.AlignedBuffers.{is_power_of_two}
use hoarder.Blob.Protocol.{spawned, MsgHeader}
use hoarder.Blob.ConnHandler.{buf_size, buf_align}
use hoarder.Blob.TcpServer
use hoarder.Blob.TcpServer.{TcpServer, Net}
use hoarder.Blob.Executor.Defs.{
  Io, Executor, Answers, RunQueueEvent, queue_0, listen_addr, tcp_server_id,
}
use hoarder.Blob.Executor.Dispatch.{push_event}
use hoarder.Blob.Executor.Loop.{new, seed_run_queue}

-- Where `RingBuffer::new` returns, the buffer is empty.
new_empty_queue :
    {A : Type 0} (repr : Repr) (raw : Option ℕ) (size : ℕ) {b : RingBuffer A}
    → Defs.new repr raw size ≡ done b
    → Models b [] × (b.size ≡ size)
unfolding Defs.new layout_array fresh
new_empty_queue repr none size e = absurd (ground arith)
new_empty_queue repr (some ptr) size {b} e =
    let bounds : (0 < size) × (size < isize_max) = ground arith in
    let same : fresh ptr size ≡ b = ground arith in
    subst (λ x. Models x [] × (x.size ≡ size)) same (fresh-Models ptr size bounds.0 bounds.1, refl)

-- Every listener and handler slot and every buffer is free, and both queues are empty, with room
-- for two events of each connection.
pub record IsFresh {io : Io} (listeners conn_handlers buf_count : ℕ) (e : Executor io)
    : Type 0 where
  pub tcp : Objects.Holds e.tcp_listener_pool (countdown (listeners % 2 ^ 24)) empty_book
  pub conn : Objects.Holds e.conn_handler_pool (countdown (conn_handlers % 2 ^ 24)) empty_book
  pub bufs : Buffers.Holds buf_size e.io_bufs (countdown buf_count) empty_book
  pub empty_0 : Models e.run_queue_0 []
  pub empty_1 : Models e.run_queue_1 []
  pub room_0 : e.run_queue_0.size ≡ conn_handlers * 2
  pub room_1 : e.run_queue_1.size ≡ conn_handlers * 2
  pub first : e.current_run_queue ≡ queue_0

pub power_4096 : is_power_of_two buf_align ≡ true
unfolding is_power_of_two
power_4096 = refl

module _ (build : Build) (io : Io) (net : Net) (read_header : List ℕ → Option MsgHeader) where
  -- Where `Executor::new` returns, every listener slot, connection slot and buffer is free, as many
  -- as the capacities modulo 2 ^ 24 and the buffer count say, and both run queues are empty, with
  -- room for two events of each connection. The buffer count is not 0 and fits 32 bits, the buffers
  -- fit an allocation, and the allocator's answer for them is aligned.
  pub new-IsFresh :
      (answers : Answers) (s : io.State) (listeners conn_handlers buf_count : ℕ) {e : Executor io}
      → 0 < buf_count
      → buf_count * 4096 + 4095 ≤ isize_max
      → buf_count < 2 ^ 32
      → ((a : ℕ) → answers.buffers.block ≡ some a → a % 4096 ≡ 0)
      → new build io net read_header answers s listeners conn_handlers buf_count ≡ done e
      → IsFresh listeners conn_handlers buf_count e
  unfolding new
  new-IsFresh answers s listeners conn_handlers buf_count {e} pos fit word aligned made =
      let (tcp, et, r₁) =
        >>=-eq-done (ObjectPool.new build answers.listener_repr answers.listeners listeners) _
          made in
      let (conn, ec, r₂) =
        >>=-eq-done
          (ObjectPool.new build answers.conn_handler_repr answers.conn_handlers conn_handlers) _
          r₁ in
      let (bufs, eb, r₃) =
        >>=-eq-done (BufferPool.new buf_size buf_align build answers.buffers buf_count) _ r₂ in
      let (q₀, e₀, r₄) =
        >>=-eq-done (Defs.new answers.event_repr answers.run_queue_0 (conn_handlers * 2)) _ r₃ in
      let (q₁, e₁, r₅) =
        >>=-eq-done (Defs.new answers.event_repr answers.run_queue_1 (conn_handlers * 2)) _ r₄ in
      let (m₀, s₀) =
        new_empty_queue answers.event_repr answers.run_queue_0 (conn_handlers * 2) e₀ in
      let (m₁, s₁) =
        new_empty_queue answers.event_repr answers.run_queue_1 (conn_handlers * 2) e₁ in
      subst (IsFresh listeners conn_handlers buf_count) (done-injective r₅) (record {
        tcp = (new-Holds build answers.listener_repr answers.listeners listeners et).0;
        conn = (new-Holds build answers.conn_handler_repr answers.conn_handlers conn_handlers ec).0;
        bufs =
            new_ready buf_size buf_align build answers.buffers buf_count power_4096 refl
              (omega arith) (omega arith) word aligned eb;
        empty_0 = m₀;
        empty_1 = m₁;
        room_0 = s₀;
        room_1 = s₁;
        first = refl;
      })

  -- On a fresh executor with a listener slot, `seed_run_queue` succeeds: the current queue holds
  -- the one event that spawns the listener, under a handle of the listener pool that gives the new
  -- server.
  pub seed_ready :
      (e : Executor io) (listeners conn_handlers buf_count : ℕ)
      → IsFresh listeners conn_handlers buf_count e
      → 0 < listeners % 2 ^ 24
      → (e' : Executor io) × (h : ObjectHandle.ObjectHandle) × (seed_run_queue build io net
            read_header e
          ≡ done e')
        × Models e'.run_queue_0 (record { reason = spawned; handle = h } ∷ [])
        × (e'.current_run_queue ≡ queue_0)
        × (ObjectHandle.pool_id h ≡ tcp_server_id)
        × (ObjectPool.get e'.tcp_listener_pool h ≡ done (some (TcpServer.new listen_addr 4096)))
  unfolding seed_run_queue push_event
  seed_ready e listeners conn_handlers buf_count f pos = by_free (listeners % 2 ^ 24) pos f.tcp
    where
      by_free :
          (n : ℕ)
          → 0 < n
          → Objects.Holds e.tcp_listener_pool (countdown n) empty_book
          → (e' : Executor io) × (h : ObjectHandle.ObjectHandle) × (seed_run_queue build io net
                read_header e
              ≡ done e')
            × Models e'.run_queue_0 (record { reason = spawned; handle = h } ∷ [])
            × (e'.current_run_queue ≡ queue_0)
            × (ObjectHandle.pool_id h ≡ tcp_server_id)
            × (ObjectPool.get e'.tcp_listener_pool h ≡ done (some (TcpServer.new listen_addr 4096)))
      by_free zero p hs = absurd (omega arith)
      by_free (suc i) p hs =
          let p = e.tcp_listener_pool in
          let s = TcpServer.new listen_addr 4096 in
          let h = ObjectHandle.new tcp_server_id (id_at p.allocator i) in
          let event : RunQueueEvent = record { reason = spawned; handle = h } in
          let (es, own, _, _, found) =
            spawn_lem tcp_server_id build i (countdown i) s (omega arith) hs in
          let room : 0 < e.run_queue_0.size = f.empty_0.positive in
          let (_, m, _) = push_lem build e.run_queue_0 event [] f.empty_0 room in
          (
            record e {
              tcp_listener_pool = after_spawn p i s;
              run_queue_0 = after_push e.run_queue_0 event;
            },
            h,
            rw (es, f.first, push_unwrap_lem build e.run_queue_0 event [] f.empty_0 room),
            m,
            f.first,
            own,
            found,
          )
