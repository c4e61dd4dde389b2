-- ===== src/Blob/Executor/Construct.antt =====
-- `Executor::new` gives an executor where the allocator grants its allocations.
use hoarder.Base.{
  ℕ, ◌+◌, ◌*◌, ◌^◌, ◌%◌, ◌≤◌, ◌<◌, ◌≡◌, refl, sym, ap, ◌∙◌, arith, Option, some, none, done, Build,
  Repr, isize_max, Allocates, List, replicate, inl, inr, subst, some-injective,
}
use hoarder.Base.Bits.{bit_and-low}
use hoarder.Collections.Array.Laws as ArrayLaws
use hoarder.Collections.GenAlloc.Defs as Gen
use hoarder.Collections.GenAlloc.Defs.{GenAlloc, u32_repr, countdown, masked}
use hoarder.Collections.GenAlloc.Construct.{length-countdown}
use hoarder.Collections.RingBuffer.Defs as Ring
use hoarder.Collections.RingBuffer.Defs.{RingBuffer}
use hoarder.Collections.RingBuffer.Construct.{fresh, new_lem, from_fixed_iter_lem}
use hoarder.Collections.AlignedBuffers.Laws as AlignedLaws
use hoarder.Collections.BufferPool as Buffers
use hoarder.Collections.BufferPool.{BufferPool, unwrap_result}
use hoarder.Collections.ObjectHandle.{pool_mask}
use hoarder.Collections.ObjectPool as Objects
use hoarder.Collections.ObjectPool.{ObjectPool}
use hoarder.Blob.Protocol.{MsgHeader}
use hoarder.Blob.ConnHandler.{ConnHandler, buf_size, buf_align}
use hoarder.Blob.TcpServer.{TcpServer, Net}
use hoarder.Blob.Executor.Defs as Defs
use hoarder.Blob.Executor.Defs.{Io, Executor, Answers, RunQueueEvent}
use hoarder.Blob.Executor.Loop
use hoarder.Blob.Executor.Start.{IsFresh, new-IsFresh, power_4096}

generations_made :
    (build : Build) (table free_list capacity mask : ℕ)
    → 0 < masked capacity mask
    → masked capacity mask * 4 + 3 ≤ isize_max
    → (g : GenAlloc) × (Gen.new build (some table) (some free_list) capacity mask ≡ done g)
unfolding Gen.new
generations_made build table free_list capacity mask pos fit =
    let n : ℕ = masked capacity mask in
    let room : Allocates u32_repr n = record {
      element = omega arith;
      nonempty = pos;
      fits = omega arith;
    } in
    let (queue, made, _, _) =
      from_fixed_iter_lem build u32_repr free_list (countdown n) (omega (arith, length-countdown n))
        (subst (Allocates u32_repr) (sym (length-countdown n)) room) in
    let made' =
      subst (λ k. Ring.from_fixed_iter build u32_repr (some free_list) k (countdown n) ≡ done queue)
        (length-countdown n) made in
    (
      record {
        generation = record { ptr = table; cells = replicate n 0; size = n };
        free_list = queue;
      },
      rw (ArrayLaws.new_lem {A = ℕ} u32_repr table n 0 (omega arith) room, made') refl,
    )

-- What an object pool is to be granted.
pub record PoolGrant (repr : Repr) (answers : Objects.Answers) (capacity : ℕ) : Type 0 where
  pub slots : ℕ
  pub generations : ℕ
  pub free_list : ℕ
  pub granted :
      answers
      ≡ record { slots = some slots; generations = some generations; free_list = some free_list }
  pub some_left : 0 < capacity % 2 ^ 24
  pub small : capacity < 2 ^ 32
  pub fits : Allocates repr capacity

pool_made :
    {A : Type 0} (build : Build) (repr : Repr) (answers : Objects.Answers) (capacity : ℕ)
    → PoolGrant repr answers capacity
    → (p : ObjectPool A) × (Objects.new build repr answers capacity ≡ done p)
unfolding Objects.new
pool_made {A} build repr answers capacity grant =
    let mask : masked capacity pool_mask ≡ capacity % 2 ^ 24 = bit_and-low 24 capacity in
    let (g, made) =
      generations_made build grant.generations grant.free_list capacity pool_mask
        (omega (arith, mask, grant.some_left)) (omega (arith, mask)) in
    (
      record {
        slots = record { ptr = grant.slots; cells = replicate capacity none; size = capacity };
        allocator = g;
      },
      rw
          (
            grant.granted,
            ArrayLaws.new_with_fn_lem {A = Option A} repr grant.slots capacity none
                (omega (arith, grant.small)) grant.fits,
            made,
          )
          refl,
    )

buffers_made :
    (build : Build) (block table free_list count : ℕ)
    → block % 4096 ≡ 0
    → 0 < count
    → count * 4096 + 4095 ≤ isize_max
    → count < 2 ^ 32
    → (p : BufferPool) × (Buffers.new buf_size buf_align build
          (record { block = some block; generations = some table; free_list = some free_list })
          count
        ≡ done p)
unfolding Buffers.new unwrap_result
buffers_made build block table free_list count aligned pos fit word =
    let mask : masked count 0 ≡ count = bit_and-low 32 count ∙ omega arith in
    let (g, made) =
      generations_made build table free_list count 0 (omega (arith, mask)) (omega (arith, mask)) in
    elim (AlignedLaws.new_lem (some block) count 4096 4096 power_4096 refl (omega arith)
      (omega arith) same_block) [
        | inl (missing, fails) ↦ absurd cc
        | inr (b, e, _, _, _) ↦ (record { pool = b; allocator = g }, rw (e, made) refl)
      ]
  where
    same_block : (p : ℕ) → some block ≡ some p → p % 4096 ≡ 0
    same_block p e = subst (λ a. a % 4096 ≡ 0) (some-injective e) aligned

-- What `Executor::new` is to be granted, for capacities that leave something to hand out.
pub record Granted (answers : Answers) (listeners conn_handlers buf_count : ℕ) : Type 0 where
  pub tcp : PoolGrant answers.listener_repr answers.listeners listeners
  pub conn : PoolGrant answers.conn_handler_repr answers.conn_handlers conn_handlers
  pub block : ℕ
  pub table : ℕ
  pub free_list : ℕ
  pub bufs :
      answers.buffers
      ≡ record { block = some block; generations = some table; free_list = some free_list }
  pub aligned : block % 4096 ≡ 0
  pub buffered : 0 < buf_count
  pub buffers_fit : buf_count * 4096 + 4095 ≤ isize_max
  pub word : buf_count < 2 ^ 32
  pub ptr_0 : ℕ
  pub ptr_1 : ℕ
  pub queue_0 : answers.run_queue_0 ≡ some ptr_0
  pub queue_1 : answers.run_queue_1 ≡ some ptr_1
  pub queues_fit : Allocates answers.event_repr (conn_handlers * 2)

module _ (build : Build) (io : Io) (net : Net) (read_header : List ℕ → Option MsgHeader) where
  runs :
      (answers : Answers) (s : io.State) (listeners conn_handlers buf_count : ℕ)
      → Granted answers listeners conn_handlers buf_count
      → (e : Executor io) × (Loop.new build io net read_header answers s listeners conn_handlers
            buf_count
          ≡ done e)
  unfolding Loop.new
  runs answers s listeners conn_handlers buf_count g =
      let (tcp, e₁) =
        pool_made {A = TcpServer} build answers.listener_repr answers.listeners listeners g.tcp in
      let (conn, e₂) =
        pool_made {A = ConnHandler} build answers.conn_handler_repr answers.conn_handlers
          conn_handlers g.conn in
      let (bufs, e₃) =
        buffers_made build g.block g.table g.free_list buf_count g.aligned g.buffered g.buffers_fit
          g.word in
      let small : conn_handlers * 2 < isize_max = omega (arith, g.conn.small) in
      let queue = λ (ptr : ℕ).
        new_lem {A = RunQueueEvent} answers.event_repr ptr (conn_handlers * 2) small g.queues_fit in
      (
        record {
          io_state = s;
          tcp_listener_pool = tcp;
          conn_handler_pool = conn;
          io_bufs = bufs;
          run_queue_0 = fresh g.ptr_0 (conn_handlers * 2);
          run_queue_1 = fresh g.ptr_1 (conn_handlers * 2);
          current_run_queue = Defs.queue_0;
        },
        rw (e₁, e₂, g.bufs, e₃, g.queue_0, queue g.ptr_0, g.queue_1, queue g.ptr_1) refl,
      )

  block_aligned :
      (answers : Answers) (listeners conn_handlers buf_count : ℕ)
      → Granted answers listeners conn_handlers buf_count
      → (a : ℕ) → answers.buffers.block ≡ some a
      → a % 4096 ≡ 0
  block_aligned answers listeners conn_handlers buf_count g a h =
      subst (λ x. x % 4096 ≡ 0) (some-injective (sym (ap (λ r. r.block) g.bufs) ∙ h)) g.aligned

  -- Where the allocator grants what `Executor::new` asks for, it returns: every listener slot,
  -- connection slot and buffer is free, as many as the capacities modulo 2 ^ 24 and the buffer
  -- count say, and both run queues are empty, with room for two events of each connection. The
  -- capacities fit 32 bits and are no multiples of 2 ^ 24, the buffer count fits 32 bits and is not
  -- 0, all layouts fit an allocation, and the buffers' address is aligned.
  pub new_starts :
      (answers : Answers) (s : io.State) (listeners conn_handlers buf_count : ℕ)
      → Granted answers listeners conn_handlers buf_count
      → (e : Executor io) × (Loop.new build io net read_header answers s listeners conn_handlers
            buf_count
          ≡ done e)
        × IsFresh listeners conn_handlers buf_count e
  new_starts answers s listeners conn_handlers buf_count g =
      let (e, made) = runs answers s listeners conn_handlers buf_count g in
      (
        e,
        made,
        new-IsFresh build io net read_header answers s listeners conn_handlers buf_count g.buffered
            g.buffers_fit g.word (block_aligned answers listeners conn_handlers buf_count g) made,
      )
