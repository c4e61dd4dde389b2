-- ===== src/Blob/Executor/Setup.antt =====
-- What `run` does before its loop, on a fresh executor.
use hoarder.Base.{
  ℕ, zero, suc, ◌+◌, ◌*◌, ◌≤◌, ◌<◌, ◌≡◌, refl, ap, ◌∙◌, arith, Option, some, done, Build, isize_max,
  Allocates, List, [], ◌∷◌, length, inl, inr, subst, lt→ltb, layout_array_lem, allocate_array,
}
use hoarder.Error.{ok}
use hoarder.Collections.Array.{take_exactly, from_fixed_iter}
use hoarder.Collections.GenAlloc.Invariant.{Book}
use hoarder.Collections.AlignedBuffers.Laws.{buf_ptr_lem}
use hoarder.Collections.BufferPool.{BufferPool, unwrap_result}
use hoarder.Collections.BufferPool.Laws as BufferLaws
use hoarder.Collections.ObjectHandle as ObjectHandle
use hoarder.Collections.ObjectPool as ObjectPool
use hoarder.Collections.RingBuffer.Refine.{Models}
use hoarder.Blob.Protocol.{MsgHeader, spawned}
use hoarder.Blob.ConnHandler.{buf_size}
use hoarder.Blob.TcpServer as TcpServer
use hoarder.Blob.TcpServer.{Net}
use hoarder.Blob.Executor.Defs.{Io, Iovec, Executor, Answers, iovec_repr, queue_0, listen_addr}
use hoarder.Blob.Executor.Loop.{iovecs, setup, seed_run_queue}
use hoarder.Blob.Executor.Loop
use hoarder.Blob.Executor.Start.{IsFresh, seed_ready}
use hoarder.Blob.Executor.Construct.{Granted, new_starts}

-- The buffers of a pool from an index on, each with its address and its size.
abbrev pub entries : BufferPool → ℕ → ℕ → List Iovec
entries p idx zero = []
entries p idx (suc n) =
    record { iov_base = p.pool.ptr + idx * p.pool.buf_size; iov_len = 4096 } ∷ entries p (idx + 1) n

length-entries : (p : BufferPool) (idx n : ℕ) → length (entries p idx n) ≡ n
length-entries p idx zero = refl
length-entries p idx (suc n) = ap suc (length-entries p (idx + 1) n)

taken_all : (xs : List Iovec) → take_exactly (length xs) xs ≡ done xs
unfolding take_exactly
taken_all [] = refl
taken_all (x ∷ xs) = rw (taken_all xs) refl

pos_factor : (c b : ℕ) → 0 < c * b → 0 < c
pos_factor zero b h = absurd (omega arith)
pos_factor (suc c) b h = omega arith

module _ (p : BufferPool) {q : List ℕ} {held : Book} (hs : BufferLaws.Holds buf_size p q held) where
  pub entries-Allocates : Allocates iovec_repr p.pool.count
  entries-Allocates =
      let total : p.pool.total_size ≡ p.pool.count * 4096 =
        hs.block.total ∙ ap (λ b. p.pool.count * b) hs.sized in
      record {
        element = omega arith;
        nonempty = omega (arith, total, hs.block.nonzero);
        fits = omega (arith, total, hs.block.fits, hs.block.nonzero);
      }

  array_made :
      (ptr : ℕ)
      → from_fixed_iter iovec_repr (some ptr) p.pool.count (entries p 0 p.pool.count)
        ≡ done (record { ptr = ptr; cells = entries p 0 p.pool.count; size = p.pool.count })
  unfolding from_fixed_iter
  array_made ptr =
      let room = entries-Allocates in
      let taken =
        subst (λ n. take_exactly n (entries p 0 p.pool.count) ≡ done (entries p 0 p.pool.count))
          (length-entries p 0 p.pool.count) (taken_all (entries p 0 p.pool.count)) in
      rw
        (
          lt→ltb p.pool.count isize_max (omega (arith, room.fits)),
          layout_array_lem iovec_repr p.pool.count room,
          allocate_array iovec_repr p.pool.count ptr room,
          taken,
        )
        refl

  module _ (build : Build) (io : Io) (net : Net) (read_header : List ℕ → Option MsgHeader) where
    iovecs_lem :
        (n idx : ℕ)
        → idx + n ≤ p.pool.count
        → iovecs build io net read_header p idx n ≡ done (entries p idx n)
    unfolding iovecs
    iovecs_lem zero idx h = refl
    iovecs_lem (suc n) idx h = elim (buf_ptr_lem build p.pool idx hs.block) [
      | inl (_, found, _, _) ↦ rw (found, iovecs_lem n (idx + 1) (omega arith)) refl
      | inr (outside, _) ↦ absurd (omega arith)
    ]

-- Both calls that register are granted.
pub record Registers (io : Io) : Type 0 where
  pub files : (s : io.State) (n : ℕ) → (s' : io.State) × (io.register_files s n ≡ (s', ok tt))
  pub buffers :
      (s : io.State) (bufs : List Iovec)
      → (s' : io.State) × (io.register_buffers s bufs ≡ (s', ok tt))

module _ (build : Build) (io : Io) (net : Net) (read_header : List ℕ → Option MsgHeader) where
  setup_lem :
      (e : Executor io) (ptr : ℕ) (s s' : io.State) {q : List ℕ} {held : Book}
      → BufferLaws.Holds buf_size e.io_bufs q held
      → io.register_files e.io_state (ObjectPool.capacity e.conn_handler_pool) ≡ (s, ok tt)
      → io.register_buffers s (entries e.io_bufs 0 e.io_bufs.pool.count) ≡ (s', ok tt)
      → setup build io net read_header (some ptr) e ≡ done (record e { io_state = s' })
  unfolding setup unwrap_result
  setup_lem e ptr s s' hs files buffers =
      rw
        (
          files,
          iovecs_lem e.io_bufs hs build io net read_header e.io_bufs.pool.count 0 (omega arith),
          array_made e.io_bufs hs ptr,
          buffers,
        )
        refl

  -- `new`, `setup` and `seed_run_queue`, one after the other.
  pub starts_up :
      (answers : Answers) (s : io.State) (listeners conn_handlers buf_count ptr : ℕ)
      → Granted answers listeners conn_handlers buf_count
      → Registers io
      → (e : Executor io) × (e' : Executor io) × (e'' : Executor io)
        × (h : ObjectHandle.ObjectHandle) × (Loop.new build io net read_header answers s listeners
              conn_handlers buf_count
            ≡ done e)
        × (setup build io net read_header (some ptr) e ≡ done e')
        × (seed_run_queue build io net read_header e' ≡ done e'')
        × Models e''.run_queue_0 (record { reason = spawned; handle = h } ∷ [])
        × (e''.current_run_queue ≡ queue_0)
        × (ObjectPool.get e''.tcp_listener_pool h ≡ done (some (TcpServer.new listen_addr 4096)))
  starts_up answers s listeners conn_handlers buf_count ptr g registers =
      let (e, made, f) =
        new_starts build io net read_header answers s listeners conn_handlers buf_count g in
      let (s₁, files) = registers.files e.io_state (ObjectPool.capacity e.conn_handler_pool) in
      let (s₂, buffers) = registers.buffers s₁ (entries e.io_bufs 0 e.io_bufs.pool.count) in
      let e' : Executor io = record e { io_state = s₂ } in
      let f' : IsFresh listeners conn_handlers buf_count e' = record {
        tcp = f.tcp;
        conn = f.conn;
        bufs = f.bufs;
        empty_0 = f.empty_0;
        empty_1 = f.empty_1;
        room_0 = f.room_0;
        room_1 = f.room_1;
        first = f.first;
      } in
      let (e'', h, seeded, m, cur, _, found) =
        seed_ready build io net read_header e' listeners conn_handlers buf_count f'
          g.tcp.some_left in
      (e, e', e'', h, made, setup_lem e ptr s₁ s₂ f.bufs files buffers, seeded, m, cur, found)
