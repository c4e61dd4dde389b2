-- ===== src/Blob/Ownership/Boot.antt =====
-- hoarder-blob/src/executor/mod.rs, `setup` and `seed_run_queue`, which `run` calls before its loop:
-- from a fresh executor on, no buffer has an owner.
use hoarder.Base.{
  ◌==◌, false, product_pos, ℕ, zero, suc, subst, layout_of, ◌+◌, ◌*◌, ◌%◌, ◌^◌, ◌≡◌, ap, ◌∙◌, sym,
  Option, none, some, List, [], ◌∷◌, ltb, debug, assert, unwrap, Repr, allocate, isize_max,
  Allocates, layout_array_lem, allocate_array, arith,
}
use hoarder.Base.Post.{Safe, Safe-bind, Safe-after, IsDefined, assert-IsDefined, unwrap-IsDefined}
use hoarder.Collections.Array.{take_exactly, from_fixed_iter}
use hoarder.Collections.GenAlloc.Defs.{countdown}
use hoarder.Collections.GenAlloc.Construct.{empty_book}
use hoarder.Collections.AlignedBuffers.{buf_ptr}
use hoarder.Collections.BufferPool.{BufferHandle, BufferPool, unwrap_result}
use hoarder.Collections.BufferPool.Laws.{handle, slice_at, get_held, slices_disjoint}
use hoarder.Collections.BufferPool.Laws as Buffers
use hoarder.Collections.ObjectPool
use hoarder.Collections.ObjectPool.{ObjectPool}
use hoarder.Collections.ObjectPool.Laws as Objects
use hoarder.Collections.ObjectPool.Laws.{slot_at, empty_slot}
use hoarder.Collections.ObjectPool.Posts.{Spawned, spawn-Spawned}
use hoarder.Blob.Protocol.{MsgHeader, spawned}
use hoarder.Blob.ConnHandler.{ConnHandler, buf_size}
use hoarder.Blob.TcpServer as Tcp
use hoarder.Blob.TcpServer.{TcpServer, Net}
use hoarder.Blob.Executor.Defs.{IsReady, Io, Executor, iovec_repr, listen_addr, tcp_server_id}
use hoarder.Blob.Executor.Loop.{iovecs, setup, seed_run_queue, run}
use hoarder.Blob.Executor.Setup.{entries-Allocates}
use hoarder.Blob.Executor.Start.{IsFresh}
use hoarder.Blob.Ownership.Release.{ptr-IsDefined}
use hoarder.Blob.Ownership.Slots.{IsOwned, IsRightSlot, holder}
use hoarder.Blob.Ownership.Intents.{Accounted, push-Accounted, unwrap_result-IsDefined}
use hoarder.Blob.Ownership.Runs.{Settled, turns-Settled}

-- With every slot and every buffer free.
fresh-IsOwned :
    {conns : ObjectPool ConnHandler} {bufs : BufferPool} (q q' : List ℕ)
    → Objects.Holds conns q empty_book
    → Buffers.Holds buf_size bufs q' empty_book
    → IsOwned conns bufs
fresh-IsOwned {conns} {bufs} q q' cs bs = record {
  free_conns = q;
  conn_book = empty_book;
  free_bufs = q';
  buf_book = empty_book;
  conns_hold = cs;
  bufs_hold = bs;
  owned = record {
    live = λ i b g e. absurd (nobody i e);
    apart = λ i j b g h e f. absurd (nobody i e);
    kept = λ b g e. absurd (vacant e);
  };
  right = λ i. subst (IsRightSlot bufs.allocator) (sym (slot_empty i)) tt;
}
  where
    slot_empty : (i : ℕ) → slot_at conns i ≡ none
    slot_empty i = empty_slot (slot_at conns i) (cs.filled i)

    nobody : (i : ℕ) {h : BufferHandle} → holder (slot_at conns i) ≡ some h → ⊥
    nobody i e = let f = sym (ap holder (slot_empty i)) ∙ e in cc

    vacant : {g : ℕ} → none ≡ some g → ⊥
    vacant e = cc

take-IsDefined : {A : Type 0} (n : ℕ) (xs : List A) → IsDefined (take_exactly n xs)
unfolding take_exactly
take-IsDefined zero xs = tt
take-IsDefined (suc n) [] = tt
take-IsDefined (suc n) (x ∷ xs) =
    Safe-after (λ _. Unit) (take_exactly n xs) _ (take-IsDefined n xs) λ rest. tt

-- An array of a size that fits.
array-IsDefined :
    {A : Type 0} (repr : Repr) (raw : Option ℕ) (n : ℕ) (xs : List A)
    → Allocates repr n
    → IsDefined (from_fixed_iter repr raw n xs)
unfolding from_fixed_iter
array-IsDefined repr raw n xs room =
    Safe-after (λ _. Unit) (assert (ltb n isize_max)) _ (assert-IsDefined (ltb n isize_max))
      λ _. rw (layout_array_lem repr n room) (
        Safe-after (λ _. Unit) (allocate (layout_of repr n) raw) _ (allocated raw)
          λ ptr. Safe-after (λ _. Unit) (take_exactly n xs) _ (take-IsDefined n xs) λ cells. tt)
  where
    filled : (repr.size_of * n == 0) ≡ false
    filled = let pos = product_pos repr.size_of n room.element room.nonempty in ground arith

    allocated : (raw : Option ℕ) → IsDefined (allocate (layout_of repr n) raw)
    allocated (some p) = rw (allocate_array repr n p room) tt
    allocated none = rw (filled) tt

module _ (n : ℕ) (io : Io) (net : Net) (read_header : List ℕ → Option MsgHeader) where
  iovecs-IsDefined :
      (bufs : BufferPool) {q : List ℕ} {book : ℕ → Option ℕ}
      → Buffers.Holds buf_size bufs q book
      → (idx k : ℕ) → IsDefined (iovecs debug io net read_header bufs idx k)
  unfolding iovecs
  iovecs-IsDefined bufs hs idx zero = tt
  iovecs-IsDefined bufs hs idx (suc k) =
      Safe-after (λ _. Unit) (buf_ptr debug bufs.pool idx) _ (ptr-IsDefined bufs idx hs.block)
        λ ptr.
          Safe-after (λ _. Unit) (iovecs debug io net read_header bufs (idx + 1) k) _
            (iovecs-IsDefined bufs hs (idx + 1) k) λ rest. tt

  pub setup-Accounted :
      (raw : Option ℕ) (e : Executor io)
      → Accounted n io net read_header e
      → Safe (Accounted n io net read_header) (setup debug io net read_header raw e)
  unfolding setup
  setup-Accounted raw e a =
      let Q = Accounted n io net read_header in
      Safe-after Q
        (unwrap_result (io.register_files e.io_state (ObjectPool.capacity e.conn_handler_pool)).1) _
        (unwrap_result-IsDefined _)
        λ _.
          Safe-after Q (iovecs debug io net read_header e.io_bufs 0 e.io_bufs.pool.count) _
            (iovecs-IsDefined e.io_bufs a.0.bufs_hold 0 e.io_bufs.pool.count)
            λ items.
              Safe-after Q (from_fixed_iter iovec_repr raw e.io_bufs.pool.count items) _
                (array-IsDefined iovec_repr raw e.io_bufs.pool.count items
                  (entries-Allocates e.io_bufs a.0.bufs_hold))
                λ bufs.
                  Safe-after Q
                    (unwrap_result
                      (io.register_buffers
                        (io.register_files e.io_state (ObjectPool.capacity e.conn_handler_pool)).0
                        bufs.cells).1)
                    _ (unwrap_result-IsDefined _) λ _. a

  pub seed-Accounted :
      (e : Executor io)
      → Accounted n io net read_header e
      → Safe (Accounted n io net read_header) (seed_run_queue debug io net read_header e)
  unfolding seed_run_queue
  seed-Accounted e (o, l, w, w') =
      Safe-bind (Accounted n io net read_header)
        (λ r. Spawned e.tcp_listener_pool (Tcp.new listen_addr 4096) r.0)
        (ObjectPool.spawn tcp_server_id debug e.tcp_listener_pool (Tcp.new listen_addr 4096)) _
        (spawn-Spawned tcp_server_id debug e.tcp_listener_pool l.vacant (Tcp.new listen_addr 4096)
          l.holds)
        λ r s.
          Safe-after (Accounted n io net read_header) (unwrap r.1) _ (unwrap-IsDefined r.1) λ h.
            push-Accounted n io net read_header (record e { tcp_listener_pool = r.0 })
              e.current_run_queue (record { reason = spawned; handle = h })
              (o, record { vacant = s.vacant; books = s.books; holds = s.holds }, w, w')

  pub run-Settled :
      (ready : IsReady io) (raw : Option ℕ) (fuel k : ℕ) (e : Executor io)
      → Accounted n io net read_header e
      → Safe (Settled n io net read_header ready) (run debug io net read_header raw fuel k e)
  unfolding run
  run-Settled ready raw fuel k e a =
      Safe-bind (Settled n io net read_header ready) (Accounted n io net read_header)
        (setup debug io net read_header raw e) _ (setup-Accounted raw e a)
        λ set_up a'.
          Safe-bind (Settled n io net read_header ready) (Accounted n io net read_header)
            (seed_run_queue debug io net read_header set_up) _ (seed-Accounted set_up a')
            λ seeded a''. turns-Settled n io net read_header ready fuel k seeded a''

module _ (io : Io) (net : Net) (read_header : List ℕ → Option MsgHeader)
    (listeners conn_handlers buf_count : ℕ) where
  pub fresh-Accounted :
      (e : Executor io)
      → IsFresh listeners conn_handlers buf_count e
      → Accounted (conn_handlers * 2) io net read_header e
  fresh-Accounted e f = (
    fresh-IsOwned (countdown (conn_handlers % 2 ^ 24)) (countdown buf_count) f.conn f.bufs,
    record { vacant = _; books = _; holds = f.tcp },
    record { entries = []; models = f.empty_0; sized = f.room_0 },
    record { entries = []; models = f.empty_1; sized = f.room_1 },
  )
