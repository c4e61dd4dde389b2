-- ===== src/Blob/Ownership/Isolation.antt =====
-- hoarder-blob/src/executor/mod.rs, `run`: what holds of the buffers and the connections after any
-- number of turns, and that there is no undefined behaviour on the way, while the memory is ready for
-- slices.
use hoarder.Base.{
  undefined, ◌≢◌, ◌<◌, ◌≤◌, ◌⊎◌, inl, inr, count, ℕ, subst, ◌+◌, ◌*◌, ◌≡◌, refl, ap, ◌∙◌, sym,
  Option, none, some, List, debug, done, arith,
}
use hoarder.Base.Post.{Safe, Safe-map}
use hoarder.Collections.BufferPool
use hoarder.Collections.BufferPool.{BufferHandle, BufferPool, Slice, unwrap_result}
use hoarder.Collections.BufferPool.Laws.{handle, slice_at, get_held, slices_disjoint}
use hoarder.Collections.RingBuffer.Refine.{Models}
use hoarder.Blob.Protocol.{MsgHeader}
use hoarder.Blob.ConnHandler.{buf_size, buf_align}
use hoarder.Blob.TcpServer.{Net}
use hoarder.Blob.Executor.Defs.{IsReady, Io, Executor}
use hoarder.Blob.Executor.Loop.{run}
use hoarder.Blob.Executor.Start.{IsFresh}
use hoarder.Blob.Ownership.Slots.{owners}
use hoarder.Blob.Ownership.Runs.{Settled}
use hoarder.Blob.Ownership.Boot.{run-Settled, fresh-Accounted}

-- The buffers of any two handlers that receive are valid and do not overlap.
abbrev pub IsIsolated : {io : Io} → Option (Executor io) → Type 0
IsIsolated none = Unit
IsIsolated {io} (some e) =
    (i j : ℕ) (h h' : BufferHandle)
    → i ≢ j
    → owners e.conn_handler_pool i ≡ some h
    → owners e.conn_handler_pool j ≡ some h'
    → (a : Slice) × (b : Slice) × (BufferPool.get buf_size buf_align debug (io.memory e.io_state)
          e.io_bufs h
        ≡ done (some a))
      × (BufferPool.get buf_size buf_align debug (io.memory e.io_state) e.io_bufs h'
          ≡ done (some b))
      × ((a.start + a.len ≤ b.start) ⊎ (b.start + b.len ≤ a.start))

-- Each buffer is either free, once, or has one handler that receives into it.
abbrev pub IsConserved : {io : Io} → Option (Executor io) → Type 0
IsConserved none = Unit
IsConserved (some e) =
    (q : List ℕ) × Models e.io_bufs.allocator.free_list q
    × ((b : ℕ)
        → b < e.io_bufs.pool.count
        → ((count b q ≡ 1) × ((i g : ℕ) → owners e.conn_handler_pool i ≢ some (handle b g)))
          ⊎ ((count b q ≡ 0)
              × ((i : ℕ) × (g : ℕ) × (owners e.conn_handler_pool i ≡ some (handle b g))
                  × ((j h : ℕ) → owners e.conn_handler_pool j ≡ some (handle b h) → j ≡ i))))

module _ (io : Io) (net : Net) (read_header : List ℕ → Option MsgHeader)
    (listeners conn_handlers buf_count : ℕ) (ready : IsReady io) where
  -- What `run-Settled` says of a fresh executor.
  settled :
      (raw : Option ℕ) (fuel k : ℕ) (e : Executor io)
      → IsFresh listeners conn_handlers buf_count e
      → Safe
          (Settled (conn_handlers * 2) io net read_header ready)
          (run debug io net read_header raw fuel k e)
  settled raw fuel k e f =
      run-Settled (conn_handlers * 2) io net read_header ready raw fuel k e
        (fresh-Accounted io net read_header listeners conn_handlers buf_count e f)

  -- In a debug build, while all memory is ready for slices, initialised and not written by anybody
  -- while a slice is in use, `run` on a fresh executor never comes to undefined behaviour: neither
  -- before its loop nor in any number of turns, whatever the allocator and the IO answer, whatever
  -- events come and whatever the system calls of the listener grant.
  pub run_is_defined :
      (raw : Option ℕ) (fuel k : ℕ) (e : Executor io)
      → IsFresh listeners conn_handlers buf_count e
      → run debug io net read_header raw fuel k e ≢ undefined
  run_is_defined raw fuel k e f stuck =
      subst (Safe (Settled (conn_handlers * 2) io net read_header ready)) stuck
        (settled raw fuel k e f)

  Settled-IsIsolated :
      (r : Option (Executor io))
      → Settled (conn_handlers * 2) io net read_header ready r
      → IsIsolated r
  Settled-IsIsolated none s = tt
  Settled-IsIsolated (some e) (o, _, _, _) = λ i j h h' ne here there.
      let out = o.owned.live i h.id.index h.id.generation here in
      let out' = o.owned.live j h'.id.index h'.id.generation there in
      let differ : h.id.index ≢ h'.id.index = λ same. ne (
        o.owned.apart i j h.id.index h.id.generation h'.id.generation here
          (there ∙ ap (λ b. some (handle b h'.id.generation)) (sym same))) in
      let (found, _, _) =
        get_held buf_size buf_align debug o.free_bufs (io.memory e.io_state) h.id.index
          h.id.generation (ready e.io_state (slice_at e.io_bufs h.id.index)) o.bufs_hold out in
      let (found', _, _) =
        get_held buf_size buf_align debug o.free_bufs (io.memory e.io_state) h'.id.index
          h'.id.generation (ready e.io_state (slice_at e.io_bufs h'.id.index)) o.bufs_hold out' in
      (
        slice_at e.io_bufs h.id.index,
        slice_at e.io_bufs h'.id.index,
        found,
        found',
        slices_disjoint buf_size buf_align debug o.free_bufs (io.memory e.io_state) h.id.index
            h'.id.index h.id.generation h'.id.generation _ _
            (ready e.io_state (slice_at e.io_bufs h.id.index))
            (ready e.io_state (slice_at e.io_bufs h'.id.index)) o.bufs_hold out out' differ found
            found',
      )

  -- In a debug build, after `run` on a fresh executor has gone any number of turns, the buffers of
  -- any two handlers that receive are valid and do not overlap. All memory is ready for slices at
  -- any time: initialised, and not written by anybody while a slice is in use.
  pub run_isolates :
      (raw : Option ℕ) (fuel k : ℕ) (e : Executor io)
      → IsFresh listeners conn_handlers buf_count e
      → Safe IsIsolated (run debug io net read_header raw fuel k e)
  run_isolates raw fuel k e f =
      Safe-map (Settled (conn_handlers * 2) io net read_header ready) IsIsolated _
        (settled raw fuel k e f) Settled-IsIsolated

  Settled-IsConserved :
      (r : Option (Executor io))
      → Settled (conn_handlers * 2) io net read_header ready r
      → IsConserved r
  Settled-IsConserved none s = tt
  Settled-IsConserved (some e) (o, _, _, _) =
      (o.free_bufs, o.bufs_hold.books.queue, λ b inside. at (o.buf_book b) b inside refl)
    where
      at :
          (v : Option ℕ) (b : ℕ)
          → b < e.io_bufs.pool.count
          → o.buf_book b ≡ v
          → ((count b o.free_bufs ≡ 1)
              × ((i g : ℕ) → owners e.conn_handler_pool i ≢ some (handle b g)))
            ⊎ ((count b o.free_bufs ≡ 0)
                × ((i : ℕ) × (g : ℕ) × (owners e.conn_handler_pool i ≡ some (handle b g))
                    × ((j h : ℕ) → owners e.conn_handler_pool j ≡ some (handle b h) → j ≡ i)))
      at none b inside free = inl (
        ground (arith, o.bufs_hold.books.partition b, o.bufs_hold.same),
        λ i g here. let out = o.owned.live i b g here in cc,
      )
      at (some g) b inside out =
          let (i, here) = o.owned.kept b g out in
          inr (
            ground (arith, o.bufs_hold.books.partition b, o.bufs_hold.same),
            (i, g, here, λ j h there. o.owned.apart j i b h g there here),
          )

  -- In a debug build, after `run` on a fresh executor has gone any number of turns, no buffer has
  -- been lost and none has been lent twice: each one either stands once in the free list and no
  -- handler receives into it, or is not there and just one handler does. All memory is ready for
  -- slices at any time: initialised, and not written by anybody while a slice is in use.
  pub run_conserves :
      (raw : Option ℕ) (fuel k : ℕ) (e : Executor io)
      → IsFresh listeners conn_handlers buf_count e
      → Safe IsConserved (run debug io net read_header raw fuel k e)
  run_conserves raw fuel k e f =
      Safe-map (Settled (conn_handlers * 2) io net read_header ready) IsConserved _
        (settled raw fuel k e f) Settled-IsConserved
