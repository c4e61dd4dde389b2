-- ===== src/Blob/ConnHandler/InFlight.antt =====
-- A receive that is submitted twice and is still under way when its connection ends.
use hoarder.Base.{
  ℕ, suc, pos, negsuc, ◌-◌, ◌^◌, ◌<◌, ◌≡◌, refl, ap, some, List, [], ◌∷◌, arith, true, done, Build,
  add_u32, get_or-set_self, subst, Option,
}
use hoarder.Error.{errno, is_one_of}
use hoarder.Collections.GenAlloc.Invariant.{Book, generation_at, held_room}
use hoarder.Collections.GenAlloc.Laws.{after_alloc, after_free}
use hoarder.Collections.BufferPool
use hoarder.Collections.BufferPool.{Memory, BufferPool}
use hoarder.Collections.BufferPool.Laws.{Holds, handle, slice_at, get_held, freed, allocated}
use hoarder.Blob.Protocol.{spawned, io_completed, MsgHeader, Fixed, close_fixed, terminate}
use hoarder.Blob.ConnHandler.{
  closing, closed, receiving, RecvPhase, receiving_header, new, transient_errors, buf_size,
  buf_align,
}
use hoarder.Blob.ConnHandler.Effects.{conn, recv_intent, on_end_of_stream}
use hoarder.Blob.ConnHandler.Errors.{on_transient_error}
use hoarder.Blob.ConnHandler.Life.{fresh, serve, serve-opening, process_event-closed}

-- The pool that has taken a buffer back.
abbrev pub freed_pool : BufferPool → ℕ → ℕ → BufferPool
freed_pool pool i next = record pool { allocator = after_free pool.allocator i next }

next_at :
    (pool : BufferPool) (i gen : ℕ) (q : List ℕ) {held : Book} {next : ℕ}
    → Holds buf_size pool q held
    → held i ≡ some gen
    → generation_at (freed_pool pool i next).allocator i ≡ next
unfolding after_free
next_at pool i gen q {held} {next} hs out =
    let (inside, _, _) = held_room q hs.books out in
    get_or-set_self pool.allocator.generation.cells i next 0 (omega (arith, hs.books.table))

module _ (build : Build) (read_header : List ℕ → Option MsgHeader) (mem : Memory)
    (phase : RecvPhase) (socket : Fixed) (i gen offset : ℕ) (pool : BufferPool) (n : ℕ) where
  -- An error that passes, and then the end of the stream.
  serve-twice :
      (q : List ℕ) {held : Book} {next : ℕ}
      → is_one_of (errno (pos (suc n))) transient_errors ≡ true
      → n < 2 ^ 31 - 1
      → Holds buf_size pool q held
      → held i ≡ some gen
      → add_u32 build gen 1 ≡ done next
      → serve build read_header mem
          (io_completed (negsuc n) 0 ∷ io_completed (pos 0) 0 ∷ [])
          (conn (receiving phase) socket i gen offset)
          pool
        ≡ done (
          conn closing socket i gen 0,
          (freed_pool pool i next),
          recv_intent socket i gen offset
              ∷ recv_intent socket i gen offset
              ∷ close_fixed socket
              ∷ [],
        )
  unfolding serve
  serve-twice q {held} {next} passes small hs out up =
      let first =
        on_transient_error build read_header mem phase socket i gen offset
          (fresh build read_header mem pool) 0 n passes small (omega arith) in
      let (second, _) =
        on_end_of_stream build read_header mem phase socket i gen offset
          (fresh build read_header mem pool) 0 q hs out up (omega arith) in
      rw (first, second) refl

  -- A receiving handler that meets an error of the transient list and then the end of the stream
  -- twice, once for each of the two receives that it asked for, comes to its end and asks to be
  -- despawned without a completion of its close. The buffer pool is well formed, the buffer is out
  -- and its generation can still rise.
  pub receive_taken_for_close :
      (q : List ℕ) {held : Book} {next : ℕ}
      → is_one_of (errno (pos (suc n))) transient_errors ≡ true
      → n < 2 ^ 31 - 1
      → Holds buf_size pool q held
      → held i ≡ some gen
      → add_u32 build gen 1 ≡ done next
      → serve build read_header mem
          (io_completed (negsuc n) 0 ∷ io_completed (pos 0) 0 ∷ io_completed (pos 0) 0 ∷ [])
          (conn (receiving phase) socket i gen offset)
          pool
        ≡ done (
          conn closed socket i gen 0,
          (freed_pool pool i next),
          recv_intent socket i gen offset
              ∷ recv_intent socket i gen offset
              ∷ close_fixed socket
              ∷ terminate
              ∷ [],
        )
  unfolding serve
  receive_taken_for_close q {held} {next} passes small hs out up =
      let first =
        on_transient_error build read_header mem phase socket i gen offset
          (fresh build read_header mem pool) 0 n passes small (omega arith) in
      let (second, _) =
        on_end_of_stream build read_header mem phase socket i gen offset
          (fresh build read_header mem pool) 0 q hs out up (omega arith) in
      rw
        (
          first,
          second,
          process_event-closed build read_header mem socket i gen 0 (freed_pool pool i next),
        )
        refl

  -- A new connection takes the one buffer that is free.
  serve-opened :
      (fd : ℕ) (p : BufferPool) (g : ℕ) {book : Book}
      → Holds buf_size p (i ∷ []) book
      → generation_at p.allocator i ≡ g
      → serve build read_header mem (spawned ∷ []) (new fd) p
        ≡ done (
          conn (receiving receiving_header) (record { slot = fd }) i g 0,
          record p { allocator = after_alloc p.allocator },
          recv_intent (record { slot = fd }) i g 0 ∷ [],
        )
  unfolding serve
  serve-opened fd p g hs same = rw (serve-opening build read_header mem fd i [] p hs) (
      ap
        (λ g. done (
          conn (receiving receiving_header) (record { slot = fd }) i g 0,
          record p { allocator = after_alloc p.allocator },
          recv_intent (record { slot = fd }) i g 0 ∷ [],
        ))
        same)

  -- A receive can outlive its buffer: after an error of the transient list and then the end of the
  -- stream a receiving handler has asked for two receives since its last completion and seen one
  -- more, and has given its buffer back; where no other buffer is free, the next connection takes
  -- it, and its handle gives the very slice that the receives were submitted for. The buffer pool
  -- is well formed, the buffer is out and its generation can still rise. The memory of the buffer
  -- is ready for a slice.
  pub receive_outlives_buffer :
      (fd : ℕ) {held : Book} {next : ℕ}
      → is_one_of (errno (pos (suc n))) transient_errors ≡ true
      → n < 2 ^ 31 - 1
      → mem.ready (slice_at pool i) ≡ true
      → Holds buf_size pool [] held
      → held i ≡ some gen
      → add_u32 build gen 1 ≡ done next
      → (pool₁ : BufferPool) × (pool₂ : BufferPool) × (serve build read_header mem
            (io_completed (negsuc n) 0 ∷ io_completed (pos 0) 0 ∷ [])
            (conn (receiving phase) socket i gen offset)
            pool
          ≡ done (
            conn closing socket i gen 0,
            pool₁,
            recv_intent socket i gen offset
                ∷ recv_intent socket i gen offset
                ∷ close_fixed socket
                ∷ [],
          ))
        × (serve build read_header mem (spawned ∷ []) (new fd) pool₁
            ≡ done (
              conn (receiving receiving_header) (record { slot = fd }) i next 0,
              pool₂,
              recv_intent (record { slot = fd }) i next 0 ∷ [],
            ))
        × (BufferPool.get buf_size buf_align build mem pool (handle i gen)
            ≡ done (some (slice_at pool i)))
        × (BufferPool.get buf_size buf_align build mem pool₂ (handle i next)
            ≡ done (some (slice_at pool i)))
  unfolding serve after_alloc after_free
  receive_outlives_buffer fd {held} {next} passes small ready hs out up =
      let (_, hs₁, _) = freed buf_size buf_align build [] i gen hs out up in
      let (_, _, hs₂, got) = allocated buf_size buf_align build i [] hs₁ in
      let same : generation_at (freed_pool pool i next).allocator i ≡ next =
        next_at pool i gen [] hs out in
      let pool₁ : BufferPool = freed_pool pool i next in
      let pool₂ : BufferPool = record pool₁ { allocator = after_alloc pool₁.allocator } in
      let opened = serve-opened fd pool₁ next hs₁ same in
      (
        (freed_pool pool i next),
        record (freed_pool pool i next) {
          allocator = after_alloc (freed_pool pool i next).allocator;
        },
        serve-twice [] passes small hs out up,
        opened,
        (get_held buf_size buf_align build [] mem i gen ready hs out).0,
        subst
            (λ g.
              BufferPool.get buf_size buf_align build mem pool₂ (handle i g)
              ≡ done (some (slice_at pool i)))
            same (got mem ready),
      )
