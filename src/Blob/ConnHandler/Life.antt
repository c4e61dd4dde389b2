-- ===== src/Blob/ConnHandler/Life.antt =====
-- A whole connection, from the event that spawns its handler to the one that ends it. Every event
-- has a context of its own, with the buffer pool that the last one left.
use hoarder.Base.{
  ℕ, suc, pos, ◌+◌, ◌≤◌, ◌<◌, ◌≡◌, refl, Option, none, some, List, [], ◌∷◌, ◌++◌, arith, Outcome,
  done, ◌>>=◌, Build, add_u32,
}
use hoarder.Collections.GenAlloc.Invariant.{Book, enter, generation_at}
use hoarder.Collections.GenAlloc.Laws.{after_alloc, after_free}
use hoarder.Collections.BufferPool.{Memory, BufferPool}
use hoarder.Collections.BufferPool.Laws.{Holds, allocated}
use hoarder.Blob.Protocol.{
  MachineEvent, spawned, io_completed, MachineIntent, ExecutorContext, submit_intent_lem, MsgHeader,
  Fixed, header_size, close_fixed, terminate,
}
use hoarder.Blob.ConnHandler.{
  ConnHandler, closing, closed, receiving, receiving_header, new, on_init, start, on_closing, recv,
  handle_event, process_event, buf_size, buf_align,
}
use hoarder.Blob.ConnHandler.Effects.{conn, recv_intent, on_header_part, on_end_of_stream}

module _ (build : Build) (read_header : List ℕ → Option MsgHeader) (mem : Memory) where
  abbrev pub fresh : BufferPool → ExecutorContext
  fresh pool = record { slots = 16; intents = []; buffers = pool }

  -- The handler of one connection, event by event: what it has become, the pool, and the intents.
  unfoldable pub serve :
      List MachineEvent
      → ConnHandler
      → BufferPool
      → Outcome (ConnHandler × BufferPool × List MachineIntent)
  serve [] c pool = done (c, pool, [])
  serve (event ∷ events) c pool = do
    (c', ctx) ← process_event build read_header mem c (fresh pool) event
    (c'', pool', intents) ← serve events c' ctx.buffers
    done (c'', pool', ctx.intents ++ intents)

  -- Receives of so many bytes, less one each.
  abbrev pub chunk_events : ℕ → List ℕ → List MachineEvent
  chunk_events flags [] = []
  chunk_events flags (n ∷ ns) = io_completed (pos (suc n)) flags ∷ chunk_events flags ns

  abbrev pub received_bytes : ℕ → List ℕ → ℕ
  received_bytes offset [] = offset
  received_bytes offset (n ∷ ns) = received_bytes (offset + suc n) ns

  -- What the handler asks for after each of them.
  abbrev pub receives : Fixed → ℕ → ℕ → ℕ → List ℕ → List MachineIntent
  receives socket i gen offset [] = []
  receives socket i gen offset (n ∷ ns) =
      recv_intent socket i gen (offset + suc n) ∷ receives socket i gen (offset + suc n) ns

  received_bytes-grows : (offset : ℕ) (ns : List ℕ) → offset ≤ received_bytes offset ns
  received_bytes-grows offset [] = omega arith
  received_bytes-grows offset (n ∷ ns) = omega (arith, received_bytes-grows (offset + suc n) ns)

  serve-chunks :
      (socket : Fixed) (i gen flags : ℕ) (pool : BufferPool) (rest : List MachineEvent) (offset : ℕ)
      (ns : List ℕ) (c : ConnHandler) (pool' : BufferPool) (intents : List MachineIntent)
      → received_bytes offset ns < header_size
      → serve rest (conn (receiving receiving_header) socket i gen (received_bytes offset ns)) pool
        ≡ done (c, pool', intents)
      → serve
          (chunk_events flags ns ++ rest)
          (conn (receiving receiving_header) socket i gen offset)
          pool
        ≡ done (c, pool', receives socket i gen offset ns ++ intents)
  unfolding serve
  serve-chunks socket i gen flags pool rest offset [] c pool' intents part e = e
  serve-chunks socket i gen flags pool rest offset (n ∷ ns) c pool' intents part e =
      let got =
        on_header_part build read_header mem receiving_header socket i gen offset (fresh pool) flags
          n (omega (arith, received_bytes-grows (offset + suc n) ns)) (omega arith) in
      let tail =
        serve-chunks socket i gen flags pool rest (offset + suc n) ns c pool' intents part e in
      rw (got, tail) refl

  pub serve-opening :
      (fd i : ℕ) (q : List ℕ) (pool : BufferPool) {held : Book}
      → Holds buf_size pool (i ∷ q) held
      → process_event build read_header mem (new fd) (fresh pool) spawned
        ≡ done (
          conn
              (receiving receiving_header)
              (record { slot = fd })
              i
              (generation_at pool.allocator i)
              0,
          record {
            slots = 16;
            intents = recv_intent (record { slot = fd }) i (generation_at pool.allocator i) 0 ∷ [];
            buffers = record pool { allocator = after_alloc pool.allocator };
          },
        )
  unfolding new process_event handle_event on_init start recv
  serve-opening fd i q pool hs =
      let (e, _, _, _) = allocated buf_size buf_align build i q hs in
      rw
        (
          e,
          submit_intent_lem
              (record {
                slots = 16;
                intents = [];
                buffers = record pool { allocator = after_alloc pool.allocator };
              })
              (recv_intent (record { slot = fd }) i (generation_at pool.allocator i) 0)
              (omega arith),
        )
        refl

  pub process_event-closed :
      (socket : Fixed) (i gen flags : ℕ) (pool : BufferPool)
      → process_event build read_header mem
          (conn closing socket i gen 0)
          (fresh pool)
          (io_completed (pos 0) flags)
        ≡ done (
          conn closed socket i gen 0,
          record { slots = 16; intents = terminate ∷ []; buffers = pool },
        )
  unfolding process_event handle_event on_closing
  process_event-closed socket i gen flags pool =
      rw (submit_intent_lem (fresh pool) terminate (omega arith)) refl

  serve-ending :
      (socket : Fixed) (i gen offset flags flags' : ℕ) (q : List ℕ) (pool : BufferPool)
      {held : Book} {next : ℕ}
      → Holds buf_size pool q held
      → held i ≡ some gen
      → add_u32 build gen 1 ≡ done next
      → serve
          (io_completed (pos 0) flags ∷ io_completed (pos 0) flags' ∷ [])
          (conn (receiving receiving_header) socket i gen offset)
          pool
        ≡ done (
          conn closed socket i gen 0,
          record pool { allocator = after_free pool.allocator i next },
          close_fixed socket ∷ terminate ∷ [],
        )
  unfolding serve
  serve-ending socket i gen offset flags flags' q pool {held} {next} hs out up =
      let (e, _) =
        on_end_of_stream build read_header mem receiving_header socket i gen offset (fresh pool)
          flags q hs out up (omega arith) in
      rw
        (
          e,
          process_event-closed socket i gen flags'
              (record pool { allocator = after_free pool.allocator i next }),
        )
        refl

  -- A connection that sends fewer than five bytes, in any pieces, and then ends comes to its end:
  -- on the spawn event, a completion for each piece, the end of the stream and the completion of
  -- the close, each in a context of its own, its handler runs to the closed state and asks in turn
  -- to receive at the start of its buffer, behind each piece, to close the socket and to be
  -- despawned; the buffer that it took is free again, last in line, and the pool is well formed.
  -- The pool is well formed with a buffer free whose generation can still rise.
  pub connection_returns_buffer :
      (fd i flags flags' flags'' : ℕ) (q ns : List ℕ) (pool : BufferPool) {held : Book} {next : ℕ}
      → Holds buf_size pool (i ∷ q) held
      → add_u32 build (generation_at pool.allocator i) 1 ≡ done next
      → received_bytes 0 ns < header_size
      → (pool' : BufferPool) × (serve
            (spawned
              ∷ (chunk_events flags ns
                  ++ (io_completed (pos 0) flags' ∷ io_completed (pos 0) flags'' ∷ [])))
            (new fd)
            pool
          ≡ done (
            conn closed (record { slot = fd }) i (generation_at pool.allocator i) 0,
            pool',
            recv_intent (record { slot = fd }) i (generation_at pool.allocator i) 0
                ∷ (receives (record { slot = fd }) i (generation_at pool.allocator i) 0 ns
                    ++ (close_fixed (record { slot = fd }) ∷ terminate ∷ [])),
          ))
        × Holds buf_size pool'
            (q ++ (i ∷ []))
            (enter (enter held i (some (generation_at pool.allocator i))) i none)
  unfolding serve
  connection_returns_buffer fd i flags flags' flags'' q ns pool {held} {next} hs up part =
      let socket : Fixed = record { slot = fd } in
      let gen : ℕ = generation_at pool.allocator i in
      let pool₁ : BufferPool = record pool { allocator = after_alloc pool.allocator } in
      let (_, _, hs₁, _) = allocated buf_size buf_align build i q hs in
      let out : enter held i (some gen) i ≡ some gen = ground arith in
      let ending =
        serve-ending socket i gen (received_bytes 0 ns) flags' flags'' q pool₁ hs₁ out up in
      let middle =
        serve-chunks socket i gen flags pool₁
          (io_completed (pos 0) flags' ∷ io_completed (pos 0) flags'' ∷ []) 0 ns _ _ _ part
          ending in
      let (_, hs₂) =
        on_end_of_stream build read_header mem receiving_header socket i gen (received_bytes 0 ns)
          (fresh pool₁) flags' q hs₁ out up (omega arith) in
      (
        record pool₁ { allocator = after_free pool₁.allocator i next },
        rw (serve-opening fd i q pool hs, middle) refl,
        hs₂,
      )
