-- ===== src/Blob/Tests.antt =====
-- The state machines on a small buffer pool.
use hoarder.Base.{
  ℕ, ℤ, pos, negsuc, ◌%◌, ◌≡◌, refl, ◌⊎◌, arith, true, false, Option, none, some, List, [], ◌∷◌,
  done, debug, if◌then◌else◌, is_zero,
}
use hoarder.Error.{io_error, errno, is_one_of}
use hoarder.Collections.Array
use hoarder.Collections.GenAlloc.Defs.{is_valid}
use hoarder.Collections.GenAlloc.Laws.{after_free, after_alloc}
use hoarder.Collections.GenAlloc.Invariant.{enter}
use hoarder.Collections.BufferPool as Buffers
use hoarder.Collections.BufferPool.{Memory, BufferPool}
use hoarder.Collections.BufferPool.Laws.{Holds, handle, slice_at}
use hoarder.Collections.PoolTests.{
  two_pool, two_pool-Holds, lent_pool, lent_book, lent-Holds, both_pool, both-Holds, next_is_one,
}
use hoarder.Blob.Protocol.{
  Fixed, spawned, io_completed, ExecutorContext, MsgHeader, submit_multishot_accept, close_fixed,
  terminate,
}
use hoarder.Blob.ConnHandler.{
  new, closed, init, closing, receiving, receiving_header, transient_errors, logical_errors,
  connection_errors,
}
use hoarder.Blob.ConnHandler.Transitions.{Next, process_event-Next}
use hoarder.Blob.ConnHandler.Effects.{conn, after_close, recv_intent, on_end_of_stream}
use hoarder.Blob.ConnHandler.Life.{serve, connection_returns_buffer}
use hoarder.Blob.ConnHandler.InFlight.{freed_pool, receive_taken_for_close, receive_outlives_buffer}
use hoarder.Blob.TcpServer as Tcp
use hoarder.Blob.TcpServer.{
  Net, SysResult, granted, failed, TcpServer, AddressFamily, inet, init, accepting, error,
}
use hoarder.Blob.TcpServer.Laws as TcpLaws
use hoarder.Blob.TcpServer.Laws.{
  server, FirstFailure, Opened, opens_or_fails, accepts, error_is_final,
}

-- The magic of the header is its first byte, and the command its last.
abbrev pub read_bytes : List ℕ → Option MsgHeader
read_bytes (a ∷ b ∷ c ∷ d ∷ e ∷ []) = some (record { magic = a; cmd = e })
read_bytes _ = none

abbrev memory : Memory
memory = record { byte = λ a. a % 256; ready = λ x. true }

abbrev pub socket : Fixed
socket = record { slot = 3 }

abbrev ctx : ExecutorContext
ctx = record { slots = 16; intents = []; buffers = lent_pool }

abbrev pub header : MsgHeader
header = record { magic = 0; cmd = 4 }

again : is_one_of (errno (pos 11)) transient_errors ≡ true
unfolding is_one_of
again = refl

pub reset_errors :
    (is_one_of (errno (pos 104)) transient_errors ≡ false)
    × (is_one_of (errno (pos 104)) logical_errors ≡ false)
    × (is_one_of (errno (pos 104)) connection_errors ≡ true)
unfolding is_one_of
reset_errors = (refl, refl, refl)

stale_handle : is_valid (after_close ctx socket 1 1).buffers.allocator (handle 1 0).id ≡ done false
unfolding is_valid after_free after_alloc Array.index
stale_handle = refl

process_event-Next_example :
    Next debug 2 (receiving receiving_header) (io_completed (pos 0) 0) closing
process_event-Next_example =
    process_event-Next debug read_bytes memory (conn (receiving receiving_header) socket 1 0 2)
      (conn closing socket 1 0 0) ctx (after_close ctx socket 1 1) (io_completed (pos 0) 0)
      (on_end_of_stream debug read_bytes memory receiving_header socket 1 0 2 ctx 0 (0 ∷ [])
        lent-Holds refl next_is_one (omega arith)).0

-- A network that grants everything but a backlog of 0.
abbrev pub net : Net
net = record {
  SocketAddr = ℕ;
  family = λ a. inet;
  parse = λ s. some 0;
  socket = λ f. granted (pos 5);
  set_reuseaddr = λ fd. granted tt;
  bind = λ fd a. granted tt;
  listen = λ fd backlog. if is_zero (pos backlog) then failed (pos 22) else granted tt;
  more_io = λ flags. is_zero (pos (flags % 2));
}

opens_or_fails_example :
    ((fd : ℤ) × Opened net 0 64 fd
      × (Tcp.process_event net (server init [] 64 (negsuc 0)) ctx spawned
          ≡ done (
            server accepting [] 64 fd,
            TcpLaws.submitted ctx (submit_multishot_accept (record { raw = fd }) ∷ []),
          )))
    ⊎ ((e : ℤ) × FirstFailure net 0 64 e
        × (Tcp.process_event net (server init [] 64 (negsuc 0)) ctx spawned
            ≡ done (server (error (io_error e)) [] 64 (negsuc 0), ctx)))
opens_or_fails_example = opens_or_fails net [] 64 (negsuc 0) ctx 0 refl (omega arith)

error_is_final_example :
    TcpLaws.run net (server accepting [] 64 (pos 5)) ((ctx, negsuc 23, 1) ∷ (ctx, pos 9, 1) ∷ [])
    ≡ done (server (error (io_error (negsuc 23))) [] 64 (pos 5), [])
error_is_final_example = error_is_final net [] 64 (pos 5) ctx 23 1 ((ctx, pos 9, 1) ∷ [])

connection_returns_buffer_example :
    (pool : BufferPool) × (serve debug read_bytes memory
        (spawned
          ∷ io_completed (pos 3) 0
          ∷ io_completed (pos 1) 0
          ∷ io_completed (pos 0) 0
          ∷ io_completed (pos 0) 0
          ∷ [])
        (new 3)
        two_pool
      ≡ done (
        conn closed socket 1 0 0,
        pool,
        recv_intent socket 1 0 0
            ∷ recv_intent socket 1 0 3
            ∷ recv_intent socket 1 0 4
            ∷ close_fixed socket
            ∷ terminate
            ∷ [],
      ))
    × Holds 4096 pool (0 ∷ 1 ∷ []) (enter lent_book 1 none)
connection_returns_buffer_example =
    connection_returns_buffer debug read_bytes memory 3 1 0 0 0 (0 ∷ []) (2 ∷ 0 ∷ []) two_pool
      two_pool-Holds next_is_one (omega arith)

receive_taken_for_close_example :
    serve debug read_bytes memory
      (io_completed (negsuc 10) 0 ∷ io_completed (pos 0) 0 ∷ io_completed (pos 0) 0 ∷ [])
      (conn (receiving receiving_header) socket 1 0 2)
      lent_pool
    ≡ done (
      conn closed socket 1 0 0,
      freed_pool lent_pool 1 1,
      recv_intent socket 1 0 2 ∷ recv_intent socket 1 0 2 ∷ close_fixed socket ∷ terminate ∷ [],
    )
receive_taken_for_close_example =
    receive_taken_for_close debug read_bytes memory receiving_header socket 1 0 2 lent_pool 10
      (0 ∷ []) again (omega arith) lent-Holds refl next_is_one

receive_outlives_buffer_example :
    (pool₁ : BufferPool) × (pool₂ : BufferPool) × (serve debug read_bytes memory
        (io_completed (negsuc 10) 0 ∷ io_completed (pos 0) 0 ∷ [])
        (conn (receiving receiving_header) socket 1 0 2)
        both_pool
      ≡ done (
        conn closing socket 1 0 0,
        pool₁,
        recv_intent socket 1 0 2 ∷ recv_intent socket 1 0 2 ∷ close_fixed socket ∷ [],
      ))
    × (serve debug read_bytes memory (spawned ∷ []) (new 8) pool₁
        ≡ done (
          conn (receiving receiving_header) (record { slot = 8 }) 1 1 0,
          pool₂,
          recv_intent (record { slot = 8 }) 1 1 0 ∷ [],
        ))
    × (Buffers.get 4096 4096 debug memory both_pool (handle 1 0)
        ≡ done (some (slice_at both_pool 1)))
    × (Buffers.get 4096 4096 debug memory pool₂ (handle 1 1) ≡ done (some (slice_at both_pool 1)))
receive_outlives_buffer_example =
    receive_outlives_buffer debug read_bytes memory receiving_header socket 1 0 2 both_pool 10 8
      again (omega arith) refl both-Holds refl next_is_one
