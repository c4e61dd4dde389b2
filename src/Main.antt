-- ===== src/Main.antt =====
-- hoarder-blob/src/main.rs: what `main` builds behind its logger, up to the loop of `run`. Threads has
-- the log's thread and the panic hook. The logger's construction, `init_logger` and the two log lines
-- of `main` are not part of it (Log has the functions that they call).
pub mod Threads
mod Tests
use hoarder.Base.{
  ℕ, ℤ, ◌≡◌, ◌%◌, refl, sym, ap, ◌∙◌, arith, Option, some, none, List, [], ◌∷◌, false, Outcome,
  done, ◌>>=◌, Build, ◌⊎◌, subst, some-injective, inl, inr,
}
use hoarder.Error.{Result, ok, err, mem_alloc_fail}
use hoarder.Collections.AlignedBuffers.{AlignedBuffers}
use hoarder.Collections.BufferPool.{unwrap_result}
use hoarder.Collections.ObjectHandle as ObjectHandle
use hoarder.Collections.ObjectPool as ObjectPool
use hoarder.Collections.RingBuffer.Refine.{Models}
use hoarder.Log.Logger.Defs as Logger
use hoarder.Log.Logger.Defs.{Shared}
use hoarder.Log.Logger.System.{start}
use hoarder.Log.Logger.Start.{logger_new_lem}
use hoarder.Uring.Defs as Uring
use hoarder.Uring.Defs.{Ring, right, map_err}
use hoarder.Uring.Laws.{as_io}
use hoarder.Blob.Protocol.{MsgHeader, spawned}
use hoarder.Blob.TcpServer as TcpServer
use hoarder.Blob.TcpServer.{Net}
use hoarder.Blob.Executor.Defs.{Executor, Answers, queue_0, listen_addr}
use hoarder.Blob.Executor.Loop as Loop
use hoarder.Blob.Executor.Construct.{Granted}
use hoarder.Blob.Executor.Setup.{Registers, starts_up}

-- The allocator's answers: the executor's, and the array that `setup` makes.
pub record StartAnswers : Type 0 where
  pub executor : Answers
  pub iovecs : Option ℕ

module _ (build : Build) (ring : Ring) (net : Net) (read_header : List ℕ → Option MsgHeader) where
  -- `UringIO::new(4096, false).unwrap()`, `Executor::new` and `run` up to its loop.
  unfoldable pub start_executor : StartAnswers → Outcome (Executor (as_io ring))
  start_executor answers = do
    made ← Uring.new ring 4096 false
    uring ← unwrap_result made
    executor ← Loop.new build (as_io ring) net read_header answers.executor uring 1 100 100
    ready ← Loop.setup build (as_io ring) net read_header answers.iovecs executor
    Loop.seed_run_queue build (as_io ring) net read_header ready

  -- With a ring of 4096 entries and an executor for one listener and 100 connections with 100
  -- buffers, the part of `main` that builds and runs the executor reaches the loop of `run` where
  -- the allocator grants what it asks for, the ring is built and both calls that register are
  -- granted: the current queue holds the one event that spawns the listener, under a handle that
  -- gives the server for 0.0.0.0:3000. The buffers' address is aligned.
  pub starts_executor :
      (answers : StartAnswers) (uring : ring.State) (ptr : ℕ)
      → ring.build none 4096 ≡ right uring
      → answers.iovecs ≡ some ptr
      → Granted answers.executor 1 100 100
      → Registers (as_io ring)
      → (e : Executor (as_io ring)) × (h : ObjectHandle.ObjectHandle) × (start_executor answers
          ≡ done e)
        × Models e.run_queue_0 (record { reason = spawned; handle = h } ∷ [])
        × (e.current_run_queue ≡ queue_0)
        × (ObjectPool.get e.tcp_listener_pool h ≡ done (some (TcpServer.new listen_addr 4096)))
  unfolding start_executor Uring.new map_err unwrap_result
  starts_executor answers uring ptr built array g registers =
      let (e, e', e'', h, made, set_up, seeded, m, cur, found) =
        starts_up build (as_io ring) net read_header answers.executor uring 1 100 100 ptr g
          registers in
      (e'', h, rw (built, made, array, set_up) seeded, m, cur, found)
