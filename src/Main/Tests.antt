-- ===== src/Main/Tests.antt =====
-- The program over a ring that grants every call.
use hoarder.Base.{ℤ, ◌≡◌, refl, some, none, List, [], ◌∷◌, true, false, done, debug}
use hoarder.Collections.RingBuffer.Refine.{Models}
use hoarder.Collections.ObjectHandle as Handle
use hoarder.Collections.ObjectPool as Objects
use hoarder.Uring.Defs.{Ring, right, register_files, register_buffers}
use hoarder.Uring.Laws.{as_io}
use hoarder.Blob.Protocol.{spawned}
use hoarder.Blob.TcpServer as Tcp
use hoarder.Blob.Executor.Defs.{Sqe, Executor, queue_0, listen_addr}
use hoarder.Blob.Executor.Setup.{Registers}
use hoarder.Blob.Tests.{read_bytes, net}
use hoarder.Blob.ExecutorTests.{answers}
use hoarder.Blob.StartTests.{granted}
use hoarder.Main.{StartAnswers, start_executor, starts_executor}

abbrev ring : Ring
ring = record {
  State = List Sqe;
  Error = ℤ;
  raw_os_error = λ e. some e;
  build = λ idle entries. right [];
  submission_push = λ s entry. (entry ∷ s, true);
  need_wakeup = λ s. false;
  completion_sync = λ s. s;
  completion_len = λ s. 0;
  completion_next = λ s. (s, none);
  submit_and_wait = λ s want. ([], right 0);
  register_files_sparse = λ s nr. (s, right tt);
  register_buffers = λ s bufs. (s, right tt);
  memory = λ s. record { byte = λ a. 0; ready = λ x. true };
}

ring-Registers : Registers (as_io ring)
unfolding register_files register_buffers
ring-Registers = record { files = λ s n. (s, refl); buffers = λ s bufs. (s, refl) }

abbrev start_answers : StartAnswers
start_answers = record { executor = answers; iovecs = some 32 }

starts_executor_example :
    (e : Executor (as_io ring)) × (h : Handle.ObjectHandle) × (start_executor debug ring net
        read_bytes start_answers
      ≡ done e)
    × Models e.run_queue_0 (record { reason = spawned; handle = h } ∷ [])
    × (e.current_run_queue ≡ queue_0)
    × (Objects.get e.tcp_listener_pool h ≡ done (some (Tcp.new listen_addr 4096)))
starts_executor_example =
    starts_executor debug ring net read_bytes start_answers [] 32 refl refl granted ring-Registers
