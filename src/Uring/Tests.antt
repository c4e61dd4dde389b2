-- ===== src/Uring/Tests.antt =====
-- A ring in memory, with room for one entry, that completes whatever it is given.
use hoarder.Base.{ℤ, pos, ◌≡◌, refl, true, false, some, none, List, [], ◌∷◌, length, done}
use hoarder.Error.{ok, err, io_error}
use hoarder.Blob.Protocol.{Fixed}
use hoarder.Blob.Executor.Defs.{Sqe, Cqe, close_entry}
use hoarder.Uring.Defs.{right, left, Ring, map_err, submit_and_wait, register_buffers}

record Queues : Type 0 where
  queued : List Sqe
  completed : List Cqe

abbrev ring : Ring
ring = record {
  State = Queues;
  Error = ℤ;
  raw_os_error = λ e. some e;
  build = λ idle entries. right (record { queued = []; completed = [] });
  submission_push = λ s entry. (record s { queued = entry ∷ s.queued }, true);
  need_wakeup = λ s. false;
  completion_sync = λ s. s;
  completion_len = λ s. length s.completed;
  completion_next = λ s. (s, none);
  submit_and_wait = λ s want. (record s { queued = [] }, left (pos 4));
  register_files_sparse = λ s nr. (s, right tt);
  register_buffers = λ s bufs. (s, left (pos 12));
  memory = λ s. record { byte = λ a. 0; ready = λ x. true };
}

abbrev completion : Cqe
completion = record { user_data = 1; result = pos 0; flags = 0 }

abbrev socket : Fixed
socket = record { slot = 3 }

abbrev waiting : Queues
waiting = record { queued = close_entry socket 1 ∷ []; completed = completion ∷ [] }

interrupted_wait :
    submit_and_wait ring waiting 2 ≡ done (record waiting { queued = [] }, err (io_error (pos 4)))
unfolding submit_and_wait map_err
interrupted_wait = refl

-- With a completion there, waiting for one leaves the queued entry where it is.
nothing_submitted : submit_and_wait ring waiting 1 ≡ done (waiting, ok 1)
unfolding submit_and_wait map_err
nothing_submitted = refl

no_buffers : register_buffers ring waiting [] ≡ done (waiting, err (io_error (pos 12)))
unfolding register_buffers map_err
no_buffers = refl
