-- ===== src/Uring/Defs.antt =====
-- `UringIO`, over a ring. An error of the crate has an OS error code or none.
use hoarder.Base.{
  ℕ, ℤ, Bool, not, ◌&&◌, Option, some, none, List, leb, if◌then◌else◌, Outcome, done, ◌>>=◌, unwrap,
}
use hoarder.Error.{Result, ok, err, push_error, error_from_i32}
use hoarder.Collections.BufferPool.{Memory}
use hoarder.Blob.Executor.Defs.{Sqe, Cqe, Iovec}

-- `Result<T, E>` of another crate.
pub data Either {ℓ} (E A : Type ℓ) : Type ℓ where
  right : A → Either E A
  left : E → Either E A

-- The calls of io_uring's `Builder` and `IoUring` that are used. A call on the queue that
-- `submission()` or `completion()` gives is one operation on the ring.
pub record Ring : Type 1 where
  pub State : Type 0
  pub Error : Type 0
  pub raw_os_error : Error → Option ℤ
  pub build : Option ℕ → ℕ → Either Error State
  pub submission_push : State → Sqe → State × Bool
  pub need_wakeup : State → Bool
  pub completion_sync : State → State
  pub completion_len : State → ℕ
  pub completion_next : State → State × Option Cqe
  pub submit_and_wait : State → ℕ → State × Either Error ℕ
  pub register_files_sparse : State → ℕ → State × Either Error (Unit {0})
  pub register_buffers : State → List Iovec → State × Either Error (Unit {0})
  pub memory : State → Memory

module _ (ring : Ring) where
  open ring use {State, Error, raw_os_error}

  -- `map_err(|e| HoarderError::from(e.raw_os_error().unwrap()))`
  unfoldable pub map_err : {A : Type 0} → Either Error A → Outcome (Result A)
  map_err (right a) = done (ok a)
  map_err (left e) = do code ← unwrap (raw_os_error e); done (err (error_from_i32 code))

  unfoldable pub new : ℕ → Bool → Outcome (Result State)
  unfolding map_err
  new entries use_sqpoll = map_err (ring.build (if use_sqpoll then some 2000 else none) entries)

  -- `completion().next()`
  abbrev pub next_completion : State → State × Option Cqe
  next_completion s = ring.completion_next s

  unfoldable pub enqueue : State → Sqe → State × Result (Unit {0})
  enqueue s sqe =
      let (s', pushed) = ring.submission_push s sqe in
      (s', if pushed then ok tt else err push_error)

  unfoldable pub submit_and_wait : State → ℕ → Outcome (State × Result ℕ)
  unfolding map_err
  submit_and_wait s want =
      let s' = ring.completion_sync s in
      if not (ring.need_wakeup s') && leb want (ring.completion_len s')
      then done (s', ok (ring.completion_len s'))
      else let (s'', answer) = ring.submit_and_wait s' want in
        map_err answer >>= λ got. done (s'', got)

  unfoldable pub register_files : State → ℕ → Outcome (State × Result (Unit {0}))
  unfolding map_err
  register_files s nr =
      let (s', answer) = ring.register_files_sparse s nr in map_err answer >>= λ r. done (s', r)

  unfoldable pub register_buffers : State → List Iovec → Outcome (State × Result (Unit {0}))
  unfolding map_err
  register_buffers s bufs =
      let (s', answer) = ring.register_buffers s bufs in map_err answer >>= λ r. done (s', r)
