-- ===== src/Uring/Laws.antt =====
-- `UringIO` as the trait `IO`.
use hoarder.Base.{
  ℕ, ℤ, ◌≡◌, refl, ap, Bool, true, false, not, ◌&&◌, some, List, leb, if◌then◌else◌, Outcome, done,
  panic, undefined, ◌>>=◌,
}
use hoarder.Error.{Result, ok, err, push_error, error_from_i32}
use hoarder.Blob.Executor.Defs.{Iovec, Io}
use hoarder.Uring.Defs.{
  Either, right, left, Ring, map_err, next_completion, enqueue, submit_and_wait, register_files,
  register_buffers,
}

-- What the calls of a ring answer when the kernel refuses: an error with its code.
abbrev pub HasCodes : (ring : Ring) → (ring.Error → ℤ) → Type 0
HasCodes ring code = (e : ring.Error) → ring.raw_os_error e ≡ some (code e)

module _ (ring : Ring) (code : ring.Error → ℤ) where
  abbrev coded : {A : Type 0} → Either ring.Error A → Result A
  coded (right a) = ok a
  coded (left e) = err (error_from_i32 (code e))

  map_err_lem :
      {A : Type 0}
      → HasCodes ring code
      → (r : Either ring.Error A) → map_err ring r ≡ done (coded r)
  unfolding map_err
  map_err_lem codes (right a) = refl
  map_err_lem codes (left e) = rw (codes e) refl

  after_test :
      {A : Type 0} (test : Bool) (x : ring.State × Result A) (s : ring.State)
      (r : Either ring.Error A)
      → HasCodes ring code
      → (if test then done x else (map_err ring r >>= λ got. done (s, got)))
        ≡ done (if test then x else (s, coded r))
  after_test true x s r codes = refl
  after_test false x s r codes = rw (map_err_lem codes r) refl

  -- Where every error of the ring has an OS error code, waiting and registering files and buffers
  -- never panic.
  pub always_answers :
      (s : ring.State) (want nr : ℕ) (bufs : List Iovec)
      → HasCodes ring code
      → ((x : ring.State × Result ℕ) × (submit_and_wait ring s want ≡ done x))
        × ((y : ring.State × Result (Unit {0})) × (register_files ring s nr ≡ done y))
        × ((z : ring.State × Result (Unit {0})) × (register_buffers ring s bufs ≡ done z))
  unfolding submit_and_wait register_files register_buffers
  always_answers s want nr bufs codes =
      let s' = ring.completion_sync s in
      let (s'', answer) = ring.submit_and_wait s' want in
      (
        (
          _,
          after_test (not (ring.need_wakeup s') && leb want (ring.completion_len s'))
              (s', ok (ring.completion_len s')) s'' answer codes,
        ),
        (
          _,
          ap (λ o. o >>= λ r. done ((ring.register_files_sparse s nr).0, r))
              (map_err_lem codes (ring.register_files_sparse s nr).1),
        ),
        (
          _,
          ap (λ o. o >>= λ r. done ((ring.register_buffers s bufs).0, r))
              (map_err_lem codes (ring.register_buffers s bufs).1),
        ),
      )

-- The answer of a call that returns. A panic, which no ring whose errors have codes comes to, is
-- taken for a refusal that leaves the ring as it was.
abbrev pub answer : {S A : Type 0} → S → Outcome (S × Result A) → S × Result A
answer s (done x) = x
answer s (panic p) = (s, err push_error)
answer s undefined = (s, err push_error)

-- `UringIO` as the executor's IO: each operation is what the function of `UringIO` returns.
abbrev pub as_io : Ring → Io
as_io ring = record {
  State = ring.State;
  enqueue = λ s sqe. enqueue ring s sqe;
  submit_and_wait = λ s want. answer s (submit_and_wait ring s want);
  next_completion = λ s. next_completion ring s;
  register_files = λ s nr. answer s (register_files ring s nr);
  register_buffers = λ s bufs. answer s (register_buffers ring s bufs);
  memory = ring.memory;
}
