-- ===== src/Blob/TcpServer.antt =====
-- hoarder-blob/src/state_machine/tcp_server.rs: the state machine of the listening socket.
-- Parameters: `SocketAddr::from_str`, the system calls of rustix, each with what it answers, and
-- io_uring's `more`, which tells whether a multishot request goes on.
pub mod Laws
use hoarder.Base.{
  ℕ, ℤ, pos, negsuc, Bool, true, false, Option, none, some, List, if◌then◌else◌, is_negative,
  as_u32, Outcome, done, panic, unreachable_code, unwrap, ◌>>=◌, not,
}
use hoarder.Error.{HoarderError, io_error, error_from_i32, Result, ok, err}
use hoarder.Blob.Protocol.{
  Fixed, Fd, MachineEvent, spawned, io_completed, MachineIntent, spawn_conn_handler,
  submit_multishot_accept, ExecutorContext, submit_intent,
}

pub data AddressFamily : Type 0 where
  inet inet6 : AddressFamily

-- A system call grants a value or fails with a raw errno.
pub data SysResult {ℓ} (A : Type ℓ) : Type ℓ where
  granted : A → SysResult A
  failed : ℤ → SysResult A

pub record Net : Type 1 where
  pub SocketAddr : Type 0
  pub family : SocketAddr → AddressFamily
  pub parse : List ℕ → Option SocketAddr
  pub socket : AddressFamily → SysResult ℤ
  pub set_reuseaddr : ℤ → SysResult (Unit {0})
  pub bind : ℤ → SocketAddr → SysResult (Unit {0})
  pub listen : ℤ → ℕ → SysResult (Unit {0})
  pub more_io : ℕ → Bool

pub data TcpServerState : Type 0 where
  init accepting : TcpServerState
  error : HoarderError → TcpServerState

pub record TcpServer : Type 0 where
  pub state : TcpServerState
  pub addr : List ℕ
  pub backlog : ℕ
  pub listener_fd : ℤ

unfoldable pub new : List ℕ → ℕ → TcpServer
new addr backlog = record { state = init; addr = addr; backlog = backlog; listener_fd = negsuc 0 }

-- `.map_err(|e| HoarderError::IoError(e.raw_os_error()))?` before what follows
abbrev pub try_io {ℓ κ} : {A : Type ℓ} {B : Type κ} → SysResult A → (A → Result B) → Result B
try_io (granted a) f = f a
try_io (failed e) f = err (io_error e)

unfoldable pub multishot_accept : TcpServer → ExecutorContext → Outcome ExecutorContext
multishot_accept s ctx =
    submit_intent ctx (submit_multishot_accept (record { raw = s.listener_fd }))

module _ (net : Net) where
  open net use {parse, family, socket, set_reuseaddr, bind, listen as listen_on, more_io}

  -- The four system calls of `listen`; dropping the descriptor on the way out closes it.
  unfoldable pub open_socket : net.SocketAddr → ℕ → Result ℤ
  open_socket addr backlog = try_io (socket (family addr)) λ fd.
      try_io (set_reuseaddr fd)
        λ _. try_io (bind fd addr) λ _. try_io (listen_on fd backlog) λ _. ok fd

  -- `self.listener_fd = fd.into_raw_fd(); Ok(())`
  unfoldable pub keep_fd : TcpServer → Result ℤ → TcpServer × Result (Unit {0})
  keep_fd s (ok fd) = (record s { listener_fd = fd }, ok tt)
  keep_fd s (err e) = (s, err e)

  -- The server and the result of `listen`; the descriptor is kept only if every call succeeded.
  unfoldable pub listen : TcpServer → Outcome (TcpServer × Result (Unit {0}))
  unfolding open_socket keep_fd
  listen s = do addr ← unwrap (parse s.addr); done (keep_fd s (open_socket addr s.backlog))

  -- `self.listen().and_then(|_| Ok(self.multishot_accept(ctx)))` and the match on its result.
  unfoldable pub opened :
      TcpServer → ExecutorContext → Result (Unit {0}) → Outcome (TcpServer × ExecutorContext)
  unfolding multishot_accept
  opened s ctx (ok u) = do
    ctx' ← multishot_accept s ctx
    done (record s { state = accepting }, ctx')
  opened s ctx (err e) = done (record s { state = error e }, ctx)

  unfoldable pub on_spawn : TcpServer → ExecutorContext → Outcome (TcpServer × ExecutorContext)
  unfolding listen opened
  on_spawn s ctx = do (s', r) ← listen s; opened s' ctx r

  unfoldable pub on_accept :
      TcpServer → ExecutorContext → ℤ → ℕ → Outcome (TcpServer × ExecutorContext)
  unfolding multishot_accept
  on_accept s ctx res flags =
      if is_negative res then done (record s { state = error (error_from_i32 res) }, ctx) else (do
        ctx' ← submit_intent ctx (spawn_conn_handler (record { slot = as_u32 res }))
        if not (more_io flags)
            then (do ctx'' ← multishot_accept s ctx'; done (s, ctx''))
            else done (s, ctx'))

  -- The match of `process_event` on the event and the state.
  unfoldable pub handle_event :
      TcpServerState
      → MachineEvent
      → TcpServer
      → ExecutorContext
      → Outcome (TcpServer × ExecutorContext)
  unfolding on_spawn on_accept
  handle_event init spawned s ctx = on_spawn s ctx
  handle_event accepting (io_completed res flags) s ctx = on_accept s ctx res flags
  handle_event (error e) (io_completed res flags) s ctx = done (s, ctx)
  handle_event _ _ s ctx = panic unreachable_code

  unfoldable pub process_event :
      TcpServer → ExecutorContext → MachineEvent → Outcome (TcpServer × ExecutorContext)
  unfolding handle_event
  process_event s ctx event = handle_event s.state event s ctx
