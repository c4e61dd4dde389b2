-- ===== src/Blob/TcpServer/Laws.antt =====
-- What the listening socket's machine does: opening, accepting, and the state after an error.
use hoarder.Base.{
  ℕ, ℤ, pos, negsuc, ◌+◌, ◌<◌, ◌≡◌, refl, some, List, [], ◌∷◌, ◌++◌, arith, ◌⊎◌, inl, inr,
  if◌then◌else◌, Outcome, done, ◌>>=◌, length, length-append, append_assoc,
}
use hoarder.Error.{io_error, ok, err}
use hoarder.Blob.Protocol.{
  spawned, io_completed, MachineIntent, spawn_conn_handler, submit_multishot_accept,
  ExecutorContext, submit_intent_lem,
}
use hoarder.Blob.TcpServer.{
  Net, SysResult, granted, failed, TcpServer, TcpServerState, init, accepting, error, try_io,
  open_socket, listen, opened, on_spawn, on_accept, handle_event, process_event, multishot_accept,
}

abbrev pub server : TcpServerState → List ℕ → ℕ → ℤ → TcpServer
server state addr backlog fd = record {
  state = state;
  addr = addr;
  backlog = backlog;
  listener_fd = fd;
}

abbrev pub submitted : ExecutorContext → List MachineIntent → ExecutorContext
submitted ctx more = record ctx { intents = ctx.intents ++ more }

-- Which call fails first when the socket is opened.
pub data FirstFailure (net : Net) (a : net.SocketAddr) (backlog : ℕ) (e : ℤ) : Type 0 where
  at_socket : net.socket (net.family a) ≡ failed e → FirstFailure net a backlog e
  at_reuse :
      (fd : ℤ)
      → net.socket (net.family a) ≡ granted fd
      → net.set_reuseaddr fd ≡ failed e
      → FirstFailure net a backlog e
  at_bind :
      (fd : ℤ)
      → net.socket (net.family a) ≡ granted fd
      → net.set_reuseaddr fd ≡ granted tt
      → net.bind fd a ≡ failed e
      → FirstFailure net a backlog e
  at_listen :
      (fd : ℤ)
      → net.socket (net.family a) ≡ granted fd
      → net.set_reuseaddr fd ≡ granted tt
      → net.bind fd a ≡ granted tt
      → net.listen fd backlog ≡ failed e
      → FirstFailure net a backlog e

-- All four calls are granted.
abbrev pub Opened : (net : Net) (a : net.SocketAddr) → ℕ → ℤ → Type 0
Opened net a backlog fd =
    (net.socket (net.family a) ≡ granted fd)
    × (net.set_reuseaddr fd ≡ granted tt)
    × (net.bind fd a ≡ granted tt)
    × (net.listen fd backlog ≡ granted tt)

SysResult-cases :
    {A : Type 0} (r : SysResult A) → ((x : A) × (r ≡ granted x)) ⊎ ((e : ℤ) × (r ≡ failed e))
SysResult-cases (granted x) = inl (x, refl)
SysResult-cases (failed e) = inr (e, refl)

open_socket_cases :
    (net : Net) (a : net.SocketAddr) (backlog : ℕ)
    → ((fd : ℤ) × Opened net a backlog fd × (open_socket net a backlog ≡ ok fd))
      ⊎ ((e : ℤ) × FirstFailure net a backlog e × (open_socket net a backlog ≡ err (io_error e)))
unfolding open_socket
open_socket_cases net a backlog = elim (SysResult-cases (net.socket (net.family a))) [
  | inr (e, es) ↦ inr (e, at_socket es, rw (es, try_io))
  | inl (fd, es) ↦ elim (SysResult-cases (net.set_reuseaddr fd)) [
    | inr (e, er) ↦ inr (e, at_reuse fd es er, rw (es, try_io, er))
    | inl (u, er) ↦ elim (SysResult-cases (net.bind fd a)) [
      | inr (e, eb) ↦ inr (e, at_bind fd es er eb, ground arith)
      | inl (v, eb) ↦ elim (SysResult-cases (net.listen fd backlog)) [
        | inr (e, el) ↦ inr (e, at_listen fd es er eb el, ground arith)
        | inl (w, el) ↦ inl (fd, (es, er, eb, el), ground arith)
      ]
    ]
  ]
]

module _ (net : Net) (addr : List ℕ) (backlog : ℕ) (fd : ℤ) (ctx : ExecutorContext) where
  -- With an address that parses and room for an intent, the spawn event opens the listening socket.
  -- If all four system calls are granted, the server accepts on the new descriptor and asks for it;
  -- otherwise it keeps the error of the first call that failed and its old descriptor, and submits
  -- nothing.
  pub opens_or_fails :
      (a : net.SocketAddr)
      → net.parse addr ≡ some a
      → length ctx.intents < ctx.slots
      → ((new_fd : ℤ) × Opened net a backlog new_fd
          × (process_event net (server init addr backlog fd) ctx spawned
              ≡ done (
                server accepting addr backlog new_fd,
                submitted ctx (submit_multishot_accept (record { raw = new_fd }) ∷ []),
              )))
        ⊎ ((e : ℤ) × FirstFailure net a backlog e
            × (process_event net (server init addr backlog fd) ctx spawned
                ≡ done (server (error (io_error e)) addr backlog fd, ctx)))
  unfolding process_event handle_event on_spawn listen opened multishot_accept
  opens_or_fails a parsed room = elim (open_socket_cases net a backlog) [
    | inl (new_fd, calls, e) ↦ inl (
      new_fd,
      calls,
      rw (
        parsed,
        e,
        submit_intent_lem ctx (submit_multishot_accept (record { raw = new_fd })) room,
      ),
    )
    | inr (x, first, e) ↦ inr (x, first, rw (parsed, e))
  ]

  -- A connection that was accepted gets a handler; if the multishot request has ended, it is armed
  -- again on the same descriptor. The server itself stays as it is. There is room for two intents.
  pub accepts :
      (n flags : ℕ)
      → length ctx.intents + 1 < ctx.slots
      → process_event net (server accepting addr backlog fd) ctx (io_completed (pos n) flags)
        ≡ done (
          server accepting addr backlog fd,
          submitted ctx (
              spawn_conn_handler (record { slot = n })
              ∷ (if net.more_io flags
                  then []
                  else submit_multishot_accept (record { raw = fd }) ∷ [])),
        )
  unfolding process_event handle_event on_accept multishot_accept
  accepts n flags room =
      let spawns = spawn_conn_handler (record { slot = n }) in
      let rearms = submit_multishot_accept (record { raw = fd }) in
      ground (
        arith,
        submit_intent_lem ctx spawns,
        submit_intent_lem (submitted ctx (spawns ∷ [])) rearms,
        length-append ctx.intents (spawns ∷ []),
        append_assoc ctx.intents (spawns ∷ []) (rearms ∷ []),
      )

-- The events that follow, each handled with a context of its own.
pub run :
    Net → TcpServer → List (ExecutorContext × ℤ × ℕ) → Outcome (TcpServer × List MachineIntent)
run net s [] = done (s, [])
run net s ((ctx, res, flags) ∷ events) = do
  (s', ctx') ← process_event net s (record ctx { intents = [] }) (io_completed res flags)
  (s'', rest) ← run net s' events
  done (s'', ctx'.intents ++ rest)

-- A completion with an error is the last thing that an accepting server acts on: it keeps that
-- error, and whatever completions follow it submits nothing more, so it never accepts again.
pub error_is_final :
    (net : Net) (addr : List ℕ) (backlog : ℕ) (fd : ℤ) (ctx : ExecutorContext) (n flags : ℕ)
    (events : List (ExecutorContext × ℤ × ℕ))
    → run net (server accepting addr backlog fd) ((ctx, negsuc n, flags) ∷ events)
      ≡ done (server (error (io_error (negsuc n))) addr backlog fd, [])
unfolding run process_event handle_event on_accept
error_is_final net addr backlog fd ctx n flags events = rw (stays events)
  where
    stays :
        (events : List (ExecutorContext × ℤ × ℕ))
        → run net (server (error (io_error (negsuc n))) addr backlog fd) events
          ≡ done (server (error (io_error (negsuc n))) addr backlog fd, [])
    stays [] = refl
    stays ((ctx', res, flags') ∷ events') = rw (stays events')
