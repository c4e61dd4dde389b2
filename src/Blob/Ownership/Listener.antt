-- ===== src/Blob/Ownership/Listener.antt =====
-- hoarder-blob/src/state_machine/tcp_server.rs: the listening socket's machine leaves the buffers
-- alone, and never asks for its end.
use hoarder.Base.{ℕ, ℤ, unwrap, refl, ◌∙◌, not, is_negative, as_u32}
use hoarder.Base.Post.{Safe, Safe-bind, Safe-after, Safe-if, IsDefined, unwrap-IsDefined}
use hoarder.Error.{Result, ok, err}
use hoarder.Blob.Protocol.{
  MachineEvent, spawned, io_completed, MachineIntent, spawn_conn_handler, submit_multishot_accept,
  ExecutorContext, submit_intent,
}
use hoarder.Blob.TcpServer as Tcp
use hoarder.Blob.TcpServer.{TcpServer, TcpServerState, Net}
use hoarder.Blob.Ownership.Release.{IsGentle, Further, submit-Further}

abbrev pub Apart : ExecutorContext → TcpServer × ExecutorContext → Type 0
Apart ctx r = Further ctx r.1

rearmed-Further :
    (s : TcpServer) (ctx : ExecutorContext)
    → IsGentle ctx.intents
    → Safe (Further ctx) (Tcp.multishot_accept s ctx)
unfolding Tcp.multishot_accept
rearmed-Further s ctx gs =
    submit-Further ctx (submit_multishot_accept (record { raw = s.listener_fd })) gs tt

module _ (net : Net) (ctx : ExecutorContext) (gs : IsGentle ctx.intents) where
  opened-Apart : (s : TcpServer) (r : Result (Unit {0})) → Safe (Apart ctx) (Tcp.opened net s ctx r)
  unfolding Tcp.opened
  opened-Apart s (ok u) =
      Safe-bind (Apart ctx) (Further ctx) (Tcp.multishot_accept s ctx) _ (rearmed-Further s ctx gs)
        λ ctx' e. e
  opened-Apart s (err x) = (refl, gs)

  on_accept-Apart :
      (s : TcpServer) (res : ℤ) (flags : ℕ) → Safe (Apart ctx) (Tcp.on_accept net s ctx res flags)
  unfolding Tcp.on_accept
  on_accept-Apart s res flags =
      let spawn : MachineIntent = spawn_conn_handler (record { slot = as_u32 res }) in
      Safe-if (Apart ctx) (is_negative res) _ _ (refl, gs)
        (Safe-bind (Apart ctx) (Further ctx) (submit_intent ctx spawn) _
          (submit-Further ctx spawn gs tt)
          λ ctx' (e, gs').
            Safe-if (Apart ctx) (not (net.more_io flags)) _ _
              (Safe-bind (Apart ctx) (Further ctx') (Tcp.multishot_accept s ctx') _
                (rearmed-Further s ctx' gs') λ ctx'' (e', gs''). (e' ∙ e, gs''))
              (e, gs'))

  listen-IsDefined : (s : TcpServer) → IsDefined (Tcp.listen net s)
  unfolding Tcp.listen
  listen-IsDefined s =
      Safe-after (λ _. Unit) (unwrap (net.parse s.addr)) _ (unwrap-IsDefined (net.parse s.addr))
        λ addr. tt

  pub server-Apart :
      (state : TcpServerState) (event : MachineEvent) (s : TcpServer)
      → Safe (Apart ctx) (Tcp.handle_event net state event s ctx)
  unfolding Tcp.handle_event Tcp.on_spawn
  server-Apart Tcp.init spawned s =
      Safe-after (Apart ctx) (Tcp.listen net s) _ (listen-IsDefined s) λ r. opened-Apart r.0 r.1
  server-Apart Tcp.init (io_completed res flags) s = tt
  server-Apart Tcp.accepting spawned s = tt
  server-Apart Tcp.accepting (io_completed res flags) s = on_accept-Apart s res flags
  server-Apart (Tcp.error x) spawned s = tt
  server-Apart (Tcp.error x) (io_completed res flags) s = (refl, gs)
