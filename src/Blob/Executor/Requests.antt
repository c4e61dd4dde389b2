-- ===== src/Blob/Executor/Requests.antt =====
-- How many connection handlers the machine of an event asks for.
use hoarder.Base.{
  ℕ, ◌≤◌, ◌≡◌, refl, arith, ℤ, not, Option, none, some, List, Build, is_negative, as_u32, ◌==◌,
}
use hoarder.Base.Post.{Post, Post-bind, Post-after, Post-if}
use hoarder.Error.{Result, ok, err}
use hoarder.Collections.ObjectHandle as ObjectHandle
use hoarder.Collections.ObjectPool as ObjectPool
use hoarder.Blob.Protocol.{
  MachineEvent, spawned, io_completed, MachineIntent, spawn_conn_handler, submit_multishot_accept,
  ExecutorContext, submit_intent, MsgHeader,
}
use hoarder.Blob.ConnHandler as Conn
use hoarder.Blob.ConnHandler.{ConnHandler}
use hoarder.Blob.TcpServer as Tcp
use hoarder.Blob.TcpServer.{TcpServer, TcpServerState, Net}
use hoarder.Blob.Executor.Defs.{Io, Executor, tcp_server_id, conn_handler_id}
use hoarder.Blob.Executor.Dispatch.{context, deliver, deliver_tcp, deliver_conn}
use hoarder.Blob.Executor.Intents.{
  requests, allowance, Asks, plain, submit_intent-Asks, handler-requests,
}

abbrev Within : ℕ → TcpServer × ExecutorContext → Type 0
Within n r = requests r.1.intents ≤ n

rearmed-Asks :
    (n : ℕ) (s : TcpServer) (ctx : ExecutorContext)
    → Asks n ctx
    → Post (Asks n) (Tcp.multishot_accept s ctx)
unfolding Tcp.multishot_accept
rearmed-Asks n s ctx e =
    plain n ctx (submit_multishot_accept (record { raw = s.listener_fd })) refl e

module _ (net : Net) where
  opened-Within :
      (s : TcpServer) (ctx : ExecutorContext) (r : Result (Unit {0}))
      → Asks 0 ctx
      → Post (Within 0) (Tcp.opened net s ctx r)
  unfolding Tcp.opened
  opened-Within s ctx (ok u) e =
      Post-bind (Within 0) (Asks 0) (Tcp.multishot_accept s ctx) _ (rearmed-Asks 0 s ctx e)
        λ ctx' e'. omega arith
  opened-Within s ctx (err x) e = omega arith

  on_spawn-Within :
      (s : TcpServer) (ctx : ExecutorContext)
      → Asks 0 ctx
      → Post (Within 0) (Tcp.on_spawn net s ctx)
  unfolding Tcp.on_spawn
  on_spawn-Within s ctx e =
      Post-after (Within 0) (Tcp.listen net s) _ λ r. opened-Within r.0 ctx r.1 e

  on_accept-Within :
      (s : TcpServer) (ctx : ExecutorContext) (res : ℤ) (flags : ℕ)
      → Asks 0 ctx
      → Post (Within 1) (Tcp.on_accept net s ctx res flags)
  unfolding Tcp.on_accept
  on_accept-Within s ctx res flags e =
      let spawn : MachineIntent = spawn_conn_handler (record { slot = as_u32 res }) in
      Post-if (Within 1) (is_negative res) _ _ (omega arith) (
        Post-bind (Within 1) (Asks 1) (submit_intent ctx spawn) _ (submit_intent-Asks 0 ctx spawn e)
          λ ctx' e'.
            Post-if (Within 1) (not (net.more_io flags)) _ _
              (Post-bind (Within 1) (Asks 1) (Tcp.multishot_accept s ctx') _
                (rearmed-Asks 1 s ctx' e') λ ctx'' e''. omega arith)
              (omega arith))

  server-requests :
      (state : TcpServerState) (event : MachineEvent) (s : TcpServer) (ctx : ExecutorContext)
      → Asks 0 ctx
      → Post (Within (allowance event)) (Tcp.handle_event net state event s ctx)
  unfolding Tcp.handle_event
  server-requests Tcp.init spawned s ctx e = on_spawn-Within s ctx e
  server-requests Tcp.init (io_completed res flags) s ctx e = tt
  server-requests Tcp.accepting spawned s ctx e = tt
  server-requests Tcp.accepting (io_completed res flags) s ctx e =
      on_accept-Within s ctx res flags e
  server-requests (Tcp.error x) spawned s ctx e = tt
  server-requests (Tcp.error x) (io_completed res flags) s ctx e = omega arith

module _ (build : Build) (io : Io) (net : Net) (read_header : List ℕ → Option MsgHeader) where
  -- Delivering an event leaves the queues alone and asks for no more handlers than the event allows.
  pub record Delivered (reason : MachineEvent) (e : Executor io)
      (r : Executor io × List MachineIntent) : Type 0 where
    pub kept_0 : r.0.run_queue_0 ≡ e.run_queue_0
    pub kept_1 : r.0.run_queue_1 ≡ e.run_queue_1
    pub kept : r.0.current_run_queue ≡ e.current_run_queue
    pub few : requests r.1 ≤ allowance reason

  deliver_tcp-Delivered :
      (e : Executor io) (h : ObjectHandle.ObjectHandle) (reason : MachineEvent)
      (found : Option TcpServer)
      → Post (Delivered reason e) (deliver_tcp build io net read_header e h reason found)
  unfolding deliver_tcp Tcp.process_event
  deliver_tcp-Delivered e h reason none = record {
    kept_0 = refl;
    kept_1 = refl;
    kept = refl;
    few = omega arith;
  }
  deliver_tcp-Delivered e h reason (some listener) =
      Post-bind (Delivered reason e) (Within (allowance reason))
        (Tcp.handle_event net listener.state reason listener (context build io net read_header e)) _
        (server-requests net listener.state reason listener (context build io net read_header e)
          refl)
        λ r few.
          Post-after (Delivered reason e) (ObjectPool.write_back e.tcp_listener_pool h r.0) _
            λ pool. record { kept_0 = refl; kept_1 = refl; kept = refl; few = few }

  deliver_conn-Delivered :
      (e : Executor io) (h : ObjectHandle.ObjectHandle) (reason : MachineEvent)
      (found : Option ConnHandler)
      → Post (Delivered reason e) (deliver_conn build io net read_header e h reason found)
  unfolding deliver_conn
  deliver_conn-Delivered e h reason none = record {
    kept_0 = refl;
    kept_1 = refl;
    kept = refl;
    few = omega arith;
  }
  deliver_conn-Delivered e h reason (some handler) =
      Post-bind (Delivered reason e) (λ r. Asks 0 r.1)
        (Conn.process_event build read_header (io.memory e.io_state) handler
          (context build io net read_header e) reason)
        _
        (handler-requests 0 build read_header (io.memory e.io_state) handler
          (context build io net read_header e) reason refl)
        λ r none_asked.
          Post-after (Delivered reason e) (ObjectPool.write_back e.conn_handler_pool h r.0) _
            λ pool. record {
              kept_0 = refl;
              kept_1 = refl;
              kept = refl;
              few = omega (arith, none_asked);
            }

  pub deliver-Delivered :
      (e : Executor io) (h : ObjectHandle.ObjectHandle) (reason : MachineEvent)
      → Post (Delivered reason e) (deliver build io net read_header e h reason)
  unfolding deliver
  deliver-Delivered e h reason =
      Post-if (Delivered reason e) (ObjectHandle.pool_id h == tcp_server_id) _ _
        (Post-after (Delivered reason e) (ObjectPool.get e.tcp_listener_pool h) _
          λ found. deliver_tcp-Delivered e h reason found)
        (Post-if (Delivered reason e) (ObjectHandle.pool_id h == conn_handler_id) _ _
          (Post-after (Delivered reason e) (ObjectPool.get e.conn_handler_pool h) _
            λ found. deliver_conn-Delivered e h reason found)
          tt)
