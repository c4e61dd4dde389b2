-- ===== src/Blob/Ownership/Events.antt =====
-- hoarder-blob/src/executor/mod.rs: an event of the queue, with the intents that its machine submits,
-- against the owners of the buffers.
use hoarder.Base.{
  ℕ, refl, Bool-cases, ◌≡◌, ap, ◌∙◌, subst, Option, none, some, List, [], ◌∷◌, ◌⊎◌, inl, inr, debug,
  ◌==◌, false, sym,
}
use hoarder.Base.Post.{Safe, Safe-bind, Safe-if}
use hoarder.Collections.ObjectHandle
use hoarder.Collections.ObjectHandle.{ObjectHandle}
use hoarder.Collections.ObjectPool
use hoarder.Collections.ObjectPool.Laws.{IsHeld, slot_at}
use hoarder.Collections.ObjectPool.Posts.{Answer, get-Answer, Written, write_back-Written}
use hoarder.Blob.Protocol.{MachineEvent, MachineIntent, terminate, ExecutorContext, MsgHeader}
use hoarder.Blob.ConnHandler as Conn
use hoarder.Blob.ConnHandler.{ConnHandler, buf_size, buf_align}
use hoarder.Blob.TcpServer as Tcp
use hoarder.Blob.TcpServer.{TcpServer, Net}
use hoarder.Blob.Executor.Defs.{
  IsReady, Io, Executor, RunQueueEvent, tcp_server_id, conn_handler_id,
}
use hoarder.Blob.Executor.Dispatch.{
  despawn_machine, complete_one, complete_intent, context, deliver_tcp, deliver_conn, deliver,
  handle_one,
}
use hoarder.Blob.Ownership.Release.{IsGentle}
use hoarder.Blob.Ownership.Holding.{held_in}
use hoarder.Blob.Ownership.Handler.{Handled, process_event-Handled, Fate}
use hoarder.Blob.Ownership.Listener.{Apart, server-Apart}
use hoarder.Blob.Ownership.Slots.{IsOwned, IsRightSlot, holder, slot-IsOut, Written-IsOwned}
use hoarder.Blob.Ownership.Intents.{
  Accounted, MayEnd, despawn_machine-Accounted, complete-Accounted,
}

module _ (n : ℕ) (io : Io) (net : Net) (read_header : List ℕ → Option MsgHeader)
    (ready : IsReady io) where
  -- What is known when the intents of an event are completed.
  record Delivery (h : ObjectHandle) (r : Executor io × List MachineIntent) : Type 0 where
    accounted : Accounted n io net read_header r.0
    intents : IsGentle r.1 ⊎ ((r.1 ≡ terminate ∷ []) × MayEnd n io net read_header r.0 h)

  after-Delivery :
      (h : ObjectHandle) (r : Executor io × List MachineIntent)
      → Delivery h r
      → Safe (Accounted n io net read_header) (complete_intent debug io net read_header r.0 r.1 h)
  unfolding complete_intent complete_one
  after-Delivery h r d = elim d.intents [
    | inl gs ↦ complete-Accounted n io net read_header ready r.0 r.1 h d.accounted gs
    | inr (only, may) ↦
        subst
          (λ xs.
            Safe (Accounted n io net read_header)
              (complete_intent debug io net read_header r.0 xs h))
          (sym only)
          (Safe-bind (Accounted n io net read_header) (Accounted n io net read_header)
            (despawn_machine debug io net read_header r.0 h) _
            (despawn_machine-Accounted n io net read_header r.0 h d.accounted may) λ e' a. a)
  ]

  deliver_tcp-Delivery :
      (e : Executor io) (h : ObjectHandle) (reason : MachineEvent) (found : Option TcpServer)
      (a : Accounted n io net read_header e)
      → Answer a.1.vacant a.1.holds h found
      → Safe (Delivery h) (deliver_tcp debug io net read_header e h reason found)
  unfolding deliver_tcp Tcp.process_event
  deliver_tcp-Delivery e h reason none a _ = record { accounted = a; intents = inl tt }
  deliver_tcp-Delivery e h reason (some listener) (o, l, w, w') (out, _) =
      let ctx : ExecutorContext = context debug io net read_header e in
      Safe-bind (Delivery h) (Apart ctx) (Tcp.handle_event net listener.state reason listener ctx) _
        (server-Apart net ctx tt listener.state reason listener)
        λ r (same, gs).
          Safe-bind (Delivery h) (Written l.vacant l.holds h r.0)
            (ObjectPool.write_back e.tcp_listener_pool h r.0) _
            (write_back-Written l.vacant l.holds h r.0 out)
            λ pool (holds, _, _). record {
              accounted = (
                subst (IsOwned e.conn_handler_pool) (sym same) o,
                record { vacant = l.vacant; books = l.books; holds = holds },
                w,
                w',
              );
              intents = inl gs;
            }

  -- A handler that asked for its end has no buffer.
  fated :
      (e : Executor io) (h : ObjectHandle) (o : IsOwned e.conn_handler_pool e.io_bufs)
      {c : ConnHandler} (xs : List MachineIntent)
      → (ObjectHandle.pool_id h == tcp_server_id) ≡ false
      → IsHeld o.conn_book h
      → slot_at e.conn_handler_pool (ObjectHandle.index h) ≡ some c
      → Fate xs c.state
      → IsGentle xs ⊎ ((xs ≡ terminate ∷ []) × MayEnd n io net read_header e h)
  fated e h o xs own out there (inl gs) = inl gs
  fated e h o {c} xs own out there (inr (only, ended)) = inr (
    only,
    record {
      own = own;
      accounted = o;
      out = out;
      idle = ap holder there ∙ ap (λ s. held_in s c.handle) ended;
    },
  )

  deliver_conn-Delivery :
      (e : Executor io) (h : ObjectHandle) (reason : MachineEvent) (found : Option ConnHandler)
      → (a : Accounted n io net read_header e) → (ObjectHandle.pool_id h == tcp_server_id) ≡ false
      → Answer a.0.free_conns a.0.conns_hold h found
      → Safe (Delivery h) (deliver_conn debug io net read_header e h reason found)
  unfolding deliver_conn
  deliver_conn-Delivery e h reason none a own _ = record { accounted = a; intents = inl tt }
  deliver_conn-Delivery e h reason (some c) (o, l, w, w') own (out, there) =
      let ctx : ExecutorContext = context debug io net read_header e in
      Safe-bind (Delivery h)
        (λ r. Handled ctx.buffers o.buf_book (held_in c.state c.handle) (r.0, r.1, r.0.state))
        (Conn.process_event debug read_header (io.memory e.io_state) c ctx reason) _
        (process_event-Handled o.buf_book o.free_bufs c ctx o.bufs_hold refl read_header
          (io.memory e.io_state) (ready e.io_state) reason
          (slot-IsOut o (ObjectHandle.index h) c there)
          (subst (IsRightSlot e.io_bufs.allocator) there (o.right (ObjectHandle.index h))))
        λ r handled.
          Safe-bind (Delivery h) (Written o.free_conns o.conns_hold h r.0)
            (ObjectPool.write_back e.conn_handler_pool h r.0) _
            (write_back-Written o.free_conns o.conns_hold h r.0 out)
            λ pool written.
              let e' : Executor io = record e { conn_handler_pool = pool; io_bufs = r.1.buffers } in
              let (o', same) = Written-IsOwned o h c r.0 r.1 there handled written in
              record {
                accounted = (o', l, w, w');
                intents =
                    fated e' h o' r.1.intents own (ap (λ b. b (ObjectHandle.index h)) same ∙ out)
                      written.1 handled.2;
              }

  deliver-Delivery :
      (e : Executor io) (h : ObjectHandle) (reason : MachineEvent)
      → Accounted n io net read_header e
      → Safe (Delivery h) (deliver debug io net read_header e h reason)
  unfolding deliver
  deliver-Delivery e h reason a = elim (Bool-cases (ObjectHandle.pool_id h == tcp_server_id)) [
    | inl tcp ↦ rw tcp (
        Safe-bind (Delivery h) (Answer a.1.vacant a.1.holds h)
          (ObjectPool.get e.tcp_listener_pool h) _ (get-Answer a.1.vacant a.1.holds h)
          λ found answer. deliver_tcp-Delivery e h reason found a answer)
    | inr own ↦ rw own (
        Safe-if (Delivery h) (ObjectHandle.pool_id h == conn_handler_id) _ _
          (Safe-bind (Delivery h) (Answer a.0.free_conns a.0.conns_hold h)
            (ObjectPool.get e.conn_handler_pool h) _ (get-Answer a.0.free_conns a.0.conns_hold h)
            λ found answer. deliver_conn-Delivery e h reason found a own answer)
          tt)
  ]

  pub handle_one-Accounted :
      (e : Executor io) (event : RunQueueEvent)
      → Accounted n io net read_header e
      → Safe (Accounted n io net read_header) (handle_one debug io net read_header e event)
  unfolding handle_one
  handle_one-Accounted e event a =
      Safe-bind (Accounted n io net read_header) (Delivery event.handle)
        (deliver debug io net read_header e event.handle event.reason) _
        (deliver-Delivery e event.handle event.reason a) λ r d. after-Delivery event.handle r d
