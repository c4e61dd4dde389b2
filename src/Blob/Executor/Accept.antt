-- ===== src/Blob/Executor/Accept.antt =====
-- From a completed accept to the new connection's handler and its first event.
use hoarder.Base.{
  ℕ, pos, ℤ, ◌<◌, ◌≡◌, refl, arith, true, Option, none, some, List, [], ◌∷◌, ◌++◌, length, done,
  Build, set,
}
use hoarder.Collections.RingBuffer.Refine.{Models, push_unwrap_lem, push_lem, after_push}
use hoarder.Collections.GenAlloc.Invariant.{Book, held_room}
use hoarder.Collections.GenAlloc.Laws.{id_at}
use hoarder.Collections.Array.Laws.{set_index_lem}
use hoarder.Collections.ObjectHandle
use hoarder.Collections.ObjectHandle.{ObjectHandle}
use hoarder.Collections.ObjectPool
use hoarder.Collections.ObjectPool.{ObjectPool}
use hoarder.Collections.ObjectPool.Laws as Objects
use hoarder.Collections.ObjectPool.Laws.{IsHeld, slot_at, after_spawn, spawn_lem}
use hoarder.Blob.Protocol.{spawned, io_completed, MsgHeader}
use hoarder.Blob.ConnHandler
use hoarder.Blob.ConnHandler.{ConnHandler}
use hoarder.Blob.TcpServer.{TcpServer, Net, accepting}
use hoarder.Blob.TcpServer.Laws.{server, accepts}
use hoarder.Blob.Executor.Defs.{
  queue_at, Io, Executor, RunQueueEvent, QueueIndex, queue_0, queue_1, tcp_server_id,
  conn_handler_id,
}
use hoarder.Blob.Executor.Dispatch.{
  push_event, context, deliver, deliver_tcp, handle_one, complete_intent, complete_one,
  spawn_machine,
}

module _ (build : Build) (io : Io) (net : Net) (read_header : List ℕ → Option MsgHeader) where
  -- The executor after a push into one of its queues.
  pushed_at : Executor io → QueueIndex → RunQueueEvent → Executor io
  pushed_at e queue_0 event = record e { run_queue_0 = after_push e.run_queue_0 event }
  pushed_at e queue_1 event = record e { run_queue_1 = after_push e.run_queue_1 event }

  push_event_lem :
      (e : Executor io) (i : QueueIndex) (event : RunQueueEvent) (q : List RunQueueEvent)
      → Models (queue_at e i) q
      → length q < (queue_at e i).size
      → (push_event build io net read_header e i event ≡ done (pushed_at e i event))
        × Models (queue_at (pushed_at e i event) i) (q ++ (event ∷ []))
        × ((pushed_at e i event).current_run_queue ≡ e.current_run_queue)
        × ((pushed_at e i event).conn_handler_pool ≡ e.conn_handler_pool)
  unfolding push_event pushed_at
  push_event_lem e queue_0 event q m room = (
    rw (push_unwrap_lem build e.run_queue_0 event q m room),
    (push_lem build e.run_queue_0 event q m room).1,
    refl,
    refl,
  )
  push_event_lem e queue_1 event q m room = (
    rw (push_unwrap_lem build e.run_queue_1 event q m room),
    (push_lem build e.run_queue_1 event q m room).1,
    refl,
    refl,
  )

  -- The executor with the listener written back and another pool of handlers.
  abbrev updated : Executor io → ObjectHandle → TcpServer → ObjectPool ConnHandler → Executor io
  updated e h s handlers =
      let p = e.tcp_listener_pool in
      record e {
        tcp_listener_pool = record p {
          slots = record p.slots { cells = set p.slots.cells (ObjectHandle.index h) (some s) };
        };
        conn_handler_pool = handlers;
      }

  queue_at-updated :
      (e : Executor io) (h : ObjectHandle) (s : TcpServer) (handlers : ObjectPool ConnHandler)
      (c : QueueIndex)
      → queue_at (updated e h s handlers) c ≡ queue_at e c
  queue_at-updated e h s handlers queue_0 = refl
  queue_at-updated e h s handlers queue_1 = refl

  -- While the multishot request goes on, a completed accept on a listener that is out and accepting
  -- makes a handler: the executor handles the event without a panic, a slot that nobody held now
  -- gives a fresh handler for the accepted descriptor under a handle of the connection pool, and
  -- the event that spawns it is the last one of the current queue. Both object pools are well
  -- formed, a connection slot is free, and the current queue is well formed with room for an event.
  pub accept_spawns :
      (e : Executor io) (h : ObjectHandle) (q free : List ℕ) {held lent : Book} (i : ℕ)
      (addr : List ℕ) (backlog n flags : ℕ) (fd : ℤ) (events : List RunQueueEvent)
      → ObjectHandle.pool_id h ≡ tcp_server_id
      → Objects.Holds e.tcp_listener_pool q held
      → IsHeld held h
      → slot_at e.tcp_listener_pool (ObjectHandle.index h) ≡ some (server accepting addr backlog fd)
      → Objects.Holds e.conn_handler_pool (i ∷ free) lent
      → Models (queue_at e e.current_run_queue) events
      → length events < (queue_at e e.current_run_queue).size
      → net.more_io flags ≡ true
      → let h' = ObjectHandle.new conn_handler_id (id_at e.conn_handler_pool.allocator i) in
        (e' : Executor io) × (handle_one build io net read_header e
            (record { reason = io_completed (pos n) flags; handle = h })
          ≡ done e')
        × (lent (ObjectHandle.index h') ≡ none)
        × (ObjectHandle.pool_id h' ≡ conn_handler_id)
        × (ObjectPool.get e'.conn_handler_pool h' ≡ done (some (ConnHandler.new n)))
        × (e'.current_run_queue ≡ e.current_run_queue)
        × Models
            (queue_at e' e.current_run_queue)
            (events ++ (record { reason = spawned; handle = h' } ∷ []))
  unfolding handle_one deliver deliver_tcp complete_intent complete_one spawn_machine
      ObjectPool.write_back
  accept_spawns e h q free i addr backlog n flags fd events own hs out slot cs m room more =
      let s = server accepting addr backlog fd in
      let p = e.tcp_listener_pool in
      let h' = ObjectHandle.new conn_handler_id (id_at e.conn_handler_pool.allocator i) in
      let event : RunQueueEvent = record { reason = spawned; handle = h' } in
      let (spawns, own', fresh, _, found) =
        spawn_lem conn_handler_id build i free (ConnHandler.new n) (omega arith) cs in
      let handlers = after_spawn e.conn_handler_pool i (ConnHandler.new n) in
      let x = updated e h s handlers in
      let same = queue_at-updated e h s handlers e.current_run_queue in
      let (pushes, m', cur, pool) =
        push_event_lem x e.current_run_queue event events (rw same m) (rw same room) in
      let step =
        accepts net addr backlog fd (context build io net read_header e) n flags (omega arith) in
      (
        pushed_at x e.current_run_queue event,
        rw (
          own,
          Objects.get_held q h hs out,
          slot,
          step,
          more,
          set_index_lem p.slots (ObjectHandle.index h) (some s) hs.sound
              (omega (arith, hs.room, (held_room q hs.books out).0)),
          spawns,
          pushes,
        ),
        fresh,
        own',
        rw pool found,
        cur,
        m',
      )
