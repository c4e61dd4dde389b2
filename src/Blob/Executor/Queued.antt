-- ===== src/Blob/Executor/Queued.antt =====
-- What intents add to the current queue.
use hoarder.Base.{
  ℕ, suc, ◌+◌, ◌*◌, ◌≤◌, ◌<◌, ◌≡◌, sym, arith, Option, List, [], ◌∷◌, ◌++◌, Outcome, done, Build,
  length, subst, ltb, assert, unwrap, Bool-cases, inl, inr, ◌==◌,
}
use hoarder.Base.Post.{Post, Post-bind, Post-after, Post-if}
use hoarder.Error.{err, push_error}
use hoarder.Collections.RingBuffer.Defs.{RingBuffer, push_unwrap, push}
use hoarder.Collections.RingBuffer.Refine.{Models, Models-len, push_lem, push_full, push_unwrap_lem}
use hoarder.Collections.BufferPool as BufferPool
use hoarder.Collections.BufferPool.{BufferHandle, unwrap_result}
use hoarder.Collections.ObjectPool as ObjectPool
use hoarder.Blob.ConnHandler as ConnHandler
use hoarder.Blob.ConnHandler.{buf_size, buf_align}
use hoarder.Collections.ObjectHandle as ObjectHandle
use hoarder.Collections.ObjectHandle.{ObjectHandle}
use hoarder.Blob.Protocol.{
  MachineEvent, spawned, io_completed, MachineIntent, retry, terminate, close_fixed,
  spawn_conn_handler, submit_multishot_accept, submit_recv, Fixed, MsgHeader,
}
use hoarder.Blob.TcpServer.{Net}
use hoarder.Blob.Executor.Defs.{
  Io, Sqe, tcp_server_id, conn_handler_id, Executor, RunQueueEvent, QueueIndex, queue_0, queue_1,
  other, pick,
}
use hoarder.Blob.Executor.Dispatch.{
  push_event, enqueue_entry, submit_read, suffix_ptr, despawn_machine, spawn_machine, complete_one,
  complete_intent,
}
use hoarder.Blob.Executor.Intents.{asks, requests, allowance}

-- The rounds that an event takes, with those of the events that it may add.
abbrev pub rounds : List RunQueueEvent → ℕ
rounds [] = 0
rounds (event ∷ q) = suc (allowance event.reason) + rounds q

rounds-snoc :
    (q : List RunQueueEvent) (x : RunQueueEvent)
    → rounds (q ++ (x ∷ [])) ≡ rounds q + suc (allowance x.reason)
rounds-snoc [] x = omega arith
rounds-snoc (event ∷ q) x = omega (arith, rounds-snoc q x)

pub rounds-length : (q : List RunQueueEvent) → rounds q ≤ length q * 2
rounds-length [] = omega arith
rounds-length (event ∷ q) = omega (arith, rounds-length q, one_more event.reason)
  where
    one_more : (reason : MachineEvent) → allowance reason ≤ 1
    one_more spawned = omega arith
    one_more (io_completed res flags) = omega arith

-- A well-formed queue whose events take so many rounds at most.
abbrev pub Waiting : ℕ → RingBuffer RunQueueEvent → Type 0
Waiting k b = (q : List RunQueueEvent) × Models b q × (rounds q ≤ k)

-- A push that is refused panics once it is unwrapped.
full_stops :
    (Q : RingBuffer RunQueueEvent → Type 0) (build : Build) (b : RingBuffer RunQueueEvent)
    (x : RunQueueEvent)
    → push build b x ≡ done (b, err push_error)
    → Post Q (push_unwrap build b x)
unfolding push_unwrap
full_stops Q build b x e = rw e tt

push_unwrap-Waiting :
    (build : Build) (k : ℕ) (b : RingBuffer RunQueueEvent) (x : RunQueueEvent)
    → Waiting k b
    → Post (Waiting (k + suc (allowance x.reason))) (push_unwrap build b x)
push_unwrap-Waiting build k b x (q, m, few) = elim (Bool-cases (ltb (length q) b.size)) [
  | inl room ↦
      let h : length q < b.size = ground arith in
      subst (Post (Waiting (k + suc (allowance x.reason)))) (sym (push_unwrap_lem build b x q m h))
        (q ++ (x ∷ []), (push_lem build b x q m h).1, omega (arith, rounds-snoc q x))
  | inr full ↦
      full_stops (Waiting (k + suc (allowance x.reason))) build b x
        (push_full build b x q m (ground (arith, Models-len b q m, m.fits)))
]

module _ (build : Build) (io : Io) (net : Net) (read_header : List ℕ → Option MsgHeader) where
  -- The current queue, by its index.
  abbrev pub Queued : ℕ → QueueIndex → Executor io → Type 0
  Queued k c e = (e.current_run_queue ≡ c) × Waiting k (pick c e.run_queue_0 e.run_queue_1)

  push-Queued :
      (k : ℕ) (c : QueueIndex) (e : Executor io) (x : RunQueueEvent)
      → Queued k c e
      → Post (Queued (k + suc (allowance x.reason)) c) (push_event build io net read_header e c x)
  unfolding push_event
  push-Queued k queue_0 e x (cur, w) =
      Post-bind (Queued (k + suc (allowance x.reason)) queue_0)
        (Waiting (k + suc (allowance x.reason))) (push_unwrap build e.run_queue_0 x) _
        (push_unwrap-Waiting build k e.run_queue_0 x w) λ queue w'. (cur, w')
  push-Queued k queue_1 e x (cur, w) =
      Post-bind (Queued (k + suc (allowance x.reason)) queue_1)
        (Waiting (k + suc (allowance x.reason))) (push_unwrap build e.run_queue_1 x) _
        (push_unwrap-Waiting build k e.run_queue_1 x w) λ queue w'. (cur, w')

  push_other-Queued :
      (k : ℕ) (c : QueueIndex) (e : Executor io) (x : RunQueueEvent)
      → Queued k c e
      → Post (Queued k c) (push_event build io net read_header e (other c) x)
  unfolding push_event
  push_other-Queued k queue_0 e x w =
      Post-after (Queued k queue_0) (push_unwrap build e.run_queue_1 x) _ λ queue. w
  push_other-Queued k queue_1 e x w =
      Post-after (Queued k queue_1) (push_unwrap build e.run_queue_0 x) _ λ queue. w

  enqueue-Queued :
      (k : ℕ) (c : QueueIndex) (e : Executor io) (entry : Sqe)
      → Queued k c e
      → Post (Queued k c) (enqueue_entry build io net read_header e entry)
  unfolding enqueue_entry
  enqueue-Queued k c e entry w =
      Post-after (Queued k c) (unwrap_result (io.enqueue e.io_state entry).1) _ λ a. w

  submit_read-Queued :
      (k : ℕ) (c : QueueIndex) (e : Executor io) (h : ObjectHandle) (fixed : Fixed)
      (buffer : BufferHandle) (offset : ℕ)
      → Queued k c e
      → Post (Queued k c) (submit_read build io net read_header e h fixed buffer offset)
  unfolding submit_read
  submit_read-Queued k c e h fixed buffer offset w =
      Post-after (Queued k c) (assert (ltb offset e.io_bufs.pool.buf_size)) _ λ _.
        Post-after (Queued k c)
          (BufferPool.get buf_size buf_align build (io.memory e.io_state) e.io_bufs buffer) _
          λ found. Post-after (Queued k c) (unwrap found) _ λ slice.
            Post-after (Queued k c) (suffix_ptr build io net read_header slice offset) _
              λ buf. enqueue-Queued k c e _ w

  despawn-Queued :
      (k : ℕ) (c : QueueIndex) (e : Executor io) (h : ObjectHandle)
      → Queued k c e
      → Post (Queued k c) (despawn_machine build io net read_header e h)
  unfolding despawn_machine
  despawn-Queued k c e h w =
      Post-if (Queued k c) (ObjectHandle.pool_id h == tcp_server_id) _ _
        (Post-after (Queued k c) (ObjectPool.despawn build e.tcp_listener_pool h) _ λ r. w)
        (Post-if (Queued k c) (ObjectHandle.pool_id h == conn_handler_id) _ _
          (Post-after (Queued k c) (ObjectPool.despawn build e.conn_handler_pool h) _ λ r. w) tt)

  spawn-Queued :
      (k : ℕ) (c : QueueIndex) (e : Executor io) (fixed : Fixed)
      → Queued k c e
      → Post (Queued (k + 1) c) (spawn_machine build io net read_header e fixed)
  unfolding spawn_machine
  spawn-Queued k c e fixed (cur, w) =
      Post-after (Queued (k + 1) c)
        (ObjectPool.spawn conn_handler_id build e.conn_handler_pool (ConnHandler.new fixed.slot)) _
        λ r. Post-after (Queued (k + 1) c) (unwrap r.1) _ λ h.
          let e' : Executor io = record e { conn_handler_pool = r.0 } in
          let event : RunQueueEvent = record { reason = spawned; handle = h } in
          subst (λ i. Post (Queued (k + 1) c) (push_event build io net read_header e' i event))
            (sym cur) (push-Queued k c e' event (cur, w))

  more :
      (k : ℕ) (c : QueueIndex) (m : Outcome (Executor io))
      → Post (Queued k c) m
      → Post (Queued (k + 0) c) m
  more k c m p = subst (λ n. Post (Queued n c) m) (omega arith) p

  complete_one-Queued :
      (k : ℕ) (c : QueueIndex) (e : Executor io) (h : ObjectHandle) (intent : MachineIntent)
      → Queued k c e
      → Post (Queued (k + asks intent) c) (complete_one build io net read_header e h intent)
  unfolding complete_one
  complete_one-Queued k c e h retry (cur, w) =
      let event : RunQueueEvent = record { reason = spawned; handle = h } in
      subst (λ i. Post (Queued (k + 0) c) (push_event build io net read_header e (other i) event))
        (sym cur) (more k c _ (push_other-Queued k c e event (cur, w)))
  complete_one-Queued k c e h (submit_multishot_accept fd) w = more k c _ (enqueue-Queued k c e _ w)
  complete_one-Queued k c e h (spawn_conn_handler fixed) w = spawn-Queued k c e fixed w
  complete_one-Queued k c e h (submit_recv fixed buffer offset) w =
      more k c _ (submit_read-Queued k c e h fixed buffer offset w)
  complete_one-Queued k c e h terminate w = more k c _ (despawn-Queued k c e h w)
  complete_one-Queued k c e h (close_fixed fixed) w = more k c _ (enqueue-Queued k c e _ w)

  pub complete_intent-Queued :
      (k : ℕ) (c : QueueIndex) (h : ObjectHandle) (intents : List MachineIntent) (e : Executor io)
      → Queued k c e
      → Post
          (Queued (k + requests intents) c)
          (complete_intent build io net read_header e intents h)
  unfolding complete_intent
  complete_intent-Queued k c h [] e w = subst (λ n. Queued n c e) (omega arith) w
  complete_intent-Queued k c h (intent ∷ intents) e w =
      Post-bind (Queued (k + requests (intent ∷ intents)) c) (Queued (k + asks intent) c)
        (complete_one build io net read_header e h intent) _ (complete_one-Queued k c e h intent w)
        λ e' w'.
          subst (λ n. Post (Queued n c) (complete_intent build io net read_header e' intents h))
            (omega arith) (complete_intent-Queued (k + asks intent) c h intents e' w')
