-- ===== src/Blob/Executor/Drain.antt =====
-- The loop over the current queue comes to an end.
use hoarder.Base.{
  ℕ, zero, suc, ◌+◌, ◌*◌, ◌≤◌, ◌<◌, ◌≡◌, refl, sym, ◌∙◌, arith, Option, none, some, List, [], ◌∷◌,
  done, ◌>>=◌, Build, length, subst,
}
use hoarder.Base.Post.{Post, Post-bind, Post-map}
use hoarder.Collections.RingBuffer.Refine.{Models, pop_lem, pop_empty}
use hoarder.Blob.Protocol.{MachineIntent, MsgHeader}
use hoarder.Blob.TcpServer.{Net}
use hoarder.Blob.Executor.Defs.{
  Io, Executor, RunQueueEvent, QueueIndex, queue_0, queue_1, pick, queue_at,
}
use hoarder.Blob.Executor.Dispatch.{pop_event, complete_intent, deliver, handle_one}
use hoarder.Blob.Executor.Loop.{drain_queue}
use hoarder.Blob.Executor.Intents.{requests, allowance}
use hoarder.Blob.Executor.Requests.{Delivered, deliver-Delivered}
use hoarder.Blob.Executor.Queued.{rounds, rounds-length, Queued, complete_intent-Queued}

module _ (build : Build) (io : Io) (net : Net) (read_header : List ℕ → Option MsgHeader) where
  handle_one-Queued :
      (k : ℕ) (c : QueueIndex) (e : Executor io) (event : RunQueueEvent)
      → Queued build io net read_header k c e
      → Post
          (Queued build io net read_header (k + allowance event.reason) c)
          (handle_one build io net read_header e event)
  unfolding handle_one
  handle_one-Queued k c e event (cur, (q, m, few)) =
      Post-bind (Queued build io net read_header (k + allowance event.reason) c)
        (Delivered build io net read_header event.reason e)
        (deliver build io net read_header e event.handle event.reason) _
        (deliver-Delivered build io net read_header e event.handle event.reason)
        λ r d.
          Post-map (Queued build io net read_header (k + requests r.1) c)
            (Queued build io net read_header (k + allowance event.reason) c)
            (complete_intent build io net read_header r.0 r.1 event.handle)
            (complete_intent-Queued build io net read_header k c event.handle r.1 r.0
              (d.kept ∙ cur, (q, subst (λ b. Models b q) (sym (picked c r d)) m, few)))
            λ e' (cur', (q', m', few')). (cur', (q', m', omega (arith, d.few)))
    where
      picked :
          (c : QueueIndex) (r : Executor io × List MachineIntent)
          → Delivered build io net read_header event.reason e r
          → pick c r.0.run_queue_0 r.0.run_queue_1 ≡ pick c e.run_queue_0 e.run_queue_1
      picked queue_0 r d = d.kept_0
      picked queue_1 r d = d.kept_1

  -- What `pop` takes from the current queue, and what is left.
  Popped : ℕ → QueueIndex → Executor io × Option RunQueueEvent → Type 0
  Popped k c (e, none) = (e.current_run_queue ≡ c) × Models (queue_at e c) []
  Popped k c (e, some event) =
      (n : ℕ) × (n + suc (allowance event.reason) ≤ k) × Queued build io net read_header n c e

  pop-Popped :
      (k : ℕ) (c : QueueIndex) (e : Executor io)
      → Queued build io net read_header k c e
      → Post (Popped k c) (pop_event build io net read_header e c)
  unfolding pop_event Popped
  pop-Popped k queue_0 e (cur, ([], m, few)) = rw (pop_empty build e.run_queue_0 m) (cur, m)
  pop-Popped k queue_1 e (cur, ([], m, few)) = rw (pop_empty build e.run_queue_1 m) (cur, m)
  pop-Popped k queue_0 e (cur, (event ∷ q, m, few)) =
      let (popped, m', _) = pop_lem build e.run_queue_0 event q m in
      rw popped (rounds q, omega arith, (cur, (q, m', omega arith)))
  pop-Popped k queue_1 e (cur, (event ∷ q, m, few)) =
      let (popped, m', _) = pop_lem build e.run_queue_1 event q m in
      rw popped (rounds q, omega arith, (cur, (q, m', omega arith)))

  -- The loop came to its end, with the current queue empty.
  abbrev pub IsDrained : QueueIndex → Option (Executor io) → Type 0
  IsDrained c none = ⊥
  IsDrained c (some e) = (e.current_run_queue ≡ c) × Models (queue_at e c) []

  -- After `pop`, given the loop on what is left of the fuel.
  after_pop-IsDrained :
      (fuel k : ℕ) (c : QueueIndex) (r : Executor io × Option RunQueueEvent)
      → k ≤ fuel
      → ((n : ℕ) (e : Executor io)
          → n < fuel
          → Queued build io net read_header n c e
          → Post (IsDrained c) (drain_queue build io net read_header fuel e))
      → Popped k c r
      → Post (IsDrained c) (elim r.1 [
        | none ↦ done (some r.0)
        | some event ↦ handle_one build io net read_header r.0 event >>= λ e'.
            drain_queue build io net read_header fuel e'
      ])
  unfolding Popped
  after_pop-IsDrained fuel k c (e, none) enough ih p = p
  after_pop-IsDrained fuel k c (e, some event) enough ih (n, few, w) =
      Post-bind (IsDrained c) (Queued build io net read_header (n + allowance event.reason) c)
        (handle_one build io net read_header e event) _ (handle_one-Queued n c e event w)
        λ e' w'. ih (n + allowance event.reason) e' (omega arith) w'

  drain-IsDrained :
      (fuel k : ℕ) (c : QueueIndex) (e : Executor io)
      → k < fuel
      → Queued build io net read_header k c e
      → Post (IsDrained c) (drain_queue build io net read_header fuel e)
  unfolding drain_queue
  drain-IsDrained zero k c e enough w = absurd (omega arith)
  drain-IsDrained (suc fuel) k c e enough (cur, w) =
      Post-bind (IsDrained c) (Popped k c)
        (pop_event build io net read_header e e.current_run_queue) _
        (subst (λ i. Post (Popped k c) (pop_event build io net read_header e i)) (sym cur)
          (pop-Popped k c e (cur, w)))
        λ r p.
          after_pop-IsDrained fuel k c r (omega arith)
            (λ n e' less w'. drain-IsDrained fuel n c e' less w') p

  -- The loop over a well-formed current queue ends: on fuel above twice the number of its events it
  -- either stops with a panic or undefined behaviour, or comes to its end with the current queue
  -- empty and the same queue current.
  pub drain_queue_ends :
      (fuel : ℕ) (e : Executor io) (q : List RunQueueEvent)
      → Models (queue_at e e.current_run_queue) q
      → length q * 2 < fuel
      → Post (IsDrained e.current_run_queue) (drain_queue build io net read_header fuel e)
  drain_queue_ends fuel e q m enough =
      drain-IsDrained fuel (length q * 2) e.current_run_queue e enough
        (refl, (q, m, rounds-length q))
