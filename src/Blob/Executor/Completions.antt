-- ===== src/Blob/Executor/Completions.antt =====
-- The loop over the completions: each becomes an event of the other queue, while there is room.
use hoarder.Base.{
  ℕ, zero, suc, ◌+◌, ◌≤◌, ◌<◌, ◌≡◌, refl, sym, ap, ◌∙◌, arith, Option, some, none, List, [], ◌∷◌,
  ◌++◌, append_assoc, append-nil, length-append, Outcome, done, panic, unwrap_failed, ◌>>=◌, Build,
  length, subst, ltb, Bool-cases, inl, inr,
}
use hoarder.Collections.RingBuffer.Defs.{RingBuffer, push_unwrap}
use hoarder.Collections.RingBuffer.Refine.{
  Models, Models-len, after_push, push_lem, push_full, push_unwrap_lem,
}
use hoarder.Collections.ObjectHandle.{from_u64}
use hoarder.Blob.Protocol.{io_completed, MsgHeader}
use hoarder.Blob.TcpServer.{Net}
use hoarder.Blob.Executor.Defs.{
  Io, Cqe, Executor, RunQueueEvent, QueueIndex, queue_0, queue_1, other,
}
use hoarder.Blob.Executor.Dispatch.{push_event}
use hoarder.Blob.Executor.Defs.{queue_at}
use hoarder.Blob.Executor.Loop.{drain_completions}

-- The event that a completion becomes.
abbrev pub event_of : Cqe → RunQueueEvent
event_of cqe = record {
  reason = io_completed cqe.result cqe.flags;
  handle = from_u64 cqe.user_data;
}

abbrev pub events_of : List Cqe → List RunQueueEvent
events_of [] = []
events_of (c ∷ cs) = event_of c ∷ events_of cs

-- The completions of an IO that are there: `next` takes the first one, and nothing where there is
-- none.
pub record Delivers (io : Io) (pending : io.State → List Cqe) : Type 0 where
  pub nothing :
      (s : io.State) → pending s ≡ [] → (s' : io.State) × (io.next_completion s ≡ (s', none))
  pub first :
      (s : io.State) (c : Cqe) (cs : List Cqe)
      → pending s ≡ c ∷ cs
      → (s' : io.State) × (io.next_completion s ≡ (s', some c)) × (pending s' ≡ cs)

push_unwrap_full :
    (build : Build) (b : RingBuffer RunQueueEvent) (x : RunQueueEvent) (q : List RunQueueEvent)
    → Models b q
    → b.size ≤ length q
    → push_unwrap build b x ≡ panic unwrap_failed
unfolding push_unwrap
push_unwrap_full build b x q m full =
    rw (push_full build b x q m (omega (arith, Models-len b q m, m.fits))) refl

module _ (build : Build) (io : Io) (net : Net) (read_header : List ℕ → Option MsgHeader) where
  push_full-stops :
      (i : QueueIndex) (e : Executor io) (x : RunQueueEvent) (q : List RunQueueEvent)
      → Models (queue_at e i) q
      → (queue_at e i).size ≤ length q
      → push_event build io net read_header e i x ≡ panic unwrap_failed
  unfolding push_event
  push_full-stops queue_0 e x q m full = rw (push_unwrap_full build e.run_queue_0 x q m full) refl
  push_full-stops queue_1 e x q m full = rw (push_unwrap_full build e.run_queue_1 x q m full) refl

  -- A push with room.
  push_room :
      (i : QueueIndex) (e : Executor io) (x : RunQueueEvent) (q : List RunQueueEvent)
      → Models (queue_at e i) q
      → length q < (queue_at e i).size
      → (e' : Executor io) × (push_event build io net read_header e i x ≡ done e')
        × Models (queue_at e' i) (q ++ (x ∷ []))
        × ((queue_at e' i).size ≡ (queue_at e i).size)
        × (e'.io_state ≡ e.io_state)
        × (e'.current_run_queue ≡ e.current_run_queue)
  unfolding push_event
  push_room queue_0 e x q m room =
      let (_, m', s) = push_lem build e.run_queue_0 x q m room in
      (
        record e { run_queue_0 = after_push e.run_queue_0 x },
        rw (push_unwrap_lem build e.run_queue_0 x q m room) refl,
        m',
        s,
        refl,
        refl,
      )
  push_room queue_1 e x q m room =
      let (_, m', s) = push_lem build e.run_queue_1 x q m room in
      (
        record e { run_queue_1 = after_push e.run_queue_1 x },
        rw (push_unwrap_lem build e.run_queue_1 x q m room) refl,
        m',
        s,
        refl,
        refl,
      )

  -- A round of the loop, on what `next` gave.
  abbrev on_next : ℕ → Executor io → io.State × Option Cqe → Outcome (Option (Executor io))
  on_next fuel e (s, none) = done (some (record e { io_state = s }))
  on_next fuel e (s, some c) =
      push_event build io net read_header (record e { io_state = s }) (other e.current_run_queue)
        (event_of c)
      >>= λ e'. drain_completions build io net read_header fuel e'

  pub at_end :
      (fuel : ℕ) (e : Executor io) (s : io.State)
      → io.next_completion e.io_state ≡ (s, none)
      → drain_completions build io net read_header (suc fuel) e
        ≡ done (some (record e { io_state = s }))
  unfolding drain_completions
  at_end fuel e s none_left = ap (on_next fuel e) none_left

  pub at_next :
      (fuel : ℕ) (e : Executor io) (s : io.State) (c : Cqe)
      → io.next_completion e.io_state ≡ (s, some c)
      → drain_completions build io net read_header (suc fuel) e ≡ (
          push_event build io net read_header
            (record e { io_state = s })
            (other e.current_run_queue)
            (event_of c)
          >>= λ e'. drain_completions build io net read_header fuel e')
  unfolding drain_completions
  at_next fuel e s c got = ap (on_next fuel e) got

  -- With the queue that is not the current one given by its index.
  arrive :
      (pending : io.State → List Cqe) (i : QueueIndex) (q : List RunQueueEvent) (fuel : ℕ)
      (cs : List Cqe) (e : Executor io)
      → Delivers io pending
      → other e.current_run_queue ≡ i
      → Models (queue_at e i) q
      → pending e.io_state ≡ cs
      → length q + length cs ≤ (queue_at e i).size
      → length cs < fuel
      → (e' : Executor io) × (drain_completions build io net read_header fuel e ≡ done (some e'))
        × Models (queue_at e' i) (q ++ events_of cs)
        × (e'.current_run_queue ≡ e.current_run_queue)
  arrive pending i q zero cs e law cur m there room enough = absurd (omega arith)
  arrive pending i q (suc fuel) [] e law cur m there room enough =
      let (s, none_left) = law.nothing e.io_state there in
      (
        record e { io_state = s },
        at_end fuel e s none_left,
        subst (Models (queue_at e i)) (sym (append-nil q)) m,
        refl,
      )
  arrive pending i q (suc fuel) (c ∷ cs) e law cur m there room enough =
      let (s, got, left) = law.first e.io_state c cs there in
      let (e₁, pushed, m₁, size, state, same) =
        push_room i (record e { io_state = s }) (event_of c) q m (omega arith) in
      let (e₂, rest, m₂, same₂) =
        arrive pending i (q ++ (event_of c ∷ [])) fuel cs e₁ law (ap other same ∙ cur) m₁
          (ap pending state ∙ left) (omega (arith, length-append q (event_of c ∷ [])))
          (omega arith) in
      (
        e₂,
        at_next fuel e s c got ∙ rw (cur, pushed) rest,
        subst (Models (queue_at e₂ i)) (append_assoc q (event_of c ∷ []) (events_of cs)) m₂,
        same₂ ∙ same,
      )

  overflow :
      (pending : io.State → List Cqe) (i : QueueIndex) (q : List RunQueueEvent) (fuel : ℕ)
      (cs : List Cqe) (e : Executor io)
      → Delivers io pending
      → other e.current_run_queue ≡ i
      → Models (queue_at e i) q
      → pending e.io_state ≡ cs
      → (queue_at e i).size < length q + length cs
      → length cs ≤ fuel
      → drain_completions build io net read_header fuel e ≡ panic unwrap_failed
  overflow pending i q fuel [] e law cur m there full enough =
      absurd (omega (arith, Models-len (queue_at e i) q m, m.fits))
  overflow pending i q zero (c ∷ cs) e law cur m there full enough = absurd (omega arith)
  overflow pending i q (suc fuel) (c ∷ cs) e law cur m there full enough =
      let (s, got, left) = law.first e.io_state c cs there in
      let e' : Executor io = record e { io_state = s } in
      elim (Bool-cases (ltb (length q) (queue_at e i).size)) [
        | inl room ↦
            let (e₁, pushed, m₁, size, state, same) =
              push_room i e' (event_of c) q m (ground arith) in
            at_next fuel e s c got
            ∙ rw (cur, pushed)
                (overflow pending i (q ++ (event_of c ∷ [])) fuel cs e₁ law (ap other same ∙ cur) m₁
                  (ap pending state ∙ left) (omega (arith, length-append q (event_of c ∷ [])))
                  (omega arith))
        | inr none_free ↦
            at_next fuel e s c got
            ∙ rw (cur, push_full-stops i e' (event_of c) q m (ground arith)) refl
      ]

  module _ (pending : io.State → List Cqe) (fuel : ℕ) (e : Executor io)
      (q : List RunQueueEvent) where
    -- While the other queue is well formed and has room for all the completions that are there, the
    -- loop over the completions ends, on fuel above their number: each has become an event, in
    -- their order, behind what the other queue held, and the current queue is the same one. The IO
    -- hands out the completions that are there one by one and then none.
    pub completions_queued :
        Delivers io pending
        → Models (queue_at e (other e.current_run_queue)) q
        → length q + length (pending e.io_state) ≤ (queue_at e (other e.current_run_queue)).size
        → length (pending e.io_state) < fuel
        → (e' : Executor io) × (drain_completions build io net read_header fuel e ≡ done (some e'))
          × Models (queue_at e' (other e.current_run_queue)) (q ++ events_of (pending e.io_state))
          × (e'.current_run_queue ≡ e.current_run_queue)
    completions_queued law m room enough =
        arrive pending (other e.current_run_queue) q fuel (pending e.io_state) e law refl m refl
          room enough

    -- More completions at once than the other, well-formed queue has room for stop the server: the
    -- loop over the completions panics, on fuel of at least their number. The IO hands out the
    -- completions that are there one by one.
    pub completions_overflow :
        Delivers io pending
        → Models (queue_at e (other e.current_run_queue)) q
        → (queue_at e (other e.current_run_queue)).size < length q + length (pending e.io_state)
        → length (pending e.io_state) ≤ fuel
        → drain_completions build io net read_header fuel e ≡ panic unwrap_failed
    completions_overflow law m full enough =
        overflow pending (other e.current_run_queue) q fuel (pending e.io_state) e law refl m refl
          full enough
