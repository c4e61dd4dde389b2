-- ===== src/Log/Logger/Alone.antt =====
-- A push and then a `consume`, with nobody else running.
use hoarder.Base.{
  ℕ, zero, suc, ◌+◌, ◌^◌, ◌%◌, ◌≤◌, ◌<◌, ◌≡◌, refl, sym, ap, ◌∙◌, List, [], ◌∷◌, ◌++◌, length, take,
  arith, false, Outcome, done, panic, undefined, ◌>>=◌, ltb, write_cell_lem, append-nil, lt→ltb,
  le→ltb_false, replicate, set, subst, append_assoc, length-set, Bool-cases, inl, inr,
}
use hoarder.Error.{ok}
use hoarder.Log.Logger.Defs.{
  update, PushPc, idle, loading, loaded, claimed, copying, releasing, returned, push_step,
  ConsumePc, consume_step, overflows, exchange, copy_byte, swap,
}
use hoarder.Log.Logger.System.{
  System, Actor, produces, consumes, step, run, start, IsSolo, run_delivers, unread,
}

abbrev pub call : List ℕ → Actor
call text = produces 0 (record { text = text; spurious = false })

-- As many steps as `push` of a text that fits takes, and as many as `consume` takes.
abbrev pub push_steps : List ℕ → List Actor
push_steps text =
    call text
    ∷ call text
    ∷ call text
    ∷ call text
    ∷ (replicate (length text) (call text) ++ (call text ∷ call text ∷ []))

abbrev pub consume_steps : List Actor
consume_steps = replicate 6 (consumes false)

pub run-append :
    (size : ℕ) (a b : List Actor) (s : System)
    → run size (a ++ b) s ≡ (run size a s >>= λ s'. run size b s')
unfolding run
run-append size [] b s = refl
run-append size (x ∷ a) b s = through (step size x s) (λ s'. run-append size a b s')
  where
    through :
        (m : Outcome System)
        → ((s' : System) → run size (a ++ b) s' ≡ (run size a s' >>= λ t. run size b t))
        → (m >>= λ s'. run size (a ++ b) s') ≡ ((m >>= λ s'. run size a s') >>= λ t. run size b t)
    through (done s') ih = ih s'
    through (panic e) ih = refl
    through undefined ih = refl

-- What a copy by producer 0 changes.
abbrev after_copy : System → (ℕ → List ℕ) → (ℕ → PushPc) → List ℕ → System
after_copy s bytes producers log = record s {
  shared = record s.shared { bytes = bytes };
  producers = producers;
  log = log;
}

-- Producer 0 alone copies the bytes that are left.
copies_all :
    (size : ℕ) (full : List ℕ) (s : System) (text : List ℕ) (i pos : ℕ) (rest : List ℕ)
    → s.producers 0 ≡ copying text i pos rest
    → pos + length rest ≤ length (s.shared.bytes i)
    → (bytes : ℕ → List ℕ) × (producers : ℕ → PushPc) × (log : List ℕ) × (run size
          (replicate (length rest) (call full))
          s
        ≡ done (after_copy s bytes producers log))
      × (producers 0 ≡ copying text i (pos + length rest) [])
      × (log ≡ s.log)
unfolding run push_step copy_byte
copies_all size full s text i pos [] e h = (
  s.shared.bytes,
  s.producers,
  s.log,
  refl,
  e ∙ ap (λ n. copying text i n []) {x = pos} (omega arith),
  refl,
)
copies_all size full s text i pos (byte ∷ rest) e h =
    let bytes₁ = update s.shared.bytes i (set (s.shared.bytes i) pos byte) in
    let s₁ =
      after_copy s bytes₁ (update s.producers 0 (copying text i (suc pos) rest)) (s.log ++ []) in
    let (bytes, producers, log, e₂, place, same) =
      copies_all size full s₁ text i (suc pos) rest refl
        (ground (arith, length-set (s.shared.bytes i) pos byte)) in
    (
      bytes,
      producers,
      log,
      rw (e, write_cell_lem (s.shared.bytes i) pos byte (omega arith)) e₂,
      place ∙ ap (λ n. copying text i n []) {x = suc pos + length rest} (omega arith),
      same ∙ append-nil s.log,
    )

abbrev state : ℕ → (ℕ → List ℕ) → (ℕ → PushPc) → List ℕ → System
state word bytes producers log = record {
  shared = record { word = word; offsets = λ i. 0; bytes = bytes };
  producers = producers;
  consumer = ConsumePc.idle;
  log = log;
  out = [];
}

-- What the system is once both calls have returned.
record IsFinished (s : System) (text : List ℕ) : Type 0 where
  result : s.producers 0 ≡ returned (ok tt)
  waits : s.consumer ≡ ConsumePc.idle
  log : s.log ≡ text
  nothing_left : unread s ≡ []

finishes :
    (size : ℕ) (bytes : ℕ → List ℕ) (producers : ℕ → PushPc) (log text : List ℕ) (n : ℕ)
    → producers 0 ≡ copying text 0 n []
    → log ≡ []
    → (s : System) × (run size
          (call text ∷ call text ∷ consume_steps)
          (state 256 bytes producers log)
        ≡ done s)
      × IsFinished s text
unfolding run push_step consume_step swap exchange
finishes size bytes producers log text n place none_yet =
    let end : ℕ = (0 + length text) % 2 ^ 64 in
    let after : List ℕ → System = λ got. record {
      shared = record { word = 1; offsets = update (update (λ i. 0) 0 end) 0 0; bytes = bytes };
      producers = update (update producers 0 (releasing (ok tt))) 0 (returned (ok tt));
      consumer = ConsumePc.idle;
      log = (log ++ text) ++ [];
      out = got ++ [];
    } in
    let finished : (got : List ℕ) → IsFinished (after got) text = λ got. record {
      result = refl;
      waits = refl;
      log = append-nil (log ++ text) ∙ ap (λ t. t ++ text) none_yet;
      nothing_left = refl;
    } in
    elim (Bool-cases (ltb 0 end)) [
      | inl some_bytes ↦
          (after (take end (bytes 0)), rw (place, some_bytes), finished (take end (bytes 0)))
      | inr none_there ↦ (after [], rw (place, none_there), finished [])
    ]

pub IsSolo-append : (a b : List Actor) → IsSolo a → IsSolo b → IsSolo (a ++ b)
IsSolo-append [] b u v = v
IsSolo-append (produces i choice ∷ a) b (e, u) v = (e, IsSolo-append a b u v)
IsSolo-append (consumes spurious ∷ a) b u v = IsSolo-append a b u v

IsSolo-replicate : (n : ℕ) (text : List ℕ) → IsSolo (replicate n (call text))
IsSolo-replicate zero text = tt
IsSolo-replicate (suc n) text = (refl, IsSolo-replicate n text)

pub push_steps-IsSolo : (text : List ℕ) → IsSolo (push_steps text)
push_steps-IsSolo text =
    let copies = replicate (length text) (call text) in
    (
      refl,
      (
        refl,
        (
          refl,
          (
            refl,
            IsSolo-append copies (call text ∷ call text ∷ []) (IsSolo-replicate (length text) text)
                (refl, (refl, tt)),
          ),
        ),
      ),
    )

-- The run to the end of both calls.
runs_through :
    (size : ℕ) (memory : ℕ → List ℕ) (text : List ℕ)
    → size < 2 ^ 64
    → length (memory 0) ≡ size
    → length text ≤ size
    → (s : System) × (run size (push_steps text ++ consume_steps) (start memory) ≡ done s)
      × IsFinished s text
unfolding run start push_step exchange overflows
runs_through size memory text small sized room =
    let fits : overflows size 0 (length text) ≡ false =
      rw (lt→ltb (0 + length text) (2 ^ 64) (omega arith))
        (le→ltb_false size (0 + length text) (omega arith)) in
    let claims =
      update (update (update (λ i. idle) 0 (loading text)) 0 (loaded text 0)) 0 (claimed text 0) in
    let s₀ = state 256 memory (update claims 0 (copying text 0 0 text)) [] in
    let copies = replicate (length text) (call text) in
    let leave = call text ∷ call text ∷ [] in
    let (bytes, producers, log, e₁, place, same) =
      copies_all size text s₀ text 0 0 text refl (omega arith) in
    let (s, e₂, finished) = finishes size bytes producers log text (0 + length text) place same in
    (
      s,
      rw
          (
            fits,
            append_assoc copies leave consume_steps,
            run-append size copies (leave ++ consume_steps) s₀,
            e₁,
          )
          e₂,
      finished,
    )

-- Producer 0 alone pushes a text that fits an empty buffer in six steps and one for each byte, and
-- returns success; a `consume` after it returns in six steps and its callback receives just the
-- text. Both buffers have the size that the producer tests against, which fits 64 bits.
pub push_then_consume :
    (size : ℕ) (memory : ℕ → List ℕ) (text : List ℕ)
    → size < 2 ^ 64
    → ((i : ℕ) → length (memory i) ≡ size)
    → length text ≤ size
    → (s : System) × (run size (push_steps text ++ consume_steps) (start memory) ≡ done s)
      × (s.producers 0 ≡ returned (ok tt))
      × (s.consumer ≡ ConsumePc.idle)
      × (s.out ≡ text)
push_then_consume size memory text small sized room =
    let (s, e, finished) = runs_through size memory text small (sized 0) room in
    let (s', e', delivered) =
      run_delivers size memory (push_steps text ++ consume_steps) small sized
        (IsSolo-append (push_steps text) consume_steps (push_steps-IsSolo text) tt) in
    let same : s' ≡ s = cc in
    let got : s.log ≡ s.out ++ unread s = subst (λ x. x.log ≡ x.out ++ unread x) same delivered in
    let out : s.out ≡ text =
      sym (append-nil s.out)
      ∙ ap (λ t. s.out ++ t) (sym finished.nothing_left)
      ∙ sym got
      ∙ finished.log in
    (s, e, finished.result, finished.waits, out)
