-- ===== src/Log/Logger/Consuming.antt =====
-- Every step of the consumer returns and keeps the invariant; a swap makes the other buffer active.
use Prim.Native.Nat.{bit_and}
use hoarder.Base.{
  ℕ, ◌+◌, ◌-◌, ◌≡◌, refl, sym, ap, ◌∙◌, List, [], ◌++◌, take, arith, Bool, done, not, ◌&&◌, ◌==◌,
  ltb, append_assoc, append-nil, Bool-cases, ◌⊎◌, inl, inr, subst,
}
use hoarder.Log.Logger.Defs.{
  Shared, update, PushPc, idle, loading, loaded, claimed, copying, releasing, returned, ConsumePc,
  ConsumeStep, consume_step,
}
use hoarder.Log.Logger.Inv.{
  writer, contents, IsCopying, OwnPush, OwnConsume, pending, Inv, word_lem,
}
use hoarder.Log.Logger.Pushing.{update_self, update_ne, index_small}

-- The consumer's steps that leave the shared state as it is and deliver nothing.
stays :
    {size active : ℕ} {m : Shared} {p : PushPc} {c : ConsumePc} {log out : List ℕ} (c' : ConsumePc)
    → Inv size active m p c log out
    → OwnConsume active m.offsets c'
    → pending active m.offsets m.bytes c' ≡ pending active m.offsets m.bytes c
    → Inv size active m p c' log (out ++ [])
stays {active} {m} {out} c' v own same = record {
  small = v.small;
  binary = v.binary;
  sized = v.sized;
  room = v.room;
  word = v.word;
  push = v.push;
  consume = own;
  whole =
      v.whole
      ∙ ap (λ t. out ++ (t ++ contents m.offsets m.bytes active)) (sym same)
      ∙ ap (λ t. t ++ (pending active m.offsets m.bytes c' ++ contents m.offsets m.bytes active))
          (sym (append-nil out));
}

-- While the active offset and buffer stay, so does what the producer's locals say.
push_kept :
    (size active : ℕ) (offsets offsets' : ℕ → ℕ) (bytes : ℕ → List ℕ) (p : PushPc)
    → offsets' active ≡ offsets active
    → OwnPush size active offsets bytes p
    → OwnPush size active offsets' bytes p
push_kept size active offsets offsets' bytes (claimed text i) e own = own
push_kept size active offsets offsets' bytes (copying text i pos rest) e own =
    (own.0, subst (λ n. IsCopying size n (bytes active) text pos rest) (sym e) own.1)
push_kept size active offsets offsets' bytes idle e own = tt
push_kept size active offsets offsets' bytes (loading text) e own = tt
push_kept size active offsets offsets' bytes (loaded text curr) e own = tt
push_kept size active offsets offsets' bytes (releasing r) e own = tt
push_kept size active offsets offsets' bytes (returned r) e own = tt

-- A producer without the writer bit holds no buffer.
push_free :
    (size active active' : ℕ) (offsets : ℕ → ℕ) (bytes : ℕ → List ℕ) (p : PushPc)
    → writer p ≡ 0
    → OwnPush size active offsets bytes p
    → OwnPush size active' offsets bytes p
push_free size active active' offsets bytes (claimed text i) e own = absurd (omega arith)
push_free size active active' offsets bytes (copying text i pos rest) e own = absurd (omega arith)
push_free size active active' offsets bytes idle e own = tt
push_free size active active' offsets bytes (loading text) e own = tt
push_free size active active' offsets bytes (loaded text curr) e own = tt
push_free size active active' offsets bytes (releasing r) e own = absurd (omega arith)
push_free size active active' offsets bytes (returned r) e own = tt

writer_cases : (p : PushPc) → (writer p ≡ 0) ⊎ (writer p ≡ 256)
writer_cases p = ground arith

module _ (size active : ℕ) (spurious : Bool) (m : Shared) (p : PushPc) (log out : List ℕ) where
  -- What a step from a place of the consumer comes to.
  abbrev pub Goes : ConsumePc → Type 0
  Goes c =
      (r : ConsumeStep) × (active' : ℕ) × (consume_step spurious m c ≡ done r)
      × Inv size active' r.0 p r.1 log (out ++ r.2)

  -- The compare-and-exchange saw a word without the writer bit, so no producer is inside.
  no_writer_inside :
      (curr : ℕ)
      → Inv size active m p (ConsumePc.loaded curr) log out
      → m.word ≡ curr
      → bit_and curr 256 ≡ 0
      → writer p ≡ 0
  no_writer_inside curr v same clear = elim (writer_cases p) [
    | inl e ↦ e
    | inr e ↦
        let word : curr ≡ 256 + active = omega (arith, v.word) in
        absurd (omega (arith, ap (λ w. bit_and w 256) word, (word_lem active v.binary).set))
  ]

  swaps :
      (curr : ℕ)
      → Inv size active m p (ConsumePc.loaded curr) log out
      → m.word ≡ curr
      → bit_and curr 256 ≡ 0
      → Inv size
          (1 - active)
          (record m { word = bit_and 1 (1 - bit_and curr 1) })
          p
          (ConsumePc.swapped (bit_and curr 1))
          log
          (out ++ [])
  swaps curr v same clear =
      let free = no_writer_inside curr v same clear in
      let w = word_lem active v.binary in
      let index : bit_and curr 1 ≡ active =
        ap (λ n. bit_and n 1) {y = active} (omega (arith, v.word)) ∙ w.index in
      let back : 1 - (1 - active) ≡ active = omega (arith, v.binary) in
      let empty : contents m.offsets m.bytes (1 - active) ≡ [] =
        ap (λ n. take n (m.bytes (1 - active))) v.consume in
      record {
        small = v.small;
        binary = omega arith;
        sized = v.sized;
        room = v.room;
        word = ap (λ n. bit_and 1 (1 - n)) index ∙ w.flip ∙ omega (arith, free);
        push = push_free size active (1 - active) m.offsets m.bytes p free v.push;
        consume = index ∙ sym back;
        whole =
            v.whole
            ∙ ap (λ t. out ++ t) (sym (append-nil (contents m.offsets m.bytes active)))
            ∙ ap (λ t. out ++ (contents m.offsets m.bytes active ++ t)) (sym empty)
            ∙ ap
                (λ n.
                  out ++ (contents m.offsets m.bytes n ++ contents m.offsets m.bytes (1 - active)))
                (sym back)
            ∙ ap
                (λ t.
                  t
                  ++ (contents m.offsets m.bytes (1 - (1 - active))
                      ++ contents m.offsets m.bytes (1 - active)))
                (sym (append-nil out));
      }

  from_loaded :
      (curr : ℕ)
      → Inv size active m p (ConsumePc.loaded curr) log out
      → Goes (ConsumePc.loaded curr)
  unfolding consume_step
  from_loaded curr v = elim (Bool-cases (bit_and curr 256 == 0)) [
    | inr held ↦
        ((m, ConsumePc.loading, []), active, rw held, stays ConsumePc.loading v v.consume refl)
    | inl clear ↦ elim (Bool-cases (m.word == curr && not spurious)) [
      | inr lost ↦ (
        (m, ConsumePc.loading, []),
        active,
        rw (clear, index_small curr, lost),
        stays ConsumePc.loading v v.consume refl,
      )
      | inl won ↦ (
        (
          record m { word = bit_and 1 (1 - bit_and curr 1) },
          ConsumePc.swapped (bit_and curr 1),
          [],
        ),
        1 - active,
        rw (clear, index_small curr, won),
        swaps curr v (ground arith) (ground arith),
      )
    ]
  ]

  delivers :
      (i offset : ℕ) (got : List ℕ)
      → Inv size active m p (ConsumePc.reading i offset) log out
      → got ≡ contents m.offsets m.bytes (1 - active)
      → Inv size active m p (ConsumePc.resetting i) log (out ++ got)
  delivers i offset got v e = record {
    small = v.small;
    binary = v.binary;
    sized = v.sized;
    room = v.room;
    word = v.word;
    push = v.push;
    consume = v.consume.0;
    whole =
        v.whole
        ∙ sym (
            append_assoc out (contents m.offsets m.bytes (1 - active))
              (contents m.offsets m.bytes active))
        ∙ ap (λ t. (out ++ t) ++ contents m.offsets m.bytes active) (sym e);
  }

  from_reading :
      (i offset : ℕ)
      → Inv size active m p (ConsumePc.reading i offset) log out
      → Goes (ConsumePc.reading i offset)
  unfolding consume_step
  from_reading i offset v =
      let there : take offset (m.bytes i) ≡ contents m.offsets m.bytes (1 - active) =
        ap (λ n. take n (m.bytes i)) v.consume.1 ∙ ap (contents m.offsets m.bytes) v.consume.0 in
      elim (Bool-cases (ltb 0 offset)) [
        | inl some_bytes ↦ (
          (m, ConsumePc.resetting i, take offset (m.bytes i)),
          active,
          rw some_bytes,
          delivers i offset (take offset (m.bytes i)) v there,
        )
        | inr none_there ↦
            let zero_offset : 0 ≡ offset = ground arith in
            (
              (m, ConsumePc.resetting i, []),
              active,
              rw none_there,
              delivers i offset [] v (ap (λ n. take n (m.bytes i)) zero_offset ∙ there),
            )
      ]

  from_resetting :
      (i : ℕ) → Inv size active m p (ConsumePc.resetting i) log out → Goes (ConsumePc.resetting i)
  unfolding consume_step
  from_resetting i v =
      let offsets' = update m.offsets i 0 in
      let same : offsets' active ≡ m.offsets active =
        update_ne m.offsets i 0 (omega (arith, v.binary, v.consume)) in
      let empty : offsets' (1 - active) ≡ 0 = rw v.consume (update_self m.offsets (1 - active) 0) in
      (
        (record m { offsets = offsets' }, ConsumePc.idle, []),
        active,
        refl,
        record {
          small = v.small;
          binary = v.binary;
          sized = v.sized;
          room = λ j. ground (arith, v.room j);
          word = v.word;
          push = push_kept size active m.offsets offsets' m.bytes p same v.push;
          consume = empty;
          whole =
              v.whole
              ∙ ap (λ n. out ++ take n (m.bytes active)) (sym same)
              ∙ ap (λ t. t ++ contents offsets' m.bytes active) (sym (append-nil out));
        },
      )

  pub consume_step-Inv : (c : ConsumePc) → Inv size active m p c log out → Goes c
  unfolding consume_step
  consume_step-Inv ConsumePc.idle v = (_, active, refl, stays ConsumePc.loading v v.consume refl)
  consume_step-Inv ConsumePc.loading v =
      (_, active, refl, stays (ConsumePc.loaded m.word) v v.consume refl)
  consume_step-Inv (ConsumePc.loaded curr) v = from_loaded curr v
  consume_step-Inv (ConsumePc.swapped i) v =
      (_, active, refl, stays (ConsumePc.reading i (m.offsets i)) v (v.consume, refl) refl)
  consume_step-Inv (ConsumePc.reading i offset) v = from_reading i offset v
  consume_step-Inv (ConsumePc.resetting i) v = from_resetting i v
