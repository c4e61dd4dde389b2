-- ===== src/Log/Logger/Pushing.antt =====
-- Every step of the producer returns and keeps the invariant.
use hoarder.Base.{
  ℕ, suc, ◌+◌, ◌-◌, ◌^◌, ◌%◌, ◌≤◌, ◌<◌, ◌≡◌, ◌≢◌, refl, sym, ap, ◌∙◌, List, [], ◌∷◌, ◌++◌, length,
  take, arith, set, true, false, done, not, ◌&&◌, ◌==◌, leb, length-append, length-set,
  append_assoc, append-nil, write_cell_lem, le→leb, ==_refl, Bool-cases, inl, inr,
}
use Prim.Native.Nat.{bit_and, bit_or}
use hoarder.Base.Bits.{bit_and-low}
use hoarder.Base.Slices.{take-set_at, take-set_behind}
use hoarder.Error.{ok, err, push_error}
use hoarder.Log.Logger.Defs.{
  Shared, update, PushPc, idle, loading, loaded, claimed, copying, releasing, returned, Choice,
  PushStep, push_step, ConsumePc, overflows,
}
use hoarder.Log.Logger.Inv.{writer, contents, OwnPush, OwnConsume, pending, Inv, word_lem}

-- A step of the producer that changes at most the word.
keeps_memory :
    {size active : ℕ} {m : Shared} {p : PushPc} {c : ConsumePc} {log out : List ℕ} (p' : PushPc)
    (word : ℕ)
    → Inv size active m p c log out
    → word ≡ writer p' + active
    → OwnPush size active m.offsets m.bytes p'
    → Inv size active (record m { word = word }) p' c (log ++ []) out
keeps_memory {log} p' word v same own = record {
  small = v.small;
  binary = v.binary;
  sized = v.sized;
  room = v.room;
  word = same;
  push = own;
  consume = v.consume;
  whole = append-nil log ∙ v.whole;
}

-- What the consumer's locals say of the other buffer stays true while only the active one changes.
consume_kept :
    (active : ℕ) (offsets offsets' : ℕ → ℕ) (c : ConsumePc)
    → offsets' (1 - active) ≡ offsets (1 - active)
    → OwnConsume active offsets c
    → OwnConsume active offsets' c
consume_kept active offsets offsets' ConsumePc.idle e h = e ∙ h
consume_kept active offsets offsets' ConsumePc.loading e h = e ∙ h
consume_kept active offsets offsets' (ConsumePc.loaded curr) e h = e ∙ h
consume_kept active offsets offsets' (ConsumePc.swapped i) e h = h
consume_kept active offsets offsets' (ConsumePc.reading i offset) e h =
    (h.0, rw h.0 (h.1 ∙ ap offsets h.0 ∙ sym e))
consume_kept active offsets offsets' (ConsumePc.resetting i) e h = h

pending_kept :
    (active : ℕ) (offsets offsets' : ℕ → ℕ) (bytes bytes' : ℕ → List ℕ) (c : ConsumePc)
    → contents offsets' bytes' (1 - active) ≡ contents offsets bytes (1 - active)
    → pending active offsets' bytes' c ≡ pending active offsets bytes c
pending_kept active offsets offsets' bytes bytes' ConsumePc.idle e = refl
pending_kept active offsets offsets' bytes bytes' ConsumePc.loading e = refl
pending_kept active offsets offsets' bytes bytes' (ConsumePc.loaded curr) e = refl
pending_kept active offsets offsets' bytes bytes' (ConsumePc.swapped i) e = e
pending_kept active offsets offsets' bytes bytes' (ConsumePc.reading i offset) e = e
pending_kept active offsets offsets' bytes bytes' (ConsumePc.resetting i) e = refl

pub update_self : {A : Type 0} (f : ℕ → A) (i : ℕ) (a : A) → update f i a i ≡ a
update_self f i a = rw (==_refl i)

pub update_ne : {A : Type 0} (f : ℕ → A) (i : ℕ) (a : A) {j : ℕ} → i ≢ j → update f i a j ≡ f j
update_ne f i a ne = ground arith

-- The index that a word holds is 0 or 1.
pub index_small : (curr : ℕ) → leb (bit_and curr 1) 1 ≡ true
index_small curr = le→leb (bit_and curr 1) 1 (omega (arith, bit_and-low 1 curr))

room_left : (size offset n : ℕ) → overflows size offset n ≡ false → offset + n ≤ size
unfolding overflows
room_left size offset n h = ground arith

module _ (size active : ℕ) (choice : Choice) (m : Shared) (c : ConsumePc) (log out : List ℕ) where
  -- What a step from a place of the producer comes to.
  abbrev pub Goes : PushPc → Type 0
  Goes p =
      (r : PushStep) × (push_step size choice m p ≡ done r)
      × Inv size active r.0 r.1 c (log ++ r.2) out

  from_loaded :
      (text : List ℕ) (curr : ℕ)
      → Inv size active m (loaded text curr) c log out
      → Goes (loaded text curr)
  unfolding push_step
  from_loaded text curr v = elim (Bool-cases (m.word == curr && not choice.spurious)) [
    | inl won ↦
        let same : curr ≡ active = ground (arith, v.word) in
        let index = ap (λ w. bit_and w 1) same ∙ (word_lem active v.binary).index in
        (
          (record m { word = bit_or 256 (bit_and curr 1) }, claimed text (bit_and curr 1), []),
          rw (index_small curr, won),
          keeps_memory (claimed text (bit_and curr 1)) (bit_or 256 (bit_and curr 1)) v
              (ap (λ w. bit_or 256 w) index ∙ (word_lem active v.binary).claim) index,
        )
    | inr lost ↦ (
      (m, loading text, []),
      rw (index_small curr, lost),
      keeps_memory (loading text) m.word v v.word tt,
    )
  ]

  from_claimed :
      (text : List ℕ) (i : ℕ) → Inv size active m (claimed text i) c log out → Goes (claimed text i)
  unfolding push_step
  from_claimed text i v = elim (Bool-cases (overflows size (m.offsets i) (length text))) [
    | inl full ↦ (
      (m, releasing (err push_error), []),
      rw full,
      keeps_memory (releasing (err push_error)) m.word v v.word tt,
    )
    | inr fits ↦ (
      (m, copying text i (m.offsets i) text, []),
      rw fits,
      keeps_memory (copying text i (m.offsets i) text) m.word v v.word (
        v.push,
        record {
          copied = [];
          parts = refl;
          behind = rw v.push (omega arith);
          fits = rw v.push at (room_left size (m.offsets i) (length text) fits);
          written = rw v.push (sym (append-nil (contents m.offsets m.bytes active)));
        },
      ),
    )
  ]

  copies_byte :
      (text : List ℕ) (i pos byte : ℕ) (rest : List ℕ)
      → Inv size active m (copying text i pos (byte ∷ rest)) c log out
      → Goes (copying text i pos (byte ∷ rest))
  unfolding push_step
  copies_byte text i pos byte rest v =
      let (same, k) = v.push in
      let bytes' = update m.bytes i (set (m.bytes i) pos byte) in
      let active_bytes : bytes' active ≡ set (m.bytes active) pos byte =
        rw same (update_self m.bytes active (set (m.bytes active) pos byte)) in
      let other_bytes : bytes' (1 - active) ≡ m.bytes (1 - active) =
        update_ne m.bytes i (set (m.bytes i) pos byte) (omega (arith, v.binary, same)) in
      let before : m.offsets active ≤ pos = omega (arith, k.behind) in
      let kept : contents m.offsets bytes' active ≡ contents m.offsets m.bytes active =
        ap (λ t. take (m.offsets active) t) active_bytes
        ∙ take-set_behind (m.bytes active) (m.offsets active) pos byte before in
      let pend =
        pending_kept active m.offsets m.offsets m.bytes bytes' c
          (ap (λ t. take (m.offsets (1 - active)) t) other_bytes) in
      let within : pos < size =
        omega (arith, k.behind, k.fits, ap length k.parts, length-append k.copied (byte ∷ rest)) in
      (
        (record m { bytes = bytes' }, copying text i (suc pos) rest, []),
        rw (write_cell_lem (m.bytes i) pos byte (omega (arith, v.sized i))),
        record {
          small = v.small;
          binary = v.binary;
          sized = λ j. ground (arith, v.sized j, v.sized i, length-set (m.bytes i) pos byte);
          room = v.room;
          word = v.word;
          push = (
            same,
            record {
              copied = k.copied ++ (byte ∷ []);
              parts = k.parts ∙ sym (append_assoc k.copied (byte ∷ []) rest);
              behind = omega (arith, k.behind, length-append k.copied (byte ∷ []));
              fits = k.fits;
              written =
                  ap (λ t. take (suc pos) t) active_bytes
                  ∙ take-set_at (m.bytes active) pos byte (omega (arith, within, v.sized active))
                  ∙ ap (λ t. t ++ (byte ∷ [])) k.written
                  ∙ append_assoc (contents m.offsets m.bytes active) k.copied (byte ∷ [])
                  ∙ ap (λ t. t ++ (k.copied ++ (byte ∷ []))) (sym kept);
            },
          );
          consume = v.consume;
          whole =
              append-nil log
              ∙ v.whole
              ∙ sym (
                  ap (λ t. out ++ (t ++ contents m.offsets bytes' active)) pend
                  ∙ ap (λ t. out ++ (pending active m.offsets m.bytes c ++ t)) kept);
        },
      )

  commits :
      (text : List ℕ) (i pos : ℕ)
      → Inv size active m (copying text i pos []) c log out
      → Goes (copying text i pos [])
  unfolding push_step
  commits text i pos v =
      let (same, k) = v.push in
      let offsets' = update m.offsets i ((m.offsets i + length text) % 2 ^ 64) in
      let active_offset : offsets' active ≡ m.offsets active + length text = rw same (
        update_self m.offsets active ((m.offsets active + length text) % 2 ^ 64)
        ∙ omega (arith, k.fits, v.small)) in
      let other_offset : offsets' (1 - active) ≡ m.offsets (1 - active) =
        update_ne m.offsets i ((m.offsets i + length text) % 2 ^ 64)
          (omega (arith, v.binary, same)) in
      let old = pending active m.offsets m.bytes c in
      let kept = contents m.offsets m.bytes active in
      let pend : pending active offsets' m.bytes c ≡ old =
        pending_kept active m.offsets offsets' m.bytes m.bytes c
          (ap (λ n. take n (m.bytes (1 - active))) other_offset) in
      let text_copied : text ≡ k.copied = k.parts ∙ append-nil k.copied in
      let end : offsets' active ≡ pos =
        omega (arith, active_offset, k.behind, ap length text_copied) in
      let committed : contents offsets' m.bytes active ≡ kept ++ text =
        ap (λ n. take n (m.bytes active)) end ∙ k.written ∙ ap (λ t. kept ++ t) (sym text_copied) in
      (
        (record m { offsets = offsets' }, releasing (ok tt), text),
        refl,
        record {
          small = v.small;
          binary = v.binary;
          sized = v.sized;
          room = λ j. ground (arith, v.room j, k.fits, v.small, ap m.offsets same);
          word = v.word;
          push = tt;
          consume = consume_kept active m.offsets offsets' c other_offset v.consume;
          whole =
              ap (λ t. t ++ text) v.whole
              ∙ append_assoc out (old ++ kept) text
              ∙ ap (λ t. out ++ t) (append_assoc old kept text)
              ∙ sym (
                  ap (λ t. out ++ (t ++ contents offsets' m.bytes active)) pend
                  ∙ ap (λ t. out ++ (old ++ t)) committed);
        },
      )

  pub push_step-Inv : (p : PushPc) → Inv size active m p c log out → Goes p
  unfolding push_step
  push_step-Inv idle v = (_, refl, keeps_memory (loading choice.text) m.word v v.word tt)
  push_step-Inv (loading text) v = (_, refl, keeps_memory (loaded text m.word) m.word v v.word tt)
  push_step-Inv (loaded text curr) v = from_loaded text curr v
  push_step-Inv (claimed text i) v = from_claimed text i v
  push_step-Inv (copying text i pos (byte ∷ rest)) v = copies_byte text i pos byte rest v
  push_step-Inv (copying text i pos []) v = commits text i pos v
  push_step-Inv (releasing r) v = (
    _,
    refl,
    keeps_memory (returned r) _ v (rw v.word ((word_lem active v.binary).release ∙ omega arith)) tt,
  )
  push_step-Inv (returned r) v = (_, refl, keeps_memory idle m.word v v.word tt)
