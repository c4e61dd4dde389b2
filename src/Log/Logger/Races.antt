-- ===== src/Log/Logger/Races.antt =====
-- What the word does not prevent: two producers in one buffer, and a flush out of order.
use hoarder.Base.{
  ℕ, suc, ◌^◌, ◌<◌, ◌≡◌, refl, List, [], ◌∷◌, length, arith, false, done, write_cell, lt→ltb,
  le→ltb_false,
}
use hoarder.Error.{ok}
use hoarder.Log.Logger.Defs.{
  update, idle, loading, loaded, claimed, copying, releasing, returned, push_step, ConsumePc,
  overflows, exchange, copy_byte,
}
use hoarder.Log.Logger.Inv.{contents}
use hoarder.Log.Logger.System.{System, Actor, produces, run, start}

-- A call that pushes one byte.
abbrev byte_call : ℕ → ℕ → Actor
byte_call i byte = produces i (record { text = byte ∷ []; spurious = false })

-- Producer 0 claims the buffer and tests its room, producer 1 does the same, and both write, count
-- and leave in turn.
abbrev pub overlapping : ℕ → ℕ → List Actor
overlapping a b =
    let p = byte_call 0 a in
    let q = byte_call 1 b in p ∷ p ∷ p ∷ p ∷ q ∷ q ∷ q ∷ q ∷ p ∷ q ∷ p ∷ q ∷ p ∷ q ∷ []

fits_one : (n : ℕ) → suc (suc n) < 2 ^ 64 → overflows (suc (suc n)) 0 1 ≡ false
unfolding overflows
fits_one n h = ground arith

-- The writer bit does not keep a second producer out: on a buffer of two bytes or more there is an
-- interleaving of two pushes of a byte each in which both return success, and the buffer then has
-- the second byte in the place of the first one and a byte that nobody wrote behind it. The
-- buffer's size fits 64 bits.
pub two_producers_lose :
    (a b x y : ℕ) (rest : List ℕ)
    → length (x ∷ y ∷ rest) < 2 ^ 64
    → (s : System) × (run (length (x ∷ y ∷ rest)) (overlapping a b) (start (λ i. x ∷ y ∷ rest))
        ≡ done s)
      × (s.producers 0 ≡ returned (ok tt))
      × (s.producers 1 ≡ returned (ok tt))
      × (s.log ≡ a ∷ b ∷ [])
      × (contents s.shared.offsets s.shared.bytes 0 ≡ b ∷ y ∷ [])
unfolding run start push_step exchange copy_byte write_cell
two_producers_lose a b x y rest small =
    let room = le→ltb_false (suc (suc (length rest))) 1 (omega arith) in
    let within = lt→ltb 0 (suc (suc (length rest))) (omega arith) in
    let fits = fits_one (length rest) small in
    (
      record {
        shared = record {
          word = 0;
          offsets = update (update (λ i. 0) 0 1) 0 2;
          bytes = update (update (λ i. x ∷ y ∷ rest) 0 (a ∷ y ∷ rest)) 0 (b ∷ y ∷ rest);
        };
        producers =
            update
              (update
                (update
                  (update
                    (update
                      (update
                        (update
                          (update
                            (update
                              (update
                                (update
                                  (update
                                    (update (update (λ i. idle) 0 (loading (a ∷ []))) 0
                                      (loaded (a ∷ []) 0))
                                    0 (claimed (a ∷ []) 0))
                                  0 (copying (a ∷ []) 0 0 (a ∷ [])))
                                1 (loading (b ∷ [])))
                              1 (loaded (b ∷ []) 256))
                            1 (claimed (b ∷ []) 0))
                          1 (copying (b ∷ []) 0 0 (b ∷ [])))
                        0 (copying (a ∷ []) 0 1 []))
                      1 (copying (b ∷ []) 0 1 []))
                    0 (releasing (ok tt)))
                  1 (releasing (ok tt)))
                0 (returned (ok tt)))
              1 (returned (ok tt));
        consumer = ConsumePc.idle;
        log = a ∷ b ∷ [];
        out = [];
      },
      rw (fits, room, copy_byte, write_cell, within) (rw within),
      refl,
      refl,
      refl,
      refl,
    )
