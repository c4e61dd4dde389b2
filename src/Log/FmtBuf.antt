-- ===== src/Log/FmtBuf.antt =====
-- hoarder-log/src/lib.rs, `FmtBuf`: a formatting buffer that truncates. Text is the list of its
-- bytes.
use hoarder.Base.{
  ℕ, ◌+◌, ◌-◌, ◌^◌, ◌≤◌, ◌<◌, ◌≡◌, refl, sym, ap, ◌∙◌, min, arith, List, [], ◌∷◌, ◌++◌, length,
  length-append, append_assoc, append-nil, leb, le→leb, if◌then◌else◌, Outcome, done, panic,
  out_of_bounds, ◌>>=◌, Build, debug, release, add_usize, add_usize_lem, take, drop, length-take,
  sub_usize,
}
use hoarder.Base.Slices.{concat, length-drop, take-exact, take-nil, take-append}

pub record FmtBuf : Type 0 where
  pub buf : List ℕ
  pub pos : ℕ

unfoldable pub new : List ℕ → FmtBuf
new buf = record { buf = buf; pos = 0 }

abbrev pub clear : FmtBuf → FmtBuf
clear b = record b { pos = 0 }

abbrev pub len : FmtBuf → ℕ
len b = b.pos

-- `&self.buf[..self.pos]`
unfoldable pub as_bytes : FmtBuf → Outcome (List ℕ)
as_bytes b = if leb b.pos (length b.buf) then done (take b.pos b.buf) else panic out_of_bounds

-- `buf[start..start + n].copy_from_slice(bytes)` for `n` bytes
unfoldable pub copy_at : List ℕ → ℕ → List ℕ → Outcome (List ℕ)
copy_at buf start bytes =
    if leb (start + length bytes) (length buf)
    then done (take start buf ++ (bytes ++ drop (start + length bytes) buf))
    else panic out_of_bounds

unfoldable pub write_str : Build → FmtBuf → List ℕ → Outcome FmtBuf
unfolding copy_at
write_str build b s = do
  available ← sub_usize build (length b.buf) b.pos
  buf ← copy_at b.buf b.pos (take (min (length s) available) s)
  pos ← add_usize build b.pos (min (length s) available)
  done (record { buf = buf; pos = pos })

-- One write after the other.
unfoldable pub write_all : Build → FmtBuf → List (List ℕ) → Outcome FmtBuf
write_all build b [] = done b
write_all build b (s ∷ ss) = do b' ← write_str build b s; write_all build b' ss

-- The buffer holds the bytes, as far as they fit.
pub record Holds (capacity : ℕ) (b : FmtBuf) (q : List ℕ) : Type 0 where
  pub sized : length b.buf ≡ capacity
  pub filled : b.pos ≡ length (take capacity q)
  pub bytes : take b.pos b.buf ≡ take capacity q

pub write_str_lem :
    (build : Build) (capacity : ℕ) (b : FmtBuf) (q s : List ℕ)
    → capacity < 2 ^ 64
    → Holds capacity b q
    → (b' : FmtBuf) × (write_str build b s ≡ done b') × Holds capacity b' (q ++ s)
unfolding write_str copy_at
write_str_lem build capacity b q s small h =
    (b', step, record { sized = sized; filled = filled; bytes = bytes })
  where
    n : ℕ
    n = min (length s) (capacity - b.pos)

    within : b.pos ≤ capacity
    within = omega (arith, h.filled, length-take capacity q)

    taken : length (take n s) ≡ n
    taken = omega (arith, length-take n s)

    b' : FmtBuf
    b' = record {
      buf = take b.pos b.buf ++ (take n s ++ drop (b.pos + length (take n s)) b.buf);
      pos = b.pos + n;
    }

    available : (build : Build) → sub_usize build (length b.buf) b.pos ≡ done (capacity - b.pos)
    available debug = rw (le→leb b.pos (length b.buf) (omega (arith, within, h.sized)), h.sized)
    available release = rw (le→leb b.pos (length b.buf) (omega (arith, within, h.sized)), h.sized)

    step : write_str build b s ≡ done b'
    step = rw (
      available build,
      le→leb (b.pos + length (take n s)) (length b.buf) (omega (arith, taken, within, h.sized)),
      add_usize_lem build b.pos n (omega (arith, within)),
    )

    rest : List ℕ
    rest = drop (b.pos + length (take n s)) b.buf

    front : length (take b.pos b.buf) ≡ b.pos
    front = omega (arith, length-take b.pos b.buf, within, h.sized)

    sized : length b'.buf ≡ capacity
    sized = omega (
      arith,
      length-append (take b.pos b.buf) (take n s ++ rest),
      length-append (take n s) rest,
      length-drop (b.pos + length (take n s)) b.buf,
      h.sized,
      within,
      front,
      taken,
    )

    split : take capacity (q ++ s) ≡ take capacity q ++ take n s
    split =
        take-append capacity q s
        ∙ ap (λ k. take capacity q ++ take k s)
            {x = min (length s) (capacity - length (take capacity q))} (omega (arith, h.filled))

    filled : b'.pos ≡ length (take capacity (q ++ s))
    filled =
        omega (arith, ap length split, length-append (take capacity q) (take n s), taken, h.filled)

    bytes : take b'.pos b'.buf ≡ take capacity (q ++ s)
    bytes =
        ap (λ t. take (b.pos + n) t) (sym (append_assoc (take b.pos b.buf) (take n s) rest))
        ∙ take-exact (b.pos + n) (take b.pos b.buf ++ take n s) rest
            (omega (arith, front, taken, length-append (take b.pos b.buf) (take n s)))
        ∙ ap (λ t. t ++ take n s) h.bytes
        ∙ sym split

pub write_all_lem :
    (build : Build) (capacity : ℕ) (ss : List (List ℕ)) (b : FmtBuf) (q : List ℕ)
    → capacity < 2 ^ 64
    → Holds capacity b q
    → (b' : FmtBuf) × (write_all build b ss ≡ done b') × Holds capacity b' (q ++ concat ss)
unfolding write_all
write_all_lem build capacity [] b q small h = (b, refl, rw append-nil h)
write_all_lem build capacity (s ∷ ss) b q small h =
    let (b₁, e₁, h₁) = write_str_lem build capacity b q s small h in
    let (b₂, e₂, h₂) = write_all_lem build capacity ss b₁ (q ++ s) small h₁ in
    (b₂, rw e₁ e₂, rw (← append_assoc q s (concat ss)) h₂)

pub new-Holds : (buf : List ℕ) → Holds (length buf) (new buf) []
unfolding new
new-Holds buf = record {
  sized = refl;
  filled = omega (arith, length-take {A = ℕ} (length buf) []);
  bytes = sym (take-nil (length buf));
}

pub as_bytes_lem :
    (capacity : ℕ) (b : FmtBuf) (q : List ℕ)
    → Holds capacity b q
    → as_bytes b ≡ done (take capacity q)
unfolding as_bytes
as_bytes_lem capacity b q h =
    rw (le→leb b.pos (length b.buf) (omega (arith, h.filled, h.sized, length-take capacity q)))
      (ap done h.bytes)

-- Writing texts one after the other into a new formatting buffer of fewer than 2 ^ 64 bytes never
-- fails, in both builds, and leaves the first bytes of all the texts together, as many as the
-- buffer has.
pub write_all_truncates :
    (build : Build) (buf : List ℕ) (ss : List (List ℕ))
    → length buf < 2 ^ 64
    → (b : FmtBuf) × (write_all build (new buf) ss ≡ done b)
      × (as_bytes b ≡ done (take (length buf) (concat ss)))
      × (length b.buf ≡ length buf)
write_all_truncates build buf ss small =
    let (b, e, h) = write_all_lem build (length buf) ss (new buf) [] small (new-Holds buf) in
    (b, e, as_bytes_lem (length buf) b (concat ss) h, h.sized)
