-- ===== src/Log/Line.antt =====
-- hoarder-log/src/lib.rs, `LogLevel`, `init_logger` and the macro `__hlog`: one log line.
use hoarder.Base.{
  ℕ, ◌≤◌, ◌≡◌, refl, ap, ◌∙◌, arith, Option, some, none, List, [], ◌∷◌, ◌++◌, length, append-nil,
  replicate, Outcome, done, ◌>>=◌, Build, take, length-take,
}
use hoarder.Base.Slices.{concat, take-append}
use hoarder.Log.FmtBuf
use hoarder.Log.FmtBuf.{
  write_all, write_str, as_bytes, write_str_lem, write_all_lem, new-Holds, as_bytes_lem,
}

pub data LogLevel : Type 0 where
  print debug info warn error : LogLevel

-- "", "[DEBUG] ", "[INFO] ", "[WARN] " and "[ERROR] "
abbrev pub prefix : LogLevel → List ℕ
prefix print = []
prefix debug = 91 ∷ 68 ∷ 69 ∷ 66 ∷ 85 ∷ 71 ∷ 93 ∷ 32 ∷ []
prefix info = 91 ∷ 73 ∷ 78 ∷ 70 ∷ 79 ∷ 93 ∷ 32 ∷ []
prefix warn = 91 ∷ 87 ∷ 65 ∷ 82 ∷ 78 ∷ 93 ∷ 32 ∷ []
prefix error = 91 ∷ 69 ∷ 82 ∷ 82 ∷ 79 ∷ 82 ∷ 93 ∷ 32 ∷ []

abbrev pub max_log_line : ℕ
max_log_line = 512

abbrev pub newline : List ℕ
newline = 10 ∷ []

-- `LOGGER_PTR`: null until `init_logger` stores the producer.
abbrev pub init_logger {ℓ} : {Producer : Type ℓ} → Producer → Option Producer
init_logger producer = some producer

-- The producer and the bytes that `__hlog` pushes, if there is a producer. The formatting of the
-- arguments writes its pieces one after the other.
unfoldable pub hlog {ℓ} :
    {Producer : Type ℓ}
    → Build
    → Option Producer
    → LogLevel
    → List (List ℕ)
    → Outcome (Option (Producer × List ℕ))
hlog build none level pieces = done none
hlog build (some producer) level pieces = do
  prefixed ← write_str build (FmtBuf.new (replicate max_log_line 0)) (prefix level)
  formatted ← write_all build prefixed pieces
  ended ← write_str build formatted newline
  bytes ← as_bytes ended
  done (some (producer, bytes))

-- The macros of the levels.
abbrev pub hprint {ℓ} :
    {Producer : Type ℓ}
    → Build
    → Option Producer
    → List (List ℕ)
    → Outcome (Option (Producer × List ℕ))
hprint build producer pieces = hlog build producer print pieces

abbrev pub hdebug {ℓ} :
    {Producer : Type ℓ}
    → Build
    → Option Producer
    → List (List ℕ)
    → Outcome (Option (Producer × List ℕ))
hdebug build producer pieces = hlog build producer debug pieces

abbrev pub hinfo {ℓ} :
    {Producer : Type ℓ}
    → Build
    → Option Producer
    → List (List ℕ)
    → Outcome (Option (Producer × List ℕ))
hinfo build producer pieces = hlog build producer info pieces

abbrev pub hwarn {ℓ} :
    {Producer : Type ℓ}
    → Build
    → Option Producer
    → List (List ℕ)
    → Outcome (Option (Producer × List ℕ))
hwarn build producer pieces = hlog build producer warn pieces

abbrev pub herror {ℓ} :
    {Producer : Type ℓ}
    → Build
    → Option Producer
    → List (List ℕ)
    → Outcome (Option (Producer × List ℕ))
herror build producer pieces = hlog build producer error pieces

-- The bytes of a line before the buffer's end cuts it.
abbrev pub whole_line : LogLevel → List (List ℕ) → List ℕ
whole_line level pieces = (prefix level ++ concat pieces) ++ newline

module _ {ℓ} {Producer : Type ℓ} (build : Build) (producer : Producer) (level : LogLevel)
    (pieces : List (List ℕ)) where
  -- What `__hlog` pushes.
  pub hlog_lem :
      hlog build (init_logger producer) level pieces
      ≡ done (some (producer, take max_log_line (whole_line level pieces)))
  unfolding hlog
  hlog_lem =
      let raw : List ℕ = replicate max_log_line 0 in
      let (b₁, e₁, h₁) =
        write_str_lem build max_log_line (FmtBuf.new raw) [] (prefix level) (omega arith)
          (new-Holds raw) in
      let (b₂, e₂, h₂) =
        write_all_lem build max_log_line pieces b₁ (prefix level) (omega arith) h₁ in
      let (b₃, e₃, h₃) =
        write_str_lem build max_log_line b₂ (prefix level ++ concat pieces) newline (omega arith)
          h₂ in
      let bytes = as_bytes_lem max_log_line b₃ (whole_line level pieces) h₃ in
      rw (e₁, e₂, e₃, bytes) refl

  -- A line whose prefix and pieces have 512 bytes or more is logged as its first 512 bytes, without
  -- an end of line.
  pub long_line_unended :
      max_log_line ≤ length (prefix level ++ concat pieces)
      → hlog build (init_logger producer) level pieces
        ≡ done (some (producer, take max_log_line (prefix level ++ concat pieces)))
  long_line_unended long =
      let text = prefix level ++ concat pieces in
      let cut : take max_log_line (text ++ newline) ≡ take max_log_line text =
        take-append max_log_line text newline
        ∙ ap (λ n. take max_log_line text ++ take n newline) {y = 0}
            (omega (arith, length-take max_log_line text))
        ∙ append-nil (take max_log_line text) in
      hlog_lem ∙ ap (λ t. done (some (producer, t))) cut
