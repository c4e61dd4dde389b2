-- ===== src/Log/Delivery.antt =====
-- From the macro `__hlog` to the callback of `consume`.
use hoarder.Base.{
  ℕ, ◌^◌, ◌≤◌, ◌<◌, ◌≡◌, arith, some, List, ◌++◌, length, length-take, done, Build, take,
}
use hoarder.Log.Line.{LogLevel, init_logger, hlog, hlog_lem, whole_line, max_log_line}
use hoarder.Log.Logger.System.{System, run, start}
use hoarder.Log.Logger.Alone.{push_steps, consume_steps, push_then_consume}

-- A line that is logged at any level in any pieces, pushed by producer 0 and followed by one
-- `consume`, with nobody else running, reaches the callback: the level's prefix, the pieces and the
-- end of line, as far as 512 bytes go. Both buffers have the size that the producer tests against,
-- which fits 64 bits and is at least 512.
pub logged_line_arrives :
    (build : Build) (level : LogLevel) (pieces : List (List ℕ)) (size : ℕ) (memory : ℕ → List ℕ)
    → size < 2 ^ 64
    → ((i : ℕ) → length (memory i) ≡ size)
    → max_log_line ≤ size
    → (bytes : List ℕ) × (s : System) × (hlog {Producer = ℕ} build (init_logger 0) level pieces
        ≡ done (some (0, bytes)))
      × (run size (push_steps bytes ++ consume_steps) (start memory) ≡ done s)
      × (s.out ≡ take max_log_line (whole_line level pieces))
logged_line_arrives build level pieces size memory small sized room =
    let bytes : List ℕ = take max_log_line (whole_line level pieces) in
    let fits : length bytes ≤ size =
      omega (arith, length-take max_log_line (whole_line level pieces)) in
    let (s, e, _, _, out) = push_then_consume size memory bytes small sized fits in
    (bytes, s, hlog_lem build 0 level pieces, e, out)
