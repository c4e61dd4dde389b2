-- ===== src/Log/Tests.antt =====
-- The logger on two buffers of a few bytes.
use hoarder.Base.{
  length, ℕ, ◌≡◌, ◌≢◌, refl, arith, some, write_cell, List, [], ◌∷◌, ◌++◌, length-replicate,
  replicate, Outcome, done, false, debug, take,
}
use hoarder.Base.Slices.{concat}
use hoarder.Error.{ok}
use hoarder.Log.Line.{info, hlog, init_logger, whole_line, long_line_unended, max_log_line, prefix}
use hoarder.Log.Delivery.{logged_line_arrives}
use hoarder.Log.Logger.Defs.{
  returned, ConsumePc, push_step, consume_step, panic_flush, exchange, swap, overflows, copy_byte,
}
use hoarder.Log.Logger.Inv.{contents}
use hoarder.Log.Logger.System.{System, Actor, consumes, run, start, IsSolo, run_excludes}
use hoarder.Log.Logger.Alone.{call, push_steps, IsSolo-append, push_steps-IsSolo, consume_steps}
use hoarder.Main.Threads.{log_thread, log_thread_catches_up, panic_hook, panic_hook_completes}
use hoarder.Log.Logger.Races.{overlapping, two_producers_lose}
use hoarder.Log.Logger.Flush.{panic_flush_reorders}

abbrev memory : ℕ → List ℕ
memory i = 0 ∷ 0 ∷ 0 ∷ []

-- A call after another has returned.
abbrev again : List ℕ → List Actor
again text = call text ∷ push_steps text

again-IsSolo : (text : List ℕ) → IsSolo (again text)
again-IsSolo text = (refl, push_steps-IsSolo text)

-- A text goes in and comes out, another goes in, the consumer swaps, and a third one goes in.
abbrev refilled : List Actor
refilled =
    push_steps (7 ∷ [])
    ++ (consume_steps ++ (again (8 ∷ []) ++ (replicate 3 (consumes false) ++ again (9 ∷ []))))

-- The producer copies into one buffer while the consumer has swapped the other.
abbrev beside : List Actor
beside = push_steps (7 ∷ []) ++ (replicate 3 (consumes false) ++ replicate 4 (call (8 ∷ [])))

abbrev ended : Outcome System → System
ended (done s) = s
ended _ = start memory

abbrev after : List Actor → System
unfolding run push_step consume_step start
after schedule = ended (run 3 schedule (start memory))

refilled-IsSolo : IsSolo refilled
refilled-IsSolo =
    IsSolo-append (push_steps (7 ∷ []))
      (consume_steps ++ (again (8 ∷ []) ++ (replicate 3 (consumes false) ++ again (9 ∷ []))))
      (push_steps-IsSolo (7 ∷ []))
      (IsSolo-append (again (8 ∷ [])) (replicate 3 (consumes false) ++ again (9 ∷ []))
        (again-IsSolo (8 ∷ [])) (again-IsSolo (9 ∷ [])))

beside-IsSolo : IsSolo beside
beside-IsSolo =
    IsSolo-append (push_steps (7 ∷ []))
      (replicate 3 (consumes false) ++ replicate 4 (call (8 ∷ []))) (push_steps-IsSolo (7 ∷ []))
      (refl, (refl, (refl, (refl, tt))))

run_excludes_example : ◌≢◌ {A = ℕ} 1 0
unfolding run push_step consume_step swap exchange overflows copy_byte write_cell start after
run_excludes_example =
    run_excludes 3 memory beside (after beside) 1 0 (omega arith) (λ i. refl) beside-IsSolo refl
      refl refl

two_producers_lose_example :
    (s : System) × (run 3 (overlapping 7 8) (start (λ i. 0 ∷ 0 ∷ 0 ∷ [])) ≡ done s)
    × (s.producers 0 ≡ returned (ok tt))
    × (s.producers 1 ≡ returned (ok tt))
    × (s.log ≡ 7 ∷ 8 ∷ [])
    × (contents s.shared.offsets s.shared.bytes 0 ≡ 8 ∷ 0 ∷ [])
two_producers_lose_example = two_producers_lose 7 8 0 0 (0 ∷ []) (omega arith)

panic_flush_reorders_example :
    ((after refilled).log ≡ (7 ∷ []) ++ ((8 ∷ []) ++ (9 ∷ [])))
    × (concat (panic_flush (after refilled).shared) ≡ (9 ∷ []) ++ (8 ∷ []))
unfolding run push_step consume_step swap exchange overflows copy_byte write_cell start after
panic_flush_reorders_example =
    panic_flush_reorders 3 memory refilled (after refilled) (omega arith) (λ i. refl)
      refilled-IsSolo refl refl

logged_line_arrives_example :
    (bytes : List ℕ) × (s : System) × (hlog {Producer = ℕ} debug
        (init_logger 0)
        info
        ((104 ∷ 105 ∷ []) ∷ [])
      ≡ done (some (0, bytes)))
    × (run 512 (push_steps bytes ++ consume_steps) (start (λ i. replicate 512 0)) ≡ done s)
    × (s.out ≡ take max_log_line (whole_line info ((104 ∷ 105 ∷ []) ∷ [])))
logged_line_arrives_example =
    logged_line_arrives debug info ((104 ∷ 105 ∷ []) ∷ []) 512 (λ i. replicate 512 0) (omega arith)
      (λ i. length-replicate {A = ℕ} 512 0) (omega arith)

abbrev long_text : List ℕ
long_text = replicate 505 97

long_line_unended_example :
    hlog {Producer = ℕ} debug (init_logger 0) info (long_text ∷ [])
    ≡ done (some (0, take max_log_line (prefix info ++ concat (long_text ∷ []))))
long_line_unended_example =
    long_line_unended {Producer = ℕ} debug 0 info (long_text ∷ []) (omega arith)

log_thread_catches_up_example :
    (s : System) × (run 3 (log_thread 2) (after (push_steps (7 ∷ 8 ∷ []))) ≡ done s)
    × (s.consumer ≡ ConsumePc.idle)
    × (s.out ≡ (after (push_steps (7 ∷ 8 ∷ []))).log)
unfolding run push_step consume_step swap exchange overflows copy_byte write_cell start after
log_thread_catches_up_example =
    log_thread_catches_up 3 memory 1 (push_steps (7 ∷ 8 ∷ [])) (after (push_steps (7 ∷ 8 ∷ [])))
      (omega arith) (λ i. refl) (push_steps-IsSolo (7 ∷ 8 ∷ [])) refl refl refl

panic_hook_completes_example :
    panic_hook length (after (push_steps (7 ∷ 8 ∷ []))).shared (after (push_steps (7 ∷ 8 ∷ []))).out
    ≡ (after (push_steps (7 ∷ 8 ∷ []))).log
unfolding run push_step consume_step swap exchange overflows copy_byte write_cell start after
panic_hook_completes_example =
    panic_hook_completes length 3 memory (push_steps (7 ∷ 8 ∷ [])) (after (push_steps (7 ∷ 8 ∷ [])))
      (omega arith) (λ i. refl) (push_steps-IsSolo (7 ∷ 8 ∷ [])) refl refl (λ buf. refl)
