-- ===== src/Main/Threads.antt =====
-- hoarder-blob/src/main.rs: the log's thread and the panic hook, and what they leave on the standard
-- output. How much of a buffer `write` takes is a parameter; its answer is ignored.
use hoarder.Base.{
  ℕ, zero, suc, ◌^◌, ◌<◌, ◌≡◌, sym, ap, ◌∙◌, List, [], ◌∷◌, ◌++◌, length, take, none, done,
  append-nil, append_assoc,
}
use hoarder.Base.Slices.{concat, take-exact}
use hoarder.Log.Logger.Defs.{Shared, ConsumePc, panic_flush}
use hoarder.Log.Logger.Inv.{writer}
use hoarder.Log.Logger.Alone.{consume_steps, run-append, IsSolo-append}
use hoarder.Log.Logger.Rounds.{consumer_catches_up}
use hoarder.Log.Logger.System.{System, Actor, run, start, IsSolo, consumes_from}
use hoarder.Log.Logger.Flush.{panic_flush_completes}

-- So many rounds of the loop of the log's thread, in each of which `consume` meets nobody.
unfoldable pub log_thread : ℕ → List Actor
log_thread zero = []
log_thread (suc n) = consume_steps ++ log_thread n

-- Whenever producer 0, after any interleaving of its steps with those of the consumer, has not
-- claimed a buffer and the consumer is between two calls of `consume`, the log's thread catches up:
-- after any number of its rounds in which `consume` meets nobody, but at least one, the callback
-- has received the whole log. Both buffers have the size that the producer tests against, which
-- fits 64 bits.
pub log_thread_catches_up :
    (size : ℕ) (memory : ℕ → List ℕ) (n : ℕ) (schedule : List Actor) (s : System)
    → size < 2 ^ 64
    → ((i : ℕ) → length (memory i) ≡ size)
    → IsSolo schedule
    → run size schedule (start memory) ≡ done s
    → writer (s.producers 0) ≡ 0
    → s.consumer ≡ ConsumePc.idle
    → (s' : System) × (run size (log_thread (suc n)) s ≡ done s')
      × (s'.consumer ≡ ConsumePc.idle)
      × (s'.out ≡ s.log)
unfolding log_thread
log_thread_catches_up size memory zero schedule s small sized solo e rests waits =
    let (s', e', waits', _, _, out) =
      consumer_catches_up size memory schedule s small sized solo e rests waits in
    (s', e', waits', out)
log_thread_catches_up size memory (suc n) schedule s small sized solo e rests waits =
    let (s₁, e₁, waits₁, same, log, _) =
      consumer_catches_up size memory schedule s small sized solo e rests waits in
    let (s₂, e₂, waits₂, out) =
      log_thread_catches_up size memory n (schedule ++ consume_steps) s₁ small sized
        (IsSolo-append schedule consume_steps solo tt)
        (run-append size schedule consume_steps (start memory) ∙ rw e e₁)
        (ap (λ p. writer (p 0)) same ∙ rests) waits₁ in
    (s₂, run-append size consume_steps (log_thread (suc n)) s ∙ rw e₁ e₂, waits₂, out ∙ log)

module _ (takes : List ℕ → ℕ) where
  -- What is on the standard output after one more `write`.
  abbrev pub write_to_stdout : List ℕ → List ℕ → List ℕ
  write_to_stdout stdout buf = stdout ++ take (takes buf) buf

  unfoldable pub write_each : List ℕ → List (List ℕ) → List ℕ
  write_each stdout [] = stdout
  write_each stdout (buf ∷ bufs) = write_each (write_to_stdout stdout buf) bufs

  -- The panic hook before it calls the default one.
  unfoldable pub panic_hook : Shared → List ℕ → List ℕ
  unfolding write_each
  panic_hook m stdout = write_each stdout (panic_flush m)

  takes_all : (n : ℕ) (xs : List ℕ) → n ≡ length xs → take n xs ≡ xs
  takes_all n xs e = ap (take n) (sym (append-nil xs)) ∙ take-exact n xs [] (sym e)

  written :
      (stdout : List ℕ) (bufs : List (List ℕ))
      → ((buf : List ℕ) → takes buf ≡ length buf)
      → write_each stdout bufs ≡ stdout ++ concat bufs
  unfolding write_each
  written stdout [] whole = sym (append-nil stdout)
  written stdout (buf ∷ bufs) whole =
      written (write_to_stdout stdout buf) bufs whole
      ∙ ap (λ t. (stdout ++ t) ++ concat bufs) (takes_all (takes buf) buf (whole buf))
      ∙ append_assoc stdout buf (concat bufs)

  module _ (size : ℕ) (memory : ℕ → List ℕ) (schedule : List Actor) (s : System) where
    -- Where every `write` takes its whole buffer, the panic hook leaves the whole log on the
    -- standard output: at the end of every interleaving of producer 0 with the consumer in which
    -- the consumer is not between its swap of the buffers and its reset of the one it took, and
    -- what its callback has received is there already. Both buffers have the size that the producer
    -- tests against, which fits 64 bits.
    pub panic_hook_completes :
        size < 2 ^ 64
        → ((i : ℕ) → length (memory i) ≡ size)
        → IsSolo schedule
        → run size schedule (start memory) ≡ done s
        → consumes_from s.consumer ≡ none
        → ((buf : List ℕ) → takes buf ≡ length buf)
        → panic_hook s.shared s.out ≡ s.log
    unfolding panic_hook
    panic_hook_completes small sized solo e rests whole =
        written s.out (panic_flush s.shared) whole
        ∙ sym (panic_flush_completes size memory schedule s small sized solo e rests)
