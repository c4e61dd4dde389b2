-- ===== src/Log/Logger/Defs.antt =====
-- The threads of the logger, an access to shared memory at a time. The accesses are sequentially
-- consistent, which is stronger than the orderings of the source; a compare-and-exchange may fail
-- without a reason.
use Prim.Native.Nat.{bit_and, bit_or}
use hoarder.Base.{
  ℕ, suc, ◌+◌, ◌-◌, ◌^◌, ◌%◌, Bool, true, not, ◌&&◌, Option, List, [], ◌∷◌, length, take, ltb, leb,
  ◌==◌, if◌then◌else◌, Outcome, done, assert, ◌>>=◌, ◌>>◌, write_cell,
}
use hoarder.Error.{Result, ok, err, push_error}
use hoarder.Collections.AlignedBuffers as Aligned
use hoarder.Collections.AlignedBuffers.{AlignedBuffers}

abbrev pub writer_bit : ℕ
writer_bit = 256

abbrev pub index_mask : ℕ
index_mask = 1

-- `!WRITER_BIT` on `u16`
abbrev pub no_writer : ℕ
no_writer = 0xfeff

-- What a producer and a consumer share: the word, and for each index the offset and the bytes of
-- the buffer.
pub record Shared : Type 0 where
  pub word : ℕ
  pub offsets : ℕ → ℕ
  pub bytes : ℕ → List ℕ

abbrev pub update {ℓ} : {A : Type ℓ} → (ℕ → A) → ℕ → A → ℕ → A
update f i a j = if i == j then a else f j

-- `AlignedBuffers::new(1, buf_size, 0x1000)?`
abbrev pub try_block {ℓ} :
    {A : Type ℓ}
    → Outcome (Result AlignedBuffers)
    → (AlignedBuffers → Outcome (Result A))
    → Outcome (Result A)
try_block m f = m >>= λ r. elim r [ ok b ↦ f b | err e ↦ done (err e) ]

-- The two blocks and what they share, which starts with whatever bytes the memory holds.
unfoldable pub new :
    Option ℕ
    → Option ℕ
    → (ℕ → List ℕ)
    → ℕ
    → Outcome (Result (AlignedBuffers × AlignedBuffers × Shared))
new raw_0 raw_1 memory buf_size =
    assert (leb 0x1000 buf_size)
    >> try_block (Aligned.new raw_0 1 buf_size 0x1000) λ b.
      try_block (Aligned.new raw_1 1 buf_size 0x1000)
        λ b'. done (ok (b, b', record { word = 0; offsets = λ i. 0; bytes = memory }))

-- Where a thread in `push` stands, with the locals that are live there.
pub data PushPc : Type 0 where
  idle : PushPc
  loading : (text : List ℕ) → PushPc  -- head of the loop
  loaded : (text : List ℕ) (curr : ℕ) → PushPc  -- before the compare-and-exchange
  claimed : (text : List ℕ) (i : ℕ) → PushPc  -- before the load of the offset
  copying : (text : List ℕ) (i pos : ℕ) (rest : List ℕ) → PushPc  -- in `copy_from_slice`
  releasing : (r : Result (Unit {0})) → PushPc  -- before `fetch_and`
  returned : (r : Result (Unit {0})) → PushPc

-- What the environment chooses: the text of a call, and whether a compare-and-exchange fails for
-- no reason.
pub record Choice : Type 0 where
  pub text : List ℕ
  pub spurious : Bool

-- A step gives the shared state, where the thread stands, and the bytes that it adds to the log.
abbrev pub PushStep : Type 0
PushStep = Shared × PushPc × List ℕ

-- `compare_exchange_weak(curr, next)`, and what follows on either result.
unfoldable pub exchange {ℓ} : {A : Type ℓ} → Bool → Shared → ℕ → ℕ → (Shared → A) → A → A
exchange spurious m curr next won lost =
    if m.word == curr && not spurious then won (record m { word = next }) else lost

-- `offset.checked_add(len).map_or(true, |end| end > buf_size)`
unfoldable pub overflows : ℕ → ℕ → ℕ → Bool
overflows buf_size offset n = if ltb (offset + n) (2 ^ 64) then ltb buf_size (offset + n) else true

-- One byte of `copy_from_slice`; the slices before it panic out of range, which the test rules out.
unfoldable pub copy_byte : Shared → List ℕ → ℕ → ℕ → ℕ → List ℕ → Outcome PushStep
copy_byte m text i pos byte rest = do
  bytes ← write_cell (m.bytes i) pos byte
  done (record m { bytes = update m.bytes i bytes }, copying text i (suc pos) rest, [])

unfoldable pub push_step : ℕ → Choice → Shared → PushPc → Outcome PushStep
unfolding exchange overflows copy_byte
push_step buf_size choice m idle = done (m, loading choice.text, [])
push_step buf_size choice m (loading text) = done (m, loaded text m.word, [])
push_step buf_size choice m (loaded text curr) = do
  assert (leb (bit_and curr index_mask) 1)
  done (
      exchange choice.spurious m curr (bit_or writer_bit (bit_and curr index_mask))
        (λ m'. (m', claimed text (bit_and curr index_mask), [])) (m, loading text, []))
push_step buf_size choice m (claimed text i) =
    if overflows buf_size (m.offsets i) (length text)
    then done (m, releasing (err push_error), [])
    else done (m, copying text i (m.offsets i) text, [])
push_step buf_size choice m (copying text i pos (byte ∷ rest)) = copy_byte m text i pos byte rest
push_step buf_size choice m (copying text i pos []) = done (
  record m { offsets = update m.offsets i ((m.offsets i + length text) % 2 ^ 64) },
  releasing (ok tt),
  text,
)
push_step buf_size choice m (releasing r) =
    done (record m { word = bit_and m.word no_writer }, returned r, [])
push_step buf_size choice m (returned r) = done (m, idle, [])

-- Where a thread in `consume` stands.
pub data ConsumePc : Type 0 where
  idle : ConsumePc
  loading : ConsumePc  -- head of the loop
  loaded : (curr : ℕ) → ConsumePc  -- before the test of the writer bit
  swapped : (i : ℕ) → ConsumePc  -- before the load of the offset
  reading : (i offset : ℕ) → ConsumePc  -- before the callback
  resetting : (i : ℕ) → ConsumePc  -- before the store of the offset

-- A step gives the shared state, where the thread stands, and what the callback receives.
abbrev pub ConsumeStep : Type 0
ConsumeStep = Shared × ConsumePc × List ℕ

unfoldable pub swap : Bool → Shared → ℕ → Outcome ConsumeStep
unfolding exchange
swap spurious m curr = do
  assert (leb (bit_and curr index_mask) 1)
  done (
      exchange spurious m curr (bit_and index_mask (1 - bit_and curr index_mask))
        (λ m'. (m', ConsumePc.swapped (bit_and curr index_mask), [])) (m, ConsumePc.loading, []))

unfoldable pub consume_step : Bool → Shared → ConsumePc → Outcome ConsumeStep
unfolding swap
consume_step spurious m ConsumePc.idle = done (m, ConsumePc.loading, [])
consume_step spurious m ConsumePc.loading = done (m, ConsumePc.loaded m.word, [])
consume_step spurious m (ConsumePc.loaded curr) =
    if not (bit_and curr writer_bit == 0)
    then done (m, ConsumePc.loading, [])
    else swap spurious m curr
consume_step spurious m (ConsumePc.swapped i) = done (m, ConsumePc.reading i (m.offsets i), [])
consume_step spurious m (ConsumePc.reading i offset) =
    if ltb 0 offset
    then done (m, ConsumePc.resetting i, take offset (m.bytes i))
    else done (m, ConsumePc.resetting i, [])
consume_step spurious m (ConsumePc.resetting i) =
    done (record m { offsets = update m.offsets i 0 }, ConsumePc.idle, [])

-- What the callback receives from one buffer, before the rest.
unfoldable pub flush : Shared → ℕ → List (List ℕ) → List (List ℕ)
flush m i rest = if ltb 0 (m.offsets i) then take (m.offsets i) (m.bytes i) ∷ rest else rest

-- `panic_flush`: what its callback receives from the two buffers, in the order of the indices.
unfoldable pub panic_flush : Shared → List (List ℕ)
panic_flush m = flush m 0 (flush m 1 [])
