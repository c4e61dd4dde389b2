-- ===== src/Log/Logger/Inv.antt =====
-- What holds between one producer and one consumer: the writer bit is the producer's, the producer
-- writes into the active buffer only and the consumer reads the other one only, and the log is what
-- was delivered, then what is still to be read, oldest first.
use Prim.Native.Nat.{bit_and, bit_or}
use hoarder.Base.{
  ℕ, zero, suc, ◌+◌, ◌-◌, ◌^◌, ◌≤◌, ◌<◌, ◌≡◌, refl, List, [], ◌++◌, length, take, arith,
}
use hoarder.Log.Logger.Defs.{Shared, PushPc, claimed, copying, releasing, ConsumePc, writer_bit}

-- The writer bit as a producer's place in `push` has it.
abbrev pub writer : PushPc → ℕ
writer (claimed text i) = writer_bit
writer (copying text i pos rest) = writer_bit
writer (releasing r) = writer_bit
writer _ = 0

-- The bytes of a buffer up to its offset.
abbrev pub contents : (ℕ → ℕ) → (ℕ → List ℕ) → ℕ → List ℕ
contents offsets bytes i = take (offsets i) (bytes i)

-- The part of the text that is copied already lies behind the contents of the buffer.
pub record IsCopying (size offset : ℕ) (buffer text : List ℕ) (pos : ℕ) (rest : List ℕ)
    : Type 0 where
  pub copied : List ℕ
  pub parts : text ≡ copied ++ rest
  pub behind : pos ≡ offset + length copied
  pub fits : offset + length text ≤ size
  pub written : take pos buffer ≡ take offset buffer ++ copied

-- What a producer's locals say.
abbrev pub OwnPush : ℕ → ℕ → (ℕ → ℕ) → (ℕ → List ℕ) → PushPc → Type 0
OwnPush size active offsets bytes (claimed text i) = i ≡ active
OwnPush size active offsets bytes (copying text i pos rest) =
    (i ≡ active) × IsCopying size (offsets active) (bytes active) text pos rest
OwnPush size active offsets bytes _ = Unit

-- What a consumer's locals say: it holds the other buffer, or that buffer is empty.
abbrev pub OwnConsume : ℕ → (ℕ → ℕ) → ConsumePc → Type 0
OwnConsume active offsets (ConsumePc.swapped i) = i ≡ 1 - active
OwnConsume active offsets (ConsumePc.reading i offset) = (i ≡ 1 - active) × (offset ≡ offsets i)
OwnConsume active offsets (ConsumePc.resetting i) = i ≡ 1 - active
OwnConsume active offsets _ = offsets (1 - active) ≡ 0

-- What the consumer holds and has not delivered yet.
abbrev pub pending : ℕ → (ℕ → ℕ) → (ℕ → List ℕ) → ConsumePc → List ℕ
pending active offsets bytes (ConsumePc.swapped i) = contents offsets bytes (1 - active)
pending active offsets bytes (ConsumePc.reading i offset) = contents offsets bytes (1 - active)
pending active offsets bytes _ = []

pub record Inv (size active : ℕ) (m : Shared) (p : PushPc) (c : ConsumePc) (log out : List ℕ)
    : Type 0 where
  pub small : size < 2 ^ 64
  pub binary : active < 2
  pub sized : (i : ℕ) → length (m.bytes i) ≡ size
  pub room : (i : ℕ) → m.offsets i ≤ size
  pub word : m.word ≡ writer p + active
  pub push : OwnPush size active m.offsets m.bytes p
  pub consume : OwnConsume active m.offsets c
  pub whole : log ≡ out ++ (pending active m.offsets m.bytes c ++ contents m.offsets m.bytes active)

-- The words that occur, and what the threads make of them.
pub record IsWord (active : ℕ) : Type 0 where
  pub index : bit_and active 1 ≡ active
  pub claim : bit_or 256 active ≡ 256 + active
  pub release : bit_and (256 + active) 0xfeff ≡ active
  pub clear : bit_and active 256 ≡ 0
  pub set : bit_and (256 + active) 256 ≡ 256
  pub flip : bit_and 1 (1 - active) ≡ 1 - active
  pub set_index : bit_and (256 + active) 1 ≡ active

pub word_lem : (active : ℕ) → active < 2 → IsWord active
word_lem zero h = record {
  index = refl;
  claim = refl;
  release = refl;
  clear = refl;
  set = refl;
  flip = refl;
  set_index = refl;
}
word_lem (suc zero) h = record {
  index = refl;
  claim = refl;
  release = refl;
  clear = refl;
  set = refl;
  flip = refl;
  set_index = refl;
}
word_lem (suc (suc n)) h = absurd (omega arith)
