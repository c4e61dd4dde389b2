-- ===== src/Collections/ObjectHandle.antt =====
-- hoarder-collections/src/alloc.rs, `ObjectHandle`: pool, index and generation in one 64-bit word.
use Prim.Native.Nat.{bit_and, bit_or}
use hoarder.Base.{ℕ, ◌+◌, ◌*◌, ◌/◌, ◌%◌, ◌^◌, ◌<◌, ◌≡◌, ap, ◌∙◌, arith}
use hoarder.Base.Bits.{bit_or-disjoint, bit_and-low}
use hoarder.Collections.GenAlloc.Defs.{GenId}

pub record ObjectHandle : Type 0 where
  pub word : ℕ

abbrev pub id_shift : ℕ
id_shift = 56

abbrev pub index_shift : ℕ
index_shift = 32

-- `ObjectPool::MASK`, which the handle calls `POOL_MASK`
abbrev pub pool_mask : ℕ
pool_mask = 0x00ff_ffff

-- `x << k` on `u64`
abbrev pub shl_u64 : ℕ → ℕ → ℕ
shl_u64 x k = (x * 2 ^ k) % 2 ^ 64

unfoldable pub new : ℕ → GenId → ObjectHandle
new pool_id id = record {
  word = bit_or (bit_or (shl_u64 pool_id id_shift) (shl_u64 id.index index_shift)) id.generation;
}

-- `(self.0 >> 56) as u8`
unfoldable pub pool_id : ObjectHandle → ℕ
pool_id h = (h.word / 2 ^ id_shift) % 2 ^ 8

-- `(self.0 >> 32) as u32 & POOL_MASK`
unfoldable pub index : ObjectHandle → ℕ
index h = bit_and ((h.word / 2 ^ index_shift) % 2 ^ 32) pool_mask

-- `self.0 as u32`
unfoldable pub generation : ObjectHandle → ℕ
generation h = h.word % 2 ^ 32

-- `From<u64>` and `Into<u64>`
abbrev pub from_u64 : ℕ → ObjectHandle
from_u64 v = record { word = v }

abbrev pub into_u64 : ObjectHandle → ℕ
into_u64 h = h.word

-- The word of a handle, as a sum of its fields.
new_word :
    (p i g : ℕ)
    → p < 2 ^ 8
    → i < 2 ^ 24
    → g < 2 ^ 32
    → (new p (record { index = i; generation = g })).word ≡ p * 2 ^ 56 + i * 2 ^ 32 + g
unfolding new
new_word p i g hp hi hg =
    let high : shl_u64 p 56 ≡ p * 2 ^ 56 = omega arith in
    let low : shl_u64 i 32 ≡ i * 2 ^ 32 = omega arith in
    let pair : bit_or (shl_u64 p 56) (shl_u64 i 32) ≡ (p * 2 ^ 24 + i) * 2 ^ 32 =
      rw (high, low) (bit_or-disjoint 56 p (i * 2 ^ 32) (omega arith) ∙ omega arith) in
    ap (λ w. bit_or w g) pair ∙ bit_or-disjoint 32 (p * 2 ^ 24 + i) g hg ∙ omega arith

index_word : (h : ObjectHandle) → index h ≡ (h.word / 2 ^ 32) % 2 ^ 24
unfolding index
index_word h = omega (arith, bit_and-low 24 ((h.word / 2 ^ 32) % 2 ^ 32))

-- A handle gives back the pool, the index and the generation that it was made from, where these fit
-- their 8, 24 and 32 bits.
pub handle_fields :
    (p i g : ℕ)
    → p < 2 ^ 8
    → i < 2 ^ 24
    → g < 2 ^ 32
    → (pool_id (new p (record { index = i; generation = g })) ≡ p)
      × (index (new p (record { index = i; generation = g })) ≡ i)
      × (generation (new p (record { index = i; generation = g })) ≡ g)
unfolding pool_id generation
handle_fields p i g hp hi hg =
    let h = new p (record { index = i; generation = g }) in
    let w = new_word p i g hp hi hg in
    (omega (arith, w), omega (arith, w, index_word h), omega (arith, w))

-- Every 64-bit word is the handle made from its own fields.
pub handle_total :
    (v : ℕ)
    → v < 2 ^ 64
    → new
        (pool_id (from_u64 v))
        (record { index = index (from_u64 v); generation = generation (from_u64 v) })
      ≡ from_u64 v
unfolding pool_id generation
handle_total v h = ap from_u64 (
    ap (λ i. (new (v / 2 ^ 56 % 2 ^ 8) (record { index = i; generation = v % 2 ^ 32 })).word)
      (index_word (from_u64 v))
    ∙ new_word (v / 2 ^ 56 % 2 ^ 8) (v / 2 ^ 32 % 2 ^ 24) (v % 2 ^ 32) (omega arith) (omega arith)
        (omega arith)
    ∙ omega arith)
