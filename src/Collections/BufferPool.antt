-- ===== src/Collections/BufferPool.antt =====
-- hoarder-collections/src/alloc.rs, `BufferPool<BUF_SIZE, ALIGN>`: aligned buffers under the
-- generational ids of `GenAlloc`. A slice is its address and its length.
pub mod Laws
use hoarder.Base.{
  ℕ, Bool, true, false, Option, none, some, if◌then◌else◌, Outcome, done, panic, undefined,
  unwrap_failed, ◌>>=◌, Build,
}
use hoarder.Error.{Result, ok, err}
use hoarder.Collections.AlignedBuffers
use hoarder.Collections.AlignedBuffers.{AlignedBuffers, buf_ptr}
use hoarder.Collections.GenAlloc.Defs
use hoarder.Collections.GenAlloc.Defs.{GenId, GenAlloc, is_valid}

-- `BufferHandle(pub GenId)`
pub record BufferHandle : Type 0 where
  pub id : GenId

pub record BufferPool : Type 0 where
  pub pool : AlignedBuffers
  pub allocator : GenAlloc

pub record Slice : Type 0 where
  pub start : ℕ
  pub len : ℕ

-- What is in memory when a call is made: the bytes, and of which slices all bytes are initialised and
-- nobody else is writing them, as `from_raw_parts` demands. `alloc` initialises nothing, so this depends
-- on what the allocator hands out and on what the kernel has written and may still write.
pub record Memory : Type 0 where
  pub byte : ℕ → ℕ
  pub ready : Slice → Bool

-- The allocator's answers to the three allocations of a pool.
pub record Answers : Type 0 where
  pub block : Option ℕ
  pub generations : Option ℕ
  pub free_list : Option ℕ

-- `.unwrap()` of a result
unfoldable pub unwrap_result {ℓ} : {A : Type ℓ} → Result A → Outcome A
unwrap_result (ok a) = done a
unwrap_result (err e) = panic unwrap_failed

module _ (buf_size align : ℕ) (build : Build) where
  unfoldable pub new : Answers → ℕ → Outcome BufferPool
  unfolding unwrap_result
  new raws count = do
    result ← AlignedBuffers.new raws.block count buf_size align
    pool ← unwrap_result result
    allocator ← Defs.new build raws.generations raws.free_list count 0
    done (record { pool = pool; allocator = allocator })

  -- `get` and `get_mut` have the same body. To make a slice of memory that is not ready for it is
  -- undefined behaviour.
  unfoldable pub get : Memory → BufferPool → BufferHandle → Outcome (Option Slice)
  get mem p h = do
    valid ← is_valid p.allocator h.id
    if valid
        then (do
          start ← buf_ptr build p.pool h.id.index
          if mem.ready (record { start = start; len = buf_size })
              then done (some (record { start = start; len = buf_size }))
              else undefined)
        else done none

-- What `alloc` makes of the allocator's result.
unfoldable pub handed : BufferPool → GenAlloc → Option GenId → BufferPool × Option BufferHandle
handed p g none = (record p { allocator = g }, none)
handed p g (some id) = (record p { allocator = g }, some (record { id = id }))

unfoldable pub alloc : Build → BufferPool → Outcome (BufferPool × Option BufferHandle)
unfolding handed
alloc build p = do (g, r) ← Defs.alloc build p.allocator; done (handed p g r)

unfoldable pub free : Build → BufferPool → BufferHandle → Outcome (BufferPool × Bool)
free build p h = do (g, r) ← Defs.free build p.allocator h.id; done (record p { allocator = g }, r)
