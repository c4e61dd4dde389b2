-- ===== src/Collections/ObjectPool.antt =====
-- hoarder-collections/src/alloc.rs, `ObjectPool<T, ID>`: objects in slots, under handles that carry
-- the pool's id.
pub mod Laws
pub mod Posts
pub mod Construct
use hoarder.Base.{
  ℕ, ◌%◌, ◌^◌, Bool, true, false, Option, none, some, if◌then◌else◌, Outcome, done, assert, ◌>>=◌,
  ◌>>◌, Build, Repr,
}
use hoarder.Collections.Array
use hoarder.Collections.Array.{Array}
use hoarder.Collections.GenAlloc.Defs
use hoarder.Collections.GenAlloc.Defs.{GenId, GenAlloc, is_valid}
use hoarder.Collections.ObjectHandle
use hoarder.Collections.ObjectHandle.{ObjectHandle, pool_mask}

pub record ObjectPool {ℓ} (A : Type ℓ) : Type ℓ where
  pub slots : Array (Option A)
  pub allocator : GenAlloc

-- The allocator's answers to the three allocations of a pool.
pub record Answers : Type 0 where
  pub slots : Option ℕ
  pub generations : Option ℕ
  pub free_list : Option ℕ

-- `GenId { index, generation }` of a handle.
abbrev pub id_of : ObjectHandle → GenId
id_of h = record { index = ObjectHandle.index h; generation = ObjectHandle.generation h }

module _ {ℓ} {A : Type ℓ} where
  abbrev pub is_none : Option A → Bool
  is_none none = true
  is_none (some a) = false

  unfoldable pub new : Build → Repr → Answers → ℕ → Outcome (ObjectPool A)
  new build repr raws capacity = do
    slots ← Array.new_with_fn repr raws.slots none capacity
    allocator ← Defs.new build raws.generations raws.free_list capacity pool_mask
    done (record { slots = slots; allocator = allocator })

  -- `self.data.len() as u32`
  abbrev pub capacity : ObjectPool A → ℕ
  capacity p = p.slots.size % 2 ^ 32

  -- What `spawn` does with the allocated id.
  unfoldable pub place :
      ℕ → ObjectPool A → A → Option GenId → Outcome (ObjectPool A × Option ObjectHandle)
  place pool_id p x none = done (p, none)
  place pool_id p x (some id) = do
    slot ← Array.index p.slots id.index
    assert (is_none slot)
    slots ← Array.set_index p.slots id.index (some x)
    done (record p { slots = slots }, some (ObjectHandle.new pool_id id))

  unfoldable pub spawn : ℕ → Build → ObjectPool A → A → Outcome (ObjectPool A × Option ObjectHandle)
  unfolding place
  spawn pool_id build p x = do
    (g, r) ← Defs.alloc build p.allocator
    place pool_id (record p { allocator = g }) x r

  -- `get` and `get_mut` have the same body.
  unfoldable pub get : ObjectPool A → ObjectHandle → Outcome (Option A)
  get p h = do
    valid ← is_valid p.allocator (id_of h)
    if valid then Array.index p.slots (ObjectHandle.index h) else done none

  -- What the caller of `get_mut` leaves behind the reference that it was given.
  unfoldable pub write_back : ObjectPool A → ObjectHandle → A → Outcome (ObjectPool A)
  write_back p h x = do
    slots ← Array.set_index p.slots (ObjectHandle.index h) (some x)
    done (record p { slots = slots })

  unfoldable pub despawn : Build → ObjectPool A → ObjectHandle → Outcome (ObjectPool A × Bool)
  despawn build p h = do
    (g, freed) ← Defs.free build p.allocator (id_of h)
    if freed
        then (do
          slots ← Array.set_index p.slots (ObjectHandle.index h) none
          done (record { slots = slots; allocator = g }, true))
        else done (record p { allocator = g }, false)
