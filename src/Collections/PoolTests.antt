-- ===== src/Collections/PoolTests.antt =====
-- The pools at small sizes.
use hoarder.Base.{
  ◌>>=◌, some-injective, ℕ, ◌%◌, ◌^◌, ◌≡◌, ◌≢◌, refl, arith, true, Option, none, some, [], ◌∷◌,
  done, panic, undefined, assert_failed, debug, Repr, write_cell, add_usize, add_u32, layout_array,
}
use hoarder.Collections.Array
use hoarder.Collections.RingBuffer.Defs
use hoarder.Collections.RingBuffer.Defs.{from_fixed_iter, fill, push_unwrap, push}
use hoarder.Collections.AlignedBuffers as Aligned
use hoarder.Collections.AlignedBuffers.{AlignedBuffers, buf_ptr, is_power_of_two}
use hoarder.Collections.AlignedBuffers.Laws.{IsSound, new_empty, new_too_large}
use hoarder.Collections.RingBuffer.Refine.{Models}
use hoarder.Collections.GenAlloc.Defs as Gen
use hoarder.Collections.GenAlloc.Defs.{GenId, GenAlloc, countdown}
use hoarder.Collections.GenAlloc.Invariant.{Book, enter}
use hoarder.Collections.GenAlloc.View.{free_indices, frees_commute}
use hoarder.Collections.GenAlloc.Construct.{empty_book}
use hoarder.Collections.GenAlloc.Laws.{after_alloc, id_at}
use hoarder.Collections.ObjectHandle as Handle
use hoarder.Collections.ObjectHandle.{ObjectHandle, from_u64, handle_fields, handle_total}
use hoarder.Collections.ObjectPool as Objects
use hoarder.Collections.ObjectPool.{ObjectPool}
use hoarder.Collections.ObjectPool.Laws as ObjectLaws
use hoarder.Collections.ObjectPool.Laws.{
  after_spawn, after_despawn, slot_at, spawn_lem, spawn_others, spawn_full, despawn_lem,
  despawn_others,
}
use hoarder.Collections.ObjectPool.Construct.{new-Holds, new_masked_away}
use hoarder.Collections.BufferPool as Buffers
use hoarder.Collections.BufferPool.{BufferPool, Slice, unwrap_result}
use hoarder.Collections.BufferPool.Laws.{Holds, allocated, new_ready}

abbrev word_repr : Repr
word_repr = record { size_of = 8; align_of = 8 }

handle_fields_example :
    let h = Handle.new 2 (record { index = 7; generation = 9 }) in
    (Handle.pool_id h ≡ 2) × (Handle.index h ≡ 7) × (Handle.generation h ≡ 9)
handle_fields_example = handle_fields 2 7 9 (omega arith) (omega arith) (omega arith)

-- An object pool of two slots.
abbrev object_answers : Objects.Answers
object_answers = record { slots = some 8; generations = some 16; free_list = some 24 }

abbrev pub two_generations : GenAlloc
two_generations = record {
  generation = record { ptr = 16; cells = 0 ∷ 0 ∷ []; size = 2 };
  free_list = record {
    ptr = 24;
    cells = some 1 ∷ some 0 ∷ [];
    write_idx = 0;
    read_idx = 0;
    size = 2;
    len = 2;
  };
}

abbrev two_slots : ObjectPool ℕ
two_slots = record {
  slots = record { ptr = 8; cells = none ∷ none ∷ []; size = 2 };
  allocator = two_generations;
}

created_slots : Objects.new debug word_repr object_answers 2 ≡ done two_slots
unfolding Objects.new Gen.new Array.new Array.new_with_fn from_fixed_iter Defs.new fill push_unwrap
    push write_cell add_usize layout_array
created_slots = refl

two_slots-Holds : ObjectLaws.Holds two_slots (1 ∷ 0 ∷ []) empty_book
two_slots-Holds = (new-Holds debug word_repr object_answers 2 created_slots).0

-- The handle of the first object of pool 2, and the pool that holds the object 70.
abbrev first : ObjectHandle
first = Handle.new 2 (id_at two_generations 1)

abbrev one_object : ObjectPool ℕ
one_object = after_spawn two_slots 1 70

abbrev first_book : Book
first_book = enter empty_book (Handle.index first) (some (Handle.generation first))

spawn_lem_example :
    let h = Handle.new 2 (id_at two_generations 1) in
    (Objects.spawn 2 debug two_slots 70 ≡ done (after_spawn two_slots 1 70, some h))
    × (Handle.pool_id h ≡ 2)
    × (empty_book (Handle.index h) ≡ none)
    × ObjectLaws.Holds
        (after_spawn two_slots 1 70)
        (0 ∷ [])
        (enter empty_book (Handle.index h) (some (Handle.generation h)))
    × (Objects.get (after_spawn two_slots 1 70) h ≡ done (some 70))
spawn_lem_example = spawn_lem 2 debug 1 (0 ∷ []) 70 (omega arith) two_slots-Holds

one_object-Holds : ObjectLaws.Holds one_object (0 ∷ []) first_book
one_object-Holds = (spawn_lem 2 debug 1 (0 ∷ []) 70 (omega arith) two_slots-Holds).3

first_index : Handle.index first ≡ 1
unfolding Handle.index Handle.new
first_index = refl

first-IsHeld : ObjectLaws.IsHeld first_book first
unfolding Handle.index Handle.new Handle.generation
first-IsHeld = refl

first_generation : add_u32 debug (Handle.generation first) 1 ≡ done 1
unfolding Handle.generation Handle.new add_u32
first_generation = refl

despawn_lem_example :
    (Objects.despawn debug one_object first
      ≡ done (after_despawn one_object (Handle.index first) 1, true))
    × ObjectLaws.Holds
        (after_despawn one_object (Handle.index first) 1)
        (0 ∷ Handle.index first ∷ [])
        (enter first_book (Handle.index first) none)
    × (Objects.get (after_despawn one_object (Handle.index first) 1) first ≡ done none)
despawn_lem_example =
    despawn_lem debug (0 ∷ []) first one_object-Holds first-IsHeld first_generation

-- A second object in the other slot.
abbrev second : ObjectHandle
second = Handle.new 2 (id_at one_object.allocator 0)

abbrev two_objects : ObjectPool ℕ
two_objects = after_spawn one_object 0 71

abbrev second_book : Book
second_book = enter first_book (Handle.index second) (some (Handle.generation second))

two_objects-Holds : ObjectLaws.Holds two_objects [] second_book
two_objects-Holds = (spawn_lem 2 debug 0 [] 71 (omega arith) one_object-Holds).3

second-IsHeld : ObjectLaws.IsHeld second_book first × ObjectLaws.IsHeld second_book second
unfolding Handle.index Handle.new Handle.generation after_spawn after_alloc
second-IsHeld = (refl, refl)

different : Handle.index first ≢ Handle.index second
unfolding Handle.index Handle.new after_spawn after_alloc
different = λ e. omega (arith, e)

new_masked_away_example :
    Objects.new {A = ℕ} debug word_repr
      (record { slots = some 8; generations = none; free_list = none })
      (2 ^ 24)
    ≡ panic assert_failed
new_masked_away_example =
    new_masked_away debug word_repr 8 none none (2 ^ 24) (omega arith)
      (record { element = omega arith; nonempty = omega arith; fits = omega arith }) refl

-- A block of two buffers of 4096 bytes.
power_4096 : is_power_of_two 4096 ≡ true
unfolding is_power_of_two
power_4096 = refl

abbrev two_buffers : AlignedBuffers
two_buffers = record { ptr = 8192; buf_size = 4096; count = 2; alignment = 4096; total_size = 8192 }

two_buffers-IsSound : IsSound two_buffers
two_buffers-IsSound = record {
  total = refl;
  nonzero = omega arith;
  fits = omega arith;
  whole = refl;
  aligned = refl;
}

pub aligned_8192 : (p : ℕ) → some 8192 ≡ some p → p % 4096 ≡ 0
aligned_8192 p e = omega (arith, some-injective e)

abbrev raw_block : Option ℕ
raw_block = some 8192

new_empty_example : Aligned.new (some 8192) 0 4096 4096 ≡ undefined
new_empty_example = new_empty (some 8192) 4096 4096 power_4096 refl (omega arith)

new_too_large_example : Aligned.new (some 8192) (2 ^ 51) 4096 4096 ≡ undefined
new_too_large_example =
    new_too_large (some 8192) (2 ^ 51) 4096 4096 power_4096 refl (omega arith) (omega arith)

-- A buffer pool of these two buffers.
abbrev buffer_answers : Buffers.Answers
buffer_answers = record { block = some 8192; generations = some 16; free_list = some 24 }

abbrev pub two_pool : BufferPool
two_pool = record { pool = two_buffers; allocator = two_generations }

created_pool : Buffers.new 4096 4096 debug buffer_answers 2 ≡ done two_pool
unfolding Buffers.new Aligned.new Aligned.is_power_of_two Aligned.unwrap_asserted
    Aligned.layout_unchecked Aligned.raw_alloc Aligned.or_fail unwrap_result Gen.new Array.new
    from_fixed_iter Defs.new fill push_unwrap push write_cell add_usize layout_array
created_pool = refl

abbrev pub lent_pool : BufferPool
lent_pool = record two_pool { allocator = after_alloc two_generations }

abbrev pub lent_book : Book
lent_book = enter empty_book 1 (some 0)

pub two_pool-Holds : Holds 4096 two_pool (1 ∷ 0 ∷ []) empty_book
two_pool-Holds =
    new_ready 4096 4096 debug buffer_answers 2 power_4096 refl (omega arith) (omega arith)
      (omega arith) aligned_8192 created_pool

pub lent-Holds : Holds 4096 lent_pool (0 ∷ []) lent_book
lent-Holds = (allocated 4096 4096 debug 1 (0 ∷ []) two_pool-Holds).2

pub next_is_one : add_u32 debug 0 1 ≡ done 1
unfolding add_u32
next_is_one = refl

-- Both buffers are out.
abbrev pub both_pool : BufferPool
both_pool = record two_pool { allocator = after_alloc (after_alloc two_generations) }

abbrev pub both_book : Book
both_book = enter lent_book 0 (some 0)

pub both-Holds : Holds 4096 both_pool [] both_book
unfolding after_alloc
both-Holds = (allocated 4096 4096 debug 0 [] lent-Holds).2

frees_commute_example :
    (g₁ : GenAlloc) × (g₂ : GenAlloc) × ((Gen.free debug
          (after_alloc (after_alloc two_generations))
          (record { index = 0; generation = 0 })
        >>= λ r. Gen.free debug r.0 (record { index = 1; generation = 0 }))
      ≡ done (g₁, true))
    × ((Gen.free debug
            (after_alloc (after_alloc two_generations))
            (record { index = 1; generation = 0 })
          >>= λ r. Gen.free debug r.0 (record { index = 0; generation = 0 }))
        ≡ done (g₂, true))
    × (free_indices g₁ ≡ free_indices g₂)
    × Models g₁.free_list (0 ∷ 1 ∷ [])
    × Models g₂.free_list (1 ∷ 0 ∷ [])
    × ((id : GenId) → Gen.is_valid g₁ id ≡ Gen.is_valid g₂ id)
frees_commute_example =
    frees_commute debug [] 0 1 0 0 both-Holds.books refl refl (λ e. omega (arith, e)) next_is_one
      next_is_one
