-- ===== src/Collections/GenAlloc/Defs.antt =====
-- `GenId` and the operations of `GenAlloc`. The allocator's two answers are arguments of `new`.
use Prim.Native.Nat.{bit_and}
use hoarder.Base.{
  ℕ, zero, suc, Bool, true, false, Option, none, some, List, [], ◌∷◌, ltb, ◌==◌, if◌then◌else◌,
  Outcome, done, ◌>>=◌, Build, add_u32, u32_max, Repr,
}
use hoarder.Collections.Array
use hoarder.Collections.Array.{Array}
use hoarder.Collections.RingBuffer.Defs.{RingBuffer, pop, push_unwrap, from_fixed_iter}

pub record GenId : Type 0 where
  pub index : ℕ
  pub generation : ℕ

pub record GenAlloc : Type 0 where
  pub generation : Array ℕ
  pub free_list : RingBuffer ℕ

abbrev pub u32_repr : Repr
u32_repr = record { size_of = 4; align_of = 4 }

-- `(0..n).rev()`
abbrev pub countdown : ℕ → List ℕ
countdown zero = []
countdown (suc n) = n ∷ countdown n

-- The capacity after masking: a zero mask keeps every bit.
abbrev pub masked : ℕ → ℕ → ℕ
masked capacity mask = bit_and capacity (if mask == 0 then u32_max else mask)

unfoldable pub new : Build → Option ℕ → Option ℕ → ℕ → ℕ → Outcome GenAlloc
new build raw_generation raw_free capacity mask = do
  generation ← Array.new u32_repr raw_generation 0 (masked capacity mask)
  free_list ←
      from_fixed_iter build u32_repr raw_free (masked capacity mask)
        (countdown (masked capacity mask))
  done (record { generation = generation; free_list = free_list })

-- What `alloc` does with the popped index.
unfoldable pub give : GenAlloc → Option ℕ → Outcome (GenAlloc × Option GenId)
give g none = done (g, none)
give g (some idx) = do
  generation ← Array.index g.generation idx
  done (g, some (record { index = idx; generation = generation }))

unfoldable pub alloc : Build → GenAlloc → Outcome (GenAlloc × Option GenId)
unfolding give
alloc build g = do
  (free_list, popped) ← pop build g.free_list
  give (record g { free_list = free_list }) popped

unfoldable pub is_valid : GenAlloc → GenId → Outcome Bool
is_valid g id =
    if ltb id.index (Array.len g.generation)
    then (do generation ← Array.index g.generation id.index; done (id.generation == generation))
    else done false

-- `self.generation[i] += 1`
unfoldable pub raise : Build → Array ℕ → ℕ → Outcome (Array ℕ)
raise build table i = do
  old ← Array.index table i
  next ← add_u32 build old 1
  Array.set_index table i next

-- The body of `free` for a valid id.
unfoldable pub take_back : Build → GenAlloc → ℕ → Outcome (GenAlloc × Bool)
unfolding raise
take_back build g i = do
  generation ← raise build g.generation i
  free_list ← push_unwrap build g.free_list i
  done (record { generation = generation; free_list = free_list }, true)

unfoldable pub free : Build → GenAlloc → GenId → Outcome (GenAlloc × Bool)
unfolding is_valid take_back
free build g id = do
  valid ← is_valid g id
  if valid then take_back build g id.index else done (g, false)
