-- ===== src/Collections/Tests.antt =====
-- The collections at small sizes.
use hoarder.Base.{
  ℕ, zero, suc, ◌+◌, ◌-◌, ◌^◌, ◌<◌, ◌≡◌, refl, ◌⊎◌, arith, true, false, none, some, List, [], ◌∷◌,
  done, panic, overflow, debug, release, Repr, Allocates, ltb, if◌then◌else◌, write_cell, read_cell,
  add_usize, add_u32, layout_array, count, count-cons, count-nil,
}
use hoarder.Error.{ok, err, push_error}
use hoarder.Collections.Array
use hoarder.Collections.Array.{Array}
use hoarder.Collections.RingBuffer.Defs
use hoarder.Collections.RingBuffer.Defs.{
  RingBuffer, push, pop, push_unwrap, fill, from_fixed_iter, drain,
}
use hoarder.Collections.RingBuffer.Construct.{fresh, fresh-Models}
use hoarder.Collections.RingBuffer.Trace.{
  put, take_out, pushed, popped, run, queue_run, run_refines,
}
use hoarder.Collections.GenAlloc.Defs as Gen
use hoarder.Collections.GenAlloc.Defs.{
  GenId, GenAlloc, u32_repr, countdown, masked, is_valid, take_back, raise, give,
}
use hoarder.Collections.GenAlloc.Invariant.{Book, enter, taken, Owns, generation_at}
use hoarder.Collections.GenAlloc.Construct.{empty_book}
use hoarder.Collections.GenAlloc.Reach.{Reach, created, given}
use hoarder.Collections.GenAlloc.Safety.{alloc_fresh, held_freed, generation_wraps}
use hoarder.Collections.GenAlloc.Stale
use hoarder.Collections.GenAlloc.Stale.{stale_forever, Call, allocs, frees}

abbrev word_repr : Repr
word_repr = record { size_of = 8; align_of = 8 }

abbrev three : List ℕ
three = 10 ∷ 20 ∷ 30 ∷ []

-- A push into a full buffer is refused, and values come out in the order that they went in.
ring_replies :
    queue_run {A = ℕ} 2 []
      (put 1 ∷ put 2 ∷ put 3 ∷ take_out ∷ put 4 ∷ take_out ∷ take_out ∷ take_out ∷ [])
    ≡ (pushed (ok tt)
        ∷ pushed (ok tt)
        ∷ pushed (err push_error)
        ∷ popped (some 1)
        ∷ pushed (ok tt)
        ∷ popped (some 2)
        ∷ popped (some 4)
        ∷ popped none
        ∷ [])
unfolding queue_run
ring_replies = refl

run_refines_example :
    run {A = ℕ} debug (fresh 8 2) (put 1 ∷ put 2 ∷ put 3 ∷ take_out ∷ [])
    ≡ done (queue_run 2 [] (put 1 ∷ put 2 ∷ put 3 ∷ take_out ∷ []))
unfolding fresh
run_refines_example =
    run_refines debug (put 1 ∷ put 2 ∷ put 3 ∷ take_out ∷ []) (fresh 8 2) []
      (fresh-Models 8 2 (omega arith) (omega arith))

three_fit : Allocates word_repr 3
three_fit = record { element = omega arith; nonempty = omega arith; fits = omega arith }

-- An allocator of two indices, and the same after its first `alloc`.
abbrev table_of : ℕ → ℕ → Array ℕ
table_of a b = record { ptr = 8; cells = a ∷ b ∷ []; size = 2 }

abbrev two_free : GenAlloc
two_free = record {
  generation = table_of 0 0;
  free_list = record {
    ptr = 16;
    cells = some 1 ∷ some 0 ∷ [];
    write_idx = 0;
    read_idx = 0;
    size = 2;
    len = 2;
  };
}

abbrev one_out : GenAlloc
one_out = record {
  generation = table_of 0 0;
  free_list = record {
    ptr = 16;
    cells = none ∷ some 0 ∷ [];
    write_idx = 0;
    read_idx = 1;
    size = 2;
    len = 1;
  };
}

abbrev first_id : GenId
first_id = record { index = 1; generation = 0 }

created_two : Gen.new debug (some 8) (some 16) 2 0 ≡ done two_free
unfolding Gen.new Array.new from_fixed_iter Defs.new fill push_unwrap push write_cell add_usize
    layout_array
created_two = refl

alloc_first : Gen.alloc debug two_free ≡ done (one_out, some first_id)
unfolding Gen.alloc give pop read_cell add_usize Array.index
alloc_first = refl

abbrev first_book : Book
first_book = enter empty_book 1 (some 0)

reached_two : Reach debug two_free empty_book
reached_two = created (some 8) (some 16) 2 0 created_two

reached_one : Reach debug one_out first_book
reached_one = given first_id reached_two alloc_first

alloc_fresh_example :
    ((g' : GenAlloc) × (id : GenId) × (Gen.alloc debug one_out ≡ done (g', some id))
      × (first_book id.index ≡ none)
      × (is_valid g' id ≡ done true))
    ⊎ ((Gen.alloc debug one_out ≡ done (one_out, none))
        × ((i : ℕ) → taken (first_book i) ≡ (if ltb i 2 then 1 else 0)))
alloc_fresh_example = alloc_fresh reached_one

held_freed_example :
    (1 < 2)
    × (is_valid one_out first_id ≡ done true)
    × (((g' : GenAlloc) × (Gen.free debug one_out first_id ≡ done (g', true))
          × (is_valid g' first_id ≡ done false))
        ⊎ ((debug ≡ debug) × (0 ≡ 2 ^ 32 - 1) × (Gen.free debug one_out first_id ≡ panic overflow)))
held_freed_example = held_freed reached_one 1 0 refl

-- An allocator whose one id has the largest generation.
abbrev worn : GenAlloc
worn = record {
  generation = table_of (2 ^ 32 - 1) 0;
  free_list = record {
    ptr = 16;
    cells = some 1 ∷ none ∷ [];
    write_idx = 1;
    read_idx = 0;
    size = 2;
    len = 1;
  };
}

abbrev worn_book : Book
worn_book = enter empty_book 0 (some (2 ^ 32 - 1))

worn-Owns : Owns worn (1 ∷ []) worn_book
worn-Owns = record {
  table = refl;
  queue = record {
    storage = refl;
    positive = omega arith;
    small = omega arith;
    read_in = omega arith;
    write_at = refl;
    fits = omega arith;
    holds = refl;
  };
  same = refl;
  partition = partition;
  current = current;
  words = words;
}
  where
    partition : (i : ℕ) → count i (1 ∷ []) + taken (worn_book i) ≡ (if ltb i 2 then 1 else 0)
    partition zero = ground (arith, count-cons 0 1 [], count-nil 0)
    partition (suc zero) = ground (arith, count-cons 1 1 [], count-nil 1)
    partition (suc (suc i)) = ground (arith, count-cons (suc (suc i)) 1 [], count-nil (suc (suc i)))

    current : (i gen : ℕ) → worn_book i ≡ some gen → generation_at worn i ≡ gen
    current zero gen e = cc
    current (suc i) gen e = absurd (ground arith)

    words : (i : ℕ) → generation_at worn i < 2 ^ 32
    words zero = omega arith
    words (suc zero) = omega arith
    words (suc (suc i)) = omega arith

generation_wraps_example :
    ((release ≡ release)
      × (g' : GenAlloc) × (Gen.free release worn (record { index = 0; generation = 2 ^ 32 - 1 })
          ≡ done (g', true))
      × (is_valid g' (record { index = 0; generation = 0 }) ≡ done true))
    ⊎ ((release ≡ debug)
        × (Gen.free release worn (record { index = 0; generation = 2 ^ 32 - 1 }) ≡ panic overflow))
generation_wraps_example = generation_wraps release worn (1 ∷ []) worn_book 0 worn-Owns refl

abbrev freed_state : GenAlloc
freed_state = record {
  generation = table_of 0 1;
  free_list = record {
    ptr = 16;
    cells = some 1 ∷ some 0 ∷ [];
    write_idx = 1;
    read_idx = 1;
    size = 2;
    len = 2;
  };
}

-- `first_id` is freed, and its index is handed out again under the next generation.
freed_first : Gen.free debug one_out first_id ≡ done (freed_state, true)
unfolding Gen.free is_valid take_back raise Array.index Array.set_index add_u32 push_unwrap push
    write_cell add_usize
freed_first = refl

abbrev drained_state : GenAlloc
drained_state = record freed_state {
  free_list = record {
    ptr = 16;
    cells = none ∷ none ∷ [];
    write_idx = 1;
    read_idx = 1;
    size = 2;
    len = 0;
  };
}

later_calls :
    Stale.run debug freed_state (allocs ∷ frees first_id ∷ allocs ∷ allocs ∷ [])
    ≡ done drained_state
unfolding Stale.run Gen.alloc Gen.free is_valid give pop read_cell add_usize Array.index
later_calls = refl

stale_forever_example : is_valid drained_state first_id ≡ done false
stale_forever_example =
    stale_forever one_out freed_state drained_state first_id
      (allocs ∷ frees first_id ∷ allocs ∷ allocs ∷ []) refl freed_first later_calls
