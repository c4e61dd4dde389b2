-- ===== src/Collections/ObjectPool/Construct.antt =====
-- `ObjectPool::new`, and the capacities that its mask turns into others.
use hoarder.Base.{
  ℕ, ◌%◌, ◌^◌, ◌<◌, ◌≡◌, sym, ap, ◌∙◌, Option, none, some, arith, done, panic, assert_failed, Build,
  Repr, isize_max, Allocates, >>=-eq-done, done-injective, subst, length-replicate,
  get_or-replicate, length, get_or,
}
use hoarder.Base.Bits.{bit_and-low}
use hoarder.Collections.Array
use hoarder.Collections.Array.{Array}
use hoarder.Collections.Array.Laws.{new_with_fn_lem, new_with_fn_inversion}
use hoarder.Collections.GenAlloc.Defs
use hoarder.Collections.GenAlloc.Defs.{GenAlloc, countdown, masked}
use hoarder.Collections.GenAlloc.Invariant.{Owns, size}
use hoarder.Collections.GenAlloc.Construct.{empty_book, new-Owns}
use hoarder.Collections.ObjectHandle.{pool_mask}
use hoarder.Collections.ObjectPool.{ObjectPool, Answers, new}
use hoarder.Collections.ObjectPool.Laws.{Holds, occupied}

masked_capacity : (capacity : ℕ) → masked capacity pool_mask ≡ capacity % 2 ^ 24
masked_capacity capacity = bit_and-low 24 capacity

module _ {ℓ} {A : Type ℓ} where
  new_parts :
      (build : Build) (repr : Repr) (raws : Answers) (capacity : ℕ) {p : ObjectPool A}
      → new build repr raws capacity ≡ done p
      → (Array.new_with_fn repr raws.slots none capacity ≡ done p.slots)
        × (Defs.new build raws.generations raws.free_list capacity pool_mask ≡ done p.allocator)
  unfolding new
  new_parts build repr raws capacity e =
      let (slots, es, e') = >>=-eq-done (Array.new_with_fn repr raws.slots none capacity) _ e in
      let (g, eg, made) =
        >>=-eq-done (Defs.new build raws.generations raws.free_list capacity pool_mask) _ e' in
      let same = done-injective made in
      (es ∙ ap (λ x. done x.slots) same, eg ∙ ap (λ x. done x.allocator) same)

  -- Where `new` returns, every slot is empty and no handle is out. The pool can hand out as many
  -- handles as the capacity modulo 2 ^ 24, from a slot array of the full capacity.
  pub new-Holds :
      (build : Build) (repr : Repr) (raws : Answers) (capacity : ℕ) {p : ObjectPool A}
      → new build repr raws capacity ≡ done p
      → Holds p (countdown (capacity % 2 ^ 24)) empty_book
        × (size p.allocator ≡ capacity % 2 ^ 24)
        × (p.slots.size ≡ capacity)
  new-Holds build repr raws capacity {p} e =
      let (es, eg) = new_parts build repr raws capacity e in
      let (books, sz) = new-Owns build raws.generations raws.free_list capacity pool_mask eg in
      let mask = masked_capacity capacity in
      let (slots_size, cells) = new_with_fn_inversion repr raws.slots capacity none es in
      (
        record {
          books = subst (λ n. Owns p.allocator (countdown n) empty_book) mask books;
          sound = ap length cells ∙ length-replicate capacity none ∙ sym slots_size;
          room = omega (arith, sz ∙ mask);
          small = omega (arith, sz ∙ mask);
          filled = λ i.
              ap (λ c. occupied (get_or c i none)) cells
              ∙ ap occupied (get_or-replicate {A = Option A} capacity i none);
        },
        sz ∙ mask,
        slots_size,
      )

  -- A capacity above 0 that is a multiple of 2 ^ 24 becomes 0 under the mask, and `new` panics
  -- where the generations are allocated, whatever the allocator answers for them. The slots take
  -- memory, fit an allocation and are allocated.
  pub new_masked_away :
      (build : Build) (repr : Repr) (ptr : ℕ) (generations free_list : Option ℕ) (capacity : ℕ)
      → capacity < isize_max
      → Allocates repr capacity
      → capacity % 2 ^ 24 ≡ 0
      → new {A = A} build repr
          (record { slots = some ptr; generations = generations; free_list = free_list })
          capacity
        ≡ panic assert_failed
  unfolding new Defs.new Array.new
  new_masked_away build repr ptr generations free_list capacity small fit gone = rw (
    new_with_fn_lem {A = Option A} repr ptr capacity none small fit,
    masked_capacity capacity,
    gone,
  )
