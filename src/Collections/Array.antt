-- ===== src/Collections/Array.antt =====
-- hoarder-collections/src/collections.rs, `Array<T>`: a heap array of fixed size.
-- A heap block is the list of its cells beside its address; the allocator's answer is an argument
-- of each constructor, `none` for null.
pub mod Laws
use hoarder.Base.{
  ℕ, zero, suc, ◌&&◌, Option, none, some, List, [], ◌∷◌, ltb, get_elem?, replicate, Outcome, done,
  panic, undefined, assert, unwrap, unwrap_failed, ◌>>=◌, ◌>>◌, Repr, Layout, layout_array,
  allocate, isize_max, write_cell,
}

pub record Array {ℓ} (A : Type ℓ) : Type ℓ where
  pub ptr : ℕ
  pub cells : List A
  pub size : ℕ

module _ {ℓ} {A : Type ℓ} where
  -- `for i in 0..size { write(ptr.add(i), init()) }`: each call of `init` gives the same value.
  unfoldable pub new_with_fn : Repr → Option ℕ → A → ℕ → Outcome (Array A)
  new_with_fn repr raw init size = do
    assert (ltb 0 size && ltb size isize_max)
    layout ← unwrap (layout_array repr size)
    ptr ← allocate layout raw
    done (record { ptr = ptr; cells = replicate size init; size = size })

  -- The same body, with the copied value for the closure's.
  unfoldable pub new : Repr → Option ℕ → A → ℕ → Outcome (Array A)
  new repr raw init size = do
    assert (ltb 0 size && ltb size isize_max)
    layout ← unwrap (layout_array repr size)
    ptr ← allocate layout raw
    done (record { ptr = ptr; cells = replicate size init; size = size })

  -- `iter.next().unwrap()` for each cell: the iterator is the list of the items that it yields.
  unfoldable pub take_exactly : ℕ → List A → Outcome (List A)
  take_exactly zero items = done []
  take_exactly (suc n) [] = panic unwrap_failed
  take_exactly (suc n) (x ∷ items) = do rest ← take_exactly n items; done (x ∷ rest)

  unfoldable pub from_fixed_iter : Repr → Option ℕ → ℕ → List A → Outcome (Array A)
  unfolding take_exactly
  from_fixed_iter repr raw size items = do
    assert (ltb size isize_max)
    layout ← unwrap (layout_array repr size)
    ptr ← allocate layout raw
    cells ← take_exactly size items
    done (record { ptr = ptr; cells = cells; size = size })

  abbrev pub len : Array A → ℕ
  len a = a.size

  -- A read inside the bounds test and outside the cells would be undefined behaviour.
  unfoldable pub index : Array A → ℕ → Outcome A
  index a i = do
    assert (ltb i a.size)
    elim (get_elem? a.cells i) [ none ↦ undefined | some x ↦ done x ]

  -- A write through the reference of `index_mut`.
  unfoldable pub set_index : Array A → ℕ → A → Outcome (Array A)
  set_index a i x = do
    assert (ltb i a.size)
    cells ← write_cell a.cells i x
    done (record a { cells = cells })

  -- `Drop`: the address and the layout that go to `dealloc`.
  unfoldable pub drop : Repr → Array A → Outcome (ℕ × Layout)
  drop repr a = do layout ← unwrap (layout_array repr a.size); done (a.ptr, layout)
