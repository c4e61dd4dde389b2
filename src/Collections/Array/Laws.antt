-- ===== src/Collections/Array/Laws.antt =====
-- What the operations of `Array<T>` give on a well-formed array.
use hoarder.Base.{
  ℕ, dec_lt, sym, ◌+◌, ◌-◌, ◌*◌, ◌≤◌, ◌<◌, ◌≡◌, ap, ◌∙◌, Option, some, arith, length, length-set,
  get_or, set, get_elem?-eq-get_or, replicate, done, panic, assert_failed, lt→ltb, le→ltb_false,
  write_cell_lem, Repr, Allocates, allocate_array, layout_array_lem, isize_max, layout_array, ◌≢◌,
  get_or-set_self, get_or-set_ne,
}
use hoarder.Collections.Array.{Array, new, new_with_fn, index, set_index}

module _ {ℓ} {A : Type ℓ} where
  -- The block has as many cells as the array says.
  abbrev pub IsSound : Array A → Type 0
  IsSound a = length a.cells ≡ a.size

  pub index_lem :
      (a : Array A) (i : ℕ) (d : A) → IsSound a → i < a.size → index a i ≡ done (get_or a.cells i d)
  unfolding index
  index_lem a i d s h = rw (lt→ltb i a.size h, get_elem?-eq-get_or a.cells i d (omega arith))

  pub index_out : (a : Array A) (i : ℕ) → a.size ≤ i → index a i ≡ panic assert_failed
  unfolding index
  index_out a i h = rw (le→ltb_false i a.size h)

  pub set_index_lem :
      (a : Array A) (i : ℕ) (x : A)
      → IsSound a
      → i < a.size
      → set_index a i x ≡ done (record a { cells = set a.cells i x })
  unfolding set_index
  set_index_lem a i x s h = rw (lt→ltb i a.size h, write_cell_lem a.cells i x (omega arith))

  pub new_lem :
      (repr : Repr) (ptr size : ℕ) (init : A)
      → size < isize_max
      → Allocates repr size
      → new repr (some ptr) init size
        ≡ done (record { ptr = ptr; cells = replicate size init; size = size })
  unfolding new
  new_lem repr ptr size init small a = rw (
    lt→ltb 0 size a.nonempty,
    lt→ltb size isize_max small,
    layout_array_lem repr size a,
    allocate_array repr size ptr a,
  )

  pub new_with_fn_lem :
      (repr : Repr) (ptr size : ℕ) (init : A)
      → size < isize_max
      → Allocates repr size
      → new_with_fn repr (some ptr) init size
        ≡ done (record { ptr = ptr; cells = replicate size init; size = size })
  unfolding new_with_fn
  new_with_fn_lem repr ptr size init small a = rw (
    lt→ltb 0 size a.nonempty,
    lt→ltb size isize_max small,
    layout_array_lem repr size a,
    allocate_array repr size ptr a,
  )

  -- A write and a read of one array: the written value at its index, the old one elsewhere, and an
  -- index out of range stops both with the assertion.
  pub index-set_index :
      (a : Array A) (i j : ℕ) (x d : A)
      → IsSound a
      → i < a.size
      → (a' : Array A) × (set_index a i x ≡ done a')
        × IsSound a'
        × (index a' i ≡ done x)
        × (j ≢ i → index a' j ≡ index a j)
  index-set_index a i j x d s h = (a', set_index_lem a i x s h, sound, here, elsewhere)
    where
      a' : Array A
      a' = record a { cells = set a.cells i x }

      sound : IsSound a'
      sound = length-set a.cells i x ∙ s

      here : index a' i ≡ done x
      here = index_lem a' i d sound h ∙ ap done (get_or-set_self a.cells i x d (omega arith))

      elsewhere : j ≢ i → index a' j ≡ index a j
      elsewhere ne = elim (dec_lt j a.size) [
        | yes inside ↦
            rw (index_lem a' j d sound inside, index_lem a j d s inside)
              (ap done (get_or-set_ne a.cells x d (λ e. ne (sym e))))
        | no outside ↦ rw (index_out a' j (omega arith), index_out a j (omega arith))
      ]

  -- Where `new` returns, its checks have passed and the allocator has answered.
  pub new_inversion :
      (repr : Repr) (raw : Option ℕ) (size : ℕ) (init : A) {a : Array A}
      → new repr raw init size ≡ done a
      → (0 < size)
        × (size < isize_max)
        × (repr.size_of * size + (repr.align_of - 1) ≤ isize_max)
        × (a.size ≡ size)
        × (a.cells ≡ replicate size init)
  unfolding new layout_array
  new_inversion repr raw size init e = ground arith

  pub new_with_fn_inversion :
      (repr : Repr) (raw : Option ℕ) (size : ℕ) (init : A) {a : Array A}
      → new_with_fn repr raw init size ≡ done a
      → (a.size ≡ size) × (a.cells ≡ replicate size init)
  unfolding new_with_fn layout_array
  new_with_fn_inversion repr raw size init e = ground arith
