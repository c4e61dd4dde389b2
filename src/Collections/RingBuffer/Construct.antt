-- ===== src/Collections/RingBuffer/Construct.antt =====
-- The constructors of a ring buffer and its `Drop`: what they give, and that their loops end.
use hoarder.Base.{
  subst, sym, done-injective, ℕ, suc, ◌+◌, ◌≤◌, ◌<◌, ◌≡◌, refl, ◌∙◌, List, [], ◌∷◌, ◌++◌, Option,
  none, some, arith, length, length-append, append_assoc, append-nil, replicate, length-replicate,
  done, Build, Repr, isize_max, lt→ltb, layout_array, Allocates, allocate_array, layout_array_lem,
}
use hoarder.Collections.RingBuffer.Defs.{RingBuffer, new, fill, from_fixed_iter, drain}
use hoarder.Collections.RingBuffer.Refine.{
  Models, push_lem, push_unwrap_lem, after_push, after_pop, pop_lem, pop_empty,
}

module _ {ℓ} {A : Type ℓ} where
  -- `new` gives an empty buffer of the size that it is asked for, where the allocator answers.
  unfoldable pub fresh : ℕ → ℕ → RingBuffer A
  fresh ptr size = record {
    ptr = ptr;
    cells = replicate size none;
    write_idx = 0;
    read_idx = 0;
    size = size;
    len = 0;
  }

  pub fresh-Models : (ptr size : ℕ) → 0 < size → size < isize_max → Models (fresh ptr size) []
  unfolding fresh
  fresh-Models ptr size pos small = record {
    storage = length-replicate size none;
    positive = pos;
    small = small;
    read_in = pos;
    write_at = grind arith;
    fits = omega arith;
    holds = refl;
  }

  pub new_lem :
      (repr : Repr) (ptr size : ℕ)
      → size < isize_max
      → Allocates repr size
      → new repr (some ptr) size ≡ done (fresh ptr size)
  unfolding new fresh
  new_lem repr ptr size small a = rw (
    lt→ltb 0 size a.nonempty,
    lt→ltb size isize_max small,
    layout_array_lem repr size a,
    allocate_array repr size ptr a,
  )

  -- The loop of `from_fixed_iter` pushes the items in order.
  fill_lem :
      (build : Build) (items : List A) (b : RingBuffer A) (q : List A)
      → Models b q
      → length q + length items ≤ b.size
      → (b' : RingBuffer A) × (fill build b (length items) items ≡ done b')
        × Models b' (q ++ items)
        × (b'.size ≡ b.size)
  unfolding fill
  fill_lem build [] b q m room = (b, refl, rw append-nil m, refl)
  fill_lem build (x ∷ items) b q m room =
      let (e, m', s) = push_lem build b x q m (omega arith) in
      let (b', e', m'', s') =
        fill_lem build items (after_push b x) (q ++ (x ∷ [])) m'
          (omega (arith, length-append q (x ∷ []))) in
      (
        b',
        rw (push_unwrap_lem build b x q m (omega arith)) e',
        rw (← append_assoc q (x ∷ []) items) m'',
        s' ∙ s,
      )

  -- With at least one item and fewer than `isize::MAX`, elements that take memory, a layout that
  -- fits and an allocator that answers, `from_fixed_iter` over just the items gives a full buffer
  -- that holds them in order.
  pub from_fixed_iter_lem :
      (build : Build) (repr : Repr) (ptr : ℕ) (items : List A)
      → length items < isize_max
      → Allocates repr (length items)
      → (b : RingBuffer A) × (from_fixed_iter build repr (some ptr) (length items) items ≡ done b)
        × Models b items
        × (b.size ≡ length items)
  unfolding from_fixed_iter fresh
  from_fixed_iter_lem build repr ptr items small fit =
      let (b, e, m, s) =
        fill_lem build items (fresh ptr (length items)) []
          (fresh-Models ptr (length items) fit.nonempty small) (omega arith) in
      (b, rw (new_lem repr ptr (length items) small fit) e, m, s)

  -- `Drop` on a well-formed buffer pops until the buffer is empty; as many rounds as it holds
  -- values, and one, are enough.
  pub drain_lem :
      (build : Build) (q : List A) (b : RingBuffer A)
      → Models b q
      → (b' : RingBuffer A) × (drain build (suc (length q)) b ≡ done (some b')) × Models b' []
  unfolding drain
  drain_lem build [] b m = (b, rw (pop_empty build b m), m)
  drain_lem build (x ∷ q) b m =
      let (e, m', _) = pop_lem build b x q m in
      let (b', e', m'') = drain_lem build q (after_pop b) m' in (b', rw e e', m'')

  -- Where `from_fixed_iter` returns, it has given a full buffer that holds the items.
  pub from_fixed_iter_inversion :
      (build : Build) (repr : Repr) (raw : Option ℕ) (size : ℕ) (items : List A) {b : RingBuffer A}
      → length items ≡ size
      → size < isize_max
      → Allocates repr size
      → from_fixed_iter build repr raw size items ≡ done b
      → Models b items × (b.size ≡ size)
  unfolding from_fixed_iter layout_array
  from_fixed_iter_inversion build repr none size items l small fit e = absurd (ground arith)
  from_fixed_iter_inversion build repr (some ptr) size items {b} l small fit e =
      let (b', e', m, s) = from_fixed_iter_lem build repr ptr items (omega arith) (rw l fit) in
      subst (λ x. Models x items × (x.size ≡ size))
        (done-injective
          (sym e' ∙ subst (λ k. from_fixed_iter build repr (some ptr) k items ≡ done b) (sym l) e))
        (m, s ∙ l)
