-- ===== src/Collections/BufferPool/Laws.antt =====
-- The buffers that a pool hands out: where they lie, that they do not overlap, and when `get`
-- refuses.
use hoarder.Base.{
  ℕ, ◌+◌, ◌-◌, ◌*◌, ◌%◌, ◌^◌, ◌≤◌, ◌<◌, ◌≡◌, ◌≢◌, sym, ap, ◌∙◌, ◌⊎◌, inl, inr, List, [], ◌∷◌, ◌++◌,
  none, some, Option, Outcome, undefined, if◌then◌else◌, refl, arith, true, false, done, Build,
  >>=-eq-done, done-injective, subst, dec_lt, add_u32, isize_max,
}
use hoarder.Base.Bits.{bit_and-low}
use hoarder.Error.{Result, ok, err}
use hoarder.Collections.AlignedBuffers
use hoarder.Collections.AlignedBuffers.{AlignedBuffers, buf_ptr}
use hoarder.Collections.AlignedBuffers.Laws.{IsSound, new_lem, buf_ptr_lem, buf_disjoint}
use hoarder.Collections.GenAlloc.Defs
use hoarder.Collections.GenAlloc.Defs.{GenId, GenAlloc, is_valid, countdown, masked}
use hoarder.Collections.GenAlloc.Invariant.{Book, enter, Owns, size, generation_at, held_room}
use hoarder.Collections.GenAlloc.Laws.{
  alloc_lem, alloc-none, free_lem, held_valid, after_alloc, after_free, id_at,
}
use hoarder.Collections.GenAlloc.Construct.{empty_book, new-Owns}
use hoarder.Collections.BufferPool.{
  BufferHandle, BufferPool, Slice, Memory, Answers, new, get, alloc, free, unwrap_result,
}

-- The pool's parts fit together: a sound block of as many buffers as there are indices, and
-- complete books.
pub record Holds (buf_size : ℕ) (p : BufferPool) (q : List ℕ) (held : Book) : Type 0 where
  pub block : IsSound p.pool
  pub books : Owns p.allocator q held
  pub same : p.pool.count ≡ size p.allocator
  pub sized : p.pool.buf_size ≡ buf_size

abbrev pub handle : ℕ → ℕ → BufferHandle
handle i gen = record { id = record { index = i; generation = gen } }

-- The slice of an index.
abbrev pub slice_at : BufferPool → ℕ → Slice
slice_at p i = record { start = p.pool.ptr + i * p.pool.buf_size; len = p.pool.buf_size }

-- What `get` makes of a slice of so many bytes at an index.
abbrev sliced : Memory → BufferPool → ℕ → ℕ → Outcome (Option Slice)
sliced mem p i n =
    if mem.ready (record { start = p.pool.ptr + i * p.pool.buf_size; len = n })
    then done (some (record { start = p.pool.ptr + i * p.pool.buf_size; len = n }))
    else undefined

module _ (buf_size align : ℕ) (build : Build) {p : BufferPool} {held : Book} (q : List ℕ) where
  -- In a well-formed pool, `get` on a handle that is out gives the whole buffer of its index, which
  -- is aligned and ends inside the block.
  pub get_held :
      (mem : Memory) (i gen : ℕ)
      → mem.ready (slice_at p i) ≡ true
      → Holds buf_size p q held
      → held i ≡ some gen
      → (get buf_size align build mem p (handle i gen) ≡ done (some (slice_at p i)))
        × ((slice_at p i).start % p.pool.alignment ≡ 0)
        × (i * p.pool.buf_size + (slice_at p i).len ≤ p.pool.total_size)
  unfolding get
  get_held mem i gen r hs h = elim (buf_ptr_lem build p.pool i hs.block) [
    | inl (inside, e, aligned, ends) ↦ (
      rw (held_valid q hs.books h, e)
          (subst (λ n. sliced mem p i n ≡ done (some (slice_at p i))) hs.sized (rw r refl)),
      aligned,
      ends,
    )
    | inr (outside, e) ↦ absurd (omega (arith, held_room q hs.books h, hs.same))
  ]

  -- There is no slice to be had of memory that is not ready for it.
  pub get_unready :
      (mem : Memory) (i gen : ℕ)
      → mem.ready (slice_at p i) ≡ false
      → Holds buf_size p q held
      → held i ≡ some gen
      → get buf_size align build mem p (handle i gen) ≡ undefined
  unfolding get
  get_unready mem i gen r hs h = elim (buf_ptr_lem build p.pool i hs.block) [
    | inl (inside, e, aligned, ends) ↦
        rw (held_valid q hs.books h, e)
          (subst (λ n. sliced mem p i n ≡ undefined) hs.sized (rw r refl))
    | inr (outside, e) ↦ absurd (omega (arith, held_room q hs.books h, hs.same))
  ]

  -- In a well-formed buffer pool, the slices that `get` gives for two handles that are out with
  -- different indices do not overlap.
  pub slices_disjoint :
      (mem : Memory) (i j gen gen' : ℕ) (a b : Slice)
      → mem.ready (slice_at p i) ≡ true
      → mem.ready (slice_at p j) ≡ true
      → Holds buf_size p q held
      → held i ≡ some gen
      → held j ≡ some gen'
      → i ≢ j
      → get buf_size align build mem p (handle i gen) ≡ done (some a)
      → get buf_size align build mem p (handle j gen') ≡ done (some b)
      → (a.start + a.len ≤ b.start) ⊎ (b.start + b.len ≤ a.start)
  slices_disjoint mem i j gen gen' a b ri rj hs hi hj ne ei ej =
      let same_a : slice_at p i ≡ a = ground (arith, (get_held mem i gen ri hs hi).0) in
      let same_b : slice_at p j ≡ b = ground (arith, (get_held mem j gen' rj hs hj).0) in
      rw (← same_a, ← same_b)
        (elim (dec_lt i j) [
          | yes l ↦ inl (buf_disjoint p.pool i j l)
          | no g ↦ inr (buf_disjoint p.pool j i (omega arith))
        ])

  -- In a well-formed pool, freeing a handle that is out and whose generation can still rise takes
  -- its index out of the books; the pool stays well formed, and `get` on the handle gives no buffer
  -- any more.
  pub freed :
      (i gen : ℕ) {next : ℕ}
      → Holds buf_size p q held
      → held i ≡ some gen
      → add_u32 build gen 1 ≡ done next
      → (free build p (handle i gen)
          ≡ done (record p { allocator = after_free p.allocator i next }, true))
        × Holds buf_size
            (record p { allocator = after_free p.allocator i next })
            (q ++ (i ∷ []))
            (enter held i none)
        × ((mem : Memory)
            → get buf_size align build mem
                (record p { allocator = after_free p.allocator i next })
                (handle i gen)
              ≡ done none)
  unfolding free after_free get
  freed i gen {next} hs h e =
      let (ef, books, invalid) = free_lem build q hs.books h e in
      (
        rw ef,
        record { block = hs.block; books = books; same = hs.same; sized = hs.sized },
        λ mem. rw invalid,
      )

module _ (buf_size align : ℕ) (build : Build) {p : BufferPool} {held : Book} where
  -- While a buffer is free in a well-formed pool, `alloc` hands out one that nobody holds, the pool
  -- stays well formed, and `get` on the handle gives that buffer.
  pub allocated :
      (i : ℕ) (q : List ℕ)
      → Holds buf_size p (i ∷ q) held
      → (alloc build p
          ≡ done (
            record p { allocator = after_alloc p.allocator },
            some (record { id = id_at p.allocator i }),
          ))
        × (held i ≡ none)
        × Holds buf_size
            (record p { allocator = after_alloc p.allocator })
            q
            (enter held i (some (generation_at p.allocator i)))
        × ((mem : Memory)
            → mem.ready (slice_at p i) ≡ true
            → get buf_size align build mem
                (record p { allocator = after_alloc p.allocator })
                (record { id = id_at p.allocator i })
              ≡ done (some (slice_at p i)))
  unfolding alloc after_alloc
  allocated i q hs =
      let (e, unheld, books) = alloc_lem build hs.books in
      let hs' : Holds buf_size (record p { allocator = after_alloc p.allocator }) q
          (enter held i (some (generation_at p.allocator i))) =
        record { block = hs.block; books = books; same = hs.same; sized = hs.sized } in
      (
        rw e,
        unheld,
        hs',
        λ mem r.
            (get_held buf_size align build q mem i (generation_at p.allocator i) r hs'
              (ground arith)).0,
      )

  -- With every buffer out, `alloc` gives nothing and the pool stays as it is.
  pub exhausted : Holds buf_size p [] held → alloc build p ≡ done (p, none)
  unfolding alloc
  exhausted hs = rw (alloc-none build hs.books)

-- `get` on a handle that is not valid gives nothing.
pub get_refused :
    (buf_size align : ℕ) (build : Build) (mem : Memory) (p : BufferPool) (h : BufferHandle)
    → is_valid p.allocator h.id ≡ done false
    → get buf_size align build mem p h ≡ done none
unfolding get
get_refused buf_size align build mem p h e = rw e

unwrapped : {b : AlignedBuffers} (r : Result AlignedBuffers) → unwrap_result r ≡ done b → r ≡ ok b
unfolding unwrap_result
unwrapped (ok a) e = cc
unwrapped (err x) e = cc

-- The parts of a pool that `new` returned.
new_parts :
    (buf_size align : ℕ) (build : Build) (raws : Answers) (count : ℕ) {p : BufferPool}
    → new buf_size align build raws count ≡ done p
    → (AlignedBuffers.new raws.block count buf_size align ≡ done (ok p.pool))
      × (Defs.new build raws.generations raws.free_list count 0 ≡ done p.allocator)
unfolding new
new_parts buf_size align build raws count {p} e =
    let (r, er, e') = >>=-eq-done (AlignedBuffers.new raws.block count buf_size align) _ e in
    let (pool, ep, e'') = >>=-eq-done (unwrap_result r) _ e' in
    let (g, eg, made) =
      >>=-eq-done (Defs.new build raws.generations raws.free_list count 0) _ e'' in
    let same = done-injective made in
    (
      er ∙ ap done (unwrapped r ep) ∙ ap (λ x. done (ok x.pool)) same,
      eg ∙ ap (λ x. done x.allocator) same,
    )

-- Where `new` returns, the pool is well formed and every buffer is free. The alignment is a power
-- of two that divides the buffer size, the block's size is not zero and fits an allocation, the
-- count fits 32 bits, and the allocator's answer is aligned.
pub new_ready :
    (buf_size align : ℕ) (build : Build) (raws : Answers) (count : ℕ) {p : BufferPool}
    → AlignedBuffers.is_power_of_two align ≡ true
    → buf_size % align ≡ 0
    → 0 < count * buf_size
    → count * buf_size + (align - 1) ≤ isize_max
    → count < 2 ^ 32
    → ((a : ℕ) → raws.block ≡ some a → a % align ≡ 0)
    → new buf_size align build raws count ≡ done p
    → Holds buf_size p (countdown count) empty_book
new_ready buf_size align build raws count {p} pow whole pos fit word aligned e =
    let (eb, eg) = new_parts buf_size align build raws count e in
    let (books, sz) = new-Owns build raws.generations raws.free_list count 0 eg in
    let mask : masked count 0 ≡ count = bit_and-low 32 count ∙ omega arith in
    let books' = subst (λ n. Owns p.allocator (countdown n) empty_book) mask books in
    elim (new_lem raws.block count buf_size align pow whole pos fit aligned) [
      | inl (missing, fails) ↦ absurd (ground arith)
      | inr (b, made, sound, counted, sized) ↦
          let same : b ≡ p.pool = ground arith in
          record {
            block = subst IsSound same sound;
            books = books';
            same = ap (λ x. x.count) (sym same) ∙ counted ∙ sym mask ∙ sym sz;
            sized = ap (λ x. x.buf_size) (sym same) ∙ sized;
          }
    ]
