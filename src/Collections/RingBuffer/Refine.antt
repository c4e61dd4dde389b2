-- ===== src/Collections/RingBuffer/Refine.antt =====
-- A ring buffer behaves as the bounded queue of the values that it holds, oldest first.
use hoarder.Base.{
  suc, ◌+◌, ◌-◌, ◌%◌, ◌≤◌, ◌<◌, ◌≡◌, refl, sym, ap, ◌∙◌, List, [], ◌∷◌, ◌++◌, Option, none, some,
  map, arith, length, length-set, set, done, Build, isize_max, add_usize_lem, write_cell_lem,
  read_cell_lem,
}
use hoarder.Error.{ok, err, push_error}
use hoarder.Collections.RingBuffer.Defs.{RingBuffer, push, pop, push_unwrap}
use hoarder.Collections.RingBuffer.Window.{
  window, length-window, window-push, window-pop, next_round, start_round,
}

module _ {ℓ} {A : Type ℓ} where
  abbrev pub contents : RingBuffer A → List (Option A)
  contents b = window b.size b.cells b.read_idx b.len

  -- The buffer is well formed and holds the values of the list: the indices are in the storage,
  -- and just the cells from the read index up to the write index are initialised to them.
  pub record Models (b : RingBuffer A) (q : List A) : Type ℓ where
    pub storage : length b.cells ≡ b.size
    pub positive : 0 < b.size
    pub small : b.size < isize_max
    pub read_in : b.read_idx < b.size
    pub write_at : b.write_idx ≡ (b.read_idx + b.len) % b.size
    pub fits : b.len ≤ b.size
    pub holds : contents b ≡ map some q

  length-map-some : (q : List A) → length (map some q) ≡ length q
  length-map-some [] = refl
  length-map-some (x ∷ q) = ap suc (length-map-some q)

  pub Models-len : (b : RingBuffer A) (q : List A) → Models b q → b.len ≡ length q
  Models-len b q m =
      omega
        (arith, length-window b.size b.cells b.read_idx b.len, ap length m.holds, length-map-some q)

  -- What `push` leaves behind on a buffer with room.
  pub after_push : RingBuffer A → A → RingBuffer A
  after_push b x = record b {
    cells = set b.cells b.write_idx (some x);
    write_idx = (b.write_idx + 1) % b.size;
    len = b.len + 1;
  }

  push_done :
      (build : Build) (b : RingBuffer A) (x : A) (q : List A)
      → Models b q
      → length q < b.size
      → push build b x ≡ done (after_push b x, ok tt)
  unfolding push after_push
  push_done build b x q m room = ground (
    arith,
    Models-len b q m,
    write_cell_lem b.cells b.write_idx (some x),
    add_usize_lem build b.write_idx 1,
    add_usize_lem build b.len 1,
  )

  after_push-Models :
      (b : RingBuffer A) (x : A) (q : List A)
      → Models b q
      → length q < b.size
      → Models (after_push b x) (q ++ (x ∷ []))
  unfolding after_push
  after_push-Models b x q m room = record {
    storage = length-set b.cells b.write_idx (some x) ∙ m.storage;
    positive = m.positive;
    small = m.small;
    read_in = m.read_in;
    write_at = next_round b.write_idx b.read_idx b.len b.size m.write_at;
    fits = omega (arith, Models-len b q m);
    holds =
        window-push b.size b.cells x b.len b.read_idx b.write_idx q (sym m.storage) m.read_in
          (omega (arith, Models-len b q m)) m.write_at m.holds;
  }

  -- With room, `push` appends the value; the queue and the buffer go on in step, at the same size.
  pub push_lem :
      (build : Build) (b : RingBuffer A) (x : A) (q : List A)
      → Models b q
      → length q < b.size
      → (push build b x ≡ done (after_push b x, ok tt))
        × Models (after_push b x) (q ++ (x ∷ []))
        × ((after_push b x).size ≡ b.size)
  unfolding after_push
  push_lem build b x q m room = (push_done build b x q m room, after_push-Models b x q m room, refl)

  -- A full buffer refuses the value and stays as it is.
  pub push_full :
      (build : Build) (b : RingBuffer A) (x : A) (q : List A)
      → Models b q
      → length q ≡ b.size
      → push build b x ≡ done (b, err push_error)
  unfolding push
  push_full build b x q m full = ground (arith, Models-len b q m)

  -- What `pop` leaves behind on a buffer that holds a value.
  pub after_pop : RingBuffer A → RingBuffer A
  after_pop b = record b {
    cells = set b.cells b.read_idx none;
    read_idx = (b.read_idx + 1) % b.size;
    len = b.len - 1;
  }

  pop_done :
      (build : Build) (b : RingBuffer A) (x : A) (q : List A)
      → Models b (x ∷ q)
      → pop build b ≡ done (after_pop b, some x)
  unfolding pop after_pop
  pop_done build b x q m = ground (
    arith,
    Models-len b (x ∷ q) m,
    add_usize_lem build b.read_idx 1,
    window-pop b.size b.cells x b.len b.read_idx q m.read_in m.fits m.holds,
    read_cell_lem b.cells b.read_idx x,
  )

  after_pop-Models :
      (b : RingBuffer A) (x : A) (q : List A) → Models b (x ∷ q) → Models (after_pop b) q
  unfolding after_pop
  after_pop-Models b x q m = record {
    storage = length-set b.cells b.read_idx none ∙ m.storage;
    positive = m.positive;
    small = m.small;
    read_in = omega (arith, m.positive);
    write_at =
        start_round b.write_idx b.read_idx b.len b.size (omega (arith, Models-len b (x ∷ q) m))
          m.write_at;
    fits = omega (arith, m.fits);
    holds = (window-pop b.size b.cells x b.len b.read_idx q m.read_in m.fits m.holds).1;
  }

  -- `pop` takes the oldest value out.
  pub pop_lem :
      (build : Build) (b : RingBuffer A) (x : A) (q : List A)
      → Models b (x ∷ q)
      → (pop build b ≡ done (after_pop b, some x))
        × Models (after_pop b) q
        × ((after_pop b).size ≡ b.size)
  unfolding after_pop
  pop_lem build b x q m = (pop_done build b x q m, after_pop-Models b x q m, refl)

  -- `pop` of an empty buffer changes nothing.
  pub pop_empty : (build : Build) (b : RingBuffer A) → Models b [] → pop build b ≡ done (b, none)
  unfolding pop
  pop_empty build b m = ground (arith, Models-len b [] m)

  pub push_unwrap_lem :
      (build : Build) (b : RingBuffer A) (x : A) (q : List A)
      → Models b q
      → length q < b.size
      → push_unwrap build b x ≡ done (after_push b x)
  unfolding push_unwrap
  push_unwrap_lem build b x q m room = rw (push_done build b x q m room)
