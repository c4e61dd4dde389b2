-- ===== src/Collections/RingBuffer/Defs.antt =====
-- hoarder-collections/src/collections.rs, `RingBuffer<T>`: a queue of fixed capacity.
-- A cell is `none` while it holds no value (`MaybeUninit`), also after its value is moved out.
use hoarder.Base.{
  ℕ, zero, suc, ◌-◌, Bool, not, ◌&&◌, Option, none, some, List, [], ◌∷◌, ltb, ◌==◌, if◌then◌else◌,
  replicate, Outcome, done, panic, assert, unwrap, unwrap_failed, ◌>>=◌, ◌>>◌, Repr, layout_array,
  allocate, isize_max, write_cell, read_cell, Build, add_usize, rem_usize, set,
}
use hoarder.Error.{Result, ok, err, push_error}

pub record RingBuffer {ℓ} (A : Type ℓ) : Type ℓ where
  pub ptr : ℕ
  pub cells : List (Option A)
  pub write_idx : ℕ
  pub read_idx : ℕ
  pub size : ℕ
  pub len : ℕ

module _ {ℓ} {A : Type ℓ} where
  unfoldable pub new : Repr → Option ℕ → ℕ → Outcome (RingBuffer A)
  new repr raw size = do
    assert (ltb 0 size && ltb size isize_max)
    layout ← unwrap (layout_array repr size)
    ptr ← allocate layout raw
    done (record {
      ptr = ptr;
      cells = replicate size none;
      write_idx = 0;
      read_idx = 0;
      size = size;
      len = 0;
    })

  abbrev pub is_full : RingBuffer A → Bool
  is_full b = b.len == b.size

  abbrev pub is_empty : RingBuffer A → Bool
  is_empty b = b.len == 0

  abbrev pub capacity : RingBuffer A → ℕ
  capacity b = b.size

  unfoldable pub push : Build → RingBuffer A → A → Outcome (RingBuffer A × Result (Unit {0}))
  push build b x =
      if not (is_full b)
      then (do
        cells ← write_cell b.cells b.write_idx (some x)
        next ← add_usize build b.write_idx 1
        write_idx ← rem_usize next b.size
        len ← add_usize build b.len 1
        done (record b { cells = cells; write_idx = write_idx; len = len }, ok tt))
      else done (b, err push_error)

  -- `len -= 1` runs only where `len` is not 0.
  unfoldable pub pop : Build → RingBuffer A → Outcome (RingBuffer A × Option A)
  pop build b =
      if not (is_empty b)
      then (do
        next ← add_usize build b.read_idx 1
        read_idx ← rem_usize next b.size
        x ← read_cell b.cells b.read_idx
        done (
          record b { cells = set b.cells b.read_idx none; read_idx = read_idx; len = b.len - 1 },
          some x,
        ))
      else done (b, none)

  -- `push(item).unwrap()`
  unfoldable pub push_unwrap : Build → RingBuffer A → A → Outcome (RingBuffer A)
  push_unwrap build b x = do
    (b', r) ← push build b x
    elim r [ ok u ↦ done b' | err e ↦ panic unwrap_failed ]

  -- The loop of `from_fixed_iter`: `expect` panics when the iterator ends early.
  unfoldable pub fill : Build → RingBuffer A → ℕ → List A → Outcome (RingBuffer A)
  fill build b zero items = done b
  fill build b (suc n) [] = panic unwrap_failed
  fill build b (suc n) (x ∷ items) = do b' ← push_unwrap build b x; fill build b' n items

  unfoldable pub from_fixed_iter : Build → Repr → Option ℕ → ℕ → List A → Outcome (RingBuffer A)
  unfolding new fill
  from_fixed_iter build repr raw size items = do b ← new repr raw size; fill build b size items

  -- `while let Some(_) = self.pop() {}` on fuel. Without fuel it has not come to an end.
  unfoldable pub drain : Build → ℕ → RingBuffer A → Outcome (Option (RingBuffer A))
  drain build zero b = done none
  drain build (suc fuel) b = do
    (b', item) ← pop build b
    elim item [ none ↦ done (some b') | some x ↦ drain build fuel b' ]
