-- ===== src/Collections/GenAlloc/Stale.antt =====
-- In a debug build generations only rise, so an id that was freed is never valid again, whatever
-- the client calls afterwards.
use hoarder.Base.{
  ℕ, ◌+◌, ◌≤◌, ◌<◌, ◌≡◌, refl, sym, ap, ◌∙◌, List, [], ◌∷◌, Option, none, some, arith, length-set,
  get_or, set, get_or-set_self, get_or-set_ne, Outcome, done, ◌>>=◌, >>=-eq-done, done-injective,
  subst, Build, debug, Bool, true, false, ◌⊎◌, inl, inr, if◌then◌else◌, add_u32, ℕ_discrete, dec_lt,
}
use hoarder.Collections.Array
use hoarder.Collections.Array.{Array}
use hoarder.Collections.Array.Laws.{IsSound, index_lem, index_out, set_index_lem}
use hoarder.Collections.RingBuffer.Defs.{pop, push_unwrap}
use hoarder.Collections.GenAlloc.Defs.{
  GenId, GenAlloc, alloc, give, raise, take_back, free, is_valid,
}
use hoarder.Collections.GenAlloc.Invariant.{size, generation_at, is_valid_lem}

-- What may have happened to the table: same size, generations no lower.
record Later (g g' : GenAlloc) : Type 0 where
  table : IsSound g'.generation
  same : size g' ≡ size g
  rises : (i : ℕ) → generation_at g i ≤ generation_at g' i

Later-trans : {a b c : GenAlloc} → Later a b → Later b c → Later a c
Later-trans p q = record {
  table = q.table;
  same = q.same ∙ p.same;
  rises = λ i. omega (arith, p.rises i, q.rises i);
}

Later-refl : (g : GenAlloc) → IsSound g.generation → Later g g
Later-refl g s = record { table = s; same = refl; rises = λ i. omega arith }

give-table :
    (g g' : GenAlloc) (popped : Option ℕ) (r : Option GenId)
    → give g popped ≡ done (g', r)
    → g.generation ≡ g'.generation
unfolding give
give-table g g' none r e = ground arith
give-table g g' (some idx) r e =
    let (gen, _, e') = >>=-eq-done (Array.index g.generation idx) _ e in ground arith

alloc-Later :
    (g g' : GenAlloc) (r : Option GenId)
    → IsSound g.generation
    → alloc debug g ≡ done (g', r)
    → Later g g'
unfolding alloc
alloc-Later g g' r s e =
    let ((queue, popped), _, e') = >>=-eq-done (pop debug g.free_list) _ e in
    let same = give-table (record g { free_list = queue }) g' popped r e' in
    record {
      table = subst IsSound same s;
      same = ap (λ t. t.size) (sym same);
      rises = λ i. omega (arith, ap (λ t. get_or t.cells i 0) same);
    }

-- What `+= 1` on a generation did: the array is sound, and only that generation is higher.
abbrev Raised : Array ℕ → ℕ → Array ℕ → Type 0
Raised a i a' =
    IsSound a'
    × (a'.size ≡ a.size)
    × (get_or a'.cells i 0 ≡ get_or a.cells i 0 + 1)
    × ((j : ℕ) → get_or a.cells j 0 ≤ get_or a'.cells j 0)

set-Raised :
    (a : Array ℕ) (i : ℕ)
    → IsSound a
    → i < a.size
    → Raised a i (record a { cells = set a.cells i (get_or a.cells i 0 + 1) })
set-Raised a i s h = (
  length-set a.cells i (get_or a.cells i 0 + 1) ∙ s,
  refl,
  get_or-set_self a.cells i (get_or a.cells i 0 + 1) 0 (omega arith),
  λ j. elim (ℕ_discrete i j) [
    | yes e ↦
        rw (← e) (omega (arith, get_or-set_self a.cells i (get_or a.cells i 0 + 1) 0 (omega arith)))
    | no ne ↦ omega (arith, get_or-set_ne a.cells (get_or a.cells i 0 + 1) 0 ne)
  ],
)

raise-Raised : (a a' : Array ℕ) (i : ℕ) → IsSound a → raise debug a i ≡ done a' → Raised a i a'
unfolding raise add_u32
raise-Raised a a' i s e = elim (dec_lt i a.size) [
  | yes h ↦
      let same : record a { cells = set a.cells i (get_or a.cells i 0 + 1) } ≡ a' =
        ground (arith, index_lem a i 0 s h, set_index_lem a i (get_or a.cells i 0 + 1) s h) in
      subst (Raised a i) same (set-Raised a i s h)
  | no h ↦ absurd (ground (arith, index_out a i (omega arith)))
]

take_back-Later :
    (g g' : GenAlloc) (i : ℕ) (r : Bool)
    → IsSound g.generation
    → take_back debug g i ≡ done (g', r)
    → Later g g' × (generation_at g i < generation_at g' i)
unfolding take_back
take_back-Later g g' i r s e =
    let (a, er, e') = >>=-eq-done (raise debug g.generation i) _ e in
    let (b, _, e'') = >>=-eq-done (push_unwrap debug g.free_list i) _ e' in
    let same : a ≡ g'.generation = ground arith in
    let (sound, sz, up, rises) =
      subst (Raised g.generation i) same (raise-Raised g.generation a i s er) in
    (record { table = sound; same = sz; rises = rises }, omega arith)

-- A successful `free` of an id raises its generation.
free-Later :
    (g g' : GenAlloc) (id : GenId) (r : Bool)
    → IsSound g.generation
    → free debug g id ≡ done (g', r)
    → Later g g' × ((r ≡ false) ⊎ (id.generation < generation_at g' id.index))
unfolding free
free-Later g g' id r s e =
    let (valid, ev, e') = >>=-eq-done (is_valid g id) _ e in by_validity valid ev e'
  where
    by_validity :
        (valid : Bool)
        → is_valid g id ≡ done valid
        → (if valid then take_back debug g id.index else done (g, false)) ≡ done (g', r)
        → Later g g' × ((r ≡ false) ⊎ (id.generation < generation_at g' id.index))
    by_validity true ev e' =
        let (later, up) = take_back-Later g g' id.index r s e' in
        (later, inr (ground (arith, is_valid_lem g id s)))
    by_validity false ev e' =
        let same : g ≡ g' = ground arith in
        (subst (Later g) same (Later-refl g s), inl (ground arith))

-- A call of any client, on ids of its own making too.
pub data Call : Type 0 where
  allocs : Call
  frees : GenId → Call

pub step : Build → GenAlloc → Call → Outcome GenAlloc
step build g allocs = do (g', r) ← alloc build g; done g'
step build g (frees id) = do (g', r) ← free build g id; done g'

unfoldable pub run : Build → GenAlloc → List Call → Outcome GenAlloc
unfolding step
run build g [] = done g
run build g (c ∷ cs) = do g' ← step build g c; run build g' cs

step-Later :
    (g g' : GenAlloc) (c : Call) → IsSound g.generation → step debug g c ≡ done g' → Later g g'
unfolding step
step-Later g g' allocs s e =
    let ((g₁, r), ea, e') = >>=-eq-done (alloc debug g) _ e in
    subst (Later g) (done-injective e') (alloc-Later g g₁ r s ea)
step-Later g g' (frees id) s e =
    let ((g₁, r), ef, e') = >>=-eq-done (free debug g id) _ e in
    subst (Later g) (done-injective e') (free-Later g g₁ id r s ef).0

run-Later :
    (g g' : GenAlloc) (cs : List Call)
    → IsSound g.generation
    → run debug g cs ≡ done g'
    → Later g g'
unfolding run
run-Later g g' [] s e = subst (Later g) (done-injective e) (Later-refl g s)
run-Later g g' (c ∷ cs) s e =
    let (g₁, es, e') = >>=-eq-done (step debug g c) _ e in
    let later = step-Later g g₁ c s es in Later-trans later (run-Later g₁ g' cs later.table e')

-- In a debug build an id that `free` has taken back is refused by `is_valid` after every further
-- sequence of calls that ends without a panic, whatever ids those calls use; the allocator's table
-- was sound.
pub stale_forever :
    (g g₁ g₂ : GenAlloc) (id : GenId) (cs : List Call)
    → IsSound g.generation
    → free debug g id ≡ done (g₁, true)
    → run debug g₁ cs ≡ done g₂
    → is_valid g₂ id ≡ done false
stale_forever g g₁ g₂ id cs s ef er =
    let (first, freed) = free-Later g g₁ id true s ef in
    let rest = run-Later g₁ g₂ cs first.table er in
    is_valid_lem g₂ id rest.table
    ∙ ap done (ground (arith, freed, first.same, rest.same, rest.rises id.index))
