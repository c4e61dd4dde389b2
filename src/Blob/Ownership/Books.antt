-- ===== src/Blob/Ownership/Books.antt =====
-- Owners against the books of a buffer pool.
use hoarder.Base.{
  ℕ, ◌≡◌, ◌≢◌, refl, sym, ap, ◌∙◌, Option, none, some, arith, ℕ_discrete, some-injective, ◌⊎◌, inl,
  inr,
}
use hoarder.Collections.GenAlloc.Invariant.{Book, enter}
use hoarder.Collections.BufferPool.{BufferHandle}
use hoarder.Collections.BufferPool.Laws.{handle}

-- Who has which buffer.
abbrev pub Owners : Type 0
Owners = ℕ → Option BufferHandle

-- What an owner has is out, two owners have different buffers, and what is out has an owner.
pub record Owned (own : Owners) (book : Book) : Type 0 where
  pub live : (i b g : ℕ) → own i ≡ some (handle b g) → book b ≡ some g
  pub apart : (i j b g h : ℕ) → own i ≡ some (handle b g) → own j ≡ some (handle b h) → i ≡ j
  pub kept : (b g : ℕ) → book b ≡ some g → (i : ℕ) × (own i ≡ some (handle b g))

-- What one owner does: nothing, take a free buffer, or give its buffer back.
pub data Change (book : Book) (v v' : Option BufferHandle) (book' : Book) : Type 0 where
  keeps : v' ≡ v → book' ≡ book → Change book v v' book'
  takes :
      (b g : ℕ)
      → v ≡ none
      → v' ≡ some (handle b g)
      → book b ≡ none
      → book' ≡ enter book b (some g)
      → Change book v v' book'
  gives :
      (b g : ℕ)
      → v ≡ some (handle b g)
      → v' ≡ none
      → book' ≡ enter book b none
      → Change book v v' book'

same_fields : {b c g h : ℕ} → some (handle b g) ≡ some (handle c h) → (b ≡ c) × (g ≡ h)
same_fields e = let s = some-injective e in (ap (λ x. x.id.index) s, ap (λ x. x.id.generation) s)

module _ (own own' : Owners) (book book' : Book) (i : ℕ) (o : Owned own book)
    (others : (j : ℕ) → j ≢ i → own' j ≡ own j) where
  keeps-Owned : own' i ≡ own i → book' ≡ book → Owned own' book'
  keeps-Owned here books = record {
    live = λ j b g e. rw books (o.live j b g (sym (same j) ∙ e));
    apart = λ j k b g h e f. o.apart j k b g h (sym (same j) ∙ e) (sym (same k) ∙ f);
    kept = λ b g e. let (j, f) = o.kept b g (ap (λ x. x b) (sym books) ∙ e) in (j, same j ∙ f);
  }
    where
      same : (j : ℕ) → own' j ≡ own j
      same j = elim (ℕ_discrete j i) [ yes e ↦ rw e here | no ne ↦ others j ne ]

  -- The owner in question, or another one with what it had.
  which : {h : BufferHandle} (j : ℕ) → own' j ≡ some h → (j ≡ i) ⊎ ((j ≢ i) × (own j ≡ some h))
  which j e = elim (ℕ_discrete j i) [ yes f ↦ inl f | no ne ↦ inr (ne, sym (others j ne) ∙ e) ]

  module _ (b g : ℕ) where
    -- After a buffer was taken that nobody had.
    takes-which :
        (j c h : ℕ)
        → book b ≡ none
        → own' i ≡ some (handle b g)
        → own' j ≡ some (handle c h)
        → ((j ≡ i) × (b ≡ c) × (g ≡ h)) ⊎ ((b ≢ c) × (own j ≡ some (handle c h)))
    takes-which j c h vacant here e = elim (which j e) [
      | inl f ↦ let (s, t) = same_fields (sym here ∙ ap own' (sym f) ∙ e) in inl (f, s, t)
      | inr (ne, old) ↦ let l = o.live j c h old in inr (λ s. cc, old)
    ]

    takes-Owned :
        own i ≡ none
        → own' i ≡ some (handle b g)
        → book b ≡ none
        → book' ≡ enter book b (some g)
        → Owned own' book'
    takes-Owned before here vacant books = record {
      live = λ j c h e. elim (takes-which j c h vacant here e) [
        | inl (_, s, t) ↦ ap (λ x. x c) books ∙ ground arith
        | inr (ne, old) ↦ ap (λ x. x c) books ∙ ground (arith, o.live j c h old)
      ];
      apart = λ j k c h l e f. elim (takes-which j c h vacant here e) [
        | inl (p, s, t) ↦ elim (takes-which k c l vacant here f) [
          | inl (q, _, _) ↦ p ∙ sym q
          | inr (ne, _) ↦ absurd (ne s)
        ]
        | inr (ne, old) ↦ elim (takes-which k c l vacant here f) [
          | inl (_, s, _) ↦ absurd (ne s)
          | inr (_, old') ↦ o.apart j k c h l old old'
        ]
      ];
      kept = λ c h e. elim (ℕ_discrete b c) [
        | yes s ↦ let t : g ≡ h = entered c h e s in (i, here ∙ ap some (rw (s, t) refl))
        | no ne ↦
            let (j, old) = o.kept c h (not_entered c h e ne) in
            let other : j ≢ i = λ f. cc in (j, others j other ∙ old)
      ];
    }
      where
        entered : (c h : ℕ) → book' c ≡ some h → b ≡ c → g ≡ h
        entered c h e s = let f = sym (ap (λ x. x c) books) ∙ e in ground arith

        not_entered : (c h : ℕ) → book' c ≡ some h → b ≢ c → book c ≡ some h
        not_entered c h e s = let f = sym (ap (λ x. x c) books) ∙ e in ground arith

    gives-Owned :
        own i ≡ some (handle b g) → own' i ≡ none → book' ≡ enter book b none → Owned own' book'
    gives-Owned before gone books = record {
      live = λ j c h e.
          let (ne, old) = left j c h e in ap (λ x. x c) books ∙ ground (arith, o.live j c h old);
      apart = λ j k c h l e f. o.apart j k c h l (left j c h e).1 (left k c l f).1;
      kept = λ c h e.
          let (ne, out) = still c h e in
          let (j, old) = o.kept c h out in
          let other : j ≢ i = λ f. ne (same_fields (sym before ∙ ap own (sym f) ∙ old)).0 in
          (j, others j other ∙ old);
    }
      where
        left : (j c h : ℕ) → own' j ≡ some (handle c h) → (b ≢ c) × (own j ≡ some (handle c h))
        left j c h e = elim (which j e) [
          | inl f ↦ absurd (cc)
          | inr (ne, old) ↦
              (λ s. ne (o.apart j i c h g old (before ∙ ap (λ n. some (handle n g)) s)), old)
        ]

        still : (c h : ℕ) → book' c ≡ some h → (b ≢ c) × (book c ≡ some h)
        still c h e = let f = sym (ap (λ x. x c) books) ∙ e in ground arith

  pub Change-Owned : Change book (own i) (own' i) book' → Owned own' book'
  Change-Owned (keeps here books) = keeps-Owned here books
  Change-Owned (takes b g before here vacant books) = takes-Owned b g before here vacant books
  Change-Owned (gives b g before gone books) = gives-Owned b g before gone books

-- Owners that have the same.
pub same-Owned :
    {own own' : Owners} {book : Book}
    → Owned own book
    → ((j : ℕ) → own' j ≡ own j)
    → Owned own' book
same-Owned o same = keeps-Owned _ _ _ _ 0 o (λ j _. same j) (same 0) refl
