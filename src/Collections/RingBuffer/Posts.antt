-- ===== src/Collections/RingBuffer/Posts.antt =====
-- A well-formed ring buffer stays one, without undefined behaviour, whatever is pushed and popped.
use hoarder.Base.{
  ◌∙◌, ℕ, List, [], ◌∷◌, Build, length, subst, sym, ltb, Bool-cases, inl, inr, ◌<◌, ◌≡◌, arith,
  done,
}
use hoarder.Base.Post.{Safe}
use hoarder.Error.{push_error, err}
use hoarder.Collections.RingBuffer.Defs.{RingBuffer, push, push_unwrap, pop}
use hoarder.Collections.RingBuffer.Refine.{
  Models, Models-len, push_full, push_lem, push_unwrap_lem, pop_lem, pop_empty,
}

-- A well-formed buffer of a size.
pub record IsQueue {A : Type 0} (n : ℕ) (b : RingBuffer A) : Type 0 where
  pub entries : List A
  pub models : Models b entries
  pub sized : b.size ≡ n

module _ {A : Type 0} (n : ℕ) (build : Build) (b : RingBuffer A) where
  refused :
      (x : A) → push build b x ≡ done (b, err push_error) → Safe (IsQueue n) (push_unwrap build b x)
  unfolding push_unwrap
  refused x e = rw e tt

  pub push_unwrap-IsQueue : (x : A) → IsQueue n b → Safe (IsQueue n) (push_unwrap build b x)
  push_unwrap-IsQueue x w = elim (Bool-cases (ltb (length w.entries) b.size)) [
    | inl room ↦
        let h : length w.entries < b.size = ground arith in
        subst (Safe (IsQueue n)) (sym (push_unwrap_lem build b x w.entries w.models h)) (record {
          entries = _;
          models = (push_lem build b x w.entries w.models h).1;
          sized = (push_lem build b x w.entries w.models h).2 ∙ w.sized;
        })
    | inr full ↦ refused x (
        push_full build b x w.entries w.models
          (ground (arith, Models-len b w.entries w.models, w.models.fits)))
  ]

  pub pop-IsQueue : IsQueue n b → Safe (λ r. IsQueue n r.0) (pop build b)
  pop-IsQueue w = go w.entries w.models w.sized
    where
      go : (q : List A) → Models b q → b.size ≡ n → Safe (λ r. IsQueue n r.0) (pop build b)
      go [] m sized = rw (pop_empty build b m) (record { entries = []; models = m; sized = sized })
      go (x ∷ q) m sized =
          let (e, m', same) = pop_lem build b x q m in
          rw e (record { entries = q; models = m'; sized = same ∙ sized })
