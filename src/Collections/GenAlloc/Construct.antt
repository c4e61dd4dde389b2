-- ===== src/Collections/GenAlloc/Construct.antt =====
-- `GenAlloc::new`: every index below the masked capacity is free, and none is handed out.
use hoarder.Base.{
  ℕ, zero, suc, ◌≡◌, refl, sym, ap, ◌∙◌, Option, none, arith, length, count, count-cons, count-nil,
  done, Build, ltb, if◌then◌else◌, replicate, length-replicate, get_or, get_or-replicate,
  >>=-eq-done, subst, done-injective,
}
use hoarder.Collections.Array
use hoarder.Collections.Array.{Array}
use hoarder.Collections.Array.Laws.{new_inversion}
use hoarder.Collections.RingBuffer.Defs.{RingBuffer, from_fixed_iter}
use hoarder.Collections.RingBuffer.Refine.{Models}
use hoarder.Collections.RingBuffer.Construct.{from_fixed_iter_inversion}
use hoarder.Collections.GenAlloc.Defs.{GenAlloc, u32_repr, countdown, masked, new}
use hoarder.Collections.GenAlloc.Invariant.{Book, Owns, size}

abbrev pub empty_book : Book
empty_book i = none

pub length-countdown : (n : ℕ) → length (countdown n) ≡ n
length-countdown zero = refl
length-countdown (suc n) = ap suc (length-countdown n)

count-countdown : (i n : ℕ) → count i (countdown n) ≡ (if ltb i n then 1 else 0)
count-countdown i zero = ground (arith, count-nil i)
count-countdown i (suc n) = ground (arith, count-cons i n (countdown n), count-countdown i n)

fresh-Owns :
    (table : Array ℕ) (queue : RingBuffer ℕ) (n : ℕ)
    → table.size ≡ n
    → table.cells ≡ replicate n 0
    → Models queue (countdown n)
    → queue.size ≡ n
    → Owns (record { generation = table; free_list = queue }) (countdown n) empty_book
fresh-Owns table queue n sz cells m s = record {
  table = ap length cells ∙ length-replicate n 0 ∙ sym sz;
  queue = m;
  same = s ∙ sym sz;
  partition = λ i. ground (arith, count-countdown i n);
  current = λ i gen e. cc;
  words = λ i. omega (arith, ap (λ c. get_or c i 0) cells, get_or-replicate {A = ℕ} n i 0);
}

-- Where `new` returns, the size is the masked capacity, every index below it is free once, counting
-- down, and nothing is handed out.
pub new-Owns :
    (build : Build) (raw_generation raw_free : Option ℕ) (capacity mask : ℕ) {g : GenAlloc}
    → new build raw_generation raw_free capacity mask ≡ done g
    → Owns g (countdown (masked capacity mask)) empty_book × (size g ≡ masked capacity mask)
unfolding new
new-Owns build raw_generation raw_free capacity mask {g} e =
    let n = masked capacity mask in
    let (table, et, e') = >>=-eq-done (Array.new u32_repr raw_generation 0 n) _ e in
    let (queue, eq, e'') =
      >>=-eq-done (from_fixed_iter build u32_repr raw_free n (countdown n)) _ e' in
    let (pos, small, fit, sz, cells) = new_inversion u32_repr raw_generation n 0 et in
    let (m, s) =
      from_fixed_iter_inversion build u32_repr raw_free n (countdown n) (length-countdown n) small
        (record { element = omega arith; nonempty = pos; fits = fit }) eq in
    subst (λ x. Owns x (countdown n) empty_book × (size x ≡ n)) (done-injective e'')
      (fresh-Owns table queue n sz cells m s, sz)
