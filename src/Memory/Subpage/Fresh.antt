-- ===== src/Memory/Subpage/Fresh.antt =====
-- A new subpage (buffer/PoolSubpage.cpp).
use mutty.Common.{
  ℕ, zero, suc, ◌+◌, ◌-◌, ◌*◌, ◌/◌, ◌%◌, ◌^◌, ◌≤◌, ◌<◌, ◌≡◌, refl, sym, ap, ◌∙◌, subst, inl, inr,
  Bool, true, false, not, some, List, ◌∷◌, arith, ltb, Bool-cases, ltb→lt, ltb_false→le,
  length-replicate, get_or, replicate, ◌==◌, if◌then◌else◌, ne→==_false, eq_of_some,
}
use native.Mathlib.Nat.{div-mul-le_self, le-div_iff_mul-le, mul-div_cancel}
use mutty.Memory.Powers.{pow_pos}
use mutty.Memory.Handle.{to_subpage_handle}
use mutty.Memory.Subpage.{Subpage, bit_at, zero_word, new_subpage, add_to_pool, to_handle}
use mutty.Memory.Subpage.Search.{AreWords, bit_at-low, bit_at-high}
use mutty.Memory.Subpage.Bits.{free_count}
use mutty.Memory.Subpage.Allocation.{IsValid}

zero_words-AreWords : (n : ℕ) → AreWords (replicate n zero_word)
zero_words-AreWords zero = tt
zero_words-AreWords (suc n) = (refl, zero_words-AreWords n)

bit-replicate : (n l : ℕ) → l < n → get_or (replicate n false) l true ≡ false
bit-replicate zero l h = absurd (omega arith)
bit-replicate (suc n) zero h = refl
bit-replicate (suc n) (suc l) h = bit-replicate n l (omega arith)

bit_at-zero_words : (n l : ℕ) → l < 64 * n → bit_at (replicate n zero_word) l ≡ false
bit_at-zero_words zero l h = absurd (omega arith)
bit_at-zero_words (suc n) l h = elim (Bool-cases (ltb l 64)) [
  | inl e ↦
      let low = ltb→lt l 64 e in
      bit_at-low zero_word (replicate n zero_word) l low ∙ bit-replicate 64 l low
  | inr e ↦
      let high = ltb_false→le l 64 e in
      let place : 64 + (l - 64) ≡ l = omega (arith, high) in
      subst (λ (k : ℕ). bit_at (zero_word ∷ replicate n zero_word) k ≡ false) place
        (bit_at-high zero_word (replicate n zero_word) (l - 64)
          ∙ bit_at-zero_words n (l - 64) (omega (arith, high)))
]

free_count-all :
    (used : ℕ → Bool) (n : ℕ) → ((l : ℕ) → l < n → used l ≡ false) → free_count used n ≡ n
unfolding free_count
free_count-all used zero h = refl
free_count-all used (suc n) h =
    let less = free_count-all used n (λ l k. h l (omega arith)) in
    rw (h n (omega arith), less) (omega arith)

abbrev fresh : ℕ → ℕ → ℕ → ℕ → Subpage
fresh page_shifts run_offset run_size elem_size = record {
  page_shifts = page_shifts;
  run_offset = run_offset;
  run_size = run_size;
  elem_size = elem_size;
  max_num_elems = run_size / elem_size;
  bitmap_length =
      run_size / elem_size / 2 ^ 6 + (if run_size / elem_size % 2 ^ 6 == 0 then 0 else 1);
  bitmap = replicate (run_size / 2 ^ (6 + 4)) zero_word;
  next_avail = some 0;
  num_avail = run_size / elem_size;
  do_not_destroy = true;
  pooled = true;
}

-- The words that a count of elements needs, against those of a run of whole kilobytes.
words_cover :
    (m : ℕ) → let n = m / 64 + (if m % 64 == 0 then 0 else 1) in (m ≤ 64 * n) × (64 * n < m + 64)
words_cover m = (ground arith, ground arith)

elements_bound : (run_size elem_size : ℕ) → 16 ≤ elem_size → run_size / elem_size * 16 ≤ run_size
elements_bound run_size elem_size h =
    let m = run_size / elem_size in
    let whole = div-mul-le_self run_size elem_size in
    let less : m * 16 ≤ m * elem_size = grind (arith, h) in omega (arith, whole, less)

-- The constructor, for elements of 16 bytes and more that fit in a run of whole kilobytes, fails no
-- assertion: the subpage is valid, all its elements are free, and it heads the arena's list.
pub new_subpage-IsValid :
    (page_shifts run_offset run_size elem_size : ℕ) (pool : List ℕ)
    → 16 ≤ elem_size
    → elem_size ≤ run_size
    → run_size % 1024 ≡ 0
    → (s : Subpage) × (new_subpage page_shifts run_offset run_size elem_size pool
        ≡ some (s, run_offset ∷ pool))
      × IsValid s
      × (s.num_avail ≡ s.max_num_elems)
      × (s.max_num_elems ≡ run_size / elem_size)
      × (s.do_not_destroy ≡ true)
      × (s.run_offset ≡ run_offset)
      × (s.run_size ≡ run_size)
      × (s.page_shifts ≡ page_shifts)
unfolding new_subpage add_to_pool
new_subpage-IsValid page_shifts run_offset run_size elem_size pool h fits whole =
    let m = run_size / elem_size in
    let bound = elements_bound run_size elem_size h in
    let (covers, tight) = words_cover m in
    let some_element : 1 ≤ m =
      (le-div_iff_mul-le {k = elem_size} {x = 1} {y = run_size} (omega arith)).1
        (omega (arith, fits)) in
    let stored = length-replicate (run_size / 1024) zero_word in
    let clear = λ (l : ℕ) (k : l < m).
      bit_at-zero_words (run_size / 1024) l (omega (arith, k, bound, whole)) in
    (
      fresh page_shifts run_offset run_size elem_size,
      refl,
      record {
        words = zero_words-AreWords (run_size / 1024);
        covered = covers;
        stored = omega (arith, stored, tight, bound, whole);
        counted = sym (free_count-all (bit_at (replicate (run_size / 1024) zero_word)) m clear);
        hint = λ i e.
            subst (λ (n : ℕ). (n < m) × (bit_at (replicate (run_size / 1024) zero_word) n ≡ false))
              (eq_of_some e) (some_element, clear 0 some_element);
        listed = ap not (sym (ne→==_false m 0 (omega (arith, some_element))));
      },
      refl,
      refl,
      refl,
      refl,
      refl,
      refl,
    )

-- The handle of an element of a subpage on a run of `pages` pages.
pub to_handle-pages :
    (s : Subpage) (run_offset pages page_shifts i : ℕ)
    → s.run_offset ≡ run_offset
    → s.run_size ≡ pages * 2 ^ page_shifts
    → s.page_shifts ≡ page_shifts
    → to_handle s i ≡ to_subpage_handle run_offset pages i
unfolding to_handle
to_handle-pages s run_offset pages page_shifts i o z p =
    let whole : s.run_size / 2 ^ s.page_shifts ≡ pages =
      rw (z, p) (mul-div_cancel pages {n = 2 ^ page_shifts} (pow_pos page_shifts)) in
    rw (o, whole) refl
