-- ===== src/Memory/Subpage/Release.antt =====
-- What `free` of a subpage promises (buffer/PoolSubpage.cpp).
use mutty.Common.{
  ℕ, ◌+◌, ◌*◌, ◌/◌, ◌%◌, ◌<◌, ◌≡◌, refl, sym, ap, ◌∙◌, subst, inl, inr, ◌≢◌, ◌⊎◌, Bool, true, false,
  not, some, List, [], ◌∷◌, arith, ltb, Bool-cases, length, length-set, get_or, set, ◌==◌,
  if◌then◌else◌, ==→eq, ne→==_false, eq_of_some,
}
use mutty.Memory.Subpage.{
  Subpage, bit_at, set_bit, free, release, add_to_pool, remove_from_pool, delete, is_only,
}
use mutty.Memory.Subpage.Bits.{
  bit_at-set_bit, bit_at-set_bit_other, set_bit-AreWords, free_count-take,
}
use mutty.Memory.Subpage.Allocation.{IsValid}

-- An element was given back, and nothing else changed; `in_use` is the result.
pub record Frees (s s' : Subpage) (i : ℕ) (in_use : Bool) : Type 0 where
  pub freed : bit_at s'.bitmap i ≡ false
  pub others : (l : ℕ) → l ≢ i → bit_at s'.bitmap l ≡ bit_at s.bitmap l
  pub counted : s'.num_avail ≡ s.num_avail + 1
  pub kept : in_use ≡ true → IsValid s' × (s'.do_not_destroy ≡ s.do_not_destroy)
  pub given_up :
      in_use ≡ false
      → (s'.num_avail ≡ s.max_num_elems) × (s'.do_not_destroy ≡ false) × (s'.pooled ≡ false)

-- The subpage with element `i` given back, in the list.
abbrev given_back : Subpage → ℕ → Subpage
given_back s i = record s {
  bitmap = set_bit s.bitmap i false;
  next_avail = some i;
  num_avail = s.num_avail + 1;
  pooled = true;
}

given_back-IsValid :
    (s : Subpage) (i : ℕ)
    → IsValid s
    → i < s.max_num_elems
    → bit_at s.bitmap i ≡ true
    → IsValid (given_back s i)
given_back-IsValid s i v inside used =
    let range : i < 64 * length s.bitmap = omega (arith, inside, v.covered, v.stored) in
    let word = set (get_or s.bitmap (i / 64) []) (i % 64) false in
    let freed = bit_at-set_bit s.bitmap i false v.words range in
    let others = λ (l : ℕ) (n : l ≢ i). bit_at-set_bit_other s.bitmap i l false v.words range n in
    let count =
      free_count-take (bit_at (set_bit s.bitmap i false)) (bit_at s.bitmap) s.max_num_elems i inside
        freed used (λ l n. sym (others l n)) in
    record {
      words = set_bit-AreWords s.bitmap i false v.words range;
      covered = v.covered;
      stored = omega (arith, v.stored, length-set s.bitmap (i / 64) word);
      counted = omega (arith, count, v.counted);
      hint = λ j e.
          subst (λ (n : ℕ). (n < s.max_num_elems) × (bit_at (set_bit s.bitmap i false) n ≡ false))
            (eq_of_some e) (inside, freed);
      listed = ap not (sym (ne→==_false (s.num_avail + 1) 0 (omega arith)));
    }

given_back-Frees :
    (s : Subpage) (i : ℕ)
    → IsValid s
    → i < s.max_num_elems
    → bit_at s.bitmap i ≡ true
    → Frees s (given_back s i) i true
given_back-Frees s i v inside used =
    let range : i < 64 * length s.bitmap = omega (arith, inside, v.covered, v.stored) in
    record {
      freed = bit_at-set_bit s.bitmap i false v.words range;
      others = λ l n. bit_at-set_bit_other s.bitmap i l false v.words range n;
      counted = refl;
      kept = λ e. (given_back-IsValid s i v inside used, refl);
      given_up = λ e. absurd cc;
    }

abbrev dropped : Subpage → Subpage
dropped s = record s { do_not_destroy = false; pooled = false }

dropped-Frees :
    (s : Subpage) (i : ℕ)
    → Frees s (given_back s i) i true
    → s.num_avail + 1 ≡ s.max_num_elems
    → Frees s (dropped (given_back s i)) i false
dropped-Frees s i f e = record {
  freed = f.freed;
  others = f.others;
  counted = refl;
  kept = λ h. absurd cc;
  given_up = λ h. (e, refl, refl);
}

-- A subpage of the list stays, or leaves it with all its elements free.
release-cases :
    (s : Subpage) (pool : List ℕ)
    → s.pooled ≡ true
    → (release s pool ≡ some (s, pool, true))
      ⊎ ((s.num_avail ≡ s.max_num_elems)
          × (release s pool ≡ some (dropped s, delete s.run_offset pool, false)))
unfolding release remove_from_pool
release-cases s pool p = elim (Bool-cases (s.num_avail == s.max_num_elems)) [
  | inl e ↦ elim (Bool-cases (is_only pool)) [
    | inl o ↦ inl (simp (e, o, p))
    | inr o ↦ inr (==→eq _ _ e, simp (e, o, p))
  ]
  | inr e ↦ inl (simp e)
]

release-Frees :
    (s : Subpage) (pool : List ℕ) (i : ℕ)
    → Frees s (given_back s i) i true
    → (s' : Subpage) × (pool' : List ℕ) × (in_use : Bool) × (release (given_back s i) pool
        ≡ some (s', pool', in_use))
      × Frees s s' i in_use
release-Frees s pool i f = elim (release-cases (given_back s i) pool refl) [
  | inl e ↦ (given_back s i, pool, true, e, f)
  | inr (n, e) ↦ (dropped (given_back s i), _, false, e, dropped-Frees s i f n)
]

free_listed :
    (s : Subpage) (pool : List ℕ) (i : ℕ)
    → (s.elem_size == 0) ≡ false
    → bit_at s.bitmap i ≡ true
    → (s.num_avail == 0) ≡ false
    → s.pooled ≡ true
    → free s pool i ≡ release (given_back s i) pool
unfolding free
free_listed s pool i e used n p =
    let listed : release (record (given_back s i) { pooled = s.pooled }) pool
        ≡ release (given_back s i) pool =
      ap (λ (b : Bool). release (record (given_back s i) { pooled = b }) pool) p in
    simp (e, used, n, listed)

free_unlisted :
    (s : Subpage) (pool : List ℕ) (i : ℕ)
    → (s.elem_size == 0) ≡ false
    → bit_at s.bitmap i ≡ true
    → (s.num_avail == 0) ≡ true
    → s.pooled ≡ false
    → free s pool i ≡ (
        if ltb 1 s.max_num_elems
        then some (given_back s i, s.run_offset ∷ pool, true)
        else release (given_back s i) (s.run_offset ∷ pool))
unfolding free add_to_pool
free_unlisted s pool i e used n p = simp (e, used, n, p)

-- `free` of a used element of a valid subpage, whose element size is not 0, fails no assertion:
-- exactly that element is free again, and no other changes. If the answer is that the subpage stays in use, it is valid still; if not, its
-- count of free elements is the number of its elements, and it has left the list, to be destroyed.
pub free-Frees :
    (s : Subpage) (pool : List ℕ) (i : ℕ)
    → IsValid s
    → s.elem_size ≢ 0
    → i < s.max_num_elems
    → bit_at s.bitmap i ≡ true
    → (s' : Subpage) × (pool' : List ℕ) × (in_use : Bool) × (free s pool i
        ≡ some (s', pool', in_use))
      × Frees s s' i in_use
free-Frees s pool i v size inside used =
    let e = ne→==_false s.elem_size 0 size in
    let f = given_back-Frees s i v inside used in
    elim (Bool-cases (s.num_avail == 0)) [
      | inl n ↦
          let start = free_unlisted s pool i e used n (v.listed ∙ ap not n) in
          elim (Bool-cases (ltb 1 s.max_num_elems)) [
            | inl m ↦ (given_back s i, s.run_offset ∷ pool, true, start ∙ (rw m refl), f)
            | inr m ↦
                let (s', pool', in_use, r, g) = release-Frees s (s.run_offset ∷ pool) i f in
                (s', pool', in_use, start ∙ (rw m r), g)
          ]
      | inr n ↦
          let start = free_listed s pool i e used n (v.listed ∙ ap not n) in
          let (s', pool', in_use, r, g) = release-Frees s pool i f in
          (s', pool', in_use, start ∙ r, g)
    ]
