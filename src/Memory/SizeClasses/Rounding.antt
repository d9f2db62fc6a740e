-- ===== src/Memory/SizeClasses/Rounding.antt =====
-- The searches by bits find the smallest class that is large enough (SizeClasses.cpp).
use mutty.Common.{
  ℕ, zero, suc, ◌+◌, ◌-◌, ◌*◌, ◌/◌, ◌%◌, ◌^◌, ◌≤◌, ◌<◌, ◌≡◌, refl, ap, ◌∙◌, subst, inl, inr, arith,
  ltb, if◌then◌else◌, Bool-cases, ltb→lt, lt→ltb, le→ltb_false, ne→==_false,
}
use native.Mathlib.Nat.{zero-add, add-zero}
use mutty.Memory.Powers.{pow_pos, pow_sum, div-mul-div, pow_mono}
use mutty.Memory.MathUtil.{log2, log2_bounds}
use mutty.Memory.SizeClasses.{
  idx_to_size, size_idx_to_size_compute, doubled, size_to_size_idx_compute, page_size_to_page_idx,
  normalize_size_compute,
}

-- The class at place `j` of group `g + 1`, and at place `j` of the first group.
idx_to_size-group :
    (b g j : ℕ) → 0 < b → j < 4 → idx_to_size b (4 * (g + 1) + j) ≡ (j + 5) * 2 ^ (g + b)
unfolding idx_to_size
idx_to_size-group b g j p h =
    let m : (4 * (g + 1) + j) / 4 ≡ g + 1 = omega arith in
    let r : (4 * (g + 1) + j) % 4 ≡ j = omega arith in
    let s = pow_sum (b + 1) (g + 1) (g + b + 2) (omega arith) in
    let t = pow_sum (g + b) 2 (g + b + 2) (omega arith) in
    let above : b + 2 - 1 ≡ b + 1 = omega arith in
    let below : g + 1 + b - 1 ≡ g + b = omega arith in
    rw (m, r, ne→==_false (g + 1) 0 (omega arith), above, below) (omega (arith, s, t))

idx_to_size-first : (b j : ℕ) → j < 4 → idx_to_size b j ≡ (j + 1) * 2 ^ b
unfolding idx_to_size
idx_to_size-first b j h =
    let m : j / 4 ≡ 0 = omega arith in
    let r : j % 4 ≡ j = omega arith in
    let e : 1 + b - 1 ≡ b = omega arith in rw (m, r, e) (omega arith)

-- The exponent that the searches compute: `size` lies in the upper half of `2 ^ x`.
ceil_log2 :
    (size : ℕ)
    → 0 < size
    → size ≤ 2 ^ 30
    → let x = log2 (doubled size) in (size ≤ 2 ^ x) × (2 ^ x < 2 * size)
ceil_log2 size p h =
    let e : doubled size ≡ 2 * size - 1 = omega arith in
    let l = log2_bounds (2 * size - 1) (omega arith) (omega arith) in
    let d = pow_sum (log2 (2 * size - 1)) 1 (log2 (2 * size - 1) + 1) refl in
    rw e (omega (arith, l, d), omega (arith, l))

-- The exponent of the spacing at `size`, and the index that the searches compute.
abbrev log2_spacing : ℕ → ℕ → ℕ
log2_spacing b x = if ltb x (2 + b + 1) then b else x - 2 - 1

abbrev search : ℕ → ℕ → ℕ → ℕ
search b size x =
    (if ltb x (2 + b + 1) then 0 else x - (2 + b)) * 4
    + (size - 1) / 2 ^ log2_spacing b x * 2 ^ log2_spacing b x / 2 ^ log2_spacing b x % 4

-- The class found is `size`, rounded up to the spacing, and the one before it `size - 1`, rounded down.
record Found (b size idx spacing : ℕ) : Type 0 where
  spaced : 0 < spacing
  exact : idx_to_size b idx ≡ ((size - 1) / spacing + 1) * spacing
  previous : 0 < idx → idx_to_size b (idx - 1) ≡ (size - 1) / spacing * spacing

quotient_bounds : (n d lo hi : ℕ) → 0 < d → lo * d ≤ n → n < hi * d → (lo ≤ n / d) × (n / d < hi)
quotient_bounds n d lo hi p h k = grind arith

Found-first :
    (b size x : ℕ)
    → 0 < size
    → size ≤ 2 ^ x
    → x < 2 + b + 1
    → Found b size (search b size x) (2 ^ b)
Found-first b size x p h c =
    let top = pow_sum b 2 (b + 2) refl in
    let q = (size - 1) / 2 ^ b in
    let small : q < 4 =
      (quotient_bounds (size - 1) (2 ^ b) 0 4 (pow_pos b) (omega arith)
        (omega (arith, top, pow_mono x (b + 2) (omega arith)))).1 in
    let e : search b size x ≡ q =
      rw (lt→ltb _ _ c, div-mul-div (size - 1) (2 ^ b) (pow_pos b)) (omega arith) in
    rw e (record {
      spaced = pow_pos b;
      exact = idx_to_size-first b q small;
      previous =
          λ r. idx_to_size-first b (q - 1) (omega arith) ∙ ap (λ (t : ℕ). t * 2 ^ b) (omega arith);
    })

idx_to_size-before :
    (b g q : ℕ)
    → 0 < b
    → 4 ≤ q
    → q < 8
    → idx_to_size b (4 * (g + 1) + (q - 4) - 1) ≡ q * 2 ^ (g + b)
idx_to_size-before b g q p h k = elim (Bool-cases (ltb 4 q)) [
  | inl l ↦
      let i : 4 * (g + 1) + (q - 4) - 1 ≡ 4 * (g + 1) + (q - 5) = ground arith in
      let e : q - 5 + 5 ≡ q = ground arith in
      rw (i, idx_to_size-group b g (q - 5) p (omega arith), e)
  | inr l ↦ let e : q ≡ 4 = ground arith in rw e (first_place g)
]
  where
    first_place : (g : ℕ) → idx_to_size b (4 * (g + 1) + (4 - 4) - 1) ≡ 4 * 2 ^ (g + b)
    first_place zero = rw zero-add (idx_to_size-first b 3 (omega arith))
    first_place (suc g) =
        let i : 4 * (suc g + 1) + (4 - 4) - 1 ≡ 4 * (g + 1) + 3 = omega arith in
        let d = pow_sum (g + b) 1 (suc g + b) (omega arith) in
        rw (i, idx_to_size-group b g 3 p (omega arith)) (omega (arith, d))

Found-group :
    (b size x g : ℕ)
    → 0 < b
    → size ≤ 2 ^ x
    → 2 ^ x < 2 * size
    → x ≡ g + b + 3
    → Found b size (search b size x) (2 ^ (g + b))
Found-group b size x g p h k c =
    let top = pow_sum (g + b) 3 x (omega arith) in
    let d = 2 ^ (g + b) in
    let q = (size - 1) / d in
    let range =
      quotient_bounds (size - 1) d 4 8 (pow_pos (g + b)) (omega (arith, top))
        (omega (arith, top)) in
    let spacing : x - 2 - 1 ≡ g + b = omega arith in
    let e : search b size x ≡ 4 * (g + 1) + (q - 4) =
      rw
        (
          le→ltb_false x (2 + b + 1) (omega arith),
          spacing,
          div-mul-div (size - 1) d (pow_pos (g + b)),
        )
        (omega (arith, range)) in
    rw e (record {
      spaced = pow_pos (g + b);
      exact =
          idx_to_size-group b g (q - 4) p (omega (arith, range))
          ∙ ap (λ (t : ℕ). t * d) (omega (arith, range));
      previous = λ r. idx_to_size-before b g q p range.0 range.1;
    })

search-Found :
    (b size : ℕ)
    → 0 < b
    → 0 < size
    → size ≤ 2 ^ 30
    → let x = log2 (doubled size) in Found b size (search b size x) (2 ^ log2_spacing b x)
search-Found b size p s h =
    let x = log2 (doubled size) in
    let (up, low) = ceil_log2 size s h in
    elim (Bool-cases (ltb x (2 + b + 1))) [
      | inl c ↦ rw c (rw c at (Found-first b size x s up (ltb→lt _ _ c)))
      | inr c ↦
          let l : b + 3 ≤ x = ground arith in
          let e : x - (b + 3) + b ≡ log2_spacing b x = rw c (omega arith) in
          subst (λ d. Found b size (search b size x) (2 ^ d)) e
            (Found-group b size x (x - (b + 3)) p up low (omega arith))
    ]

round_up : (n d : ℕ) → 0 < n → 0 < d → ((n - 1) / d + 1) * d ≡ (n + d - 1) / d * d
round_up n d h p = grind arith

-- The classes grow with the index.
idx_to_size_step : (b i : ℕ) → 0 < b → idx_to_size b i < idx_to_size b (i + 1)
idx_to_size_step b i p = elim (Bool-cases (ltb i 3)) [
  | inl c ↦
      rw (idx_to_size-first b i (ground arith), idx_to_size-first b (i + 1) (ground arith))
        (grind (arith, pow_pos b))
  | inr c ↦
      let g = (i - 3) / 4 in
      let j = (i - 3) % 4 in
      let now : i + 1 ≡ 4 * (g + 1) + j = ground arith in
      let before : i ≡ 4 * (g + 1) + (j + 4 - 4) - 1 = ground arith in
      let size = idx_to_size-group b g j p (omega arith) in
      let size' = idx_to_size-before b g (j + 4) p (omega arith) (omega arith) in
      omega (arith, pow_pos (g + b), size, size', ap (idx_to_size b) now, ap (idx_to_size b) before)
]

pub idx_to_size_mono : (b i d : ℕ) → 0 < b → idx_to_size b i ≤ idx_to_size b (i + d)
idx_to_size_mono b i zero p = rw add-zero (omega arith)
idx_to_size_mono b i (suc d) p =
    let e : i + suc d ≡ i + d + 1 = omega arith in
    rw e (omega (arith, idx_to_size_mono b i d p, idx_to_size_step b (i + d) p))

-- What a search promises: the class is large enough, and no class before it is.
pub record IsSmallestFit (b size idx : ℕ) : Type 0 where
  pub fits : size ≤ idx_to_size b idx
  pub least : (k : ℕ) → k < idx → idx_to_size b k < size

-- By monotonicity it is enough to look at the class before.
pub IsSmallestFit-of_previous :
    (b size idx : ℕ)
    → 0 < b
    → size ≤ idx_to_size b idx
    → (0 < idx → idx_to_size b (idx - 1) < size)
    → IsSmallestFit b size idx
IsSmallestFit-of_previous b size idx p f t = record {
  fits = f;
  least = λ k h.
      let e : k + (idx - 1 - k) ≡ idx - 1 = omega arith in
      let m =
        subst (λ (i : ℕ). idx_to_size b k ≤ idx_to_size b i) e
          (idx_to_size_mono b k (idx - 1 - k) p) in
      omega (arith, m, t (omega arith));
}

Found-IsSmallestFit :
    (b size idx d : ℕ) → 0 < b → 0 < size → Found b size idx d → IsSmallestFit b size idx
Found-IsSmallestFit b size idx d p s f =
    IsSmallestFit-of_previous b size idx p (grind (arith, f.exact, f.spaced))
      (λ h. grind (arith, f.previous h, f.spaced))

-- For sizes up to 2 ^ 30 the search of `size2SizeIdx` finds the first class, in index order,
-- that holds the size: it fits, and no class before it does.
pub size_to_size_idx_compute-IsSmallestFit :
    (size : ℕ) → 0 < size → size ≤ 2 ^ 30 → IsSmallestFit 4 size (size_to_size_idx_compute size)
unfolding size_to_size_idx_compute
size_to_size_idx_compute-IsSmallestFit size s h =
    Found-IsSmallestFit 4 size _ _ (omega arith) s (search-Found 4 size (omega arith) s h)

-- For sizes up to 2 ^ 30 the two ways to normalize agree: the size of the class that the search
-- finds is the size that `normalizeSizeCompute` rounds up to.
pub normalize_size_compute-search :
    (size : ℕ)
    → 0 < size
    → size ≤ 2 ^ 30
    → size_idx_to_size_compute (size_to_size_idx_compute size) ≡ normalize_size_compute size
unfolding size_to_size_idx_compute normalize_size_compute size_idx_to_size_compute
normalize_size_compute-search size s h =
    let f = search-Found 4 size (omega arith) s h in
    f.exact ∙ round_up size (2 ^ log2_spacing 4 (log2 (doubled size))) s f.spaced

same_shift :
    (b x : ℕ)
    → (if ltb x (2 + b + 1) then 0 else x - (2 + b)) ≡ (if ltb x (2 + b) then 0 else x - (2 + b))
same_shift b x = ground arith

-- For a power of two as page size, of 2 ^ 1 and more, and byte counts up to 2 ^ 30, the search of
-- `pages2pageIdxCompute` finds the first run class that holds them.
pub page_size_to_page_idx-IsSmallestFit :
    (page_shifts size : ℕ)
    → 0 < page_shifts
    → 0 < size
    → size ≤ 2 ^ 30
    → IsSmallestFit page_shifts size (page_size_to_page_idx page_shifts size)
unfolding page_size_to_page_idx
page_size_to_page_idx-IsSmallestFit page_shifts size p s h =
    Found-IsSmallestFit page_shifts size _ _ p s (
      subst (λ k. Found page_shifts size k (2 ^ log2_spacing page_shifts x))
        (ap (λ (t : ℕ). t * 4 + place) (same_shift page_shifts x))
        (search-Found page_shifts size p s h))
  where
    x : ℕ
    x = log2 (doubled size)

    place : ℕ
    place =
        (size - 1)
        / 2 ^ log2_spacing page_shifts x
        * 2 ^ log2_spacing page_shifts x
        / 2 ^ log2_spacing page_shifts x
        % 4
