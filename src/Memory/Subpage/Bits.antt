-- ===== src/Memory/Subpage/Bits.antt =====
-- Setting one bit of a subpage's bitmap, and counting the elements that are free.
use mutty.Common.{
  ℕ, zero, suc, ◌+◌, ◌*◌, ◌/◌, ◌%◌, ◌<◌, ◌≡◌, refl, ap, ◌∙◌, inl, inr, ◌≢◌, Bool, true, false, List,
  [], ◌∷◌, arith, Bool-cases, length, get_or, set, ◌==◌, if◌then◌else◌, ==→eq, eq→==, length-set,
}
use mutty.Memory.Subpage.{bit_at, set_bit}
use mutty.Memory.Subpage.Search.{AreWords}

get_or-set_same :
    {A : Type 0} (xs : List A) (i : ℕ) (v d : A) → i < length xs → get_or (set xs i v) i d ≡ v
get_or-set_same [] i v d h = absurd (omega arith)
get_or-set_same (x ∷ xs) zero v d h = refl
get_or-set_same (x ∷ xs) (suc i) v d h = get_or-set_same xs i v d (omega arith)

get_or-set_other :
    {A : Type 0} (xs : List A) (i j : ℕ) (v d : A) → j ≢ i → get_or (set xs i v) j d ≡ get_or xs j d
get_or-set_other [] i j v d h = refl
get_or-set_other (x ∷ xs) zero zero v d h = absurd (h refl)
get_or-set_other (x ∷ xs) zero (suc j) v d h = refl
get_or-set_other (x ∷ xs) (suc i) zero v d h = refl
get_or-set_other (x ∷ xs) (suc i) (suc j) v d h = get_or-set_other xs i j v d (λ e. h (ap suc e))

get_or-AreWords :
    (words : List (List Bool)) (q : ℕ)
    → AreWords words
    → q < length words
    → length (get_or words q []) ≡ 64
get_or-AreWords [] q w h = absurd (omega arith)
get_or-AreWords (bits ∷ words) zero w h = w.0
get_or-AreWords (bits ∷ words) (suc q) w h = get_or-AreWords words q w.1 (omega arith)

set-AreWords :
    (words : List (List Bool)) (q : ℕ) (bits : List Bool)
    → AreWords words
    → length bits ≡ 64
    → AreWords (set words q bits)
set-AreWords [] q bits w h = tt
set-AreWords (b ∷ words) zero bits w h = (h, w.1)
set-AreWords (b ∷ words) (suc q) bits w h = (w.0, set-AreWords words q bits w.1 h)

-- The bit set is read back, and no other changes.
pub bit_at-set_bit :
    (bitmap : List (List Bool)) (i : ℕ) (b : Bool)
    → AreWords bitmap
    → i < 64 * length bitmap
    → bit_at (set_bit bitmap i b) i ≡ b
bit_at-set_bit bitmap i b w h =
    let q : i / 64 < length bitmap = omega arith in
    rw (get_or-set_same bitmap (i / 64) (set (get_or bitmap (i / 64) []) (i % 64) b) [] q) (
      get_or-set_same (get_or bitmap (i / 64) []) (i % 64) b true
        (omega (arith, get_or-AreWords bitmap (i / 64) w q)))

pub bit_at-set_bit_other :
    (bitmap : List (List Bool)) (i l : ℕ) (b : Bool)
    → AreWords bitmap
    → i < 64 * length bitmap
    → l ≢ i
    → bit_at (set_bit bitmap i b) l ≡ bit_at bitmap l
bit_at-set_bit_other bitmap i l b w h n =
    let word = get_or bitmap (i / 64) [] in
    let q : i / 64 < length bitmap = omega arith in
    elim (Bool-cases (l / 64 == i / 64)) [
      | inl e ↦
          let same : l / 64 ≡ i / 64 = ==→eq _ _ e in
          let place : l % 64 ≢ i % 64 = λ p. n (omega (arith, same, p)) in
          rw (same, get_or-set_same bitmap (i / 64) (set word (i % 64) b) [] q)
            (get_or-set_other word (i % 64) (l % 64) b true place)
      | inr e ↦
          let other : l / 64 ≢ i / 64 = λ p. absurd (ground (arith, eq→== _ _ p)) in
          rw (get_or-set_other bitmap (i / 64) (l / 64) (set word (i % 64) b) [] other) refl
    ]

pub set_bit-AreWords :
    (bitmap : List (List Bool)) (i : ℕ) (b : Bool)
    → AreWords bitmap
    → i < 64 * length bitmap
    → AreWords (set_bit bitmap i b)
set_bit-AreWords bitmap i b w h =
    let word = get_or bitmap (i / 64) [] in
    set-AreWords bitmap (i / 64) (set word (i % 64) b) w
      (length-set word (i % 64) b ∙ get_or-AreWords bitmap (i / 64) w (omega arith))

-- How many of the first `n` places are free.
unfoldable pub free_count : (ℕ → Bool) → ℕ → ℕ
free_count used zero = 0
free_count used (suc n) = free_count used n + (if used n then 0 else 1)

pub free_count-same :
    (used used' : ℕ → Bool) (n : ℕ)
    → ((l : ℕ) → l < n → used' l ≡ used l)
    → free_count used' n ≡ free_count used n
unfolding free_count
free_count-same used used' zero h = refl
free_count-same used used' (suc n) h =
    let less = free_count-same used used' n (λ l k. h l (omega arith)) in
    rw (h n (omega arith), less) refl

-- Taking a free place leaves one less.
pub free_count-take :
    (used used' : ℕ → Bool) (n i : ℕ)
    → i < n
    → used i ≡ false
    → used' i ≡ true
    → ((l : ℕ) → l ≢ i → used' l ≡ used l)
    → free_count used n ≡ free_count used' n + 1
unfolding free_count
free_count-take used used' zero i h f t s = absurd (omega arith)
free_count-take used used' (suc n) i h f t s = elim (Bool-cases (n == i)) [
  | inl e ↦
      let here : n ≡ i = ==→eq n i e in
      let less = free_count-same used used' n (λ l k. s l (omega (arith, here, k))) in
      let free : used n ≡ false = ap used here ∙ f in
      let taken : used' n ≡ true = ap used' here ∙ t in rw (free, taken, less) (omega arith)
  | inr e ↦
      let there : n ≢ i = λ p. absurd (ground (arith, eq→== n i p)) in
      let less = free_count-take used used' n i (omega (arith, there)) f t s in
      rw (s n there, less) (omega arith)
]

-- With a free place left, one exists.
pub free_count-some :
    (used : ℕ → Bool) (n : ℕ) → 0 < free_count used n → (i : ℕ) × (i < n) × (used i ≡ false)
unfolding free_count
free_count-some used zero h = absurd (omega arith)
free_count-some used (suc n) h = elim (Bool-cases (used n)) [
  | inl e ↦
      let left : 0 < free_count used n = ground (arith, e) in
      let (i, k, f) = free_count-some used n left in (i, omega (arith, k), f)
  | inr e ↦ (n, omega arith, e)
]
