-- ===== src/Memory/LongPriorityQueue/Occurrences.antt =====
-- Which handles a heap holds, and how often (buffer/LongPriorityQueue.h).
use mutty.Common.{
  ℕ, zero, suc, ◌+◌, ◌*◌, ◌/◌, ◌≤◌, ◌<◌, ◌≡◌, refl, sym, ap, ◌∙◌, subst, ◌≢◌, inl, inr, Bool, false,
  ◌&&◌, none, some, List, arith, ltb, leb, ◌==◌, if◌then◌else◌, Bool-cases, eq_of_some, ==→eq,
  eq→==, ne→==_false, length, set, length-set, get_or-set,
}
use mutty.Memory.LongPriorityQueue.{at, subord, swap, lift, smaller_child, sink, find_value}
use mutty.Memory.LongPriorityQueue.Order.{length-swap}

abbrev pub one_if : Bool → ℕ
one_if b = if b then 1 else 0

-- How often places 1 to `n` hold `v`.
pub occurrences : List ℕ → ℕ → ℕ → ℕ
occurrences array zero v = 0
occurrences array (suc n) v = occurrences array n v + one_if (at array (suc n) == v)

pub occurrences-same :
    (a b : List ℕ) (n v : ℕ)
    → ((j : ℕ) → 1 ≤ j → j ≤ n → at a j ≡ at b j)
    → occurrences a n v ≡ occurrences b n v
unfolding occurrences
occurrences-same a b zero v h = refl
occurrences-same a b (suc n) v h =
    let less = occurrences-same a b n v (λ j p q. h j p (omega arith)) in
    rw (less, h (suc n) (omega arith) (omega arith)) refl

-- A write outside of the places counted.
pub occurrences-set_outside :
    (array : List ℕ) (n i x v : ℕ)
    → i < length array
    → n < i
    → occurrences (set array i x) n v ≡ occurrences array n v
occurrences-set_outside array n i x v l h =
    occurrences-same (set array i x) array n v
      (λ j p q. get_or-set array i j x 0 l ∙ (rw (ne→==_false i j (omega arith)) refl))

-- A write replaces one handle by another.
pub occurrences-set :
    (array : List ℕ) (n i x v : ℕ)
    → i < length array
    → 1 ≤ i
    → i ≤ n
    → occurrences (set array i x) n v + one_if (at array i == v)
      ≡ occurrences array n v + one_if (x == v)
unfolding occurrences
occurrences-set array zero i x v l p q = absurd (omega arith)
occurrences-set array (suc n) i x v l p q = elim (Bool-cases (i == suc n)) [
  | inl e ↦
      let here : i ≡ suc n = ==→eq i (suc n) e in
      let below = occurrences-set_outside array n i x v l (omega (arith, here)) in
      let written = get_or-set array i (suc n) x 0 l in
      let place : at array i ≡ at array (suc n) = ap (at array) here in
      rw (below, written, e, place) (omega arith)
  | inr e ↦
      let there : i ≢ suc n = λ h. absurd (ground (arith, eq→== i (suc n) h)) in
      let less = occurrences-set array n i x v l p (omega (arith, there)) in
      let written = get_or-set array i (suc n) x 0 l in rw (written, e) (omega (arith, less))
]

pub occurrences-swap :
    (array : List ℕ) (n a b v : ℕ)
    → n < length array
    → 1 ≤ a
    → a ≤ n
    → 1 ≤ b
    → b ≤ n
    → occurrences (swap array a b) n v ≡ occurrences array n v
occurrences-swap array n a b v l pa qa pb qb =
    let first = occurrences-set array n a (at array b) v (omega arith) pa qa in
    let second =
      occurrences-set (set array a (at array b)) n b (at array a) v
        (omega (arith, length-set array a (at array b))) pb qb in
    let middle = get_or-set array a b (at array b) 0 (omega arith) in
    let same : at (set array a (at array b)) b ≡ at array b = ground (arith, middle) in
    let shown = ap (λ (t : ℕ). one_if (t == v)) same in omega (arith, first, second, shown)

pub length-lift : (fuel : ℕ) (array : List ℕ) (i : ℕ) → length (lift fuel array i) ≡ length array
unfolding lift
length-lift zero array i = refl
length-lift (suc fuel) array i =
    ground (arith, length-lift fuel (swap array i (i / 2)) (i / 2), length-swap array i (i / 2))

pub length-sink :
    (fuel : ℕ) (array : List ℕ) (size i : ℕ) → length (sink fuel array size i) ≡ length array
unfolding sink
length-sink zero array size i = refl
length-sink (suc fuel) array size i =
    let child = smaller_child array size i in
    elim (Bool-cases (leb (i * 2) size && subord array i child)) [
      | inl e ↦ rw e (length-sink fuel (swap array i child) size child ∙ length-swap array i child)
      | inr e ↦ rw e refl
    ]

pub occurrences-lift :
    (fuel : ℕ) (array : List ℕ) (n i v : ℕ)
    → n < length array
    → i ≤ n
    → occurrences (lift fuel array i) n v ≡ occurrences array n v
unfolding lift
occurrences-lift zero array n i v l h = refl
occurrences-lift (suc fuel) array n i v l h =
    elim (Bool-cases (ltb 1 i && subord array (i / 2) i)) [
      | inl e ↦
          let big : 1 < i = ground (arith, e) in
          rw e (
            occurrences-lift fuel (swap array i (i / 2)) n (i / 2) v
              (omega (arith, length-swap array i (i / 2))) (omega arith)
            ∙ occurrences-swap array n i (i / 2) v l (omega arith) h (omega arith) (omega arith))
      | inr e ↦ rw e refl
    ]

pub occurrences-sink :
    (fuel : ℕ) (array : List ℕ) (size i v : ℕ)
    → size < length array
    → 1 ≤ i
    → occurrences (sink fuel array size i) size v ≡ occurrences array size v
unfolding sink
occurrences-sink zero array size i v l h = refl
occurrences-sink (suc fuel) array size i v l h =
    let child = smaller_child array size i in
    elim (Bool-cases (leb (i * 2) size && subord array i child)) [
      | inl e ↦
          let inside : child ≤ size = ground (arith, e) in
          let below : 1 ≤ child = ground (arith, e) in
          let room : i * 2 ≤ size = ground (arith, e) in
          rw e (
            occurrences-sink fuel (swap array i child) size child v
              (omega (arith, length-swap array i child)) below
            ∙ occurrences-swap array size i child v l h (omega (arith, room)) below inside)
      | inr e ↦ rw e refl
    ]

-- The loop of `remove` finds a place of the value, or there is none.
pub find_value-some :
    (left : ℕ) (array : List ℕ) (i value k : ℕ)
    → find_value left array i value ≡ some k
    → (i ≤ k) × (k < i + left) × (at array k ≡ value)
unfolding find_value
find_value-some zero array i value k h = cc
find_value-some (suc left) array i value k h = elim (Bool-cases (at array i == value)) [
  | inl e ↦
      let here : i ≡ k = eq_of_some (rw e at h) in
      (omega (arith, here), omega (arith, here), ap (at array) (sym here) ∙ ==→eq _ _ e)
  | inr e ↦
      let (low, high, found) = find_value-some left array (i + 1) value k (rw e at h) in
      (omega (arith, low), omega (arith, high), found)
]

pub find_value-none :
    (left : ℕ) (array : List ℕ) (i value j : ℕ)
    → find_value left array i value ≡ none
    → i ≤ j
    → j < i + left
    → (at array j == value) ≡ false
unfolding find_value
find_value-none zero array i value j h p q = absurd (omega arith)
find_value-none (suc left) array i value j h p q = elim (Bool-cases (at array i == value)) [
  | inl e ↦ let wrong : some i ≡ none = rw e at h in cc
  | inr e ↦ elim (Bool-cases (i == j)) [
    | inl s ↦ subst (λ (k : ℕ). (at array k == value) ≡ false) (==→eq i j s) e
    | inr s ↦
        let other : i ≢ j = λ t. absurd (ground (arith, eq→== i j t)) in
        find_value-none left array (i + 1) value j (rw e at h) (omega (arith, other)) (omega arith)
  ]
]

pub occurrences_none :
    (array : List ℕ) (n v : ℕ)
    → ((j : ℕ) → 1 ≤ j → j ≤ n → (at array j == v) ≡ false)
    → occurrences array n v ≡ 0
unfolding occurrences
occurrences_none array zero v h = refl
occurrences_none array (suc n) v h =
    let less = occurrences_none array n v (λ j p q. h j p (omega arith)) in
    rw (less, h (suc n) (omega arith) (omega arith)) refl

pub occurrences-last :
    (array : List ℕ) (n m v : ℕ)
    → n ≡ m + 1
    → occurrences array n v ≡ occurrences array m v + one_if (at array n == v)
unfolding occurrences
occurrences-last array n m v h = let next : n ≡ suc m = omega (arith, h) in rw next refl

pub occurrences_some :
    (array : List ℕ) (n v : ℕ)
    → 0 < occurrences array n v
    → (j : ℕ) × (1 ≤ j) × (j ≤ n) × (at array j ≡ v)
unfolding occurrences
occurrences_some array zero v h = absurd (omega arith)
occurrences_some array (suc n) v h = elim (Bool-cases (at array (suc n) == v)) [
  | inl e ↦ (suc n, omega arith, omega arith, ==→eq _ _ e)
  | inr e ↦
      let (j, low, high, found) = occurrences_some array n v (ground (arith, e)) in
      (j, low, omega (arith, high), found)
]
