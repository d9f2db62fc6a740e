-- ===== src/Memory/Subpage/Search.antt =====
-- The search of a subpage's bitmap for a free element (buffer/PoolSubpage.cpp).
use mutty.Common.{
  ℕ, zero, suc, ◌+◌, ◌-◌, ◌*◌, ◌/◌, ◌%◌, ◌≤◌, ◌<◌, ◌≡◌, refl, ap, ◌∙◌, subst, inl, inr, Bool, true,
  false, Option, none, some, List, [], ◌∷◌, arith, ltb, Bool-cases, ltb→lt, ltb_false→le, length,
  get_or,
}
use mutty.Memory.Subpage.{first_zero, find_next_avail_0, has_zero, find_next_avail, bit_at}

-- The first place that is not used.
pub record FirstFree (used : ℕ → Bool) (j : ℕ) : Type 0 where
  pub free : used j ≡ false
  pub before : (l : ℕ) → l < j → used l ≡ true

-- What a search from `base` on may answer: the first place that is free, if it is below the bound,
-- or none if all places below the bound are used.
abbrev pub FirstBelow : (ℕ → Bool) → ℕ → ℕ → Option ℕ → Type 0
FirstBelow used base bound none = (l : ℕ) → base + l < bound → used l ≡ true
FirstBelow used base bound (some k) = (j : ℕ) × (k ≡ base + j) × (k < bound) × FirstFree used j

abbrev bit : List Bool → ℕ → Bool
bit bits l = get_or bits l true

before_behind :
    (bits : List Bool) (j : ℕ)
    → ((l : ℕ) → l < j → bit bits l ≡ true)
    → (l : ℕ) → l < suc j
    → bit (true ∷ bits) l ≡ true
before_behind bits j b zero h = refl
before_behind bits j b (suc l) h = b l (omega arith)

first_zero-some :
    (bits : List Bool) (base : ℕ)
    → has_zero bits ≡ true
    → (j : ℕ) × (first_zero bits base ≡ some (base + j)) × FirstFree (bit bits) j
unfolding first_zero has_zero
first_zero-some [] base h = cc
first_zero-some (true ∷ bits) base h =
    let (j, e, f) = first_zero-some bits (suc base) h in
    (
      suc j,
      e ∙ ap some (omega arith),
      record { free = f.free; before = before_behind bits j f.before },
    )
first_zero-some (false ∷ bits) base h =
    (0, ap some (omega arith), record { free = refl; before = λ l h. absurd (omega arith) })

has_zero-all : (bits : List Bool) → has_zero bits ≡ false → (l : ℕ) → bit bits l ≡ true
unfolding has_zero
has_zero-all [] h l = refl
has_zero-all (true ∷ bits) h zero = refl
has_zero-all (true ∷ bits) h (suc l) = has_zero-all bits h l
has_zero-all (false ∷ bits) h l = cc

-- A word has 64 bits.
abbrev pub AreWords : List (List Bool) → Type 0
AreWords [] = Unit {0}
AreWords (bits ∷ words) = (length bits ≡ 64) × AreWords words

pub bit_at-low :
    (bits : List Bool) (words : List (List Bool)) (l : ℕ)
    → l < 64
    → bit_at (bits ∷ words) l ≡ bit bits l
bit_at-low bits words l h =
    let q : l / 64 ≡ 0 = omega arith in let r : l % 64 ≡ l = omega arith in rw (q, r) refl

pub bit_at-high :
    (bits : List Bool) (words : List (List Bool)) (l : ℕ)
    → bit_at (bits ∷ words) (64 + l) ≡ bit_at words l
bit_at-high bits words l =
    let q : (64 + l) / 64 ≡ suc (l / 64) = omega arith in
    let r : (64 + l) % 64 ≡ l % 64 = omega arith in rw (q, r) refl

used_inside : (bits : List Bool) (j : ℕ) → bit bits j ≡ false → j < length bits
used_inside [] j h = cc
used_inside (b ∷ bits) zero h = omega arith
used_inside (b ∷ bits) (suc j) h = omega (arith, used_inside bits j h)

bit_at-full :
    (bits : List Bool) (words : List (List Bool)) (l : ℕ)
    → has_zero bits ≡ false
    → (64 ≤ l → bit_at words (l - 64) ≡ true)
    → bit_at (bits ∷ words) l ≡ true
bit_at-full bits words l full rest = elim (Bool-cases (ltb l 64)) [
  | inl e ↦ bit_at-low bits words l (ltb→lt l 64 e) ∙ has_zero-all bits full l
  | inr e ↦
      let high : 64 ≤ l = ltb_false→le l 64 e in
      let place : 64 + (l - 64) ≡ l = omega arith in
      subst (λ (n : ℕ). bit_at (bits ∷ words) n ≡ true) place
        (bit_at-high bits words (l - 64) ∙ rest high)
]

-- Behind a word that is full the search goes on.
FirstBelow-full :
    (bits : List Bool) (words : List (List Bool)) (i bound : ℕ) (o : Option ℕ)
    → has_zero bits ≡ false
    → FirstBelow (bit_at words) (suc i * 64) bound o
    → FirstBelow (bit_at (bits ∷ words)) (i * 64) bound o
FirstBelow-full bits words i bound none full h =
    λ l b. bit_at-full bits words l full (λ high. h (l - 64) (omega arith))
FirstBelow-full bits words i bound (some k) full (j, e, b, f) = (
  64 + j,
  omega (arith, e),
  b,
  record {
    free = bit_at-high bits words j ∙ f.free;
    before = λ l h. bit_at-full bits words l full (λ high. f.before (l - 64) (omega arith));
  },
)

FirstFree-word :
    (bits : List Bool) (words : List (List Bool)) (j : ℕ)
    → length bits ≡ 64
    → FirstFree (bit bits) j
    → FirstFree (bit_at (bits ∷ words)) j
FirstFree-word bits words j e f =
    let inside = used_inside bits j f.free in
    record {
      free = bit_at-low bits words j (omega arith) ∙ f.free;
      before = λ l h. bit_at-low bits words l (omega arith) ∙ f.before l h;
    }

-- In a word that is not full the search ends.
find_next_avail_0-FirstBelow :
    (bound i : ℕ) (bits : List Bool) (words : List (List Bool))
    → length bits ≡ 64
    → has_zero bits ≡ true
    → FirstBelow (bit_at (bits ∷ words)) (i * 64) bound (find_next_avail_0 bound i bits)
unfolding find_next_avail_0
find_next_avail_0-FirstBelow bound i bits words e h =
    let (j, found, f) = first_zero-some bits 0 h in
    let g = FirstFree-word bits words j e f in
    let place : first_zero bits 0 ≡ some j = found ∙ ap some (omega arith) in
    rw (place, find_next_avail_0)
      (elim (Bool-cases (ltb (i * 64 + j) bound)) [
        | inl b ↦ rw b (j, refl, ltb→lt _ _ b, g)
        | inr b ↦ let high = ltb_false→le _ _ b in rw b (λ l k. g.before l (omega (arith, high, k)))
      ])

-- `findNextAvail` over words of 64 bits, from word `i` on, answers the first element whose bit is 0
-- if it is below the number of elements; it answers none only if every element below it is used.
pub find_next_avail-FirstBelow :
    (bound : ℕ) (words : List (List Bool)) (i : ℕ)
    → AreWords words
    → FirstBelow (bit_at words) (i * 64) bound (find_next_avail bound words i)
unfolding find_next_avail
find_next_avail-FirstBelow bound [] i w = λ l h. refl
find_next_avail-FirstBelow bound (bits ∷ words) i (e, w) = elim (Bool-cases (has_zero bits)) [
  | inl z ↦ rw z (find_next_avail_0-FirstBelow bound i bits words e z)
  | inr z ↦ rw z (
      FirstBelow-full bits words i bound (find_next_avail bound words (suc i)) z
        (find_next_avail-FirstBelow bound words (suc i) w))
]
