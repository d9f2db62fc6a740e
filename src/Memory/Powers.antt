-- ===== src/Memory/Powers.antt =====
-- Powers of two, for the size computations of the allocator (buffer/).
use native.Mathlib.Nat.{pow-suc, add-zero, add-suc}
use mutty.Common.{ℕ, zero, suc, ◌+◌, ◌*◌, ◌/◌, ◌^◌, ◌≤◌, ◌<◌, ◌≡◌, sym, ap, arith}

pub pow_pos : (k : ℕ) → 0 < 2 ^ k
pow_pos zero = omega arith
pow_pos (suc k) = omega (arith, pow-suc 2 k, pow_pos k)

pub pow_mono : (j k : ℕ) → j ≤ k → 2 ^ j ≤ 2 ^ k
pow_mono j zero h = let e : j ≡ 0 = omega arith in rw e (omega arith)
pow_mono zero (suc k) h = omega (arith, pow_pos (suc k))
pow_mono (suc j) (suc k) h = omega (arith, pow-suc 2 k, pow-suc 2 j, pow_mono j k (omega arith))

pub pow_add : (j k : ℕ) → 2 ^ (j + k) ≡ 2 ^ j * 2 ^ k
pow_add j zero = rw add-zero (omega arith)
pow_add j (suc k) = rw add-suc (
    omega (
      arith,
      pow-suc 2 (j + k),
      ap (λ (t : ℕ). t * 2) (pow_add j k),
      ap (λ (t : ℕ). 2 ^ j * t) (pow-suc 2 k),
    ))

-- The part below a power of two is cleared, then shifted out.
pub div-mul-div : (x d : ℕ) → 0 < d → x / d * d / d ≡ x / d
div-mul-div x d h = grind arith

pub pow_sum : (j k n : ℕ) → j + k ≡ n → 2 ^ j * 2 ^ k ≡ 2 ^ n
pow_sum j k n e = rw (← e) (sym (pow_add j k))

pub lt_of_div_zero : (x d : ℕ) → 0 < d → x / d ≡ 0 → x < d
lt_of_div_zero x d h e = grind arith

pub le_of_div_pos : (x d : ℕ) → 0 < d → 0 < x / d → d ≤ x
le_of_div_pos x d h e = grind arith

pub le_of_mul : (a b p : ℕ) → 0 < p → a * p ≤ b * p → a ≤ b
le_of_mul a b p h e = grind arith

pub lt_of_mul : (a b p : ℕ) → a * p < b * p → a < b
lt_of_mul a b p e = grind arith
