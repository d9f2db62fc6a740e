-- ===== src/Memory/MathUtil.antt =====
-- buffer/MathUtil.h. An int is its 32-bit pattern, a number below 2 ^ 32.
use mutty.Common.{
  ℕ, zero, suc, ◌+◌, ◌-◌, ◌*◌, ◌/◌, ◌%◌, ◌^◌, ◌≤◌, ◌<◌, ◌≡◌, refl, ap, arith, ◌==◌, if◌then◌else◌,
  ◌||◌, Bool-cases, inl, inr, ==→eq, ne→==_false,
}
use mutty.Memory.Powers.{pow_pos, pow_sum, lt_of_div_zero, le_of_div_pos, le_of_mul, lt_of_mul}

-- The two variables of the leading-zero count.
record Scan : Type 0 where
  n : ℕ
  val : ℕ

-- `if (val >> (32 - k) == 0) { n += k; val <<= k; }`
narrow : ℕ → Scan → Scan
narrow k s =
    if s.val / 2 ^ (32 - k) == 0 then record { n = s.n + k; val = s.val * 2 ^ k % 2 ^ 32 } else s

pub number_of_leading_zeros : ℕ → ℕ
number_of_leading_zeros val =
    if val == 0
    then 32
    else (let s = narrow 2 (narrow 4 (narrow 8 (narrow 16 (record { n = 1; val = val })))) in
        s.n - s.val / 2 ^ 31)

-- The source answers -1 at 0, which no caller passes; here `-` stops at 0.
unfoldable pub log2 : ℕ → ℕ
unfolding number_of_leading_zeros narrow
log2 val = 31 - number_of_leading_zeros val

log2_runs : (log2 1 ≡ 0) × (log2 17 ≡ 4) × (log2 0xffffffff ≡ 31)
unfolding log2
log2_runs = (refl, refl, refl)

-- `val` is the input, shifted left by `n - 1`, and has at most `k` leading zeros left.
record Narrowed (v k : ℕ) (s : Scan) : Type 0 where
  started : 1 ≤ s.n
  room : s.n + k ≤ 33
  shifted : s.val ≡ v * 2 ^ (s.n - 1)
  small : s.val < 2 ^ 32
  large : 2 ^ (32 - k) ≤ s.val

narrow-Narrowed :
    (v k : ℕ) (s : Scan) → k + k ≤ 32 → Narrowed v (k + k) s → Narrowed v k (narrow k s)
unfolding narrow
narrow-Narrowed v k s h w = elim (Bool-cases (s.val / 2 ^ (32 - k) == 0)) [
  | inl e ↦
      let below : s.val < 2 ^ (32 - k) = lt_of_div_zero _ _ (pow_pos (32 - k)) (==→eq _ _ e) in
      let top : 2 ^ (32 - k) * 2 ^ k ≡ 2 ^ 32 = pow_sum (32 - k) k 32 (omega arith) in
      let middle : 2 ^ (32 - (k + k)) * 2 ^ k ≡ 2 ^ (32 - k) =
        pow_sum (32 - (k + k)) k (32 - k) (omega arith) in
      let further = pow_sum (s.n - 1) k (s.n + k - 1) (omega arith) in
      let fits : s.val * 2 ^ k < 2 ^ 32 = grind (arith, pow_pos k) in
      let high : 2 ^ (32 - k) ≤ s.val * 2 ^ k = grind arith in
      rw e (record {
        started = omega arith;
        room = omega arith;
        shifted = omega (arith, ap (λ (t : ℕ). t * 2 ^ k) w.shifted, ap (λ (t : ℕ). v * t) further);
        small = omega arith;
        large = omega arith;
      })
  | inr e ↦ rw e (record {
    started = omega arith;
    room = omega arith;
    shifted = w.shifted;
    small = w.small;
    large = le_of_div_pos _ _ (pow_pos (32 - k)) (ground arith);
  })
]

abbrev scanned : ℕ → Scan
scanned v = narrow 2 (narrow 4 (narrow 8 (narrow 16 (record { n = 1; val = v }))))

scanned-Narrowed : (v : ℕ) → 0 < v → v < 2 ^ 32 → Narrowed v 2 (scanned v)
scanned-Narrowed v p h = narrow-Narrowed v 2 _ (omega arith) (
    narrow-Narrowed v 4 _ (omega arith) (
      narrow-Narrowed v 8 _ (omega arith) (
        narrow-Narrowed v 16 _ (omega arith) (record {
          started = omega arith;
          room = omega arith;
          shifted = omega arith;
          small = h;
          large = p;
        }))))

top_power :
    (b : ℕ) → b ≤ 1 → (2 ^ (30 + b) ≡ 2 ^ 30 + b * 2 ^ 30) × (2 ^ (31 + b) ≡ 2 ^ 31 + b * 2 ^ 31)
top_power zero h = (refl, refl)
top_power (suc zero) h = (refl, refl)
top_power (suc (suc b)) h = absurd (omega arith)

Narrowed-log2 :
    (v : ℕ) (s : Scan) (l : ℕ)
    → Narrowed v 2 s
    → l ≡ 31 - (s.n - s.val / 2 ^ 31)
    → (2 ^ l ≤ v) × (v < 2 ^ (l + 1))
Narrowed-log2 v s l w e =
    let top : s.n - 1 + l + 1 ≡ 31 + s.val / 2 ^ 31 =
      omega (arith, w.started, w.room, w.small, w.large) in
    let p = pow_sum l (s.n - 1) (30 + s.val / 2 ^ 31) (omega arith) in
    let q = pow_sum (l + 1) (s.n - 1) (31 + s.val / 2 ^ 31) (omega arith) in
    let t = top_power (s.val / 2 ^ 31) (omega (arith, w.small)) in
    (
      le_of_mul _ _ (2 ^ (s.n - 1)) (pow_pos (s.n - 1)) omega (arith, p, t, w.shifted),
      lt_of_mul _ _ (2 ^ (s.n - 1)) (omega (arith, q, t, w.shifted)),
    )

-- `log2` finds the highest set bit of a nonzero int.
pub log2_bounds : (v : ℕ) → 0 < v → v < 2 ^ 32 → (2 ^ log2 v ≤ v) × (v < 2 ^ (log2 v + 1))
unfolding log2
log2_bounds v p h =
    Narrowed-log2 v (scanned v) (log2 v) (scanned-Narrowed v p h)
      (rw (ne→==_false v 0 (omega arith)))

-- The bits that are in one of two numbers, up to a number of them.
or_bits : ℕ → ℕ → ℕ → ℕ
or_bits zero x y = 0
or_bits (suc n) x y = 2 * or_bits n (x / 2) (y / 2) + (if x % 2 == 1 || y % 2 == 1 then 1 else 0)

-- `val |= val >> k`
or_shifted : ℕ → ℕ → ℕ
unfolding or_bits
or_shifted k val = or_bits 32 val (val / 2 ^ k)

-- `nextPowerofTwo`, for an argument of 1 and more whose next power of two is an int.
unfoldable pub next_power_of_two : ℕ → ℕ
unfolding or_shifted
next_power_of_two val =
    or_shifted 16 (or_shifted 8 (or_shifted 4 (or_shifted 2 (or_shifted 1 (val - 1))))) + 1
