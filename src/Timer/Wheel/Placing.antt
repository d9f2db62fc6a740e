-- ===== src/Timer/Wheel/Placing.antt =====
-- Where `add` of timer/TimingWheel.cc puts a task.
use mutty.Common.{
  ℕ, zero, suc, ◌+◌, ◌*◌, ◌^◌, ◌≤◌, ◌<◌, ◌≡◌, sym, ap, ◌∙◌, ◌⊎◌, inl, inr, true, false, Option,
  none, some, List, ◌∷◌, arith, Bool-cases, ltb_false→le, le→ltb_false,
}
use native.Mathlib.Nat.{mul-le-mul_right, pow-suc, mul_assoc}
use mutty.Timer.Timeval.{Timeval, sum, lt, plus, sum-plus}
use mutty.Timer.Wheel.Branches.{add-now, add-here, add-over}
use mutty.Timer.Wheel.{Wheel, Slot, slot_of, overflow, add}
use mutty.Timer.Wheel.Linking.{
  grows, Linked, Linked-IsWheel, overflow-Linked, Covers, slot_of-Covers, InFirstWheel, in_this,
  in_later,
}

-- The answer of `add`: no slot exactly for a task that is due by the next tick, else one whose time
-- covers the task's.
abbrev pub Answers : ℕ → Wheel → Timeval → Option (List Wheel × Option Slot) → Type 0
Answers n w expiration outcome =
    ((lt expiration (plus w.current_time w.tick_ms) ≡ true)
      × ((ws : List Wheel) × (outcome ≡ some (ws, none))))
    ⊎ ((lt expiration (plus w.current_time w.tick_ms) ≡ false)
        × ((ws : List Wheel) × (slot : Slot) × (outcome ≡ some (ws, some slot))
            × Covers n slot expiration
            × InFirstWheel n ws slot expiration))

-- The overflow wheel has a span that begins no later than this one ends, so it does not refuse a task.
next_accepts :
    (w v : Wheel) (expiration : Timeval)
    → sum v.tick_ms ≡ sum w.interval
    → sum v.current_time ≤ sum w.current_time
    → lt expiration (plus w.current_time w.interval) ≡ false
    → lt expiration (plus v.current_time v.tick_ms) ≡ false
next_accepts w v expiration t c e =
    let later = ltb_false→le (sum expiration) (sum (plus w.current_time w.interval)) e in
    le→ltb_false (sum expiration) (sum (plus v.current_time v.tick_ms)) (
      omega
        (arith, later, t, c, sum-plus w.current_time w.interval, sum-plus v.current_time v.tick_ms))

pow_shift : (fuel : ℕ) → 2 ^ (suc fuel + 1) ≡ 2 ^ suc (fuel + 1)
pow_shift fuel = ap (λ (n : ℕ). 2 ^ n) {x = suc fuel + 1} (omega arith)

doubled_bound : (e t i fuel : ℕ) → t * 2 ≤ i → e < t * 2 ^ (suc fuel + 1) → e < i * 2 ^ (fuel + 1)
doubled_bound e t i fuel h b =
    let power : 2 ^ (suc fuel + 1) ≡ 2 * 2 ^ (fuel + 1) =
      omega (arith, pow-suc 2 (fuel + 1), pow_shift fuel) in
    let more = mul-le-mul_right (2 ^ (fuel + 1)) h in
    let same : t * 2 ^ (suc fuel + 1) ≡ t * 2 * 2 ^ (fuel + 1) =
      ap (λ (n : ℕ). t * n) power ∙ sym (mul_assoc t 2 (2 ^ (fuel + 1))) in
    omega (arith, b, more, same)

-- A bucket of one of the overflow wheels.
abbrev Placed : ℕ → Timeval → Option (List Wheel × Option Slot) → Type 0
Placed n expiration outcome =
    (ws : List Wheel) × (slot : Slot) × (outcome ≡ some (ws, some slot))
    × Covers n slot expiration
    × InFirstWheel n ws slot expiration

-- The answers of the next wheel, which does not refuse, put before this one's.
further :
    (fuel n : ℕ) (w v : Wheel) (ws vs : List Wheel) (expiration : Timeval)
    → lt expiration (plus w.current_time w.tick_ms) ≡ false
    → lt expiration (plus w.current_time w.interval) ≡ false
    → overflow n w ws ≡ v ∷ vs
    → lt expiration (plus v.current_time v.tick_ms) ≡ false
    → Answers n v expiration (add fuel n v vs expiration)
    → Placed n expiration (add (suc fuel) n w ws expiration)
further fuel n w v ws vs expiration e f o accepts (inl (due, none_there)) =
    absurd (ground (arith, due, accepts))
further fuel n w v ws vs expiration e f o accepts (inr (later, (us, slot, a, covers, first))) = (
  w ∷ us,
  record slot { level = suc slot.level },
  add-over fuel n w v ws vs expiration (us, some slot) e f o a,
  record { bucket_inside = covers.bucket_inside; started = covers.started; ends = covers.ends },
  in_later n w us slot expiration f first,
)

-- `add` with linked wheels of two buckets and more ends after at most `fuel + 1` of them, if the
-- expiration is below 2 ^ (fuel + 1) ticks of the first: a task that is due before the end of the
-- first wheel's current tick is refused, and any other is put in the first wheel whose interval holds
-- its expiration, in the bucket for its tick of that wheel, whose time covers the expiration.
pub add-Answers :
    (fuel n : ℕ) (w : Wheel) (ws : List Wheel) (expiration : Timeval)
    → 2 ≤ n
    → Linked n w ws
    → sum expiration < sum w.tick_ms * 2 ^ (fuel + 1)
    → Answers n w expiration (add (suc fuel) n w ws expiration)
add-Answers zero n w ws expiration h l bound =
    elim (Bool-cases (lt expiration (plus w.current_time w.tick_ms))) [
      | inl e ↦ inl (e, (w ∷ ws, add-now zero n w ws expiration e))
      | inr e ↦ elim (Bool-cases (lt expiration (plus w.current_time w.interval))) [
        | inl f ↦ inr (
          e,
          (
            w ∷ ws,
            slot_of w n expiration,
            add-here zero n w ws expiration e f,
            slot_of-Covers n w expiration h (Linked-IsWheel n w ws l).some_tick,
            in_this n w ws expiration f,
          ),
        )
        | inr f ↦
            let w_is = Linked-IsWheel n w ws l in
            let (twice, some_span) =
              grows (sum w.interval) (sum w.tick_ms) n w_is.spans w_is.some_tick h in
            let later = ltb_false→le (sum expiration) (sum (plus w.current_time w.interval)) f in
            absurd (omega (arith, bound, later, twice, sum-plus w.current_time w.interval))
      ]
    ]
add-Answers (suc fuel) n w ws expiration h l bound =
    elim (Bool-cases (lt expiration (plus w.current_time w.tick_ms))) [
      | inl e ↦ inl (e, (w ∷ ws, add-now (suc fuel) n w ws expiration e))
      | inr e ↦ elim (Bool-cases (lt expiration (plus w.current_time w.interval))) [
        | inl f ↦ inr (
          e,
          (
            w ∷ ws,
            slot_of w n expiration,
            add-here (suc fuel) n w ws expiration e f,
            slot_of-Covers n w expiration h (Linked-IsWheel n w ws l).some_tick,
            in_this n w ws expiration f,
          ),
        )
        | inr f ↦
            let w_is = Linked-IsWheel n w ws l in
            let (twice, some_span) =
              grows (sum w.interval) (sum w.tick_ms) n w_is.spans w_is.some_tick h in
            let (v, vs, o, t, c, lv) = overflow-Linked n w ws h l in
            let bound' : sum expiration < sum v.tick_ms * 2 ^ (fuel + 1) =
              rw t (
                doubled_bound (sum expiration) (sum w.tick_ms) (sum w.interval) fuel twice bound) in
            inr (
              e,
              further (suc fuel) n w v ws vs expiration e f o (next_accepts w v expiration t c f)
                  (add-Answers fuel n v vs expiration h lv bound'),
            )
      ]
    ]
