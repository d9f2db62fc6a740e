-- ===== src/Timer/Wheel/Linking.antt =====
-- The wheels of timer/TimingWheel.cc, each of which overflows into the next, and what their buckets
-- cover.
use mutty.Common.{
  ℕ, zero, suc, ◌+◌, ◌-◌, ◌*◌, ◌/◌, ◌%◌, ◌≤◌, ◌<◌, ◌≡◌, refl, true, false, some, List, [], ◌∷◌,
  arith, get_elem?, subst, eq_of_some,
}
use native.Mathlib.Nat.{
  mod-lt, mul-div-le, lt-mul-div-succ, mod-eq-sub-div-mul, div-mul-le_self, mul-mod_left,
  mul-le-mul_left,
}
use mutty.Timer.Timeval.{Timeval, sum, lt, modulo, plus, sum-modulo, sum-times, sum-minus}
use mutty.Timer.Wheel.{Wheel, Slot, new_wheel, slot_of, overflow}

-- A wheel that stands on a tick, and spans a number of them.
pub record IsWheel (wheel_size : ℕ) (w : Wheel) : Type 0 where
  pub some_tick : 0 < sum w.tick_ms
  pub spans : sum w.interval ≡ sum w.tick_ms * wheel_size
  pub on_tick : sum w.current_time % sum w.tick_ms ≡ 0

mod-floor : (x t : ℕ) → 0 < t → (x - x % t) % t ≡ 0
mod-floor x t h =
    let whole = mod-eq-sub-div-mul x t in
    let part = div-mul-le_self x t in
    let same : x - x % t ≡ x / t * t = omega (arith, whole, part) in
    rw same (mul-mod_left (x / t) t)

pub mul-suc-one : (t q : ℕ) → t * (q + 1) ≡ t * q + t
mul-suc-one t q = grind arith

pub grows : (i t n : ℕ) → i ≡ t * n → 0 < t → 2 ≤ n → (t * 2 ≤ i) × (0 < i)
grows i t n e p h =
    let more = mul-le-mul_left t h in (omega (arith, e, more), omega (arith, e, more, p))

new_wheel-IsWheel :
    (tick_ms start_ms : Timeval) (wheel_size : ℕ)
    → 0 < sum tick_ms
    → IsWheel wheel_size (new_wheel tick_ms wheel_size start_ms)
new_wheel-IsWheel tick_ms start_ms wheel_size h = record {
  some_tick = h;
  spans = sum-times tick_ms wheel_size;
  on_tick =
      rw (sum-minus start_ms (modulo start_ms tick_ms), sum-modulo start_ms tick_ms)
        (mod-floor (sum start_ms) (sum tick_ms) h);
}

-- Each wheel has the interval of the one before as its tick, and is not ahead of it.
pub Linked : ℕ → Wheel → List Wheel → Type 0
Linked wheel_size w [] = IsWheel wheel_size w
Linked wheel_size w (v ∷ vs) =
    IsWheel wheel_size w
    × (sum v.tick_ms ≡ sum w.interval)
    × (sum v.current_time ≤ sum w.current_time)
    × Linked wheel_size v vs

pub new_wheel-Linked :
    (tick_ms start_ms : Timeval) (wheel_size : ℕ)
    → 0 < sum tick_ms
    → Linked wheel_size (new_wheel tick_ms wheel_size start_ms) []
unfolding Linked
new_wheel-Linked tick_ms start_ms wheel_size h = new_wheel-IsWheel tick_ms start_ms wheel_size h

pub Linked-IsWheel : (n : ℕ) (w : Wheel) (ws : List Wheel) → Linked n w ws → IsWheel n w
unfolding Linked
Linked-IsWheel n w [] l = l
Linked-IsWheel n w (v ∷ vs) l = l.0

-- The next wheel, which is made if there is none.
pub overflow-Linked :
    (n : ℕ) (w : Wheel) (ws : List Wheel)
    → 2 ≤ n
    → Linked n w ws
    → (v : Wheel) × (vs : List Wheel) × (overflow n w ws ≡ v ∷ vs)
      × (sum v.tick_ms ≡ sum w.interval)
      × (sum v.current_time ≤ sum w.current_time)
      × Linked n v vs
unfolding Linked
overflow-Linked n w [] h l =
    let v = new_wheel w.interval n w.current_time in
    (
      v,
      [],
      refl,
      refl,
      omega (arith, sum-minus w.current_time (modulo w.current_time w.interval)),
      new_wheel-IsWheel w.interval w.current_time n
          (grows (sum w.interval) (sum w.tick_ms) n l.spans l.some_tick h).1,
    )
overflow-Linked n w (v ∷ vs) h l = (v, vs, refl, l.1, l.2, l.3)

-- The bucket's time covers the expiration, and is after the wheel's.
pub record Covers (wheel_size : ℕ) (slot : Slot) (expiration : Timeval) : Type 0 where
  pub bucket_inside : slot.bucket < wheel_size
  pub started : sum slot.starts ≤ sum expiration
  pub ends : sum expiration < sum slot.starts + sum slot.tick

pub slot_of-Covers :
    (n : ℕ) (w : Wheel) (expiration : Timeval)
    → 2 ≤ n
    → 0 < sum w.tick_ms
    → Covers n (slot_of w n expiration) expiration
slot_of-Covers n w expiration h p =
    let e = sum expiration in
    let t = sum w.tick_ms in
    let s = sum-times w.tick_ms (e / t) in
    record {
      bucket_inside = omega (arith, mod-lt (e / t) {m = n} (omega (arith, h)));
      started = omega (arith, s, mul-div-le e t);
      ends = omega (arith, s, mul-div-le e t, lt-mul-div-succ e {b = t} p, mul-suc-one t (e / t));
    }

-- The slot is in the first wheel whose interval holds the expiration, in the bucket of that wheel's
-- tick.
pub record InFirstWheel (wheel_size : ℕ) (ws : List Wheel) (slot : Slot) (expiration : Timeval)
    : Type 0 where
  pub wheel : Wheel
  pub found : get_elem? ws slot.level ≡ some wheel
  pub same_tick : slot.tick ≡ wheel.tick_ms
  pub bucket : slot.bucket ≡ sum expiration / sum wheel.tick_ms % wheel_size
  pub spans : lt expiration (plus wheel.current_time wheel.interval) ≡ true
  pub finer :
      (j : ℕ) (w : Wheel)
      → j < slot.level
      → get_elem? ws j ≡ some w
      → lt expiration (plus w.current_time w.interval) ≡ false

pub in_this :
    (n : ℕ) (w : Wheel) (ws : List Wheel) (expiration : Timeval)
    → lt expiration (plus w.current_time w.interval) ≡ true
    → InFirstWheel n (w ∷ ws) (slot_of w n expiration) expiration
in_this n w ws expiration f = record {
  wheel = w;
  found = refl;
  same_tick = refl;
  bucket = refl;
  spans = f;
  finer = λ j v l e. absurd (omega (arith, l));
}

pub in_later :
    (n : ℕ) (w : Wheel) (us : List Wheel) (slot : Slot) (expiration : Timeval)
    → lt expiration (plus w.current_time w.interval) ≡ false
    → InFirstWheel n us slot expiration
    → InFirstWheel n (w ∷ us) (record slot { level = suc slot.level }) expiration
in_later n w us slot expiration f h = record {
  wheel = h.wheel;
  found = h.found;
  same_tick = h.same_tick;
  bucket = h.bucket;
  spans = h.spans;
  finer = passed;
}
  where
    passed :
        (j : ℕ) (v : Wheel)
        → j < suc slot.level
        → get_elem? (w ∷ us) j ≡ some v
        → lt expiration (plus v.current_time v.interval) ≡ false
    passed zero v l e =
        subst (λ x. lt expiration (plus x.current_time x.interval) ≡ false) (eq_of_some e) f
    passed (suc j) v l e = h.finer j v (omega (arith, l)) e
