-- ===== src/Timer/Wheel.antt =====
-- timer/TimingWheel.cc: the wheels from the finest on, each the overflow wheel of the one before. The
-- buckets of a wheel are its offsets with their expiration; what a bucket holds is with TimerTaskList.
pub mod Branches
pub mod Linking
pub mod Placing
mod Tests
use mutty.Common.{
  ℕ, zero, suc, ◌+◌, ◌-◌, ◌*◌, ◌/◌, ◌%◌, ◌^◌, ◌≤◌, ◌<◌, min, max, ◌≡◌, refl, sym, ap, ◌∙◌, subst,
  ◌≢◌, ◌⊎◌, inl, inr, Bool, true, false, not, ◌&&◌, ◌||◌, Option, none, some, List, [], ◌∷◌, ◌++◌,
  arith, ltb, leb, ◌==◌, if◌then◌else◌, Bool-cases, Option-cases, eq_of_some, none-ne_some, ltb→lt,
  lt→ltb, ltb_false→le, le→ltb_false, leb→le, ==→eq, eq→==, ne→==_false, length, get_elem?, get_or,
  set, take, drop, replicate, length-append, length-set, length-take, length-drop, length-replicate,
  take-append_drop, take-append, drop-append, get_or-set, get_or-append, all_below, all_below_sound,
}
use mutty.Timer.Timeval.{
  Timeval, sum, lt, ge, modulo, times, quotient, minus, plus, sum-modulo, sum-times, sum-minus,
  sum-plus,
}

pub record Wheel : Type 0 where
  pub tick_ms : Timeval
  pub interval : Timeval
  pub current_time : Timeval

-- The constructor.
abbrev pub new_wheel : Timeval → ℕ → Timeval → Wheel
new_wheel tick_ms wheel_size start_ms = record {
  tick_ms = tick_ms;
  interval = times tick_ms wheel_size;
  current_time = minus start_ms (modulo start_ms tick_ms);
}

-- Where `add` puts a task: the wheel, counted from the finest, its tick, the bucket, and what the
-- bucket's expiration is set to.
pub record Slot : Type 0 where
  pub level : ℕ
  pub tick : Timeval
  pub bucket : ℕ
  pub starts : Timeval

abbrev pub slot_of : Wheel → ℕ → Timeval → Slot
slot_of w wheel_size expiration =
    let virtual_id = quotient expiration w.tick_ms in
    record {
      level = 0;
      tick = w.tick_ms;
      bucket = virtual_id % wheel_size;
      starts = times w.tick_ms virtual_id;
    }

-- `addOverflowWheel`, where there is none.
abbrev pub overflow : ℕ → Wheel → List Wheel → List Wheel
overflow wheel_size w [] = new_wheel w.interval wheel_size w.current_time ∷ []
overflow wheel_size w (v ∷ vs) = v ∷ vs

-- The slot of an overflow wheel, counted from the wheel before it.
abbrev pub next_level : Option Slot → Option Slot
next_level none = none
next_level (some slot) = some (record slot { level = suc slot.level })

abbrev pub behind : Wheel → List Wheel × Option Slot → List Wheel × Option Slot
behind w (ws, slot) = (w ∷ ws, next_level slot)

-- `add` of an entry that is not cancelled; no slot is the answer `false`, and `none` a walk over the
-- wheels that has not ended.
pub add : ℕ → ℕ → Wheel → List Wheel → Timeval → Option (List Wheel × Option Slot)
add zero wheel_size w ws expiration = none
add (suc fuel) wheel_size w ws expiration =
    if lt expiration (plus w.current_time w.tick_ms)
    then some (w ∷ ws, none)
    else elim (lt expiration (plus w.current_time w.interval)) [
      | true ↦ some (w ∷ ws, some (slot_of w wheel_size expiration))
      | false ↦ elim (overflow wheel_size w ws) [
        | [] ↦ none
        | v ∷ vs ↦ elim (add fuel wheel_size v vs expiration) [
          | none ↦ none
          | some answer ↦ some (behind w answer)
        ]
      ]
    ]

-- `advanceClock`
pub advance_clock : List Wheel → Timeval → List Wheel
advance_clock [] time_ms = []
advance_clock (w ∷ ws) time_ms =
    let current = minus time_ms (modulo time_ms w.tick_ms) in
    let rest = advance_clock ws current in
    if ge time_ms (plus w.current_time w.tick_ms)
    then record w { current_time = current } ∷ rest
    else w ∷ ws
