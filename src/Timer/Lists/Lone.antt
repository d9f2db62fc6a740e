-- ===== src/Timer/Lists/Lone.antt =====
-- A task that is alone in its wheel, from `Timer::add` to the thread pool (timer/Timer.cc).
use mutty.Common.{
  ℕ, suc, ◌+◌, ◌*◌, ◌/◌, ◌%◌, ◌≤◌, ◌<◌, ◌≡◌, refl, sym, ap, ◌∙◌, Bool, true, false, Option, none,
  some, List, [], ◌∷◌, ◌++◌, arith, if◌then◌else◌, ltb_false→le, lt→ltb, le→leb, eq→==,
}
use mutty.Timer.Timeval.{
  Timeval, sum, lt, ge, plus, minus, modulo, times, quotient, sum-times, sum-plus, sum-minus,
  sum-modulo,
}
use mutty.Timer.Wheel.{Wheel, slot_of, advance_clock}
use mutty.Timer.Wheel.Branches.{add-here, advance_clock-reached}
use mutty.Timer.Wheel.Linking.{IsWheel, slot_of-Covers, mul-suc-one}
use native.Mathlib.Decide.{dec_lt}
use native.Mathlib.Nat.{
  mul_comm, lt-mul-div-succ, mod-eq-sub-div-mul, div-mul-le_self, mul-mod_right, mul-le-mul_left,
}
use mutty.Timer.Lists.{
  Entry, Offer, Timer, update, differs, set_expiration, add_to_bucket, put_in_slot, linked,
  with_wheels, added_to, add_task, done, flush, advance_to, advance,
}
use mutty.Timer.Lists.Waiting.{add_timer_task_entry-live}
use mutty.Timer.Lists.Firing.{AllDue, flush-Fired}

abbrev entry : ℕ → ℕ → Timeval → Entry
entry bucket task expiration = record {
  task = task;
  expiration = expiration;
  cancelled = false;
  bucket = bucket;
}

-- A multiple of the tick above the time of the wheel is a tick above it at least.
tick_after : (c tick e : ℕ) → 0 < tick → c % tick ≡ 0 → c + tick ≤ e → c + tick ≤ tick * (e / tick)
tick_after c tick e some_tick on_tick h = omega (arith, whole, step, below)
  where
    q : ℕ
    q = e / tick

    k : ℕ
    k = c / tick

    whole : c ≡ tick * k
    whole =
        omega (arith, on_tick, mod-eq-sub-div-mul c tick, div-mul-le_self c tick, mul_comm k tick)

    above : tick * q + tick ≡ tick * (q + 1)
    above = sym (mul-suc-one tick q)

    next : tick * k + tick ≡ tick * (k + 1)
    next = sym (mul-suc-one tick k)

    apart : tick * (k + 1) < tick * (q + 1)
    apart = omega (arith, whole, next, h, lt-mul-div-succ e {b = tick} some_tick)

    over : ¬ (k < q) → tick * (q + 1) ≤ tick * (k + 1)
    over m = let h : q + 1 ≤ k + 1 = omega (arith, m) in mul-le-mul_left tick h

    below : k + 1 ≤ q
    below = elim (dec_lt k q) [
      | yes l ↦ omega (arith, l)
      | no m ↦ absurd (omega (arith, apart, over m))
    ]

    step : tick * (k + 1) ≤ tick * q
    step = mul-le-mul_left tick below

module _ (w : Wheel) (n : ℕ) (e : Timeval) where
  abbrev starts : Timeval
  starts = times w.tick_ms (quotient e w.tick_ms)

  starts-ge :
      IsWheel n w
      → lt e (plus w.current_time w.tick_ms) ≡ false
      → ge starts (plus w.current_time w.tick_ms) ≡ true
  starts-ge is h =
      let later = ltb_false→le (sum e) (sum (plus w.current_time w.tick_ms)) h in
      let p = sum-plus w.current_time w.tick_ms in
      let s = sum-times w.tick_ms (quotient e w.tick_ms) in
      le→leb (sum (plus w.current_time w.tick_ms)) (sum starts) (
        omega (
          arith,
          p,
          s,
          tick_after (sum w.current_time) (sum w.tick_ms) (sum e) is.some_tick is.on_tick
              (omega (arith, later, p)),
        ))

  -- Once the clock is at the start of its bucket, a task is due by the next tick.
  due-starts :
      IsWheel n w → 2 ≤ n → lt e (plus (minus starts (modulo starts w.tick_ms)) w.tick_ms) ≡ true
  due-starts is h =
      let t = sum w.tick_ms in
      let s = sum-times w.tick_ms (quotient e w.tick_ms) in
      let whole : sum starts % t ≡ 0 = rw s (mul-mod_right t (quotient e w.tick_ms)) in
      let now = minus starts (modulo starts w.tick_ms) in
      let same : sum now ≡ sum starts =
        omega
          (arith, sum-minus starts (modulo starts w.tick_ms), sum-modulo starts w.tick_ms, whole) in
      lt→ltb (sum e) (sum (plus now w.tick_ms))
        (omega (arith, sum-plus now w.tick_ms, same, (slot_of-Covers n w e h is.some_tick).ends))

advance-done :
    (fuel depth : ℕ) (t t' : Timer) (o : Offer)
    → flush fuel depth o.level o.bucket (advance_to t (t.expirations o.level o.bucket)) ≡ done t'
    → advance fuel depth t (o ∷ []) ≡ done t'
unfolding advance
advance-done fuel depth t t' o h = rw (h, advance) refl

module _ (task : ℕ) (t : Timer) (e : Timeval) where
  abbrev pub bucket : ℕ
  bucket = quotient e t.wheel.tick_ms % t.wheel_size

  abbrev pub offer : Offer
  offer = record { level = 0; bucket = bucket; expiration = e }

  abbrev pub put : Timer
  put = record t {
    lists = update t.lists 0 (t.lists 0 ++ entry bucket task e ∷ []);
    expirations =
        update t.expirations 0
          (update (t.expirations 0) bucket (some (starts t.wheel t.wheel_size e)));
    offers = t.offers ++ offer ∷ [];
  }

  -- The entry in its bucket, whose time is set.
  abbrev held : Timer
  held = record put { offers = t.offers }

  -- The clock stands at the start of the bucket.
  abbrev now : Timeval
  now =
      minus (starts t.wheel t.wheel_size e) (modulo (starts t.wheel t.wheel_size e) t.wheel.tick_ms)

  abbrev ticked : Timer
  ticked = record put {
    wheel = record t.wheel { current_time = now };
    overflow_wheels = advance_clock t.overflow_wheels now;
  }

module _ (depth task : ℕ) (t : Timer) (e : Timeval) (is : IsWheel t.wheel_size t.wheel)
    (two : 2 ≤ t.wheel_size) (lone : t.lists 0 ≡ [])
    (unset : t.expirations 0 (quotient e t.wheel.tick_ms % t.wheel_size) ≡ none)
    (later : lt e (plus t.wheel.current_time t.wheel.tick_ms) ≡ false)
    (inside : lt e (plus t.wheel.current_time t.wheel.interval) ≡ true) where
  put_in_slot-put : put_in_slot t (slot_of t.wheel t.wheel_size e) (entry 0 task e) ≡ put task t e
  unfolding put_in_slot set_expiration add_to_bucket
  put_in_slot-put =
      ap
        (λ (o : Option Timeval).
          if differs (starts t.wheel t.wheel_size e) o then (put task t e) else (held task t e))
        unset

  add_task-put : add_task (suc depth) t task e ≡ linked (put task t e)
  unfolding add_task added_to
  add_task-put =
      add_timer_task_entry-live (suc depth) t (entry 0 task e) refl
      ∙ ap (added_to t (entry 0 task e))
          (add-here depth t.wheel_size t.wheel t.overflow_wheels e later inside)
      ∙ ap linked put_in_slot-put

  advance_to-ticked :
      advance_to (put task t e) ((put task t e).expirations 0 (bucket task t e)) ≡ ticked task t e
  unfolding advance_to
  advance_to-ticked =
      ap
        (λ (b : Bool).
          advance_to (put task t e)
            (if b then some (starts t.wheel t.wheel_size e) else t.expirations 0 (bucket task t e)))
        (eq→== (bucket task t e) (bucket task t e) refl)
      ∙ ap (with_wheels (put task t e)) (
          advance_clock-reached t.wheel t.overflow_wheels (starts t.wheel t.wheel_size e)
            (starts-ge t.wheel t.wheel_size e is later))

  ticked-AllDue :
      AllDue (ticked task t e).wheel (bucket task t e) (entry (bucket task t e) task e ∷ [])
  ticked-AllDue =
      (record { own = refl; live = refl; due = due-starts t.wheel t.wheel_size e is two }, tt)

  ticked-lists : (ticked task t e).lists 0 ≡ entry (bucket task t e) task e ∷ []
  ticked-lists = ap (λ (es : List Entry). es ++ entry (bucket task t e) task e ∷ []) lone

  -- A task that is not due, but within the interval of the finest wheel, added to a timer whose
  -- finest wheel holds no entry and whose bucket for it has no time set: it is put in that bucket, the
  -- bucket is offered to the delay queue at the task's own expiration and not before, and the
  -- `advanceClock` that polls this bucket submits the task and leaves the wheel's list empty.
  pub advance-add_task :
      (add_task (suc depth) t task e ≡ linked (put task t e))
      × ((t' : Timer) × (advance 2 (suc depth) (put task t e) (offer task t e ∷ []) ≡ done t')
          × (t'.submitted ≡ t.submitted ++ task ∷ [])
          × (t'.lists 0 ≡ []))
  advance-add_task =
      let (t', ends, fired) =
        flush-Fired (entry (bucket task t e) task e ∷ []) depth 0 (bucket task t e)
          (ticked task t e) ticked-lists ticked-AllDue in
      (
        add_task-put,
        (
          t',
          advance-done 2 (suc depth) (put task t e) t' (offer task t e)
              (ap (flush 2 (suc depth) 0 (bucket task t e)) advance_to-ticked ∙ ends),
          fired.ran,
          fired.emptied,
        ),
      )
