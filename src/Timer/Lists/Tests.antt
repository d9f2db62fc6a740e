-- ===== src/Timer/Lists/Tests.antt =====
-- A timer of twenty buckets of a millisecond (timer/Timer.cc).
use mutty.Common.{ℕ, ◌≡◌, refl, false, none, List, [], ◌∷◌, arith, ◌==◌, if◌then◌else◌}
use mutty.Timer.Timeval.{Timeval, of_sum, plus, minus, times, modulo}
use mutty.Timer.Wheel.{new_wheel}
use mutty.Timer.Wheel.Linking.{IsWheel}
use mutty.Timer.Lists.{Entry, Timer, linked, add_task, flush, done, advance}
use mutty.Timer.Lists.Endless.{flush-endless}
use mutty.Timer.Lists.Firing.{IsDue, Fired, flush-Fired}
use mutty.Timer.Lists.Lone.{put, offer, advance-add_task}

abbrev millisecond : Timeval
millisecond = record { tv_sec = 0; tv_usec = 1000 }

abbrev at : ℕ → Timeval
at u = record { tv_sec = 1; tv_usec = u }

abbrev entry_at : ℕ → ℕ → ℕ → Entry
entry_at bucket task u = record {
  task = task;
  expiration = at u;
  cancelled = false;
  bucket = bucket;
}

-- The finest wheel holds the entries, at one second.
abbrev timer_of : List Entry → Timer
timer_of es = record {
  wheel_size = 20;
  wheel = new_wheel millisecond 20 (at 0);
  overflow_wheels = [];
  lists = λ level. if level == 0 then es else [];
  expirations = λ level bucket. none;
  offers = [];
  submitted = [];
}

-- The first entry is due by the next tick, the other one eight milliseconds later.
abbrev one_waits : List Entry
one_waits = entry_at 0 5 300 ∷ entry_at 8 6 8200 ∷ []

flush-endless_example : ¬ ((t' : Timer) × (flush 100 5 0 0 (timer_of one_waits) ≡ done t'))
unfolding plus minus times modulo of_sum
flush-endless_example = flush-endless 100 5 0 (timer_of one_waits) refl

abbrev both_due : List Entry
both_due = entry_at 0 5 300 ∷ entry_at 0 6 800 ∷ []

entries-IsDue :
    IsDue (timer_of both_due).wheel 0 (entry_at 0 5 300)
    × IsDue (timer_of both_due).wheel 0 (entry_at 0 6 800)
unfolding plus minus times modulo of_sum
entries-IsDue =
    (record { own = refl; live = refl; due = refl }, record { own = refl; live = refl; due = refl })

flush-Fired_example :
    (t' : Timer) × (flush 3 5 0 0 (timer_of both_due) ≡ done t')
    × Fired (timer_of both_due) 0 both_due t'
unfolding plus minus times modulo of_sum
flush-Fired_example =
    flush-Fired both_due 4 0 0 (timer_of both_due) refl (entries-IsDue.0, (entries-IsDue.1, tt))

new_wheel-IsWheel : IsWheel 20 (new_wheel millisecond 20 (at 0))
unfolding plus minus times modulo of_sum
new_wheel-IsWheel = record { some_tick = omega arith; spans = refl; on_tick = refl }

advance-add_task_example :
    (add_task 3 (timer_of []) 5 (at 4200) ≡ linked (put 5 (timer_of []) (at 4200)))
    × ((t' : Timer) × (advance 2 3
            (put 5 (timer_of []) (at 4200))
            (offer 5 (timer_of []) (at 4200) ∷ [])
          ≡ done t')
        × (t'.submitted ≡ 5 ∷ [])
        × (t'.lists 0 ≡ []))
unfolding plus minus times modulo of_sum
advance-add_task_example =
    advance-add_task 2 5 (timer_of []) (at 4200) new_wheel-IsWheel (omega arith) refl refl refl refl
