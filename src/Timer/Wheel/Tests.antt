-- ===== src/Timer/Wheel/Tests.antt =====
-- A wheel of twenty buckets of a millisecond (timer/TimingWheel.cc).
use mutty.Common.{[], arith}
use mutty.Timer.Timeval.{Timeval}
use mutty.Timer.Wheel.{Wheel, new_wheel, add}
use mutty.Timer.Wheel.Placing.{Answers, add-Answers}
use mutty.Timer.Wheel.Linking.{new_wheel-Linked}

abbrev millisecond : Timeval
millisecond = record { tv_sec = 0; tv_usec = 1000 }

abbrev at_start : Timeval
at_start = record { tv_sec = 1; tv_usec = 500 }

-- Half a second later, past the first wheel and its overflow wheel.
abbrev half_later : Timeval
half_later = record { tv_sec = 1; tv_usec = 500500 }

abbrev wheel : Wheel
wheel = new_wheel millisecond 20 at_start

add-Answers_example : Answers 20 wheel half_later (add 12 20 wheel [] half_later)
add-Answers_example =
    add-Answers 11 20 wheel [] half_later (omega arith)
      (new_wheel-Linked millisecond at_start 20 (omega arith)) (omega arith)
