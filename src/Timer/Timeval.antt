-- ===== src/Timer/Timeval.antt =====
-- timer/delay_queue/TimeEntry.h: a time as its seconds and microseconds, compared and combined by the
-- number of microseconds. The default time, (-1, -1), is none here.
use mutty.Common.{ℕ, ◌+◌, ◌-◌, ◌*◌, ◌/◌, ◌%◌, ◌≡◌, Bool, arith, ltb, leb}

pub record Timeval : Type 0 where
  pub tv_sec : ℕ
  pub tv_usec : ℕ

-- `__node.tv_sec*1000000 + __node.tv_usec`
abbrev pub sum : Timeval → ℕ
sum t = t.tv_sec * 1000000 + t.tv_usec

-- The time of a number of microseconds.
unfoldable pub of_sum : ℕ → Timeval
of_sum u = record { tv_sec = u / 1000000; tv_usec = u % 1000000 }

abbrev pub lt : Timeval → Timeval → Bool
lt l r = ltb (sum l) (sum r)

abbrev pub ge : Timeval → Timeval → Bool
ge l r = leb (sum r) (sum l)

unfoldable pub modulo : Timeval → Timeval → Timeval
unfolding of_sum
modulo l r = of_sum (sum l % sum r)

unfoldable pub times : Timeval → ℕ → Timeval
unfolding of_sum
times l n = of_sum (sum l * n)

abbrev pub quotient : Timeval → Timeval → ℕ
quotient l r = sum l / sum r

-- `operator-`, of a time that is not after the first.
unfoldable pub minus : Timeval → Timeval → Timeval
unfolding of_sum
minus l r = of_sum (sum l - sum r)

unfoldable pub plus : Timeval → Timeval → Timeval
unfolding of_sum
plus l r = of_sum (sum l + sum r)

pub sum-of_sum : (u : ℕ) → sum (of_sum u) ≡ u
unfolding of_sum
sum-of_sum u = omega arith

pub sum-modulo : (l r : Timeval) → sum (modulo l r) ≡ sum l % sum r
unfolding modulo
sum-modulo l r = sum-of_sum (sum l % sum r)

pub sum-times : (l : Timeval) (n : ℕ) → sum (times l n) ≡ sum l * n
unfolding times
sum-times l n = sum-of_sum (sum l * n)

pub sum-minus : (l r : Timeval) → sum (minus l r) ≡ sum l - sum r
unfolding minus
sum-minus l r = sum-of_sum (sum l - sum r)

pub sum-plus : (l r : Timeval) → sum (plus l r) ≡ sum l + sum r
unfolding plus
sum-plus l r = sum-of_sum (sum l + sum r)
