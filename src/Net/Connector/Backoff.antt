-- ===== src/Net/Connector/Backoff.antt =====
-- Attempts in a row that fail (Connector.cpp).
use mutty.Common.{
  ◌+◌, ◌*◌, min, ◌≡◌, refl, sym, ap, ◌∙◌, false, some, List, [], ◌∷◌, ◌++◌, arith, length, ◌>>=◌,
}
use mathlib.Core.List.{append-nil, append_assoc}
use mutty.Net.Connector.{
  Status, Connector, Failure, max_retry_delay_ms, delays, retry, connecting_on, connect,
  start_in_loop, start, remove_and_reset_channel, reset_channel, handle_write, handle_error, step,
  attempt, attempts,
}

-- What one failed attempt does.
record Retries (c c' : Connector) : Type 0 where
  timers : c'.timers ≡ c.timers ++ c.retry_delay_ms ∷ []
  delay : c'.retry_delay_ms ≡ min (c.retry_delay_ms * 2) max_retry_delay_ms
  status : c'.status ≡ Status.disconnected
  channel : c'.has_channel ≡ false
  opened : c'.opened ≡ c.opened + 1
  closed : c'.closed ≡ c.closed + 1

attempt-Retries :
    (f : Failure) (c : Connector)
    → c.status ≡ Status.disconnected
    → c.has_channel ≡ false
    → (c' : Connector) × (attempt f c ≡ some c') × Retries c c'
unfolding attempt step start start_in_loop connect connecting_on retry handle_write handle_error
    remove_and_reset_channel reset_channel
attempt-Retries Failure.refused c s n =
    rw (s, n)
      (
        _,
        refl,
        record {
          timers = refl;
          delay = refl;
          status = refl;
          channel = refl;
          opened = refl;
          closed = refl;
        },
      )
attempt-Retries Failure.found_error c s n =
    rw (s, n)
      (
        _,
        refl,
        record {
          timers = refl;
          delay = refl;
          status = refl;
          channel = refl;
          opened = refl;
          closed = refl;
        },
      )
attempt-Retries Failure.found_self_connect c s n =
    rw (s, n)
      (
        _,
        refl,
        record {
          timers = refl;
          delay = refl;
          status = refl;
          channel = refl;
          opened = refl;
          closed = refl;
        },
      )

-- Each attempt in a row that fails, whether at once or by an error or a connection to itself that an
-- event finds, begins without a failed assertion if the one before is over, closes the one socket
-- that it opens, and gives the timer one retry, with delays that double and stay at 30 s.
pub attempts-delays :
    (fs : List Failure) (c : Connector)
    → c.status ≡ Status.disconnected
    → c.has_channel ≡ false
    → (c' : Connector) × (attempts fs c ≡ some c')
      × (c'.timers ≡ c.timers ++ delays (length fs) c.retry_delay_ms)
      × (c'.opened ≡ c.opened + length fs)
      × (c'.closed ≡ c.closed + length fs)
      × (c'.status ≡ Status.disconnected)
unfolding attempts
attempts-delays [] c s n = (c, refl, sym (append-nil c.timers), omega arith, omega arith, s)
attempts-delays (f ∷ fs) c s n =
    let (c1, done, r) = attempt-Retries f c s n in
    let (c', ends, timers, opened, closed, status) = attempts-delays fs c1 r.status r.channel in
    (
      c',
      ap (λ o. o >>= attempts fs) done ∙ ends,
      timers ∙ rw (r.timers, r.delay) (append_assoc c.timers (c.retry_delay_ms ∷ []) _),
      omega (arith, opened, r.opened),
      omega (arith, closed, r.closed),
      status,
    )
