-- ===== src/Net/Connector/Tests.antt =====
-- Runs of a Connector on concrete inputs.
use mutty.Common.{◌≡◌, refl, true, false, none, some, [], ◌∷◌}
use mutty.Net.Connector.Backoff.{attempts-delays}
use mutty.Net.Connector.{
  Status, ConnectResult, Connector, Event, retry, connect, start_in_loop, start, step, Accounts,
  step-Accounts, Failure, attempts,
}

abbrev idle : Connector
idle = record {
  connect_wanted = true;
  status = Status.disconnected;
  has_channel = false;
  retry_delay_ms = 500;
  timers = [];
  queued_resets = 0;
  opened = 0;
  closed = 0;
  handed = 0;
}

abbrev refused_once : Connector
refused_once = record idle { retry_delay_ms = 1000; timers = 500 ∷ []; opened = 1; closed = 1 }

refused_step : step idle (Event.starts ConnectResult.try_again) ≡ some refused_once
unfolding step start start_in_loop connect retry
refused_step = refl

step-Accounts_example : Accounts refused_once
step-Accounts_example =
    step-Accounts idle refused_once (Event.starts ConnectResult.try_again) refused_step refl

-- Three attempts that fail in three ways.
attempts-delays_example :
    (c' : Connector) × (attempts
        (Failure.refused ∷ Failure.found_error ∷ Failure.found_self_connect ∷ [])
        idle
      ≡ some c')
    × (c'.timers ≡ 500 ∷ 1000 ∷ 2000 ∷ [])
    × (c'.opened ≡ 3)
    × (c'.closed ≡ 3)
    × (c'.status ≡ Status.disconnected)
attempts-delays_example =
    attempts-delays (Failure.refused ∷ Failure.found_error ∷ Failure.found_self_connect ∷ []) idle
      refl refl

-- The retry that the timer was given fails the assertion on the loop's thread.
timer_fails : step refused_once (Event.timer_fires ConnectResult.in_progress) ≡ none
unfolding step start_in_loop
timer_fails = refl
