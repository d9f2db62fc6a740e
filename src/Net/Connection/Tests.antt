-- ===== src/Net/Connection/Tests.antt =====
-- Runs of a TcpConnection on concrete inputs.
use mutty.Common.{◌≡◌, refl, true, false, some, [], ◌∷◌, ◌++◌}
use mutty.Net.Connection.{
  State, WriteResult, Functor, Connection, Event, write_directly, append_output, queue_rest,
  send_in_loop, send, step,
}
use mutty.Net.Connection.Stream.{stream, accepted_by, stream-step}
use mutty.Net.Connection.Lifecycle.{Moves, step-Moves}

abbrev open_connection : Connection
open_connection = record {
  state = State.connected;
  reading = true;
  writing = false;
  input = [];
  output = [];
  high_water_mark = 2;
  on_write_complete = true;
  on_high_water = true;
  sent = 7 ∷ [];
  write_shut = false;
  queued = [];
  calls = [];
}

-- The socket takes one byte of three, and the two others wait.
abbrev half_sent : Connection
half_sent = record open_connection {
  sent = 7 ∷ 1 ∷ [];
  output = 2 ∷ 3 ∷ [];
  writing = true;
  queued = Functor.high_waters 2 ∷ [];
}

abbrev sends_three : Event
sends_three = Event.sends true (WriteResult.wrote 1) (1 ∷ 2 ∷ 3 ∷ [])

sends_three-step : step open_connection sends_three ≡ some half_sent
unfolding step send send_in_loop write_directly queue_rest append_output
sends_three-step = refl

stream-step_example :
    stream half_sent ≡ stream open_connection ++ accepted_by open_connection sends_three
stream-step_example = stream-step open_connection half_sent sends_three sends_three-step

step-Moves_example : Moves open_connection half_sent
step-Moves_example = step-Moves open_connection half_sent sends_three sends_three-step
