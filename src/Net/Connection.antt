-- ===== src/Net/Connection.antt =====
-- TcpConnection.cpp, with the callbacks and the loop's functor queue as logs. What a callback does
-- is not part of a call: the calls that it makes are calls of their own.
pub mod Stream
pub mod Lifecycle
mod Tests
use mutty.Common.{
  ℕ, zero, suc, ◌+◌, ◌-◌, ◌*◌, ◌/◌, ◌%◌, ◌^◌, ◌≤◌, ◌<◌, min, max, ◌≡◌, refl, sym, ap, ◌∙◌, subst,
  ◌≢◌, ◌⊎◌, inl, inr, Bool, true, false, not, ◌&&◌, ◌||◌, Option, none, some, List, [], ◌∷◌, ◌++◌,
  arith, ltb, leb, ◌==◌, if◌then◌else◌, Bool-cases, Option-cases, eq_of_some, ltb→lt, lt→ltb,
  ltb_false→le, le→ltb_false, leb→le, ==→eq, eq→==, ne→==_false, length, get_elem?, get_or, set,
  take, drop, replicate, length-append, length-set, length-take, length-drop, length-replicate,
  take-append_drop, take-append, drop-append, get_or-set,
}

-- `StateE`
pub data State : Type 0 where
  disconnected connecting connected disconnecting : State

-- `errno` after a `::write` that failed
pub data Errno : Type 0 where
  would_block pipe conn_reset other : Errno

-- What `::write` returns.
pub data WriteResult : Type 0 where
  wrote : ℕ → WriteResult
  failed : Errno → WriteResult

-- What `readFd` returns: bytes, the end of the stream (no byte), or an error.
pub data ReadResult : Type 0 where
  got : List ℕ → ReadResult
  read_error : ReadResult

-- What waits in the loop's queue for this connection.
pub data Functor : Type 0 where
  send_in_loops : List ℕ → Functor
  shutdown_in_loops force_close_in_loops write_completes : Functor
  high_waters : ℕ → Functor

-- The user's callbacks that ran, latest first.
pub data Callback : Type 0 where
  connection_callback message_callback close_callback : Callback

pub record Connection : Type 0 where
  pub state : State
  pub reading : Bool
  pub writing : Bool
  pub input : List ℕ
  pub output : List ℕ
  pub high_water_mark : ℕ
  pub on_write_complete : Bool
  pub on_high_water : Bool
  -- What the socket took, and whether its write end is shut.
  pub sent : List ℕ
  pub write_shut : Bool
  pub queued : List Functor
  pub calls : List Callback

abbrev pub is_state : State → State → Bool
is_state State.disconnected State.disconnected = true
is_state State.connecting State.connecting = true
is_state State.connected State.connected = true
is_state State.disconnecting State.disconnecting = true
is_state _ _ = false

abbrev pub is_nil : List ℕ → Bool
is_nil [] = true
is_nil (x ∷ xs) = false

abbrev pub queue_in_loop : Connection → Functor → Connection
queue_in_loop c f = record c { queued = c.queued ++ f ∷ [] }

-- The first part of `sendInLoop`: the connection, the bytes that remain, and `faultError`.
pub write_directly : Connection → WriteResult → List ℕ → Connection × List ℕ × Bool
write_directly c (WriteResult.wrote n) bytes =
    let c' = record c { sent = c.sent ++ take n bytes } in
    let remaining = drop n bytes in
    (
      if length bytes - n == 0 && c.on_write_complete
          then queue_in_loop c' Functor.write_completes
          else c',
      remaining,
      false,
    )
write_directly c (WriteResult.failed Errno.pipe) bytes = (c, bytes, true)
write_directly c (WriteResult.failed Errno.conn_reset) bytes = (c, bytes, true)
write_directly c (WriteResult.failed e) bytes = (c, bytes, false)

-- The end of it: what remains goes to the output buffer.
pub append_output : Connection → List ℕ → Connection
append_output c remaining =
    let old_len = length c.output in
    let len = old_len + length remaining in
    let crossed = leb c.high_water_mark len && ltb old_len c.high_water_mark && c.on_high_water in
    let c' = if crossed then queue_in_loop c (Functor.high_waters len) else c in
    record c' { output = c.output ++ remaining; writing = true }

-- The second part.
pub queue_rest : Connection → List ℕ → Bool → Connection
unfolding append_output
queue_rest c remaining fault_error =
    if not fault_error && ltb 0 (length remaining) then append_output c remaining else c

-- `sendInLoop`; `r` answers the `::write`, if there is one.
pub send_in_loop : Connection → WriteResult → List ℕ → Connection
unfolding write_directly queue_rest
send_in_loop c r bytes =
    if is_state c.state State.disconnected
    then c
    else (let (c', remaining, fault_error) =
          if not c.writing && is_nil c.output
          then write_directly c r bytes
          else (c, bytes, false) in
        queue_rest c' remaining fault_error)

-- `send(const std::string&)`, from the loop's thread or another.
pub send : Connection → Bool → WriteResult → List ℕ → Connection
send c in_loop r bytes =
    if is_state c.state State.connected
    then (if in_loop then send_in_loop c r bytes else queue_in_loop c (Functor.send_in_loops bytes))
    else c

pub shutdown_in_loop : Connection → Connection
shutdown_in_loop c = if not c.writing then record c { write_shut = true } else c

pub shutdown : Connection → Bool → Connection
unfolding shutdown_in_loop
shutdown c in_loop =
    let c' = record c { state = State.disconnecting } in
    if is_state c.state State.connected
    then (if in_loop then shutdown_in_loop c' else queue_in_loop c' Functor.shutdown_in_loops)
    else c

pub force_close : Connection → Connection
force_close c =
    if is_state c.state State.connected || is_state c.state State.disconnecting
    then queue_in_loop (record c { state = State.disconnecting }) Functor.force_close_in_loops
    else c

-- `none` is the failed assertion on the state.
pub handle_close : Connection → Option Connection
handle_close c =
    if is_state c.state State.connected || is_state c.state State.disconnecting
    then some (record c {
      state = State.disconnected;
      reading = false;
      writing = false;
      calls = Callback.close_callback ∷ Callback.connection_callback ∷ c.calls;
    })
    else none

pub force_close_in_loop : Connection → Option Connection
unfolding handle_close
force_close_in_loop c =
    if is_state c.state State.connected || is_state c.state State.disconnecting
    then handle_close c
    else some c

-- `none` is the failed assertion on the state.
pub connect_established : Connection → Option Connection
connect_established c =
    if is_state c.state State.connecting
    then some (record c {
      state = State.connected;
      reading = true;
      calls = Callback.connection_callback ∷ c.calls;
    })
    else none

-- `none` is the failed assertion of `Channel::remove`, that no event is of interest.
pub connect_destroyed : Connection → Option Connection
connect_destroyed c =
    if is_state c.state State.connected
    then some (record c {
      state = State.disconnected;
      reading = false;
      writing = false;
      calls = Callback.connection_callback ∷ c.calls;
    })
    else (if c.reading || c.writing then none else some c)

pub handle_read : Connection → ReadResult → Option Connection
unfolding handle_close
handle_read c (ReadResult.got []) = handle_close c
handle_read c (ReadResult.got (x ∷ xs)) =
    some (record c { input = c.input ++ x ∷ xs; calls = Callback.message_callback ∷ c.calls })
handle_read c ReadResult.read_error = some c

-- What `handleWrite` does when the whole buffer is written.
pub flushed : Connection → Connection
unfolding shutdown_in_loop
flushed c =
    let c' = record c { writing = false } in
    let c'' = if c.on_write_complete then queue_in_loop c' Functor.write_completes else c' in
    if is_state c.state State.disconnecting then shutdown_in_loop c'' else c''

-- `retrieve(n)` and what follows it
wrote_out : Connection → ℕ → Connection
unfolding flushed
wrote_out c n =
    let c' = record c { sent = c.sent ++ take n c.output; output = drop n c.output } in
    if ltb 0 n then (if is_nil (drop n c.output) then flushed c' else c') else c

pub handle_write : Connection → WriteResult → Connection
unfolding wrote_out
handle_write c (WriteResult.wrote n) = if c.writing then wrote_out c n else c
handle_write c (WriteResult.failed e) = c

-- The loop runs the oldest functor.
pub run_functor : Connection → Functor → WriteResult → Option Connection
unfolding send_in_loop shutdown_in_loop force_close_in_loop
run_functor c (Functor.send_in_loops bytes) r = some (send_in_loop c r bytes)
run_functor c Functor.shutdown_in_loops r = some (shutdown_in_loop c)
run_functor c Functor.force_close_in_loops r = force_close_in_loop c
run_functor c Functor.write_completes r = some c
run_functor c (Functor.high_waters len) r = some c

pub run_queued : Connection → WriteResult → Option Connection
unfolding run_functor
run_queued c r = elim c.queued [ [] ↦ some c | f ∷ fs ↦ run_functor (record c { queued = fs }) f r ]

-- One call on the connection: by its user, by the channel, by the loop or by the server.
pub data Event : Type 0 where
  established destroyed force_closed : Event
  sends : Bool → WriteResult → List ℕ → Event
  shut_down : Bool → Event
  readable : ReadResult → Event
  writable queue_runs : WriteResult → Event

pub step : Connection → Event → Option Connection
step c Event.established = connect_established c
step c Event.destroyed = connect_destroyed c
step c Event.force_closed = some (force_close c)
step c (Event.sends in_loop r bytes) = some (send c in_loop r bytes)
step c (Event.shut_down in_loop) = some (shutdown c in_loop)
step c (Event.readable r) = handle_read c r
step c (Event.writable r) = some (handle_write c r)
step c (Event.queue_runs r) = run_queued c r
