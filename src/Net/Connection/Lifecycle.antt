-- ===== src/Net/Connection/Lifecycle.antt =====
-- The states of a TcpConnection, its interest in events, and when its write end is shut.
use mutty.Common.{
  ℕ, ◌≤◌, ◌≡◌, refl, subst, ◌⊎◌, inl, inr, Bool, true, false, not, ◌&&◌, some, List, [], ◌∷◌, ◌++◌,
  arith, Bool-cases, eq_of_some,
}
use mutty.Net.Connection.{
  State, Errno, WriteResult, ReadResult, Functor, Connection, Event, is_state, is_nil,
  write_directly, append_output, queue_rest, send_in_loop, send, shutdown, force_close,
  handle_close, connect_established, connect_destroyed, handle_read, handle_write, run_functor,
  run_queued, step,
}

-- How far a connection is in its life.
abbrev pub stage : State → ℕ
stage State.connecting = 0
stage State.connected = 1
stage State.disconnecting = 2
stage State.disconnected = 3

-- The channel waits to write exactly while output is pending; a closed connection waits for nothing.
pub record IsPolling (c : Connection) : Type 0 where
  pub writes : c.writing ≡ (not (is_state c.state State.disconnected) && not (is_nil c.output))
  pub reads : (is_state c.state State.disconnected && c.reading) ≡ false

-- What a call does to the state, to the interest in events and to the send half of the socket.
pub record Moves (c c' : Connection) : Type 0 where
  pub forward : stage c.state ≤ stage c'.state
  pub polling : IsPolling c → IsPolling c'
  pub shuts :
      IsPolling c
      → c.write_shut ≡ false
      → c'.write_shut ≡ true
      → is_state c'.state State.disconnected ≡ false
      → is_nil c'.output ≡ true

-- The parts of `sendInLoop` touch only the output, and the interest in writing.
record Sends (c c' : Connection) : Type 0 where
  state : c'.state ≡ c.state
  reading : c'.reading ≡ c.reading
  shut : c'.write_shut ≡ c.write_shut

is_nil-append : (xs : List ℕ) (y : ℕ) (ys : List ℕ) → is_nil (xs ++ y ∷ ys) ≡ false
is_nil-append [] y ys = refl
is_nil-append (x ∷ xs) y ys = refl

write_directly-Sends :
    (c : Connection) (r : WriteResult) (bytes : List ℕ)
    → let c' = (write_directly c r bytes).0 in
      Sends c c' × (c'.writing ≡ c.writing) × (c'.output ≡ c.output)
unfolding write_directly
write_directly-Sends c (WriteResult.wrote n) bytes = ground arith
write_directly-Sends c (WriteResult.failed Errno.pipe) bytes = ground arith
write_directly-Sends c (WriteResult.failed Errno.conn_reset) bytes = ground arith
write_directly-Sends c (WriteResult.failed Errno.would_block) bytes = ground arith
write_directly-Sends c (WriteResult.failed Errno.other) bytes = ground arith

queue_rest-Sends :
    (c : Connection) (bytes : List ℕ) (fault_error : Bool)
    → let c' = queue_rest c bytes fault_error in
      Sends c c'
      × ((c'.writing ≡ c.writing) × (c'.output ≡ c.output)
          ⊎ (c'.writing ≡ true) × (is_nil c'.output ≡ false))
unfolding queue_rest append_output
queue_rest-Sends c [] fault_error = ground arith
queue_rest-Sends c (x ∷ bytes) fault_error = ground (arith, is_nil-append c.output x bytes)

send_in_loop-Sends :
    (c : Connection) (r : WriteResult) (bytes : List ℕ)
    → let c' = send_in_loop c r bytes in
      Sends c c'
      × ((c'.writing ≡ c.writing) × (c'.output ≡ c.output)
          ⊎ (is_state c.state State.disconnected ≡ false)
            × (c'.writing ≡ true)
            × (is_nil c'.output ≡ false))
unfolding send_in_loop
send_in_loop-Sends c r bytes =
    let d = write_directly c r bytes in
    ground (
      arith,
      write_directly-Sends c r bytes,
      queue_rest-Sends c bytes false,
      queue_rest-Sends d.0 d.1 d.2,
    )

send_in_loop-Moves :
    (c : Connection) (r : WriteResult) (bytes : List ℕ) → Moves c (send_in_loop c r bytes)
send_in_loop-Moves c r bytes = record {
  forward = ground (arith, send_in_loop-Sends c r bytes);
  polling = λ p. ground (arith, send_in_loop-Sends c r bytes, p);
  shuts = λ p. ground (arith, send_in_loop-Sends c r bytes, p);
}

Moves-refl : (c : Connection) → Moves c c
Moves-refl c = record { forward = omega arith; polling = λ p. p; shuts = λ p. ground arith }

send-Moves :
    (c : Connection) (b : Bool) (r : WriteResult) (bytes : List ℕ) → Moves c (send c b r bytes)
unfolding send
send-Moves c true r bytes = elim (Bool-cases (is_state c.state State.connected)) [
  | inl e ↦ rw e (send_in_loop-Moves c r bytes)
  | inr e ↦ rw e (Moves-refl c)
]
send-Moves c false r bytes = ground arith

shutdown-Moves : (c : Connection) (b : Bool) → Moves c (shutdown c b)
unfolding shutdown
shutdown-Moves c b = ground arith

handle_write-Moves : (c : Connection) (r : WriteResult) → Moves c (handle_write c r)
unfolding handle_write
handle_write-Moves c (WriteResult.wrote n) = ground arith
handle_write-Moves c (WriteResult.failed e) = Moves-refl c

handle_close-Moves : (c c' : Connection) → handle_close c ≡ some c' → Moves c c'
unfolding handle_close
handle_close-Moves c c' h = ground arith

handle_read-Moves : (c c' : Connection) (r : ReadResult) → handle_read c r ≡ some c' → Moves c c'
unfolding handle_read
handle_read-Moves c c' (ReadResult.got []) h = handle_close-Moves c c' h
handle_read-Moves c c' (ReadResult.got (x ∷ xs)) h = ground arith
handle_read-Moves c c' ReadResult.read_error h = ground arith

run_functor-Moves :
    (c c' : Connection) (f : Functor) (r : WriteResult) → run_functor c f r ≡ some c' → Moves c c'
unfolding run_functor
run_functor-Moves c c' (Functor.send_in_loops bytes) r h =
    subst (Moves c) (eq_of_some h) (send_in_loop-Moves c r bytes)
run_functor-Moves c c' Functor.shutdown_in_loops r h = ground arith
run_functor-Moves c c' Functor.force_close_in_loops r h = ground arith
run_functor-Moves c c' Functor.write_completes r h = subst (Moves c) (eq_of_some h) (Moves-refl c)
run_functor-Moves c c' (Functor.high_waters len) r h = subst (Moves c) (eq_of_some h) (Moves-refl c)

Moves-of_queued :
    (c c' : Connection) (fs : List Functor) → Moves (record c { queued = fs }) c' → Moves c c'
Moves-of_queued c c' fs m = record {
  forward = m.forward;
  polling = λ p. m.polling (record { writes = p.writes; reads = p.reads });
  shuts = λ p. m.shuts (record { writes = p.writes; reads = p.reads });
}

run_queued-Moves :
    (c c' : Connection) (r : WriteResult) (fs : List Functor)
    → c.queued ≡ fs
    → run_queued c r ≡ some c'
    → Moves c c'
unfolding run_queued
run_queued-Moves c c' r [] e h =
    subst (Moves c) (eq_of_some (rw (e, run_queued) at h)) (Moves-refl c)
run_queued-Moves c c' r (f ∷ fs) e h =
    Moves-of_queued c c' fs
      (run_functor-Moves (record c { queued = fs }) c' f r (rw (e, run_queued) at h))

-- A call that fails no assertion moves the state forward only (connecting, connected, disconnecting,
-- disconnected). If the channel waited to write exactly while output was pending, and for nothing
-- once closed, it still does, and the call shuts the write end of a connection that stays open only
-- if no output is pending then.
pub step-Moves : (c c' : Connection) (e : Event) → step c e ≡ some c' → Moves c c'
unfolding step connect_established connect_destroyed force_close
step-Moves c c' Event.established h = ground arith
step-Moves c c' Event.destroyed h = ground arith
step-Moves c c' Event.force_closed h = ground arith
step-Moves c c' (Event.sends b r bytes) h = subst (Moves c) (eq_of_some h) (send-Moves c b r bytes)
step-Moves c c' (Event.shut_down b) h = subst (Moves c) (eq_of_some h) (shutdown-Moves c b)
step-Moves c c' (Event.readable r) h = handle_read-Moves c c' r h
step-Moves c c' (Event.writable r) h = subst (Moves c) (eq_of_some h) (handle_write-Moves c r)
step-Moves c c' (Event.queue_runs r) h = run_queued-Moves c c' r c.queued refl h
