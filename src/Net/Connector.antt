-- ===== src/Net/Connector.antt =====
-- Connector.cpp. The socket that a call creates or works on is counted; `none` is a failed assertion.
mod Backoff
mod Tests
use mutty.Common.{
  ℕ, zero, suc, ◌+◌, ◌-◌, ◌*◌, ◌^◌, min, ◌≡◌, refl, ◌∙◌, Bool, true, false, ◌&&◌, ◌||◌, Option,
  none, some, List, [], ◌∷◌, ◌++◌, arith, if◌then◌else◌, ◌>>=◌, length, sym, ap,
}
use mathlib.Core.List.{append-nil, append_assoc}

pub data Status : Type 0 where
  disconnected connecting connected : Status

-- What the switch over `savedErrno` distinguishes: 0, EINPROGRESS, EINTR and EISCONN; EAGAIN,
-- EADDRINUSE, EADDRNOTAVAIL, ECONNREFUSED and ENETUNREACH; all others.
pub data ConnectResult : Type 0 where
  in_progress try_again gives_up : ConnectResult

abbrev pub max_retry_delay_ms : ℕ
max_retry_delay_ms = 30 * 1000

abbrev pub init_retry_delay_ms : ℕ
init_retry_delay_ms = 500

pub record Connector : Type 0 where
  pub connect_wanted : Bool
  pub status : Status
  pub has_channel : Bool
  pub retry_delay_ms : ℕ
  -- The delays of the retries given to the timer, oldest first, and the resets in the loop's queue.
  pub timers : List ℕ
  pub queued_resets : ℕ
  -- Sockets created, closed, and handed to the new-connection callback.
  pub opened : ℕ
  pub closed : ℕ
  pub handed : ℕ

pub retry : Connector → Connector
retry c =
    let c' = record c { closed = c.closed + 1; status = Status.disconnected } in
    if c.connect_wanted
    then record c' {
      timers = c.timers ++ c.retry_delay_ms ∷ [];
      retry_delay_ms = min (c.retry_delay_ms * 2) max_retry_delay_ms;
    }
    else c'

pub connecting_on : Connector → Option Connector
connecting_on c =
    if c.has_channel
    then none
    else some (record c { status = Status.connecting; has_channel = true })

pub connect : Connector → ConnectResult → Option Connector
unfolding connecting_on retry
connect c r =
    let c' = record c { opened = c.opened + 1 } in
    elim r [
      | ConnectResult.in_progress ↦ connecting_on c'
      | ConnectResult.try_again ↦ some (retry c')
      | ConnectResult.gives_up ↦ some (record c' { closed = c.closed + 1 })
    ]

abbrev pub is_disconnected : Status → Bool
is_disconnected Status.disconnected = true
is_disconnected s = false

abbrev pub is_connecting : Status → Bool
is_connecting Status.connecting = true
is_connecting s = false

-- `in_loop` tells whether the calling thread is the loop's, which the first line asserts.
pub start_in_loop : Bool → Connector → ConnectResult → Option Connector
unfolding connect
start_in_loop in_loop c r =
    if in_loop && is_disconnected c.status
    then (if c.connect_wanted then connect c r else some c)
    else none

-- `runInLoop` brings the call to the loop's thread.
pub start : Connector → ConnectResult → Option Connector
unfolding start_in_loop
start c r = start_in_loop true (record c { connect_wanted = true }) r

-- `removeAndResetChannel`: the reset waits in the loop's queue.
pub remove_and_reset_channel : Connector → Connector
remove_and_reset_channel c = record c { queued_resets = c.queued_resets + 1 }

pub reset_channel : Connector → Connector
reset_channel c = record c { has_channel = false; queued_resets = c.queued_resets - 1 }

-- `err` tells whether the socket has an error, `self_connect` whether it is connected to itself.
pub handle_write : Connector → Bool → Bool → Option Connector
unfolding remove_and_reset_channel retry
handle_write c err self_connect =
    let c' = remove_and_reset_channel c in
    if is_connecting c.status
    then (if err || self_connect
        then some (retry c')
        else (if c.connect_wanted
            then some (record c' { status = Status.connected; handed = c.handed + 1 })
            else some (record c' { status = Status.connected; closed = c.closed + 1 })))
    else (if is_disconnected c.status then some c else none)

pub handle_error : Connector → Connector
unfolding remove_and_reset_channel retry
handle_error c = if is_connecting c.status then retry (remove_and_reset_channel c) else c

-- The timer calls `startInLoop` from a thread of its pool.
pub data Event : Type 0 where
  starts timer_fires : ConnectResult → Event
  writable : Bool → Bool → Event
  errors resets : Event

pub step : Connector → Event → Option Connector
unfolding start start_in_loop handle_write handle_error reset_channel
step c (Event.starts r) = start c r
step c (Event.timer_fires r) = start_in_loop false c r
step c (Event.writable err self_connect) = handle_write c err self_connect
step c Event.errors = some (handle_error c)
step c Event.resets = some (reset_channel c)

-- Every socket ever created is closed, handed over, or the one being connected.
abbrev pub Accounts : Connector → Type 0
Accounts c = c.opened ≡ c.closed + c.handed + (if is_connecting c.status then 1 else 0)

-- If every socket created so far is closed, handed over or the one being connected, none of them
-- twice, so it is after each event that fails no assertion.
pub step-Accounts : (c c' : Connector) (e : Event) → step c e ≡ some c' → Accounts c → Accounts c'
unfolding step
step-Accounts c c' (Event.starts ConnectResult.in_progress) h a = ground arith
step-Accounts c c' (Event.starts ConnectResult.try_again) h a = ground arith
step-Accounts c c' (Event.starts ConnectResult.gives_up) h a = ground arith
step-Accounts c c' (Event.timer_fires ConnectResult.in_progress) h a = ground arith
step-Accounts c c' (Event.timer_fires ConnectResult.try_again) h a = ground arith
step-Accounts c c' (Event.timer_fires ConnectResult.gives_up) h a = ground arith
step-Accounts c c' (Event.writable err self_connect) h a = ground arith
step-Accounts c c' Event.errors h a = ground arith
step-Accounts c c' Event.resets h a = ground arith

-- How an attempt fails: in `connect`, or later, when an event finds an error on the socket.
pub data Failure : Type 0 where
  refused found_error found_self_connect : Failure

-- `start`, and the events up to the failure, with the reset that waits in the loop's queue.
pub attempt : Failure → Connector → Option Connector
unfolding step
attempt Failure.refused c = step c (Event.starts ConnectResult.try_again)
attempt Failure.found_error c = do
  c1 ← step c (Event.starts ConnectResult.in_progress)
  c2 ← step c1 Event.errors
  step c2 Event.resets
attempt Failure.found_self_connect c = do
  c1 ← step c (Event.starts ConnectResult.in_progress)
  c2 ← step c1 (Event.writable false true)
  step c2 Event.resets

pub attempts : List Failure → Connector → Option Connector
unfolding attempt
attempts [] c = some c
attempts (f ∷ fs) c = do c' ← attempt f c; attempts fs c'

-- The delays from `delay` on, that many of them.
abbrev pub delays : ℕ → ℕ → List ℕ
delays zero delay = []
delays (suc k) delay = delay ∷ delays k (min (delay * 2) max_retry_delay_ms)
