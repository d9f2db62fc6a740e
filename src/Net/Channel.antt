-- ===== src/Net/Channel.antt =====
-- Channel.cpp and Channel.h: the mask of the events a channel waits for, the callbacks that a poll's
-- result runs, and the calls that pass the mask on to the poller. The flags are bits of a number,
-- at the places Linux's <poll.h> gives them. A callback is named by its kind.
pub mod Watching
use mutty.Common.{
  ℕ, ◌+◌, ◌-◌, ◌/◌, ◌%◌, ◌^◌, Bool, true, false, not, ◌&&◌, ◌||◌, Option, none, some, List, [], ◌∷◌,
  ◌++◌, ◌==◌, if◌then◌else◌,
}
use mutty.Net.Poller.{Epoll, Channel, Poller, update_channel, remove_channel}

-- The places of `POLLIN`, `POLLPRI`, `POLLOUT`, `POLLERR`, `POLLHUP`, `POLLNVAL` and `POLLRDHUP`
abbrev pub pollin : ℕ
pollin = 0

abbrev pub pollpri : ℕ
pollpri = 1

abbrev pub pollout : ℕ
pollout = 2

abbrev pub pollerr : ℕ
pollerr = 3

abbrev pub pollhup : ℕ
pollhup = 4

abbrev pub pollnval : ℕ
pollnval = 5

abbrev pub pollrdhup : ℕ
pollrdhup = 13

-- `word & flag`, as a condition
unfoldable pub has_flag : ℕ → ℕ → Bool
has_flag word place = word / 2 ^ place % 2 == 1

-- `word |= flag`
pub set_flag : ℕ → ℕ → ℕ
unfolding has_flag
set_flag word place = if has_flag word place then word else word + 2 ^ place

-- `word &= ~flag`
pub clear_flag : ℕ → ℕ → ℕ
unfolding has_flag
clear_flag word place = if has_flag word place then word - 2 ^ place else word

-- `events_` after `|= kReadEvent` and the like
pub or_read_event : ℕ → ℕ
unfolding set_flag
or_read_event events = set_flag (set_flag events pollin) pollpri

pub and_not_read_event : ℕ → ℕ
unfolding clear_flag
and_not_read_event events = clear_flag (clear_flag events pollin) pollpri

pub or_write_event : ℕ → ℕ
unfolding set_flag
or_write_event events = set_flag events pollout

pub and_not_write_event : ℕ → ℕ
unfolding clear_flag
and_not_write_event events = clear_flag events pollout

pub is_writing : Channel → Bool
unfolding has_flag
is_writing c = has_flag c.events pollout

pub is_reading : Channel → Bool
unfolding has_flag
is_reading c = has_flag c.events pollin || has_flag c.events pollpri

pub is_none_event : Channel → Bool
is_none_event c = c.events == 0

-- The calls that change the mask.
pub data Request : Type 0 where
  enable_reading disable_reading enable_writing disable_writing disable_all : Request

pub requested : Request → ℕ → ℕ
unfolding or_read_event and_not_read_event or_write_event and_not_write_event
requested enable_reading events = or_read_event events
requested disable_reading events = and_not_read_event events
requested enable_writing events = or_write_event events
requested disable_writing events = and_not_write_event events
requested disable_all events = 0

module _ (e : Epoll) where
  -- The call on a channel of this loop in the loop's thread: the mask, then `update()`, which is
  -- `EventLoop::updateChannel`. `none` is a failed assertion.
  pub request : Request → Poller e × Channel → Option (Poller e × Channel)
  unfolding requested
  request r (p, c) = update_channel e p (record c { events = requested r c.events })

  pub requests : List Request → Poller e × Channel → Option (Poller e × Channel)
  unfolding request
  requests [] s = some s
  requests (r ∷ rs) s = elim (request r s) [ none ↦ none | some t ↦ requests rs t ]

  -- `remove()`, outside the handling of events
  pub remove : Poller e × Channel → Option (Poller e × Channel)
  unfolding is_none_event
  remove (p, c) = if is_none_event c then remove_channel e p c else none

pub data Callback : Type 0 where
  close_callback error_callback read_callback write_callback : Callback

-- Which callbacks are set.
pub record Callbacks : Type 0 where
  pub read : Bool
  pub write : Bool
  pub close : Bool
  pub error : Bool

abbrev pub called_if : Bool → Callback → List Callback
called_if true k = k ∷ []
called_if false k = []

-- The four conditions of `handleEventWithGuard`, each with the test that its callback is set.
pub calls_close : Callbacks → ℕ → Bool
unfolding has_flag
calls_close set revents = has_flag revents pollhup && not (has_flag revents pollin) && set.close

pub calls_error : Callbacks → ℕ → Bool
unfolding has_flag
calls_error set revents = (has_flag revents pollerr || has_flag revents pollnval) && set.error

pub calls_read : Callbacks → ℕ → Bool
unfolding has_flag
calls_read set revents =
    (has_flag revents pollin || has_flag revents pollpri || has_flag revents pollrdhup) && set.read

pub calls_write : Callbacks → ℕ → Bool
unfolding has_flag
calls_write set revents = has_flag revents pollout && set.write

-- `handleEventWithGuard`: the callbacks it calls, in order.
pub handle_event_with_guard : Callbacks → ℕ → List Callback
unfolding calls_close calls_error calls_read calls_write
handle_event_with_guard set revents =
    called_if (calls_close set revents) close_callback
    ++ (called_if (calls_error set revents) error_callback
        ++ (called_if (calls_read set revents) read_callback
            ++ called_if (calls_write set revents) write_callback))

-- `tie_` and `tied_`: not tied, or tied to an owner which lives or is gone.
pub data Tie : Type 0 where
  untied : Tie
  tied : (alive : Bool) → Tie

pub handle_event : Tie → Callbacks → ℕ → List Callback
unfolding handle_event_with_guard
handle_event (tied true) set revents = handle_event_with_guard set revents
handle_event (tied false) set revents = []
handle_event untied set revents = handle_event_with_guard set revents
