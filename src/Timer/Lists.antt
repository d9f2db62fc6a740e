-- ===== src/Timer/Lists.antt =====
-- timer/TimerTaskList.cc and timer/Timer.cc, in one thread. The buckets of a wheel are copies of one
-- list and share its root, so a wheel, counted from the finest, has one list of entries, each with
-- the bucket whose address is in its `list`. A task is named by a number; the thread pool and the
-- delay queue are what was handed to them, in order.
pub mod Waiting
pub mod Endless
pub mod Firing
pub mod Lone
mod Tests
use mutty.Common.{
  ℕ, zero, suc, Bool, true, false, not, ◌&&◌, Option, none, some, List, [], ◌∷◌, ◌++◌, ◌==◌,
  if◌then◌else◌,
}
use mutty.Timer.Timeval.{Timeval, sum}
use mutty.Timer.Wheel.{Wheel, Slot, add, advance_clock}

-- An entry of a list. It is cancelled if its task has got another entry since.
pub record Entry : Type 0 where
  pub task : ℕ
  pub expiration : Timeval
  pub cancelled : Bool
  pub bucket : ℕ

-- A bucket handed to the delay queue, with the time it is polled at.
pub record Offer : Type 0 where
  pub level : ℕ
  pub bucket : ℕ
  pub expiration : Timeval

pub record Timer : Type 0 where
  pub wheel_size : ℕ
  pub wheel : Wheel
  pub overflow_wheels : List Wheel
  -- The entries behind the root that the buckets of a wheel share.
  pub lists : ℕ → List Entry
  -- `m_expiration` of each wheel's buckets; none is a time that was never set, or -1.
  pub expirations : ℕ → ℕ → Option Timeval
  pub offers : List Offer
  pub submitted : List ℕ

abbrev pub update {ℓ} : {A : Type ℓ} → (ℕ → A) → ℕ → A → ℕ → A
update f k v j = if j == k then v else f j

-- `expiration != oriExpiration`
abbrev pub differs : Timeval → Option Timeval → Bool
differs expiration none = true
differs expiration (some old) = not (sum expiration == sum old)

-- `setExpiration`, with what it answers
pub set_expiration : Timer → ℕ → ℕ → Timeval → Timer × Bool
set_expiration t level bucket expiration = (
  record t {
    expirations =
        update t.expirations level (update (t.expirations level) bucket (some expiration));
  },
  differs expiration (t.expirations level bucket),
)

-- `TimerTaskList::add` of an entry that stands in no list
pub add_to_bucket : Timer → ℕ → ℕ → Entry → Timer
add_to_bucket t level bucket e = record t {
  lists = update t.lists level (t.lists level ++ record e { bucket = bucket } ∷ []);
}

-- The branch of `TimingWheel::add` that takes the entry.
pub put_in_slot : Timer → Slot → Entry → Timer
unfolding add_to_bucket set_expiration
put_in_slot t slot e =
    let (t', changed) =
      set_expiration (add_to_bucket t slot.level slot.bucket e) slot.level slot.bucket
        slot.starts in
    if changed
    then record t' {
      offers =
          t'.offers
          ++ record { level = slot.level; bucket = slot.bucket; expiration = e.expiration } ∷ [];
    }
    else t'

-- What becomes of an entry: a bucket has it, its task has gone to the thread pool and it is deleted,
-- or it is cancelled and dropped. `deeper` is a walk over more wheels than allowed for.
pub data Added : Type 0 where
  linked : Timer → Added
  submits : Timer → Added
  drops : Added
  deeper : Added

abbrev pub with_wheels : Timer → List Wheel → Timer
with_wheels t [] = t
with_wheels t (w ∷ ws) = record t { wheel = w; overflow_wheels = ws }

pub added_to : Timer → Entry → Option (List Wheel × Option Slot) → Added
unfolding put_in_slot
added_to t e none = deeper
added_to t e (some (ws, none)) =
    submits (record (with_wheels t ws) { submitted = t.submitted ++ e.task ∷ [] })
added_to t e (some (ws, some slot)) = linked (put_in_slot (with_wheels t ws) slot e)

-- `Timer::addTimerTaskEntry` of an entry that is in no list or leaves its list, for at most `depth`
-- wheels.
pub add_timer_task_entry : ℕ → Timer → Entry → Added
unfolding added_to
add_timer_task_entry depth t e =
    if e.cancelled
    then drops
    else added_to t e (add depth t.wheel_size t.wheel t.overflow_wheels e.expiration)

-- `Timer::add` of a new task
pub add_task : ℕ → Timer → ℕ → Timeval → Added
unfolding add_timer_task_entry
add_task depth t task expiration =
    add_timer_task_entry depth t
      (record { task = task; expiration = expiration; cancelled = false; bucket = 0 })

-- A flush: it has ended, it has had all the rounds allowed for, or it has deleted an entry that its
-- list still holds.
pub data Flushed : Type 0 where
  done : Timer → Flushed
  more : Timer → Flushed
  dangling : Timer → Flushed

-- What a round makes of the first entry, and whether `remove` took it off its list before: `remove`
-- does nothing to an entry of another bucket, `addTimerTaskEntry` moves it on or deletes it.
pub data Round : Type 0 where
  goes_on : Timer → Round
  deletes_linked : Timer → Round
  too_deep : Round

pub round_of : Timer → Timer → Bool → Added → Round
round_of t unlinked true (linked t') = goes_on t'
round_of t unlinked true (submits t') = goes_on t'
round_of t unlinked true drops = goes_on unlinked
round_of t unlinked false (linked t') = goes_on t'
round_of t unlinked false (submits t') = deletes_linked t'
round_of t unlinked false drops = goes_on t
round_of t unlinked removed deeper = too_deep

-- A round of the loop of `flush` of a bucket, with the first entry and the others.
pub flush_round : ℕ → ℕ → ℕ → Timer → Entry → List Entry → Round
unfolding round_of add_timer_task_entry
flush_round depth level bucket t head rest =
    let unlinked = record t { lists = update t.lists level rest } in
    round_of t unlinked (head.bucket == bucket) (add_timer_task_entry depth unlinked head)

-- `flush`, which sets the bucket's expiration to -1 at its end.
pub flush : ℕ → ℕ → ℕ → ℕ → Timer → Flushed
unfolding flush_round
flush zero depth level bucket t = more t
flush (suc fuel) depth level bucket t = elim (t.lists level) [
  | [] ↦ done (record t {
    expirations = update t.expirations level (update (t.expirations level) bucket none);
  })
  | head ∷ rest ↦ elim (flush_round depth level bucket t head rest) [
    | goes_on t' ↦ flush fuel depth level bucket t'
    | deletes_linked t' ↦ dangling t'
    | too_deep ↦ more t
  ]
]

-- `m_timingWheel->advanceClock(bucket->getExpiration())`; a time of -1 advances no clock.
pub advance_to : Timer → Option Timeval → Timer
advance_to t none = t
advance_to t (some expiration) =
    with_wheels t (advance_clock (t.wheel ∷ t.overflow_wheels) expiration)

-- `Timer::advanceClock`, with the buckets that the delay queue gives until it has none.
pub advance : ℕ → ℕ → Timer → List Offer → Flushed
unfolding advance_to flush
advance fuel depth t [] = done t
advance fuel depth t (o ∷ os) =
    elim (flush fuel depth o.level o.bucket (advance_to t (t.expirations o.level o.bucket))) [
      | done t' ↦ advance fuel depth t' os
      | more t' ↦ more t'
      | dangling t' ↦ dangling t'
    ]
