-- ===== src/Timer/ThreadPool.antt =====
-- timer/thread_pool/ThreadPool.cc: the pool's threads, those that add tasks and the one that stops the
-- pool, as steps in any order. What a thread does between `lock` and `unlock` is one step where it
-- reads `m_isStarted` at most once, since `stop` writes that without the mutex. The mutex and the
-- condition variable are the standard library's: a lock waits until nobody has the mutex, `wait` gives
-- it up and sleeps, and a sleeping thread may be woken for no reason.
pub mod Counts
pub mod Places
pub mod Invariant
mod Finished
mod Tests
use mutty.Common.{
  ℕ, ◌≡◌, Bool, true, false, not, ◌||◌, Option, none, some, List, [], ◌∷◌, ◌++◌, ◌<◌, ◌>>=◌,
  if◌then◌else◌, length, get_or, set, map, replicate,
}

-- Where a thread of the pool is.
pub data Worker : Type 0 where
  -- In `threadLoop`, before the test of `m_isStarted`, and of `m_tasks` after that was false.
  looping leaving : Worker
  -- In `take`: before the lock; with the mutex, before the loop's test, and before `wait`.
  entering holding committed : Worker
  -- In `wait`: asleep, or woken and about to lock again.
  asleep notified : Worker
  running : ℕ → Worker
  exited : Worker

-- The thread in `addTask`, if there is one: with the mutex, before the test, or before the push.
pub data Adder : Type 0 where
  nobody : Adder
  testing pushing : ℕ → Adder

pub record ThreadPool : Type 0 where
  -- `m_isStarted`, `m_tasks`, `m_threads`, and whether `m_mutex` is locked
  pub started : Bool
  pub tasks : List ℕ
  pub workers : List Worker
  pub held : Bool
  pub adding : Adder
  -- The tasks pushed and those taken so far, and whether one was pushed after `stop` began.
  pub accepted : List ℕ
  pub taken : List ℕ
  pub late : Bool

-- `start`
pub start : ℕ → ThreadPool
start init_size = record {
  started = true;
  tasks = [];
  workers = replicate init_size looping;
  held = false;
  adding = nobody;
  accepted = [];
  taken = [];
  late = false;
}

-- The lock of `take`, which waits while the mutex is held.
pub lock : ThreadPool → Option (Worker × ThreadPool)
lock s = if s.held then none else some (holding, record s { held = true })

-- `take` with the mutex: the test of its loop, and the rest of it where the test fails.
pub take : ThreadPool → List ℕ → Option (Worker × ThreadPool)
take s [] = if s.started then some (committed, s) else some (looping, record s { held = false })
take s (task ∷ tasks) =
    some (running task, record s { held = false; tasks = tasks; taken = s.taken ++ task ∷ [] })

-- `threadLoop`'s test: `m_isStarted`, and after that was false `m_tasks.empty()`
pub check : Bool → Worker
check true = entering
check false = leaving

pub leave : List ℕ → Worker
leave [] = exited
leave (task ∷ tasks) = entering

-- A thread's next step; `none` is a thread that waits, or has ended.
pub advance : Worker → ThreadPool → Option (Worker × ThreadPool)
unfolding lock take check leave
advance looping s = some (check s.started, s)
advance leaving s = some (leave s.tasks, s)
advance entering s = lock s
advance notified s = lock s
advance holding s = take s s.tasks
advance committed s = some (asleep, record s { held = false })
advance asleep s = none
advance (running task) s = some (looping, s)
advance exited s = none

pub moved : List Worker → ℕ → Worker × ThreadPool → Option ThreadPool
moved workers i (w, s) = some (record s { workers = set workers i w })

pub work : ℕ → ThreadPool → Option ThreadPool
unfolding advance moved
work i s = advance (get_or s.workers i exited) s >>= moved s.workers i

-- `addTask`: the lock, the test, and the push.
pub add_task : ℕ → ThreadPool → Option ThreadPool
add_task task s = if s.held then none else some (record s { held = true; adding = testing task })

pub test_started : ℕ → ThreadPool → ThreadPool
test_started task s =
    if s.started
    then record s { adding = pushing task }
    else record s { held = false; adding = nobody }

pub push : ℕ → ThreadPool → ThreadPool
push task s = record s {
  held = false;
  adding = nobody;
  tasks = s.tasks ++ task ∷ [];
  accepted = s.accepted ++ task ∷ [];
  late = s.late || not s.started;
}

pub wake : Worker → Worker
wake asleep = notified
wake w = w

-- A thread that sleeps is woken: by `notify_one`, or for no reason.
pub wake_one : ℕ → ThreadPool → ThreadPool
wake_one i s = record s { workers = set s.workers i notified }

-- `stop`: the flag is cleared, and then all are woken.
pub stop : ThreadPool → ThreadPool
stop s = record s { started = false }

pub notify_all : ThreadPool → ThreadPool
unfolding wake
notify_all s = record s { workers = map wake s.workers }

-- Some worker sleeps.
pub sleeper : List Worker → Bool
sleeper [] = false
sleeper (asleep ∷ ws) = true
sleeper (w ∷ ws) = sleeper ws

pub data Step (s : ThreadPool) : ThreadPool → Type 0 where
  works : {t : ThreadPool} (i : ℕ) → i < length s.workers → work i s ≡ some t → Step s t
  adds : {t : ThreadPool} (task : ℕ) → add_task task s ≡ some t → Step s t
  tests : (task : ℕ) → s.adding ≡ testing task → Step s (test_started task s)
  -- `notify_one` wakes one of those that sleep, if any does.
  pushes : (task : ℕ) → s.adding ≡ pushing task → sleeper s.workers ≡ false → Step s (push task s)
  pushes_for :
      (task i : ℕ)
      → s.adding ≡ pushing task
      → i < length s.workers
      → get_or s.workers i exited ≡ asleep
      → Step s (wake_one i (push task s))
  wakes :
      (i : ℕ) → i < length s.workers → get_or s.workers i exited ≡ asleep → Step s (wake_one i s)
  stops : Step s (stop s)
  notifies : s.started ≡ false → Step s (notify_all s)

pub data Reach (init_size : ℕ) : ThreadPool → Type 0 where
  begins : Reach init_size (start init_size)
  later : {s t : ThreadPool} → Reach init_size s → Step s t → Reach init_size t
