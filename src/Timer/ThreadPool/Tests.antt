-- ===== src/Timer/ThreadPool/Tests.antt =====
-- Executions of small pools (timer/thread_pool/ThreadPool.cc).
use mutty.Common.{tally, ◌+◌, ◌≤◌, ◌≡◌, refl, true, false, none, List, [], ◌∷◌, arith, length}
use mutty.Timer.ThreadPool.{
  Worker, looping, asleep, notified, exited, nobody, pushing, ThreadPool, start, lock, take, check,
  leave, advance, moved, work, add_task, test_started, push, wake, wake_one, stop, notify_all,
  sleeper, works, adds, tests, pushes, pushes_for, stops, notifies, Reach, begins, later,
}
use mutty.Timer.ThreadPool.Counts.{at_notified, at_holding}
use mutty.Timer.ThreadPool.Invariant.{Reach-woken}
use mutty.Timer.ThreadPool.Finished.{Reach-finished}

abbrev idle_pool : List Worker → ThreadPool
idle_pool workers = record {
  started = true;
  tasks = [];
  workers = workers;
  held = false;
  adding = nobody;
  accepted = [];
  taken = [];
  late = false;
}

-- Two threads go to sleep before the first task comes.
first_sleeps : Reach 2 (idle_pool (asleep ∷ looping ∷ []))
unfolding start work advance check lock take moved
first_sleeps =
    let entered = later begins (works 0 (omega arith) refl) in
    let locked = later entered (works 0 (omega arith) refl) in
    later (later locked (works 0 (omega arith) refl)) (works 0 (omega arith) refl)

both_sleep : Reach 2 (idle_pool (asleep ∷ asleep ∷ []))
unfolding work advance check lock take moved
both_sleep =
    let entered = later first_sleeps (works 1 (omega arith) refl) in
    let locked = later entered (works 1 (omega arith) refl) in
    later (later locked (works 1 (omega arith) refl)) (works 1 (omega arith) refl)

-- Task 7 wakes the first of them.
abbrev one_woken : ThreadPool
one_woken = record (idle_pool (notified ∷ asleep ∷ [])) { tasks = 7 ∷ []; accepted = 7 ∷ [] }

one_woken-Reach : Reach 2 one_woken
unfolding add_task test_started push wake_one
one_woken-Reach =
    let locked = later both_sleep (adds 7 refl) in
    later (later locked (tests 7 refl)) (pushes_for 7 0 refl (omega arith) refl)

Reach-woken_example :
    length one_woken.tasks
    ≤ tally at_notified one_woken.workers + tally at_holding one_woken.workers
Reach-woken_example = Reach-woken one_woken-Reach (omega arith)

-- A thread takes task 7, `stop` begins meanwhile, and the thread ends.
abbrev ended : ThreadPool
ended = record (idle_pool (exited ∷ [])) { started = false; accepted = 7 ∷ []; taken = 7 ∷ [] }

-- Task 7 has passed the test of `addTask`.
passed-Reach : Reach 1 (record (idle_pool (looping ∷ [])) { held = true; adding = pushing 7 })
unfolding start add_task test_started
passed-Reach = later (later begins (adds 7 refl)) (tests 7 refl)

ended-Reach : Reach 1 ended
unfolding work advance check leave lock take moved push stop sleeper
ended-Reach =
    let pushed = later passed-Reach (pushes 7 refl refl) in
    let entered = later pushed (works 0 (omega arith) refl) in
    let locked = later entered (works 0 (omega arith) refl) in
    let took = later (later locked (works 0 (omega arith) refl)) stops in
    let ran = later took (works 0 (omega arith) refl) in
    later (later ran (works 0 (omega arith) refl)) (works 0 (omega arith) refl)

Reach-finished_example : ended.taken ≡ ended.accepted
Reach-finished_example = Reach-finished ended-Reach (omega arith) refl

-- `stop` begins between the test and the push of `addTask`: the thread ends, and task 7 is left.
left_over : Reach 1 (record (idle_pool (exited ∷ [])) {
  started = false;
  tasks = 7 ∷ [];
  accepted = 7 ∷ [];
  late = true;
})
unfolding work advance check leave moved push stop sleeper
left_over =
    let stopping = later passed-Reach stops in
    let leaves = later stopping (works 0 (omega arith) refl) in
    later (later leaves (works 0 (omega arith) refl)) (pushes 7 refl refl)

-- `stop` comes between the test of `take` and its `wait`: the thread goes to sleep after the
-- broadcast, and has no step of its own.
never_woken :
    let s = record (idle_pool (asleep ∷ [])) { started = false } in Reach 1 s × (work 0 s ≡ none)
unfolding start work advance check lock take moved stop notify_all wake
never_woken =
    let entered = later begins (works 0 (omega arith) refl) in
    let locked = later entered (works 0 (omega arith) refl) in
    let tested = later locked (works 0 (omega arith) refl) in
    let told = later (later tested stops) (notifies refl) in
    (later told (works 0 (omega arith) refl), refl)
