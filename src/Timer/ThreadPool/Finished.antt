-- ===== src/Timer/ThreadPool/Finished.antt =====
-- What has become of the tasks of timer/thread_pool/ThreadPool.cc when its threads have ended.
use mutty.Common.{
  tally, ℕ, ◌<◌, ◌≡◌, refl, sym, ap, ◌∙◌, false, Bool-cases, inl, inr, List, [], ◌∷◌, ◌++◌, OnSome,
  OnSome-some, OnSome-bind, arith, length, get_or,
}
use mathlib.Core.List.{append_assoc, append-nil}
use mutty.Timer.ThreadPool.{
  Worker, looping, leaving, entering, holding, committed, asleep, notified, running, exited,
  ThreadPool, start, lock, take, advance, moved, work, add_task, test_started, push, wake_one, stop,
  notify_all, Step, works, adds, tests, pushes, pushes_for, wakes, stops, notifies, Reach, begins,
  later,
}
use mutty.Timer.ThreadPool.Counts.{at_exited}
use mutty.Timer.ThreadPool.Invariant.{Reach-Inv}

-- The tasks pushed are those taken, in order, and then those that wait.
abbrev pub IsKept : ThreadPool → Type 0
IsKept s = s.accepted ≡ s.taken ++ s.tasks

abbrev KeptAfter : Worker × ThreadPool → Type 0
KeptAfter r = IsKept r.1

lock-IsKept : (s : ThreadPool) → IsKept s → OnSome KeptAfter (lock s)
unfolding lock
lock-IsKept s h = elim (Bool-cases s.held) [ inl e ↦ rw e tt | inr e ↦ rw e h ]

take-IsKept :
    (s : ThreadPool) (tasks : List ℕ) → s.tasks ≡ tasks → IsKept s → OnSome KeptAfter (take s tasks)
unfolding take
take-IsKept s [] e h = elim (Bool-cases s.started) [ inl on ↦ rw on h | inr off ↦ rw off h ]
take-IsKept s (task ∷ tasks) e h =
    h ∙ ap (λ (t : List ℕ). s.taken ++ t) e ∙ sym (append_assoc s.taken (task ∷ []) tasks)

advance-IsKept : (s : ThreadPool) (w : Worker) → IsKept s → OnSome KeptAfter (advance w s)
unfolding advance
advance-IsKept s looping h = h
advance-IsKept s leaving h = h
advance-IsKept s entering h = lock-IsKept s h
advance-IsKept s holding h = take-IsKept s s.tasks refl h
advance-IsKept s committed h = h
advance-IsKept s asleep h = tt
advance-IsKept s notified h = lock-IsKept s h
advance-IsKept s (running task) h = h
advance-IsKept s exited h = tt

work-IsKept : (s : ThreadPool) (i : ℕ) → IsKept s → OnSome IsKept (work i s)
unfolding work moved
work-IsKept s i h =
    let w = get_or s.workers i exited in
    OnSome-bind KeptAfter IsKept (advance w s) (moved s.workers i) (advance-IsKept s w h)
      (λ (v, t) k. k)

add_task-IsKept : (s : ThreadPool) (task : ℕ) → IsKept s → OnSome IsKept (add_task task s)
unfolding add_task
add_task-IsKept s task h = elim (Bool-cases s.held) [ inl e ↦ rw e tt | inr e ↦ rw e h ]

push-IsKept : (s : ThreadPool) (task : ℕ) → IsKept s → IsKept (push task s)
unfolding push
push-IsKept s task h =
    ap (λ (t : List ℕ). t ++ task ∷ []) h ∙ append_assoc s.taken s.tasks (task ∷ [])

Step-IsKept : {s t : ThreadPool} → IsKept s → Step s t → IsKept t
unfolding test_started wake_one stop notify_all
Step-IsKept {s} {t} h (works i l e) = OnSome-some IsKept (work i s) t (work-IsKept s i h) e
Step-IsKept {s} {t} h (adds task e) =
    OnSome-some IsKept (add_task task s) t (add_task-IsKept s task h) e
Step-IsKept {s} h (tests task e) = elim (Bool-cases s.started) [
  | inl on ↦ rw on h
  | inr off ↦ rw off h
]
Step-IsKept {s} h (pushes task e no_sleeper) = push-IsKept s task h
Step-IsKept {s} h (pushes_for task i e l at) = push-IsKept s task h
Step-IsKept h (wakes i l at) = h
Step-IsKept h stops = h
Step-IsKept h (notifies off) = h

pub Reach-IsKept : {n : ℕ} {s : ThreadPool} → Reach n s → IsKept s
unfolding start
Reach-IsKept begins = refl
Reach-IsKept (later r st) = Step-IsKept (Reach-IsKept r) st

no_tasks : (tasks : List ℕ) → length tasks ≡ 0 → tasks ≡ []
no_tasks [] e = refl
no_tasks (task ∷ tasks) e = absurd (omega (arith, e))

-- When a thread of the pool has ended and no task was pushed after `stop` began, the tasks that
-- `addTask` pushed have been taken by the pool's threads, each once and in order, and none is left.
pub Reach-finished :
    {n : ℕ} {s : ThreadPool}
    → Reach n s
    → 0 < tally at_exited s.workers
    → s.late ≡ false
    → s.taken ≡ s.accepted
Reach-finished {s = s} r ended on_time =
    let left = no_tasks s.tasks ((Reach-Inv r).done ended on_time) in
    sym (Reach-IsKept r ∙ ap (λ (t : List ℕ). s.taken ++ t) left ∙ append-nil s.taken)
