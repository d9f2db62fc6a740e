-- ===== src/Timer/ThreadPool/Invariant.antt =====
-- What every reachable state of the pool (timer/thread_pool/ThreadPool.cc) has.
use mutty.Common.{
  tally, tally-replicate, ℕ, ◌+◌, ◌≤◌, ◌<◌, ◌≡◌, refl, sym, ap, ◌∙◌, false, not, ◌||◌, Bool-cases,
  inl, inr, [], ◌∷◌, OnSome, OnSome-some, arith, length, length-append,
}
use mutty.Timer.ThreadPool.{
  looping, asleep, notified, testing, pushing, ThreadPool, start, work, add_task, test_started,
  push, wake_one, stop, notify_all, sleeper, Step, works, adds, tests, pushes, pushes_for, wakes,
  stops, notifies, Reach, begins, later,
}
use mutty.Timer.ThreadPool.Counts.{
  tally-wake, at_holding, at_committed, at_asleep, at_notified, at_leaving, at_exited, none_asleep,
  sleeper-tally,
}
use mutty.Timer.ThreadPool.Places.{Inv, in_add_task, Shifts, shifts, at_most_one, work-Inv}

add_task-Inv : (s : ThreadPool) (task : ℕ) → Inv s → OnSome Inv (add_task task s)
unfolding add_task
add_task-Inv s task h = elim (Bool-cases s.held) [
  | inl locked ↦ rw locked tt
  | inr free ↦
      let none_in = rw free at h.mutex in
      rw free (record {
        mutex = omega (arith, none_in);
        waits = h.waits;
        woken = h.woken;
        over = h.over;
        done = h.done;
      })
]

test_started-Inv :
    (s : ThreadPool) (task : ℕ) → s.adding ≡ testing task → Inv s → Inv (test_started task s)
unfolding test_started
test_started-Inv s task e h =
    let one = at_most_one s h in
    elim (Bool-cases s.started) [
      | inl on ↦ rw on (record {
        mutex = omega (arith, ap in_add_task e, h.mutex);
        waits = h.waits;
        woken = h.woken;
        over = λ l. sym on ∙ h.over l;
        done = h.done;
      })
      | inr off ↦ rw off (record {
        mutex = omega (arith, ap in_add_task e, one);
        waits = h.waits;
        woken = h.woken;
        over = λ l. refl;
        done = h.done;
      })
    ]

late_push : (s : ThreadPool) → s.started ≡ false → (s.late || not s.started) ≡ false → 0 < 0
late_push s e late = ground (arith, e, late)

push-Inv :
    (s : ThreadPool) (task : ℕ)
    → s.adding ≡ pushing task
    → sleeper s.workers ≡ false
    → Inv s
    → Inv (push task s)
unfolding push
push-Inv s task e no_sleeper h =
    let one = at_most_one s h in
    record {
      mutex = omega (arith, ap in_add_task e, one);
      waits = λ l. absurd (omega (arith, l, ap in_add_task e, one));
      woken = λ l. absurd (omega (arith, l, sleeper-tally s.workers no_sleeper));
      over = h.over;
      done = λ l late. absurd (omega (arith, late_push s (h.over (omega (arith, l))) late));
    }

push_for-Inv :
    (s : ThreadPool) (task i : ℕ)
    → s.adding ≡ pushing task
    → Shifts s.workers i asleep notified
    → Inv s
    → Inv (wake_one i (push task s))
unfolding push wake_one
push_for-Inv s task i e c h =
    let one = at_most_one s h in
    record {
      mutex = omega (arith, ap in_add_task e, one, c.of_holding, c.of_committed);
      waits = λ l. absurd (omega (arith, l, ap in_add_task e, one, c.of_committed));
      woken = λ l. omega (
        arith,
        h.woken (omega (arith, c.of_asleep)),
        length-append s.tasks (task ∷ []),
        c.of_holding,
        c.of_notified,
      );
      over = λ l. h.over (omega (arith, l, c.of_leaving, c.of_exited));
      done = λ l late.
          absurd (omega (arith, late_push s (h.over (omega (arith, l, c.of_exited))) late));
    }

wake_one-Inv :
    (s : ThreadPool) (i : ℕ) → Shifts s.workers i asleep notified → Inv s → Inv (wake_one i s)
unfolding wake_one
wake_one-Inv s i c h = record {
  mutex = omega (arith, h.mutex, c.of_holding, c.of_committed);
  waits = λ l. h.waits (omega (arith, l, c.of_committed));
  woken = λ l. omega (arith, h.woken (omega (arith, c.of_asleep)), c.of_holding, c.of_notified);
  over = λ l. h.over (omega (arith, l, c.of_leaving, c.of_exited));
  done = λ l late. h.done (omega (arith, l, c.of_exited)) late;
}

stop-Inv : (s : ThreadPool) → Inv s → Inv (stop s)
unfolding stop
stop-Inv s h = record {
  mutex = h.mutex;
  waits = h.waits;
  woken = h.woken;
  over = λ l. refl;
  done = h.done;
}

notify_all-Inv : (s : ThreadPool) → s.started ≡ false → Inv s → Inv (notify_all s)
unfolding notify_all
notify_all-Inv s off h =
    let m = tally-wake at_holding s.workers refl in
    let c = tally-wake at_committed s.workers refl in
    let x = tally-wake at_exited s.workers refl in
    record {
      mutex = omega (arith, h.mutex, m, c);
      waits = λ l. h.waits (omega (arith, l, c));
      woken = λ l. absurd (omega (arith, l, none_asleep s.workers));
      over = λ l. off;
      done = λ l late. h.done (omega (arith, l, x)) late;
    }

Step-Inv : {s t : ThreadPool} → Inv s → Step s t → Inv t
Step-Inv {s} {t} h (works i l e) = OnSome-some Inv (work i s) t (work-Inv s i l h) e
Step-Inv {s} {t} h (adds task e) = OnSome-some Inv (add_task task s) t (add_task-Inv s task h) e
Step-Inv {s} h (tests task e) = test_started-Inv s task e h
Step-Inv {s} h (pushes task e no_sleeper) = push-Inv s task e no_sleeper h
Step-Inv {s} h (pushes_for task i e l at) =
    push_for-Inv s task i e (shifts s.workers i asleep notified l at) h
Step-Inv {s} h (wakes i l at) = wake_one-Inv s i (shifts s.workers i asleep notified l at) h
Step-Inv {s} h stops = stop-Inv s h
Step-Inv {s} h (notifies off) = notify_all-Inv s off h

start-Inv : (n : ℕ) → Inv (start n)
unfolding start
start-Inv n = record {
  mutex = omega (
    arith,
    tally-replicate at_holding n looping refl,
    tally-replicate at_committed n looping refl,
  );
  waits = λ l. refl;
  woken = λ l. omega arith;
  over = λ l. absurd (
      omega (
        arith,
        l,
        tally-replicate at_leaving n looping refl,
        tally-replicate at_exited n looping refl,
      ));
  done = λ l late. refl;
}

pub Reach-Inv : {n : ℕ} {s : ThreadPool} → Reach n s → Inv s
Reach-Inv {n} begins = start-Inv n
Reach-Inv (later r st) = Step-Inv (Reach-Inv r) st

-- Whatever the interleaving: while a thread of the pool sleeps, at least as many others as there are
-- tasks have been woken, or have the mutex and are about to take one. So no task waits while all
-- sleep.
pub Reach-woken :
    {n : ℕ} {s : ThreadPool}
    → Reach n s
    → 0 < tally at_asleep s.workers
    → length s.tasks ≤ tally at_notified s.workers + tally at_holding s.workers
Reach-woken r = (Reach-Inv r).woken
