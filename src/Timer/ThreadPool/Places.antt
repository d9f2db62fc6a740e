-- ===== src/Timer/ThreadPool/Places.antt =====
-- What holds of the places of the pool's threads (timer/thread_pool/ThreadPool.cc), and that each step
-- of `threadLoop` and `take` keeps it.
use mutty.Common.{
  tally, tally-set, ℕ, ◌+◌, ◌≤◌, ◌<◌, ◌≡◌, refl, sym, ap, ◌∙◌, Bool, true, false, Bool-cases, inl,
  inr, List, [], ◌∷◌, OnSome, OnSome-bind, arith, length, get_or, set, if◌then◌else◌,
}
use native.Mathlib.Decide.{dec_lt}
use mutty.Timer.ThreadPool.{
  Worker, looping, leaving, entering, holding, committed, asleep, notified, running, exited, Adder,
  nobody, ThreadPool, lock, take, check, leave, advance, moved, work,
}
use mutty.Timer.ThreadPool.Counts.{
  at_holding, at_committed, at_asleep, at_notified, at_leaving, at_exited,
}

abbrev pub in_add_task : Adder → ℕ
in_add_task nobody = 0
in_add_task a = 1

-- What the threads' places say about the pool's fields.
pub record Inv (s : ThreadPool) : Type 0 where
  pub mutex :
      tally at_holding s.workers + tally at_committed s.workers + in_add_task s.adding
      ≡ (if s.held then 1 else 0)
  pub waits : 0 < tally at_committed s.workers → length s.tasks ≡ 0
  pub woken :
      0 < tally at_asleep s.workers
      → length s.tasks ≤ tally at_notified s.workers + tally at_holding s.workers
  pub over : 0 < tally at_leaving s.workers + tally at_exited s.workers → s.started ≡ false
  pub done : 0 < tally at_exited s.workers → s.late ≡ false → length s.tasks ≡ 0

-- What `advance` makes of a worker at `i`.
abbrev pub After : List Worker → ℕ → Worker × ThreadPool → Type 0
After ws i (w, t) = Inv (record t { workers = set ws i w })

-- A change of the place `f` when the thread at `i` goes from `old` to `new`.
abbrev pub Shift : List Worker → ℕ → Worker → Worker → (Worker → ℕ) → Type 0
Shift ws i old new f = tally f (set ws i new) + f old ≡ tally f ws + f new

pub record Shifts (ws : List Worker) (i : ℕ) (old new : Worker) : Type 0 where
  pub of_holding : Shift ws i old new at_holding
  pub of_committed : Shift ws i old new at_committed
  pub of_asleep : Shift ws i old new at_asleep
  pub of_notified : Shift ws i old new at_notified
  pub of_leaving : Shift ws i old new at_leaving
  pub of_exited : Shift ws i old new at_exited

pub shifts :
    (ws : List Worker) (i : ℕ) (old new : Worker)
    → i < length ws
    → get_or ws i exited ≡ old
    → Shifts ws i old new
shifts ws i old new l e = record {
  of_holding = tally-set at_holding ws i exited old new l e;
  of_committed = tally-set at_committed ws i exited old new l e;
  of_asleep = tally-set at_asleep ws i exited old new l e;
  of_notified = tally-set at_notified ws i exited old new l e;
  of_leaving = tally-set at_leaving ws i exited old new l e;
  of_exited = tally-set at_exited ws i exited old new l e;
}

-- Mutual exclusion: one thread at most is between `lock` and `unlock`.
pub at_most_one :
    (s : ThreadPool)
    → Inv s
    → tally at_holding s.workers + tally at_committed s.workers + in_add_task s.adding ≤ 1
at_most_one s h = elim (Bool-cases s.held) [
  | inl e ↦ let m = rw e at h.mutex in omega (arith, m)
  | inr e ↦ let m = rw e at h.mutex in omega (arith, m)
]

-- A thread that takes the mutex, after `lock` or `wait`.
lock-Inv :
    (s : ThreadPool) (i : ℕ) (old : Worker)
    → Shifts s.workers i old holding
    → at_holding old + at_committed old + at_asleep old + at_leaving old + at_exited old ≡ 0
    → at_notified old ≤ 1
    → Inv s
    → OnSome (After s.workers i) (lock s)
unfolding lock
lock-Inv s i old c outside one h = elim (Bool-cases s.held) [
  | inl locked ↦ rw locked tt
  | inr free ↦
      let none_in = rw free at h.mutex in
      rw free (record {
        mutex = omega (arith, none_in, outside, c.of_holding, c.of_committed);
        waits = λ l. absurd (omega (arith, l, none_in, outside, c.of_committed));
        woken = λ l. omega (
          arith,
          h.woken (omega (arith, l, outside, c.of_asleep)),
          one,
          outside,
          c.of_holding,
          c.of_notified,
        );
        over = λ l. h.over (omega (arith, l, outside, c.of_leaving, c.of_exited));
        done = λ l late. h.done (omega (arith, l, outside, c.of_exited)) late;
      })
]

-- A thread that goes between places that no other thread looks at.
plain-Inv :
    (s : ThreadPool) (i : ℕ) (old new : Worker)
    → Shifts s.workers i old new
    → at_holding old + at_committed old + at_asleep old + at_notified old ≡ 0
    → at_holding new + at_committed new + at_asleep new + at_notified new ≡ 0
    → (0 < at_leaving new + at_exited new → s.started ≡ false)
    → (0 < at_exited new → length s.tasks ≡ 0)
    → Inv s
    → After s.workers i (new, s)
plain-Inv s i old new c before after over done h = record {
  mutex = omega (arith, h.mutex, before, after, c.of_holding, c.of_committed);
  waits = λ l. h.waits (omega (arith, l, before, after, c.of_committed));
  woken = λ l. omega (
    arith,
    h.woken (omega (arith, l, before, after, c.of_asleep)),
    before,
    after,
    c.of_holding,
    c.of_notified,
  );
  over = λ l. elim (dec_lt 0 (at_leaving new + at_exited new)) [
    | yes here ↦ over here
    | no elsewhere ↦ h.over (omega (arith, l, elsewhere, c.of_leaving, c.of_exited))
  ];
  done = λ l late. elim (dec_lt 0 (at_exited new)) [
    | yes here ↦ done here
    | no elsewhere ↦ h.done (omega (arith, l, elsewhere, c.of_exited)) late
  ];
}

take-Inv :
    (s : ThreadPool) (i : ℕ)
    → ((new : Worker) → Shifts s.workers i holding new)
    → (tasks : List ℕ) → s.tasks ≡ tasks
    → Inv s
    → OnSome (After s.workers i) (take s tasks)
unfolding take
take-Inv s i c [] e h = elim (Bool-cases s.started) [
  | inl on ↦
      let d = c committed in
      rw on (record {
        mutex = omega (arith, h.mutex, d.of_holding, d.of_committed);
        waits = λ l. omega (arith, ap length e);
        woken = λ l. omega (arith, ap length e);
        over = λ l. sym on ∙ h.over (omega (arith, l, d.of_leaving, d.of_exited));
        done = λ l late. omega (arith, ap length e);
      })
  | inr off ↦
      let d = c looping in
      rw off (record {
        mutex = omega (arith, at_most_one s h, d.of_holding, d.of_committed);
        waits = λ l. omega (arith, ap length e);
        woken = λ l. omega (arith, ap length e);
        over = λ l. refl;
        done = λ l late. omega (arith, ap length e);
      })
]
take-Inv s i c (task ∷ tasks) e h =
    let d = c (running task) in
    record {
      mutex = omega (arith, at_most_one s h, d.of_holding, d.of_committed);
      waits = λ l. absurd (omega (arith, l, at_most_one s h, d.of_holding, d.of_committed));
      woken = λ l. omega (
        arith,
        ap length e,
        h.woken (omega (arith, l, d.of_asleep)),
        d.of_holding,
        d.of_notified,
      );
      over = λ l. h.over (omega (arith, l, d.of_leaving, d.of_exited));
      done = λ l late. omega (arith, ap length e, h.done (omega (arith, l, d.of_exited)) late);
    }

check-Inv :
    (s : ThreadPool) (i : ℕ) (b : Bool)
    → ((new : Worker) → Shifts s.workers i looping new)
    → s.started ≡ b
    → Inv s
    → After s.workers i (check b, s)
unfolding check
check-Inv s i true c e h =
    plain-Inv s i looping entering (c entering) refl refl (λ l. absurd (omega (arith, l)))
      (λ l. absurd (omega (arith, l))) h
check-Inv s i false c e h =
    plain-Inv s i looping leaving (c leaving) refl refl (λ _. e) (λ l. absurd (omega (arith, l))) h

leave-Inv :
    (s : ThreadPool) (i : ℕ) (tasks : List ℕ)
    → ((new : Worker) → Shifts s.workers i leaving new)
    → s.tasks ≡ tasks
    → Inv s
    → After s.workers i (leave tasks, s)
unfolding leave
leave-Inv s i [] c e h =
    plain-Inv s i leaving exited (c exited) refl refl
      (λ _. h.over (omega (arith, (c exited).of_leaving))) (λ _. ap length e) h
leave-Inv s i (task ∷ tasks) c e h =
    plain-Inv s i leaving entering (c entering) refl refl (λ l. absurd (omega (arith, l)))
      (λ l. absurd (omega (arith, l))) h

advance-Inv :
    (s : ThreadPool) (i : ℕ) (old : Worker)
    → ((new : Worker) → Shifts s.workers i old new)
    → Inv s
    → OnSome (After s.workers i) (advance old s)
unfolding advance
advance-Inv s i looping c h = check-Inv s i s.started c refl h
advance-Inv s i leaving c h = leave-Inv s i s.tasks c refl h
advance-Inv s i entering c h = lock-Inv s i entering (c holding) refl (omega arith) h
advance-Inv s i notified c h = lock-Inv s i notified (c holding) refl (omega arith) h
advance-Inv s i holding c h = take-Inv s i c s.tasks refl h
advance-Inv s i committed c h =
    let d = c asleep in
    record {
      mutex = omega (arith, at_most_one s h, d.of_holding, d.of_committed);
      waits = λ l. h.waits (omega (arith, l, d.of_committed));
      woken = λ l. omega (arith, h.waits (omega (arith, d.of_committed)));
      over = λ l. h.over (omega (arith, l, d.of_leaving, d.of_exited));
      done = λ l late. h.done (omega (arith, l, d.of_exited)) late;
    }
advance-Inv s i asleep c h = tt
advance-Inv s i (running task) c h =
    plain-Inv s i (running task) looping (c looping) refl refl (λ l. absurd (omega (arith, l)))
      (λ l. absurd (omega (arith, l))) h
advance-Inv s i exited c h = tt

pub work-Inv : (s : ThreadPool) (i : ℕ) → i < length s.workers → Inv s → OnSome Inv (work i s)
unfolding work moved
work-Inv s i l h =
    let old = get_or s.workers i exited in
    OnSome-bind (After s.workers i) Inv (advance old s) (moved s.workers i)
      (advance-Inv s i old (λ new. shifts s.workers i old new l refl) h) (λ (w, t) k. k)
