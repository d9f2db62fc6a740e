-- ===== src/Timer/Lists/Firing.antt =====
-- A flush of a bucket whose entries are due (timer/TimerTaskList.cc).
use mutty.Common.{
  ℕ, suc, ◌≡◌, refl, sym, ap, ◌∙◌, ◌≢◌, Bool, true, false, List, [], ◌∷◌, ◌++◌, ◌==◌, eq→==,
  ne→==_false, length,
}
use mathlib.Core.List.{append_assoc, append-nil}
use mutty.Timer.Timeval.{lt, plus}
use mutty.Timer.Wheel.{Wheel}
use mutty.Timer.Wheel.Branches.{add-now}
use mutty.Timer.Lists.{
  Entry, Timer, update, submits, added_to, add_timer_task_entry, done, goes_on, round_of,
  flush_round, flush,
}
use mutty.Timer.Lists.Waiting.{add_timer_task_entry-live}
use mutty.Timer.Lists.Endless.{flush-goes_on}

-- An entry of the bucket that is due by the wheel's next tick.
pub record IsDue (w : Wheel) (bucket : ℕ) (e : Entry) : Type 0 where
  pub own : e.bucket ≡ bucket
  pub live : e.cancelled ≡ false
  pub due : lt e.expiration (plus w.current_time w.tick_ms) ≡ true

abbrev pub AllDue : Wheel → ℕ → List Entry → Type 0
AllDue w bucket [] = Unit
AllDue w bucket (e ∷ es) = IsDue w bucket e × AllDue w bucket es

abbrev pub tasks : List Entry → List ℕ
tasks [] = []
tasks (e ∷ es) = e.task ∷ tasks es

-- The list of one wheel has gone to the thread pool, in order, and nothing else has changed.
pub record Fired (t : Timer) (level : ℕ) (es : List Entry) (t' : Timer) : Type 0 where
  pub ran : t'.submitted ≡ t.submitted ++ tasks es
  pub emptied : t'.lists level ≡ []
  pub others : (other : ℕ) → other ≢ level → t'.lists other ≡ t.lists other
  pub same :
      (t'.wheel ≡ t.wheel) × (t'.overflow_wheels ≡ t.overflow_wheels) × (t'.offers ≡ t.offers)

-- The timer without the first entry of a list, whose task has been submitted.
abbrev fire : ℕ → Timer → Entry → List Entry → Timer
fire level t head rest = record t {
  lists = update t.lists level rest;
  submitted = t.submitted ++ head.task ∷ [];
}

-- Adding an entry that is due submits its task.
add_timer_task_entry-due :
    (depth : ℕ) (t : Timer) (e : Entry)
    → e.cancelled ≡ false
    → lt e.expiration (plus t.wheel.current_time t.wheel.tick_ms) ≡ true
    → add_timer_task_entry (suc depth) t e
      ≡ submits (record t { submitted = t.submitted ++ e.task ∷ [] })
unfolding added_to
add_timer_task_entry-due depth t e live due =
    add_timer_task_entry-live (suc depth) t e live
    ∙ ap (added_to t e) (add-now depth t.wheel_size t.wheel t.overflow_wheels e.expiration due)

flush_round-fire :
    (depth level bucket : ℕ) (t : Timer) (head : Entry) (rest : List Entry)
    → IsDue t.wheel bucket head
    → flush_round (suc depth) level bucket t head rest ≡ goes_on (fire level t head rest)
unfolding flush_round round_of
flush_round-fire depth level bucket t head rest h =
    let u = record t { lists = update t.lists level rest } in
    ap (round_of t u (head.bucket == bucket)) (add_timer_task_entry-due depth u head h.live h.due)
    ∙ ap (λ (b : Bool). round_of t u b (submits (fire level t head rest)))
        (eq→== head.bucket bucket h.own)

flush-empty :
    (fuel depth level bucket : ℕ) (t : Timer)
    → t.lists level ≡ []
    → (t' : Timer) × (flush (suc fuel) depth level bucket t ≡ done t') × Fired t level [] t'
unfolding flush
flush-empty fuel depth level bucket t l =
    rw (flush, l)
      (
        _,
        refl,
        record {
          ran = sym (append-nil t.submitted);
          emptied = l;
          others = λ other h. refl;
          same = (refl, refl, refl);
        },
      )

-- A flush of a bucket, with a round more than the list that it shares with the others of its wheel has
-- entries, ends if all entries of that list are this bucket's own, not cancelled,
-- and due by the next tick of the finest wheel: it submits their tasks in order, leaves the list
-- empty, and changes no other list, no wheel and no offer.
pub flush-Fired :
    (es : List Entry) (depth level bucket : ℕ) (t : Timer)
    → t.lists level ≡ es
    → AllDue t.wheel bucket es
    → (t' : Timer) × (flush (suc (length es)) (suc depth) level bucket t ≡ done t')
      × Fired t level es t'
flush-Fired [] depth level bucket t l h = flush-empty 0 (suc depth) level bucket t l
flush-Fired (head ∷ rest) depth level bucket t l h =
    let u = fire level t head rest in
    let here : u.lists level ≡ rest = rw (eq→== level level refl) refl in
    let (t', ends, fired) = flush-Fired rest depth level bucket u here h.1 in
    (
      t',
      flush-goes_on (suc (length rest)) (suc depth) level bucket t u head rest l
            (flush_round-fire depth level bucket t head rest h.0)
          ∙ ends,
      record {
        ran = fired.ran ∙ append_assoc t.submitted (head.task ∷ []) (tasks rest);
        emptied = fired.emptied;
        others = λ other k. fired.others other k ∙ rw (ne→==_false other level k) refl;
        same = fired.same;
      },
    )
