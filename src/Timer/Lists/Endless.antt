-- ===== src/Timer/Lists/Endless.antt =====
-- A flush of the finest wheel while one of its entries is not due (timer/TimerTaskList.cc).
use mutty.Common.{
  ℕ, zero, suc, ◌≡◌, refl, sym, ap, ◌∙◌, subst, ◌≢◌, inl, inr, Bool, true, false, ◌||◌, List, [],
  ◌∷◌, arith, ◌==◌, Bool-cases,
}
use mutty.Timer.Wheel.{Wheel}
use mutty.Timer.Lists.{
  Entry, Timer, update, Added, linked, submits, drops, deeper, add_timer_task_entry, done, more,
  dangling, Round, goes_on, deletes_linked, too_deep, round_of, flush_round, flush,
}
use mutty.Timer.Lists.Waiting.{
  waits, any_waits, Has, Keeps, add_timer_task_entry-Keeps, add_timer_task_entry-waits,
}

goes_on_same : {t t' : Timer} → goes_on t ≡ goes_on t' → t ≡ t'
goes_on_same e = cc

not_deletes : {t t' : Timer} → deletes_linked t ≡ goes_on t' → ⊥
not_deletes e = cc

not_deep : {t : Timer} → too_deep ≡ goes_on t → ⊥
not_deep e = cc

not_more : {t t' : Timer} → more t ≡ done t' → ⊥
not_more e = cc

not_dangling : {t t' : Timer} → dangling t ≡ done t' → ⊥
not_dangling e = cc

round_of-Has :
    (w : Wheel) (t unlinked t' : Timer) (removed : Bool) (added : Added)
    → Keeps w added
    → Has w t
    → Has w unlinked
    → round_of t unlinked removed added ≡ goes_on t'
    → Has w t'
unfolding round_of
round_of-Has w t u t' true (linked s) k h hu r = subst (Has w) (goes_on_same r) k
round_of-Has w t u t' true (submits s) k h hu r = subst (Has w) (goes_on_same r) k
round_of-Has w t u t' true drops k h hu r = subst (Has w) (goes_on_same r) hu
round_of-Has w t u t' false (linked s) k h hu r = subst (Has w) (goes_on_same r) k
round_of-Has w t u t' false (submits s) k h hu r = absurd (not_deletes r)
round_of-Has w t u t' false drops k h hu r = subst (Has w) (goes_on_same r) h
round_of-Has w t u t' true deeper k h hu r = absurd (not_deep r)
round_of-Has w t u t' false deeper k h hu r = absurd (not_deep r)

round_of-linked :
    (t unlinked t' : Timer) (removed : Bool) → round_of t unlinked removed (linked t') ≡ goes_on t'
unfolding round_of
round_of-linked t u t' true = refl
round_of-linked t u t' false = refl

round_of-deeper :
    (t unlinked : Timer) (removed : Bool) → round_of t unlinked removed deeper ≡ too_deep
unfolding round_of
round_of-deeper t u true = refl
round_of-deeper t u false = refl

abbrev unlink : ℕ → Timer → List Entry → Timer
unlink level t rest = record t { lists = update t.lists level rest }

-- A round leaves an entry that waits.
flush_round-Has :
    (depth bucket : ℕ) (t t' : Timer) (head : Entry) (rest : List Entry)
    → t.lists 0 ≡ head ∷ rest
    → any_waits t.wheel (t.lists 0) ≡ true
    → flush_round depth 0 bucket t head rest ≡ goes_on t'
    → Has t.wheel t'
unfolding flush_round
flush_round-Has depth bucket t t' head rest l h r = elim (Bool-cases (waits t.wheel head)) [
  | inl here ↦ elim (add_timer_task_entry-waits depth (unlink 0 t rest) head here) [
    | inl q ↦ absurd (not_deep (sym (at q ∙ round_of-deeper t (unlink 0 t rest) removed) ∙ r))
    | inr (s, q, has) ↦
        subst (Has t.wheel)
          (goes_on_same (sym (at q ∙ round_of-linked t (unlink 0 t rest) s removed) ∙ r)) has
  ]
  | inr here ↦
      let left : any_waits t.wheel rest ≡ true =
        sym (ap (λ (b : Bool). b || any_waits t.wheel rest) here)
        ∙ sym (ap (any_waits t.wheel) l)
        ∙ h in
      round_of-Has t.wheel t (unlink 0 t rest) t' removed
        (add_timer_task_entry depth (unlink 0 t rest) head)
        (add_timer_task_entry-Keeps depth (unlink 0 t rest) head left) (refl, h) (refl, left) r
]
  where
    removed : Bool
    removed = head.bucket == bucket

    at :
        {added : Added}
        → add_timer_task_entry depth (unlink 0 t rest) head ≡ added
        → flush_round depth 0 bucket t head rest ≡ round_of t (unlink 0 t rest) removed added
    at q = ap (round_of t (unlink 0 t rest) removed) q

pub flush-goes_on :
    (fuel depth level bucket : ℕ) (t t' : Timer) (head : Entry) (rest : List Entry)
    → t.lists level ≡ head ∷ rest
    → flush_round depth level bucket t head rest ≡ goes_on t'
    → flush (suc fuel) depth level bucket t ≡ flush fuel depth level bucket t'
unfolding flush
flush-goes_on fuel depth level bucket t t' head rest l r = rw (l, flush) (rw (r, flush) refl)

flush-too_deep :
    (fuel depth level bucket : ℕ) (t : Timer) (head : Entry) (rest : List Entry)
    → t.lists level ≡ head ∷ rest
    → flush_round depth level bucket t head rest ≡ too_deep
    → flush (suc fuel) depth level bucket t ≡ more t
unfolding flush
flush-too_deep fuel depth level bucket t head rest l r = rw (l, flush) (rw (r, flush) refl)

flush-dangling :
    (fuel depth level bucket : ℕ) (t t' : Timer) (head : Entry) (rest : List Entry)
    → t.lists level ≡ head ∷ rest
    → flush_round depth level bucket t head rest ≡ deletes_linked t'
    → flush (suc fuel) depth level bucket t ≡ dangling t'
unfolding flush
flush-dangling fuel depth level bucket t t' head rest l r = rw (l, flush) (rw (r, flush) refl)

flush-ne_done :
    (fuel depth bucket : ℕ) (t t' : Timer)
    → any_waits t.wheel (t.lists 0) ≡ true
    → flush fuel depth 0 bucket t ≢ done t'
unfolding flush
flush-ne_done zero depth bucket t t' h e = not_more e
flush-ne_done (suc fuel) depth bucket t t' h e =
    by_list (λ s. flush-ne_done fuel depth bucket s t') (t.lists 0) refl
  where
    by_round :
        ((s : Timer) → any_waits s.wheel (s.lists 0) ≡ true → flush fuel depth 0 bucket s ≢ done t')
        → (head : Entry) (rest : List Entry) (round : Round) → t.lists 0 ≡ head ∷ rest
        → flush_round depth 0 bucket t head rest ≡ round
        → ⊥
    by_round again head rest (goes_on s) l r =
        let (wheel, some_wait) = flush_round-Has depth bucket t s head rest l h r in
        again s (ap (λ (w : Wheel). any_waits w (s.lists 0)) wheel ∙ some_wait)
          (sym (flush-goes_on fuel depth 0 bucket t s head rest l r) ∙ e)
    by_round again head rest (deletes_linked s) l r =
        not_dangling (sym (flush-dangling fuel depth 0 bucket t s head rest l r) ∙ e)
    by_round again head rest too_deep l r =
        not_more (sym (flush-too_deep fuel depth 0 bucket t head rest l r) ∙ e)

    by_list :
        ((s : Timer) → any_waits s.wheel (s.lists 0) ≡ true → flush fuel depth 0 bucket s ≢ done t')
        → (es : List Entry) → t.lists 0 ≡ es
        → ⊥
    by_list again [] l = absurd (ground (arith, h, ap (any_waits t.wheel) l))
    by_list again (head ∷ rest) l =
        by_round again head rest (flush_round depth 0 bucket t head rest) l refl

-- All buckets of a wheel share one list. While it holds an entry of the finest wheel that is neither
-- cancelled nor due by the wheel's next tick, though within its interval, no flush of any bucket of
-- that wheel ends, whatever the number of rounds.
pub flush-endless :
    (fuel depth bucket : ℕ) (t : Timer)
    → any_waits t.wheel (t.lists 0) ≡ true
    → ¬ ((t' : Timer) × (flush fuel depth 0 bucket t ≡ done t'))
flush-endless fuel depth bucket t h (t', e) = flush-ne_done fuel depth bucket t t' h e
