-- ===== src/Timer/DelayQueue.antt =====
-- timer/delay_queue/DelayQueue.h over `std::priority_queue`, which is a parameter with what its
-- documentation says of it. What the clock reads at each poll is a parameter too.
mod Tests
use mutty.Common.{
  ℕ, zero, suc, ◌≤◌, ◌<◌, ◌≡◌, refl, sym, ap, ◌∙◌, subst, inl, inr, Bool, true, false, Option, none,
  some, List, [], ◌∷◌, ◌++◌, arith, ltb, Bool-cases, Option-cases, ltb→lt, ltb_false→le,
}
use mathlib.Core.List.{Mem, Perm, mem-cons_self, mem-cons_of_mem, mem-append_left, not-mem-nil}
use mathlib.Core.List.Perm
use mutty.Timer.Timeval.{Timeval, sum, lt}

pub record DelayQueueEntry (A : Type 0) : Type 0 where
  pub appendix : A
  pub expiration : Timeval

-- `std::priority_queue` with the order of `greater`, whose top is an entry that is greater than no
-- other.
pub record PriorityQueue (A : Type 0) : Type 1 where
  pub Q : Type 0
  pub emplace : DelayQueueEntry A → Q → Q
  pub top : Q → Option (DelayQueueEntry A)
  pub pop : Q → Q
  pub size : Q → ℕ
  -- Its elements, in some order.
  pub contents : Q → List (DelayQueueEntry A)
  pub contents-emplace :
      (e : DelayQueueEntry A) (q : Q) → Perm (contents (emplace e q)) (e ∷ contents q)
  pub top_none : (q : Q) → top q ≡ none → contents q ≡ []
  pub contents-pop :
      (q : Q) (e : DelayQueueEntry A) → top q ≡ some e → Perm (contents q) (e ∷ contents (pop q))
  pub size-pop : (q : Q) (e : DelayQueueEntry A) → top q ≡ some e → size q ≡ suc (size (pop q))
  pub top_least :
      (q : Q) (e b : DelayQueueEntry A)
      → top q ≡ some e
      → Mem b (contents q)
      → sum e.expiration ≤ sum b.expiration

module _ {A : Type 0} (queue : PriorityQueue A) where
  open queue use {Q, emplace, top, pop, size, contents, top_none, contents-pop, size-pop, top_least}

  -- `offer`
  pub offer : A → Timeval → Q → Q
  offer a expiration q = emplace (record { appendix = a; expiration = expiration }) q

  -- `getDelay`: whether the entry is later than the clock.
  abbrev pub get_delay : Timeval → DelayQueueEntry A → Bool
  get_delay now e = lt now e.expiration

  -- `poll`, when the clock reads `now`; it answers the entry whose appendix the code returns.
  pub poll : Timeval → Q → Option (DelayQueueEntry A) × Q
  poll now q = elim (top q) [
    | none ↦ (none, q)
    | some first ↦ elim (get_delay now first) [ true ↦ (none, q) | false ↦ (some first, pop q) ]
  ]

  -- Polls with no offer between them, until one answers nothing: what they return, the queue, and the
  -- number of the last poll. The fuel bounds their number.
  pub next_poll :
      (Q → List (DelayQueueEntry A) × Q × ℕ)
      → ℕ
      → Option (DelayQueueEntry A) × Q
      → List (DelayQueueEntry A) × Q × ℕ
  next_poll others i (none, q) = ([], q, i)
  next_poll others i (some e, q) = let (es, q', last) = others q in (e ∷ es, q', last)

  pub polls : ℕ → (ℕ → Timeval) → ℕ → Q → List (DelayQueueEntry A) × Q × ℕ
  unfolding poll next_poll
  polls zero clock i q = ([], q, i)
  polls (suc fuel) clock i q = next_poll (polls fuel clock (suc i)) i (poll (clock i) q)

  -- A poll answers nothing, and all entries are later than the clock; or it takes the top, which is
  -- not.
  data Polled (now : Timeval) (q : Q) : Option (DelayQueueEntry A) × Q → Type 0 where
    nothing :
        ((b : DelayQueueEntry A) → Mem b (contents q) → sum now < sum b.expiration)
        → Polled now q (none, q)
    takes :
        (e : DelayQueueEntry A)
        → top q ≡ some e
        → sum e.expiration ≤ sum now
        → Polled now q (some e, pop q)

  poll-empty : (now : Timeval) (q : Q) → top q ≡ none → poll now q ≡ (none, q)
  unfolding poll
  poll-empty now q h = rw (h, poll) refl

  poll-later :
      (now : Timeval) (q : Q) (e : DelayQueueEntry A)
      → top q ≡ some e
      → get_delay now e ≡ true
      → poll now q ≡ (none, q)
  unfolding poll
  poll-later now q e h l = rw (h, poll) (rw (l, poll) refl)

  poll-due :
      (now : Timeval) (q : Q) (e : DelayQueueEntry A)
      → top q ≡ some e
      → get_delay now e ≡ false
      → poll now q ≡ (some e, pop q)
  unfolding poll
  poll-due now q e h l = rw (h, poll) (rw (l, poll) refl)

  poll-Polled : (now : Timeval) (q : Q) → Polled now q (poll now q)
  poll-Polled now q = elim (Option-cases (top q)) [
    | inl h ↦
        subst (Polled now q) (sym (poll-empty now q h))
          (nothing (λ b m. absurd (not-mem-nil (subst (Mem b) (top_none q h) m))))
    | inr (e, h) ↦ elim (Bool-cases (get_delay now e)) [
      | inl l ↦ subst (Polled now q) (sym (poll-later now q e h l)) (
          nothing
            (λ b m. omega (arith, ltb→lt (sum now) (sum e.expiration) l, top_least q e b h m)))
      | inr l ↦
          subst (Polled now q) (sym (poll-due now q e h l))
            (takes e h (ltb_false→le (sum now) (sum e.expiration) l))
    ]
  ]

  -- Each entry is no later than those after it.
  abbrev pub Ascends : List (DelayQueueEntry A) → Type 0
  Ascends [] = Unit
  Ascends (e ∷ es) =
      ((b : DelayQueueEntry A) → Mem b es → sum e.expiration ≤ sum b.expiration) × Ascends es

  -- Each entry is due when its poll reads the clock.
  abbrev pub InTime : (ℕ → Timeval) → ℕ → List (DelayQueueEntry A) → Type 0
  InTime clock i [] = Unit
  InTime clock i (e ∷ es) = (sum e.expiration ≤ sum (clock i)) × InTime clock (suc i) es

  pub record Drained (clock : ℕ → Timeval) (i : ℕ) (q : Q)
      (result : List (DelayQueueEntry A) × Q × ℕ) : Type 0 where
    pub kept : Perm (contents q) (result.0 ++ contents result.1)
    pub ascends : Ascends result.0
    pub in_time : InTime clock i result.0
    pub later :
        (b : DelayQueueEntry A)
        → Mem b (contents result.1)
        → sum (clock result.2) < sum b.expiration

  next_poll-Drained :
      (clock : ℕ → Timeval) (i : ℕ) (q : Q) (r : Option (DelayQueueEntry A) × Q)
      (others : Q → List (DelayQueueEntry A) × Q × ℕ)
      → Polled (clock i) q r
      → ((e : DelayQueueEntry A) → top q ≡ some e → Drained clock (suc i) (pop q) (others (pop q)))
      → Drained clock i q (next_poll others i r)
  unfolding next_poll
  next_poll-Drained clock i q r others (nothing all_later) rest = record {
    kept = Perm.refl (contents q);
    ascends = tt;
    in_time = tt;
    later = all_later;
  }
  next_poll-Drained clock i q r others (takes e h due) rest =
      let d = rest e h in
      record {
        kept = Perm.trans (contents-pop q e h) (Perm.cons e d.kept);
        ascends = (
          λ b m. top_least q e b h (
              (Perm.mem_iff (contents-pop q e h)).1 (
                mem-cons_of_mem e
                  ((Perm.mem_iff d.kept).1 (mem-append_left (contents (others (pop q)).1) m)))),
          d.ascends,
        );
        in_time = (due, d.in_time);
        later = d.later;
      }

  -- Where nothing is offered meanwhile, as many polls as the queue has elements, and one, are enough:
  -- they return entries of the queue in the order of their times, each due when it is polled, and
  -- leave the others, all of which are later than the clock at the last poll, which answers nothing.
  pub polls-Drained :
      (fuel : ℕ) (clock : ℕ → Timeval) (i : ℕ) (q : Q)
      → size q < fuel
      → Drained clock i q (polls fuel clock i q)
  unfolding polls
  polls-Drained zero clock i q h = absurd (omega arith)
  polls-Drained (suc fuel) clock i q h =
      next_poll-Drained clock i q (poll (clock i) q) (polls fuel clock (suc i))
        (poll-Polled (clock i) q)
        (λ e t. polls-Drained fuel clock (suc i) (pop q) (omega (arith, h, size-pop q e t)))
