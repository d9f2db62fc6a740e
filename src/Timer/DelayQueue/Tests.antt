-- ===== src/Timer/DelayQueue/Tests.antt =====
-- A priority queue as a list from which the least entry is selected.
use mutty.Common.{
  ℕ, suc, ◌≤◌, ◌≡◌, refl, sym, subst, Bool, true, false, Option, none, some, List, [], ◌∷◌, arith,
  leb, leb→le, length, none-ne_some, eq_of_some,
}
use mathlib.Core.List.{Mem, Perm, mem-cons, not-mem-nil}
use mathlib.Core.List.Perm
use mathlib.Core.Logic.Or
use native.Mathlib.Bridge.{le_prop}
use mutty.Timer.Timeval.{Timeval, sum}
use mutty.Timer.DelayQueue.{DelayQueueEntry, PriorityQueue, polls, Drained, polls-Drained}

abbrev DqEntry : Type 0
DqEntry = DelayQueueEntry ℕ

abbrev swap_in : DqEntry → DqEntry × List DqEntry → Bool → DqEntry × List DqEntry
swap_in e (m, rest) true = (e, m ∷ rest)
swap_in e (m, rest) false = (m, e ∷ rest)

-- The least of some entries, and the others.
abbrev select : DqEntry → List DqEntry → DqEntry × List DqEntry
select e [] = (e, [])
select e (d ∷ ds) =
    let best = select d ds in swap_in e best (leb (sum e.expiration) (sum (best.0).expiration))

record IsSelected (e : DqEntry) (ds : List DqEntry) (best : DqEntry × List DqEntry) : Type 0 where
  same : Perm (e ∷ ds) (best.0 ∷ best.1)
  least : (b : DqEntry) → Mem b (e ∷ ds) → sum (best.0).expiration ≤ sum b.expiration
  longer : length ds ≡ length best.1

select-IsSelected : (e : DqEntry) (ds : List DqEntry) → IsSelected e ds (select e ds)
select-IsSelected e [] = record {
  same = Perm.refl (e ∷ []);
  least =
      λ b m. Or.elim le_prop (mem-cons.0 m) (λ q. rw q (omega arith)) (λ n. absurd (not-mem-nil n));
  longer = refl;
}
select-IsSelected e (d ∷ ds) =
    swap e d ds (select d ds) (select-IsSelected d ds)
      (leb (sum e.expiration) (sum ((select d ds).0).expiration)) refl
  where
    swap :
        (e d : DqEntry) (ds : List DqEntry) (best : DqEntry × List DqEntry)
        → IsSelected d ds best
        → (b : Bool) → leb (sum e.expiration) (sum (best.0).expiration) ≡ b
        → IsSelected e (d ∷ ds) (swap_in e best b)
    swap e d ds best s true h = record {
      same = Perm.cons e s.same;
      least = λ b m.
          Or.elim le_prop (mem-cons.0 m) (λ q. rw q (omega arith))
            (λ n.
              omega (arith, leb→le (sum e.expiration) (sum (best.0).expiration) h, s.least b n));
      longer = omega (arith, s.longer);
    }
    swap e d ds best s false h = record {
      same = Perm.trans (Perm.cons e s.same) (Perm.swap (best.0) e best.1);
      least =
          λ b m. Or.elim le_prop (mem-cons.0 m) (λ q. rw q (ground (arith, h))) (λ n. s.least b n);
      longer = omega (arith, s.longer);
    }

top_of : List DqEntry → Option DqEntry
top_of [] = none
top_of (e ∷ ds) = some (select e ds).0

pop_of : List DqEntry → List DqEntry
pop_of [] = []
pop_of (e ∷ ds) = (select e ds).1

top_of-none : (q : List DqEntry) → top_of q ≡ none → q ≡ []
unfolding top_of
top_of-none [] h = refl
top_of-none (e ∷ ds) h = absurd (none-ne_some (sym h))

top_of-pop : (q : List DqEntry) (e : DqEntry) → top_of q ≡ some e → Perm q (e ∷ pop_of q)
unfolding top_of pop_of
top_of-pop [] e h = absurd (none-ne_some h)
top_of-pop (d ∷ ds) e h =
    subst (λ x. Perm (d ∷ ds) (x ∷ (select d ds).1)) (eq_of_some h) (select-IsSelected d ds).same

length-pop :
    (q : List DqEntry) (e : DqEntry) → top_of q ≡ some e → length q ≡ suc (length (pop_of q))
unfolding top_of pop_of
length-pop [] e h = absurd (none-ne_some h)
length-pop (d ∷ ds) e h = omega (arith, (select-IsSelected d ds).longer)

top_of-least :
    (q : List DqEntry) (e b : DqEntry)
    → top_of q ≡ some e
    → Mem b q
    → sum e.expiration ≤ sum b.expiration
unfolding top_of
top_of-least [] e b h m = absurd (none-ne_some h)
top_of-least (d ∷ ds) e b h m =
    subst (λ x. sum x.expiration ≤ sum b.expiration) (eq_of_some h)
      ((select-IsSelected d ds).least b m)

abbrev list_queue : PriorityQueue ℕ
list_queue = record {
  Q = List DqEntry;
  emplace = λ e q. e ∷ q;
  top = top_of;
  pop = pop_of;
  size = length;
  contents = λ q. q;
  contents-emplace = λ e q. Perm.refl (e ∷ q);
  top_none = top_of-none;
  contents-pop = top_of-pop;
  size-pop = length-pop;
  top_least = top_of-least;
}

abbrev at : ℕ → Timeval
at u = record { tv_sec = 1; tv_usec = u }

-- Bucket 7 is due, and bucket 8 is not.
abbrev two_buckets : List DqEntry
two_buckets =
    record { appendix = 8; expiration = at 900 } ∷ record { appendix = 7; expiration = at 300 } ∷ []

polls-Drained_example :
    Drained list_queue (λ i. at 500) 0 two_buckets (polls list_queue 3 (λ i. at 500) 0 two_buckets)
polls-Drained_example = polls-Drained list_queue 3 (λ i. at 500) 0 two_buckets (omega arith)
