-- ===== src/Net/Queue.antt =====
-- MpscQueue.h, the functor queue of EventLoop.cpp, and the round robin of EventLoopThreadPool.cpp.
-- `enqueue` is two atomic steps: the exchange of the head, which fixes the order, and the store of
-- the predecessor's link. Between them other threads step, and the consumer does not see the node.
use mutty.Common.{
  ℕ, zero, suc, ◌+◌, ◌%◌, ◌<◌, ◌≡◌, refl, sym, ap, ◌∙◌, inl, inr, Bool, true, false, not, Option,
  none, some, List, [], ◌∷◌, ◌++◌, arith, leb, ◌==◌, if◌then◌else◌, Bool-cases,
}
use mathlib.Core.List.{append-nil, append_assoc}

-- A node behind the tail, in the order of the exchanges; `linked` tells whether its predecessor's
-- `next_` points to it.
pub record BufferNode {ℓ} (A : Type ℓ) : Type ℓ where
  pub item : A
  pub linked : Bool

-- One atomic step of a producer, or one call of the consumer.
pub data Step {ℓ} (A : Type ℓ) : Type ℓ where
  exchanges : A → Step A
  links : ℕ → Step A
  dequeues : Step A

module _ {ℓ} {A : Type ℓ} where
  abbrev pub items : List (BufferNode A) → List A
  items [] = []
  items (n ∷ q) = n.item ∷ items q

  -- `head_.exchange(node)`
  unfoldable pub exchange : List (BufferNode A) → A → List (BufferNode A)
  exchange q a = q ++ record { item = a; linked = false } ∷ []

  -- `prevhead->next_.store(node)` for the node at place `i`
  unfoldable pub store_link : List (BufferNode A) → ℕ → List (BufferNode A)
  store_link [] i = []
  store_link (n ∷ q) zero = record n { linked = true } ∷ q
  store_link (n ∷ q) (suc i) = n ∷ store_link q i

  -- `dequeue`: none is its result false.
  unfoldable pub dequeue : List (BufferNode A) → Option A × List (BufferNode A)
  dequeue [] = (none, [])
  dequeue (n ∷ q) = if n.linked then (some n.item, q) else (none, n ∷ q)

  -- `empty()`
  unfoldable pub is_empty : List (BufferNode A) → Bool
  is_empty [] = true
  is_empty (n ∷ q) = not n.linked

  abbrev pub push_some : List A → Option A → List A
  push_some out none = out
  push_some out (some a) = out ++ a ∷ []

  -- The queue and what the consumer has received, oldest first.
  pub run : List (BufferNode A) → List A → List (Step A) → List (BufferNode A) × List A
  run q out [] = (q, out)
  run q out (exchanges a ∷ steps) = run (exchange q a) out steps
  run q out (links i ∷ steps) = run (store_link q i) out steps
  run q out (dequeues ∷ steps) = let (r, q') = dequeue q in run q' (push_some out r) steps

  -- The items put in, in the order of the exchanges.
  abbrev pub exchanged : List (Step A) → List A
  exchanged [] = []
  exchanged (exchanges a ∷ steps) = a ∷ exchanged steps
  exchanged (links i ∷ steps) = exchanged steps
  exchanged (dequeues ∷ steps) = exchanged steps

  pub items-append : (q p : List (BufferNode A)) → items (q ++ p) ≡ items q ++ items p
  items-append [] p = refl
  items-append (n ∷ q) p = ap (◌∷◌ n.item) (items-append q p)

  pub items-store_link : (q : List (BufferNode A)) (i : ℕ) → items (store_link q i) ≡ items q
  unfolding store_link
  items-store_link [] i = refl
  items-store_link (n ∷ q) zero = refl
  items-store_link (n ∷ q) (suc i) = ap (◌∷◌ n.item) (items-store_link q i)

  pub push_some-dequeue :
      (q : List (BufferNode A)) (out : List A)
      → let (r, q') = dequeue q in push_some out r ++ items q' ≡ out ++ items q
  unfolding dequeue
  push_some-dequeue [] out = refl
  push_some-dequeue (n ∷ q) out = elim (Bool-cases n.linked) [
    | inl e ↦ rw e (append_assoc out (n.item ∷ []) (items q))
    | inr e ↦ rw e
  ]

  regroup :
      (xs ys zs : List A) (a : A) (all : List A)
      → all ≡ ys ++ a ∷ []
      → (xs ++ all) ++ zs ≡ (xs ++ ys) ++ (a ∷ zs)
  regroup xs ys zs a all e = rw e (simp append_assoc)

  -- Under any interleaving of producers and consumer, what was received and what still waits are the
  -- items put in, in the order of their exchanges: none is lost, doubled or overtaken.
  pub run-exchanged :
      (steps : List (Step A)) (q : List (BufferNode A)) (out : List A)
      → let (q', out') = run q out steps in out' ++ items q' ≡ (out ++ items q) ++ exchanged steps
  unfolding run exchange
  run-exchanged [] q out = sym (append-nil (out ++ items q))
  run-exchanged (exchanges a ∷ steps) q out =
      let more = items-append q (record { item = a; linked = false } ∷ []) in
      run-exchanged steps (exchange q a) out
      ∙ regroup out (items q) (exchanged steps) a (items (exchange q a)) more
  run-exchanged (links i ∷ steps) q out =
      run-exchanged steps (store_link q i) out
      ∙ ap (λ (t : List A). (out ++ t) ++ exchanged steps) (items-store_link q i)
  run-exchanged (dequeues ∷ steps) q out =
      run-exchanged steps (dequeue q).1 (push_some out (dequeue q).0)
      ∙ ap (λ (t : List A). t ++ exchanged steps) (push_some-dequeue q out)

  abbrev pub AreLinked : List (BufferNode A) → Type 0
  AreLinked [] = Unit {0}
  AreLinked (n ∷ q) = (n.linked ≡ true) × AreLinked q

  -- `while (funcs_.dequeue(functor)) functor();` of `doPendingFunctors`, with fuel, where no functor
  -- queues another one: what it runs. `others` is the rest of the loop.
  pub drain_on :
      (List (BufferNode A) → List A × List (BufferNode A))
      → Option A × List (BufferNode A)
      → List A × List (BufferNode A)
  drain_on others (none, q) = ([], q)
  drain_on others (some a, q) = let (out, rest) = others q in (a ∷ out, rest)

  unfoldable pub drain : ℕ → List (BufferNode A) → List A × List (BufferNode A)
  unfolding drain_on
  drain zero q = ([], q)
  drain (suc fuel) q = drain_on (drain fuel) (dequeue q)

  -- What a pass has run are the items of a linked beginning of the queue, after which the queue is
  -- empty, or its next link is not stored.
  pub record Drained (q : List (BufferNode A)) (r : List A × List (BufferNode A)) : Type ℓ where
    pub front : List (BufferNode A)
    pub splits : q ≡ front ++ r.1
    pub linked : AreLinked front
    pub ran : r.0 ≡ items front
    pub stops : is_empty r.1 ≡ true

  -- `doPendingFunctors`, with rounds for its outer loop and fuel for the inner one.
  unfoldable pub do_pending_functors : ℕ → ℕ → List (BufferNode A) → List A × List (BufferNode A)
  do_pending_functors zero fuel q = ([], q)
  do_pending_functors (suc rounds) fuel q =
      let (out, left) = drain fuel q in
      let (more, rest) = do_pending_functors rounds fuel left in
      if is_empty q then ([], q) else (out ++ more, rest)

-- `getNextLoop`: the index of the loop and the next value of `next_`, or none with no threads.
pub get_next_loop : ℕ → ℕ → Option (ℕ × ℕ)
get_next_loop threads next =
    if threads == 0 then none else some (next, if leb threads (next + 1) then 0 else next + 1)

-- The loops that the next `k` calls return.
pub next_loops : ℕ → ℕ → ℕ → List ℕ
next_loops threads next zero = []
next_loops threads next (suc k) = elim (get_next_loop threads next) [
  | none ↦ []
  | some (loop, next') ↦ loop ∷ next_loops threads next' k
]

-- The numbers from `start` on, taken modulo `threads`.
abbrev pub round_robin : ℕ → ℕ → ℕ → List ℕ
round_robin threads start zero = []
round_robin threads start (suc k) = start % threads ∷ round_robin threads (suc start) k

get_next_loop-mod :
    (threads start : ℕ)
    → 0 < threads
    → get_next_loop threads (start % threads) ≡ some (start % threads, suc start % threads)
unfolding get_next_loop
get_next_loop-mod threads start h = grind arith

-- If there are threads, `k` calls in a row take the loops in turn, beginning at `start` modulo the
-- number of threads.
pub next_loops-round_robin :
    (threads start k : ℕ)
    → 0 < threads
    → next_loops threads (start % threads) k ≡ round_robin threads start k
unfolding next_loops
next_loops-round_robin threads start zero h = refl
next_loops-round_robin threads start (suc k) h =
    let rest = next_loops-round_robin threads (suc start) k h in
    rw (get_next_loop-mod threads start h, next_loops) (ap (◌∷◌ (start % threads)) rest)
