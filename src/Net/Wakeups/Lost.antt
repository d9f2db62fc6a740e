-- ===== src/Net/Wakeups/Lost.antt =====
-- No functor is lost, and no wakeup is.
use mutty.Common.{
  ℕ, ◌+◌, ◌<◌, ◌≡◌, refl, sym, ap, ◌∙◌, ◌≢◌, ◌⊎◌, inl, inr, true, false, Option, none, some, List,
  [], ◌∷◌, ◌++◌, arith, if◌then◌else◌, Bool-cases, length,
}
use mathlib.Core.List.{append_assoc}
use mutty.Net.Queue.{
  BufferNode, items, exchange, dequeue, is_empty, push_some, push_some-dequeue, items-append,
  items-store_link,
}
use mutty.Net.Wakeups.{
  polling, testing, draining, calling, Loop, wakeup, handle_read, queue_own, queue_exchange,
  queue_link, queue_wakeup, drained, drain_one, test_empty, Step, exchanges, links, writes, polled,
  reads, queues, handled, tests, drains, Reach, start, later,
}

module _ {ℓ} {A : Type ℓ} where
  -- The nodes whose producers have yet to store the link.
  abbrev pub unlinked : List (BufferNode A) → ℕ
  unlinked [] = 0
  unlinked (n ∷ q) = (if n.linked then 0 else 1) + unlinked q

  unlinked-append : (q p : List (BufferNode A)) → unlinked (q ++ p) ≡ unlinked q + unlinked p
  unlinked-append [] p = omega arith
  unlinked-append (n ∷ q) p = omega (arith, unlinked-append q p)

  unlinked-exchange : (q : List (BufferNode A)) (a : A) → 0 < unlinked (exchange q a)
  unfolding exchange
  unlinked-exchange q a =
      omega (arith, unlinked-append q (record { item = a; linked = false } ∷ []))

  unlinked-is_empty : (q : List (BufferNode A)) → is_empty q ≡ true → (q ≡ []) ⊎ (0 < unlinked q)
  unfolding is_empty
  unlinked-is_empty [] h = inl refl
  unlinked-is_empty (n ∷ q) h = inr (ground arith)

  -- Why a loop that polls need not worry: nothing waits, or the poll will return, or another thread
  -- is in the middle of queueing and will write.
  pub data Awake (s : Loop A) : Type ℓ where
    idle : s.queue ≡ [] → Awake s
    readable : s.signalled ≡ true → Awake s
    linking : 0 < unlinked s.queue → Awake s
    writing : 0 < s.waking → Awake s

  phase-queue_own : (s : Loop A) (a : A) → (queue_own s a).phase ≡ s.phase
  unfolding queue_own
  phase-queue_own s a = elim (Bool-cases (calling s.phase)) [
    | inl e ↦ rw e refl
    | inr e ↦ rw e refl
  ]

  test_empty-Awake : (s : Loop A) → (test_empty s).phase ≡ polling → Awake (test_empty s)
  unfolding test_empty
  test_empty-Awake s p = elim (Bool-cases (is_empty s.queue)) [
    | inl e ↦ elim (unlinked-is_empty s.queue e) [
      | inl none_left ↦ idle none_left
      | inr some_left ↦ linking some_left
    ]
    | inr e ↦ absurd (ground (arith, e, p))
  ]

  phase-drained :
      (s : Loop A) (r : Option A × List (BufferNode A))
      → s.phase ≡ draining
      → ((drained s r).phase ≡ testing) ⊎ ((drained s r).phase ≡ draining)
  unfolding drained
  phase-drained s (none, rest) q = inl refl
  phase-drained s (some a, rest) q = inr q

  Step-Awake :
      {s t : Loop A} → (s.phase ≡ polling → Awake s) → Step s t → t.phase ≡ polling → Awake t
  unfolding queue_exchange queue_link queue_wakeup wakeup handle_read test_empty drain_one
  Step-Awake {s} h (exchanges a) p = linking (unlinked-exchange s.queue a)
  Step-Awake h (links i) p = writing (omega arith)
  Step-Awake h (writes w) p = readable refl
  Step-Awake h (polled q) p = absurd (ground arith)
  Step-Awake h (reads q r) p = absurd (ground arith)
  Step-Awake {s} h (queues a n) p = absurd (n (sym (phase-queue_own s a) ∙ p))
  Step-Awake h (handled q) p = absurd (ground arith)
  Step-Awake {s} h (tests q) p = test_empty-Awake s p
  Step-Awake {s} h (drains q) p = absurd (ground (arith, phase-drained s (dequeue s.queue) q))

  Reach-Awake : {s : Loop A} → Reach s → s.phase ≡ polling → Awake s
  Reach-Awake start p = idle refl
  Reach-Awake (later r st) p = Step-Awake (Reach-Awake r) st p

  -- Whatever the interleaving of the loop's thread with those that queue functors: when the loop
  -- polls, no other thread is in the middle of queueing and a functor waits, the event descriptor can
  -- be read, so the poll returns at once.
  pub Reach-signalled :
      {s : Loop A}
      → Reach s
      → s.phase ≡ polling
      → unlinked s.queue ≡ 0
      → s.waking ≡ 0
      → s.queue ≢ []
      → s.signalled ≡ true
  Reach-signalled r p linked woken some_left = elim (Reach-Awake r p) [
    | idle e ↦ absurd (some_left e)
    | readable e ↦ e
    | linking l ↦ absurd (omega (arith, linked, l))
    | writing l ↦ absurd (omega (arith, woken, l))
  ]

  items-put : (q : List (BufferNode A)) (a : A) → items (exchange q a) ≡ items q ++ a ∷ []
  unfolding exchange
  items-put q a = items-append q (record { item = a; linked = false } ∷ [])

  -- What has been put in is what has run and what waits, in this order.
  abbrev pub Kept : Loop A → Type ℓ
  Kept s = s.put ≡ s.ran ++ items s.queue

  put-Kept : (s : Loop A) (a : A) → Kept s → s.put ++ a ∷ [] ≡ s.ran ++ items (exchange s.queue a)
  put-Kept s a h =
      ap (λ (t : List A). t ++ a ∷ []) h
      ∙ append_assoc s.ran (items s.queue) (a ∷ [])
      ∙ ap (λ (t : List A). s.ran ++ t) (sym (items-put s.queue a))

  queue_own-Kept : (s : Loop A) (a : A) → Kept s → Kept (queue_own s a)
  unfolding queue_own wakeup
  queue_own-Kept s a h =
      let kept =
        put-Kept s a h
        ∙ ap (λ (t : List A). s.ran ++ t)
            (sym (items-store_link (exchange s.queue a) (length s.queue))) in
      elim (Bool-cases (calling s.phase)) [ inl e ↦ rw e kept | inr e ↦ rw e kept ]

  drained-Kept :
      (s : Loop A) (r : Option A) (rest : List (BufferNode A))
      → s.put ≡ push_some s.ran r ++ items rest
      → Kept (drained s (r, rest))
  unfolding drained
  drained-Kept s none rest h = h
  drained-Kept s (some a) rest h = h

  Step-Kept : {s t : Loop A} → Kept s → Step s t → Kept t
  unfolding queue_exchange queue_link queue_wakeup wakeup handle_read test_empty drain_one
  Step-Kept {s} h (exchanges a) = put-Kept s a h
  Step-Kept {s} h (links i) = h ∙ ap (λ (t : List A). s.ran ++ t) (sym (items-store_link s.queue i))
  Step-Kept h (writes w) = h
  Step-Kept h (polled q) = h
  Step-Kept h (reads q r) = h
  Step-Kept {s} h (queues a n) = queue_own-Kept s a h
  Step-Kept h (handled q) = h
  Step-Kept h (tests q) = h
  Step-Kept {s} h (drains q) =
      let (r, rest) = dequeue s.queue in
      drained-Kept s r rest (h ∙ sym (push_some-dequeue s.queue s.ran))

  -- Whatever the interleaving, the functors that were queued are those that have run, in the order
  -- of their exchanges, followed by those that wait: each runs once, and none is overtaken.
  pub Reach-Kept : {s : Loop A} → Reach s → s.put ≡ s.ran ++ items s.queue
  Reach-Kept start = refl
  Reach-Kept (later r st) = Step-Kept (Reach-Kept r) st
