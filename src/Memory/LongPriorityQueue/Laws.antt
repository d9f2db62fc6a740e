-- ===== src/Memory/LongPriorityQueue/Laws.antt =====
-- What the operations of buffer/LongPriorityQueue.h promise.
use mutty.Common.{
  ℕ, zero, suc, ◌+◌, ◌-◌, ◌/◌, ◌≤◌, ◌<◌, ◌≡◌, refl, ap, ◌∙◌, ◌≢◌, inl, inr, true, false, some, List,
  arith, ltb, ◌==◌, Bool-cases, ltb→lt, ltb_false→le, ==→eq, eq→==, ne→==_false, length, set,
  replicate, length-append, length-set, length-replicate, get_or-set, get_or-append,
}
use mutty.Memory.LongPriorityQueue.{
  LongPriorityQueue, at, sink, grown, new_queue, offer, poll, is_empty,
}
use mutty.Memory.LongPriorityQueue.Order.{IsHeap, IsLifting, IsSinking, lift-IsHeap, sink-IsHeap}
use mutty.Memory.LongPriorityQueue.Occurrences.{
  one_if, occurrences, occurrences-same, occurrences-set, occurrences-set_outside, length-lift,
  length-sink, occurrences-lift, occurrences-sink, occurrences_none, occurrences-last,
  occurrences_some,
}

pub record IsValid (q : LongPriorityQueue) : Type 0 where
  pub heap : IsHeap q.array q.size
  pub room : q.size < length q.array
  pub grows : 1 < length q.array

-- How often the queue holds a handle.
abbrev pub holds : LongPriorityQueue → ℕ → ℕ
holds q v = occurrences q.array q.size v

pub new_queue-IsValid : IsValid new_queue
unfolding new_queue
new_queue-IsValid = record {
  heap = λ j p q. absurd (omega arith);
  room = omega arith;
  grows = omega arith;
}

at-grown : (array : List ℕ) (size j : ℕ) → j < length array → at (grown array size) j ≡ at array j
at-grown array size j h = elim (Bool-cases (size == length array)) [
  | inl e ↦ rw e (get_or-append array (replicate (length array - 1) 0) j 0 h)
  | inr e ↦ rw e refl
]

length-grown :
    (array : List ℕ) (size : ℕ)
    → 1 < length array
    → size ≤ length array
    → (size < length (grown array size)) × (length array ≤ length (grown array size))
length-grown array size g h = elim (Bool-cases (size == length array)) [
  | inl e ↦
      let more = length-append array (replicate (length array - 1) 0) in
      let zeros = length-replicate {A = ℕ} (length array - 1) 0 in
      let full : size ≡ length array = ==→eq _ _ e in
      rw e (omega (arith, more, zeros, full), omega (arith, more))
  | inr e ↦
      let some_room : size ≢ length array = λ t. absurd (ground (arith, eq→== _ _ t)) in
      rw e (omega (arith, some_room), omega arith)
]

module _ (q : LongPriorityQueue) (v : IsValid q) (handle : ℕ) where
  abbrev size : ℕ
  size = q.size + 1

  abbrev written : List ℕ
  written = set (grown q.array size) size handle

  written_room : size < length written
  written_room =
      let (room, more) = length-grown q.array size v.grows (omega (arith, v.room)) in
      omega (arith, length-set (grown q.array size) size handle, room)

  at-written : (j : ℕ) → j < size → at written j ≡ at q.array j
  at-written j h =
      let (room, more) = length-grown q.array size v.grows (omega (arith, v.room)) in
      get_or-set (grown q.array size) size j handle 0 room
      ∙ (rw (ne→==_false size j (omega (arith, h)))
          (at-grown q.array size j (omega (arith, v.room, h))))

  written-IsLifting : IsLifting written size size
  written-IsLifting = record {
    edges = λ j p r s. ground (arith, at-written j, at-written (j / 2), v.heap j);
    bridged = λ j p r s t. absurd (omega arith);
  }

  pub offer-IsValid : IsValid (offer q handle)
  unfolding offer
  offer-IsValid =
      let (room, more) = length-grown q.array size v.grows (omega (arith, v.room)) in
      let same = length-lift size written size in
      record {
        heap =
            lift-IsHeap size written size size written_room (omega arith) (omega arith)
              written-IsLifting;
        room = omega (arith, same, written_room);
        grows = omega (arith, same, written_room, v.grows, v.room);
      }

  pub holds-offer : (w : ℕ) → holds (offer q handle) w ≡ holds q w + one_if (handle == w)
  unfolding offer
  holds-offer w =
      let (room, more) = length-grown q.array size v.grows (omega (arith, v.room)) in
      let kept = occurrences-lift size written size size w written_room (omega arith) in
      let below = occurrences-same written q.array q.size w (λ j p r. at-written j (omega arith)) in
      let last : at written size ≡ handle =
        get_or-set (grown q.array size) size size handle 0 room
        ∙ (rw (eq→== size size refl) refl) in
      let split = occurrences-last written size q.size w refl in
      let shown = ap (λ (t : ℕ). one_if (t == w)) last in omega (arith, kept, split, below, shown)

root_least :
    (fuel : ℕ) (array : List ℕ) (size j : ℕ)
    → IsHeap array size
    → j ≤ fuel
    → 1 ≤ j
    → j ≤ size
    → at array 1 ≤ at array j
root_least zero array size j h f p r = absurd (omega arith)
root_least (suc fuel) array size j h f p r = elim (Bool-cases (ltb 1 j)) [
  | inl e ↦
      let big = ltb→lt 1 j e in
      let up =
        root_least fuel array size (j / 2) h (omega (arith, big)) (omega (arith, big))
          (omega arith) in
      omega (arith, up, h j big r)
  | inr e ↦ let one : j ≡ 1 = omega (arith, ltb_false→le 1 j e) in rw one (omega arith)
]

module _ (q : LongPriorityQueue) (v : IsValid q) (some_handle : 0 < q.size) where
  abbrev rest : ℕ
  rest = q.size - 1

  abbrev moved : List ℕ
  moved = set q.array 1 (at q.array q.size)

  abbrev cleared : List ℕ
  cleared = set moved q.size 0

  length-cleared : length cleared ≡ length q.array
  length-cleared = length-set moved q.size 0 ∙ length-set q.array 1 (at q.array q.size)

  at-cleared : (j : ℕ) → 1 < j → j < q.size → at cleared j ≡ at q.array j
  at-cleared j h p =
      let size = length-set q.array 1 (at q.array q.size) in
      get_or-set moved q.size j 0 0 (omega (arith, size, v.room))
      ∙ (rw (ne→==_false q.size j (omega (arith, p))) (
          get_or-set q.array 1 j (at q.array q.size) 0 (omega (arith, v.grows))
          ∙ (rw (ne→==_false 1 j (omega (arith, h))) refl)))

  poll_sinks : IsSinking cleared rest 1
  poll_sinks = record {
    edges = λ j p r s. ground (arith, at-cleared j, at-cleared (j / 2), v.heap j);
    bridged = λ j p r s t. absurd (omega (arith, t));
  }

  pub poll-IsValid : IsValid (record { array = sink rest cleared rest 1; size = rest })
  poll-IsValid =
      let same = length-sink rest cleared rest 1 in
      record {
        heap =
            sink-IsHeap rest cleared rest 1 (omega (arith, length-cleared, v.room)) (omega arith)
              (omega arith) poll_sinks;
        room = omega (arith, same, length-cleared, v.room);
        grows = omega (arith, same, length-cleared, v.grows);
      }

  -- Taking the last place's handle in place of the first.
  occurrences-moved :
      (w : ℕ) → occurrences moved rest w + one_if (at q.array 1 == w) ≡ occurrences q.array q.size w
  occurrences-moved w =
      let last = occurrences-last q.array q.size rest w (omega arith) in
      elim (Bool-cases (ltb 1 q.size)) [
        | inl e ↦
            let big = ltb→lt 1 q.size e in
            let taken =
              occurrences-set q.array rest 1 (at q.array q.size) w (omega (arith, v.grows))
                (omega arith) (omega (arith, big)) in
            omega (arith, taken, last)
        | inr e ↦
            let one : q.size ≡ 1 = omega (arith, ltb_false→le 1 q.size e) in
            let none_left : rest ≡ 0 = omega (arith, one) in
            let outside =
              occurrences-set_outside q.array rest 1 (at q.array q.size) w (omega (arith, v.grows))
                (omega (arith, none_left)) in
            let place = ap (λ (t : ℕ). one_if (at q.array t == w)) one in
            omega (arith, outside, last, place)
      ]

  pub holds-poll :
      (w : ℕ)
      → occurrences (sink rest cleared rest 1) rest w + one_if (at q.array 1 == w) ≡ holds q w
  holds-poll w =
      let kept =
        occurrences-sink rest cleared rest 1 w (omega (arith, length-cleared, v.room))
          (omega arith) in
      let size = length-set q.array 1 (at q.array q.size) in
      let dropped =
        occurrences-set_outside moved rest q.size 0 w (omega (arith, size, v.room)) (omega arith) in
      omega (arith, kept, dropped, occurrences-moved w)

-- `poll` of a queue that is not empty answers its least handle, takes exactly one of it out, and keeps
-- the heap.
pub poll_lem :
    (q : LongPriorityQueue)
    → IsValid q
    → 0 < q.size
    → (handle : ℕ) × (q' : LongPriorityQueue) × (poll q ≡ some (handle, q'))
      × IsValid q'
      × ((w : ℕ) → holds q' w + one_if (handle == w) ≡ holds q w)
      × ((w : ℕ) → 0 < holds q w → handle ≤ w)
      × (0 < holds q handle)
unfolding poll
poll_lem q v h =
    let cleared_array = cleared q v h in
    let rest_size = rest q v h in
    let taken = holds-poll q v h in
    (
      at q.array 1,
      record { array = sink rest_size cleared_array rest_size 1; size = rest_size },
      rw (ne→==_false q.size 0 (omega (arith, h))) refl,
      poll-IsValid q v h,
      taken,
      λ w p.
          let (j, low, high, found) = occurrences_some q.array q.size w p in
          omega (arith, root_least j q.array q.size j v.heap (omega arith) low high, found),
      let shown : one_if (at q.array 1 == at q.array 1) ≡ 1 =
            rw (eq→== (at q.array 1) (at q.array 1) refl) refl in
          omega (arith, taken (at q.array 1), shown),
    )

pub new_queue_lem : IsValid new_queue × ((w : ℕ) → holds new_queue w ≡ 0)
unfolding new_queue
new_queue_lem =
    (new_queue-IsValid, λ w. occurrences_none (replicate 9 0) 0 w (λ j p q. absurd (omega arith)))

-- `offer` puts one handle in, and keeps the heap.
pub offer_lem :
    (q : LongPriorityQueue) (handle : ℕ)
    → IsValid q
    → IsValid (offer q handle)
      × ((w : ℕ) → holds (offer q handle) w ≡ holds q w + one_if (handle == w))
offer_lem q handle v = (offer-IsValid q v handle, holds-offer q v handle)

pub poll_nonempty :
    (q : LongPriorityQueue)
    → IsValid q
    → is_empty q ≡ false
    → (handle : ℕ) × (q' : LongPriorityQueue) × (poll q ≡ some (handle, q'))
      × IsValid q'
      × ((w : ℕ) → holds q' w + one_if (handle == w) ≡ holds q w)
      × ((w : ℕ) → 0 < holds q w → handle ≤ w)
unfolding is_empty
poll_nonempty q v h =
    let (handle, q', polled, valid, taken, least, present) = poll_lem q v (ground (arith, h)) in
    (handle, q', polled, valid, taken, least)

pub empty_lem : (q : LongPriorityQueue) (w : ℕ) → is_empty q ≡ true → holds q w ≡ 0
unfolding is_empty
empty_lem q w h =
    let none_left : q.size ≡ 0 = ==→eq q.size 0 h in
    occurrences_none q.array q.size w (λ j p r. absurd (omega (arith, none_left)))
