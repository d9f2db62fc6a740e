-- ===== src/Memory/LongPriorityQueue/Removal.antt =====
-- What `remove` of buffer/LongPriorityQueue.h promises.
use mutty.Common.{
  ℕ, zero, suc, ◌+◌, ◌-◌, ◌/◌, ◌≤◌, ◌<◌, ◌≡◌, refl, ap, ◌∙◌, ◌≢◌, inl, inr, true, false, ◌&&◌, none,
  some, List, arith, ltb, leb, ◌==◌, if◌then◌else◌, Bool-cases, Option-cases, lt→ltb, leb→le, ==→eq,
  eq→==, length, set, length-set, get_or-set,
}
use mutty.Memory.LongPriorityQueue.{LongPriorityQueue, at, subord, lift, sink, find_value, remove}
use mutty.Memory.LongPriorityQueue.Order.{IsHeap, IsLifting, IsSinking, lift-IsHeap, sink-IsHeap}
use mutty.Memory.LongPriorityQueue.Occurrences.{
  one_if, occurrences, occurrences-set, occurrences-set_outside, length-lift, length-sink,
  occurrences-lift, occurrences-sink, find_value-some, find_value-none, occurrences_none,
  occurrences-last,
}
use mutty.Memory.LongPriorityQueue.Laws.{IsValid, holds}

lift_stays :
    (fuel : ℕ) (array : List ℕ) (i : ℕ)
    → (ltb 1 i && subord array (i / 2) i) ≡ false
    → lift fuel array i ≡ array
unfolding lift
lift_stays zero array i h = refl
lift_stays (suc fuel) array i h = rw h refl

heap-IsSinking : (array : List ℕ) (size i : ℕ) → IsHeap array size → IsSinking array size i
heap-IsSinking array size i h = record {
  edges = λ j p q r. h j p q;
  bridged = λ j p q r s.
      let up = h j p q in
      let above = h i s (omega (arith, r, q)) in
      let place = ap (at array) r in omega (arith, up, above, place);
}

module _ (q : LongPriorityQueue) (v : IsValid q) (i : ℕ) (low : 1 ≤ i) (high : i ≤ q.size) where
  abbrev rest : ℕ
  rest = q.size - 1

  -- The last handle in place of the one at `i`.
  abbrev filled : List ℕ
  filled = set q.array i (at q.array q.size)

  at-filled : (j : ℕ) → at filled j ≡ (if i == j then at q.array q.size else at q.array j)
  at-filled j = get_or-set q.array i j (at q.array q.size) 0 (omega (arith, high, v.room))

  length-filled : length filled ≡ length q.array
  length-filled = length-set q.array i (at q.array q.size)

  -- The heap order around `i`, whichever way its handle has to go.
  filled_edges : (j : ℕ) → 1 < j → j ≤ rest → j ≢ i → j / 2 ≢ i → at filled (j / 2) ≤ at filled j
  filled_edges j p r s t = ground (arith, at-filled j, at-filled (j / 2), v.heap j)

  filled_bridged : (j : ℕ) → 1 < j → j ≤ rest → j / 2 ≡ i → 1 < i → at filled (i / 2) ≤ at filled j
  filled_bridged j p r s t =
      ground (arith, at-filled j, at-filled (i / 2), v.heap j, v.heap i, ap (at q.array) s)

  filled_rises : at filled i < at filled (i / 2) → 1 < i → i ≤ rest → IsLifting filled rest i
  filled_rises below big inside = record {
    edges = λ j p r s. elim (Bool-cases (j / 2 == i)) [
      | inl e ↦
          let child : j / 2 ≡ i = ==→eq _ _ e in
          let bridge = filled_bridged j p r child big in
          let place = ap (at filled) child in omega (arith, bridge, below, place)
      | inr e ↦ filled_edges j p r s (λ c. absurd (ground (arith, eq→== _ _ c)))
    ];
    bridged = filled_bridged;
  }

  filled_settles : (ltb 1 i && subord filled (i / 2) i) ≡ false → IsSinking filled rest i
  filled_settles h = record {
    edges = λ j p r s. elim (Bool-cases (j == i)) [
      | inl e ↦ let here : j ≡ i = ==→eq _ _ e in rw here (ground (arith, h))
      | inr e ↦ filled_edges j p r (λ c. absurd (ground (arith, eq→== _ _ c))) s
    ];
    bridged = filled_bridged;
  }

  room : rest < length filled
  room = omega (arith, length-filled, v.room)

  -- The handle moved rises only within the places that are left.
  rises_inside : (ltb 1 i && subord filled (i / 2) i) ≡ true → i ≤ rest
  rises_inside h = elim (Bool-cases (leb i rest)) [
    | inl e ↦ leb→le i rest e
    | inr e ↦
        let last : i ≡ q.size = ground (arith, e) in
        let big : 1 < i = ground (arith, h) in
        let same = ap (at q.array) last in
        let here : at filled i ≡ at q.array q.size = ground (arith, at-filled i) in
        let above : at filled (i / 2) ≡ at q.array (i / 2) = ground (arith, at-filled (i / 2)) in
        let below : at filled i < at filled (i / 2) = ground (arith, h) in
        absurd (omega (arith, v.heap i big high, here, above, same, below))
  ]

  abbrev sifted : List ℕ
  sifted = sink rest (lift i filled i) rest i

  sifted-IsHeap : IsHeap sifted rest
  sifted-IsHeap = elim (Bool-cases (ltb 1 i && subord filled (i / 2) i)) [
    | inl e ↦
        let inside = rises_inside e in
        let below : at filled i < at filled (i / 2) = ground (arith, e) in
        let heap =
          lift-IsHeap i filled rest i room inside (omega arith)
            (filled_rises below (ground (arith, e)) inside) in
        sink-IsHeap rest (lift i filled i) rest i (omega (arith, length-lift i filled i, room)) low
          (omega (arith, low)) (heap-IsSinking (lift i filled i) rest i heap)
    | inr e ↦
        rw (lift_stays i filled i e)
          (sink-IsHeap rest filled rest i room low (omega (arith, low)) (filled_settles e))
  ]

  occurrences-sifted : (w : ℕ) → occurrences sifted rest w ≡ occurrences filled rest w
  occurrences-sifted w = elim (Bool-cases (ltb 1 i && subord filled (i / 2) i)) [
    | inl e ↦
        occurrences-sink rest (lift i filled i) rest i w
          (omega (arith, length-lift i filled i, room)) low
        ∙ occurrences-lift i filled rest i w room (rises_inside e)
    | inr e ↦ rw (lift_stays i filled i e) (occurrences-sink rest filled rest i w room low)
  ]

  occurrences-filled :
      (w : ℕ)
      → occurrences filled rest w + one_if (at q.array i == w) ≡ occurrences q.array q.size w
  occurrences-filled w =
      let last = occurrences-last q.array q.size rest w (omega (arith, low, high)) in
      elim (Bool-cases (leb i rest)) [
        | inl e ↦
            let written =
              occurrences-set q.array rest i (at q.array q.size) w (omega (arith, high, v.room)) low
                (leb→le i rest e) in
            omega (arith, written, last)
        | inr e ↦
            let end : i ≡ q.size = ground (arith, e) in
            let outside =
              occurrences-set_outside q.array rest i (at q.array q.size) w
                (omega (arith, high, v.room)) (omega (arith, end, low)) in
            let place = ap (λ (t : ℕ). one_if (at q.array t == w)) end in
            omega (arith, outside, last, place)
      ]

  sifted-IsValid : IsValid (record { array = sifted; size = rest })
  sifted-IsValid =
      let same = length-sink rest (lift i filled i) rest i in
      let lifted = length-lift i filled i in
      record {
        heap = sifted-IsHeap;
        room = omega (arith, same, lifted, room);
        grows = omega (arith, same, lifted, length-filled, v.grows);
      }

remove_absent :
    (q : LongPriorityQueue) (value : ℕ)
    → find_value q.size q.array 1 value ≡ none
    → remove q value ≡ q
unfolding remove
remove_absent q value e = rw (e, remove) refl

remove_found :
    (q : LongPriorityQueue) (value i : ℕ)
    → find_value q.size q.array 1 value ≡ some i
    → remove q value ≡ record {
      array =
          let array = set q.array i (at q.array q.size) in
          sink (q.size - 1) (lift i array i) (q.size - 1) i;
      size = q.size - 1;
    }
unfolding remove
remove_found q value i e = rw (e, remove) refl

-- `remove` takes one of the handles given out of the queue, if it holds one, and keeps the heap; else
-- it leaves the queue as it is.
pub remove_lem :
    (q : LongPriorityQueue) (value : ℕ)
    → IsValid q
    → IsValid (remove q value)
      × ((w : ℕ)
          → holds (remove q value) w + (if ltb 0 (holds q value) then one_if (value == w) else 0)
            ≡ holds q w)
remove_lem q value v = elim (Option-cases (find_value q.size q.array 1 value)) [
  | inl e ↦
      let absent =
        occurrences_none q.array q.size value
          (λ j p r. find_value-none q.size q.array 1 value j e p (omega arith)) in
      rw (remove_absent q value e, absent) (v, λ w. omega arith)
  | inr (i, e) ↦
      let (low, high, found) = find_value-some q.size q.array 1 value i e in
      let inside : i ≤ q.size = omega (arith, high) in
      let taken = λ (w : ℕ). occurrences-filled q v i low inside w in
      let kept = λ (w : ℕ). occurrences-sifted q v i low inside w in
      let mine : one_if (at q.array i == value) ≡ 1 = rw (eq→== _ _ found) refl in
      let present : 0 < holds q value = omega (arith, taken value, mine) in
      rw (remove_found q value i e, lt→ltb 0 (holds q value) present)
        (
          sifted-IsValid q v i low inside,
          λ w.
              let same = ap (λ (t : ℕ). one_if (t == w)) found in
              omega (arith, taken w, kept w, same),
        )
]
