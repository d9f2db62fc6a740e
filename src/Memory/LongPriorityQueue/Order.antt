-- ===== src/Memory/LongPriorityQueue/Order.antt =====
-- The heap order of buffer/LongPriorityQueue.h.
use mutty.Common.{
  ℕ, zero, suc, ◌+◌, ◌*◌, ◌/◌, ◌≤◌, ◌<◌, ◌≡◌, refl, ◌∙◌, ◌≢◌, ◌⊎◌, inl, inr, ◌&&◌, List, arith, ltb,
  leb, ◌==◌, if◌then◌else◌, Bool-cases, leb→le, length, set, length-set, get_or-set,
}
use mutty.Memory.LongPriorityQueue.{at, subord, swap, lift, smaller_child, sink}

-- Every place is no smaller than its parent.
abbrev pub IsHeap : List ℕ → ℕ → Type 0
IsHeap array size = (j : ℕ) → 1 < j → j ≤ size → at array (j / 2) ≤ at array j

-- The edges past `i`, from its parent to its children, are in order.
abbrev pub IsBridged : List ℕ → ℕ → ℕ → Type 0
IsBridged array size i =
    (j : ℕ) → 1 < j → j ≤ size → j / 2 ≡ i → 1 < i → at array (i / 2) ≤ at array j

-- Only the edge above `i` may be out of order.
pub record IsLifting (array : List ℕ) (size i : ℕ) : Type 0 where
  pub edges : (j : ℕ) → 1 < j → j ≤ size → j ≢ i → at array (j / 2) ≤ at array j
  pub bridged : IsBridged array size i

-- Only the edges below `i` may be out of order.
pub record IsSinking (array : List ℕ) (size i : ℕ) : Type 0 where
  pub edges : (j : ℕ) → 1 < j → j ≤ size → j / 2 ≢ i → at array (j / 2) ≤ at array j
  pub bridged : IsBridged array size i

pub at-swap :
    (array : List ℕ) (a b j : ℕ)
    → a < length array
    → b < length array
    → at (swap array a b) j
      ≡ (if b == j then at array a else if a == j then at array b else at array j)
at-swap array a b j ha hb =
    get_or-set (set array a (at array b)) b j (at array a) 0
      (omega (arith, length-set array a (at array b)))
    ∙ (rw (get_or-set array a j (at array b) 0 ha) refl)

pub length-swap : (array : List ℕ) (a b : ℕ) → length (swap array a b) ≡ length array
length-swap array a b =
    length-set (set array a (at array b)) b (at array a) ∙ length-set array a (at array b)

swap-IsLifting :
    (array : List ℕ) (size i : ℕ)
    → size < length array
    → i ≤ size
    → IsLifting array size i
    → 1 < i
    → at array i < at array (i / 2)
    → IsLifting (swap array i (i / 2)) size (i / 2)
swap-IsLifting array size i l p v h below =
    let sw = λ (j : ℕ). at-swap array i (i / 2) j (omega arith) (omega arith) in
    record {
      edges = λ j q r s. ground (arith, sw j, sw (j / 2), v.edges j, v.bridged j);
      bridged = λ j q r s t. ground (arith, sw j, sw (i / 2 / 2), v.edges j, v.edges (i / 2));
    }

pub lift-IsHeap :
    (fuel : ℕ) (array : List ℕ) (size i : ℕ)
    → size < length array
    → i ≤ size
    → i ≤ fuel
    → IsLifting array size i
    → IsHeap (lift fuel array i) size
unfolding lift
lift-IsHeap zero array size i l p f v = λ j q r. v.edges j q r (omega arith)
lift-IsHeap (suc fuel) array size i l p f v =
    elim (Bool-cases (ltb 1 i && subord array (i / 2) i)) [
      | inl e ↦
          let h : 1 < i = ground (arith, e) in
          let below : at array i < at array (i / 2) = ground (arith, e) in
          rw e (
            lift-IsHeap fuel (swap array i (i / 2)) size (i / 2)
              (omega (arith, length-swap array i (i / 2))) (omega arith) (omega arith)
              (swap-IsLifting array size i l p v h below))
      | inr e ↦ rw e (λ j q r. ground (arith, v.edges j, e))
    ]

-- The child with the smaller handle.
record IsSmallerChild (array : List ℕ) (size i child : ℕ) : Type 0 where
  inside : child ≤ size
  parent : child / 2 ≡ i
  least : (j : ℕ) → 1 < j → j ≤ size → j / 2 ≡ i → at array child ≤ at array j

smaller_child-IsSmallerChild :
    (array : List ℕ) (size i : ℕ)
    → 1 ≤ i
    → i * 2 ≤ size
    → IsSmallerChild array size i (smaller_child array size i)
smaller_child-IsSmallerChild array size i h p = record {
  inside = ground arith;
  parent = ground arith;
  least = λ j q r s.
      let which : (j ≡ i * 2) ⊎ (j ≡ i * 2 + 1) = ground arith in
      elim which [ inl e ↦ rw e (ground arith) | inr e ↦ rw e (ground arith) ];
}

swap-IsSinking :
    (array : List ℕ) (size i child : ℕ)
    → size < length array
    → 1 ≤ i
    → IsSinking array size i
    → IsSmallerChild array size i child
    → at array child < at array i
    → IsSinking (swap array i child) size child
swap-IsSinking array size i child l p v s below =
    let inside = s.inside in
    let sw = λ (j : ℕ).
      at-swap array i child j (omega (arith, s.inside, s.parent)) (omega (arith, s.inside)) in
    record {
      edges = λ j q r t.
          ground (arith, sw j, sw (j / 2), v.edges j, v.bridged child, s.least j, s.parent);
      bridged = λ j q r t u. ground (arith, sw j, sw (child / 2), v.edges j, s.parent);
    }

pub sink-IsHeap :
    (fuel : ℕ) (array : List ℕ) (size i : ℕ)
    → size < length array
    → 1 ≤ i
    → size < i + fuel
    → IsSinking array size i
    → IsHeap (sink fuel array size i) size
unfolding sink
sink-IsHeap zero array size i l p f v = λ j q r. v.edges j q r (omega arith)
sink-IsHeap (suc fuel) array size i l p f v =
    let child = smaller_child array size i in
    elim (Bool-cases (leb (i * 2) size)) [
      | inr e ↦ rw e (λ j q r. v.edges j q r (ground (arith, e)))
      | inl e ↦
          let s = smaller_child-IsSmallerChild array size i p (leb→le _ _ e) in
          elim (Bool-cases (subord array i child)) [
            | inl g ↦
                rw (e, g)
                  (sink-IsHeap fuel (swap array i child) size child
                    (omega (arith, length-swap array i child)) (omega (arith, s.parent))
                    (omega (arith, s.parent))
                    (swap-IsSinking array size i child l p v s (ground (arith, g))))
            | inr g ↦ rw (e, g) (λ j q r. ground (arith, v.edges j, s.least j, g))
          ]
    ]
