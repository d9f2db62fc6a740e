-- ===== src/Memory/ChunkLists/Moves.antt =====
-- Where the six lists of an arena (buffer/PoolArena.cpp) put a chunk of 16 MiB.
use mutty.Common.{
  ℕ, zero, suc, ◌+◌, ◌-◌, ◌*◌, ◌/◌, ◌^◌, ◌≤◌, ◌<◌, ◌≡◌, refl, ◌∙◌, subst, ◌≢◌, ◌⊎◌, inl, inr, Bool,
  true, false, Option, some, arith, ◌==◌, if◌then◌else◌, Bool-cases, ==→eq, eq→==,
}
use mutty.Memory.ChunkLists.Calls.{ChunkCalls}
use mutty.Memory.ChunkLists.{
  at_most, below, ChunkList, ChunkLists, arena_list, add_0, add, move_0, move,
}

abbrev pub default_list : ℕ → ChunkList
default_list = arena_list (2 ^ 24)

-- `usage` of a chunk of 16 MiB, by its free bytes.
abbrev pub usage_of : ℕ → ℕ
usage_of free_bytes =
    if free_bytes == 0
    then 100
    else (if free_bytes * 100 / 2 ^ 24 == 0 then 99 else 100 - free_bytes * 100 / 2 ^ 24)

next_of : (i : ℕ) → i < 5 → (default_list i).next_list ≡ some (suc i)
next_of zero h = refl
next_of (suc zero) h = refl
next_of (suc (suc zero)) h = refl
next_of (suc (suc (suc zero))) h = refl
next_of (suc (suc (suc (suc zero)))) h = refl
next_of (suc (suc (suc (suc (suc i))))) h = absurd (omega arith)

prev_of : (i : ℕ) → 1 ≤ i → i < 5 → (default_list (suc i)).prev_list ≡ some i
prev_of zero p h = absurd (omega arith)
prev_of (suc zero) p h = refl
prev_of (suc (suc zero)) p h = refl
prev_of (suc (suc (suc zero))) p h = refl
prev_of (suc (suc (suc (suc zero)))) p h = refl
prev_of (suc (suc (suc (suc (suc i))))) p h = absurd (omega arith)

-- A chunk that has more free bytes than a list allows is used less than the list before demands.
leaves :
    (i n : ℕ)
    → 1 ≤ i
    → i < 5
    → n ≤ 2 ^ 24
    → at_most n ((default_list (suc i)).free_max_threshold) ≡ false
    → below (usage_of n) ((default_list i).max_usage) ≡ true
leaves zero n p h b e = absurd (omega arith)
leaves (suc zero) n p h b e = ground (arith, e, b)
leaves (suc (suc zero)) n p h b e = ground (arith, e, b)
leaves (suc (suc (suc zero))) n p h b e = ground (arith, e, b)
leaves (suc (suc (suc (suc zero)))) n p h b e = ground (arith, e, b)
leaves (suc (suc (suc (suc (suc i))))) n p h b e = absurd (omega arith)

ne_of : (i l : ℕ) → (i == l) ≡ false → i ≢ l
ne_of i l e s = ground (arith, eq→== i l s, e)

module _ (a : ChunkCalls) where
  open a use {free_bytes, usage}

  add-here :
      (fuel i : ℕ) (s : ChunkLists a default_list) (k : ℕ)
      → at_most (free_bytes (s.chunks k)) ((default_list i).free_min_threshold) ≡ false
      → add a default_list (suc fuel) i s k ≡ some (add_0 a default_list i s k)
  unfolding add
  add-here fuel i s k e = rw (e, add) refl

  add-next :
      (fuel i j : ℕ) (s : ChunkLists a default_list) (k : ℕ)
      → at_most (free_bytes (s.chunks k)) ((default_list i).free_min_threshold) ≡ true
      → (default_list i).next_list ≡ some j
      → add a default_list (suc fuel) i s k ≡ add a default_list fuel j s k
  unfolding add
  add-next fuel i j s k e n = rw (e, add) (rw (n, add) refl)

  -- `add` from list `i` on ends, and puts the chunk on the first list from there that leaves it more
  -- free bytes than its lower threshold.
  pub add-reaches :
      (left i : ℕ) (s : ChunkLists a default_list) (k : ℕ)
      → i + left ≡ 5
      → (j : ℕ) × (add a default_list (suc left) i s k ≡ some (add_0 a default_list j s k))
        × (i ≤ j)
        × (j ≤ 5)
        × (at_most (free_bytes (s.chunks k)) ((default_list j).free_min_threshold) ≡ false)
        × ((l : ℕ)
            → i ≤ l
            → l < j
            → at_most (free_bytes (s.chunks k)) ((default_list l).free_min_threshold) ≡ true)
  add-reaches zero i s k h =
      let last : at_most (free_bytes (s.chunks k)) ((default_list i).free_min_threshold) ≡ false =
        subst
          (λ (l : ℕ).
            at_most (free_bytes (s.chunks k)) ((default_list l).free_min_threshold) ≡ false)
          {x = 5} (omega (arith, h)) refl in
      (
        i,
        add-here zero i s k last,
        omega arith,
        omega (arith, h),
        last,
        λ l p q. absurd (omega (arith, p, q)),
      )
  add-reaches (suc left) i s k h =
      elim (Bool-cases (at_most (free_bytes (s.chunks k)) ((default_list i).free_min_threshold))) [
        | inr e ↦ (
          i,
          add-here (suc left) i s k e,
          omega arith,
          omega (arith, h),
          e,
          λ l p q. absurd (omega (arith, p, q)),
        )
        | inl e ↦
            let (j, ended, low, high, stays, passed) =
              add-reaches left (suc i) s k (omega (arith, h)) in
            (
              j,
              add-next (suc left) i (suc i) s k e (next_of i (omega (arith, h))) ∙ ended,
              omega (arith, low),
              high,
              stays,
              λ l p q. elim (Bool-cases (i == l)) [
                | inl s' ↦
                    subst
                      (λ (m : ℕ).
                        at_most (free_bytes (s.chunks k)) ((default_list m).free_min_threshold)
                        ≡ true)
                      (==→eq i l s') e
                | inr s' ↦ passed l (omega (arith, p, ne_of i l s')) q
              ],
            )
      ]

  move-here :
      (fuel i : ℕ) (s : ChunkLists a default_list) (k : ℕ)
      → below (usage (s.chunks k)) ((default_list i).max_usage) ≡ true
      → at_most (free_bytes (s.chunks k)) ((default_list i).free_max_threshold) ≡ true
      → move a default_list (suc fuel) i s k ≡ some (add_0 a default_list i s k, true)
  unfolding move
  move-here fuel i s k b e = rw (b, move) (rw (e, move) refl)

  move-move_0 :
      (fuel i : ℕ) (s : ChunkLists a default_list) (k : ℕ)
      → below (usage (s.chunks k)) ((default_list i).max_usage) ≡ true
      → at_most (free_bytes (s.chunks k)) ((default_list i).free_max_threshold) ≡ false
      → move a default_list (suc fuel) i s k
        ≡ move_0 a default_list (λ j. move a default_list fuel j s k) i s k
  unfolding move
  move-move_0 fuel i s k b e = rw (b, move) (rw (e, move) refl)

  move_0-prev :
      (onward : ℕ → Option (ChunkLists a default_list × Bool)) (i j : ℕ)
      (s : ChunkLists a default_list) (k : ℕ)
      → (default_list i).prev_list ≡ some j
      → move_0 a default_list onward i s k ≡ onward j
  unfolding move_0
  move_0-prev onward i j s k e = rw (e, move_0) refl

  move_0-first :
      (onward : ℕ → Option (ChunkLists a default_list × Bool)) (s : ChunkLists a default_list)
      (k : ℕ)
      → usage (s.chunks k) ≡ 0
      → move_0 a default_list onward 1 s k ≡ some (s, false)
  unfolding move_0
  move_0-first onward s k e = rw (eq→== (usage (s.chunks k)) 0 e) refl

  -- Where a chunk may come to stand: on a list that allows its free bytes, or, with all its bytes
  -- free, on none.
  abbrev pub Settles :
      ChunkLists a default_list → ℕ → ℕ → Option (ChunkLists a default_list × Bool) → Type 0
  Settles s k i outcome =
      ((j : ℕ) × (outcome ≡ some (add_0 a default_list j s k, true))
        × (j < i)
        × (at_most (free_bytes (s.chunks k)) ((default_list j).free_max_threshold) ≡ true))
      ⊎ ((outcome ≡ some (s, false)) × (free_bytes (s.chunks k) ≡ 2 ^ 24))

  -- `move0` of a chunk of 16 MiB from a list that does not allow its free bytes fails no assertion, and
  -- ends on a list below that allows them, or answers that the chunk is to be destroyed, and
  -- then all its bytes are free.
  pub move_0-Settles :
      (i left : ℕ) (s : ChunkLists a default_list) (k : ℕ)
      → i ≤ 5
      → i ≤ left
      → usage (s.chunks k) ≡ usage_of (free_bytes (s.chunks k))
      → free_bytes (s.chunks k) ≤ 2 ^ 24
      → at_most (free_bytes (s.chunks k)) ((default_list i).free_max_threshold) ≡ false
      → Settles s k i (move_0 a default_list (λ j. move a default_list left j s k) i s k)
  move_0-Settles zero left s k h f u b e = absurd (ground (arith, b, e))
  move_0-Settles (suc zero) left s k h f u b e =
      let n = free_bytes (s.chunks k) in
      let whole : n ≡ 2 ^ 24 = ground (arith, b, e) in
      let unused : usage_of n ≡ 0 = rw whole refl in
      inr (move_0-first (λ j. move a default_list left j s k) s k (u ∙ unused), whole)
  move_0-Settles (suc (suc i)) zero s k h f u b e = absurd (omega arith)
  move_0-Settles (suc (suc i)) (suc left) s k h f u b e =
      let onward = λ (j : ℕ). move a default_list (suc left) j s k in
      let start =
        move_0-prev onward (suc (suc i)) (suc i) s k
          (prev_of (suc i) (omega arith) (omega (arith, h))) in
      let fits : below (usage (s.chunks k)) ((default_list (suc i)).max_usage) ≡ true =
        rw u (leaves (suc i) (free_bytes (s.chunks k)) (omega arith) (omega (arith, h)) b e) in
      elim (Bool-cases
        (at_most (free_bytes (s.chunks k)) ((default_list (suc i)).free_max_threshold))) [
          | inl here ↦ inl (suc i, start ∙ move-here left (suc i) s k fits here, omega arith, here)
          | inr on ↦
              let next = move-move_0 left (suc i) s k fits on in
              elim (move_0-Settles (suc i) left s k (omega (arith, h)) (omega (arith, f)) u b on) [
                | inl (j, ended, lower, allowed) ↦
                    inl (j, start ∙ next ∙ ended, omega (arith, lower), allowed)
                | inr (ended, whole) ↦ inr (start ∙ next ∙ ended, whole)
              ]
        ]
