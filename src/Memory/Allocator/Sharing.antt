-- ===== src/Memory/Allocator/Sharing.antt =====
-- How the threads share the arenas (`leastUsedArena` in buffer/PooledByteBufAllocator.cpp).
use mutty.Common.{
  ℕ, zero, suc, ◌+◌, ◌≤◌, ◌<◌, ◌≡◌, refl, ap, ◌∙◌, subst, some, List, [], ◌∷◌, arith, ltb,
  if◌then◌else◌, inl, inr, Bool-cases, length, get_or, set, length-set, get_or-set, ltb→lt,
  ltb_false→le, ◌>>=◌,
}
use native.Mathlib.Decide.{dec_lt}
use mutty.Memory.Allocator.{least_used_from, least_used_arena, initial_value, new_threads}

-- `f` reads the list from number `i` on.
abbrev Reads : (ℕ → ℕ) → ℕ → List ℕ → Type 0
Reads f i xs = (k : ℕ) → k < length xs → f (i + k) ≡ get_or xs k 0

widen :
    (i n : ℕ) (f : ℕ → ℕ) (r : ℕ)
    → (r < suc i + n) × ((j : ℕ) → j < suc i + n → f r ≤ f j)
    → (r < i + suc n) × ((j : ℕ) → j < i + suc n → f r ≤ f j)
widen i n f r h = (omega (arith, h.0), λ j l. h.1 j (omega (arith, l)))

-- A bound for the numbers below `i`, and for `i` itself.
one_more :
    (f : ℕ → ℕ) (i bound : ℕ)
    → ((j : ℕ) → j < i → bound ≤ f j)
    → bound ≤ f i
    → (j : ℕ) → j < suc i
    → bound ≤ f j
one_more f i bound below here j l = elim (dec_lt j i) [
  | yes m ↦ below j m
  | no m ↦ subst (λ k. bound ≤ f k) {x = i} (omega (arith, l, m)) here
]

least_used_from-least :
    (f : ℕ → ℕ) (xs : List ℕ) (i arena count : ℕ)
    → Reads f i xs
    → f arena ≡ count
    → arena < i
    → ((j : ℕ) → j < i → count ≤ f j)
    → let r = least_used_from xs i arena count in
      (r < i + length xs) × ((j : ℕ) → j < i + length xs → f r ≤ f j)
unfolding least_used_from
least_used_from-least f [] i arena count reads here inside least =
    (omega (arith, inside), λ j l. omega (arith, here, least j (omega (arith, l))))
least_used_from-least f (x ∷ xs) i arena count reads here inside least =
    let fx : f i ≡ x = ap f {x = i} (omega arith) ∙ reads 0 (omega arith) in
    let next : Reads f (suc i) xs =
      λ k l. ap f {x = suc i + k} (omega arith) ∙ reads (suc k) (omega (arith, l)) in
    elim (Bool-cases (ltb x count)) [
      | inl e ↦
          let below = ltb→lt x count e in
          rw e (
            widen i (length xs) f (least_used_from xs (suc i) i x) (
              least_used_from-least f xs (suc i) i x next fx (omega arith)
                (one_more f i x (λ j l. omega (arith, below, least j l)) (omega (arith, fx)))))
      | inr e ↦
          let above = ltb_false→le x count e in
          rw e (
            widen i (length xs) f (least_used_from xs (suc i) arena count) (
              least_used_from-least f xs (suc i) arena count next here (omega (arith, inside))
                (one_more f i count least (omega (arith, above, fx)))))
    ]

-- The counts of thread caches are `m` or one more.
unfoldable pub Even : ℕ → List ℕ → Type 0
Even m counts = (j : ℕ) → j < length counts → (m ≤ get_or counts j 0) × (get_or counts j 0 ≤ m + 1)

pub total : List ℕ → ℕ
total [] = 0
total (n ∷ ns) = n + total ns

total-set :
    (xs : List ℕ) (i v : ℕ) → i < length xs → total (set xs i v) + get_or xs i 0 ≡ total xs + v
unfolding total
total-set [] i v h = absurd (omega arith)
total-set (x ∷ xs) zero v h = omega arith
total-set (x ∷ xs) (suc i) v h = omega (arith, total-set xs i v (omega (arith, h)))

first : (x : ℕ) (xs : List ℕ) (j : ℕ) → j < 1 → x ≤ get_or (x ∷ xs) j 0
first x xs zero l = omega arith
first x xs (suc j) l = absurd (omega (arith, l))

pub least_used_arena-least :
    (x : ℕ) (xs : List ℕ)
    → (arena : ℕ) × (least_used_arena (x ∷ xs) ≡ some arena)
      × (arena < length (x ∷ xs))
      × ((j : ℕ) → j < length (x ∷ xs) → get_or (x ∷ xs) arena 0 ≤ get_or (x ∷ xs) j 0)
unfolding least_used_arena
least_used_arena-least x xs =
    let (inside, least) =
      least_used_from-least (λ j. get_or (x ∷ xs) j 0) xs 1 0 x
        (λ k l. ap (λ (j : ℕ). get_or (x ∷ xs) j 0) {x = 1 + k} {y = suc k} (omega arith)) refl
        (omega arith) (first x xs) in
    (_, refl, omega (arith, inside), λ j l. least j (omega (arith, l)))

-- The level of the counts after one more thread on a least-used arena.
abbrev level : ℕ → ℕ → ℕ
level m count = if ltb m count then m + 1 else m

set-Even :
    (m arena : ℕ) (xs : List ℕ)
    → Even m xs
    → arena < length xs
    → ((j : ℕ) → j < length xs → get_or xs arena 0 ≤ get_or xs j 0)
    → Even (level m (get_or xs arena 0)) (set xs arena (get_or xs arena 0 + 1))
unfolding Even
set-Even m arena xs even inside least j l =
    let l' : j < length xs = omega (arith, l, length-set xs arena (get_or xs arena 0 + 1)) in
    grind (
      arith,
      even j l',
      even arena inside,
      least j l',
      get_or-set xs arena j (get_or xs arena 0 + 1) 0 inside,
    )

initial_value-some :
    (counts : List ℕ) (arena : ℕ)
    → least_used_arena counts ≡ some arena
    → initial_value counts ≡ some (arena, set counts arena (get_or counts arena 0 + 1))
unfolding initial_value
initial_value-some counts arena e =
    ap (λ o. o >>= λ a. some (a, set counts a (get_or counts a 0 + 1))) e

new_threads-suc :
    (k arena : ℕ) (counts next : List ℕ)
    → initial_value counts ≡ some (arena, next)
    → new_threads (suc k) counts ≡ new_threads k next
unfolding new_threads
new_threads-suc k arena counts next e = ap (λ o. o >>= λ p. new_threads k p.1) e

-- New threads, however many, get arenas such that the numbers of thread caches of any two arenas
-- differ by one at most if they did before, and each thread adds one to their sum.
pub new_threads-Even :
    (k m : ℕ) (counts : List ℕ)
    → 0 < length counts
    → Even m counts
    → (m' : ℕ) × (counts' : List ℕ) × (new_threads k counts ≡ some counts')
      × Even m' counts'
      × (length counts' ≡ length counts)
      × (total counts' ≡ total counts + k)
unfolding new_threads
new_threads-Even zero m counts h even = (m, counts, refl, even, refl, omega arith)
new_threads-Even (suc k) m [] h even = absurd (omega arith)
new_threads-Even (suc k) m (x ∷ xs) h even =
    let (arena, e, inside, least) = least_used_arena-least x xs in
    let counts = x ∷ xs in
    let next = set counts arena (get_or counts arena 0 + 1) in
    let len = length-set counts arena (get_or counts arena 0 + 1) in
    let (m', counts', r, even', same, sum) =
      new_threads-Even k (level m (get_or counts arena 0)) next (omega (arith, len, h))
        (set-Even m arena counts even inside least) in
    (
      m',
      counts',
      new_threads-suc k arena counts next (initial_value-some counts arena e) ∙ r,
      even',
      same ∙ len,
      omega (arith, sum, total-set counts arena (get_or counts arena 0 + 1) inside),
    )
