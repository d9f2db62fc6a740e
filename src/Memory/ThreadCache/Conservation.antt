-- ===== src/Memory/ThreadCache/Conservation.antt =====
-- No memory is lost in a thread's cache (buffer/PoolThreadCache.cpp).
use mutty.Common.{
  ℕ, zero, suc, ◌+◌, ◌-◌, ◌≡◌, refl, sym, ap, ◌∙◌, ◌⊎◌, inl, inr, Bool, true, false, Option, none,
  some, List, [], ◌∷◌, ◌++◌, arith, ltb, leb, if◌then◌else◌, Bool-cases, eq_of_some, none-ne_some,
  get_elem?, set, take, drop, take-append_drop,
}
use mutty.Memory.SizeClasses.{SizeClasses, size_to_size_idx}
use mutty.Memory.ThreadCache.{
  Entry, RegionCache, ThreadCache, Call, push, pop, trim_region, free_whole, each, trim, free_all,
  sweep, put_small, put_normal, allocate_from, allocate_small, allocate_normal, normal_at, add_to,
  add, taken_in, step,
}

-- How many entries of a list pass a test.
unfoldable pub count : (Entry → Bool) → List Entry → ℕ
count p [] = 0
count p (x ∷ xs) = (if p x then 1 else 0) + count p xs

abbrev pub count_some : (Entry → Bool) → Option Entry → ℕ
count_some p none = 0
count_some p (some x) = if p x then 1 else 0

unfoldable pub held_in : (Entry → Bool) → List RegionCache → ℕ
unfolding count
held_in p [] = 0
held_in p (c ∷ cs) = count p c.queue + held_in p cs

-- How many entries in the caches of a thread pass a test.
unfoldable pub held : (Entry → Bool) → ThreadCache → ℕ
unfolding held_in
held p t = held_in p t.small_caches + held_in p t.normal_caches

list_cases : (xs : List Entry) → (xs ≡ []) ⊎ ((x : Entry) × (rest : List Entry) × (xs ≡ x ∷ rest))
list_cases [] = inl refl
list_cases (x ∷ xs) = inr (x, xs, refl)

module _ (p : Entry → Bool) where
  pub count-append : (xs ys : List Entry) → count p (xs ++ ys) ≡ count p xs + count p ys
  unfolding count
  count-append [] ys = omega arith
  count-append (x ∷ xs) ys = omega (arith, count-append xs ys)

  -- What a function that frees takes out of a cache and leaves in it.
  abbrev Splits : (RegionCache → List Entry × RegionCache) → Type 0
  Splits f = (c : RegionCache) → count p (f c).0 + count p (f c).1.queue ≡ count p c.queue

  trim_region-Splits : Splits trim_region
  unfolding count
  trim_region-Splits c = elim (Bool-cases (ltb 0 (c.size - c.allocations))) [
    | inl e ↦
        let n = c.size - c.allocations in
        rw e (
          sym (count-append (take n c.queue) (drop n c.queue))
          ∙ ap (count p) (take-append_drop n c.queue))
    | inr e ↦ rw e (omega arith)
  ]

  free_whole-Splits : Splits free_whole
  unfolding count
  free_whole-Splits c = omega arith

  held-each :
      (f : RegionCache → List Entry × RegionCache)
      → Splits f
      → (cs : List RegionCache) → count p (each f cs).0 + held_in p (each f cs).1 ≡ held_in p cs
  unfolding each held_in count
  held-each f s [] = refl
  held-each f s (c ∷ cs) = omega (arith, s c, held-each f s cs, count-append (f c).0 (each f cs).0)

  held-trim : (t : ThreadCache) → count p (trim t).0 + held p (trim t).1 ≡ held p t
  unfolding trim held
  held-trim t =
      let small = held-each trim_region trim_region-Splits t.small_caches in
      let normal = held-each trim_region trim_region-Splits t.normal_caches in
      omega (
        arith,
        small,
        normal,
        count-append (each trim_region t.small_caches).0 (each trim_region t.normal_caches).0,
      )

  held-free_all : (t : ThreadCache) → count p (free_all t).0 + held p (free_all t).1 ≡ held p t
  unfolding free_all held count
  held-free_all t = elim (Bool-cases t.to_free) [
    | inl e ↦ rw e (omega arith)
    | inr e ↦
        let small = held-each free_whole free_whole-Splits t.small_caches in
        let normal = held-each free_whole free_whole-Splits t.normal_caches in
        rw e (
          omega (
            arith,
            small,
            normal,
            count-append (each free_whole t.small_caches).0 (each free_whole t.normal_caches).0,
          ))
  ]

  held-sweep : (t : ThreadCache) → count p (sweep t).0 + held p (sweep t).1 ≡ held p t
  unfolding sweep held count
  held-sweep t = elim (Bool-cases (leb t.free_sweep_allocation_threshold (t.allocations + 1))) [
    | inl e ↦ rw e (held-trim (record t { allocations = 0 }))
    | inr e ↦ rw e (omega arith)
  ]

  held-set :
      (cs : List RegionCache) (i : ℕ) (c c' : RegionCache)
      → get_elem? cs i ≡ some c
      → held_in p (set cs i c') + count p c.queue ≡ held_in p cs + count p c'.queue
  unfolding held_in
  held-set [] i c c' e = absurd (none-ne_some e)
  held-set (d ∷ cs) zero c c' e =
      let same = ap (λ (x : RegionCache). count p x.queue) (eq_of_some e) in omega (arith, same)
  held-set (d ∷ cs) (suc i) c c' e = omega (arith, held-set cs i c c' e)

  count-pop : (c : RegionCache) → count_some p (pop c).0 + count p (pop c).1.queue ≡ count p c.queue
  unfolding count
  count-pop c = elim (list_cases c.queue) [ inl e ↦ rw e refl | inr (x, xs, e) ↦ rw e refl ]

  -- A cache that a lookup has found is set back where it was.
  abbrev Replaces : Option RegionCache → (RegionCache → ThreadCache) → ThreadCache → Type 0
  Replaces cache put t =
      (c c' : RegionCache)
      → cache ≡ some c
      → held p (put c') + count p c.queue ≡ held p t + count p c'.queue

  put_small-Replaces :
      (t : ThreadCache) (i : ℕ) → Replaces (get_elem? t.small_caches i) (put_small t i) t
  unfolding held
  put_small-Replaces t i c c' e = omega (arith, held-set t.small_caches i c c' e)

  put_normal-Replaces :
      (s : SizeClasses) (t : ThreadCache) (i : ℕ)
      → Replaces (normal_at s t i) (put_normal t (i - s.n_subpages)) t
  unfolding held
  put_normal-Replaces s t i c c' e = elim (Bool-cases (ltb i s.n_subpages)) [
    | inl b ↦ absurd (none-ne_some (rw b at e))
    | inr b ↦ omega (arith, held-set t.normal_caches (i - s.n_subpages) c c' (rw b at e))
  ]

  held-allocate_from :
      (cache : Option RegionCache) (put : RegionCache → ThreadCache) (t : ThreadCache)
      → Replaces cache put t
      → let (answer, t') = allocate_from cache put t in
        count_some p answer.given + count p answer.freed + held p t' ≡ held p t
  unfolding allocate_from count
  held-allocate_from none put t r = omega arith
  held-allocate_from (some c) put t r =
      omega (arith, held-sweep (put (pop c).1), r c (pop c).1 refl, count-pop c)

  held-add_to :
      (cache : Option RegionCache) (put : RegionCache → ThreadCache) (t : ThreadCache)
      (entry : Entry)
      → Replaces cache put t
      → let (accepted, t') = add_to cache put t entry in
        held p t' ≡ held p t + count p (taken_in entry accepted)
  unfolding add_to count
  held-add_to none put t entry r = omega arith
  held-add_to (some c) put t entry r =
      let more : count p (c.queue ++ entry ∷ [])
          ≡ count p c.queue + ((if p entry then 1 else 0) + 0) =
        count-append c.queue (entry ∷ []) in
      omega (arith, r c (push c entry) refl, more)

  pub held-allocate_small :
      (t : ThreadCache) (i : ℕ)
      → let (answer, t') = allocate_small t i in
        held p t ≡ count_some p answer.given + count p answer.freed + held p t'
  unfolding allocate_small
  held-allocate_small t i =
      sym
        (held-allocate_from (get_elem? t.small_caches i) (put_small t i) t (put_small-Replaces t i))

  pub held-allocate_normal :
      (s : SizeClasses) (t : ThreadCache) (i : ℕ)
      → let (answer, t') = allocate_normal s t i in
        held p t ≡ count_some p answer.given + count p answer.freed + held p t'
  unfolding allocate_normal
  held-allocate_normal s t i = sym (
      held-allocate_from (normal_at s t i) (put_normal t (i - s.n_subpages)) t
        (put_normal-Replaces s t i))

  pub held-add :
      (s : SizeClasses) (t : ThreadCache) (small : Bool) (entry : Entry)
      → let (accepted, t') = add s t small entry in
        held p t' ≡ held p t + count p (taken_in entry accepted)
  unfolding add
  held-add s t true entry =
      let i = size_to_size_idx s entry.norm_capacity in
      held-add_to (get_elem? t.small_caches i) (put_small t i) t entry (put_small-Replaces t i)
  held-add s t false entry =
      let i = size_to_size_idx s entry.norm_capacity in
      held-add_to (normal_at s t i) (put_normal t (i - s.n_subpages)) t entry
        (put_normal-Replaces s t i)

  -- Whatever test entries are told apart by: those that pass it and were in the caches or are taken
  -- in by a call are, after it, in the caches, with a buffer or back with the arena, each once.
  pub held-step :
      (s : SizeClasses) (t : ThreadCache) (call : Call)
      → let (accepted, answer, t') = step s t call in
        held p t + count p accepted ≡ count_some p answer.given + count p answer.freed + held p t'
  unfolding step count
  held-step s t (Call.take_small i) = omega (arith, held-allocate_small t i)
  held-step s t (Call.take_normal i) = omega (arith, held-allocate_normal s t i)
  held-step s t (Call.give_back small entry) = omega (arith, held-add s t small entry)
  held-step s t Call.trim_each = omega (arith, held-trim t)
  held-step s t Call.free_each = omega (arith, held-free_all t)
