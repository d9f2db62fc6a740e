-- ===== src/Memory/PoolChunk/Runs.antt =====
-- The free runs of a chunk (buffer/PoolChunk.cpp): which handles its queues hold, and that they
-- cover pages of the chunk that do not overlap.
use mutty.Common.{
  ℕ, ◌+◌, ◌≤◌, ◌<◌, ◌≡◌, refl, sym, ap, ◌∙◌, subst, ◌≢◌, ◌⊎◌, inl, inr, Bool, false, ◌&&◌, some,
  arith, ltb, ◌==◌, if◌then◌else◌, Bool-cases, ltb→lt, ltb_false→le, ==→eq, eq→==, ne→==_false,
}
use mutty.Memory.Handle.{calculate_run_offset, calculate_run_pages, is_used, is_subpage}
use mutty.Memory.RunQueue.{RunQueue}
use mutty.Memory.Sizes.{Sizes}
use mutty.Memory.PoolChunk.{PoolChunk, last_page}

-- No page is in both runs.
abbrev pub Apart : ℕ → ℕ → Type 0
Apart h k =
    (calculate_run_offset h + calculate_run_pages h ≤ calculate_run_offset k)
    ⊎ (calculate_run_offset k + calculate_run_pages k ≤ calculate_run_offset h)

-- One of the two keys of a run in the map.
abbrev pub IsEnd : ℕ → ℕ → Type 0
IsEnd key h =
    (key ≡ calculate_run_offset h)
    ⊎ (key ≡ last_page (calculate_run_offset h) (calculate_run_pages h))

-- A run of pages of the chunk that is not in use.
pub record IsRun (chunk_pages h : ℕ) : Type 0 where
  pub some_pages : 1 ≤ calculate_run_pages h
  pub inside : calculate_run_offset h + calculate_run_pages h ≤ chunk_pages
  pub unused : is_used h ≡ false
  pub plain : is_subpage h ≡ false

abbrev pub one_if : Bool → ℕ
one_if b = if b then 1 else 0

pub Apart-ne : (h k : ℕ) → 1 ≤ calculate_run_pages h → Apart h k → h ≢ k
Apart-ne h k p (inl e) s = let same = ap calculate_run_offset s in omega (arith, p, e, same)
Apart-ne h k p (inr e) s =
    let same = ap calculate_run_offset s in
    let size = ap calculate_run_pages s in omega (arith, p, e, same, size)

pub Apart-sym : (h k : ℕ) → Apart h k → Apart k h
Apart-sym h k (inl e) = inr e
Apart-sym h k (inr e) = inl e

module _ (r : RunQueue) (a : Sizes) where
  open a use {chunk_pages, pages_to_page_idx_floor}

  abbrev pub floor_of : ℕ → ℕ
  floor_of h = pages_to_page_idx_floor (calculate_run_pages h)

  -- The run is free: its queue holds it.
  abbrev pub IsFree : PoolChunk r a → ℕ → Type 0
  IsFree c h = 0 < r.holds (c.runs_avail (floor_of h)) h

  pub record IsValid (c : PoolChunk r a) : Type 0 where
    pub queues : (i : ℕ) → r.IsValid (c.runs_avail i)
    pub single : (i h : ℕ) → r.holds (c.runs_avail i) h ≤ 1
    pub placed : (i h : ℕ) → 0 < r.holds (c.runs_avail i) h → i ≡ floor_of h
    pub runs : (h : ℕ) → IsFree c h → IsRun chunk_pages h
    pub apart : (h k : ℕ) → IsFree c h → IsFree c k → h ≢ k → Apart h k
    pub mapped : (key h : ℕ) → c.runs_avail_map key ≡ some h → IsFree c h × IsEnd key h

  -- One run more is free.
  pub record Adds (c c' : PoolChunk r a) (h : ℕ) : Type 0 where
    pub queues : (i : ℕ) → r.IsValid (c'.runs_avail i)
    pub counts :
        (i k : ℕ)
        → r.holds (c'.runs_avail i) k
          ≡ r.holds (c.runs_avail i) k + one_if (floor_of h == i && h == k)
    pub keys :
        (key k : ℕ)
        → c'.runs_avail_map key ≡ some k
        → (c.runs_avail_map key ≡ some k) ⊎ ((k ≡ h) × IsEnd key h)

  -- One run less is free.
  pub record Drops (c c' : PoolChunk r a) (h : ℕ) : Type 0 where
    pub queues : (i : ℕ) → r.IsValid (c'.runs_avail i)
    pub counts :
        (i k : ℕ)
        → r.holds (c'.runs_avail i) k + one_if (floor_of h == i && h == k)
          ≡ r.holds (c.runs_avail i) k
    pub keys :
        (key k : ℕ)
        → c'.runs_avail_map key ≡ some k
        → (c.runs_avail_map key ≡ some k) × (IsEnd key h → ⊥)
    pub small : c'.subpages ≡ c.subpages

  module _ (c c' : PoolChunk r a) (h : ℕ) where
    pub Adds-IsFree : Adds c c' h → (k : ℕ) → IsFree c' k → IsFree c k ⊎ (k ≡ h)
    Adds-IsFree d k f = elim (Bool-cases (h == k)) [
      | inl e ↦ inr (sym (==→eq h k e))
      | inr e ↦ inl (ground (arith, d.counts (floor_of k) k))
    ]

    pub Adds-keeps : Adds c c' h → (k : ℕ) → IsFree c k → IsFree c' k
    Adds-keeps d k f = omega (arith, d.counts (floor_of k) k, f)

    pub Adds-holds : Adds c c' h → IsFree c' h
    Adds-holds d =
        let both : one_if (floor_of h == floor_of h && h == h) ≡ 1 =
          rw (eq→== (floor_of h) (floor_of h) refl, eq→== h h refl) refl in
        omega (arith, d.counts (floor_of h) h, both)

    pub Drops-IsFree : Drops c c' h → IsValid c → (k : ℕ) → IsFree c' k → IsFree c k × (k ≢ h)
    Drops-IsFree d v k f = (
      omega (arith, d.counts (floor_of k) k, f),
      λ e.
          let one : one_if (floor_of h == floor_of k && h == k) ≡ 1 =
            rw (eq→== (floor_of h) (floor_of k) (ap floor_of (sym e)), eq→== h k (sym e)) refl in
          omega (arith, d.counts (floor_of k) k, v.single (floor_of k) k, one, f),
    )

    pub Drops-keeps : Drops c c' h → (k : ℕ) → IsFree c k → k ≢ h → IsFree c' k
    Drops-keeps d k f n =
        let other = ne→==_false h k (λ e. n (sym e)) in
        ground (arith, d.counts (floor_of k) k, other)

    pub Drops-IsValid : Drops c c' h → IsValid c → IsValid c'
    Drops-IsValid d v = record {
      queues = d.queues;
      single = λ i k. omega (arith, d.counts i k, v.single i k);
      placed = λ i k f. v.placed i k (omega (arith, d.counts i k, f));
      runs = λ k f. v.runs k (Drops-IsFree d v k f).0;
      apart = λ k l f g n. v.apart k l (Drops-IsFree d v k f).0 (Drops-IsFree d v l g).0 n;
      mapped = λ key k e.
          let (old, off) = d.keys key k e in
          let (free, end) = v.mapped key k old in
          (Drops-keeps d k free (λ s. absurd (off (subst (IsEnd key) s end))), end);
    }

    pub Adds-IsValid :
        Adds c c' h
        → IsValid c
        → IsRun chunk_pages h
        → ((k : ℕ) → IsFree c k → Apart h k)
        → IsValid c'
    Adds-IsValid d v run away =
        let fresh = λ (i : ℕ) (f : 0 < r.holds (c.runs_avail i) h).
          let place = v.placed i h f in
          let free = subst (λ (j : ℕ). 0 < r.holds (c.runs_avail j) h) place f in
          Apart-ne h h run.some_pages (away h free) refl in
        record {
          queues = d.queues;
          single = λ i k. elim (Bool-cases (h == k)) [
            | inl e ↦
                let same : h ≡ k = ==→eq h k e in
                let absent : r.holds (c.runs_avail i) h ≡ 0 =
                  elim (Bool-cases (ltb 0 (r.holds (c.runs_avail i) h))) [
                    | inl p ↦ absurd (fresh i (ltb→lt _ _ p))
                    | inr p ↦ omega (arith, ltb_false→le _ _ p)
                  ] in
                let here : r.holds (c.runs_avail i) k ≡ 0 =
                  subst (λ (l : ℕ). r.holds (c.runs_avail i) l ≡ 0) same absent in
                ground (arith, d.counts i k, here)
            | inr e ↦ ground (arith, d.counts i k, v.single i k)
          ];
          placed = λ i k f. elim (Bool-cases (ltb 0 (r.holds (c.runs_avail i) k))) [
            | inl p ↦ v.placed i k (ltb→lt _ _ p)
            | inr p ↦
                let new : (floor_of h ≡ i) × (h ≡ k) = ground (arith, d.counts i k, p) in
                sym new.0 ∙ ap floor_of new.1
          ];
          runs = λ k f. elim (Adds-IsFree d k f) [
            | inl g ↦ v.runs k g
            | inr e ↦ subst (IsRun chunk_pages) (sym e) run
          ];
          apart = λ k l f g n. elim (Adds-IsFree d k f) [
            | inl old ↦ elim (Adds-IsFree d l g) [
              | inl old' ↦ v.apart k l old old' n
              | inr e ↦ subst (λ (t : ℕ). Apart k t) (sym e) (Apart-sym h k (away k old))
            ]
            | inr e ↦ elim (Adds-IsFree d l g) [
              | inl old ↦ subst (λ (t : ℕ). Apart t l) (sym e) (away l old)
              | inr e' ↦ absurd (n (e ∙ sym e'))
            ]
          ];
          mapped = λ key k e. elim (d.keys key k e) [
            | inl old ↦ let (free, end) = v.mapped key k old in (Adds-keeps d k free, end)
            | inr (same, end) ↦
                (subst (IsFree c') (sym same) (Adds-holds d), subst (IsEnd key) (sym same) end)
          ];
        }
