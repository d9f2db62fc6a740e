-- ===== src/Memory/PoolChunk/Updates.antt =====
-- What putting a run into the queues and the map of a chunk does, and taking it out
-- (`insertAvailRun`, `removeAvailRun` of buffer/PoolChunk.cpp).
use mutty.Common.{
  ℕ, ◌+◌, ◌≤◌, ◌≡◌, refl, sym, ap, ◌∙◌, subst, ◌≢◌, ◌⊎◌, inl, inr, ◌&&◌, Option, none, some, arith,
  ltb, ◌==◌, if◌then◌else◌, Bool-cases, Option-cases, eq_of_some, lt→ltb, ltb_false→le, ==→eq,
  eq→==,
}
use mutty.Memory.Handle.{calculate_run_offset, calculate_run_pages}
use mutty.Memory.RunQueue.{RunQueue}
use mutty.Memory.Sizes.{Sizes}
use mutty.Memory.PoolChunk.{
  PoolChunk, update, last_page, insert_avail_run_0, insert_avail_run, remove_avail_run_at,
  remove_avail_run,
}
use mutty.Memory.PoolChunk.Runs.{IsEnd, IsFree, Adds, Drops, floor_of, one_if}

module _ (r : RunQueue) (a : Sizes) where
  open a use {pages_to_page_idx_floor}

  insert_key :
      (map : ℕ → Option ℕ) (run_offset h key k : ℕ)
      → insert_avail_run_0 r a map run_offset h key ≡ some k
      → (map key ≡ some k) ⊎ ((k ≡ h) × (key ≡ run_offset))
  insert_key map run_offset h key k e = elim (Option-cases (map run_offset)) [
    | inl absent ↦ elim (Bool-cases (run_offset == key)) [
      | inl same ↦
          let new : some h ≡ some k = rw same at (rw (absent, insert_avail_run_0) at e) in
          inr (sym (eq_of_some new), sym (==→eq _ _ same))
      | inr other ↦ inl (rw other at (rw (absent, insert_avail_run_0) at e))
    ]
    | inr (g, present) ↦ inl (rw (present, insert_avail_run_0) at e)
  ]

  pub insert-Adds :
      (c : PoolChunk r a) (h run_offset pages : ℕ)
      → ((i : ℕ) → r.IsValid (c.runs_avail i))
      → calculate_run_offset h ≡ run_offset
      → calculate_run_pages h ≡ pages
      → Adds r a c (insert_avail_run r a c run_offset pages h) h
  unfolding insert_avail_run
  insert-Adds c h run_offset pages v o p =
      let idx = pages_to_page_idx_floor pages in
      let place : floor_of r a h ≡ idx = ap pages_to_page_idx_floor p in
      let (valid, counts) = r.offer_lem (c.runs_avail idx) h (v idx) in
      record {
        queues = λ i. elim (Bool-cases (idx == i)) [ inl e ↦ rw e valid | inr e ↦ rw e (v i) ];
        counts = λ i k. elim (Bool-cases (idx == i)) [
          | inl e ↦
              let same : idx ≡ i = ==→eq idx i e in
              subst
                (λ (j : ℕ).
                  r.holds (if idx == j then r.offer (c.runs_avail idx) h else c.runs_avail j) k
                  ≡ r.holds (c.runs_avail j) k + one_if (floor_of r a h == j && h == k))
                same (rw (eq→== idx idx refl, place) (rw (eq→== idx idx refl) (counts k)))
          | inr e ↦ rw (place, e) (omega arith)
        ];
        keys = λ key k e. elim (Bool-cases (ltb 1 pages)) [
          | inl long ↦
              let map = insert_avail_run_0 r a c.runs_avail_map run_offset h in
              elim (insert_key map (last_page run_offset pages) h key k (rw long at e)) [
                | inl old ↦ elim (insert_key c.runs_avail_map run_offset h key k old) [
                  | inl old' ↦ inl old'
                  | inr (s, t) ↦ inr (s, inl (t ∙ sym o))
                ]
                | inr (s, t) ↦ inr (s, inr (omega (arith, t, o, p)))
              ]
          | inr short ↦ elim (insert_key c.runs_avail_map run_offset h key k (rw short at e)) [
            | inl old ↦ inl old
            | inr (s, t) ↦ inr (s, inl (t ∙ sym o))
          ]
        ];
      }

  erase_key :
      (map : ℕ → Option ℕ) (gone key k : ℕ)
      → update map gone none key ≡ some k
      → (map key ≡ some k) × (key ≢ gone)
  erase_key map gone key k e = elim (Bool-cases (gone == key)) [
    | inl same ↦ let wrong : none ≡ some k = rw same at e in cc
    | inr other ↦ (rw other at e, λ s. absurd (ground (arith, eq→== gone key (sym s), other)))
  ]

  -- The map after `removeAvailRun` keeps neither key of the run.
  pub erased_keys :
      (c : PoolChunk r a) (idx h key k : ℕ)
      → 1 ≤ calculate_run_pages h
      → (remove_avail_run_at r a c idx h).runs_avail_map key ≡ some k
      → (c.runs_avail_map key ≡ some k) × (IsEnd key h → ⊥)
  unfolding remove_avail_run_at
  erased_keys c idx h key k p e =
      let first = calculate_run_offset h in
      let pages = calculate_run_pages h in
      elim (Bool-cases (ltb 1 pages)) [
        | inl long ↦
            let map = update c.runs_avail_map first none in
            let (old, n) = erase_key map (last_page first pages) key k (rw long at e) in
            let (old', n') = erase_key c.runs_avail_map first key k old in
            (old', λ end. elim end [ inl s ↦ n' s | inr s ↦ n s ])
        | inr short ↦
            let (old, n) = erase_key c.runs_avail_map first key k (rw short at e) in
            let one : pages ≡ 1 = omega (arith, p, ltb_false→le 1 pages short) in
            (old, λ end. elim end [ inl s ↦ n s | inr s ↦ n (omega (arith, s, one)) ])
      ]

  -- Once its queue holds no more of a run than it did less one, and `removeAvailRun` has run.
  pub remove-Drops :
      (c : PoolChunk r a) (h : ℕ)
      → ((i : ℕ) → r.IsValid (c.runs_avail i))
      → 1 ≤ calculate_run_pages h
      → IsFree r a c h
      → Drops r a c (remove_avail_run r a c h) h
  unfolding remove_avail_run remove_avail_run_at
  remove-Drops c h v p f =
      let idx = floor_of r a h in
      let (valid, counts) = r.remove_lem (c.runs_avail idx) h (v idx) in
      record {
        queues = λ i. elim (Bool-cases (idx == i)) [ inl e ↦ rw e valid | inr e ↦ rw e (v i) ];
        counts = λ i k. elim (Bool-cases (idx == i)) [
          | inl e ↦
              let same : idx ≡ i = ==→eq idx i e in
              let taken : r.holds (r.remove (c.runs_avail idx) h) k + one_if (h == k)
                  ≡ r.holds (c.runs_avail idx) k =
                rw (lt→ltb _ _ f) at (counts k) in
              subst
                (λ (j : ℕ).
                  r.holds (if idx == j then r.remove (c.runs_avail idx) h else c.runs_avail j) k
                    + one_if (idx == j && h == k)
                  ≡ r.holds (c.runs_avail j) k)
                same (rw (eq→== idx idx refl) taken)
          | inr e ↦ rw e (omega arith)
        ];
        keys = λ key k e. erased_keys c idx h key k p e;
        small = refl;
      }
