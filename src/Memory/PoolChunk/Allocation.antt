-- ===== src/Memory/PoolChunk/Allocation.antt =====
-- What `allocateRun` of buffer/PoolChunk.cpp promises.
use mutty.Common.{
  ℕ, zero, suc, ◌+◌, ◌-◌, ◌*◌, ◌/◌, ◌≤◌, ◌<◌, ◌≡◌, refl, sym, ap, ◌∙◌, subst, ◌≢◌, ◌⊎◌, inl, inr,
  true, false, none, some, arith, ltb, ◌==◌, Bool-cases, Option-cases, eq_of_some, ltb→lt,
  ltb_false→le, ==→eq, eq→==,
}
use mutty.Memory.Handle.{calculate_run_pages, is_used}
use mutty.Memory.RunQueue.{RunQueue}
use mutty.Memory.Sizes.{Sizes}
use mutty.Memory.PoolChunk.{
  PoolChunk, update, chunk_size, page_size, remove_avail_run_at, first_queue, run_first_best_fit,
  split_large_run, use_run, allocate_run,
}
use mutty.Memory.PoolChunk.Runs.{IsValid, IsFree, Drops, floor_of, one_if}
use mutty.Memory.PoolChunk.Updates.{erased_keys}
use mutty.Memory.PoolChunk.Pages.{Takes}
use mutty.Memory.PoolChunk.Splitting.{split_lem}

module _ (r : RunQueue) (a : Sizes) where
  open a use {chunk_pages, n_psizes, pages_to_page_idx}

  -- The run that was polled, out of the queues and the map.
  poll-Drops :
      (c : PoolChunk r a) (idx : ℕ)
      → IsValid r a c
      → r.is_empty (c.runs_avail idx) ≡ false
      → (h : ℕ) × (q : r.Queue) × (r.poll (c.runs_avail idx) ≡ some (h, q))
        × IsFree r a c h
        × (floor_of r a h ≡ idx)
        × Drops r a c
            (remove_avail_run_at r a (record c { runs_avail = update c.runs_avail idx q }) idx h)
            h
  unfolding remove_avail_run_at
  poll-Drops c idx v e =
      let (h, q, polled, valid, counts, least) = r.poll_lem (c.runs_avail idx) (v.queues idx) e in
      let one : one_if (h == h) ≡ 1 = rw (eq→== h h refl) refl in
      let present : 0 < r.holds (c.runs_avail idx) h = omega (arith, counts h, one) in
      let place = v.placed idx h present in
      let free = subst (λ (j : ℕ). 0 < r.holds (c.runs_avail j) h) place present in
      let gone : r.holds q h ≡ 0 = omega (arith, counts h, one, v.single idx h) in
      let (valid', counts') = r.remove_lem q h valid in
      let polled_queues = update c.runs_avail idx q in
      let here : polled_queues idx ≡ q = rw (eq→== idx idx refl) refl in
      (
        h,
        q,
        polled,
        free,
        sym place,
        record {
          queues = λ i. elim (Bool-cases (idx == i)) [
            | inl s ↦ rw s (rw here valid')
            | inr s ↦ rw s (v.queues i)
          ];
          counts = λ i k. elim (Bool-cases (idx == i)) [
            | inl s ↦
                let kept : r.holds (r.remove q h) k + 0 ≡ r.holds q k = rw gone at (counts' k) in
                let before : r.holds (c.runs_avail i) k ≡ r.holds (c.runs_avail idx) k =
                  ap (λ (j : ℕ). r.holds (c.runs_avail j) k) (sym (==→eq idx i s)) in
                rw (ap (λ (j : ℕ). j == i) (sym place), s, here)
                  ((omega (arith, kept, before, counts k)))
            | inr s ↦ rw (ap (λ (j : ℕ). j == i) (sym place), s) (omega arith)
          ];
          small = refl;
          keys = λ key k m.
              erased_keys r a (record c { runs_avail = polled_queues }) idx h key k
                (v.runs h free).some_pages m;
        },
      )

  -- What is left of a chunk but for the count of its free bytes.
  abbrev with_bytes : PoolChunk r a → ℕ → PoolChunk r a
  with_bytes c n = record c { free_bytes = n }

  with_bytes-Takes :
      (c c' : PoolChunk r a) (need h n : ℕ)
      → Takes r a c c' need h
      → Takes r a c (with_bytes c' n) need h
  with_bytes-Takes c c' need h n t = record {
    valid = record {
      queues = t.valid.queues;
      single = t.valid.single;
      placed = t.valid.placed;
      runs = t.valid.runs;
      apart = t.valid.apart;
      mapped = t.valid.mapped;
    };
    used = t.used;
    plain = t.plain;
    pages = t.pages;
    inside = t.inside;
    was_free = t.was_free;
    apart = t.apart;
    kept = t.kept;
    old = t.old;
    small = t.small;
  }

  first_queue-some :
      (left : ℕ) (c : PoolChunk r a) (i k : ℕ)
      → first_queue r a left c i ≡ some k
      → (i ≤ k) × (r.is_empty (c.runs_avail k) ≡ false)
  unfolding first_queue
  first_queue-some zero c i k h = cc
  first_queue-some (suc left) c i k h = elim (Bool-cases (r.is_empty (c.runs_avail i))) [
    | inl e ↦
        let (low, full) = first_queue-some left c (i + 1) k (rw e at h) in
        (omega (arith, low), full)
    | inr e ↦
        let here : some i ≡ some k = rw e at h in
        let same = eq_of_some here in
        (omega (arith, same), subst (λ (j : ℕ). r.is_empty (c.runs_avail j) ≡ false) same e)
  ]

  first_queue-none :
      (left : ℕ) (c : PoolChunk r a) (i k : ℕ)
      → first_queue r a left c i ≡ none
      → i ≤ k
      → k < i + left
      → r.is_empty (c.runs_avail k) ≡ true
  unfolding first_queue
  first_queue-none zero c i k h p q = absurd (omega arith)
  first_queue-none (suc left) c i k h p q = elim (Bool-cases (r.is_empty (c.runs_avail i))) [
    | inl e ↦ elim (Bool-cases (i == k)) [
      | inl s ↦ subst (λ (j : ℕ). r.is_empty (c.runs_avail j) ≡ true) (==→eq i k s) e
      | inr s ↦
          let other : i ≢ k = λ t. absurd (ground (arith, eq→== i k t, s)) in
          first_queue-none left c (i + 1) k (rw e at h) (omega (arith, other)) (omega arith)
    ]
    | inr e ↦ let wrong : some i ≡ none = rw e at h in cc
  ]

  -- The queue that `runFirstBestFit` answers has a run, in a class that is large enough.
  run_first_best_fit-some :
      (c : PoolChunk r a) (page_idx idx : ℕ)
      → page_idx < n_psizes
      → (c.free_bytes ≡ chunk_size r a → r.is_empty (c.runs_avail (n_psizes - 1)) ≡ false)
      → run_first_best_fit r a c page_idx ≡ some idx
      → (page_idx ≤ idx) × (r.is_empty (c.runs_avail idx) ≡ false)
  unfolding run_first_best_fit
  run_first_best_fit-some c page_idx idx b top h =
      elim (Bool-cases (c.free_bytes == chunk_size r a)) [
        | inl e ↦
            let here : some (n_psizes - 1) ≡ some idx = rw e at h in
            let same = eq_of_some here in
            (
              omega (arith, same, b),
              subst (λ (j : ℕ). r.is_empty (c.runs_avail j) ≡ false) same (top (==→eq _ _ e)),
            )
        | inr e ↦ first_queue-some (n_psizes - page_idx) c page_idx idx (rw e at h)
      ]

  run_first_best_fit-none :
      (c : PoolChunk r a) (page_idx k : ℕ)
      → run_first_best_fit r a c page_idx ≡ none
      → page_idx ≤ k
      → k < n_psizes
      → r.is_empty (c.runs_avail k) ≡ true
  unfolding run_first_best_fit
  run_first_best_fit-none c page_idx k h p q = elim (Bool-cases (c.free_bytes == chunk_size r a)) [
    | inl e ↦ let wrong : some (n_psizes - 1) ≡ none = rw e at h in cc
    | inr e ↦
        first_queue-none (n_psizes - page_idx) c page_idx k (rw e at h) p (omega (arith, p, q))
  ]

  use_run_lem :
      (c c' : PoolChunk r a) (idx need h h' : ℕ)
      → is_used h ≡ false
      → split_large_run r a (remove_avail_run_at r a c idx h) h need ≡ some (c', h')
      → calculate_run_pages h' ≡ need
      → use_run r a c idx need h
        ≡ some (with_bytes c' (c'.free_bytes - need * page_size r a), some h')
  unfolding use_run
  use_run_lem c c' idx need h h' u s p = rw (u, s, use_run) (rw p refl)

  allocate_run-use_run :
      (c : PoolChunk r a) (run_size idx h : ℕ) (q : r.Queue)
      → run_first_best_fit r a c (pages_to_page_idx (run_size / page_size r a)) ≡ some idx
      → r.poll (c.runs_avail idx) ≡ some (h, q)
      → allocate_run r a c run_size
        ≡ use_run r a
            (record c { runs_avail = update c.runs_avail idx q })
            idx
            (run_size / page_size r a)
            h
  unfolding allocate_run
  allocate_run-use_run c run_size idx h q f p = rw (f, allocate_run) (rw (p, allocate_run) refl)

  allocate_run-none :
      (c : PoolChunk r a) (run_size : ℕ)
      → run_first_best_fit r a c (pages_to_page_idx (run_size / page_size r a)) ≡ none
      → allocate_run r a c run_size ≡ some (c, none)
  unfolding allocate_run
  allocate_run-none c run_size f = rw (f, allocate_run) refl

  free_bytes-remove :
      (c : PoolChunk r a) (idx h : ℕ) → (remove_avail_run_at r a c idx h).free_bytes ≡ c.free_bytes
  unfolding remove_avail_run_at
  free_bytes-remove c idx h = refl

  -- `allocateRun` of one page at least and of no more than the chunk has, in a valid chunk whose last
  -- queue is not empty if all its bytes are free (a chunk may be valid without that), fails no
  -- assertion. It gives out a run of the pages asked for, all of them free before, keeps every other
  -- free page free and no other page, leaves no free run that overlaps, and counts its bytes; or it
  -- leaves the chunk as it is, and then each free run has a class, its pages rounded down, that is
  -- below the one that the pages asked for are rounded up to.
  pub allocate_run-Takes :
      (c : PoolChunk r a) (run_size : ℕ)
      → IsValid r a c
      → 1 ≤ run_size / page_size r a
      → run_size / page_size r a ≤ chunk_pages
      → (c.free_bytes ≡ chunk_size r a → r.is_empty (c.runs_avail (n_psizes - 1)) ≡ false)
      → ((c' : PoolChunk r a) × (h : ℕ) × (allocate_run r a c run_size ≡ some (c', some h))
          × Takes r a c c' (run_size / page_size r a) h
          × (c'.free_bytes ≡ c.free_bytes - run_size / page_size r a * page_size r a))
        ⊎ ((allocate_run r a c run_size ≡ some (c, none))
            × ((k : ℕ)
                → IsFree r a c k
                → floor_of r a k < n_psizes
                → floor_of r a k < pages_to_page_idx (run_size / page_size r a)))
  allocate_run-Takes c run_size v low high top =
      let need = run_size / page_size r a in
      let idx = pages_to_page_idx need in
      elim (Option-cases (run_first_best_fit r a c idx)) [
        | inl e ↦ inr (
          allocate_run-none c run_size e,
          λ k f b. elim (Bool-cases (ltb (floor_of r a k) idx)) [
            | inl s ↦ ltb→lt _ _ s
            | inr s ↦
                let empty =
                  run_first_best_fit-none c idx (floor_of r a k) e (ltb_false→le _ _ s) b in
                let gone = r.empty_lem (c.runs_avail (floor_of r a k)) k empty in
                absurd (omega (arith, f, gone))
          ],
        )
        | inr (i, e) ↦
            let (large, full) =
              run_first_best_fit-some c idx i (a.class_below need low high) top e in
            let (h, q, polled, free, place, d) = poll-Drops c i v full in
            let run = v.runs h free in
            let fits =
              a.floor_fits need (calculate_run_pages h) low run.some_pages
                (omega (arith, run.inside)) (omega (arith, large, place)) in
            let polled_chunk = record c { runs_avail = update c.runs_avail i q } in
            let c1 = remove_avail_run_at r a polled_chunk i h in
            let (c', h', split, bytes, taken) = split_lem r a c c1 h need v free d low fits in
            inl (
              with_bytes c' (c'.free_bytes - need * page_size r a),
              h',
              allocate_run-use_run c run_size i h q e polled
                  ∙ use_run_lem polled_chunk c' i need h h' run.unused split taken.pages,
              with_bytes-Takes c c' need h' (c'.free_bytes - need * page_size r a) taken,
              ap (λ (t : ℕ). t - need * page_size r a) (bytes ∙ free_bytes-remove polled_chunk i h),
            )
      ]
