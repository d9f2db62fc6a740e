-- ===== src/Memory/PoolChunk.antt =====
-- buffer/PoolChunk.cpp: the runs of pages of a chunk. The vector of queues and the two maps are
-- functions: an index past the vector is not checked by the source either. `none` is a failed
-- assertion, or a loop that has not ended; -1 as a handle or an index is `none` of its option. The
-- lists of subpages of the arena are passed along as the list for the size at hand.
pub mod Runs
pub mod Updates
pub mod Pages
pub mod Splitting
pub mod Allocation
pub mod Collapse
pub mod Release
pub mod Fragments
pub mod Buffers
pub mod Fresh
pub mod RoundTrip
mod Tests
use mutty.Common.{
  ℕ, zero, suc, ◌+◌, ◌-◌, ◌*◌, ◌/◌, ◌%◌, ◌^◌, ◌≤◌, ◌<◌, min, max, ◌≡◌, refl, sym, ap, ◌∙◌, subst,
  ◌≢◌, ◌⊎◌, inl, inr, Bool, true, false, not, ◌&&◌, ◌||◌, Option, none, some, List, [], ◌∷◌, ◌++◌,
  arith, ltb, leb, ◌==◌, if◌then◌else◌, Bool-cases, Option-cases, eq_of_some, ltb→lt, lt→ltb,
  ltb_false→le, le→ltb_false, leb→le, ==→eq, eq→==, ne→==_false, length, get_elem?, get_or, set,
  take, drop, replicate, length-append, length-set, length-take, length-drop, length-replicate,
  take-append_drop, take-append, drop-append, get_or-set, get_or-append,
}
use mutty.Memory.Handle.{
  to_run_handle, calculate_run_offset, calculate_run_pages, calculate_bitmap_idx, is_used,
  is_subpage, mark_used, clear_used, clear_subpage, size_shift,
}
use mutty.Memory.RunQueue.{RunQueue}
use mutty.Memory.Sizes.{Sizes}
use mutty.Memory.Subpage
use mutty.Memory.Subpage.{Subpage}

abbrev pub update {ℓ} : {A : Type ℓ} → (ℕ → A) → ℕ → A → ℕ → A
update f k v j = if k == j then v else f j

-- `lastPage`
abbrev pub last_page : ℕ → ℕ → ℕ
last_page run_offset pages = run_offset + pages - 1

module _ (r : RunQueue) (a : Sizes) where
  open r use {Queue, new_queue, offer, poll}
  open a use {
    page_shifts, chunk_pages, n_psizes, pages_to_page_idx, pages_to_page_idx_floor,
    size_idx_to_size,
  }

  pub record PoolChunk : Type 0 where
    pub runs_avail : ℕ → Queue
    pub runs_avail_map : ℕ → Option ℕ
    pub subpages : ℕ → Option Subpage
    pub free_bytes : ℕ

  abbrev pub page_size : ℕ
  page_size = 2 ^ page_shifts

  abbrev pub chunk_size : ℕ
  chunk_size = chunk_pages * page_size

  -- `insertAvailRun0`; `insert` keeps an entry that is there.
  abbrev pub insert_avail_run_0 : (ℕ → Option ℕ) → ℕ → ℕ → ℕ → Option ℕ
  insert_avail_run_0 map run_offset handle = elim (map run_offset) [
    | none ↦ update map run_offset (some handle)
    | some h ↦ map
  ]

  pub insert_avail_run : PoolChunk → ℕ → ℕ → ℕ → PoolChunk
  insert_avail_run c run_offset pages handle =
      let idx = pages_to_page_idx_floor pages in
      let map = insert_avail_run_0 c.runs_avail_map run_offset handle in
      record c {
        runs_avail = update c.runs_avail idx (offer (c.runs_avail idx) handle);
        runs_avail_map =
            if ltb 1 pages then insert_avail_run_0 map (last_page run_offset pages) handle else map;
      }

  -- The constructor of a pooled chunk.
  pub new_chunk : PoolChunk
  unfolding insert_avail_run
  new_chunk =
      insert_avail_run
        (record {
          runs_avail = λ i. new_queue;
          runs_avail_map = λ k. none;
          subpages = λ i. none;
          free_bytes = chunk_size;
        })
        0 chunk_pages (chunk_pages * 2 ^ size_shift)

  -- `removeAvailRun` with the queue's index.
  pub remove_avail_run_at : PoolChunk → ℕ → ℕ → PoolChunk
  remove_avail_run_at c idx handle =
      let run_offset = calculate_run_offset handle in
      let pages = calculate_run_pages handle in
      let map = update c.runs_avail_map run_offset none in
      record c {
        runs_avail = update c.runs_avail idx (r.remove (c.runs_avail idx) handle);
        runs_avail_map = if ltb 1 pages then update map (last_page run_offset pages) none else map;
      }

  pub remove_avail_run : PoolChunk → ℕ → PoolChunk
  unfolding remove_avail_run_at
  remove_avail_run c handle =
      remove_avail_run_at c (pages_to_page_idx_floor (calculate_run_pages handle)) handle

  pub usage : PoolChunk → ℕ
  usage c =
      let free_percentage = c.free_bytes * 100 / chunk_size in
      if c.free_bytes == 0
      then 100
      else (if free_percentage == 0 then 99 else 100 - free_percentage)

  -- The loop of `runFirstBestFit` over the queues left, from queue `i` on.
  pub first_queue : ℕ → PoolChunk → ℕ → Option ℕ
  first_queue zero c i = none
  first_queue (suc left) c i =
      let rest = first_queue left c (i + 1) in
      if not (r.is_empty (c.runs_avail i)) then some i else rest

  pub run_first_best_fit : PoolChunk → ℕ → Option ℕ
  run_first_best_fit c page_idx =
      if c.free_bytes == chunk_size
      then some (n_psizes - 1)
      else first_queue (n_psizes - page_idx) c page_idx

  pub split_large_run : PoolChunk → ℕ → ℕ → Option (PoolChunk × ℕ)
  unfolding insert_avail_run
  split_large_run c handle need_pages =
      let total_pages = calculate_run_pages handle in
      let rem_pages = total_pages - need_pages in
      let run_offset = calculate_run_offset handle in
      let avail_offset = run_offset + need_pages in
      if need_pages == 0 || ltb total_pages need_pages
      then none
      else (if ltb 0 rem_pages
          then some (
            insert_avail_run c avail_offset rem_pages (to_run_handle avail_offset rem_pages 0),
            to_run_handle run_offset need_pages 1,
          )
          else some (c, mark_used handle))

  -- What `allocateRun` does with the run polled from queue `idx`.
  pub use_run : PoolChunk → ℕ → ℕ → ℕ → Option (PoolChunk × Option ℕ)
  unfolding split_large_run remove_avail_run_at
  use_run c idx pages handle =
      if is_used handle
      then none
      else elim (split_large_run (remove_avail_run_at c idx handle) handle pages) [
        | none ↦ none
        | some (c', h) ↦
            some
              (record c' { free_bytes = c'.free_bytes - calculate_run_pages h * page_size }, some h)
      ]

  pub allocate_run : PoolChunk → ℕ → Option (PoolChunk × Option ℕ)
  unfolding run_first_best_fit use_run
  allocate_run c run_size =
      let pages = run_size / page_size in
      elim (run_first_best_fit c (pages_to_page_idx pages)) [
        | none ↦ some (c, none)
        | some idx ↦ elim (poll (c.runs_avail idx)) [
          | none ↦ none
          | some (handle, q) ↦
              use_run (record c { runs_avail = update c.runs_avail idx q }) idx pages handle
        ]
      ]

  -- `getAvailRunByOffset`, for the offset after and the offset before.
  abbrev pub run_before : PoolChunk → ℕ → Option ℕ
  run_before c run_offset = if run_offset == 0 then none else c.runs_avail_map (run_offset - 1)

  -- A round of `collapsePast` or `collapseNext`: the run to take in and the handle of both, or none.
  pub past_run : PoolChunk → ℕ → Option (ℕ × ℕ)
  past_run c handle =
      let run_offset = calculate_run_offset handle in
      elim (run_before c run_offset) [
        | none ↦ none
        | some past ↦
            let past_offset = calculate_run_offset past in
            let past_pages = calculate_run_pages past in
            if not (past == handle) && past_offset + past_pages == run_offset
            then some (past, to_run_handle past_offset (past_pages + calculate_run_pages handle) 0)
            else none
      ]

  -- The source takes the pages of the next run for its offset.
  pub next_run : PoolChunk → ℕ → Option (ℕ × ℕ)
  next_run c handle =
      let run_offset = calculate_run_offset handle in
      let run_pages = calculate_run_pages handle in
      elim (c.runs_avail_map (run_offset + run_pages)) [
        | none ↦ none
        | some next ↦
            let next_offset = calculate_run_pages next in
            let next_pages = calculate_run_pages next in
            if not (next == handle) && run_offset + run_pages == next_offset
            then some (next, to_run_handle run_offset (run_pages + next_pages) 0)
            else none
      ]

  -- `for (;;)`, by the function that finds the run to take in.
  pub collapse : ℕ → (PoolChunk → ℕ → Option (ℕ × ℕ)) → PoolChunk → ℕ → Option (PoolChunk × ℕ)
  unfolding remove_avail_run
  collapse zero neighbour c handle = none
  collapse (suc fuel) neighbour c handle = elim (neighbour c handle) [
    | none ↦ some (c, handle)
    | some (run, joined) ↦ collapse fuel neighbour (remove_avail_run c run) joined
  ]

  -- `collapseRuns`; every round takes in a page, so a round more than there are pages is enough.
  pub collapse_runs : PoolChunk → ℕ → Option (PoolChunk × ℕ)
  unfolding collapse past_run next_run
  collapse_runs c handle = elim (collapse (chunk_pages + 1) past_run c handle) [
    | none ↦ none
    | some (c', handle') ↦ collapse (chunk_pages + 1) next_run c' handle'
  ]

  -- The end of `free`: a run goes back.
  pub free_run : PoolChunk → ℕ → Option PoolChunk
  unfolding collapse_runs insert_avail_run
  free_run c handle =
      let pages = calculate_run_pages handle in
      elim (collapse_runs c handle) [
        | none ↦ none
        | some (c', run) ↦
            let final_run = clear_subpage (clear_used run) in
            let c'' =
              insert_avail_run c' (calculate_run_offset final_run) (calculate_run_pages final_run)
                final_run in
            some (record c'' { free_bytes = c''.free_bytes + pages * page_size })
      ]
