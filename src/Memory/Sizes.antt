-- ===== src/Memory/Sizes.antt =====
-- What a chunk (buffer/PoolChunk.cpp) needs of the size classes of its arena: the first run class
-- that holds a number of pages, and the last one that a run of pages holds.
use mutty.Common.{ℕ, ◌≤◌, ◌<◌, ◌^◌}

pub record Sizes : Type 0 where
  pub page_shifts : ℕ
  pub chunk_pages : ℕ
  pub n_psizes : ℕ
  pub small_max_size_idx : ℕ
  pub pages_to_page_idx : ℕ → ℕ
  pub pages_to_page_idx_floor : ℕ → ℕ
  pub size_idx_to_size : ℕ → ℕ
  pub size_to_size_idx : ℕ → ℕ
  pub small_chunk : chunk_pages < 2 ^ 14
  -- A run in a class from the first one on that holds `need` pages has that many.
  pub floor_fits :
      (need pages : ℕ)
      → 1 ≤ need
      → 1 ≤ pages
      → pages ≤ chunk_pages
      → pages_to_page_idx need ≤ pages_to_page_idx_floor pages
      → need ≤ pages
  pub class_below : (need : ℕ) → 1 ≤ need → need ≤ chunk_pages → pages_to_page_idx need < n_psizes
