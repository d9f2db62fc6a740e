-- ===== src/Memory/PoolChunk/Pages.antt =====
-- The pages of a chunk (buffer/PoolChunk.cpp) that are free, and what it is to take some.
use mutty.Common.{ℕ, ◌+◌, ◌≤◌, ◌<◌, ◌≡◌, ◌⊎◌, true, false}
use mutty.Memory.Handle.{calculate_run_offset, calculate_run_pages, is_used, is_subpage}
use mutty.Memory.RunQueue.{RunQueue}
use mutty.Memory.Sizes.{Sizes}
use mutty.Memory.PoolChunk.{PoolChunk}
use mutty.Memory.PoolChunk.Runs.{Apart, IsValid, IsFree}

-- The page is in the run.
abbrev pub InRun : ℕ → ℕ → Type 0
InRun page h =
    (calculate_run_offset h ≤ page) × (page < calculate_run_offset h + calculate_run_pages h)

module _ (r : RunQueue) (a : Sizes) where
  open a use {chunk_pages}

  abbrev pub IsFreePage : PoolChunk r a → ℕ → Type 0
  IsFreePage c page = (h : ℕ) × IsFree r a c h × InRun page h

  -- A run of `need` pages was taken, and nothing else.
  pub record Takes (c c' : PoolChunk r a) (need h : ℕ) : Type 0 where
    pub valid : IsValid r a c'
    pub used : is_used h ≡ true
    pub plain : is_subpage h ≡ false
    pub pages : calculate_run_pages h ≡ need
    pub inside : calculate_run_offset h + calculate_run_pages h ≤ chunk_pages
    pub was_free : (page : ℕ) → InRun page h → IsFreePage c page
    pub apart : (k : ℕ) → IsFree r a c' k → Apart h k
    pub kept : (page : ℕ) → IsFreePage c page → IsFreePage c' page ⊎ InRun page h
    pub old : (page : ℕ) → IsFreePage c' page → IsFreePage c page
    pub small : c'.subpages ≡ c.subpages
