-- ===== src/Memory/Arena/Pool.antt =====
-- The list of subpages of buffer/PoolArena.cpp for one size, in an arena of one chunk: what
-- `tcacheAllocateSmall` calls on its first subpage.
use mutty.Common.{ℕ, ◌&&◌, Option, none, some, List, [], ◌∷◌, ◌==◌, if◌then◌else◌, ◌>>=◌}
use mutty.Memory.RunQueue.{RunQueue}
use mutty.Memory.Sizes.{Sizes}
use mutty.Memory.Subpage
use mutty.Memory.PoolChunk.{PoolChunk, update}
use mutty.Memory.PoolChunk.Buffers.{Region, init_buf_with_subpage}
use mutty.Memory.ChunkLists.Pool.{pool_chunk_calls}
use mutty.Memory.Arena.{SubpageCalls}

module _ (r : RunQueue) (a : Sizes) where
  pub serve_first : PoolChunk r a → List ℕ → ℕ → ℕ → Option (PoolChunk r a × List ℕ × Region)
  serve_first c [] size_idx req_capacity = none
  serve_first c (run_offset ∷ rest) size_idx req_capacity = do
    s ← c.subpages run_offset
    (s', pool, h) ←
        if s.do_not_destroy && s.elem_size == a.size_idx_to_size size_idx
        then Subpage.allocate s (run_offset ∷ rest)
        else none
    handle ← h
    let c' = record c { subpages = update c.subpages run_offset (some s') }
    region ← init_buf_with_subpage r a c' handle req_capacity
    some (c', pool, region)

  abbrev pub subpage_calls : SubpageCalls (pool_chunk_calls r a)
  subpage_calls = record {
    first_subpage = λ pool size_idx. elim pool [ [] ↦ none | run_offset ∷ rest ↦ some 0 ];
    serve = serve_first;
    handle = λ region. region.handle;
    max_length = λ region. region.max_length;
  }
