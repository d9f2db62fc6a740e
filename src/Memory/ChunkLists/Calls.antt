-- ===== src/Memory/ChunkLists/Calls.antt =====
-- What the lists of an arena (buffer/PoolChunkList.cpp) call on a chunk; an answer without a buffer is
-- `false` in the source. What the chunks of an arena share is its lists of subpages.
use mutty.Common.{ℕ, Option}

pub record ChunkCalls : Type 1 where
  pub Chunk : Type 0
  pub Shared : Type 0
  pub Buf : Type 0
  pub new_chunk : Chunk
  pub allocate : Chunk → Shared → ℕ → ℕ → Option (Chunk × Shared × Option Buf)
  pub free : Chunk → Shared → ℕ → Option (Chunk × Shared)
  pub free_bytes : Chunk → ℕ
  pub usage : Chunk → ℕ
  pub size_idx_to_size : ℕ → ℕ
