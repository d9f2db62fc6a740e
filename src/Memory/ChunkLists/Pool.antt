-- ===== src/Memory/ChunkLists/Pool.antt =====
-- The chunks of buffer/PoolChunk.cpp behind what the lists of an arena call.
use mutty.Common.{ℕ, List}
use mutty.Memory.RunQueue.{RunQueue}
use mutty.Memory.Sizes.{Sizes}
use mutty.Memory.PoolChunk.{PoolChunk, new_chunk, usage}
use mutty.Memory.PoolChunk.Buffers.{Region, allocate, free}
use mutty.Memory.ChunkLists.Calls.{ChunkCalls}

abbrev pub pool_chunk_calls : (r : RunQueue) → Sizes → ChunkCalls
pool_chunk_calls r a = record {
  Chunk = PoolChunk r a;
  Shared = List ℕ;
  Buf = Region;
  new_chunk = new_chunk r a;
  allocate = allocate r a;
  free = free r a;
  free_bytes = λ c. c.free_bytes;
  usage = usage r a;
  size_idx_to_size = a.size_idx_to_size;
}
