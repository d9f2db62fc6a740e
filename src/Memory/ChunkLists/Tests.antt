-- ===== src/Memory/ChunkLists/Tests.antt =====
-- The lists of an arena (buffer/PoolChunkList.cpp) over chunks that are counts of free bytes.
use mutty.Common.{ℕ, ◌+◌, ◌-◌, ◌^◌, ◌≡◌, refl, Bool, true, none, some, arith, leb, if◌then◌else◌}
use mutty.Memory.ChunkLists.Calls.{ChunkCalls}
use mutty.Memory.ChunkLists.{ChunkLists, add_0, free}
use mutty.Memory.ChunkLists.Moves.{default_list, usage_of}
use mutty.Memory.ChunkLists.Places.{
  IsPlaced, IsSettled, no_chunks, no_chunks-IsPlaced, add_0_new-IsPlaced, parent-add_0,
  free-IsSettled,
}

-- A handle is a number of bytes.
abbrev byte_counts : ChunkCalls
byte_counts = record {
  Chunk = ℕ;
  Shared = Bool;
  Buf = ℕ;
  new_chunk = 2 ^ 23;
  allocate = λ c shared req_capacity size_idx.
      if leb size_idx c then some (c - size_idx, shared, some size_idx) else some (c, shared, none);
  free = λ c shared handle. some (c + handle, shared);
  free_bytes = λ c. c;
  usage = usage_of;
  size_idx_to_size = λ i. i;
}

-- Half of each chunk is in use.
abbrev half_used : ChunkLists byte_counts default_list
half_used = no_chunks byte_counts true

abbrev on_q075 : ChunkLists byte_counts default_list
on_q075 = add_0 byte_counts default_list 4 half_used 7

on_q075-IsPlaced : IsPlaced byte_counts on_q075
on_q075-IsPlaced =
    add_0_new-IsPlaced byte_counts half_used 4 7 (no_chunks-IsPlaced byte_counts true) refl

bytes_freed : byte_counts.free (on_q075.chunks 7) on_q075.shared 1000 ≡ some (8389608, true)
unfolding add_0
bytes_freed = refl

free-IsSettled_example :
    (outcome : ChunkLists byte_counts default_list × Bool) × (free byte_counts default_list 5 4
        on_q075 7 1000
      ≡ some outcome)
    × IsSettled byte_counts 7 8389608 outcome
free-IsSettled_example =
    free-IsSettled byte_counts on_q075 4 7 1000 8389608 true on_q075-IsPlaced
      (parent-add_0 byte_counts half_used 4 7) (omega arith) bytes_freed refl (omega arith)
