-- ===== src/Memory/Arena/Tests.antt =====
-- An arena over chunks that are counts of free bytes (buffer/PoolArena.cpp).
use mutty.Common.{
  ℕ, ◌+◌, ◌-◌, ◌%◌, ◌^◌, refl, Bool, true, none, some, List, [], ◌∷◌, leb, if◌then◌else◌, OnSome,
}
use mutty.Memory.SizeClasses.Pages.{default_classes}
use mutty.Memory.ThreadCache.Conservation.{held, held_in, count}
use mutty.Memory.ChunkLists.Calls.{ChunkCalls}
use mutty.Memory.ChunkLists.Moves.{default_list, usage_of}
use mutty.Memory.ChunkLists.Places.{no_chunks}
use mutty.Memory.Arena.{SubpageCalls}
use mutty.Memory.Arena.System.Returned.{logged_calls, logged_subpages, Returned, run-Returned}
use mutty.Memory.Arena.System.{
  Use, allocates, frees, frees_elsewhere, frees_huge, System, Balanced, run,
}

-- A handle is a number of bytes, with the flag of a subpage up to the largest small class.
abbrev byte_counts : ChunkCalls
byte_counts = record {
  Chunk = ℕ;
  Shared = Bool;
  Buf = ℕ;
  new_chunk = 2 ^ 24;
  allocate = λ c shared req_capacity size_idx.
      if leb req_capacity c
      then some (c - req_capacity, shared, some req_capacity)
      else some (c, shared, none);
  free = λ c shared handle. some (c + handle % 2 ^ 32, shared);
  free_bytes = λ c. c;
  usage = usage_of;
  size_idx_to_size = λ i. i;
}

abbrev no_subpages : SubpageCalls byte_counts
no_subpages = record {
  first_subpage = λ shared size_idx. none;
  serve = λ c shared size_idx req_capacity. none;
  handle = λ bytes. if leb bytes 28672 then 2 ^ 32 + bytes else bytes;
  max_length = λ bytes. bytes;
}

abbrev empty_arena :
    System
      (logged_calls byte_counts no_subpages)
      (logged_subpages byte_counts no_subpages)
      default_list
      default_classes
empty_arena = record {
  arena = record {
    chunk_lists = no_chunks (logged_calls byte_counts no_subpages) (true, ([], []));
    allocations_small = 0;
    allocations_normal = 0;
    allocations_huge = 0;
    active_bytes_huge = 0;
    deallocations_small = 0;
    deallocations_normal = 0;
    deallocations_huge = 0;
    destroyed = [];
  };
  cache = record {
    small_caches = (record { size = 4; allocations = 0; queue = [] }) ∷ [];
    normal_caches = [];
    allocations = 0;
    free_sweep_allocation_threshold = 8192;
    to_free = true;
  };
  live = [];
  huge = [];
}

-- A small buffer is released to the cache and taken again, a page is released to its chunk, and a huge
-- buffer comes and goes.
abbrev uses : List Use
uses =
    allocates 16
    ∷ frees 0
    ∷ allocates 10
    ∷ allocates 40960
    ∷ frees_elsewhere 1
    ∷ allocates (2 ^ 25)
    ∷ frees_huge 0
    ∷ []

run-Returned_example :
    OnSome
      (λ z.
        Balanced
          (logged_calls byte_counts no_subpages)
          (logged_subpages byte_counts no_subpages)
          default_list
          default_classes
          z
        × Returned byte_counts no_subpages default_list default_classes z)
      (run
        (logged_calls byte_counts no_subpages)
        (logged_subpages byte_counts no_subpages)
        default_list
        default_classes
        empty_arena
        uses)
unfolding held held_in count
run-Returned_example =
    run-Returned byte_counts no_subpages default_list default_classes uses empty_arena
      (record { pooled_memory = refl; huge_buffers = refl; huge_bytes = refl }) (λ h. refl)
