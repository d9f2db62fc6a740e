-- ===== src/Memory/Allocator.antt =====
-- buffer/PooledByteBufAllocator.cpp: the sizes that its constructor accepts, and which arena a thread
-- gets. `none` is an exception or a failed assertion; the arenas are the numbers of their thread
-- caches, which the constructor of a cache raises.
mod ChunkSize
pub mod Sharing
mod Tests
use mutty.Common.{
  ℕ, zero, suc, ◌+◌, ◌-◌, ◌*◌, ◌/◌, ◌^◌, Option, none, some, List, [], ◌∷◌, ltb, ◌==◌,
  if◌then◌else◌, get_or, set, ◌>>=◌,
}
use Prim.Native.Nat.{bit_and}
use mutty.Memory.MathUtil.{log2}

-- `MIN_PAGE_SIZE` and `MAX_CHUNK_SIZE`
abbrev pub min_page_size : ℕ
min_page_size = 4096

abbrev pub max_chunk_size : ℕ
max_chunk_size = 2 ^ 31 / 2

unfoldable pub validate_and_calculate_page_shifts : ℕ → Option ℕ
validate_and_calculate_page_shifts page_size =
    if ltb page_size min_page_size
    then none
    else (if bit_and page_size (page_size - 1) == 0 then some (log2 page_size) else none)

-- The loop of `validateAndCalculateChunkSize`, `i` times.
pub double_chunk : ℕ → ℕ → Option ℕ
double_chunk zero chunk_size = some chunk_size
double_chunk (suc i) chunk_size =
    let rest = double_chunk i (chunk_size * 2) in
    if ltb (max_chunk_size / 2) chunk_size then none else rest

pub validate_and_calculate_chunk_size : ℕ → ℕ → Option ℕ
unfolding double_chunk
validate_and_calculate_chunk_size page_size max_order =
    if ltb max_order 14 then double_chunk max_order page_size else none

-- The loop of `leastUsedArena` over the arenas left, from number `i` on, with the least so far.
pub least_used_from : List ℕ → ℕ → ℕ → ℕ → ℕ
least_used_from [] i min_arena min_count = min_arena
least_used_from (count ∷ counts) i min_arena min_count =
    if ltb count min_count
    then least_used_from counts (suc i) i count
    else least_used_from counts (suc i) min_arena min_count

pub least_used_arena : List ℕ → Option ℕ
unfolding least_used_from
least_used_arena [] = none
least_used_arena (count ∷ counts) = some (least_used_from counts 1 0 count)

-- `initialValue`, which makes the cache of a new thread: its arena, and the arenas with it.
pub initial_value : List ℕ → Option (ℕ × List ℕ)
unfolding least_used_arena
initial_value counts = do
  arena ← least_used_arena counts
  some (arena, set counts arena (get_or counts arena 0 + 1))

-- `k` threads, one after the other
pub new_threads : ℕ → List ℕ → Option (List ℕ)
unfolding initial_value
new_threads zero counts = some counts
new_threads (suc k) counts = do (arena, counts') ← initial_value counts; new_threads k counts'
