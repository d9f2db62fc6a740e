-- ===== src/Memory/Arena.antt =====
-- buffer/PoolArena.cpp: where an allocation goes and what a release does, over the lists of chunks,
-- the thread's cache and the arena's lists of subpages. `none` is a failed assertion or exception of
-- one of the parts. A pooled buffer is its chunk, buffer, handle and largest length, as the caches
-- keep it; a huge one is the size of its own chunk. The counters are unbounded.
pub mod Accounts
pub mod Allocation
pub mod System
pub mod Pieces
pub mod Pool
mod Tests
use mutty.Common.{
  ℕ, ◌+◌, ◌-◌, Bool, true, false, Option, none, some, List, [], ◌∷◌, ◌++◌, ltb, leb, if◌then◌else◌,
  ◌>>=◌,
}
use mutty.Memory.Handle.{is_subpage}
use mutty.Memory.SizeClasses.{SizeClasses, size_to_size_idx, normalize_size}
use mutty.Memory.ThreadCache
use mutty.Memory.ThreadCache.{Entry, ThreadCache, Answer}
use mutty.Memory.ChunkLists
use mutty.Memory.ChunkLists.{ChunkList, ChunkLists}
use mutty.Memory.ChunkLists.Calls.{ChunkCalls}
use mutty.Memory.PoolChunk.{update}

-- What the arena calls besides: the chunk of the first subpage in its list for a size class, `allocate`
-- of that subpage with `initBufWithSubpage`, and what a buffer keeps of its memory.
pub record SubpageCalls (a : ChunkCalls) : Type 0 where
  pub first_subpage : a.Shared → ℕ → Option ℕ
  pub serve : a.Chunk → a.Shared → ℕ → ℕ → Option (a.Chunk × a.Shared × a.Buf)
  pub handle : a.Buf → ℕ
  pub max_length : a.Buf → ℕ

module _ (a : ChunkCalls) (b : SubpageCalls a) (lists : ℕ → ChunkList) (s : SizeClasses) where
  pub record Arena : Type 0 where
    pub chunk_lists : ChunkLists a lists
    pub allocations_small : ℕ
    pub allocations_normal : ℕ
    pub allocations_huge : ℕ
    pub active_bytes_huge : ℕ
    pub deallocations_small : ℕ
    pub deallocations_normal : ℕ
    pub deallocations_huge : ℕ
    -- The chunks of the lists that `destroyChunk` was called with.
    pub destroyed : List ℕ

  pub data Given : Type 0 where
    pooled : Entry → Given
    unpooled : ℕ → Given

  abbrev pub entry_of : ℕ → a.Buf → Entry
  entry_of chunk buf = record {
    chunk = chunk;
    buffer = 0;
    handle = b.handle buf;
    norm_capacity = b.max_length buf;
  }

  -- The counters of `freeChunk`.
  abbrev pub count_release : Arena → ℕ → Bool → Arena
  count_release arena handle finalizer =
      if finalizer
      then arena
      else (if is_subpage handle
          then record arena { deallocations_small = arena.deallocations_small + 1 }
          else record arena { deallocations_normal = arena.deallocations_normal + 1 })

  -- The end of `freeChunk`, with the answer of the list's `free`.
  abbrev pub released : Arena → ℕ → ChunkLists a lists → Bool → Arena
  released arena chunk l true = record arena { chunk_lists = l }
  released arena chunk l false = record arena {
    chunk_lists = l;
    destroyed = arena.destroyed ++ chunk ∷ [];
  }

  -- `freeChunk`; the walk passes six lists at most.
  pub free_chunk : Arena → Entry → Bool → Option Arena
  free_chunk arena e finalizer = do
    i ← arena.chunk_lists.parent e.chunk
    (l, kept) ← ChunkLists.free a lists 6 i arena.chunk_lists e.chunk e.handle
    some (released (count_release arena e.handle finalizer) e.chunk l kept)

  -- What a thread's cache hands back when it is trimmed.
  pub free_entries : Arena → List Entry → Option Arena
  unfolding free_chunk
  free_entries arena [] = some arena
  free_entries arena (e ∷ es) = do arena' ← free_chunk arena e false; free_entries arena' es

  -- `allocateNormal`
  pub allocate_normal : Arena → ℕ → ℕ → Option (Arena × Entry)
  allocate_normal arena req_capacity size_idx = do
    (l, chunk, buf) ← ChunkLists.allocate_normal a lists 6 arena.chunk_lists req_capacity size_idx
    some (record arena { chunk_lists = l }, entry_of chunk buf)

  abbrev pub served : Arena → ℕ → a.Chunk → a.Shared → Arena
  served arena chunk c shared =
      let l = arena.chunk_lists in
      record arena { chunk_lists = record l { chunks = update l.chunks chunk c; shared = shared } }

  -- The first subpage of the list serves.
  pub allocate_on : Arena → ℕ → ℕ → ℕ → Option (Arena × Entry)
  allocate_on arena req_capacity size_idx chunk = do
    let l = arena.chunk_lists
    (c, shared, buf) ← b.serve (l.chunks chunk) l.shared size_idx req_capacity
    some (served arena chunk c shared, entry_of chunk buf)

  -- The part of `tcacheAllocateSmall` without the cache.
  pub allocate_from_subpage : Arena → ℕ → ℕ → Option (Arena × Entry)
  unfolding allocate_normal allocate_on
  allocate_from_subpage arena req_capacity size_idx =
      elim (b.first_subpage arena.chunk_lists.shared size_idx) [
        | none ↦ allocate_normal arena req_capacity size_idx
        | some chunk ↦ allocate_on arena req_capacity size_idx chunk
      ]

  -- The end of the two `tcacheAllocate` functions: what the cache gave, or what the arena gives,
  -- which is then counted.
  abbrev pub given_or :
      (Arena → Option (Arena × Entry))
      → (Arena → Arena)
      → ThreadCache
      → Option Entry
      → Arena
      → Option (Arena × ThreadCache × Given)
  given_or serve counted t (some e) arena = some (arena, t, pooled e)
  given_or serve counted t none arena = do
    (arena', e) ← serve arena
    some (counted arena', t, pooled e)

  -- A sweep of the cache comes before.
  pub cache_or_arena :
      (Arena → Option (Arena × Entry))
      → (Arena → Arena)
      → Answer × ThreadCache
      → Arena
      → Option (Arena × ThreadCache × Given)
  unfolding free_entries
  cache_or_arena serve counted (answer, t) arena = do
    arena' ← free_entries arena answer.freed
    given_or serve counted t answer.given arena'

  pub tcache_allocate_small : Arena → ThreadCache → ℕ → ℕ → Option (Arena × ThreadCache × Given)
  unfolding cache_or_arena allocate_from_subpage
  tcache_allocate_small arena t req_capacity size_idx =
      cache_or_arena (λ x. allocate_from_subpage x req_capacity size_idx)
        (λ x. record x { allocations_small = x.allocations_small + 1 })
        (ThreadCache.allocate_small t size_idx) arena

  pub tcache_allocate_normal : Arena → ThreadCache → ℕ → ℕ → Option (Arena × ThreadCache × Given)
  unfolding cache_or_arena allocate_normal
  tcache_allocate_normal arena t req_capacity size_idx =
      cache_or_arena (λ x. allocate_normal x req_capacity size_idx)
        (λ x. record x { allocations_normal = x.allocations_normal + 1 })
        (ThreadCache.allocate_normal s t size_idx) arena

  -- `allocateHuge` of the normalized capacity
  pub allocate_huge : Arena → ThreadCache → ℕ → Arena × ThreadCache × Given
  allocate_huge arena t capacity = (
    record arena {
      active_bytes_huge = arena.active_bytes_huge + capacity;
      allocations_huge = arena.allocations_huge + 1;
    },
    t,
    unpooled capacity,
  )

  -- `allocate`
  pub allocate : Arena → ThreadCache → ℕ → Option (Arena × ThreadCache × Given)
  unfolding tcache_allocate_small tcache_allocate_normal allocate_huge
  allocate arena t req_capacity =
      let size_idx = size_to_size_idx s req_capacity in
      if leb size_idx s.small_max_size_idx
      then tcache_allocate_small arena t req_capacity size_idx
      else (if ltb size_idx s.n_sizes
          then tcache_allocate_normal arena t req_capacity size_idx
          else do capacity ← normalize_size s req_capacity; some (allocate_huge arena t capacity))

  -- `free` of a pooled buffer, for a thread that has a cache, and for one that has none.
  pub free : Arena → ThreadCache → Entry → Option (Arena × ThreadCache)
  unfolding free_chunk
  free arena t e =
      let (accepted, t') = ThreadCache.add s t (is_subpage e.handle) e in
      if accepted then some (arena, t') else do arena' ← free_chunk arena e false; some (arena', t')

  pub free_uncached : Arena → Entry → Option Arena
  unfolding free_chunk
  free_uncached arena e = free_chunk arena e false

  -- `free` of a huge buffer
  pub free_unpooled : Arena → ℕ → Arena
  free_unpooled arena size = record arena {
    active_bytes_huge = arena.active_bytes_huge - size;
    deallocations_huge = arena.deallocations_huge + 1;
  }
