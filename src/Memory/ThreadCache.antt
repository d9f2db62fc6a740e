-- ===== src/Memory/ThreadCache.antt =====
-- buffer/PoolThreadCache.cpp and PoolThreadCache.h: the memory that a thread keeps of its arena. The
-- entries that an operation hands to a buffer's `initBuf` and those that it hands to `freeChunk` of
-- the arena are its answers, in order. `none` as a cache is a null pointer; the reuse of the entries'
-- own storage is left out.
pub mod Conservation
mod Tests
use mutty.Common.{
  ℕ, zero, suc, ◌+◌, ◌-◌, ◌*◌, ◌/◌, ◌%◌, ◌^◌, ◌≤◌, ◌<◌, min, max, ◌≡◌, refl, sym, ap, ◌∙◌, subst,
  ◌≢◌, ◌⊎◌, inl, inr, Bool, true, false, not, ◌&&◌, ◌||◌, Option, none, some, List, [], ◌∷◌, ◌++◌,
  arith, ltb, leb, ◌==◌, if◌then◌else◌, Bool-cases, Option-cases, eq_of_some, none-ne_some, ltb→lt,
  lt→ltb, ltb_false→le, le→ltb_false, leb→le, ==→eq, eq→==, ne→==_false, length, get_elem?, get_or,
  set, take, drop, replicate, length-append, length-set, length-take, length-drop, length-replicate,
  take-append_drop, take-append, drop-append, get_or-set, get_or-append, all_below, all_below_sound,
}
use mutty.Memory.MathUtil.{next_power_of_two}
use mutty.Memory.SizeClasses.{SizeClasses, size_idx_to_size, size_to_size_idx}

pub record Entry : Type 0 where
  pub chunk : ℕ
  pub buffer : ℕ
  pub handle : ℕ
  pub norm_capacity : ℕ

pub record RegionCache : Type 0 where
  pub size : ℕ
  pub allocations : ℕ
  pub queue : List Entry

pub record ThreadCache : Type 0 where
  pub small_caches : List RegionCache
  pub normal_caches : List RegionCache
  pub allocations : ℕ
  pub free_sweep_allocation_threshold : ℕ
  pub to_free : Bool

pub new_region_cache : ℕ → RegionCache
unfolding next_power_of_two
new_region_cache size = record { size = next_power_of_two size; allocations = 0; queue = [] }

-- `add` of MemoryRegionCache
abbrev pub push : RegionCache → Entry → RegionCache
push c entry = record c { queue = c.queue ++ entry ∷ [] }

-- `allocate` of MemoryRegionCache, with the entry that the buffer is made from.
abbrev pub pop : RegionCache → Option Entry × RegionCache
pop c = elim c.queue [
  | [] ↦ (none, c)
  | entry ∷ rest ↦ (some entry, record c { queue = rest; allocations = c.allocations + 1 })
]

-- `free(max, …)` of MemoryRegionCache
abbrev pub free_region : ℕ → RegionCache → List Entry × RegionCache
free_region max c = (take max c.queue, record c { queue = drop max c.queue })

-- `free(INT_MAX, …)`, for fewer entries than that
abbrev pub free_whole : RegionCache → List Entry × RegionCache
free_whole c = (c.queue, record c { queue = [] })

-- `trim` of MemoryRegionCache
abbrev pub trim_region : RegionCache → List Entry × RegionCache
trim_region c =
    let to_free_num = c.size - c.allocations in
    let c' = record c { allocations = 0 } in
    if ltb 0 to_free_num then free_region to_free_num c' else ([], c')

-- The loops over a vector of caches.
pub each :
    (RegionCache → List Entry × RegionCache) → List RegionCache → List Entry × List RegionCache
each f [] = ([], [])
each f (c ∷ cs) = let (freed, c') = f c in let (rest, cs') = each f cs in (freed ++ rest, c' ∷ cs')

pub trim : ThreadCache → List Entry × ThreadCache
unfolding each
trim t =
    let (small, small_caches) = each trim_region t.small_caches in
    let (normal, normal_caches) = each trim_region t.normal_caches in
    (small ++ normal, record t { small_caches = small_caches; normal_caches = normal_caches })

-- `free(bool)`; only the first call frees.
pub free_all : ThreadCache → List Entry × ThreadCache
unfolding each
free_all t =
    let (small, small_caches) = each free_whole t.small_caches in
    let (normal, normal_caches) = each free_whole t.normal_caches in
    if t.to_free then ([], t) else (
      small ++ normal,
      record t { small_caches = small_caches; normal_caches = normal_caches; to_free = true },
    )

-- The count of allocations and the sweep, at the end of `allocate`.
pub sweep : ThreadCache → List Entry × ThreadCache
unfolding trim
sweep t =
    if leb t.free_sweep_allocation_threshold (t.allocations + 1)
    then trim (record t { allocations = 0 })
    else ([], record t { allocations = t.allocations + 1 })

-- What a call hands to a buffer, and what it hands back to the arena.
pub record Answer : Type 0 where
  pub given : Option Entry
  pub freed : List Entry

abbrev pub answered : Option Entry → List Entry × ThreadCache → Answer × ThreadCache
answered given (freed, t) = (record { given = given; freed = freed }, t)

abbrev pub nothing : Answer
nothing = record { given = none; freed = [] }

-- `allocate` of the cache that a lookup has found, which `put` sets in its vector again.
pub allocate_from :
    Option RegionCache → (RegionCache → ThreadCache) → ThreadCache → Answer × ThreadCache
unfolding sweep
allocate_from none put t = (nothing, t)
allocate_from (some c) put t = let (given, c') = pop c in answered given (sweep (put c'))

abbrev pub put_small : ThreadCache → ℕ → RegionCache → ThreadCache
put_small t i c = record t { small_caches = set t.small_caches i c }

abbrev pub put_normal : ThreadCache → ℕ → RegionCache → ThreadCache
put_normal t i c = record t { normal_caches = set t.normal_caches i c }

-- The index is unsigned in the lookup, so one below the first normal class has no cache.
abbrev pub normal_at : SizeClasses → ThreadCache → ℕ → Option RegionCache
normal_at s t size_idx =
    if ltb size_idx s.n_subpages then none else get_elem? t.normal_caches (size_idx - s.n_subpages)

pub allocate_small : ThreadCache → ℕ → Answer × ThreadCache
unfolding allocate_from
allocate_small t size_idx =
    allocate_from (get_elem? t.small_caches size_idx) (put_small t size_idx) t

pub allocate_normal : SizeClasses → ThreadCache → ℕ → Answer × ThreadCache
unfolding allocate_from
allocate_normal s t size_idx =
    allocate_from (normal_at s t size_idx) (put_normal t (size_idx - s.n_subpages)) t

-- The end of `add`, with the cache found; the flag is the answer.
pub add_to :
    Option RegionCache → (RegionCache → ThreadCache) → ThreadCache → Entry → Bool × ThreadCache
add_to none put t entry = (false, t)
add_to (some c) put t entry = (true, put (push c entry))

-- `add`, for an entry of a subpage or of a run.
pub add : SizeClasses → ThreadCache → Bool → Entry → Bool × ThreadCache
unfolding add_to
add s t small entry =
    let size_idx = size_to_size_idx s entry.norm_capacity in
    if small
    then add_to (get_elem? t.small_caches size_idx) (put_small t size_idx) t entry
    else add_to (normal_at s t size_idx) (put_normal t (size_idx - s.n_subpages)) t entry

abbrev pub create_sub_page_caches : ℕ → ℕ → List RegionCache
create_sub_page_caches cache_size num_caches =
    if ltb 0 cache_size && ltb 0 num_caches
    then replicate num_caches (new_region_cache cache_size)
    else []

-- The loop of `createNormalCaches` over the size classes left, from `idx` on.
pub normal_caches_from : ℕ → SizeClasses → ℕ → ℕ → ℕ → List RegionCache
unfolding new_region_cache
normal_caches_from zero s cache_size max_size idx = []
normal_caches_from (suc left) s cache_size max_size idx =
    let rest = normal_caches_from left s cache_size max_size (idx + 1) in
    if leb (size_idx_to_size s idx) max_size then new_region_cache cache_size ∷ rest else []

abbrev pub create_normal_caches : SizeClasses → ℕ → ℕ → List RegionCache
create_normal_caches s cache_size max_cached_buffer_capacity =
    if ltb 0 cache_size && ltb 0 max_cached_buffer_capacity
    then normal_caches_from (s.n_sizes - s.n_subpages) s cache_size
        (min s.chunk_size max_cached_buffer_capacity) s.n_subpages
    else []

abbrev is_nil : List RegionCache → Bool
is_nil [] = true
is_nil (c ∷ cs) = false

-- The constructor with an arena; `none` is its exception.
pub new_thread_cache : SizeClasses → ℕ → ℕ → ℕ → ℕ → Option ThreadCache
unfolding normal_caches_from new_region_cache
new_thread_cache s small_cache_size normal_cache_size max_cached_buffer_capacity threshold =
    let small = create_sub_page_caches small_cache_size s.n_subpages in
    let normal = create_normal_caches s normal_cache_size max_cached_buffer_capacity in
    if (not (is_nil small) || not (is_nil normal)) && ltb threshold 1
    then none
    else some (record {
      small_caches = small;
      normal_caches = normal;
      allocations = 0;
      free_sweep_allocation_threshold = threshold;
      to_free = false;
    })

-- The calls on a thread's cache.
pub data Call : Type 0 where
  take_small take_normal : ℕ → Call
  give_back : Bool → Entry → Call
  trim_each free_each : Call

abbrev pub taken_in : Entry → Bool → List Entry
taken_in entry accepted = if accepted then entry ∷ [] else []

-- What a call takes in, what it answers, and the cache after it.
pub step : SizeClasses → ThreadCache → Call → List Entry × Answer × ThreadCache
unfolding allocate_small allocate_normal add trim free_all
step s t (Call.take_small i) = let (answer, t') = allocate_small t i in ([], answer, t')
step s t (Call.take_normal i) = let (answer, t') = allocate_normal s t i in ([], answer, t')
step s t (Call.give_back small entry) =
    let (accepted, t') = add s t small entry in (taken_in entry accepted, nothing, t')
step s t Call.trim_each = let (answer, t') = answered none (trim t) in ([], answer, t')
step s t Call.free_each = let (answer, t') = answered none (free_all t) in ([], answer, t')
