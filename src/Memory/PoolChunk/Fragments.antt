-- ===== src/Memory/PoolChunk/Fragments.antt =====
-- Runs that `collapseNext` of buffer/PoolChunk.cpp leaves apart, in the default configuration.
use mutty.Common.{
  ℕ, ◌+◌, ◌-◌, ◌*◌, ◌/◌, ◌^◌, ◌≤◌, ◌<◌, ◌≡◌, refl, ap, subst, ◌≢◌, inl, inr, Bool, true, false,
  ◌&&◌, ◌||◌, Option, none, some, arith, ◌==◌, Option-cases, ne→==_false, all_below,
  all_below_sound,
}
use mutty.Memory.MathUtil.{log2}
use mutty.Memory.LongPriorityQueue
use mutty.Memory.LongPriorityQueue.{LongPriorityQueue}
use mutty.Memory.Handle
use mutty.Memory.SizeClasses
use mutty.Memory.SizeClasses.{SizeClasses, build}
use mutty.Memory.SizeClasses.Pages.{default_sizes}
use mutty.Memory.Sizes.{Sizes}
use mutty.Memory.RunQueue.Heap.{heap_queue}
use mutty.Memory.PoolChunk.{
  PoolChunk, chunk_size, page_size, new_chunk, run_first_best_fit, allocate_run, free_run,
}

-- A new chunk whose first run, of `first_size` bytes, is given back; `none` is a failure.
pub given_back : (a : Sizes) → ℕ → Option (PoolChunk heap_queue a)
unfolding new_chunk allocate_run free_run
given_back a first_size = elim (allocate_run heap_queue a (new_chunk heap_queue a) first_size) [
  | none ↦ none
  | some (c, h) ↦ elim h [ none ↦ none | some handle ↦ free_run heap_queue a c handle ]
]

-- What the second allocation answers then.
pub second_allocation : (a : Sizes) → ℕ → ℕ → Option (Option (PoolChunk heap_queue a × Option ℕ))
unfolding given_back
second_allocation a first_size second_size = elim (given_back a first_size) [
  | none ↦ none
  | some c ↦ some (allocate_run heap_queue a c second_size)
]

-- Nothing is taken from the chunk, and its last queue is empty.
pub is_fragmented : (a : Sizes) → PoolChunk heap_queue a → Bool
is_fragmented a c =
    c.free_bytes == chunk_size heap_queue a && heap_queue.is_empty (c.runs_avail (a.n_psizes - 1))

is_fragmented_after : (a : Sizes) → ℕ → Bool
unfolding given_back is_fragmented
is_fragmented_after a first_size = elim (given_back a first_size) [
  | none ↦ false
  | some c ↦ is_fragmented a c
]

abbrev halves : ℕ → Bool
halves pages = pages == 1024 || pages == 2048

abbrev entry : Sizes → ℕ → Bool
entry a k = halves (k + 1) || is_fragmented_after a ((k + 1) * 8192)

fragmented_sizes : (o : Option SizeClasses) → build 8192 13 (2 ^ 24) ≡ o → Bool
unfolding is_fragmented_after all_below
fragmented_sizes none e = false
fragmented_sizes (some c) e = all_below 2048 (entry (default_sizes c e))

default-fragmented :
    (e : build 8192 13 (2 ^ 24) ≡ build 8192 13 (2 ^ 24))
    → fragmented_sizes (build 8192 13 (2 ^ 24)) e ≡ true
unfolding fragmented_sizes build is_fragmented_after all_below log2 LongPriorityQueue.new_queue
    LongPriorityQueue.offer LongPriorityQueue.remove LongPriorityQueue.poll
    LongPriorityQueue.is_empty SizeClasses.pages_to_page_idx SizeClasses.pages_to_page_idx_floor
    SizeClasses.pages_to_page_idx_compute SizeClasses.page_idx_to_size
    SizeClasses.page_size_to_page_idx Handle.is_used Handle.to_run_handle
    Handle.calculate_run_offset Handle.calculate_run_pages Handle.clear_used Handle.clear_subpage
    Handle.mark_used
default-fragmented e = refl

whole_queue :
    (a : Sizes) (c : PoolChunk heap_queue a) (page_idx : ℕ)
    → is_fragmented a c ≡ true
    → run_first_best_fit heap_queue a c page_idx ≡ some (a.n_psizes - 1)
unfolding is_fragmented run_first_best_fit
whole_queue a c page_idx e =
    let whole : (c.free_bytes == chunk_size heap_queue a) ≡ true = ground (arith, e) in
    rw whole refl

empty_poll :
    (q : LongPriorityQueue) → LongPriorityQueue.is_empty q ≡ true → LongPriorityQueue.poll q ≡ none
unfolding LongPriorityQueue.is_empty LongPriorityQueue.poll
empty_poll q e = rw e refl

no_run :
    (a : Sizes) (c : PoolChunk heap_queue a) (size : ℕ)
    → is_fragmented a c ≡ true
    → allocate_run heap_queue a c size ≡ none
unfolding is_fragmented allocate_run
no_run a c size e =
    let empty : LongPriorityQueue.is_empty (c.runs_avail (a.n_psizes - 1)) ≡ true =
      ground (arith, e) in
    rw (whole_queue a c (a.pages_to_page_idx (size / page_size heap_queue a)) e, allocate_run)
      (rw (empty_poll _ empty) refl)

second_lem :
    (a : Sizes) (first_size second_size : ℕ)
    → is_fragmented_after a first_size ≡ true
    → second_allocation a first_size second_size ≡ some none
unfolding is_fragmented_after second_allocation
second_lem a first_size second_size e = elim (Option-cases (given_back a first_size)) [
  | inl n ↦ let wrong : false ≡ true = rw (n, is_fragmented_after) at e in cc
  | inr (c, s) ↦
      rw (s, second_allocation)
        (ap some (no_run a c second_size (rw (s, is_fragmented_after) at e)))
]

-- After the first run of `pages` pages of a new chunk is given back, unless that is half the chunk or
-- the whole of it, an allocation of any size meets the empty last queue: its assertion fails. The two
-- runs are not joined, and the chunk counts as one that nothing is taken from.
pub second_allocation-fails :
    (c : SizeClasses) (built : build 8192 13 (2 ^ 24) ≡ some c) (pages size : ℕ)
    → 1 ≤ pages
    → pages < 2048
    → pages ≢ 1024
    → second_allocation (default_sizes c built) (pages * 8192) size ≡ some none
unfolding fragmented_sizes second_allocation is_fragmented_after
second_allocation-fails c built pages size low high other =
    let a = default_sizes c built in
    let all : fragmented_sizes (some c) built ≡ true =
      subst
        (λ (o : Option SizeClasses). (e : build 8192 13 (2 ^ 24) ≡ o) → fragmented_sizes o e ≡ true)
        built default-fragmented built in
    let here : entry a (pages - 1) ≡ true =
      all_below_sound 2048 (entry a) (pages - 1) all (omega arith) in
    let same : pages - 1 + 1 ≡ pages = omega (arith, low) in
    let fact : (halves pages || is_fragmented_after a (pages * 8192)) ≡ true =
      subst (λ (n : ℕ). (halves n || is_fragmented_after a (n * 8192)) ≡ true) same here in
    let unlike : halves pages ≡ false =
      rw (ne→==_false pages 1024 other, ne→==_false pages 2048 (λ e. omega (arith, e, high)))
        refl in
    second_lem a (pages * 8192) size (rw unlike at fact)
