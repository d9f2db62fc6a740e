-- ===== src/Memory/PoolChunk/Tests.antt =====
-- A chunk of four pages (buffer/PoolChunk.cpp), and the default configuration.
use mutty.Common.{
  ℕ, ◌+◌, ◌-◌, ◌*◌, ◌/◌, ◌≤◌, ◌<◌, ◌≡◌, refl, ◌⊎◌, false, Option, none, some, List, [], arith,
}
use mutty.Memory.Handle
use mutty.Memory.Handle.{to_run_handle}
use mutty.Memory.LongPriorityQueue
use mutty.Memory.SizeClasses
use mutty.Memory.MathUtil.{log2}
use mutty.Memory.SizeClasses.Pages.{default_sizes, default_classes, default_built}
use mutty.Memory.Sizes.{Sizes}
use mutty.Memory.RunQueue.Heap.{heap_queue}
use mutty.Memory.PoolChunk.{PoolChunk, new_chunk, allocate_run, free_run}
use mutty.Memory.PoolChunk.Runs.{IsValid, IsFree, floor_of}
use mutty.Memory.PoolChunk.Pages.{IsFreePage, Takes}
use mutty.Memory.PoolChunk.Allocation.{allocate_run-Takes}
use mutty.Memory.PoolChunk.Collapse.{IsLoose}
use mutty.Memory.PoolChunk.Release.{Returns, free_run-Returns}
use mutty.Memory.PoolChunk.Fresh.{new_chunk-IsValid}
use mutty.Memory.PoolChunk.RoundTrip.{SamePages, allocate_run-free_run, allocated-IsLoose}
use mutty.Memory.Subpage.{Subpage}
use mutty.Memory.SizeClasses.{size_idx_to_size}
use mutty.Memory.Handle.{to_subpage_handle, calculate_run_offset}
use mutty.Memory.PoolChunk.{update}
use mutty.Memory.PoolChunk.Buffers.{Region, calculate_run_size, allocate_subpage, allocate}
use mutty.Memory.PoolChunk.Buffers.Elements.{
  HasElement, AreFreeUnset, allocate-run_region, allocate_subpage-HasElement,
}
use mutty.Memory.PoolChunk.Buffers.RunSizes.{IsLeastRun, calculate_run_size-IsLeastRun}
use mutty.Memory.PoolChunk.Fragments.{second_allocation, second_allocation-fails}

-- Four pages of 8192 bytes, a class for each number of them.
abbrev four_pages : Sizes
four_pages = record {
  page_shifts = 13;
  chunk_pages = 4;
  n_psizes = 4;
  small_max_size_idx = 6;
  pages_to_page_idx = λ n. n - 1;
  pages_to_page_idx_floor = λ n. n - 1;
  size_idx_to_size = λ i. (i + 1) * 1024;
  size_to_size_idx = λ n. (n + 1023) / 1024 - 1;
  small_chunk = omega arith;
  floor_fits = λ need pages p q l h. omega (arith, p, q, h);
  class_below = λ need p h. omega (arith, p, h);
}

abbrev chunk : PoolChunk heap_queue four_pages
chunk = new_chunk heap_queue four_pages

chunk-IsValid :
    IsValid heap_queue four_pages chunk
    × ((page : ℕ) → page < 4 → IsFreePage heap_queue four_pages chunk page)
chunk-IsValid = new_chunk-IsValid heap_queue four_pages (omega arith)

last_queue : heap_queue.is_empty (chunk.runs_avail 3) ≡ false
unfolding new_chunk LongPriorityQueue.offer LongPriorityQueue.new_queue LongPriorityQueue.is_empty
last_queue = refl

allocate_run-Takes_example :
    ((c' : PoolChunk heap_queue four_pages) × (h : ℕ) × (allocate_run heap_queue four_pages chunk
          16384
        ≡ some (c', some h))
      × Takes heap_queue four_pages chunk c' 2 h
      × (c'.free_bytes ≡ chunk.free_bytes - 2 * 8192))
    ⊎ ((allocate_run heap_queue four_pages chunk 16384 ≡ some (chunk, none))
        × ((k : ℕ)
            → IsFree heap_queue four_pages chunk k
            → floor_of heap_queue four_pages k < 4
            → floor_of heap_queue four_pages k < 1))
allocate_run-Takes_example =
    allocate_run-Takes heap_queue four_pages chunk 16384 chunk-IsValid.0 (omega arith) (omega arith)
      (λ e. last_queue)

abbrev or_chunk :
    Option (PoolChunk heap_queue four_pages × Option ℕ) → PoolChunk heap_queue four_pages
or_chunk none = chunk
or_chunk (some (c, h)) = c

abbrev taken : PoolChunk heap_queue four_pages
taken = or_chunk (allocate_run heap_queue four_pages chunk 16384)

-- Two pages from the first one on, in use.
abbrev two_pages : ℕ
two_pages = to_run_handle 0 2 1

allocated : allocate_run heap_queue four_pages chunk 16384 ≡ some (taken, some two_pages)
unfolding new_chunk allocate_run LongPriorityQueue.offer LongPriorityQueue.new_queue
    LongPriorityQueue.is_empty LongPriorityQueue.poll LongPriorityQueue.remove Handle.is_used
    Handle.to_run_handle Handle.calculate_run_offset Handle.calculate_run_pages
allocated = refl

two_pages-IsLoose : IsLoose heap_queue four_pages taken two_pages
two_pages-IsLoose =
    allocated-IsLoose heap_queue four_pages chunk taken 16384 two_pages chunk-IsValid.0
      (omega arith) (omega arith) (λ e. last_queue) allocated

free_run-Returns_example :
    (c' : PoolChunk heap_queue four_pages) × (free_run heap_queue four_pages taken two_pages
      ≡ some c')
    × Returns heap_queue four_pages taken c' two_pages
free_run-Returns_example = free_run-Returns heap_queue four_pages taken two_pages two_pages-IsLoose

allocate_run-free_run_example :
    (d : PoolChunk heap_queue four_pages) × (free_run heap_queue four_pages taken two_pages
      ≡ some d)
    × IsValid heap_queue four_pages d
    × SamePages heap_queue four_pages chunk d
    × (d.free_bytes ≡ chunk.free_bytes)
unfolding new_chunk
allocate_run-free_run_example =
    allocate_run-free_run heap_queue four_pages chunk taken 16384 two_pages chunk-IsValid.0
      (omega arith) (omega arith) (λ e. last_queue) (omega arith) allocated

second_allocation-fails_example :
    second_allocation (default_sizes default_classes default_built) (3 * 8192) 8192 ≡ some none
second_allocation-fails_example =
    second_allocation-fails default_classes default_built 3 8192 (omega arith) (omega arith)
      (omega arith)

-- A page of the ninth class, for 8000 bytes.
allocate-run_region_example :
    ((c' : PoolChunk heap_queue four_pages) × (region : Region) × (allocate heap_queue four_pages
          chunk [] 8000 7
        ≡ some (c', [], some region))
      × Takes heap_queue four_pages chunk c' 1 region.handle
      × (region.offset ≡ calculate_run_offset region.handle * 8192)
      × (region.len ≡ 8000)
      × (region.max_length ≡ 8192)
      × (region.offset + region.max_length ≤ 32768))
    ⊎ (allocate heap_queue four_pages chunk [] 8000 7 ≡ some (chunk, [], none))
allocate-run_region_example =
    allocate-run_region heap_queue four_pages chunk [] 8000 7 (omega arith) chunk-IsValid.0
      (omega arith) (omega arith) (λ e. last_queue)

none_set : AreFreeUnset heap_queue four_pages chunk
unfolding new_chunk
none_set page f = refl

run_of_three : calculate_run_size heap_queue four_pages 2 ≡ some 24576
unfolding calculate_run_size
run_of_three = refl

-- An element of 3072 bytes, of which three pages hold eight.
allocate_subpage-HasElement_example :
    ((c1 : PoolChunk heap_queue four_pages) × (h : ℕ) × Takes heap_queue four_pages chunk c1 3 h
      × (i : ℕ) × (s : Subpage) × (pool' : List ℕ) × (allocate_subpage heap_queue four_pages chunk
            [] 2
          ≡ some (
            record c1 { subpages = update c1.subpages (calculate_run_offset h) (some s) },
            pool',
            some (to_subpage_handle (calculate_run_offset h) 3 i),
          ))
      × HasElement heap_queue four_pages
          (record c1 { subpages = update c1.subpages (calculate_run_offset h) (some s) })
          h
          3072
          i)
    ⊎ ((allocate_subpage heap_queue four_pages chunk [] 2 ≡ some (chunk, [], none))
        × ((k : ℕ)
            → IsFree heap_queue four_pages chunk k
            → floor_of heap_queue four_pages k < 4
            → floor_of heap_queue four_pages k < 2))
allocate_subpage-HasElement_example =
    allocate_subpage-HasElement heap_queue four_pages chunk [] 2 24576 chunk-IsValid.0 none_set
      run_of_three (omega arith) (omega arith) refl refl (omega arith) (omega arith)
      (λ e. last_queue)

calculate_run_size-IsLeastRun_example :
    (run_size : ℕ) × (calculate_run_size heap_queue (default_sizes default_classes default_built) 5
      ≡ some run_size)
    × IsLeastRun (size_idx_to_size default_classes 5) run_size
unfolding SizeClasses.build log2
calculate_run_size-IsLeastRun_example =
    calculate_run_size-IsLeastRun default_classes default_built 5 (omega arith)
