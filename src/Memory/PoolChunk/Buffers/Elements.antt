-- ===== src/Memory/PoolChunk/Buffers/Elements.antt =====
-- What `allocate` and `allocateSubpage` of buffer/PoolChunk.cpp hand out.
use mutty.Common.{
  ℕ, ◌+◌, ◌-◌, ◌*◌, ◌/◌, ◌%◌, ◌≤◌, ◌<◌, ◌≡◌, refl, ap, ◌∙◌, ◌⊎◌, inl, inr, true, false, Option,
  none, some, List, ◌∷◌, arith, leb, eq→==,
}
use mutty.Memory.Handle.{to_subpage_handle, calculate_run_offset, calculate_run_pages, is_subpage}
use mutty.Memory.RunQueue.{RunQueue}
use mutty.Memory.Sizes.{Sizes}
use mutty.Memory.Subpage
use mutty.Memory.Subpage.Fresh.{new_subpage-IsValid, to_handle-pages}
use mutty.Memory.Subpage.Allocation
use native.Mathlib.Nat.{le-div_iff_mul-le, mul-le-mul_right, add-mul}
use mutty.Memory.Subpage.{Subpage, bit_at}
use mutty.Memory.PoolChunk.{PoolChunk, update, chunk_size, page_size, allocate_run}
use mutty.Memory.PoolChunk.Runs.{IsValid, IsFree, floor_of}
use mutty.Memory.PoolChunk.Pages.{IsFreePage, Takes}
use mutty.Memory.PoolChunk.Allocation.{allocate_run-Takes}
use mutty.Memory.PoolChunk.Buffers.{
  Region, calculate_run_size, subpage_on, allocate_subpage, init_buf, give, allocate,
}

region_inside :
    (offset pages chunk_pages size : ℕ)
    → offset + pages ≤ chunk_pages
    → offset * size + pages * size ≤ chunk_pages * size
region_inside offset pages chunk_pages size h =
    let grows = mul-le-mul_right size h in omega (arith, grows, add-mul offset pages size)

module _ (r : RunQueue) (a : Sizes) where
  open a use {
    page_shifts, chunk_pages, n_psizes, small_max_size_idx, size_idx_to_size, pages_to_page_idx,
  }

  abbrev run_region : ℕ → ℕ → Region
  run_region handle req_capacity = record {
    handle = handle;
    offset = calculate_run_offset handle * page_size r a;
    len = req_capacity;
    max_length = calculate_run_pages handle * page_size r a;
  }

  init_buf-run :
      (c : PoolChunk r a) (handle req_capacity : ℕ)
      → is_subpage handle ≡ false
      → init_buf r a c handle req_capacity ≡ some (run_region handle req_capacity)
  unfolding init_buf
  init_buf-run c handle req_capacity e = rw e refl

  allocate-allocate_run :
      (c c' : PoolChunk r a) (pool : List ℕ) (req_capacity size_idx : ℕ) (h : Option ℕ)
      → leb size_idx small_max_size_idx ≡ false
      → allocate_run r a c (size_idx_to_size size_idx) ≡ some (c', h)
      → allocate r a c pool req_capacity size_idx ≡ give r a c' pool h req_capacity
  unfolding allocate
  allocate-allocate_run c c' pool req_capacity size_idx h large e = rw (large, e, allocate) refl

  give-none :
      (c : PoolChunk r a) (pool : List ℕ) (req_capacity : ℕ)
      → give r a c pool none req_capacity ≡ some (c, pool, none)
  unfolding give
  give-none c pool req_capacity = refl

  give-run :
      (c : PoolChunk r a) (pool : List ℕ) (handle req_capacity : ℕ)
      → is_subpage handle ≡ false
      → give r a c pool (some handle) req_capacity
        ≡ some (c, pool, some (run_region handle req_capacity))
  unfolding give
  give-run c pool handle req_capacity e = rw (init_buf-run c handle req_capacity e, give) refl

  -- `allocate` of a size class above the small ones, under the conditions of `allocateRun`, fails no
  -- assertion: the buffer's region is a run that was free, begins on a page, is the pages asked for
  -- and ends inside the chunk; or the chunk is left as it is and there is no region.
  pub allocate-run_region :
      (c : PoolChunk r a) (pool : List ℕ) (req_capacity size_idx : ℕ)
      → small_max_size_idx < size_idx
      → IsValid r a c
      → 1 ≤ size_idx_to_size size_idx / page_size r a
      → size_idx_to_size size_idx / page_size r a ≤ chunk_pages
      → (c.free_bytes ≡ chunk_size r a → r.is_empty (c.runs_avail (n_psizes - 1)) ≡ false)
      → ((c' : PoolChunk r a) × (region : Region) × (allocate r a c pool req_capacity size_idx
            ≡ some (c', pool, some region))
          × Takes r a c c' (size_idx_to_size size_idx / page_size r a) region.handle
          × (region.offset ≡ calculate_run_offset region.handle * page_size r a)
          × (region.len ≡ req_capacity)
          × (region.max_length ≡ size_idx_to_size size_idx / page_size r a * page_size r a)
          × (region.offset + region.max_length ≤ chunk_size r a))
        ⊎ (allocate r a c pool req_capacity size_idx ≡ some (c, pool, none))
  allocate-run_region c pool req_capacity size_idx large v low high top =
      let need = size_idx_to_size size_idx / page_size r a in
      let above : leb size_idx small_max_size_idx ≡ false = ground (arith, large) in
      elim (allocate_run-Takes r a c (size_idx_to_size size_idx) v low high top) [
        | inr (e, all) ↦ inr (
            allocate-allocate_run c c pool req_capacity size_idx none above e
            ∙ give-none c pool req_capacity)
        | inl (c', h, e, t, bytes) ↦
            let region = run_region h req_capacity in
            let size : calculate_run_pages h * page_size r a ≡ need * page_size r a =
              ap (λ (n : ℕ). n * page_size r a) t.pages in
            inl (
              c',
              region,
              allocate-allocate_run c c' pool req_capacity size_idx (some h) above e
                  ∙ give-run c' pool h req_capacity t.plain,
              t,
              refl,
              refl,
              size,
              region_inside (calculate_run_offset h) (calculate_run_pages h) chunk_pages
                  (page_size r a) t.inside,
            )
      ]

  -- A subpage new on a run, with an element taken.
  pub record HasElement (c : PoolChunk r a) (handle elem_size : ℕ) (i : ℕ) : Type 0 where
    pub subpage : Subpage
    pub stored : c.subpages (calculate_run_offset handle) ≡ some subpage
    pub inside : i < subpage.max_num_elems
    pub elements : subpage.max_num_elems ≡ calculate_run_pages handle * page_size r a / elem_size
    pub taken : bit_at subpage.bitmap i ≡ true
    pub valid : Subpage.Allocation.IsValid subpage

  -- With a run of whole kilobytes that the element fits in.
  subpage_on-HasElement :
      (c : PoolChunk r a) (pool : List ℕ) (handle elem_size pages : ℕ)
      → calculate_run_pages handle ≡ pages
      → c.subpages (calculate_run_offset handle) ≡ none
      → 16 ≤ elem_size
      → elem_size ≤ calculate_run_pages handle * page_size r a
      → calculate_run_pages handle * page_size r a % 1024 ≡ 0
      → (i : ℕ) × (s : Subpage) × (pool' : List ℕ) × (subpage_on r a c pool handle elem_size
          ≡ some (
            record c { subpages = update c.subpages (calculate_run_offset handle) (some s) },
            pool',
            some (to_subpage_handle (calculate_run_offset handle) pages i),
          ))
        × HasElement
            (record c { subpages = update c.subpages (calculate_run_offset handle) (some s) })
            handle
            elem_size
            i
  unfolding subpage_on
  subpage_on-HasElement c pool handle elem_size pages full free low fits whole =
      let run_offset = calculate_run_offset handle in
      let run_size = calculate_run_pages handle * page_size r a in
      let (s, made, valid, all, number, kept, at, size, shifts) =
        new_subpage-IsValid page_shifts run_offset run_size elem_size pool low fits whole in
      let some_element : 1 ≤ run_size / elem_size =
        (le-div_iff_mul-le {k = elem_size} {x = 1} {y = run_size} (omega (arith, low))).1
          (omega (arith, fits)) in
      let (i, s', pool', got, t) =
        Subpage.Allocation.allocate-Takes s (run_offset ∷ pool) valid
          (omega (arith, all, number, some_element)) kept in
      let same : Subpage.to_handle s i ≡ to_subpage_handle run_offset pages i =
        to_handle-pages s run_offset (calculate_run_pages handle) page_shifts i at size shifts
        ∙ ap (λ (n : ℕ). to_subpage_handle run_offset n i) full in
      (
        i,
        s',
        pool',
        rw (free, subpage_on) (rw (made, subpage_on) (rw (got, subpage_on) (rw same refl))),
        record {
          subpage = s';
          stored = rw (eq→== run_offset run_offset refl) refl;
          inside = omega (arith, t.inside, t.same);
          elements = t.same ∙ number;
          taken = t.taken;
          valid = t.valid;
        },
      )

  -- The subpage of a run that is not free may be set; that of a free page is not.
  abbrev pub AreFreeUnset : PoolChunk r a → Type 0
  AreFreeUnset c = (page : ℕ) → IsFreePage r a c page → c.subpages page ≡ none

  allocate_subpage-on :
      (c c' : PoolChunk r a) (pool : List ℕ) (size_idx run_size : ℕ) (h : Option ℕ)
      → calculate_run_size r a size_idx ≡ some run_size
      → allocate_run r a c run_size ≡ some (c', h)
      → allocate_subpage r a c pool size_idx ≡ (elim h [
        | none ↦ some (c', pool, none)
        | some handle ↦ subpage_on r a c' pool handle (size_idx_to_size size_idx)
      ])
  unfolding allocate_subpage
  allocate_subpage-on c c' pool size_idx run_size h e f =
      rw (e, allocate_subpage) (rw (f, allocate_subpage) refl)

  -- `allocateSubpage`, in a valid chunk whose last queue is not empty if all its bytes are free, and
  -- where no free page has a subpage, fails no assertion, for elements of 16 bytes and more that fit
  -- in the run size that `calculateRunSize` answers, which is a multiple of a kilobyte and consists of
  -- one page or more, whole ones and no more than the chunk has. It takes a run of that size as
  -- `allocateRun` does, puts a valid subpage with as many elements as the run holds on its first page,
  -- and answers the handle of an element of it that is marked used; or it leaves the chunk and the
  -- list as they are, and then each free run has a class, its pages rounded down, that is below the
  -- one that the pages of the run size are rounded up to.
  pub allocate_subpage-HasElement :
      (c : PoolChunk r a) (pool : List ℕ) (size_idx run_size : ℕ)
      → IsValid r a c
      → AreFreeUnset c
      → calculate_run_size r a size_idx ≡ some run_size
      → 16 ≤ size_idx_to_size size_idx
      → size_idx_to_size size_idx ≤ run_size
      → run_size / page_size r a * page_size r a ≡ run_size
      → run_size % 1024 ≡ 0
      → 1 ≤ run_size / page_size r a
      → run_size / page_size r a ≤ chunk_pages
      → (c.free_bytes ≡ chunk_size r a → r.is_empty (c.runs_avail (n_psizes - 1)) ≡ false)
      → ((c1 : PoolChunk r a) × (h : ℕ) × Takes r a c c1 (run_size / page_size r a) h
          × (i : ℕ) × (s : Subpage) × (pool' : List ℕ) × (allocate_subpage r a c pool size_idx
              ≡ some (
                record c1 { subpages = update c1.subpages (calculate_run_offset h) (some s) },
                pool',
                some (to_subpage_handle (calculate_run_offset h) (run_size / page_size r a) i),
              ))
          × HasElement
              (record c1 { subpages = update c1.subpages (calculate_run_offset h) (some s) })
              h
              (size_idx_to_size size_idx)
              i)
        ⊎ ((allocate_subpage r a c pool size_idx ≡ some (c, pool, none))
            × ((k : ℕ)
                → IsFree r a c k
                → floor_of r a k < n_psizes
                → floor_of r a k < pages_to_page_idx (run_size / page_size r a)))
  allocate_subpage-HasElement c pool size_idx run_size v unset e small fits whole kilo low high
        top =
      elim (allocate_run-Takes r a c run_size v low high top) [
        | inr (f, all) ↦ inr (allocate_subpage-on c c pool size_idx run_size none e f, all)
        | inl (c1, h, f, t, bytes) ↦
            let size : calculate_run_pages h * page_size r a ≡ run_size =
              ap (λ (n : ℕ). n * page_size r a) t.pages ∙ whole in
            let first = t.was_free (calculate_run_offset h) (omega (arith, t.pages, low)) in
            let free : c1.subpages (calculate_run_offset h) ≡ none =
              ap (λ (f : ℕ → Option Subpage). f (calculate_run_offset h)) t.small
              ∙ unset (calculate_run_offset h) first in
            let (i, s, pool', made, has) =
              subpage_on-HasElement c1 pool h (size_idx_to_size size_idx) (run_size / page_size r a)
                t.pages free small (omega (arith, size, fits)) (rw size kilo) in
            inl (
              c1,
              h,
              t,
              i,
              s,
              pool',
              allocate_subpage-on c c1 pool size_idx run_size (some h) e f ∙ made,
              has,
            )
      ]
