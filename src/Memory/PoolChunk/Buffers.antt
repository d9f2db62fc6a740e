-- ===== src/Memory/PoolChunk/Buffers.antt =====
-- buffer/PoolChunk.cpp: small elements in the subpages of a chunk, and what a buffer is given. As in
-- the parent, `none` is a failed assertion or a null pointer followed, and -1 as a handle is `none`
-- of its option. The list of subpages of the arena for the size at hand is passed along.
pub mod Elements
pub mod RunSizes
use mutty.Common.{
  ℕ, zero, suc, ◌+◌, ◌-◌, ◌*◌, ◌/◌, ◌%◌, ◌^◌, ◌≤◌, ◌<◌, min, max, ◌≡◌, refl, sym, ap, ◌∙◌, subst,
  ◌≢◌, ◌⊎◌, inl, inr, Bool, true, false, not, ◌&&◌, ◌||◌, Option, none, some, List, [], ◌∷◌, ◌++◌,
  arith, ltb, leb, ◌==◌, if◌then◌else◌, Bool-cases, Option-cases, eq_of_some, none-ne_some, ltb→lt,
  lt→ltb, ltb_false→le, le→ltb_false, leb→le, ==→eq, eq→==, ne→==_false, length, get_elem?, get_or,
  set, take, drop, replicate, length-append, length-set, length-take, length-drop, length-replicate,
  take-append_drop, take-append, drop-append, get_or-set, get_or-append, all_below, all_below_sound,
}
use mutty.Memory.Handle.{
  calculate_run_offset, calculate_run_pages, calculate_bitmap_idx, is_subpage,
}
use mutty.Memory.RunQueue.{RunQueue}
use mutty.Memory.Sizes.{Sizes}
use mutty.Memory.Subpage
use mutty.Memory.Subpage.{Subpage}
use mutty.Memory.PoolChunk.{PoolChunk, update, chunk_size, page_size, allocate_run, free_run}

-- What `init` of PooledByteBuf is given.
pub record Region : Type 0 where
  pub handle : ℕ
  pub offset : ℕ
  pub len : ℕ
  pub max_length : ℕ

module _ (r : RunQueue) (a : Sizes) where
  open a use {page_shifts, small_max_size_idx, size_idx_to_size}

  -- `1 << m_pageShifts - SizeClasses::LOG2_QUANTUM`
  abbrev pub max_elements : ℕ
  max_elements = 2 ^ (page_shifts - 4)

  -- The first loop of `calculateRunSize`; as many pages as an element has bytes are a multiple of it,
  -- so that much fuel is enough.
  pub grow_run : ℕ → ℕ → ℕ → Option ℕ
  grow_run zero elem_size run_size = none
  grow_run (suc fuel) elem_size run_size =
      let next = run_size + page_size r a in
      let n_elements = next / elem_size in
      let rest = grow_run fuel elem_size next in
      if ltb n_elements max_elements && not (next == n_elements * elem_size)
      then rest
      else some next

  -- The second loop, for at most as many rounds as there are pages.
  pub shrink_run : ℕ → ℕ → ℕ → Option ℕ
  shrink_run zero elem_size run_size = none
  shrink_run (suc fuel) elem_size run_size =
      let rest = shrink_run fuel elem_size (run_size - page_size r a) in
      if ltb max_elements (run_size / elem_size) then rest else some run_size

  abbrev has_elements : ℕ → ℕ → Bool
  has_elements elem_size run_size =
      ltb 0 (run_size / elem_size) && leb run_size (chunk_size r a) && leb elem_size run_size

  unfoldable pub calculate_run_size : ℕ → Option ℕ
  unfolding grow_run shrink_run
  calculate_run_size size_idx =
      let elem_size = size_idx_to_size size_idx in
      elim (grow_run elem_size elem_size 0) [
        | none ↦ none
        | some grown ↦ elim (shrink_run (grown / page_size r a + 1) elem_size grown) [
          | none ↦ none
          | some run_size ↦ if has_elements elem_size run_size then some run_size else none
        ]
      ]

  -- What `allocateSubpage` does with the run taken.
  pub subpage_on : PoolChunk r a → List ℕ → ℕ → ℕ → Option (PoolChunk r a × List ℕ × Option ℕ)
  subpage_on c pool handle elem_size =
      let run_offset = calculate_run_offset handle in
      let run_size = calculate_run_pages handle * page_size r a in
      elim (c.subpages run_offset) [
        | some s ↦ none
        | none ↦ elim (Subpage.new_subpage page_shifts run_offset run_size elem_size pool) [
          | none ↦ none
          | some (s, pool') ↦ elim (Subpage.allocate s pool') [
            | none ↦ none
            | some (s', pool'', h) ↦
                some (record c { subpages = update c.subpages run_offset (some s') }, pool'', h)
          ]
        ]
      ]

  pub allocate_subpage : PoolChunk r a → List ℕ → ℕ → Option (PoolChunk r a × List ℕ × Option ℕ)
  unfolding calculate_run_size subpage_on
  allocate_subpage c pool size_idx = elim (calculate_run_size size_idx) [
    | none ↦ none
    | some run_size ↦ elim (allocate_run r a c run_size) [
      | none ↦ none
      | some (c', h) ↦ elim h [
        | none ↦ some (c', pool, none)
        | some handle ↦ subpage_on c' pool handle (size_idx_to_size size_idx)
      ]
    ]
  ]

  -- The part of `free` for an element of a subpage; the flag says that the subpage is still used.
  pub free_element : PoolChunk r a → List ℕ → ℕ → Option (PoolChunk r a × List ℕ × Bool)
  free_element c pool handle =
      let s_idx = calculate_run_offset handle in
      elim (c.subpages s_idx) [
        | none ↦ none
        | some s ↦ elim s.do_not_destroy [
          | false ↦ none
          | true ↦ elim (Subpage.free s pool (calculate_bitmap_idx handle)) [
            | none ↦ none
            | some (s', pool', in_use) ↦
                if in_use
                then some (record c { subpages = update c.subpages s_idx (some s') }, pool', true)
                else (if s'.do_not_destroy
                    then none
                    else some (record c { subpages = update c.subpages s_idx none }, pool', false))
          ]
        ]
      ]

  abbrev with_pool : List ℕ → Option (PoolChunk r a) → Option (PoolChunk r a × List ℕ)
  with_pool pool none = none
  with_pool pool (some c) = some (c, pool)

  pub free : PoolChunk r a → List ℕ → ℕ → Option (PoolChunk r a × List ℕ)
  unfolding free_element
  free c pool handle =
      if is_subpage handle
      then elim (free_element c pool handle) [
        | none ↦ none
        | some (c', pool', in_use) ↦
            if in_use then some (c', pool') else with_pool pool' (free_run r a c' handle)
      ]
      else with_pool pool (free_run r a c handle)

  pub init_buf_with_subpage : PoolChunk r a → ℕ → ℕ → Option Region
  init_buf_with_subpage c handle req_capacity =
      let run_offset = calculate_run_offset handle in
      let bitmap_idx = calculate_bitmap_idx handle in
      elim (c.subpages run_offset) [
        | none ↦ none
        | some s ↦
            if s.do_not_destroy && leb req_capacity s.elem_size
            then some (record {
              handle = handle;
              offset = run_offset * page_size r a + bitmap_idx * s.elem_size;
              len = req_capacity;
              max_length = s.elem_size;
            })
            else none
      ]

  pub init_buf : PoolChunk r a → ℕ → ℕ → Option Region
  unfolding init_buf_with_subpage
  init_buf c handle req_capacity =
      if is_subpage handle
      then init_buf_with_subpage c handle req_capacity
      else some (record {
        handle = handle;
        offset = calculate_run_offset handle * page_size r a;
        len = req_capacity;
        max_length = calculate_run_pages handle * page_size r a;
      })

  -- The end of `allocate`, with the handle; `false` as an answer is no region.
  pub give : PoolChunk r a → List ℕ → Option ℕ → ℕ → Option (PoolChunk r a × List ℕ × Option Region)
  unfolding init_buf
  give c pool none req_capacity = some (c, pool, none)
  give c pool (some handle) req_capacity = elim (init_buf c handle req_capacity) [
    | none ↦ none
    | some region ↦ some (c, pool, some region)
  ]

  abbrev all_subpage : Option ℕ → Bool
  all_subpage none = true
  all_subpage (some handle) = is_subpage handle

  pub allocate : PoolChunk r a → List ℕ → ℕ → ℕ → Option (PoolChunk r a × List ℕ × Option Region)
  unfolding allocate_subpage give
  allocate c pool req_capacity size_idx =
      if leb size_idx small_max_size_idx
      then elim (allocate_subpage c pool size_idx) [
        | none ↦ none
        | some (c', pool', h) ↦ if all_subpage h then give c' pool' h req_capacity else none
      ]
      else elim (allocate_run r a c (size_idx_to_size size_idx)) [
        | none ↦ none
        | some (c', h) ↦ give c' pool h req_capacity
      ]
