-- ===== src/Memory/Handle.antt =====
-- The handle of a run of pages (buffer/PoolChunk.h and `toRunHandle` of PoolChunk.cpp): 15 bits for the
-- offset, 15 for the pages, a bit for in use, a bit for subpage, 32 for the place in the subpage. Fields
-- that are combined by `|` do not overlap, so they are added.
use mutty.Common.{
  ℕ, ◌+◌, ◌-◌, ◌*◌, ◌/◌, ◌%◌, ◌^◌, ◌<◌, ◌≡◌, Bool, true, false, arith, ◌==◌, if◌then◌else◌,
}

abbrev pub is_subpage_shift : ℕ
is_subpage_shift = 32

abbrev pub is_used_shift : ℕ
is_used_shift = 33

abbrev pub size_shift : ℕ
size_shift = 34

abbrev pub run_offset_shift : ℕ
run_offset_shift = 49

unfoldable pub to_run_handle : ℕ → ℕ → ℕ → ℕ
to_run_handle run_offset run_pages in_used =
    run_offset * 2 ^ run_offset_shift + run_pages * 2 ^ size_shift + in_used * 2 ^ is_used_shift

-- `PoolSubpage::toHandle`, given the pages of the subpage.
pub to_subpage_handle : ℕ → ℕ → ℕ → ℕ
to_subpage_handle run_offset pages bitmap_idx =
    run_offset * 2 ^ run_offset_shift
    + pages * 2 ^ size_shift
    + 2 ^ is_used_shift
    + 2 ^ is_subpage_shift
    + bitmap_idx

unfoldable pub calculate_run_offset : ℕ → ℕ
calculate_run_offset handle = handle / 2 ^ run_offset_shift

unfoldable pub calculate_run_pages : ℕ → ℕ
calculate_run_pages handle = handle / 2 ^ size_shift % 2 ^ 15

unfoldable pub is_used : ℕ → Bool
is_used handle = handle / 2 ^ is_used_shift % 2 == 1

unfoldable pub is_subpage : ℕ → Bool
is_subpage handle = handle / 2 ^ is_subpage_shift % 2 == 1

-- `static_cast<int>(handle)`, for a place below 2 ^ 31
pub calculate_bitmap_idx : ℕ → ℕ
calculate_bitmap_idx handle = handle % 2 ^ 32

-- The fields of a run's handle are read back, for an offset below 2 ^ 14, so that the
-- 64-bit handle is not negative, a page count of 15 bits and a bit for in use.
pub run_handle_fields :
    (offset pages used : ℕ)
    → offset < 2 ^ 14
    → pages < 2 ^ 15
    → used < 2
    → let h = to_run_handle offset pages used in
      (calculate_run_offset h ≡ offset)
      × (calculate_run_pages h ≡ pages)
      × (is_used h ≡ (used == 1))
      × (is_subpage h ≡ false)
unfolding to_run_handle calculate_run_offset calculate_run_pages is_used is_subpage
run_handle_fields offset pages used o p u =
    let bit : (offset * 2 ^ 49 + pages * 2 ^ 34 + used * 2 ^ 33) / 2 ^ 33 % 2 ≡ used =
      omega arith in
    let low : (offset * 2 ^ 49 + pages * 2 ^ 34 + used * 2 ^ 33) / 2 ^ 32 % 2 ≡ 0 = omega arith in
    (omega arith, omega arith, rw bit, rw low)

-- The fields of a subpage's handle are read back, for an offset below 2 ^ 14, a page count of 15
-- bits and a place below 2 ^ 31: the handle is in use, and a subpage's.
pub subpage_handle_fields :
    (offset pages bitmap_idx : ℕ)
    → offset < 2 ^ 14
    → pages < 2 ^ 15
    → bitmap_idx < 2 ^ 31
    → let h = to_subpage_handle offset pages bitmap_idx in
      (calculate_run_offset h ≡ offset)
      × (calculate_run_pages h ≡ pages)
      × (is_used h ≡ true)
      × (is_subpage h ≡ true)
      × (calculate_bitmap_idx h ≡ bitmap_idx)
unfolding to_subpage_handle calculate_run_offset calculate_run_pages is_used is_subpage
    calculate_bitmap_idx
subpage_handle_fields offset pages bitmap_idx o p b =
    let h = offset * 2 ^ 49 + pages * 2 ^ 34 + 2 ^ 33 + 2 ^ 32 + bitmap_idx in
    let used : h / 2 ^ 33 % 2 ≡ 1 = omega arith in
    let sub : h / 2 ^ 32 % 2 ≡ 1 = omega arith in
    (omega arith, omega arith, rw used, rw sub, omega arith)

-- `handle |= 1L << IS_USED_SHIFT`
unfoldable pub mark_used : ℕ → ℕ
unfolding is_used
mark_used handle = if is_used handle then handle else handle + 2 ^ is_used_shift

-- `finalRun &= ~(1L << IS_USED_SHIFT)` and `finalRun &= ~(1L << IS_SUBPAGE_SHIFT)`
unfoldable pub clear_used : ℕ → ℕ
unfolding is_used
clear_used handle = if is_used handle then handle - 2 ^ is_used_shift else handle

unfoldable pub clear_subpage : ℕ → ℕ
unfolding is_subpage
clear_subpage handle = if is_subpage handle then handle - 2 ^ is_subpage_shift else handle

pub mark_used_fields :
    (h : ℕ)
    → is_used h ≡ false
    → (calculate_run_offset (mark_used h) ≡ calculate_run_offset h)
      × (calculate_run_pages (mark_used h) ≡ calculate_run_pages h)
      × (is_used (mark_used h) ≡ true)
      × (is_subpage (mark_used h) ≡ is_subpage h)
unfolding mark_used calculate_run_offset calculate_run_pages is_subpage
mark_used_fields h e = (ground arith, ground arith, ground arith, ground arith)

pub clear_used_fields :
    (h : ℕ)
    → (calculate_run_offset (clear_used h) ≡ calculate_run_offset h)
      × (calculate_run_pages (clear_used h) ≡ calculate_run_pages h)
      × (is_used (clear_used h) ≡ false)
unfolding clear_used calculate_run_offset calculate_run_pages
clear_used_fields h = (ground arith, ground arith, ground arith)

pub clear_subpage_fields :
    (h : ℕ)
    → (calculate_run_offset (clear_subpage h) ≡ calculate_run_offset h)
      × (calculate_run_pages (clear_subpage h) ≡ calculate_run_pages h)
      × (is_used (clear_subpage h) ≡ is_used h)
      × (is_subpage (clear_subpage h) ≡ false)
unfolding clear_subpage calculate_run_offset calculate_run_pages is_used
clear_subpage_fields h = (ground arith, ground arith, ground arith, ground arith)
