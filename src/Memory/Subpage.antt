-- ===== src/Memory/Subpage.antt =====
-- buffer/PoolSubpage.cpp. A word of the bitmap is the list of its 64 bits, lowest first; the arena's
-- list of subpages of this size is the list of their run offsets, behind its head. `none` is a failed
-- assertion or an index outside the bitmap; -1 as an index or a handle is `none` of its option.
pub mod Search
pub mod Bits
pub mod Allocation
pub mod Release
pub mod Fresh
mod Tests
use mutty.Common.{
  ℕ, suc, ◌+◌, ◌-◌, ◌*◌, ◌/◌, ◌%◌, ◌^◌, Bool, true, false, not, ◌&&◌, ◌||◌, Option, none, some,
  List, [], ◌∷◌, ltb, ◌==◌, if◌then◌else◌, get_or, set, take, replicate,
}
use mutty.Memory.Handle.{to_subpage_handle}

pub record Subpage : Type 0 where
  pub page_shifts : ℕ
  pub run_offset : ℕ
  pub run_size : ℕ
  pub elem_size : ℕ
  pub max_num_elems : ℕ
  pub bitmap_length : ℕ
  pub bitmap : List (List Bool)
  pub next_avail : Option ℕ
  pub num_avail : ℕ
  pub do_not_destroy : Bool
  -- Whether `prev` and `next` are set: it stands in the arena's list.
  pub pooled : Bool

abbrev pub zero_word : List Bool
zero_word = replicate 64 false

-- `addToPool` with the list; `none` is its failed assertion.
pub add_to_pool : Subpage → List ℕ → Option (Subpage × List ℕ)
add_to_pool s pool =
    if s.pooled then none else some (record s { pooled = true }, s.run_offset ∷ pool)

pub delete : ℕ → List ℕ → List ℕ
delete x [] = []
delete x (y ∷ ys) = if y == x then ys else y ∷ delete x ys

pub remove_from_pool : Subpage → List ℕ → Option (Subpage × List ℕ)
unfolding delete
remove_from_pool s pool =
    if s.pooled then some (record s { pooled = false }, delete s.run_offset pool) else none

-- The constructor, for an element size that is not zero.
pub new_subpage : ℕ → ℕ → ℕ → ℕ → List ℕ → Option (Subpage × List ℕ)
unfolding add_to_pool
new_subpage page_shifts run_offset run_size elem_size pool =
    let max_num_elems = run_size / elem_size in
    let s : Subpage = record {
      page_shifts = page_shifts;
      run_offset = run_offset;
      run_size = run_size;
      elem_size = elem_size;
      max_num_elems = max_num_elems;
      bitmap_length = max_num_elems / 2 ^ 6 + (if max_num_elems % 2 ^ 6 == 0 then 0 else 1);
      bitmap = replicate (run_size / 2 ^ (6 + 4)) zero_word;
      next_avail = some 0;
      num_avail = max_num_elems;
      do_not_destroy = true;
      pooled = false;
    } in
    add_to_pool s pool

-- The first place of a word that is 0, from place `j` on: the loop of `findNextAvail0`.
pub first_zero : List Bool → ℕ → Option ℕ
first_zero [] j = none
first_zero (true ∷ bits) j = first_zero bits (suc j)
first_zero (false ∷ bits) j = some j

-- `findNextAvail0`
pub find_next_avail_0 : ℕ → ℕ → List Bool → Option ℕ
find_next_avail_0 max_num_elems i bits = elim (first_zero bits 0) [
  | none ↦ none
  | some j ↦ if ltb (i * 2 ^ 6 + j) max_num_elems then some (i * 2 ^ 6 + j) else none
]

-- `~bits != 0`
pub has_zero : List Bool → Bool
has_zero [] = false
has_zero (true ∷ bits) = has_zero bits
has_zero (false ∷ bits) = true

-- The loop of `findNextAvail` over the words left, from word `i` on.
pub find_next_avail : ℕ → List (List Bool) → ℕ → Option ℕ
find_next_avail max_num_elems [] i = none
find_next_avail max_num_elems (bits ∷ words) i =
    let rest = find_next_avail max_num_elems words (suc i) in
    if has_zero bits then find_next_avail_0 max_num_elems i bits else rest

-- `getNextAvail`
pub get_next_avail : Subpage → Option ℕ × Subpage
get_next_avail s = elim s.next_avail [
  | some i ↦ (some i, record s { next_avail = none })
  | none ↦ (find_next_avail s.max_num_elems (take s.bitmap_length s.bitmap) 0, s)
]

-- Bit `r` of word `q`.
abbrev pub bit_at : List (List Bool) → ℕ → Bool
bit_at bitmap i = get_or (get_or bitmap (i / 2 ^ 6) []) (i % 2 ^ 6) true

abbrev pub set_bit : List (List Bool) → ℕ → Bool → List (List Bool)
set_bit bitmap i b = set bitmap (i / 2 ^ 6) (set (get_or bitmap (i / 2 ^ 6) []) (i % 2 ^ 6) b)

pub to_handle : Subpage → ℕ → ℕ
to_handle s bitmap_idx = to_subpage_handle s.run_offset (s.run_size / 2 ^ s.page_shifts) bitmap_idx

-- What `allocate` does with the index found.
take_bit : Subpage → List ℕ → ℕ → Option (Subpage × List ℕ × Option ℕ)
take_bit s pool i =
    let s' = record s { bitmap = set_bit s.bitmap i true; num_avail = s.num_avail - 1 } in
    if bit_at s.bitmap i
    then none
    else (if s.num_avail - 1 == 0
        then elim (remove_from_pool s' pool) [
          | none ↦ none
          | some (s'', pool') ↦ some (s'', pool', some (to_handle s'' i))
        ]
        else some (s', pool, some (to_handle s' i)))

-- `allocate`: the subpage, the list and the handle.
pub allocate : Subpage → List ℕ → Option (Subpage × List ℕ × Option ℕ)
unfolding take_bit
allocate s pool =
    if s.num_avail == 0 || not s.do_not_destroy
    then some (s, pool, none)
    else (let (found, s') = get_next_avail s in
        elim found [ none ↦ none | some i ↦ take_bit s' pool i ])

abbrev pub is_only : List ℕ → Bool
is_only (x ∷ []) = true
is_only xs = false

-- The end of `free`, with an element more available; the flag says that the subpage stays in use.
release : Subpage → List ℕ → Option (Subpage × List ℕ × Bool)
release s pool =
    if s.num_avail == s.max_num_elems && not (not s.pooled || is_only pool)
    then elim (remove_from_pool (record s { do_not_destroy = false }) pool) [
      | none ↦ none
      | some (s', pool') ↦ some (s', pool', false)
    ]
    else some (s, pool, true)

-- `free`; `prev == next` says that the list holds this subpage alone, or that it stands in none.
pub free : Subpage → List ℕ → ℕ → Option (Subpage × List ℕ × Bool)
unfolding release
free s pool i =
    let s' = record s {
      bitmap = set_bit s.bitmap i false;
      next_avail = some i;
      num_avail = s.num_avail + 1;
    } in
    if s.elem_size == 0
    then some (s, pool, true)
    else (if not (bit_at s.bitmap i)
        then none
        else (if s.num_avail == 0
            then elim (add_to_pool s' pool) [
              | none ↦ none
              | some (s'', pool') ↦
                  if ltb 1 s.max_num_elems then some (s'', pool', true) else release s'' pool'
            ]
            else release s' pool))
