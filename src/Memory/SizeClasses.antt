-- ===== src/Memory/SizeClasses.antt =====
-- buffer/SizeClasses.h and SizeClasses.cpp: the table of size classes and the searches in it.
-- Sizes, indices and shifts are never negative; `x & (2 ^ k - 1)` is written `x % 2 ^ k`.
pub mod Rounding
pub mod Lookup
pub mod Pages
mod Tests
use mutty.Common.{
  ℕ, zero, suc, ◌+◌, ◌-◌, ◌*◌, ◌/◌, ◌%◌, ◌^◌, ◌≤◌, ◌<◌, min, max, ◌≡◌, refl, sym, ap, ◌∙◌, subst,
  ◌≢◌, ◌⊎◌, inl, inr, Bool, true, false, not, ◌&&◌, ◌||◌, Option, none, some, List, [], ◌∷◌, ◌++◌,
  arith, ltb, leb, ◌==◌, if◌then◌else◌, Bool-cases, Option-cases, ltb→lt, lt→ltb, ltb_false→le,
  le→ltb_false, leb→le, ==→eq, eq→==, ne→==_false, length, get_elem?, get_or, set, take, drop,
  replicate, length-append, length-set, length-take, length-drop, length-replicate,
  take-append_drop, take-append, drop-append, get_or-set,
}
use mutty.Memory.MathUtil.{log2}

-- `LOG2_QUANTUM`, `LOG2_SIZE_CLASS_GROUP`, `LOG2_MAX_LOOKUP_SIZE`
abbrev pub log2_quantum : ℕ
log2_quantum = 4

abbrev pub log2_size_class_group : ℕ
log2_size_class_group = 2

abbrev pub log2_max_lookup_size : ℕ
log2_max_lookup_size = 12

-- One line of `m_sizeClasses`; the casts to `unsigned short` keep these small numbers.
pub record SizeClass : Type 0 where
  pub index : ℕ
  pub log2_group : ℕ
  pub log2_delta : ℕ
  pub n_delta : ℕ
  pub is_multi_page_size : Bool
  pub is_subpage : Bool
  pub log2_delta_lookup : ℕ

-- The fields that `sizeClass` and `sizeClasses` fill.
pub record Table : Type 0 where
  pub classes : List SizeClass
  pub n_psizes : ℕ
  pub n_subpages : ℕ
  pub small_max_size_idx : ℕ
  pub lookup_max_size : ℕ

abbrev pub count_if : Bool → ℕ → ℕ
count_if b n = if b then n + 1 else n

-- `log2Ndelta`, `remove` and `log2Size` of `sizeClass`
log2_size : ℕ → ℕ → ℕ → ℕ
log2_size log2_group log2_delta n_delta =
    let log2_n_delta = if n_delta == 0 then 0 else log2 n_delta in
    if log2_delta + log2_n_delta == log2_group then log2_group + 1 else log2_group

must_remove : ℕ → ℕ → ℕ → Bool
unfolding log2_size
must_remove log2_group log2_delta n_delta =
    let log2_n_delta = if n_delta == 0 then 0 else log2 n_delta in
    ltb (2 ^ log2_n_delta) n_delta || log2_size log2_group log2_delta n_delta == log2_group

-- The line that `sizeClass` writes, and the size that it returns.
class_line : ℕ → ℕ → ℕ → ℕ → ℕ → SizeClass
unfolding log2_size must_remove
class_line page_shifts index log2_group log2_delta n_delta =
    let page_size : ℕ = 2 ^ page_shifts in
    let size = 2 ^ log2_group + 2 ^ log2_delta * n_delta in
    let log2_of_size = log2_size log2_group log2_delta n_delta in
    record {
      index = index;
      log2_group = log2_group;
      log2_delta = log2_delta;
      n_delta = n_delta;
      is_multi_page_size =
          if leb page_shifts log2_delta then true else size == size / page_size * page_size;
      is_subpage = ltb log2_of_size (page_shifts + log2_size_class_group);
      log2_delta_lookup =
          if ltb log2_of_size log2_max_lookup_size
            || (log2_of_size == log2_max_lookup_size
                && not (must_remove log2_group log2_delta n_delta))
          then log2_delta
          else 0;
    }

abbrev pub class_size : SizeClass → ℕ
class_size c = 2 ^ c.log2_group + c.n_delta * 2 ^ c.log2_delta

-- `sizeClass`: the line is written at the end of the table, which is its index.
pub size_class : ℕ → Table → ℕ → ℕ → ℕ → Table × ℕ
unfolding class_line
size_class page_shifts t log2_group log2_delta n_delta =
    let index = length t.classes in
    let c = class_line page_shifts index log2_group log2_delta n_delta in
    (
      record {
        classes = t.classes ++ c ∷ [];
        n_psizes = count_if c.is_multi_page_size t.n_psizes;
        n_subpages = count_if c.is_subpage t.n_subpages;
        small_max_size_idx = if c.is_subpage then index else t.small_max_size_idx;
        lookup_max_size = if c.log2_delta_lookup == 0 then t.lookup_max_size else class_size c;
      },
      class_size c,
    )

-- The loop of the first group: `while (nDelta < ndeltaLimit)`, by the rounds left.
first_group : ℕ → ℕ → Table → ℕ → ℕ → Table × ℕ
unfolding size_class
first_group zero page_shifts t size n_delta = (t, size)
first_group (suc rounds) page_shifts t size n_delta =
    let (t', size') = size_class page_shifts t log2_quantum log2_quantum n_delta in
    first_group rounds page_shifts t' size' (n_delta + 1)

-- `while (nDelta <= ndeltaLimit && size < m_chunkSize)`, by the rounds left.
group_lines : ℕ → ℕ → ℕ → ℕ → ℕ → Table → ℕ → ℕ → Table × ℕ
unfolding size_class
group_lines zero page_shifts chunk_size log2_group log2_delta t size n_delta = (t, size)
group_lines (suc rounds) page_shifts chunk_size log2_group log2_delta t size n_delta =
    let (t', size') = size_class page_shifts t log2_group log2_delta n_delta in
    let rest =
      group_lines rounds page_shifts chunk_size log2_group log2_delta t' size' (n_delta + 1) in
    if ltb size chunk_size then rest else (t, size)

-- `while (size < m_chunkSize)`; a round is a group, and the sizes double from group to group.
groups : ℕ → ℕ → ℕ → ℕ → ℕ → Table → ℕ → Table × ℕ
unfolding group_lines
groups zero page_shifts chunk_size log2_group log2_delta t size = (t, size)
groups (suc fuel) page_shifts chunk_size log2_group log2_delta t size =
    let (t', size') = group_lines 4 page_shifts chunk_size log2_group log2_delta t size 1 in
    let rest = groups fuel page_shifts chunk_size (log2_group + 1) (log2_delta + 1) t' size' in
    if ltb size chunk_size then rest else (t, size)

abbrev empty_table : Table
empty_table = record {
  classes = [];
  n_psizes = 0;
  n_subpages = 0;
  small_max_size_idx = 0;
  lookup_max_size = 0;
}

-- `sizeClasses`; `none` is its failed assertion: the last size of a group, if there is one, is the
-- chunk. An int has at most 32 groups.
pub size_classes : ℕ → ℕ → Option Table
unfolding groups first_group
size_classes page_shifts chunk_size =
    let (t, size) = first_group 4 page_shifts empty_table 0 0 in
    let (t', last) = groups 32 page_shifts chunk_size (log2_quantum + 2) log2_quantum t size in
    if ltb size chunk_size && last == chunk_size then some t' else none

-- `idx2SizeTab`: the two tables of sizes.
pub size_idx_to_size_tab : List SizeClass → List ℕ
size_idx_to_size_tab [] = []
size_idx_to_size_tab (c ∷ cs) = class_size c ∷ size_idx_to_size_tab cs

pub page_idx_to_size_tab : List SizeClass → List ℕ
page_idx_to_size_tab [] = []
page_idx_to_size_tab (c ∷ cs) =
    let rest = page_idx_to_size_tab cs in if c.is_multi_page_size then class_size c ∷ rest else rest

-- `sizeIdx2sizeCompute` and `pageIdx2sizeCompute` differ in the base shift alone.
unfoldable pub idx_to_size : ℕ → ℕ → ℕ
idx_to_size base idx =
    let group = idx / 2 ^ log2_size_class_group in
    let position = idx % 2 ^ log2_size_class_group in
    let group_size = if group == 0 then 0 else 2 ^ (base + log2_size_class_group - 1) * 2 ^ group in
    let shift = if group == 0 then 1 else group in
    let log2_delta = shift + base - 1 in group_size + (position + 1) * 2 ^ log2_delta

pub size_idx_to_size_compute : ℕ → ℕ
unfolding idx_to_size
size_idx_to_size_compute size_idx = idx_to_size log2_quantum size_idx

pub page_idx_to_size_compute : ℕ → ℕ → ℕ
unfolding idx_to_size
page_idx_to_size_compute page_shifts page_idx = idx_to_size page_shifts page_idx

-- `(size << 1) - 1` on int
abbrev pub doubled : ℕ → ℕ
doubled size = (size * 2 + 2 ^ 32 - 1) % 2 ^ 32

-- The search by bits, at the end of `size2SizeIdx`.
pub size_to_size_idx_compute : ℕ → ℕ
size_to_size_idx_compute size =
    let x = log2 (doubled size) in
    let shift =
      if ltb x (log2_size_class_group + log2_quantum + 1)
      then 0
      else x - (log2_size_class_group + log2_quantum) in
    let group = shift * 2 ^ log2_size_class_group in
    let log2_delta =
      if ltb x (log2_size_class_group + log2_quantum + 1)
      then log2_quantum
      else x - log2_size_class_group - 1 in
    let cleared = (size - 1) / 2 ^ log2_delta * 2 ^ log2_delta in
    group + cleared / 2 ^ log2_delta % 2 ^ log2_size_class_group

-- The same search in `pages2pageIdxCompute`, before the bounds and the rounding down.
unfoldable pub page_size_to_page_idx : ℕ → ℕ → ℕ
page_size_to_page_idx page_shifts page_size =
    let x = log2 (doubled page_size) in
    let shift =
      if ltb x (log2_size_class_group + page_shifts)
      then 0
      else x - (log2_size_class_group + page_shifts) in
    let group = shift * 2 ^ log2_size_class_group in
    let log2_delta =
      if ltb x (log2_size_class_group + page_shifts + 1)
      then page_shifts
      else x - log2_size_class_group - 1 in
    let cleared = (page_size - 1) / 2 ^ log2_delta * 2 ^ log2_delta in
    group + cleared / 2 ^ log2_delta % 2 ^ log2_size_class_group

-- `size + delta_mask & ~delta_mask`
pub normalize_size_compute : ℕ → ℕ
normalize_size_compute size =
    let x = log2 (doubled size) in
    let log2_delta =
      if ltb x (log2_size_class_group + log2_quantum + 1)
      then log2_quantum
      else x - log2_size_class_group - 1 in
    (size + 2 ^ log2_delta - 1) / 2 ^ log2_delta * 2 ^ log2_delta

-- The inner loop of `size2idxTab`, by the value of `times`: `(entries, idx, size)` after it.
fill_entries : ℕ → ℕ → ℕ → List ℕ → ℕ → List ℕ × ℕ
fill_entries zero lookup_max_size i tab size = (tab, size)
fill_entries (suc times) lookup_max_size i tab size =
    let rest =
      fill_entries times lookup_max_size i (tab ++ i ∷ [])
        ((length tab + 1 + 1) * 2 ^ log2_quantum) in
    if leb size lookup_max_size then rest else (tab, size)

-- `size2idxTab` over the classes left, from class `i` on; its index is the length of the table.
-- The source runs past the last class if the sizes never exceed `lookup_max_size`.
fill_tab : List SizeClass → ℕ → ℕ → List ℕ → ℕ → List ℕ
unfolding fill_entries
fill_tab [] lookup_max_size i tab size = tab
fill_tab (c ∷ cs) lookup_max_size i tab size =
    let (tab', size') =
      fill_entries (2 ^ (c.log2_delta - log2_quantum)) lookup_max_size i tab size in
    let rest = fill_tab cs lookup_max_size (i + 1) tab' size' in
    if leb size lookup_max_size then rest else tab

-- The object after its constructor.
pub record SizeClasses : Type 0 where
  pub page_size : ℕ
  pub page_shifts : ℕ
  pub chunk_size : ℕ
  pub n_sizes : ℕ
  pub n_subpages : ℕ
  pub n_psizes : ℕ
  pub small_max_size_idx : ℕ
  pub lookup_max_size : ℕ
  pub size_tab : List ℕ
  pub page_size_tab : List ℕ
  pub size_to_idx_tab : List ℕ

unfoldable pub build : ℕ → ℕ → ℕ → Option SizeClasses
unfolding size_classes size_idx_to_size_tab page_idx_to_size_tab fill_tab
build page_size page_shifts chunk_size = elim (size_classes page_shifts chunk_size) [
  | none ↦ none
  | some t ↦ some (record {
    page_size = page_size;
    page_shifts = page_shifts;
    chunk_size = chunk_size;
    n_sizes = length t.classes;
    n_subpages = t.n_subpages;
    n_psizes = t.n_psizes;
    small_max_size_idx = t.small_max_size_idx;
    lookup_max_size = t.lookup_max_size;
    size_tab = size_idx_to_size_tab t.classes;
    page_size_tab = page_idx_to_size_tab t.classes;
    size_to_idx_tab = fill_tab t.classes t.lookup_max_size 0 [] 0;
  })
]

-- `sizeIdx2size` and `pageIdx2size`; the source does not check the index, and 0 stands for a read
-- past the table.
unfoldable pub size_idx_to_size : SizeClasses → ℕ → ℕ
size_idx_to_size c size_idx = get_or c.size_tab size_idx 0

unfoldable pub page_idx_to_size : SizeClasses → ℕ → ℕ
page_idx_to_size c page_idx = get_or c.page_size_tab page_idx 0

pub size_to_size_idx : SizeClasses → ℕ → ℕ
size_to_size_idx c size =
    if size == 0
    then 0
    else (if ltb c.chunk_size size
        then c.n_sizes
        else (if leb size c.lookup_max_size
            then get_or c.size_to_idx_tab ((size - 1) / 2 ^ log2_quantum) 0
            else size_to_size_idx_compute size))

-- `pages2pageIdxCompute`
unfoldable pub pages_to_page_idx_compute : SizeClasses → ℕ → Bool → ℕ
pages_to_page_idx_compute c pages floor =
    let page_size = pages * 2 ^ c.page_shifts in
    let page_idx = page_size_to_page_idx c.page_shifts page_size in
    if ltb c.chunk_size page_size
    then c.n_psizes
    else (if floor && ltb (pages * 2 ^ c.page_shifts) (page_idx_to_size c page_idx)
        then page_idx - 1
        else page_idx)

unfoldable pub pages_to_page_idx : SizeClasses → ℕ → ℕ
pages_to_page_idx c pages = pages_to_page_idx_compute c pages false

unfoldable pub pages_to_page_idx_floor : SizeClasses → ℕ → ℕ
pages_to_page_idx_floor c pages = pages_to_page_idx_compute c pages true

-- `normalizeSize`; `none` is its failed assertion.
pub normalize_size : SizeClasses → ℕ → Option ℕ
normalize_size c size =
    if size == 0
    then some (size_idx_to_size c 0)
    else (if leb size c.lookup_max_size
        then (let ret =
              size_idx_to_size c (get_or c.size_to_idx_tab ((size - 1) / 2 ^ log2_quantum) 0) in
            if ret == normalize_size_compute size then some ret else none)
        else some (normalize_size_compute size))
