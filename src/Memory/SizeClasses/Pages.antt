-- ===== src/Memory/SizeClasses/Pages.antt =====
-- The run classes of the allocator's own configuration (SizeClasses.cpp), as a chunk uses them.
use mutty.Common.{
  ℕ, ◌+◌, ◌-◌, ◌*◌, ◌^◌, ◌≤◌, ◌<◌, ◌≡◌, refl, subst, inl, inr, Bool, true, false, ◌&&◌, Option,
  none, some, [], arith, ltb, leb, ◌==◌, Bool-cases, ltb→lt, lt→ltb, ltb_false→le, le→ltb_false,
  all_below, all_below_sound,
}
use mutty.Memory.MathUtil.{log2}
use mutty.Memory.SizeClasses.{
  SizeClasses, build, idx_to_size, page_idx_to_size, page_size_to_page_idx,
  pages_to_page_idx_compute, pages_to_page_idx, pages_to_page_idx_floor, size_idx_to_size,
  size_to_size_idx,
}
use mutty.Memory.SizeClasses.Rounding.{page_size_to_page_idx-IsSmallestFit, idx_to_size_mono}
use mutty.Memory.Sizes.{Sizes}

-- The class rounded down to holds no more than `k + 1` pages, and each of the classes is in the table.
page_entry_fits : SizeClasses → ℕ → Bool
unfolding idx_to_size page_idx_to_size page_size_to_page_idx pages_to_page_idx_compute
    pages_to_page_idx pages_to_page_idx_floor
page_entry_fits c k =
    leb (idx_to_size 13 (pages_to_page_idx_floor c (k + 1))) ((k + 1) * 8192)
    && ltb (pages_to_page_idx c (k + 1)) c.n_psizes
    && ltb (pages_to_page_idx_floor c (k + 1)) c.n_psizes

abbrev checked : SizeClasses → Bool
checked c = (c.chunk_size == 2 ^ 24) && (c.page_shifts == 13) && all_below 2048 (page_entry_fits c)

abbrev checked_build : Option SizeClasses → Bool
checked_build none = false
checked_build (some c) = checked c

default-checked : checked_build (build 8192 13 (2 ^ 24)) ≡ true
unfolding build all_below page_entry_fits log2
default-checked = refl

pub chunk_small : ◌<◌ 2048 (2 ^ 14)
chunk_small = omega arith

module _ (c : SizeClasses) (built : build 8192 13 (2 ^ 24) ≡ some c) where
  is_checked : checked c ≡ true
  is_checked = subst (λ o. checked_build o ≡ true) built default-checked

  chunk : c.chunk_size ≡ 2 ^ 24
  chunk = ground (arith, is_checked)

  shifts : c.page_shifts ≡ 13
  shifts = ground (arith, is_checked)

  entries : all_below 2048 (page_entry_fits c) ≡ true
  entries = ground (arith, is_checked)

  page_entry :
      (pages : ℕ)
      → 1 ≤ pages
      → pages ≤ 2048
      → (idx_to_size 13 (pages_to_page_idx_floor c pages) ≤ pages * 8192)
        × (pages_to_page_idx c pages < c.n_psizes)
        × (pages_to_page_idx_floor c pages < c.n_psizes)
  unfolding page_entry_fits
  page_entry pages p h =
      let k = pages - 1 in
      let fact = all_below_sound 2048 (page_entry_fits c) k entries (omega arith) in
      let same : k + 1 ≡ pages = omega arith in
      subst
        (λ (n : ℕ).
          (idx_to_size 13 (pages_to_page_idx_floor c n) ≤ n * 8192)
          × (pages_to_page_idx c n < c.n_psizes)
          × (pages_to_page_idx_floor c n < c.n_psizes))
        same (ground (arith, fact), ground (arith, fact), ground (arith, fact))

  pages_to_page_idx_inside :
      (need : ℕ) → need ≤ 2048 → pages_to_page_idx c need ≡ page_size_to_page_idx 13 (need * 8192)
  unfolding pages_to_page_idx pages_to_page_idx_compute
  pages_to_page_idx_inside need h =
      rw (shifts, le→ltb_false c.chunk_size (need * 8192) (omega (arith, h, chunk))) refl

  pages_to_page_idx_outside : (need : ℕ) → 2048 < need → pages_to_page_idx c need ≡ c.n_psizes
  unfolding pages_to_page_idx pages_to_page_idx_compute
  pages_to_page_idx_outside need h =
      rw (shifts, lt→ltb c.chunk_size (need * 8192) (omega (arith, h, chunk))) refl

  -- A run of pages whose class, rounded down, is at least the first class that holds `need` pages has
  -- that many.
  pub floor_fits :
      (need pages : ℕ)
      → 1 ≤ need
      → 1 ≤ pages
      → pages ≤ 2048
      → pages_to_page_idx c need ≤ pages_to_page_idx_floor c pages
      → need ≤ pages
  floor_fits need pages low p h l =
      let (size, class, floor) = page_entry pages p h in
      elim (Bool-cases (ltb 2048 need)) [
        | inl e ↦
            let outside = pages_to_page_idx_outside need (ltb→lt _ _ e) in
            absurd (omega (arith, outside, floor, l))
        | inr e ↦
            let inside = ltb_false→le _ _ e in
            let first = pages_to_page_idx_inside need inside in
            let fit =
              (page_size_to_page_idx-IsSmallestFit 13 (need * 8192) (omega arith)
                (omega (arith, low)) (omega (arith, inside))).fits in
            let i = page_size_to_page_idx 13 (need * 8192) in
            let j = pages_to_page_idx_floor c pages in
            let reach : i + (j - i) ≡ j = omega (arith, l, first) in
            let grows =
              subst (λ (t : ℕ). idx_to_size 13 i ≤ idx_to_size 13 t) reach
                (idx_to_size_mono 13 i (j - i) (omega arith)) in
            omega (arith, fit, grows, size)
      ]

  pub class_below : (need : ℕ) → 1 ≤ need → need ≤ 2048 → pages_to_page_idx c need < c.n_psizes
  class_below need p h = (page_entry need p h).1

  abbrev pub default_sizes : Sizes
  default_sizes = record {
    page_shifts = 13;
    chunk_pages = 2048;
    n_psizes = c.n_psizes;
    small_max_size_idx = c.small_max_size_idx;
    pages_to_page_idx = pages_to_page_idx c;
    pages_to_page_idx_floor = pages_to_page_idx_floor c;
    size_idx_to_size = size_idx_to_size c;
    size_to_size_idx = size_to_size_idx c;
    small_chunk = chunk_small;
    floor_fits = floor_fits;
    class_below = class_below;
  }

-- The classes of the default configuration.
abbrev pub or_empty : Option SizeClasses → SizeClasses
or_empty (some c) = c
or_empty none = record {
  page_size = 0;
  page_shifts = 0;
  chunk_size = 0;
  n_sizes = 0;
  n_subpages = 0;
  n_psizes = 0;
  small_max_size_idx = 0;
  lookup_max_size = 0;
  size_tab = [];
  page_size_tab = [];
  size_to_idx_tab = [];
}

abbrev pub default_classes : SizeClasses
default_classes = or_empty (build 8192 13 (2 ^ 24))

is_some : Option SizeClasses → Bool
is_some (some c) = true
is_some none = false

or_empty-some : (o : Option SizeClasses) → is_some o ≡ true → o ≡ some (or_empty o)
unfolding is_some
or_empty-some (some c) h = refl
or_empty-some none h = cc

default_is_some : is_some (build 8192 13 (2 ^ 24)) ≡ true
unfolding is_some build
default_is_some = refl

pub default_built : build 8192 13 (2 ^ 24) ≡ some default_classes
default_built = or_empty-some (build 8192 13 (2 ^ 24)) default_is_some
