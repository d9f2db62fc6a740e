-- ===== src/Memory/SizeClasses/Lookup.antt =====
-- The tables of the allocator's own configuration (SizeClasses.cpp, with the constants of
-- PooledByteBufAllocator.h: pages of 8 KiB, chunks of 16 MiB).
use mutty.Common.{
  ℕ, ◌+◌, ◌-◌, ◌*◌, ◌/◌, ◌^◌, ◌≤◌, ◌<◌, ◌≡◌, refl, subst, inl, inr, Bool, true, false, ◌&&◌, ◌||◌,
  Option, none, some, arith, ltb, leb, ◌==◌, Bool-cases, le→ltb_false, leb→le, ==→eq, ne→==_false,
  get_or, all_below, all_below_sound,
}
use mutty.Memory.SizeClasses.{SizeClasses, build, size_idx_to_size, idx_to_size, size_to_size_idx}
use mutty.Memory.SizeClasses.Rounding.{
  IsSmallestFit, IsSmallestFit-of_previous, size_to_size_idx_compute-IsSmallestFit,
}
use mutty.Memory.MathUtil.{log2}

-- The entry for the sizes `16 * k + 1` to `16 * k + 16` names a class that holds them all, and the
-- class before it holds none.
entry_fits : SizeClasses → ℕ → Bool
unfolding idx_to_size
entry_fits c k =
    let i = get_or c.size_to_idx_tab k 0 in
    leb (16 * k + 16) (idx_to_size 4 i) && (i == 0 || ltb (idx_to_size 4 (i - 1)) (16 * k + 1))

line_computes : SizeClasses → ℕ → Bool
unfolding idx_to_size size_idx_to_size
line_computes c k = size_idx_to_size c k == idx_to_size 4 k

abbrev checked : SizeClasses → Bool
checked c =
    (c.lookup_max_size == 4096)
    && (c.chunk_size == 2 ^ 24)
    && (c.n_sizes == 76)
    && (idx_to_size 4 75 == 2 ^ 24)
    && all_below 76 (line_computes c)
    && all_below 256 (entry_fits c)

abbrev checked_build : Option SizeClasses → Bool
checked_build none = false
checked_build (some c) = checked c

default-checked : checked_build (build 8192 13 (2 ^ 24)) ≡ true
unfolding build all_below entry_fits line_computes log2
default-checked = refl

record IsChecked (c : SizeClasses) : Type 0 where
  lookup : c.lookup_max_size ≡ 4096
  chunk : c.chunk_size ≡ 2 ^ 24
  sizes : c.n_sizes ≡ 76
  top : idx_to_size 4 75 ≡ 2 ^ 24
  lines : all_below 76 (line_computes c) ≡ true
  entries : all_below 256 (entry_fits c) ≡ true

checked-IsChecked : (c : SizeClasses) → checked c ≡ true → IsChecked c
checked-IsChecked c h = ground arith

module _ (c : SizeClasses) (v : IsChecked c) where
  line : (k : ℕ) → k < 76 → size_idx_to_size c k ≡ idx_to_size 4 k
  unfolding line_computes
  line k h = ==→eq _ _ (all_below_sound 76 _ k v.lines h)

  entry-IsSmallestFit :
      (size : ℕ)
      → 0 < size
      → size ≤ 4096
      → IsSmallestFit 4 size (get_or c.size_to_idx_tab ((size - 1) / 16) 0)
  unfolding entry_fits
  entry-IsSmallestFit size p h =
      let k = (size - 1) / 16 in
      let fact = all_below_sound 256 (entry_fits c) k v.entries (omega arith) in
      let i = get_or c.size_to_idx_tab k 0 in
      IsSmallestFit-of_previous 4 size i (omega arith) (ground (arith, fact))
        (λ q. ground (arith, fact))

  size_to_size_idx-IsSmallestFit :
      (size : ℕ) → 0 < size → size ≤ 2 ^ 24 → IsSmallestFit 4 size (size_to_size_idx c size)
  unfolding size_to_size_idx
  size_to_size_idx-IsSmallestFit size p h =
      rw
        (
          ne→==_false size 0 (omega arith),
          le→ltb_false c.chunk_size size (omega (arith, v.chunk)),
          v.lookup,
        )
        (elim (Bool-cases (leb size 4096)) [
          | inl small ↦ rw small (entry-IsSmallestFit size p (leb→le _ _ small))
          | inr large ↦ rw large (size_to_size_idx_compute-IsSmallestFit size p (omega arith))
        ])

-- In the default configuration, for every size from 1 byte to a chunk, `size2SizeIdx` answers an
-- index of the table of sizes, whose class holds the size, while no class before it does.
pub size_to_size_idx_default :
    (c : SizeClasses) (size : ℕ)
    → build 8192 13 (2 ^ 24) ≡ some c
    → 0 < size
    → size ≤ 2 ^ 24
    → let idx = size_to_size_idx c size in
      (idx < c.n_sizes)
      × (size ≤ size_idx_to_size c idx)
      × ((k : ℕ) → k < idx → size_idx_to_size c k < size)
size_to_size_idx_default c size e p h =
    let v = checked-IsChecked c (subst (λ o. checked_build o ≡ true) e default-checked) in
    let f = size_to_size_idx-IsSmallestFit c v size p h in
    let idx = size_to_size_idx c size in
    let inside : idx < 76 = grind (arith, v.top, f.least 75) in
    (
      omega (arith, inside, v.sizes),
      rw (line c v idx inside) f.fits,
      λ k l. rw (line c v k (omega (arith, inside))) (f.least k l),
    )
