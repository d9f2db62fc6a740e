-- ===== src/Memory/PoolChunk/Buffers/RunSizes.antt =====
-- `calculateRunSize` of buffer/PoolChunk.cpp in the default configuration.
use mutty.Common.{
  ℕ, ◌+◌, ◌-◌, ◌*◌, ◌/◌, ◌%◌, ◌^◌, ◌≤◌, ◌<◌, ◌≡◌, refl, subst, ◌≢◌, inl, inr, Bool, true, false,
  not, ◌&&◌, Option, none, some, arith, ltb, leb, ◌==◌, Option-cases, eq→==, all_below,
  all_below_sound,
}
use mutty.Memory.MathUtil.{log2}
use mutty.Memory.SizeClasses.{SizeClasses, build, size_idx_to_size}
use mutty.Memory.SizeClasses.Pages.{default_sizes}
use mutty.Memory.Sizes.{Sizes}
use mutty.Memory.RunQueue.Heap.{heap_queue}
use mutty.Memory.PoolChunk.Buffers.{calculate_run_size}

-- The least common multiple of the page size and the element size, of at most 512 elements.
pub record IsLeastRun (elem_size run_size : ℕ) : Type 0 where
  pub some_page : 0 < run_size
  pub whole_pages : run_size % 8192 ≡ 0
  pub whole_elements : run_size % elem_size ≡ 0
  pub few : run_size / elem_size ≤ 512
  pub least : (k : ℕ) → 1 ≤ k → k * 8192 < run_size → k * 8192 % elem_size ≢ 0

no_less : ℕ → ℕ → Bool
no_less elem_size k = not ((k + 1) * 8192 % elem_size == 0)

is_least : ℕ → ℕ → Bool
unfolding no_less all_below
is_least elem_size run_size =
    ltb 0 run_size
    && (run_size % 8192 == 0)
    && (run_size % elem_size == 0)
    && leb (run_size / elem_size) 512
    && all_below (run_size / 8192 - 1) (no_less elem_size)

abbrev is_least_some : ℕ → Option ℕ → Bool
is_least_some elem_size none = false
is_least_some elem_size (some run_size) = is_least elem_size run_size

least_entry : Sizes → ℕ → Bool
unfolding calculate_run_size is_least
least_entry a i = is_least_some (a.size_idx_to_size i) (calculate_run_size heap_queue a i)

least_sizes : (o : Option SizeClasses) → build 8192 13 (2 ^ 24) ≡ o → Bool
unfolding least_entry all_below
least_sizes none e = false
least_sizes (some c) e = all_below (c.small_max_size_idx + 1) (least_entry (default_sizes c e))

default-least :
    (e : build 8192 13 (2 ^ 24) ≡ build 8192 13 (2 ^ 24))
    → least_sizes (build 8192 13 (2 ^ 24)) e ≡ true
unfolding least_sizes build least_entry all_below log2 size_idx_to_size
default-least e = refl

is_least-IsLeastRun :
    (elem_size run_size : ℕ) → is_least elem_size run_size ≡ true → IsLeastRun elem_size run_size
unfolding is_least no_less
is_least-IsLeastRun elem_size run_size e =
    let below : all_below (run_size / 8192 - 1) (no_less elem_size) ≡ true = ground (arith, e) in
    let whole : run_size % 8192 ≡ 0 = ground (arith, e) in
    record {
      some_page = ground (arith, e);
      whole_pages = whole;
      whole_elements = ground (arith, e);
      few = ground (arith, e);
      least = λ k low less s.
          let here =
            all_below_sound (run_size / 8192 - 1) (no_less elem_size) (k - 1) below
              (omega (arith, low, less, whole)) in
          let same : k - 1 + 1 ≡ k = omega (arith, low) in
          let at_k : not (k * 8192 % elem_size == 0) ≡ true =
            subst (λ (n : ℕ). not (n * 8192 % elem_size == 0) ≡ true) same here in
          absurd (ground (arith, at_k, eq→== (k * 8192 % elem_size) 0 s));
    }

-- For every small size class of the default configuration `calculateRunSize` ends and fails no
-- assertion: its answer is the least common multiple of the page size and the class's size, and holds
-- at most 512 elements.
pub calculate_run_size-IsLeastRun :
    (c : SizeClasses) (built : build 8192 13 (2 ^ 24) ≡ some c) (size_idx : ℕ)
    → size_idx ≤ c.small_max_size_idx
    → (run_size : ℕ) × (calculate_run_size heap_queue (default_sizes c built) size_idx
        ≡ some run_size)
      × IsLeastRun (size_idx_to_size c size_idx) run_size
unfolding least_sizes least_entry
calculate_run_size-IsLeastRun c built size_idx h =
    let a = default_sizes c built in
    let all : least_sizes (some c) built ≡ true =
      subst (λ (o : Option SizeClasses). (e : build 8192 13 (2 ^ 24) ≡ o) → least_sizes o e ≡ true)
        built default-least built in
    let here : least_entry a size_idx ≡ true =
      all_below_sound (c.small_max_size_idx + 1) (least_entry a) size_idx all (omega arith) in
    elim (Option-cases (calculate_run_size heap_queue a size_idx)) [
      | inl e ↦ let wrong : false ≡ true = rw (e, least_entry) at here in cc
      | inr (run_size, e) ↦ (
        run_size,
        e,
        is_least-IsLeastRun (size_idx_to_size c size_idx) run_size (rw (e, least_entry) at here),
      )
    ]
