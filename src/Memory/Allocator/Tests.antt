-- ===== src/Memory/Allocator/Tests.antt =====
-- Three threads on two arenas, and the sizes of the default configuration
-- (buffer/PooledByteBufAllocator.cpp).
use mutty.Common.{ℕ, zero, suc, ◌+◌, ◌≡◌, refl, none, some, List, [], ◌∷◌, arith, length}
use mutty.Memory.MathUtil.{log2}
use mutty.Memory.Allocator.{
  validate_and_calculate_page_shifts, validate_and_calculate_chunk_size, initial_value, new_threads,
}
use mutty.Memory.Allocator.Sharing.{Even, total, new_threads-Even}

abbrev two_arenas : List ℕ
two_arenas = 0 ∷ 0 ∷ []

two_arenas-Even : Even 0 two_arenas
unfolding Even
two_arenas-Even zero l = (omega arith, omega arith)
two_arenas-Even (suc zero) l = (omega arith, omega arith)
two_arenas-Even (suc (suc j)) l = absurd (omega (arith, l))

new_threads-Even_example :
    (m' : ℕ) × (counts' : List ℕ) × (new_threads 3 two_arenas ≡ some counts')
    × Even m' counts'
    × (length counts' ≡ length two_arenas)
    × (total counts' ≡ total two_arenas + 3)
new_threads-Even_example = new_threads-Even 3 0 two_arenas (omega arith) two_arenas-Even

three_threads : new_threads 3 two_arenas ≡ some (2 ∷ 1 ∷ [])
unfolding new_threads initial_value
three_threads = refl

default_sizes :
    (validate_and_calculate_page_shifts 8192 ≡ some 13)
    × (validate_and_calculate_chunk_size 8192 11 ≡ some 16777216)
unfolding validate_and_calculate_page_shifts validate_and_calculate_chunk_size log2
default_sizes = (refl, refl)

refused_sizes :
    (validate_and_calculate_page_shifts 2048 ≡ none)
    × (validate_and_calculate_page_shifts 12288 ≡ none)
    × (validate_and_calculate_chunk_size 1048576 11 ≡ none)
unfolding validate_and_calculate_page_shifts validate_and_calculate_chunk_size
refused_sizes = (refl, refl, refl)
