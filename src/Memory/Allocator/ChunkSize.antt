-- ===== src/Memory/Allocator/ChunkSize.antt =====
-- The chunk sizes that `validateAndCalculateChunkSize` in buffer/PooledByteBufAllocator.cpp answers.
use mutty.Common.{
  ℕ, zero, suc, ◌*◌, ◌/◌, ◌^◌, ◌≤◌, ◌<◌, ◌≡◌, refl, ap, ◌∙◌, none, some, arith, ltb, inl, inr,
  Bool-cases, ltb→lt, lt→ltb, ltb_false→le, sym,
}
use native.Mathlib.Nat.{pow-suc, mul_assoc}
use mutty.Memory.Allocator.{max_chunk_size, double_chunk, validate_and_calculate_chunk_size}

double_first : (size k : ℕ) → size * 2 ^ suc k ≡ size * 2 * 2 ^ k
double_first size k = grind (arith, pow-suc 2 k, mul_assoc size 2 (2 ^ k))

grows : (size k : ℕ) → size ≤ size * 2 ^ k
grows size zero = omega arith
grows size (suc k) = omega (arith, double_first size k, grows (size * 2) k)

-- The doubling ends with the product, if that is at most the largest chunk, and refuses it if not.
double_chunk_lem :
    (k size : ℕ)
    → size ≤ max_chunk_size
    → (size * 2 ^ k ≤ max_chunk_size → double_chunk k size ≡ some (size * 2 ^ k))
      × (max_chunk_size < size * 2 ^ k → double_chunk k size ≡ none)
unfolding double_chunk
double_chunk_lem zero size h =
    (λ _. ap some {x = size} (omega arith), λ l. absurd (omega (arith, h, l)))
double_chunk_lem (suc k) size h = elim (Bool-cases (ltb (max_chunk_size / 2) size)) [
  | inl e ↦
      let big = ltb→lt (max_chunk_size / 2) size e in
      rw e (λ l. absurd (omega (arith, big, l, double_first size k, grows (size * 2) k)), λ _. refl)
  | inr e ↦
      let small = ltb_false→le (max_chunk_size / 2) size e in
      let (fits, exceeds) = double_chunk_lem k (size * 2) (omega (arith, small)) in
      let same = double_first size k in
      rw e (
        λ l. fits (omega (arith, same, l)) ∙ ap some (sym same),
        λ l. exceeds (omega (arith, same, l)),
      )
]

-- For fewer than 14 doublings of a page of at most 1 GiB, the chunk's size is the page's times a power
-- of two, or is refused if that is more than 1 GiB.
pub validate_and_calculate_chunk_size_lem :
    (page_size max_order : ℕ)
    → page_size ≤ max_chunk_size
    → max_order < 14
    → let size = page_size * 2 ^ max_order in
      (size ≤ max_chunk_size → validate_and_calculate_chunk_size page_size max_order ≡ some size)
      × (max_chunk_size < size → validate_and_calculate_chunk_size page_size max_order ≡ none)
unfolding validate_and_calculate_chunk_size
validate_and_calculate_chunk_size_lem page_size max_order h l =
    rw (lt→ltb max_order 14 l) (double_chunk_lem max_order page_size h)
