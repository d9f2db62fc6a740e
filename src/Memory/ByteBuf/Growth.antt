-- ===== src/Memory/ByteBuf/Growth.antt =====
-- Growing a buffer: the capacity asked for, and what a move keeps (buffer/PooledByteBuf.cpp,
-- PooledByteBufAllocator.cpp, PoolArena.cpp).
use mutty.Common.{
  ℕ, zero, suc, ◌+◌, ◌-◌, ◌*◌, ◌/◌, ◌^◌, ◌≤◌, ◌<◌, min, ◌≡◌, refl, ap, ◌∙◌, inl, inr, false, some,
  List, [], ◌∷◌, ◌++◌, arith, ltb, leb, ◌==◌, Bool-cases, lt→ltb, le→ltb_false, leb→le, ne→==_false,
  length, set, take, length-take,
}
use mutty.Memory.ByteBuf.{
  ByteBuf, Granted, FromArena, writable_bytes, copy_to, calculate_threshold, double_up_to,
  calculate_new_capacity, reallocate, set_capacity, wanted_capacity, ensure_writable,
}
use mutty.Memory.ByteBuf.Contents.{IsValid, take-take_le, length-copy_to}
use native.Mathlib.Nat.{pow-suc}

le-double_up_to : (fuel low n : ℕ) → low ≤ n * 2 ^ fuel → low ≤ double_up_to fuel low n
unfolding double_up_to
le-double_up_to zero low n h = omega arith
le-double_up_to (suc fuel) low n h =
    let e : low ≤ n * 2 * 2 ^ fuel = omega (arith, ap (λ (t : ℕ). n * t) (pow-suc 2 fuel)) in
    ground (arith, le-double_up_to fuel low (n * 2) e)

-- For a request within the limit `calculateNewCapacity` always answers, with a capacity between the
-- request and the limit.
pub calculate_new_capacity_bounds :
    (low high : ℕ)
    → low ≤ high
    → (c : ℕ) × (calculate_new_capacity low high ≡ some c) × (low ≤ c) × (c ≤ high)
unfolding calculate_new_capacity
calculate_new_capacity_bounds low high h = elim (Bool-cases (low == calculate_threshold)) [
  | inl e ↦ rw (le→ltb_false high low h, e) (calculate_threshold, refl, ground arith, ground arith)
  | inr e ↦ elim (Bool-cases (ltb calculate_threshold low)) [
    | inl l ↦
        let top = low / calculate_threshold * calculate_threshold in
        elim (Bool-cases (ltb (high - calculate_threshold) top)) [
          | inl k ↦ rw (le→ltb_false high low h, e, l, k) (high, refl, h, omega arith)
          | inr k ↦
              rw (le→ltb_false high low h, e, l, k)
                (top + calculate_threshold, refl, omega arith, ground arith)
        ]
    | inr l ↦
        let d = le-double_up_to 16 low 64 (ground arith) in
        rw (le→ltb_false high low h, e, l)
          (min (double_up_to 16 low 64) high, refl, omega (arith, d), omega arith)
  ]
]

take-append_le : (n : ℕ) (xs ys : List ℕ) → n ≤ length xs → take n (xs ++ ys) ≡ take n xs
take-append_le zero xs ys h = refl
take-append_le (suc n) [] ys h = absurd (omega arith)
take-append_le (suc n) (x ∷ xs) ys h = ap (◌∷◌ x) (take-append_le n xs ys (omega arith))

-- What stood before index `n` in the old region stands there in the new one.
take-copied :
    (n k : ℕ) (memory region : List ℕ)
    → n ≤ k
    → k ≤ length memory
    → take n (copy_to region 0 (take k memory)) ≡ take n memory
take-copied n k memory region h l =
    take-append_le n (take k memory) _ (rw (length-take k memory l) h) ∙ take-take_le n k memory h

-- A buffer that holds the same bytes at the same indices, and has room for `n` bytes in all.
pub record Holds (b b' : ByteBuf) (n : ℕ) : Type 0 where
  pub valid : IsValid b'
  pub bytes : take b.writer_index b'.memory ≡ take b.writer_index b.memory
  pub reader : b'.reader_index ≡ b.reader_index
  pub writer : b'.writer_index ≡ b.writer_index
  pub room : n ≤ b'.len
  pub capacity : b'.max_capacity ≡ b.max_capacity

reallocate-Holds :
    (region : Granted) (b : ByteBuf) (n : ℕ)
    → IsValid b
    → b.len < n
    → n ≤ b.max_capacity
    → n ≤ region.max_length
    → length region.bytes ≡ region.max_length
    → Holds b (reallocate region b n) n
unfolding reallocate
reallocate-Holds region b n v h c r whole =
    let kept = length-take b.len b.memory (omega (arith, v.within, v.region)) in
    let size = length-copy_to region.bytes (take b.len b.memory) 0 (omega (arith, kept, whole)) in
    rw (lt→ltb b.len n h, ne→==_false b.len n (omega arith))
      (record {
        valid = record {
          readable = v.readable;
          written = omega (arith, v.written);
          within = r;
          capped = c;
          region = size ∙ whole;
        };
        bytes =
            take-copied b.writer_index b.len b.memory region.bytes v.written
              (omega (arith, v.within, v.region));
        reader = refl;
        writer = refl;
        room = omega arith;
        capacity = refl;
      })

-- Given a region of all the bytes it is said to have, a valid buffer grows to any larger capacity within its limit, in
-- place or by a move, and keeps its bytes and indices.
pub set_capacity-Holds :
    (region : Granted) (b : ByteBuf) (n : ℕ)
    → IsValid b
    → b.len < n
    → n ≤ b.max_capacity
    → n ≤ region.max_length
    → length region.bytes ≡ region.max_length
    → (b' : ByteBuf) × (set_capacity region b n ≡ some b') × Holds b b' n
unfolding set_capacity
set_capacity-Holds region b n v h c r whole = elim (Bool-cases (leb n b.max_length)) [
  | inl e ↦
      rw (ne→==_false n b.len (omega arith), le→ltb_false b.max_capacity n c, lt→ltb b.len n h, e)
        (
          record b { len = n },
          refl,
          record {
            valid = record {
              readable = v.readable;
              written = omega (arith, v.written);
              within = leb→le _ _ e;
              capped = c;
              region = v.region;
            };
            bytes = refl;
            reader = refl;
            writer = refl;
            room = omega arith;
            capacity = refl;
          },
        )
  | inr e ↦
      rw (ne→==_false n b.len (omega arith), le→ltb_false b.max_capacity n c, lt→ltb b.len n h, e)
        (reallocate region b n, refl, reallocate-Holds region b n v h c r whole)
]

-- `m_chunkSize` of the default configuration, 16 MiB
abbrev pub chunk_size : ℕ
chunk_size = 2 ^ 24

-- The capacity that `ensureWritable` asks for is at most a chunk's, and the region is what the arena
-- gives for it.
abbrev pub IsEnough : Granted → ByteBuf → ℕ → Type 0
IsEnough region b n =
    (c : ℕ) → wanted_capacity b n ≡ some c → (c ≤ chunk_size) × FromArena chunk_size c region

-- A valid buffer that does not have to grow beyond 16 MiB, given what the arena gives, makes room for
-- any number of bytes that its limit allows, stays valid, and keeps its bytes and indices.
pub ensure_writable-Holds :
    (region : Granted) (b : ByteBuf) (n : ℕ)
    → IsValid b
    → b.writer_index + n ≤ b.max_capacity
    → IsEnough region b n
    → (b' : ByteBuf) × (ensure_writable region b n ≡ some b') × Holds b b' (b.writer_index + n)
unfolding ensure_writable
ensure_writable-Holds region b n v c enough = elim (Bool-cases (ltb b.len (b.writer_index + n))) [
  | inl e ↦
      let tight : leb n (writable_bytes b) ≡ false = ground (arith, v.written) in
      let (k, answered, low, high) =
        calculate_new_capacity_bounds (b.writer_index + n) b.max_capacity c in
      let wanted : wanted_capacity b n ≡ some k = unfold wanted_capacity in rw tight answered in
      let (b', set, holds) =
        set_capacity-Holds region b k v (ground arith) high (enough k wanted).1.holds
          ((enough k wanted).1.pooled (enough k wanted).0) in
      rw (le→ltb_false b.max_capacity (b.writer_index + n) c, e)
        (rw (wanted, ensure_writable)
          (
            b',
            set,
            record {
              valid = holds.valid;
              bytes = holds.bytes;
              reader = holds.reader;
              writer = holds.writer;
              room = omega (arith, holds.room, low);
              capacity = holds.capacity;
            },
          ))
  | inr e ↦
      rw (le→ltb_false b.max_capacity (b.writer_index + n) c, e)
        (
          b,
          refl,
          record {
            valid = v;
            bytes = refl;
            reader = refl;
            writer = refl;
            room = ground arith;
            capacity = refl;
          },
        )
]
