-- ===== src/Memory/ByteBuf/Contents.antt =====
-- The bytes that a buffer holds (buffer/PooledByteBuf.cpp).
use mutty.Common.{
  ℕ, zero, suc, ◌+◌, ◌≤◌, ◌≡◌, refl, ap, ◌∙◌, List, [], ◌∷◌, ◌++◌, arith, length, take, drop,
  length-append, length-take, length-drop, take-append,
}
use native.Mathlib.Nat.{zero-add, suc-add}
use mutty.Memory.ByteBuf.{ByteBuf, readable_bytes, copy_to}

-- The indices are in order, and the region has the length that the buffer believes.
pub record IsValid (b : ByteBuf) : Type 0 where
  pub readable : b.reader_index ≤ b.writer_index
  pub written : b.writer_index ≤ b.len
  pub within : b.len ≤ b.max_length
  pub capped : b.len ≤ b.max_capacity
  pub region : length b.memory ≡ b.max_length

-- The readable bytes, in order.
abbrev pub contents : ByteBuf → List ℕ
contents b = drop b.reader_index (take b.writer_index b.memory)

pub drop-append_le : (n : ℕ) (xs ys : List ℕ) → n ≤ length xs → drop n (xs ++ ys) ≡ drop n xs ++ ys
drop-append_le zero xs ys h = refl
drop-append_le (suc n) [] ys h = absurd (omega arith)
drop-append_le (suc n) (x ∷ xs) ys h = drop-append_le n xs ys (omega arith)

pub take-append_more : (xs ys : List ℕ) (n : ℕ) → take (length xs + n) (xs ++ ys) ≡ xs ++ take n ys
take-append_more [] ys n = rw zero-add refl
take-append_more (x ∷ xs) ys n = rw suc-add (ap (◌∷◌ x) (take-append_more xs ys n))

pub take-take_le : (n m : ℕ) (xs : List ℕ) → n ≤ m → take n (take m xs) ≡ take n xs
take-take_le zero m xs h = refl
take-take_le (suc n) zero xs h = absurd (omega arith)
take-take_le (suc n) (suc m) [] h = refl
take-take_le (suc n) (suc m) (x ∷ xs) h = ap (◌∷◌ x) (take-take_le n m xs (omega arith))

pub drop_all : (xs : List ℕ) (n : ℕ) → length xs ≤ n → drop n xs ≡ []
drop_all [] zero h = refl
drop_all [] (suc n) h = refl
drop_all (x ∷ xs) zero h = absurd (omega arith)
drop_all (x ∷ xs) (suc n) h = drop_all xs n (omega arith)

pub drop-drop : (n m : ℕ) (xs : List ℕ) → drop n (drop m xs) ≡ drop (m + n) xs
drop-drop n zero xs = rw zero-add refl
drop-drop n (suc m) [] = rw suc-add (drop_nil n)
  where
    drop_nil : (n : ℕ) → drop {A = ℕ} n [] ≡ []
    drop_nil zero = refl
    drop_nil (suc n) = refl
drop-drop n (suc m) (x ∷ xs) = rw suc-add (drop-drop n m xs)

-- Bytes copied in behind the first `index` are found there.
pub take-copy_to :
    (memory bytes : List ℕ) (index : ℕ)
    → index ≤ length memory
    → take (index + length bytes) (copy_to memory index bytes) ≡ take index memory ++ bytes
take-copy_to memory bytes index h =
    let e = length-take index memory h in
    let all =
      take-append_more (take index memory) (bytes ++ drop (index + length bytes) memory)
        (length bytes) in
    (rw e at all) ∙ ap (◌++◌ (take index memory)) (take-append bytes _)

pub length-copy_to :
    (memory bytes : List ℕ) (index : ℕ)
    → index + length bytes ≤ length memory
    → length (copy_to memory index bytes) ≡ length memory
length-copy_to memory bytes index h = omega (
  arith,
  length-append (take index memory) (bytes ++ drop (index + length bytes) memory),
  length-append bytes (drop (index + length bytes) memory),
  length-take index memory,
  length-drop (index + length bytes) memory,
)

module _ (b : ByteBuf) (v : IsValid b) where
  pub length-contents : length (contents b) ≡ readable_bytes b
  length-contents = omega (
    arith,
    v.readable,
    v.written,
    v.within,
    v.region,
    length-drop b.reader_index (take b.writer_index b.memory),
    length-take b.writer_index b.memory,
  )
