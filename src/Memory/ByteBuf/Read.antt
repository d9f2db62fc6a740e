-- ===== src/Memory/ByteBuf/Read.antt =====
-- `Buffer::readFd` (buffer/Buffer.cpp).
use mutty.Common.{
  ℕ, zero, suc, ◌+◌, ◌≤◌, ◌≡◌, refl, ap, ◌∙◌, subst, inl, inr, some, List, [], ◌∷◌, ◌++◌, arith,
  leb, Bool-cases, leb→le, length, take, drop, length-take, length-drop, take-append_drop,
}
use mathlib.Core.List.{append_assoc}
use mutty.Memory.ByteBuf.{ByteBuf, Granted, writable_bytes, copy_to, read_fd}
use mutty.Memory.ByteBuf.Contents.{IsValid, contents}
use mutty.Memory.ByteBuf.Growth.{IsEnough}
use mutty.Memory.ByteBuf.Writes.{set_bytes-appends, write_bytes-contents}

take_all : (n : ℕ) (xs : List ℕ) → length xs ≤ n → take n xs ≡ xs
take_all zero [] h = refl
take_all zero (x ∷ xs) h = absurd (omega arith)
take_all (suc n) [] h = refl
take_all (suc n) (x ∷ xs) h = ap (◌∷◌ x) (take_all n xs (omega arith))

-- The buffer once its writable part is full of the first bytes.
abbrev pub filled : ByteBuf → List ℕ → ByteBuf
filled b bytes = record b {
  memory = copy_to b.memory b.writer_index (take (writable_bytes b) bytes);
  writer_index = b.len;
}

filled-appends :
    (b : ByteBuf) (bytes : List ℕ)
    → IsValid b
    → writable_bytes b ≤ length bytes
    → IsValid (filled b bytes)
      × (contents (filled b bytes) ≡ contents b ++ take (writable_bytes b) bytes)
filled-appends b bytes v h =
    let front = take (writable_bytes b) bytes in
    let size = length-take (writable_bytes b) bytes h in
    let full : b.writer_index + length front ≡ b.len = omega (arith, size, v.written) in
    subst
      (λ (n : ℕ).
        let b' = record b { memory = copy_to b.memory b.writer_index front; writer_index = n } in
        IsValid b' × (contents b' ≡ contents b ++ front))
      full (set_bytes-appends b front v (omega (arith, full)))

-- What `readv` has read into a valid buffer and its second vector is appended, all of it and in
-- order, if the limit allows it and, where it is more than the buffer holds, the larger capacity is
-- at most a chunk's 16 MiB and the region for it is what the arena gives; the buffer stays valid.
pub read_fd-contents :
    (region : Granted) (b : ByteBuf) (bytes : List ℕ)
    → IsValid b
    → b.writer_index + length bytes ≤ b.max_capacity
    → IsEnough region (filled b bytes) (length (drop (writable_bytes b) bytes))
    → (b' : ByteBuf) × (read_fd region b bytes ≡ some b')
      × IsValid b'
      × (contents b' ≡ contents b ++ bytes)
unfolding read_fd
read_fd-contents region b bytes v c enough =
    let room = writable_bytes b in
    elim (Bool-cases (leb (length bytes) room)) [
      | inl e ↦
          let small : length bytes ≤ room = leb→le _ _ e in
          let (valid, appended) = set_bytes-appends b bytes v (omega (arith, small, v.written)) in
          rw (e, take_all room bytes small)
            (
              record b {
                memory = copy_to b.memory b.writer_index bytes;
                writer_index = b.writer_index + length bytes;
              },
              refl,
              valid,
              appended,
            )
      | inr e ↦
          let large : room ≤ length bytes = ground (arith, e) in
          let back = drop room bytes in
          let (valid, appended) = filled-appends b bytes v large in
          let size = length-drop room bytes in
          let (b', written, valid', more, same) =
            write_bytes-contents region (filled b bytes) back valid
              (omega (arith, size, large, c, v.written)) enough in
          rw e (
            b',
            written,
            valid',
            more
                ∙ ap (λ (t : List ℕ). t ++ back) appended
                ∙ append_assoc (contents b) (take room bytes) back
                ∙ ap (λ (t : List ℕ). contents b ++ t) (take-append_drop room bytes),
          )
    ]
