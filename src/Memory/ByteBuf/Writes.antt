-- ===== src/Memory/ByteBuf/Writes.antt =====
-- A buffer is a queue of bytes: writing at its end and taking from its front
-- (buffer/PooledByteBuf.cpp).
use mutty.Common.{
  ℕ, ◌+◌, ◌≤◌, ◌≡◌, refl, sym, ap, ◌∙◌, inl, inr, some, List, ◌++◌, arith, ltb, Bool-cases,
  le→ltb_false, length, take, drop, length-take,
}
use mutty.Memory.ByteBuf.{
  ByteBuf, Granted, readable_bytes, copy_to, retrieve_all, retrieve, set_bytes, write_bytes,
}
use mutty.Memory.ByteBuf.Contents.{
  IsValid, contents, drop-append_le, take-copy_to, length-copy_to, drop_all, drop-drop,
  length-contents,
}
use mutty.Memory.ByteBuf.Growth.{IsEnough, ensure_writable-Holds}

-- Writing into room that is there.
pub set_bytes-appends :
    (b : ByteBuf) (bytes : List ℕ)
    → IsValid b
    → b.writer_index + length bytes ≤ b.len
    → let b' = record b {
      memory = copy_to b.memory b.writer_index bytes;
      writer_index = b.writer_index + length bytes;
    } in
      IsValid b' × (contents b' ≡ contents b ++ bytes)
set_bytes-appends b bytes v h =
    let fits : b.writer_index ≤ length b.memory = omega (arith, v.within, v.region) in
    let size = length-copy_to b.memory bytes b.writer_index (omega (arith, v.within, v.region)) in
    let before = length-take b.writer_index b.memory fits in
    (
      record {
        readable = omega (arith, v.readable);
        written = h;
        within = v.within;
        capped = v.capped;
        region = size ∙ v.region;
      },
      rw (take-copy_to b.memory bytes b.writer_index fits) (
          drop-append_le b.reader_index (take b.writer_index b.memory) bytes
            (omega (arith, before, v.readable))),
    )

-- `writeBytes` on a valid buffer, within its limit, given what the arena gives and where a capacity it
-- has to grow to is at most a chunk's 16 MiB, succeeds, keeps the buffer valid, and adds exactly its
-- bytes behind those that were there.
pub write_bytes-contents :
    (region : Granted) (b : ByteBuf) (bytes : List ℕ)
    → IsValid b
    → b.writer_index + length bytes ≤ b.max_capacity
    → IsEnough region b (length bytes)
    → (b' : ByteBuf) × (write_bytes region b bytes ≡ some b')
      × IsValid b'
      × (contents b' ≡ contents b ++ bytes)
      × (b'.max_capacity ≡ b.max_capacity)
unfolding write_bytes set_bytes
write_bytes-contents region b bytes v c enough =
    let (g, grown, holds) = ensure_writable-Holds region b (length bytes) v c enough in
    let room : g.writer_index + length bytes ≤ g.len = omega (arith, holds.writer, holds.room) in
    let (valid, appended) = set_bytes-appends g bytes holds.valid room in
    let same : contents g ≡ contents b = rw (holds.reader, holds.writer, holds.bytes) in
    let b' = record g {
      memory = copy_to g.memory g.writer_index bytes;
      writer_index = g.writer_index + length bytes;
    } in
    (
      b',
      rw (grown, write_bytes) (rw (le→ltb_false g.len (g.writer_index + length bytes) room)),
      valid,
      appended ∙ ap (λ (t : List ℕ). t ++ bytes) same,
      holds.capacity,
    )

-- `retrieve` of no more than is readable drops exactly that many bytes from the front, and keeps the
-- buffer valid.
pub retrieve-contents :
    (b : ByteBuf) (n : ℕ)
    → IsValid b
    → n ≤ readable_bytes b
    → (b' : ByteBuf) × (retrieve b n ≡ some b') × IsValid b' × (contents b' ≡ drop n (contents b))
unfolding retrieve
retrieve-contents b n v h = elim (Bool-cases (ltb n (readable_bytes b))) [
  | inl e ↦
      rw (le→ltb_false (readable_bytes b) n h, e)
        (
          record b { reader_index = b.reader_index + n },
          refl,
          record {
            readable = ground arith;
            written = v.written;
            within = v.within;
            capped = v.capped;
            region = v.region;
          },
          sym (drop-drop n b.reader_index (take b.writer_index b.memory)),
        )
  | inr e ↦
      rw (le→ltb_false (readable_bytes b) n h, e)
        (
          retrieve_all b,
          refl,
          unfold retrieve_all in
              record {
                readable = omega arith;
                written = omega arith;
                within = v.within;
                capped = v.capped;
                region = v.region;
              },
          unfold retrieve_all in
              sym (drop_all (contents b) n (ground (arith, length-contents b v))),
        )
]
