-- ===== src/Memory/ByteBuf/Tests.antt =====
-- A buffer of eight bytes on concrete inputs.
use mutty.Common.{ℕ, ◌≤◌, ◌≡◌, refl, some, [], ◌∷◌, replicate, arith, ◌+◌, ◌^◌, eq_of_some}
use mutty.Memory.ByteBuf.{
  ByteBuf, Granted, FromArena, calculate_new_capacity, double_up_to, wanted_capacity, write_bytes,
  read_fd,
}
use mutty.Memory.ByteBuf.Contents.{IsValid, contents}
use mutty.Memory.ByteBuf.Growth.{IsEnough, chunk_size}
use mutty.Memory.ByteBuf.Read.{filled, read_fd-contents}
use mutty.Memory.ByteBuf.Writes.{write_bytes-contents}

abbrev eight_bytes : ByteBuf
eight_bytes = record {
  memory = 1 ∷ 2 ∷ 3 ∷ 4 ∷ 5 ∷ 6 ∷ 0 ∷ 0 ∷ [];
  len = 8;
  max_length = 8;
  max_capacity = 1024;
  reader_index = 2;
  writer_index = 6;
}

eight_bytes-IsValid : IsValid eight_bytes
eight_bytes-IsValid = record {
  readable = omega arith;
  written = omega arith;
  within = omega arith;
  capped = omega arith;
  region = refl;
}

abbrev region : Granted
region = record { bytes = replicate 64 9; max_length = 64 }

region-FromArena : (c : ℕ) → 64 ≡ c → (c ≤ chunk_size) × FromArena chunk_size c region
region-FromArena c e = (
  omega (arith, e),
  record { holds = omega (arith, e); pooled = λ l. refl; huge = λ l. absurd (omega (arith, e, l)) },
)

-- Five bytes more than fit ask for the least capacity, 64.
region-IsEnough : IsEnough region eight_bytes 3
unfolding wanted_capacity calculate_new_capacity double_up_to
region-IsEnough c h = region-FromArena c (eq_of_some h)

write_bytes-contents_example :
    (b' : ByteBuf) × (write_bytes region eight_bytes (7 ∷ 8 ∷ 9 ∷ []) ≡ some b')
    × IsValid b'
    × (contents b' ≡ 3 ∷ 4 ∷ 5 ∷ 6 ∷ 7 ∷ 8 ∷ 9 ∷ [])
    × (b'.max_capacity ≡ 1024)
write_bytes-contents_example =
    write_bytes-contents region eight_bytes (7 ∷ 8 ∷ 9 ∷ []) eight_bytes-IsValid (omega arith)
      region-IsEnough

-- Three bytes read, two of which fit.
one_more-IsEnough : IsEnough region (filled eight_bytes (7 ∷ 8 ∷ 9 ∷ [])) 1
unfolding wanted_capacity calculate_new_capacity double_up_to
one_more-IsEnough c h = region-FromArena c (eq_of_some h)

read_fd-contents_example :
    (b' : ByteBuf) × (read_fd region eight_bytes (7 ∷ 8 ∷ 9 ∷ []) ≡ some b')
    × IsValid b'
    × (contents b' ≡ 3 ∷ 4 ∷ 5 ∷ 6 ∷ 7 ∷ 8 ∷ 9 ∷ [])
read_fd-contents_example =
    read_fd-contents region eight_bytes (7 ∷ 8 ∷ 9 ∷ []) eight_bytes-IsValid (omega arith)
      one_more-IsEnough

-- A buffer of eight bytes that grows to a byte more than a chunk.
abbrev roomy : ByteBuf
roomy = record eight_bytes { max_capacity = 2 ^ 25 }

zeros : ℕ → Granted
zeros n = record { bytes = replicate n 0; max_length = n + 1 }
