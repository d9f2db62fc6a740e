-- ===== src/Memory/ByteBuf.antt =====
-- buffer/PooledByteBuf.cpp, Buffer.cpp, `PoolArena::reallocate` and
-- `PooledByteBufAllocator::calculateNewCapacity`. `memory` is the region of the buffer's own bytes in
-- its chunk; a call that may move the buffer is given what the arena allocates for it, with whatever
-- bytes it holds. `none` is a failed assertion or an exception.
pub mod Contents
pub mod Growth
pub mod Huge
pub mod Writes
pub mod Read
mod Tests
use mutty.Common.{
  ℕ, zero, suc, ◌+◌, ◌-◌, ◌*◌, ◌/◌, ◌%◌, ◌^◌, ◌≤◌, ◌<◌, min, max, ◌≡◌, refl, sym, ap, ◌∙◌, subst,
  ◌≢◌, ◌⊎◌, inl, inr, Bool, true, false, not, ◌&&◌, ◌||◌, Option, none, some, List, [], ◌∷◌, ◌++◌,
  arith, ltb, leb, ◌==◌, if◌then◌else◌, Bool-cases, Option-cases, eq_of_some, ltb→lt, lt→ltb,
  ltb_false→le, le→ltb_false, leb→le, ==→eq, eq→==, ne→==_false, length, get_elem?, get_or, set,
  take, drop, replicate, length-append, length-set, length-take, length-drop, length-replicate,
  take-append_drop, take-append, drop-append, get_or-set,
}

pub record ByteBuf : Type 0 where
  pub memory : List ℕ
  pub len : ℕ
  pub max_length : ℕ
  pub max_capacity : ℕ
  pub reader_index : ℕ
  pub writer_index : ℕ

-- What `PoolArena::allocate` gives: the bytes from the buffer's offset on, and `m_maxLength`.
pub record Granted : Type 0 where
  pub bytes : List ℕ
  pub max_length : ℕ

-- A capacity up to a chunk's size is met from a pooled chunk. For a larger one `newUnpooledChunk`
-- allocates `m_chunkSize` bytes, while `initUnpooled` keeps the capacity that was asked for.
pub record FromArena (chunk_size capacity : ℕ) (region : Granted) : Type 0 where
  pub holds : capacity ≤ region.max_length
  pub pooled : capacity ≤ chunk_size → length region.bytes ≡ region.max_length
  pub huge : chunk_size < capacity → length region.bytes ≡ chunk_size

-- `CALCULATE_THRESHOLD`, 4 MiB
abbrev pub calculate_threshold : ℕ
calculate_threshold = 1048576 * 4

-- `while (newCapacity < minNewCapacity) newCapacity <<= 1`; from 64 to the threshold in 16 rounds.
double_up_to : ℕ → ℕ → ℕ → ℕ
double_up_to zero min_new_capacity new_capacity = new_capacity
double_up_to (suc fuel) min_new_capacity new_capacity =
    let rest = double_up_to fuel min_new_capacity (new_capacity * 2) in
    if ltb new_capacity min_new_capacity then rest else new_capacity

pub calculate_new_capacity : ℕ → ℕ → Option ℕ
unfolding double_up_to
calculate_new_capacity min_new_capacity max_capacity =
    if ltb max_capacity min_new_capacity
    then none
    else (if min_new_capacity == calculate_threshold
        then some calculate_threshold
        else (if ltb calculate_threshold min_new_capacity
            then (let new_capacity = min_new_capacity / calculate_threshold * calculate_threshold in
                if ltb (max_capacity - calculate_threshold) new_capacity
                then some max_capacity
                else some (new_capacity + calculate_threshold))
            else some (min (double_up_to 16 min_new_capacity 64) max_capacity)))

abbrev pub readable_bytes : ByteBuf → ℕ
readable_bytes b = b.writer_index - b.reader_index

abbrev pub writable_bytes : ByteBuf → ℕ
writable_bytes b = b.len - b.writer_index

-- `std::copy` to a position of a region
abbrev pub copy_to : List ℕ → ℕ → List ℕ → List ℕ
copy_to memory index bytes = take index memory ++ (bytes ++ drop (index + length bytes) memory)

pub retrieve_all : ByteBuf → ByteBuf
retrieve_all b = record b { reader_index = 0; writer_index = 0 }

pub retrieve : ByteBuf → ℕ → Option ByteBuf
unfolding retrieve_all
retrieve b n =
    if ltb (readable_bytes b) n
    then none
    else (if ltb n (readable_bytes b)
        then some (record b { reader_index = b.reader_index + n })
        else some (retrieve_all b))

-- `retrieveAsString`
pub retrieve_as_string : ByteBuf → ℕ → Option (List ℕ × ByteBuf)
unfolding retrieve
retrieve_as_string b n = elim (retrieve b n) [
  | none ↦ none
  | some b' ↦ some (take n (drop b.reader_index b.memory), b')
]

pub trim_indices_to_capacity : ByteBuf → ℕ → ByteBuf
trim_indices_to_capacity b new_capacity =
    if ltb new_capacity b.writer_index
    then record b { reader_index = min b.reader_index new_capacity; writer_index = new_capacity }
    else b

-- `PoolArena::reallocate`: what is kept is copied to the start of the new region.
pub reallocate : Granted → ByteBuf → ℕ → ByteBuf
reallocate region b new_capacity =
    let b' = if ltb b.len new_capacity then b else trim_indices_to_capacity b new_capacity in
    let bytes_to_copy = if ltb b.len new_capacity then b.len else new_capacity in
    if b.len == new_capacity then b else record b' {
      memory = copy_to region.bytes 0 (take bytes_to_copy b.memory);
      len = new_capacity;
      max_length = region.max_length;
    }

-- `capacity(newCapacity)`
pub set_capacity : Granted → ByteBuf → ℕ → Option ByteBuf
set_capacity region b new_capacity =
    if new_capacity == b.len
    then some b
    else (if ltb b.max_capacity new_capacity
        then none
        else (if ltb b.len new_capacity
            then (if leb new_capacity b.max_length
                then some (record b { len = new_capacity })
                else some (reallocate region b new_capacity))
            else (if ltb (b.max_length / 2) new_capacity
                  && (ltb 512 b.max_length || ltb (b.max_length - 16) new_capacity)
                then some (trim_indices_to_capacity (record b { len = new_capacity }) new_capacity)
                else some (reallocate region b new_capacity))))

-- The capacity that `ensureWritable` asks for.
pub wanted_capacity : ByteBuf → ℕ → Option ℕ
wanted_capacity b min_writable_bytes =
    if leb min_writable_bytes (writable_bytes b)
    then some (b.writer_index + writable_bytes b)
    else calculate_new_capacity (b.writer_index + min_writable_bytes) b.max_capacity

pub ensure_writable : Granted → ByteBuf → ℕ → Option ByteBuf
ensure_writable region b min_writable_bytes =
    let target_capacity = b.writer_index + min_writable_bytes in
    if ltb b.max_capacity target_capacity
    then none
    else (if ltb b.len target_capacity
        then elim (wanted_capacity b min_writable_bytes) [
          | none ↦ none
          | some new_capacity ↦ set_capacity region b new_capacity
        ]
        else some b)

-- `setBytes`
pub set_bytes : ByteBuf → ℕ → List ℕ → Option ByteBuf
set_bytes b index bytes =
    if ltb b.len (index + length bytes)
    then none
    else some (record b { memory = copy_to b.memory index bytes })

-- `writeBytes`
pub write_bytes : Granted → ByteBuf → List ℕ → Option ByteBuf
write_bytes region b bytes = elim (ensure_writable region b (length bytes)) [
  | none ↦ none
  | some b' ↦ elim (set_bytes b' b'.writer_index bytes) [
    | none ↦ none
    | some b'' ↦ some (record b'' { writer_index = b''.writer_index + length bytes })
  ]
]

-- `Buffer::readFd` once `readv` has returned: the bytes that it read fill the writable part, and
-- those in the second vector are appended.
pub read_fd : Granted → ByteBuf → List ℕ → Option ByteBuf
read_fd region b bytes =
    let writable = writable_bytes b in
    let filled = copy_to b.memory b.writer_index (take writable bytes) in
    if leb (length bytes) writable
    then some (record b { memory = filled; writer_index = b.writer_index + length bytes })
    else write_bytes region (record b { memory = filled; writer_index = b.len })
        (drop writable bytes)
