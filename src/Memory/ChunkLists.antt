-- ===== src/Memory/ChunkLists.antt =====
-- buffer/PoolChunkList.cpp, and the six lists of buffer/PoolArena.cpp: qInit, q000, q025, q050, q075
-- and q100 are lists 0 to 5, and a chunk is a number. A list of chunks is in the order of its
-- links, from the head on. `none` is a failed assertion, a null pointer followed or a walk over the
-- lists that has not ended. The thresholds are the exact quotients that the source computes in
-- floating point, cut to whole numbers as there.
pub mod Calls
pub mod Moves
pub mod Places
pub mod Handles
pub mod Issues
pub mod Pool
mod Tests
use mutty.Common.{
  ℕ, zero, suc, ◌+◌, ◌-◌, ◌*◌, ◌/◌, ◌%◌, ◌^◌, ◌≤◌, ◌<◌, min, max, ◌≡◌, refl, sym, ap, ◌∙◌, subst,
  ◌≢◌, ◌⊎◌, inl, inr, Bool, true, false, not, ◌&&◌, ◌||◌, Option, none, some, List, [], ◌∷◌, ◌++◌,
  arith, ltb, leb, ◌==◌, if◌then◌else◌, Bool-cases, Option-cases, eq_of_some, none-ne_some, ltb→lt,
  lt→ltb, ltb_false→le, le→ltb_false, leb→le, ==→eq, eq→==, ne→==_false, length, get_elem?, get_or,
  set, take, drop, replicate, length-append, length-set, length-take, length-drop, length-replicate,
  take-append_drop, take-append, drop-append, get_or-set, get_or-append, all_below, all_below_sound,
}
use mutty.Memory.ChunkLists.Calls.{ChunkCalls}
use mutty.Memory.PoolChunk.{update}

-- A usage or a threshold in percent or bytes; `negsuc n` is - (n + 1).
pub data ℤ : Type 0 where
  pos : ℕ → ℤ
  negsuc : ℕ → ℤ

abbrev pub negative : ℕ → ℤ
negative n = if n == 0 then pos 0 else negsuc (n - 1)

-- `n <= t`, and `usage < max`
abbrev pub at_most : ℕ → ℤ → Bool
at_most n (pos t) = leb n t
at_most n (negsuc t) = false

abbrev pub below : ℕ → ℤ → Bool
below n (pos t) = ltb n t
below n (negsuc t) = false

-- `static_cast<int>(chunkSize * (100.0 - usage + 0.99999999) / 100L)`, but for a usage of 100.
abbrev pub free_threshold : ℕ → ℤ → ℤ
free_threshold chunk_size (pos usage) =
    if usage == 100
    then pos 0
    else (if ltb usage 100
        then pos (chunk_size * ((100 - usage) * 10 ^ 8 + 99999999) / 10 ^ 10)
        else negative (chunk_size * ((usage - 100) * 10 ^ 8 - 99999999) / 10 ^ 10))
free_threshold chunk_size (negsuc n) = pos (chunk_size * ((101 + n) * 10 ^ 8 + 99999999) / 10 ^ 10)

abbrev pub calculate_max_capacity : ℤ → ℕ → ℕ
calculate_max_capacity (pos min_usage) chunk_size =
    if min_usage == 100 then 0 else chunk_size * (100 - min_usage) / 100
calculate_max_capacity (negsuc n) chunk_size = chunk_size * 100 / 100

pub record ChunkList : Type 0 where
  pub next_list : Option ℕ
  pub prev_list : Option ℕ
  pub max_usage : ℤ
  pub max_capacity : ℕ
  pub free_min_threshold : ℤ
  pub free_max_threshold : ℤ

-- The constructor, for a `min_usage` up to `max_usage`, which it asserts; the previous list is set after
-- it, by `prevList`.
abbrev pub new_list : Option ℕ → Option ℕ → ℤ → ℤ → ℕ → ChunkList
new_list next_list prev_list min_usage max_usage chunk_size = record {
  next_list = next_list;
  prev_list = prev_list;
  max_usage = max_usage;
  max_capacity = calculate_max_capacity min_usage chunk_size;
  free_min_threshold = free_threshold chunk_size max_usage;
  free_max_threshold = free_threshold chunk_size min_usage;
}

-- The lists of an arena: q100 follows q075 and so on down to q000, which has none before it; qInit
-- stands before itself.
abbrev pub arena_list : ℕ → ℕ → ChunkList
arena_list chunk_size zero = new_list (some 1) (some 0) (negsuc 8191) (pos 25) chunk_size
arena_list chunk_size (suc zero) = new_list (some 2) none (pos 1) (pos 50) chunk_size
arena_list chunk_size (suc (suc zero)) = new_list (some 3) (some 1) (pos 25) (pos 75) chunk_size
arena_list chunk_size (suc (suc (suc zero))) =
    new_list (some 4) (some 2) (pos 50) (pos 100) chunk_size
arena_list chunk_size (suc (suc (suc (suc zero)))) =
    new_list (some 5) (some 3) (pos 75) (pos 100) chunk_size
arena_list chunk_size (suc (suc (suc (suc (suc i))))) =
    new_list none (some 4) (pos 100) (pos 8192) chunk_size

abbrev pub q_init : ℕ
q_init = 0

pub delete : ℕ → List ℕ → List ℕ
delete x [] = []
delete x (y ∷ ys) = if y == x then ys else y ∷ delete x ys

module _ (a : ChunkCalls) (lists : ℕ → ChunkList) where
  open a use {Chunk, Shared, Buf, free_bytes, usage}

  pub record ChunkLists : Type 0 where
    pub heads : ℕ → List ℕ
    -- `m_parent` of a chunk.
    pub parent : ℕ → Option ℕ
    pub chunks : ℕ → Chunk
    pub created : ℕ
    pub shared : Shared

  pub add_0 : ℕ → ChunkLists → ℕ → ChunkLists
  add_0 i s chunk = record s {
    parent = update s.parent chunk (some i);
    heads = update s.heads i (chunk ∷ s.heads i);
  }

  pub remove : ℕ → ChunkLists → ℕ → ChunkLists
  unfolding delete
  remove i s chunk = record s { heads = update s.heads i (delete chunk (s.heads i)) }

  pub add : ℕ → ℕ → ChunkLists → ℕ → Option ChunkLists
  unfolding add_0
  add zero i s chunk = none
  add (suc fuel) i s chunk =
      elim (at_most (free_bytes (s.chunks chunk)) ((lists i).free_min_threshold)) [
        | true ↦ elim ((lists i).next_list) [ none ↦ none | some j ↦ add fuel j s chunk ]
        | false ↦ some (add_0 i s chunk)
      ]

  -- `move0`, given `move` on the previous list; `false` says that the chunk is to be destroyed.
  pub move_0 : (ℕ → Option (ChunkLists × Bool)) → ℕ → ChunkLists → ℕ → Option (ChunkLists × Bool)
  move_0 onward i s chunk = elim ((lists i).prev_list) [
    | none ↦ if usage (s.chunks chunk) == 0 then some (s, false) else none
    | some j ↦ onward j
  ]

  pub move : ℕ → ℕ → ChunkLists → ℕ → Option (ChunkLists × Bool)
  unfolding add_0 move_0
  move zero i s chunk = none
  move (suc fuel) i s chunk = elim (below (usage (s.chunks chunk)) ((lists i).max_usage)) [
    | false ↦ none
    | true ↦ elim (at_most (free_bytes (s.chunks chunk)) ((lists i).free_max_threshold)) [
      | true ↦ some (add_0 i s chunk, true)
      | false ↦ move_0 (λ j. move fuel j s chunk) i s chunk
    ]
  ]

  -- The loop of `allocate` over the chunks left: the state and, if one serves, that chunk and the
  -- buffer.
  pub try_chunks : List ℕ → ChunkLists → ℕ → ℕ → Option (ChunkLists × Option (ℕ × Buf))
  try_chunks [] s req_capacity size_idx = some (s, none)
  try_chunks (cur ∷ rest) s req_capacity size_idx =
      elim (a.allocate (s.chunks cur) s.shared req_capacity size_idx) [
        | none ↦ none
        | some (c, shared, answer) ↦
            let s' = record s { chunks = update s.chunks cur c; shared = shared } in
            elim answer [
              | none ↦ try_chunks rest s' req_capacity size_idx
              | some buf ↦ some (s', some (cur, buf))
            ]
      ]

  -- `allocate` of list `i`, by a walk over at most `fuel` lists; a buffer comes with its chunk.
  pub allocate : ℕ → ℕ → ChunkLists → ℕ → ℕ → Option (ChunkLists × Option (ℕ × Buf))
  unfolding try_chunks add remove
  allocate fuel i s req_capacity size_idx =
      elim (ltb ((lists i).max_capacity) (a.size_idx_to_size size_idx)) [
        | true ↦ some (s, none)
        | false ↦ elim (try_chunks (s.heads i) s req_capacity size_idx) [
          | none ↦ none
          | some (s', served) ↦ elim served [
            | none ↦ some (s', none)
            | some (cur, buf) ↦
                elim (at_most (free_bytes (s'.chunks cur)) ((lists i).free_min_threshold)) [
                  | false ↦ some (s', some (cur, buf))
                  | true ↦ elim ((lists i).next_list) [
                    | none ↦ none
                    | some j ↦ elim (add fuel j (remove i s' cur) cur) [
                      | none ↦ none
                      | some s'' ↦ some (s'', some (cur, buf))
                    ]
                  ]
                ]
          ]
        ]
      ]

  -- `free` of list `i`.
  pub free : ℕ → ℕ → ChunkLists → ℕ → ℕ → Option (ChunkLists × Bool)
  unfolding remove move_0 move
  free fuel i s chunk handle = elim (a.free (s.chunks chunk) s.shared handle) [
    | none ↦ none
    | some (c, shared) ↦
        let s' = record s { chunks = update s.chunks chunk c; shared = shared } in
        elim (at_most (free_bytes c) ((lists i).free_max_threshold)) [
          | true ↦ some (s', true)
          | false ↦ let s'' = remove i s' chunk in move_0 (λ j. move fuel j s'' chunk) i s'' chunk
        ]
  ]

  -- The lists that `allocateNormal` tries, in their order.
  pub try_lists : ℕ → List ℕ → ChunkLists → ℕ → ℕ → Option (ChunkLists × Option (ℕ × Buf))
  unfolding allocate
  try_lists fuel [] s req_capacity size_idx = some (s, none)
  try_lists fuel (i ∷ rest) s req_capacity size_idx =
      elim (allocate fuel i s req_capacity size_idx) [
        | none ↦ none
        | some (s', answer) ↦ elim answer [
          | none ↦ try_lists fuel rest s' req_capacity size_idx
          | some buf ↦ some (s', some buf)
        ]
      ]

  -- A new chunk of the arena, from which the buffer is taken.
  pub allocate_from_new : ℕ → ChunkLists → ℕ → ℕ → Option (ChunkLists × ℕ × Buf)
  unfolding add
  allocate_from_new fuel s req_capacity size_idx =
      let chunk = s.created in
      elim (a.allocate a.new_chunk s.shared req_capacity size_idx) [
        | none ↦ none
        | some (c, shared, answer) ↦ elim answer [
          | none ↦ none
          | some buf ↦
              let s' = record s {
                chunks = update s.chunks chunk c;
                created = chunk + 1;
                shared = shared;
              } in
              elim (add fuel q_init s' chunk) [ none ↦ none | some s'' ↦ some (s'', chunk, buf) ]
        ]
      ]

  -- `allocateNormal` of PoolArena.
  pub allocate_normal : ℕ → ChunkLists → ℕ → ℕ → Option (ChunkLists × ℕ × Buf)
  unfolding try_lists allocate_from_new
  allocate_normal fuel s req_capacity size_idx =
      elim (try_lists fuel (3 ∷ 2 ∷ 1 ∷ 0 ∷ 4 ∷ []) s req_capacity size_idx) [
        | none ↦ none
        | some (s', answer) ↦ elim answer [
          | some (chunk, buf) ↦ some (s', chunk, buf)
          | none ↦ allocate_from_new fuel s' req_capacity size_idx
        ]
      ]
