-- ===== src/Memory/ChunkLists/Handles.antt =====
-- The handles that the lists of chunks (buffer/PoolChunkList.cpp, buffer/PoolArena.cpp) get from chunks
-- and subpages, and those that they give back.
use mutty.Common.{
  ℕ, zero, suc, ◌+◌, ◌≡◌, refl, ap, ◌∙◌, Bool, true, false, Option, none, some, arith, ◌==◌,
  if◌then◌else◌, OnSome,
}
use mutty.Memory.ChunkLists.{
  ChunkList, ChunkLists, at_most, below, add_0, add, remove, move_0, move, free,
}
use mutty.Memory.ChunkLists.Calls.{ChunkCalls}
use mutty.Memory.PoolChunk.{update}
use mutty.Memory.Arena.{SubpageCalls}

-- 1 for the handle `h`
abbrev pub one : ℕ → ℕ → ℕ
one h handle = if handle == h then 1 else 0

-- A log of what the calls on chunks and subpages say about the handle `h`: how often it was given out,
-- and how often it was given back.
pub record Logs (a : ChunkCalls) (b : SubpageCalls a) (h : ℕ) : Type 0 where
  pub given : a.Shared → ℕ
  pub back : a.Shared → ℕ
  pub answer : Option a.Buf → ℕ
  pub answer_none : answer none ≡ 0
  pub answer_some : (buf : a.Buf) → answer (some buf) ≡ one h (b.handle buf)
  pub allocates :
      (c : a.Chunk) (shared : a.Shared) (req_capacity size_idx : ℕ)
      → OnSome
          (λ r. (given r.1 ≡ given shared + answer r.2) × (back r.1 ≡ back shared))
          (a.allocate c shared req_capacity size_idx)
  pub frees :
      (c : a.Chunk) (shared : a.Shared) (handle : ℕ)
      → OnSome
          (λ r. (given r.1 ≡ given shared) × (back r.1 ≡ back shared + one h handle))
          (a.free c shared handle)
  pub serves :
      (c : a.Chunk) (shared : a.Shared) (size_idx req_capacity : ℕ)
      → OnSome
          (λ r. (given r.1 ≡ given shared + one h (b.handle r.2)) × (back r.1 ≡ back shared))
          (b.serve c shared size_idx req_capacity)

pub OnSome-if {ℓ κ} :
    {A : Type ℓ} (P : A → Type κ) (c : Bool) (x y : Option A)
    → OnSome P x
    → OnSome P y
    → OnSome P (elim c [ true ↦ x | false ↦ y ])
OnSome-if P true x y h k = h
OnSome-if P false x y h k = k

pub OnSome-elim {ℓ κ ℓ' κ'} :
    {A : Type ℓ} {B : Type κ} (P : A → Type ℓ') (Q : B → Type κ') (o : Option A) (f : A → Option B)
    → OnSome P o
    → ((x : A) → P x → OnSome Q (f x))
    → OnSome Q (elim o [ none ↦ none | some x ↦ f x ])
OnSome-elim P Q none f h k = tt
OnSome-elim P Q (some x) f h k = k x h

module _ (a : ChunkCalls) (b : SubpageCalls a) (lists : ℕ → ChunkList) (h : ℕ)
    (l : Logs a b h) where
  -- From `s` to `s'`, `n` more were given out and `m` more given back.
  pub record Logged (s s' : ChunkLists a lists) (n m : ℕ) : Type 0 where
    pub given : l.given s'.shared ≡ l.given s.shared + n
    pub back : l.back s'.shared ≡ l.back s.shared + m

  pub same_shared : (s s' : ChunkLists a lists) → s'.shared ≡ s.shared → Logged s s' 0 0
  same_shared s s' e = record {
    given = omega (arith, ap l.given e);
    back = omega (arith, ap l.back e);
  }

  -- What moves a chunk between lists asks nothing of it.
  next-shared :
      (s : ChunkLists a lists) (onward : ℕ → Option (ChunkLists a lists)) (o : Option ℕ)
      → ((j : ℕ) → OnSome (λ s'. s'.shared ≡ s.shared) (onward j))
      → OnSome (λ s'. s'.shared ≡ s.shared) (elim o [ none ↦ none | some j ↦ onward j ])
  next-shared s onward none k = tt
  next-shared s onward (some j) k = k j

  pub add-shared :
      (fuel i : ℕ) (s : ChunkLists a lists) (chunk : ℕ)
      → OnSome (λ s'. s'.shared ≡ s.shared) (add a lists fuel i s chunk)
  unfolding add add_0
  add-shared zero i s chunk = tt
  add-shared (suc fuel) i s chunk =
      OnSome-if (λ s'. s'.shared ≡ s.shared)
        (at_most (a.free_bytes (s.chunks chunk)) ((lists i).free_min_threshold)) _ _
        (next-shared s (λ j. add a lists fuel j s chunk) ((lists i).next_list)
          (λ j. add-shared fuel j s chunk))
        refl

  abbrev MovedShared : ChunkLists a lists → Option (ChunkLists a lists × Bool) → Type 0
  MovedShared s o = OnSome (λ r. (r.0).shared ≡ s.shared) o

  last-shared :
      (s : ChunkLists a lists) (c : Bool) → MovedShared s (if c then some (s, false) else none)
  last-shared s true = refl
  last-shared s false = tt

  prev-shared :
      (s : ChunkLists a lists) (c : Bool) (onward : ℕ → Option (ChunkLists a lists × Bool))
      (o : Option ℕ)
      → ((j : ℕ) → MovedShared s (onward j))
      → MovedShared s (elim o [ none ↦ if c then some (s, false) else none | some j ↦ onward j ])
  prev-shared s c onward none k = last-shared s c
  prev-shared s c onward (some j) k = k j

  move_0-shared :
      (onward : ℕ → Option (ChunkLists a lists × Bool)) (i : ℕ) (s : ChunkLists a lists) (chunk : ℕ)
      → ((j : ℕ) → MovedShared s (onward j))
      → MovedShared s (move_0 a lists onward i s chunk)
  unfolding move_0
  move_0-shared onward i s chunk k =
      prev-shared s (a.usage (s.chunks chunk) == 0) onward ((lists i).prev_list) k

  usage-shared :
      (s : ChunkLists a lists) (x y : Option (ChunkLists a lists × Bool)) (c d : Bool)
      → MovedShared s x
      → MovedShared s y
      → MovedShared s (elim c [ false ↦ none | true ↦ elim d [ true ↦ x | false ↦ y ] ])
  usage-shared s x y false d k m = tt
  usage-shared s x y true true k m = k
  usage-shared s x y true false k m = m

  move-shared :
      (fuel i : ℕ) (s : ChunkLists a lists) (chunk : ℕ)
      → MovedShared s (move a lists fuel i s chunk)
  unfolding move add_0
  move-shared zero i s chunk = tt
  move-shared (suc fuel) i s chunk =
      usage-shared s (some (add_0 a lists i s chunk, true))
        (move_0 a lists (λ j. move a lists fuel j s chunk) i s chunk)
        (below (a.usage (s.chunks chunk)) ((lists i).max_usage))
        (at_most (a.free_bytes (s.chunks chunk)) ((lists i).free_max_threshold)) refl
        (move_0-shared (λ j. move a lists fuel j s chunk) i s chunk
          (λ j. move-shared fuel j s chunk))

  abbrev pub Freed : ChunkLists a lists → ℕ → Option (ChunkLists a lists × Bool) → Type 0
  Freed s handle o = OnSome (λ r. Logged s r.0 0 (one h handle)) o

  pub shared-Logged :
      (s t u : ChunkLists a lists) (n m : ℕ) → Logged s t n m → u.shared ≡ t.shared → Logged s u n m
  shared-Logged s t u n m d e = record {
    given = ap l.given e ∙ d.given;
    back = ap l.back e ∙ d.back;
  }

  moved-Freed :
      (s t : ChunkLists a lists) (handle : ℕ) (o : Option (ChunkLists a lists × Bool))
      → Logged s t 0 (one h handle)
      → MovedShared t o
      → Freed s handle o
  moved-Freed s t handle none d e = tt
  moved-Freed s t handle (some (u, kept)) d e = shared-Logged s t u 0 (one h handle) d e

  pub free-Freed :
      (fuel i : ℕ) (s : ChunkLists a lists) (chunk handle : ℕ)
      → Freed s handle (free a lists fuel i s chunk handle)
  unfolding free remove
  free-Freed fuel i s chunk handle =
      OnSome-elim
        (λ r. (l.given r.1 ≡ l.given s.shared) × (l.back r.1 ≡ l.back s.shared + one h handle))
        (λ (r : ChunkLists a lists × Bool). Logged s r.0 0 (one h handle))
        (a.free (s.chunks chunk) s.shared handle) _ (l.frees (s.chunks chunk) s.shared handle)
        (λ r e.
          let s' = record s { chunks = update s.chunks chunk r.0; shared = r.1 } in
          let d : Logged s s' 0 (one h handle) = record {
            given = omega (arith, e.0);
            back = e.1;
          } in
          let s'' = remove a lists i s' chunk in
          OnSome-if (λ (r : ChunkLists a lists × Bool). Logged s r.0 0 (one h handle))
            (at_most (a.free_bytes r.0) ((lists i).free_max_threshold)) _ _ d
            (moved-Freed s s' handle _ d (
              move_0-shared (λ j. move a lists fuel j s'' chunk) i s'' chunk
                (λ j. move-shared fuel j s'' chunk))))
