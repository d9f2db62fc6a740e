-- ===== src/Memory/ChunkLists/Issues.antt =====
-- The handles that `allocate` of a list of chunks and `allocateNormal` get from the chunks
-- (buffer/PoolChunkList.cpp, buffer/PoolArena.cpp).
use mutty.Common.{
  ℕ, ◌+◌, ◌≡◌, refl, ap, ◌∙◌, Bool, true, false, Option, none, some, List, [], ◌∷◌, arith, OnSome,
  ltb,
}
use mutty.Memory.ChunkLists.{
  ChunkList, ChunkLists, at_most, add, remove, try_chunks, allocate, try_lists, allocate_from_new,
  allocate_normal, q_init,
}
use mutty.Memory.ChunkLists.Calls.{ChunkCalls}
use mutty.Memory.PoolChunk.{update}
use mutty.Memory.Arena.{SubpageCalls}
use mutty.Memory.ChunkLists.Handles.{
  one, Logs, OnSome-if, OnSome-elim, Logged, same_shared, shared-Logged, add-shared,
}

module _ (a : ChunkCalls) (b : SubpageCalls a) (lists : ℕ → ChunkList) (h : ℕ)
    (l : Logs a b h) where
  -- The log of an answer with its chunk.
  abbrev pub answered : Option (ℕ × a.Buf) → ℕ
  answered none = 0
  answered (some (chunk, buf)) = one h (b.handle buf)

  abbrev pub Issued : ChunkLists a lists → Option (ChunkLists a lists × Option (ℕ × a.Buf)) → Type 0
  Issued s o = OnSome (λ r. Logged a b lists h l s r.0 (answered r.1) 0) o

  then-Issued :
      (s t : ChunkLists a lists) (o : Option (ChunkLists a lists × Option (ℕ × a.Buf)))
      → Logged a b lists h l s t 0 0
      → Issued t o
      → Issued s o
  then-Issued s t none d e = tt
  then-Issued s t (some (u, x)) d e = record {
    given = omega (arith, d.given, e.given);
    back = omega (arith, d.back, e.back);
  }

  answer-Issued :
      (s s' : ChunkLists a lists) (cur : ℕ)
      (rest : Option (ChunkLists a lists × Option (ℕ × a.Buf))) (answer : Option a.Buf)
      → (l.given s'.shared ≡ l.given s.shared + l.answer answer)
        × (l.back s'.shared ≡ l.back s.shared)
      → Issued s' rest
      → Issued s (elim answer [ none ↦ rest | some buf ↦ some (s', some (cur, buf)) ])
  answer-Issued s s' cur rest none e k =
      then-Issued s s' rest
        (record { given = omega (arith, e.0, l.answer_none); back = omega (arith, e.1) }) k
  answer-Issued s s' cur rest (some buf) e k = record {
    given = omega (arith, e.0, l.answer_some buf);
    back = omega (arith, e.1);
  }

  try_chunks-Issued :
      (chunks : List ℕ) (s : ChunkLists a lists) (req_capacity size_idx : ℕ)
      → Issued s (try_chunks a lists chunks s req_capacity size_idx)
  unfolding try_chunks
  try_chunks-Issued [] s req_capacity size_idx = same_shared a b lists h l s s refl
  try_chunks-Issued (cur ∷ rest) s req_capacity size_idx =
      OnSome-elim
        (λ r. (l.given r.1 ≡ l.given s.shared + l.answer r.2) × (l.back r.1 ≡ l.back s.shared))
        (λ (r : ChunkLists a lists × Option (ℕ × a.Buf)).
          Logged a b lists h l s r.0 (answered r.1) 0)
        (a.allocate (s.chunks cur) s.shared req_capacity size_idx) _
        (l.allocates (s.chunks cur) s.shared req_capacity size_idx)
        (λ r e.
          let s' = record s { chunks = update s.chunks cur r.0; shared = r.1 } in
          answer-Issued s s' cur (try_chunks a lists rest s' req_capacity size_idx) r.2 e
            (try_chunks-Issued rest s' req_capacity size_idx))

  -- A chunk that has served moves on along the lists.
  onward-Issued :
      (fuel : ℕ) (s s' : ChunkLists a lists) (cur : ℕ) (buf : a.Buf) (o : Option ℕ)
      (t : ChunkLists a lists)
      → Logged a b lists h l s s' (one h (b.handle buf)) 0
      → t.shared ≡ s'.shared
      → Issued s (elim o [
        | none ↦ none
        | some j ↦ elim (add a lists fuel j t cur) [
          | none ↦ none
          | some s'' ↦ some (s'', some (cur, buf))
        ]
      ])
  onward-Issued fuel s s' cur buf none t d e = tt
  onward-Issued fuel s s' cur buf (some j) t d e =
      OnSome-elim (λ u. u.shared ≡ t.shared)
        (λ (r : ChunkLists a lists × Option (ℕ × a.Buf)).
          Logged a b lists h l s r.0 (answered r.1) 0)
        (add a lists fuel j t cur) _ (add-shared a b lists h l fuel j t cur)
        (λ u k. shared-Logged a b lists h l s s' u (one h (b.handle buf)) 0 d (k ∙ e))

  if-Issued :
      (s : ChunkLists a lists) (c : Bool) (x y : Option (ChunkLists a lists × Option (ℕ × a.Buf)))
      → Issued s x
      → Issued s y
      → Issued s (elim c [ false ↦ x | true ↦ y ])
  if-Issued s true x y k m = m
  if-Issued s false x y k m = k

  served-Issued :
      (fuel i : ℕ) (s s' : ChunkLists a lists) (served : Option (ℕ × a.Buf))
      → Logged a b lists h l s s' (answered served) 0
      → Issued s (elim served [
        | none ↦ some (s', none)
        | some (cur, buf) ↦
            elim (at_most (a.free_bytes (s'.chunks cur)) ((lists i).free_min_threshold)) [
              | false ↦ some (s', some (cur, buf))
              | true ↦ elim ((lists i).next_list) [
                | none ↦ none
                | some j ↦ elim (add a lists fuel j (remove a lists i s' cur) cur) [
                  | none ↦ none
                  | some s'' ↦ some (s'', some (cur, buf))
                ]
              ]
            ]
      ])
  unfolding remove
  served-Issued fuel i s s' none d = d
  served-Issued fuel i s s' (some (cur, buf)) d =
      if-Issued s (at_most (a.free_bytes (s'.chunks cur)) ((lists i).free_min_threshold)) _ _ d
        (onward-Issued fuel s s' cur buf ((lists i).next_list) (remove a lists i s' cur) d refl)

  allocate-Issued :
      (fuel i : ℕ) (s : ChunkLists a lists) (req_capacity size_idx : ℕ)
      → Issued s (allocate a lists fuel i s req_capacity size_idx)
  unfolding allocate
  allocate-Issued fuel i s req_capacity size_idx =
      OnSome-if
        (λ (r : ChunkLists a lists × Option (ℕ × a.Buf)).
          Logged a b lists h l s r.0 (answered r.1) 0)
        (ltb ((lists i).max_capacity) (a.size_idx_to_size size_idx)) _ _
        (same_shared a b lists h l s s refl)
        (OnSome-elim
          (λ (r : ChunkLists a lists × Option (ℕ × a.Buf)).
            Logged a b lists h l s r.0 (answered r.1) 0)
          (λ (r : ChunkLists a lists × Option (ℕ × a.Buf)).
            Logged a b lists h l s r.0 (answered r.1) 0)
          (try_chunks a lists (s.heads i) s req_capacity size_idx) _
          (try_chunks-Issued (s.heads i) s req_capacity size_idx)
          (λ r d. served-Issued fuel i s r.0 r.1 d))

  list-Issued :
      (s s' : ChunkLists a lists) (rest : Option (ChunkLists a lists × Option (ℕ × a.Buf)))
      (answer : Option (ℕ × a.Buf))
      → Logged a b lists h l s s' (answered answer) 0
      → Issued s' rest
      → Issued s (elim answer [ none ↦ rest | some buf ↦ some (s', some buf) ])
  list-Issued s s' rest none d k = then-Issued s s' rest d k
  list-Issued s s' rest (some x) d k = d

  try_lists-Issued :
      (fuel : ℕ) (is : List ℕ) (s : ChunkLists a lists) (req_capacity size_idx : ℕ)
      → Issued s (try_lists a lists fuel is s req_capacity size_idx)
  unfolding try_lists
  try_lists-Issued fuel [] s req_capacity size_idx = same_shared a b lists h l s s refl
  try_lists-Issued fuel (i ∷ rest) s req_capacity size_idx =
      OnSome-elim
        (λ (r : ChunkLists a lists × Option (ℕ × a.Buf)).
          Logged a b lists h l s r.0 (answered r.1) 0)
        (λ (r : ChunkLists a lists × Option (ℕ × a.Buf)).
          Logged a b lists h l s r.0 (answered r.1) 0)
        (allocate a lists fuel i s req_capacity size_idx) _
        (allocate-Issued fuel i s req_capacity size_idx)
        (λ r d.
          list-Issued s r.0 (try_lists a lists fuel rest r.0 req_capacity size_idx) r.1 d
            (try_lists-Issued fuel rest r.0 req_capacity size_idx))

  -- What comes from a chunk, new or not.
  abbrev pub Given : ChunkLists a lists → Option (ChunkLists a lists × ℕ × a.Buf) → Type 0
  Given s o = OnSome (λ r. Logged a b lists h l s r.0 (one h (b.handle r.2)) 0) o

  new-Given :
      (s : ChunkLists a lists) (answer : Option a.Buf) (c : a.Chunk) (shared : a.Shared)
      (added : a.Chunk → a.Shared → Option (ChunkLists a lists)) (chunk : ℕ)
      → (l.given shared ≡ l.given s.shared + l.answer answer) × (l.back shared ≡ l.back s.shared)
      → OnSome (λ u. u.shared ≡ shared) (added c shared)
      → Given s (elim answer [
        | none ↦ none
        | some buf ↦ elim (added c shared) [ none ↦ none | some s'' ↦ some (s'', chunk, buf) ]
      ])
  new-Given s none c shared added chunk e k = tt
  new-Given s (some buf) c shared added chunk e k =
      OnSome-elim (λ u. u.shared ≡ shared)
        (λ (r : ChunkLists a lists × ℕ × a.Buf).
          Logged a b lists h l s r.0 (one h (b.handle r.2)) 0)
        (added c shared) _ k
        (λ u m. record {
          given = omega (arith, ap l.given m, e.0, l.answer_some buf);
          back = omega (arith, ap l.back m, e.1);
        })

  allocate_from_new-Given :
      (fuel : ℕ) (s : ChunkLists a lists) (req_capacity size_idx : ℕ)
      → Given s (allocate_from_new a lists fuel s req_capacity size_idx)
  unfolding allocate_from_new
  allocate_from_new-Given fuel s req_capacity size_idx =
      let with = λ (c : a.Chunk) (shared : a.Shared). record s {
        chunks = update s.chunks s.created c;
        created = s.created + 1;
        shared = shared;
      } in
      OnSome-elim
        (λ r. (l.given r.1 ≡ l.given s.shared + l.answer r.2) × (l.back r.1 ≡ l.back s.shared))
        (λ (r : ChunkLists a lists × ℕ × a.Buf).
          Logged a b lists h l s r.0 (one h (b.handle r.2)) 0)
        (a.allocate a.new_chunk s.shared req_capacity size_idx) _
        (l.allocates a.new_chunk s.shared req_capacity size_idx)
        (λ r e.
          new-Given s r.2 r.0 r.1 (λ c shared. add a lists fuel q_init (with c shared) s.created)
            s.created e (add-shared a b lists h l fuel q_init (with r.0 r.1) s.created))

  normal-Given :
      (s s' : ChunkLists a lists) (new : Option (ChunkLists a lists × ℕ × a.Buf))
      (answer : Option (ℕ × a.Buf))
      → Logged a b lists h l s s' (answered answer) 0
      → Given s' new
      → Given s (elim answer [ some (chunk, buf) ↦ some (s', chunk, buf) | none ↦ new ])
  normal-Given s s' none none d k = tt
  normal-Given s s' (some (u, chunk, buf)) none d k = record {
    given = omega (arith, d.given, k.given);
    back = omega (arith, d.back, k.back);
  }
  normal-Given s s' new (some (chunk, buf)) d k = d

  pub allocate_normal-Given :
      (fuel : ℕ) (s : ChunkLists a lists) (req_capacity size_idx : ℕ)
      → Given s (allocate_normal a lists fuel s req_capacity size_idx)
  unfolding allocate_normal
  allocate_normal-Given fuel s req_capacity size_idx =
      OnSome-elim
        (λ (r : ChunkLists a lists × Option (ℕ × a.Buf)).
          Logged a b lists h l s r.0 (answered r.1) 0)
        (λ (r : ChunkLists a lists × ℕ × a.Buf).
          Logged a b lists h l s r.0 (one h (b.handle r.2)) 0)
        (try_lists a lists fuel (3 ∷ 2 ∷ 1 ∷ 0 ∷ 4 ∷ []) s req_capacity size_idx) _
        (try_lists-Issued fuel (3 ∷ 2 ∷ 1 ∷ 0 ∷ 4 ∷ []) s req_capacity size_idx)
        (λ r d.
          normal-Given s r.0 (allocate_from_new a lists fuel r.0 req_capacity size_idx) r.1 d
            (allocate_from_new-Given fuel r.0 req_capacity size_idx))
