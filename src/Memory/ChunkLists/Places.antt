-- ===== src/Memory/ChunkLists/Places.antt =====
-- Each chunk of an arena stands in one list (buffer/PoolChunkList.cpp).
use mutty.Common.{
  ℕ, ◌+◌, ◌^◌, ◌≤◌, ◌<◌, ◌≡◌, refl, sym, ap, ◌∙◌, subst, inl, inr, Bool, true, false, ◌&&◌, Option,
  none, some, List, [], ◌∷◌, arith, ◌==◌, if◌then◌else◌, Bool-cases, ==→eq, eq→==,
}
use mutty.Memory.ChunkLists.Calls.{ChunkCalls}
use mutty.Memory.PoolChunk.{update}
use mutty.Memory.ChunkLists.{at_most, ChunkLists, add_0, remove, delete, move_0, move, free}
use mutty.Memory.ChunkLists.Moves.{default_list, usage_of, move_0-Settles}

-- How often a chunk stands in a list.
pub times : ℕ → List ℕ → ℕ
times x [] = 0
times x (y ∷ ys) = (if y == x then 1 else 0) + times x ys

abbrev pub is_at : Option ℕ → ℕ → Bool
is_at none i = false
is_at (some j) i = j == i

times-delete :
    (x k : ℕ) (xs : List ℕ)
    → 0 < times k xs
    → times x (delete k xs) + (if k == x then 1 else 0) ≡ times x xs
unfolding times delete
times-delete x k [] h = absurd (omega arith)
times-delete x k (y ∷ ys) h = elim (Bool-cases (y == k)) [
  | inl e ↦ rw (e, ==→eq y k e) (omega arith)
  | inr e ↦ let rest = times-delete x k ys (ground (arith, e, h)) in rw e (omega (arith, rest))
]

module _ (a : ChunkCalls) where
  -- A chunk stands once in the list that is its parent, and in no other.
  pub IsPlaced : ChunkLists a default_list → Type 0
  unfolding times
  IsPlaced s = (i k : ℕ) → times k (s.heads i) ≡ (if is_at (s.parent k) i then 1 else 0)

  -- The chunk is nowhere, and every other is as it was.
  abbrev IsOut : ChunkLists a default_list → ChunkLists a default_list → ℕ → Type 0
  IsOut s s' k = (i l : ℕ) → times l (s'.heads i) ≡ (if k == l then 0 else times l (s.heads i))

  add_0-heads :
      (s : ChunkLists a default_list) (j k i l : ℕ)
      → times l ((add_0 a default_list j s k).heads i)
        ≡ times l (s.heads i) + (if (j == i) && (k == l) then 1 else 0)
  unfolding add_0 times
  add_0-heads s j k i l = elim (Bool-cases (j == i)) [
    | inl e ↦
        rw (e, ==→eq j i e)
          (elim (Bool-cases (k == l)) [ inl d ↦ rw d (omega arith) | inr d ↦ rw d (omega arith) ])
    | inr e ↦ rw e (omega arith)
  ]

  remove-IsOut :
      (s : ChunkLists a default_list) (i k : ℕ)
      → IsPlaced s
      → s.parent k ≡ some i
      → IsOut s (remove a default_list i s k) k
  unfolding remove IsPlaced
  remove-IsOut s i k v p j l =
      let here : times k (s.heads i) ≡ 1 = v i k ∙ (rw (p, eq→== i i refl) refl) in
      let gone = times-delete l k (s.heads i) (omega (arith, here)) in
      elim (Bool-cases (i == j)) [
        | inl e ↦ elim (Bool-cases (k == l)) [
          | inl d ↦
              let same : times l (s.heads i) ≡ 1 =
                subst (λ (m : ℕ). times m (s.heads i) ≡ 1) (==→eq k l d) here in
              rw (e, d) (ground (arith, gone, same, d))
          | inr d ↦
              let left : times l (delete k (s.heads i)) ≡ times l (s.heads i) =
                ground (arith, gone, d) in
              rw (e, d) (left ∙ ap (λ (m : ℕ). times l (s.heads m)) (==→eq i j e))
        ]
        | inr e ↦ elim (Bool-cases (k == l)) [
          | inl d ↦
              let other : times k (s.heads j) ≡ 0 = v j k ∙ (rw (p, e) refl) in
              rw (e, d) (subst (λ (m : ℕ). times m (s.heads j) ≡ 0) (==→eq k l d) other)
          | inr d ↦ rw (e, d) refl
        ]
      ]

  -- A chunk that was put nowhere is put in a list.
  add_0-IsPlaced :
      (s s' : ChunkLists a default_list) (j k : ℕ)
      → IsPlaced s
      → IsOut s s' k
      → s'.parent ≡ s.parent
      → IsPlaced (add_0 a default_list j s' k)
  unfolding IsPlaced add_0
  add_0-IsPlaced s s' j k v out p i l = elim (Bool-cases (k == l)) [
    | inl d ↦
        let gone : times l (s'.heads i) ≡ 0 = rw d at (out i l) in
        let added : times l (s'.heads i) + (if (j == i) && (k == l) then 1 else 0)
            ≡ (if j == i then 1 else 0) =
          rw (d, gone) (ground arith) in
        rw d (add_0-heads s' j k i l ∙ added)
    | inr d ↦
        let same : times l (s'.heads i) ≡ times l (s.heads i) = rw d at (out i l) in
        let kept : times l (s'.heads i) + (if (j == i) && (k == l) then 1 else 0)
            ≡ times l (s.heads i) =
          ground (arith, d, same) in
        rw d (
          add_0-heads s' j k i l
          ∙ kept
          ∙ v i l
          ∙ ap (λ (f : ℕ → Option ℕ). if is_at (f l) i then 1 else 0) (sym p))
  ]

  -- The lists of a new arena.
  abbrev pub no_chunks : a.Shared → ChunkLists a default_list
  no_chunks shared = record {
    heads = λ i. [];
    parent = λ k. none;
    chunks = λ k. a.new_chunk;
    created = 0;
    shared = shared;
  }

  pub no_chunks-IsPlaced : (shared : a.Shared) → IsPlaced (no_chunks shared)
  unfolding IsPlaced times
  no_chunks-IsPlaced shared i k = refl

  -- A chunk that is in no list is put in one.
  pub add_0_new-IsPlaced :
      (s : ChunkLists a default_list) (j k : ℕ)
      → IsPlaced s
      → s.parent k ≡ none
      → IsPlaced (add_0 a default_list j s k)
  unfolding IsPlaced
  add_0_new-IsPlaced s j k v p =
      add_0-IsPlaced s s j k v
        (λ i l. elim (Bool-cases (k == l)) [
          | inl d ↦ rw (d, ← ==→eq k l d) (v i k ∙ (rw p refl))
          | inr d ↦ rw d refl
        ])
        refl

  abbrev with_chunk : ChunkLists a default_list → ℕ → a.Chunk → a.Shared → ChunkLists a default_list
  with_chunk s k c shared = record s { chunks = update s.chunks k c; shared = shared }

  free-stays :
      (s : ChunkLists a default_list) (fuel i k handle : ℕ) (c : a.Chunk) (shared : a.Shared)
      → a.free (s.chunks k) s.shared handle ≡ some (c, shared)
      → at_most (a.free_bytes c) ((default_list i).free_max_threshold) ≡ true
      → free a default_list fuel i s k handle ≡ some (with_chunk s k c shared, true)
  unfolding free
  free-stays s fuel i k handle c shared f e = rw (f, free) (rw (e, free) refl)

  free-move_0 :
      (s : ChunkLists a default_list) (fuel i k handle : ℕ) (c : a.Chunk) (shared : a.Shared)
      → a.free (s.chunks k) s.shared handle ≡ some (c, shared)
      → at_most (a.free_bytes c) ((default_list i).free_max_threshold) ≡ false
      → let s' = remove a default_list i (with_chunk s k c shared) k in
        free a default_list fuel i s k handle
        ≡ move_0 a default_list (λ j. move a default_list fuel j s' k) i s' k
  unfolding free
  free-move_0 s fuel i k handle c shared f e = rw (f, free) (rw (e, free) refl)

  chunks-remove :
      (s : ChunkLists a default_list) (i k : ℕ) → (remove a default_list i s k).chunks ≡ s.chunks
  unfolding remove
  chunks-remove s i k = refl

  parent-remove :
      (s : ChunkLists a default_list) (i k : ℕ) → (remove a default_list i s k).parent ≡ s.parent
  unfolding remove
  parent-remove s i k = refl

  pub parent-add_0 :
      (s : ChunkLists a default_list) (j k : ℕ) → (add_0 a default_list j s k).parent k ≡ some j
  unfolding add_0
  parent-add_0 s j k = rw (eq→== k k refl) refl

  -- What `free` leaves of the lists: every chunk in its own one, and the chunk at hand in one that allows
  -- its free bytes; or that chunk in none, to be destroyed, with all its bytes free.
  abbrev pub IsSettled : ℕ → a.Chunk → ChunkLists a default_list × Bool → Type 0
  IsSettled k c (s, true) =
      IsPlaced s
      × ((j : ℕ) × (s.parent k ≡ some j)
          × (at_most (a.free_bytes c) ((default_list j).free_max_threshold) ≡ true))
  IsSettled k c (s, false) = (a.free_bytes c ≡ 2 ^ 24) × ((j : ℕ) → times k (s.heads j) ≡ 0)

  -- `free` of the list that a chunk of 16 MiB stands in ends, and fails no assertion of the lists, if
  -- the chunk's own `free` fails none: each chunk stands in one list after it, and this one
  -- in a list that allows its free bytes; or this one is in no list and is to be destroyed,
  -- and then all its bytes are free.
  pub free-IsSettled :
      (s : ChunkLists a default_list) (i k handle : ℕ) (c : a.Chunk) (shared : a.Shared)
      → IsPlaced s
      → s.parent k ≡ some i
      → i ≤ 5
      → a.free (s.chunks k) s.shared handle ≡ some (c, shared)
      → a.usage c ≡ usage_of (a.free_bytes c)
      → a.free_bytes c ≤ 2 ^ 24
      → (outcome : ChunkLists a default_list × Bool) × (free a default_list 5 i s k handle
          ≡ some outcome)
        × IsSettled k c outcome
  unfolding IsPlaced
  free-IsSettled s i k handle c shared v p h f u b =
      let s1 = with_chunk s k c shared in
      let s2 = remove a default_list i s1 k in
      let held : s2.chunks k ≡ c =
        ap (λ (g : ℕ → a.Chunk). g k) (chunks-remove s1 i k) ∙ (rw (eq→== k k refl) refl) in
      elim (Bool-cases (at_most (a.free_bytes c) ((default_list i).free_max_threshold))) [
        | inl e ↦ ((s1, true), free-stays s 5 i k handle c shared f e, (v, (i, p, e)))
        | inr e ↦
            let start = free-move_0 s 5 i k handle c shared f e in
            let out = remove-IsOut s1 i k v p in
            let law : a.usage (s2.chunks k) ≡ usage_of (a.free_bytes (s2.chunks k)) =
              subst (λ (x : a.Chunk). a.usage x ≡ usage_of (a.free_bytes x)) (sym held) u in
            let over : at_most (a.free_bytes (s2.chunks k)) ((default_list i).free_max_threshold)
                ≡ false =
              subst
                (λ (x : a.Chunk).
                  at_most (a.free_bytes x) ((default_list i).free_max_threshold) ≡ false)
                (sym held) e in
            let bounded : a.free_bytes (s2.chunks k) ≤ 2 ^ 24 =
              subst (λ (x : a.Chunk). a.free_bytes x ≤ 2 ^ 24) (sym held) b in
            elim (move_0-Settles a i 5 s2 k h h law bounded over) [
              | inl (j, ended, lower, allowed) ↦ (
                (add_0 a default_list j s2 k, true),
                start ∙ ended,
                (
                  add_0-IsPlaced s1 s2 j k v out (parent-remove s1 i k),
                  (
                    j,
                    parent-add_0 s2 j k,
                    subst
                        (λ (x : a.Chunk).
                          at_most (a.free_bytes x) ((default_list j).free_max_threshold) ≡ true)
                        held allowed,
                  ),
                ),
              )
              | inr (ended, whole) ↦ (
                (s2, false),
                start ∙ ended,
                (ap a.free_bytes (sym held) ∙ whole, λ l. out l k ∙ (rw (eq→== k k refl) refl)),
              )
            ]
      ]
