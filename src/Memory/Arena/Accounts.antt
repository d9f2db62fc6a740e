-- ===== src/Memory/Arena/Accounts.antt =====
-- The counters of buffer/PoolArena.cpp against the buffers that are out.
use mutty.Common.{
  ℕ, suc, ◌+◌, ◌≡◌, refl, ◌∙◌, Bool, true, false, Option, none, some, List, [], ◌∷◌, arith, inl,
  inr, Bool-cases, length, OnSome, OnSome-bind,
}
use mutty.Memory.Handle.{is_subpage}
use mutty.Memory.SizeClasses.{SizeClasses}
use mutty.Memory.ThreadCache.{Entry}
use mutty.Memory.ChunkLists
use mutty.Memory.ChunkLists.{ChunkList, ChunkLists}
use mutty.Memory.ChunkLists.Calls.{ChunkCalls}
use mutty.Memory.Arena.{
  SubpageCalls, Arena, count_release, released, free_chunk, free_entries, allocate_normal,
  allocate_on, allocate_from_subpage,
}

module _ (a : ChunkCalls) (b : SubpageCalls a) (lists : ℕ → ChunkList) (s : SizeClasses) where
  -- How often the chunks and subpages gave memory, and how often it came back to them.
  abbrev pub issued : Arena a b lists s → ℕ
  issued x = x.allocations_small + x.allocations_normal

  abbrev pub returned : Arena a b lists s → ℕ
  returned x = x.deallocations_small + x.deallocations_normal

  -- The counters after `i` allocations and `r` releases of pooled memory.
  pub record Counts (x : Arena a b lists s) (i r : ℕ) (y : Arena a b lists s) : Type 0 where
    pub issues : issued y ≡ issued x + i
    pub returns : returned y ≡ returned x + r
    pub same_allocations : y.allocations_huge ≡ x.allocations_huge
    pub same_deallocations : y.deallocations_huge ≡ x.deallocations_huge
    pub same_bytes : y.active_bytes_huge ≡ x.active_bytes_huge

  -- Anything, for the steps of a chain that leave the counters alone.
  abbrev pub Any {ℓ} : {A : Type ℓ} → A → Type 0
  Any x = Unit

  pub OnSome-Any {ℓ} : {A : Type ℓ} (o : Option A) → OnSome Any o
  OnSome-Any none = tt
  OnSome-Any (some x) = tt

  released-Counts :
      (x : Arena a b lists s) (chunk handle : ℕ) (l : ChunkLists a lists) (kept : Bool)
      → Counts x 0 1 (released a b lists s (count_release a b lists s x handle false) chunk l kept)
  released-Counts x chunk handle l kept = elim (Bool-cases (is_subpage handle)) [
    | inl h ↦
        rw h (by_kept (record x { deallocations_small = x.deallocations_small + 1 }) kept small)
    | inr h ↦
        rw h (by_kept (record x { deallocations_normal = x.deallocations_normal + 1 }) kept normal)
  ]
    where
      small : Counts x 0 1 (record x { deallocations_small = x.deallocations_small + 1 })
      small = record {
        issues = omega arith;
        returns = omega arith;
        same_allocations = refl;
        same_deallocations = refl;
        same_bytes = refl;
      }

      normal : Counts x 0 1 (record x { deallocations_normal = x.deallocations_normal + 1 })
      normal = record {
        issues = omega arith;
        returns = omega arith;
        same_allocations = refl;
        same_deallocations = refl;
        same_bytes = refl;
      }

      by_kept :
          (y : Arena a b lists s) (kept : Bool)
          → Counts x 0 1 y
          → Counts x 0 1 (released a b lists s y chunk l kept)
      by_kept y true c = record {
        issues = c.issues;
        returns = c.returns;
        same_allocations = c.same_allocations;
        same_deallocations = c.same_deallocations;
        same_bytes = c.same_bytes;
      }
      by_kept y false c = record {
        issues = c.issues;
        returns = c.returns;
        same_allocations = c.same_allocations;
        same_deallocations = c.same_deallocations;
        same_bytes = c.same_bytes;
      }

  pub free_chunk-Counts :
      (x : Arena a b lists s) (e : Entry) → OnSome (Counts x 0 1) (free_chunk a b lists s x e false)
  unfolding free_chunk
  free_chunk-Counts x e =
      OnSome-bind Any (Counts x 0 1) (x.chunk_lists.parent e.chunk) _ (OnSome-Any _) (λ i h.
        OnSome-bind Any (Counts x 0 1) (ChunkLists.free a lists 6 i x.chunk_lists e.chunk e.handle)
          _ (OnSome-Any _)
          (λ (r : ChunkLists a lists × Bool) k. released-Counts x e.chunk e.handle r.0 r.1))

  Counts-start : (x : Arena a b lists s) → Counts x 0 0 x
  Counts-start x = record {
    issues = omega arith;
    returns = omega arith;
    same_allocations = refl;
    same_deallocations = refl;
    same_bytes = refl;
  }

  Counts-then :
      {i r j q : ℕ} (x y z : Arena a b lists s)
      → Counts x i r y
      → Counts y j q z
      → Counts x (i + j) (r + q) z
  Counts-then x y z c d = record {
    issues = omega (arith, c.issues, d.issues);
    returns = omega (arith, c.returns, d.returns);
    same_allocations = d.same_allocations ∙ c.same_allocations;
    same_deallocations = d.same_deallocations ∙ c.same_deallocations;
    same_bytes = d.same_bytes ∙ c.same_bytes;
  }

  Counts-after :
      {i r i' r' : ℕ} (x y : Arena a b lists s)
      → i ≡ i'
      → r ≡ r'
      → Counts x i r y
      → Counts x i' r' y
  Counts-after x y p q c = record {
    issues = omega (arith, c.issues, p);
    returns = omega (arith, c.returns, q);
    same_allocations = c.same_allocations;
    same_deallocations = c.same_deallocations;
    same_bytes = c.same_bytes;
  }

  pub OnSome-map {ℓ} :
      {A : Type ℓ} (P Q : A → Type 0) (o : Option A)
      → OnSome P o
      → ((x : A) → P x → Q x)
      → OnSome Q o
  OnSome-map P Q none h f = tt
  OnSome-map P Q (some x) h f = f x h

  pub free_entries-Counts :
      (es : List Entry) (x : Arena a b lists s)
      → OnSome (Counts x 0 (length es)) (free_entries a b lists s x es)
  unfolding free_entries
  free_entries-Counts [] x = Counts-start x
  free_entries-Counts (e ∷ es) x =
      OnSome-bind (Counts x 0 1) (Counts x 0 (suc (length es))) (free_chunk a b lists s x e false) _
        (free_chunk-Counts x e)
        (λ y c.
          OnSome-map (Counts y 0 (length es)) (Counts x 0 (suc (length es)))
            (free_entries a b lists s y es) (free_entries-Counts es y)
            (λ z d. Counts-after x z refl (omega arith) (Counts-then x y z c d)))

  -- A buffer that comes from the chunks, before it is counted.
  abbrev pub Serves : Arena a b lists s → Option (Arena a b lists s × Entry) → Type 0
  Serves x o = OnSome (λ r. Counts x 0 0 r.0) o

  pub allocate_normal-Serves :
      (x : Arena a b lists s) (req_capacity size_idx : ℕ)
      → Serves x (allocate_normal a b lists s x req_capacity size_idx)
  unfolding allocate_normal
  allocate_normal-Serves x req_capacity size_idx =
      OnSome-bind Any (λ (r : Arena a b lists s × Entry). Counts x 0 0 r.0)
        (ChunkLists.allocate_normal a lists 6 x.chunk_lists req_capacity size_idx) _ (OnSome-Any _)
        (λ r k. record {
          issues = omega arith;
          returns = omega arith;
          same_allocations = refl;
          same_deallocations = refl;
          same_bytes = refl;
        })

  allocate_on-Serves :
      (x : Arena a b lists s) (req_capacity size_idx chunk : ℕ)
      → Serves x (allocate_on a b lists s x req_capacity size_idx chunk)
  unfolding allocate_on
  allocate_on-Serves x req_capacity size_idx chunk =
      OnSome-bind Any (λ (r : Arena a b lists s × Entry). Counts x 0 0 r.0)
        (b.serve (x.chunk_lists.chunks chunk) x.chunk_lists.shared size_idx req_capacity) _
        (OnSome-Any _)
        (λ r k. record {
          issues = omega arith;
          returns = omega arith;
          same_allocations = refl;
          same_deallocations = refl;
          same_bytes = refl;
        })

  pub allocate_from_subpage-Serves :
      (x : Arena a b lists s) (req_capacity size_idx : ℕ)
      → Serves x (allocate_from_subpage a b lists s x req_capacity size_idx)
  unfolding allocate_from_subpage
  allocate_from_subpage-Serves x req_capacity size_idx =
      by_list (b.first_subpage x.chunk_lists.shared size_idx)
    where
      by_list :
          (o : Option ℕ)
          → Serves x (elim o [
            | none ↦ allocate_normal a b lists s x req_capacity size_idx
            | some chunk ↦ allocate_on a b lists s x req_capacity size_idx chunk
          ])
      by_list none = allocate_normal-Serves x req_capacity size_idx
      by_list (some chunk) = allocate_on-Serves x req_capacity size_idx chunk
