-- ===== src/Memory/Arena/Pieces.antt =====
-- Which handles an allocation and a release of buffer/PoolArena.cpp get from chunks and subpages, and
-- which they give back.
use mutty.Common.{
  ℕ, ◌+◌, ◌≡◌, refl, ap, Bool, true, false, Option, none, some, List, [], ◌∷◌, arith, ◌==◌, ltb,
  leb, if◌then◌else◌, ◌>>=◌, OnSome, OnSome-bind,
}
use mutty.Memory.Handle.{is_subpage}
use mutty.Memory.SizeClasses.{SizeClasses, size_to_size_idx, normalize_size}
use mutty.Memory.ThreadCache
use mutty.Memory.ThreadCache.{Entry, ThreadCache, Answer, taken_in}
use mutty.Memory.ThreadCache.Conservation.{
  held, count, count_some, held-allocate_small, held-allocate_normal, held-add,
}
use mutty.Memory.ChunkLists
use mutty.Memory.ChunkLists.{ChunkList, ChunkLists}
use mutty.Memory.ChunkLists.Calls.{ChunkCalls}
use mutty.Memory.ChunkLists.Handles.{one, Logs, Logged, free-Freed}
use mutty.Memory.ChunkLists.Issues.{allocate_normal-Given}
use mutty.Memory.Arena.{
  SubpageCalls, Arena, Given, count_release, released, free_chunk, free_entries, allocate_normal,
  allocate_on, allocate_from_subpage, given_or, cache_or_arena, tcache_allocate_small,
  tcache_allocate_normal, allocate_huge, allocate, free, free_uncached,
}
use mutty.Memory.Arena.Allocation.{pooled_in}

module _ (a : ChunkCalls) (b : SubpageCalls a) (lists : ℕ → ChunkList) (s : SizeClasses) (h : ℕ)
    (l : Logs a b h) where
  -- The entries of the handle.
  abbrev pub of_handle : Entry → Bool
  of_handle e = e.handle == h

  abbrev pub given : Arena a b lists s → ℕ
  given x = l.given x.chunk_lists.shared

  abbrev pub back : Arena a b lists s → ℕ
  back x = l.back x.chunk_lists.shared

  -- From `x` to `y`, `n` more were given out and `m` more given back.
  pub record Notes (x y : Arena a b lists s) (n m : ℕ) : Type 0 where
    pub gives : given y ≡ given x + n
    pub takes : back y ≡ back x + m

  released-Notes :
      (x : Arena a b lists s) (chunk handle : ℕ) (u : ChunkLists a lists) (kept : Bool)
      → Logged a b lists h l x.chunk_lists u 0 (one h handle)
      → Notes x
          (released a b lists s (count_release a b lists s x handle false) chunk u kept)
          0
          (one h handle)
  released-Notes x chunk handle u true d = record { gives = d.given; takes = d.back }
  released-Notes x chunk handle u false d = record { gives = d.given; takes = d.back }

  pub free_chunk-Notes :
      (x : Arena a b lists s) (e : Entry)
      → OnSome (λ y. Notes x y 0 (one h e.handle)) (free_chunk a b lists s x e false)
  unfolding free_chunk
  free_chunk-Notes x e =
      OnSome-bind (λ i. Unit) (λ y. Notes x y 0 (one h e.handle)) (x.chunk_lists.parent e.chunk) _
        (any (x.chunk_lists.parent e.chunk))
        (λ i k.
          OnSome-bind
            (λ (r : ChunkLists a lists × Bool).
              Logged a b lists h l x.chunk_lists r.0 0 (one h e.handle))
            (λ y. Notes x y 0 (one h e.handle))
            (ChunkLists.free a lists 6 i x.chunk_lists e.chunk e.handle) _
            (free-Freed a b lists h l 6 i x.chunk_lists e.chunk e.handle)
            (λ r d. released-Notes x e.chunk e.handle r.0 r.1 d))
    where
      any : (o : Option ℕ) → OnSome (λ i. Unit {0}) o
      any none = tt
      any (some i) = tt

  OnSome-map :
      (P Q : Arena a b lists s → Type 0) (o : Option (Arena a b lists s))
      → OnSome P o
      → ((y : Arena a b lists s) → P y → Q y)
      → OnSome Q o
  OnSome-map P Q none d k = tt
  OnSome-map P Q (some y) d k = k y d

  free_entries-Notes :
      (es : List Entry) (x : Arena a b lists s)
      → OnSome (λ y. Notes x y 0 (count of_handle es)) (free_entries a b lists s x es)
  unfolding free_entries count
  free_entries-Notes [] x = record { gives = omega arith; takes = omega arith }
  free_entries-Notes (e ∷ es) x =
      OnSome-bind (λ y. Notes x y 0 (one h e.handle)) (λ y. Notes x y 0 (count of_handle (e ∷ es)))
        (free_chunk a b lists s x e false) _ (free_chunk-Notes x e)
        (λ y c.
          OnSome-map (λ z. Notes y z 0 (count of_handle es))
            (λ z. Notes x z 0 (count of_handle (e ∷ es))) (free_entries a b lists s y es)
            (free_entries-Notes es y)
            (λ z d. record {
              gives = omega (arith, c.gives, d.gives);
              takes = omega (arith, c.takes, d.takes);
            }))

  -- A buffer that comes from a chunk or a subpage.
  abbrev Serves : Arena a b lists s → Option (Arena a b lists s × Entry) → Type 0
  Serves x o = OnSome (λ r. Notes x r.0 (one h (r.1).handle) 0) o

  allocate_normal-Serves :
      (x : Arena a b lists s) (req_capacity size_idx : ℕ)
      → Serves x (allocate_normal a b lists s x req_capacity size_idx)
  unfolding allocate_normal
  allocate_normal-Serves x req_capacity size_idx =
      OnSome-bind
        (λ (r : ChunkLists a lists × ℕ × a.Buf).
          Logged a b lists h l x.chunk_lists r.0 (one h (b.handle r.2)) 0)
        (λ (r : Arena a b lists s × Entry). Notes x r.0 (one h (r.1).handle) 0)
        (ChunkLists.allocate_normal a lists 6 x.chunk_lists req_capacity size_idx) _
        (allocate_normal-Given a b lists h l 6 x.chunk_lists req_capacity size_idx)
        (λ r d. record { gives = d.given; takes = d.back })

  allocate_on-Serves :
      (x : Arena a b lists s) (req_capacity size_idx chunk : ℕ)
      → Serves x (allocate_on a b lists s x req_capacity size_idx chunk)
  unfolding allocate_on
  allocate_on-Serves x req_capacity size_idx chunk =
      let u = x.chunk_lists in
      OnSome-bind
        (λ r.
          (l.given r.1 ≡ l.given u.shared + one h (b.handle r.2)) × (l.back r.1 ≡ l.back u.shared))
        (λ (r : Arena a b lists s × Entry). Notes x r.0 (one h (r.1).handle) 0)
        (b.serve (u.chunks chunk) u.shared size_idx req_capacity) _
        (l.serves (u.chunks chunk) u.shared size_idx req_capacity)
        (λ r d. record { gives = d.0; takes = omega (arith, d.1) })

  allocate_from_subpage-Serves :
      (x : Arena a b lists s) (req_capacity size_idx : ℕ)
      → Serves x (allocate_from_subpage a b lists s x req_capacity size_idx)
  unfolding allocate_from_subpage
  allocate_from_subpage-Serves x req_capacity size_idx =
      by_list (b.first_subpage x.chunk_lists.shared size_idx)
    where
      by_list :
          (o : Option ℕ)
          → Serves x (elim o [
            | none ↦ allocate_normal a b lists s x req_capacity size_idx
            | some chunk ↦ allocate_on a b lists s x req_capacity size_idx chunk
          ])
      by_list none = allocate_normal-Serves x req_capacity size_idx
      by_list (some chunk) = allocate_on-Serves x req_capacity size_idx chunk

  -- After an allocation, what was given out is with the buffer, in the cache, or went back.
  pub record Conserves (x : Arena a b lists s) (t : ThreadCache) (y : Arena a b lists s)
      (t' : ThreadCache) (g : Given a b lists s) : Type 0 where
    pub conserved :
        given y + back x + held of_handle t
        ≡ given x + back y + held of_handle t' + count of_handle (pooled_in a b lists s g)

  abbrev pub Allocates :
      Arena a b lists s
      → ThreadCache
      → Option (Arena a b lists s × ThreadCache × Given a b lists s)
      → Type 0
  Allocates x t o = OnSome (λ r. Conserves x t r.0 r.1 r.2) o

  given_or-Allocates :
      (serve : Arena a b lists s → Option (Arena a b lists s × Entry))
      (counted : Arena a b lists s → Arena a b lists s) (t t' : ThreadCache) (g : Option Entry)
      (freed : ℕ) (x y : Arena a b lists s)
      → ((z : Arena a b lists s) → Serves z (serve z))
      → ((z : Arena a b lists s) → Notes z (counted z) 0 0)
      → Notes x y 0 freed
      → held of_handle t ≡ count_some of_handle g + freed + held of_handle t'
      → Allocates x t (given_or a b lists s serve counted t' g y)
  unfolding count
  given_or-Allocates serve counted t t' (some e) freed x y k m c o = record {
    conserved = omega (arith, c.gives, c.takes, o);
  }
  given_or-Allocates serve counted t t' none freed x y k m c o =
      OnSome-bind (λ r. Notes y r.0 (one h (r.1).handle) 0) (λ r. Conserves x t r.0 r.1 r.2)
        (serve y) _ (k y)
        (λ r d.
          let n = m r.0 in
          record {
            conserved = omega (arith, c.gives, c.takes, d.gives, d.takes, n.gives, n.takes, o);
          })

  cache_or_arena-Allocates :
      (serve : Arena a b lists s → Option (Arena a b lists s × Entry))
      (counted : Arena a b lists s → Arena a b lists s) (answer : Answer) (t t' : ThreadCache)
      (x : Arena a b lists s)
      → ((z : Arena a b lists s) → Serves z (serve z))
      → ((z : Arena a b lists s) → Notes z (counted z) 0 0)
      → held of_handle t
        ≡ count_some of_handle answer.given + count of_handle answer.freed + held of_handle t'
      → Allocates x t (cache_or_arena a b lists s serve counted (answer, t') x)
  unfolding cache_or_arena
  cache_or_arena-Allocates serve counted answer t t' x k m o =
      OnSome-bind (λ y. Notes x y 0 (count of_handle answer.freed)) (λ r. Conserves x t r.0 r.1 r.2)
        (free_entries a b lists s x answer.freed) _ (free_entries-Notes answer.freed x)
        (λ y c.
          given_or-Allocates serve counted t t' answer.given (count of_handle answer.freed) x y k m
            c o)

  same-Notes : (x y : Arena a b lists s) → y.chunk_lists ≡ x.chunk_lists → Notes x y 0 0
  same-Notes x y e = record {
    gives = omega (arith, ap (λ u. l.given u.shared) e);
    takes = omega (arith, ap (λ u. l.back u.shared) e);
  }

  if-Allocates :
      (x : Arena a b lists s) (t : ThreadCache) (c : Bool)
      (o o' : Option (Arena a b lists s × ThreadCache × Given a b lists s))
      → Allocates x t o
      → Allocates x t o'
      → Allocates x t (if c then o else o')
  if-Allocates x t true o o' d k = d
  if-Allocates x t false o o' d k = k

  huge-Allocates :
      (x : Arena a b lists s) (t : ThreadCache) (o : Option ℕ)
      → Allocates x t (do capacity ← o; some (allocate_huge a b lists s x t capacity))
  unfolding allocate_huge count
  huge-Allocates x t none = tt
  huge-Allocates x t (some capacity) = record { conserved = omega arith }

  pub allocate-Allocates :
      (x : Arena a b lists s) (t : ThreadCache) (req_capacity : ℕ)
      → Allocates x t (allocate a b lists s x t req_capacity)
  unfolding allocate tcache_allocate_small tcache_allocate_normal
  allocate-Allocates x t req_capacity =
      let i = size_to_size_idx s req_capacity in
      let small = tcache_allocate_small a b lists s x t req_capacity i in
      let normal = tcache_allocate_normal a b lists s x t req_capacity i in
      let huge = (do
        capacity ← normalize_size s req_capacity
        some (allocate_huge a b lists s x t capacity)) in
      if-Allocates x t (leb i s.small_max_size_idx) small (if ltb i s.n_sizes then normal else huge)
        (cache_or_arena-Allocates (λ z. allocate_from_subpage a b lists s z req_capacity i)
          (λ z. record z { allocations_small = z.allocations_small + 1 })
          (ThreadCache.allocate_small t i).0 t (ThreadCache.allocate_small t i).1 x
          (λ z. allocate_from_subpage-Serves z req_capacity i)
          (λ z. same-Notes z (record z { allocations_small = z.allocations_small + 1 }) refl)
          (held-allocate_small of_handle t i))
        (if-Allocates x t (ltb i s.n_sizes) normal huge
          (cache_or_arena-Allocates (λ z. allocate_normal a b lists s z req_capacity i)
            (λ z. record z { allocations_normal = z.allocations_normal + 1 })
            (ThreadCache.allocate_normal s t i).0 t (ThreadCache.allocate_normal s t i).1 x
            (λ z. allocate_normal-Serves z req_capacity i)
            (λ z. same-Notes z (record z { allocations_normal = z.allocations_normal + 1 }) refl)
            (held-allocate_normal of_handle s t i))
          (huge-Allocates x t (normalize_size s req_capacity)))

  -- A release by a thread with a cache.
  pub record Releases (x : Arena a b lists s) (t : ThreadCache) (e : Entry) (y : Arena a b lists s)
      (t' : ThreadCache) : Type 0 where
    pub gives : given y ≡ given x
    pub takes : back y + held of_handle t' ≡ back x + held of_handle t + one h e.handle

  abbrev pub Frees :
      Arena a b lists s → ThreadCache → Entry → Option (Arena a b lists s × ThreadCache) → Type 0
  Frees x t e o = OnSome (λ r. Releases x t e r.0 r.1) o

  freed_by :
      (x : Arena a b lists s) (t t' : ThreadCache) (e : Entry) (accepted : Bool)
      → held of_handle t' ≡ held of_handle t + count of_handle (taken_in e accepted)
      → Frees x t e
          (if accepted then some (x, t') else do y ← free_chunk a b lists s x e false; some (y, t'))
  unfolding count
  freed_by x t t' e true d = record { gives = refl; takes = omega (arith, d) }
  freed_by x t t' e false d =
      OnSome-bind (λ y. Notes x y 0 (one h e.handle)) (λ r. Releases x t e r.0 r.1)
        (free_chunk a b lists s x e false) _ (free_chunk-Notes x e)
        (λ y c. record { gives = omega (arith, c.gives); takes = omega (arith, c.takes, d) })

  pub free-Frees :
      (x : Arena a b lists s) (t : ThreadCache) (e : Entry) → Frees x t e (free a b lists s x t e)
  unfolding free
  free-Frees x t e =
      let r = ThreadCache.add s t (is_subpage e.handle) e in
      freed_by x t r.1 e r.0 (held-add of_handle s t (is_subpage e.handle) e)

  pub free_uncached-Notes :
      (x : Arena a b lists s) (e : Entry)
      → OnSome (λ y. Notes x y 0 (one h e.handle)) (free_uncached a b lists s x e)
  unfolding free_uncached
  free_uncached-Notes x e = free_chunk-Notes x e
