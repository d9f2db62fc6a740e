-- ===== src/Memory/Arena/Allocation.antt =====
-- What an allocation and a release change of the counters of buffer/PoolArena.cpp.
use mutty.Common.{
  ℕ, ◌+◌, ◌≡◌, refl, ap, ◌∙◌, Bool, true, false, Option, none, some, List, [], ◌∷◌, ◌++◌, arith,
  ltb, leb, if◌then◌else◌, length, ◌>>=◌, OnSome, OnSome-bind,
}
use mutty.Memory.Handle.{is_subpage}
use mutty.Memory.SizeClasses.{SizeClasses, size_to_size_idx, normalize_size}
use mutty.Memory.ThreadCache
use mutty.Memory.ThreadCache.{Entry, ThreadCache, Answer, taken_in}
use mutty.Memory.ThreadCache.Conservation.{
  held, count, count_some, held-allocate_small, held-allocate_normal, held-add,
}
use mutty.Memory.ChunkLists.{ChunkList}
use mutty.Memory.ChunkLists.Calls.{ChunkCalls}
use mutty.Memory.Arena.{
  SubpageCalls, Arena, Given, pooled, unpooled, free_chunk, free_entries, allocate_normal,
  allocate_from_subpage, given_or, cache_or_arena, tcache_allocate_small, tcache_allocate_normal,
  allocate_huge, allocate, free, free_uncached,
}
use mutty.Memory.Arena.Accounts.{
  issued, returned, Counts, Serves, free_chunk-Counts, free_entries-Counts, allocate_normal-Serves,
  allocate_from_subpage-Serves,
}

abbrev pub total : List ℕ → ℕ
total [] = 0
total (n ∷ ns) = n + total ns

pub total-append : (ms ns : List ℕ) → total (ms ++ ns) ≡ total ms + total ns
total-append [] ns = omega arith
total-append (m ∷ ms) ns = omega (arith, total-append ms ns)

module _ (a : ChunkCalls) (b : SubpageCalls a) (lists : ℕ → ChunkList) (s : SizeClasses) where
  -- One count of every entry.
  abbrev all : Entry → Bool
  all e = true

  -- How many pooled buffers and entries of a cache are out.
  abbrev pub out : ThreadCache → ℕ
  out t = held all t

  count-all : (es : List Entry) → count all es ≡ length es
  unfolding count
  count-all [] = refl
  count-all (e ∷ es) = omega (arith, count-all es)

  abbrev pub pooled_in : Given a b lists s → List Entry
  pooled_in (pooled e) = e ∷ []
  pooled_in (unpooled size) = []

  abbrev pub huge_in : Given a b lists s → List ℕ
  huge_in (pooled e) = []
  huge_in (unpooled size) = size ∷ []

  -- The counters and the cache after an allocation: each piece of memory that was issued a b lists s is with the
  -- buffer, in the cache, or was returned a b lists s, and the bytes of huge buffers are counted.
  pub record Allocated (x : Arena a b lists s) (t : ThreadCache) (y : Arena a b lists s)
      (t' : ThreadCache) (g : Given a b lists s) : Type 0 where
    pub balanced :
        issued a b lists s y + returned a b lists s x + out t
        ≡ issued a b lists s x + returned a b lists s y + out t' + length (pooled_in g)
    pub allocations_huge : y.allocations_huge ≡ x.allocations_huge + length (huge_in g)
    pub deallocations_huge : y.deallocations_huge ≡ x.deallocations_huge
    pub bytes_huge : y.active_bytes_huge ≡ x.active_bytes_huge + total (huge_in g)

  abbrev pub Allocates :
      Arena a b lists s
      → ThreadCache
      → Option (Arena a b lists s × ThreadCache × Given a b lists s)
      → Type 0
  Allocates x t o = OnSome (λ r. Allocated x t r.0 r.1 r.2) o

  given_or-Allocates :
      (serve : Arena a b lists s → Option (Arena a b lists s × Entry))
      (counted : Arena a b lists s → Arena a b lists s) (t t' : ThreadCache) (g : Option Entry)
      (freed : ℕ) (x y : Arena a b lists s)
      → ((z : Arena a b lists s) → Serves a b lists s z (serve z))
      → ((z : Arena a b lists s) → Counts a b lists s z 1 0 (counted z))
      → Counts a b lists s x 0 freed y
      → out t ≡ count_some all g + freed + out t'
      → Allocates x t (given_or a b lists s serve counted t' g y)
  given_or-Allocates serve counted t t' (some e) freed x y h k c o = record {
    balanced = omega (arith, c.issues, c.returns, o);
    allocations_huge = omega (arith, c.same_allocations);
    deallocations_huge = c.same_deallocations;
    bytes_huge = omega (arith, c.same_bytes);
  }
  given_or-Allocates serve counted t t' none freed x y h k c o =
      OnSome-bind (λ r. Counts a b lists s y 0 0 r.0) (λ r. Allocated x t r.0 r.1 r.2) (serve y) _
        (h y)
        (λ r d.
          let m = k r.0 in
          record {
            balanced =
                omega (arith, c.issues, c.returns, d.issues, d.returns, m.issues, m.returns, o);
            allocations_huge =
                omega (arith, c.same_allocations, d.same_allocations, m.same_allocations);
            deallocations_huge = m.same_deallocations ∙ d.same_deallocations ∙ c.same_deallocations;
            bytes_huge = omega (arith, c.same_bytes, d.same_bytes, m.same_bytes);
          })

  cache_or_arena-Allocates :
      (serve : Arena a b lists s → Option (Arena a b lists s × Entry))
      (counted : Arena a b lists s → Arena a b lists s) (answer : Answer) (t t' : ThreadCache)
      (x : Arena a b lists s)
      → ((z : Arena a b lists s) → Serves a b lists s z (serve z))
      → ((z : Arena a b lists s) → Counts a b lists s z 1 0 (counted z))
      → out t ≡ count_some all answer.given + count all answer.freed + out t'
      → Allocates x t (cache_or_arena a b lists s serve counted (answer, t') x)
  unfolding cache_or_arena
  cache_or_arena-Allocates serve counted answer t t' x h k o =
      OnSome-bind (Counts a b lists s x 0 (length answer.freed)) (λ r. Allocated x t r.0 r.1 r.2)
        (free_entries a b lists s x answer.freed) _ (free_entries-Counts a b lists s answer.freed x)
        (λ y c.
          given_or-Allocates serve counted t t' answer.given (length answer.freed) x y h k c
            (o ∙ ap (λ (n : ℕ). count_some all answer.given + n + out t') (count-all answer.freed)))

  tcache_allocate_small-Allocates :
      (x : Arena a b lists s) (t : ThreadCache) (req_capacity i : ℕ)
      → Allocates x t (tcache_allocate_small a b lists s x t req_capacity i)
  unfolding tcache_allocate_small
  tcache_allocate_small-Allocates x t req_capacity i =
      cache_or_arena-Allocates (λ z. allocate_from_subpage a b lists s z req_capacity i)
        (λ z. record z { allocations_small = z.allocations_small + 1 })
        (ThreadCache.allocate_small t i).0 t (ThreadCache.allocate_small t i).1 x
        (λ z. allocate_from_subpage-Serves a b lists s z req_capacity i)
        (λ z. record {
          issues = omega arith;
          returns = omega arith;
          same_allocations = refl;
          same_deallocations = refl;
          same_bytes = refl;
        })
        (held-allocate_small all t i)

  tcache_allocate_normal-Allocates :
      (x : Arena a b lists s) (t : ThreadCache) (req_capacity i : ℕ)
      → Allocates x t (tcache_allocate_normal a b lists s x t req_capacity i)
  unfolding tcache_allocate_normal
  tcache_allocate_normal-Allocates x t req_capacity i =
      cache_or_arena-Allocates (λ z. allocate_normal a b lists s z req_capacity i)
        (λ z. record z { allocations_normal = z.allocations_normal + 1 })
        (ThreadCache.allocate_normal s t i).0 t (ThreadCache.allocate_normal s t i).1 x
        (λ z. allocate_normal-Serves a b lists s z req_capacity i)
        (λ z. record {
          issues = omega arith;
          returns = omega arith;
          same_allocations = refl;
          same_deallocations = refl;
          same_bytes = refl;
        })
        (held-allocate_normal all s t i)

  allocate_huge-Allocated :
      (x : Arena a b lists s) (t : ThreadCache) (capacity : ℕ)
      → let r = allocate_huge a b lists s x t capacity in Allocated x t r.0 r.1 r.2
  unfolding allocate_huge
  allocate_huge-Allocated x t capacity = record {
    balanced = omega arith;
    allocations_huge = refl;
    deallocations_huge = refl;
    bytes_huge = omega arith;
  }

  normalized-Allocates :
      (x : Arena a b lists s) (t : ThreadCache) (o : Option ℕ)
      → Allocates x t (do capacity ← o; some (allocate_huge a b lists s x t capacity))
  normalized-Allocates x t none = tt
  normalized-Allocates x t (some capacity) = allocate_huge-Allocated x t capacity

  if-Allocates :
      (x : Arena a b lists s) (t : ThreadCache) (c : Bool)
      (o o' : Option (Arena a b lists s × ThreadCache × Given a b lists s))
      → Allocates x t o
      → Allocates x t o'
      → Allocates x t (if c then o else o')
  if-Allocates x t true o o' h k = h
  if-Allocates x t false o o' h k = k

  pub allocate-Allocates :
      (x : Arena a b lists s) (t : ThreadCache) (req_capacity : ℕ)
      → Allocates x t (allocate a b lists s x t req_capacity)
  unfolding allocate
  allocate-Allocates x t req_capacity =
      let i = size_to_size_idx s req_capacity in
      let small = tcache_allocate_small a b lists s x t req_capacity i in
      let normal = tcache_allocate_normal a b lists s x t req_capacity i in
      let huge = (do
        capacity ← normalize_size s req_capacity
        some (allocate_huge a b lists s x t capacity)) in
      if-Allocates x t (leb i s.small_max_size_idx) small (if ltb i s.n_sizes then normal else huge)
        (tcache_allocate_small-Allocates x t req_capacity i)
        (if-Allocates x t (ltb i s.n_sizes) normal huge
          (tcache_allocate_normal-Allocates x t req_capacity i)
          (normalized-Allocates x t (normalize_size s req_capacity)))

  -- A release by a thread with a cache.
  pub record Freed (x : Arena a b lists s) (t : ThreadCache) (y : Arena a b lists s)
      (t' : ThreadCache) : Type 0 where
    pub returns : returned a b lists s y + out t' ≡ returned a b lists s x + out t + 1
    pub issues : issued a b lists s y ≡ issued a b lists s x
    pub same_allocations : y.allocations_huge ≡ x.allocations_huge
    pub same_deallocations : y.deallocations_huge ≡ x.deallocations_huge
    pub same_bytes : y.active_bytes_huge ≡ x.active_bytes_huge

  abbrev pub Frees :
      Arena a b lists s → ThreadCache → Option (Arena a b lists s × ThreadCache) → Type 0
  Frees x t o = OnSome (λ r. Freed x t r.0 r.1) o

  freed_by :
      (x : Arena a b lists s) (t t' : ThreadCache) (e : Entry) (accepted : Bool)
      → out t' ≡ out t + count all (taken_in e accepted)
      → Frees x t
          (if accepted then some (x, t') else do y ← free_chunk a b lists s x e false; some (y, t'))
  unfolding count
  freed_by x t t' e true h = record {
    returns = omega (arith, h);
    issues = refl;
    same_allocations = refl;
    same_deallocations = refl;
    same_bytes = refl;
  }
  freed_by x t t' e false h =
      OnSome-bind (Counts a b lists s x 0 1)
        (λ (r : Arena a b lists s × ThreadCache). Freed x t r.0 r.1)
        (free_chunk a b lists s x e false) _ (free_chunk-Counts a b lists s x e)
        (λ y c. record {
          returns = omega (arith, c.returns, h);
          issues = omega (arith, c.issues);
          same_allocations = c.same_allocations;
          same_deallocations = c.same_deallocations;
          same_bytes = c.same_bytes;
        })

  pub free-Freed :
      (x : Arena a b lists s) (t : ThreadCache) (e : Entry) → Frees x t (free a b lists s x t e)
  unfolding free
  free-Freed x t e =
      let r = ThreadCache.add s t (is_subpage e.handle) e in
      freed_by x t r.1 e r.0 (held-add all s t (is_subpage e.handle) e)

  pub free_uncached-Counts :
      (x : Arena a b lists s) (e : Entry)
      → OnSome (Counts a b lists s x 0 1) (free_uncached a b lists s x e)
  unfolding free_uncached
  free_uncached-Counts x e = free_chunk-Counts a b lists s x e
