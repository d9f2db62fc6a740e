-- ===== src/Memory/Arena/System.antt =====
-- An arena with the cache of a thread and the buffers that are out (buffer/PoolArena.cpp).
pub mod Returned
use mutty.Common.{
  ℕ, zero, suc, ◌+◌, ◌≡◌, refl, ◌∙◌, Option, none, some, List, [], ◌∷◌, ◌++◌, arith, length,
  length-append, ◌>>=◌, OnSome, OnSome-bind,
}
use mutty.Memory.SizeClasses.{SizeClasses}
use mutty.Memory.ThreadCache.{Entry, ThreadCache}
use mutty.Memory.ChunkLists.{ChunkList}
use mutty.Memory.ChunkLists.Calls.{ChunkCalls}
use mutty.Memory.Arena.{SubpageCalls, Arena, allocate, free, free_uncached, free_unpooled}
use mutty.Memory.Arena.Accounts.{issued, returned, Counts}
use mutty.Memory.Arena.Allocation.{
  total, out, pooled_in, huge_in, Allocated, allocate-Allocates, Freed, free-Freed,
  free_uncached-Counts, total-append,
}

-- What the threads do: the one with the cache allocates, and releases the i-th pooled buffer that is
-- out; one without a cache releases such a buffer; a huge buffer is released.
pub data Use : Type 0 where
  allocates frees frees_elsewhere frees_huge : ℕ → Use

-- The i-th element and the others.
pub take_at {ℓ} : {A : Type ℓ} → List A → ℕ → Option (A × List A)
take_at [] i = none
take_at (x ∷ xs) zero = some (x, xs)
take_at (x ∷ xs) (suc i) = do (y, rest) ← take_at xs i; some (y, x ∷ rest)

length-take_at {ℓ} :
    {A : Type ℓ} (xs : List A) (i : ℕ) → OnSome (λ r. length xs ≡ suc (length r.1)) (take_at xs i)
unfolding take_at
length-take_at [] i = tt
length-take_at (x ∷ xs) zero = refl
length-take_at {A} (x ∷ xs) (suc i) =
    OnSome-bind (λ (r : A × List A). length xs ≡ suc (length r.1)) _ (take_at xs i) _
      (length-take_at xs i) (λ r h. omega (arith, h))

total-take_at : (xs : List ℕ) (i : ℕ) → OnSome (λ r. total xs ≡ r.0 + total r.1) (take_at xs i)
unfolding take_at
total-take_at [] i = tt
total-take_at (x ∷ xs) zero = refl
total-take_at (x ∷ xs) (suc i) =
    OnSome-bind (λ (r : ℕ × List ℕ). total xs ≡ r.0 + total r.1) _ (take_at xs i) _
      (total-take_at xs i) (λ r h. omega (arith, h))

pub OnSome-both {ℓ} :
    {A : Type ℓ} (P Q : A → Type 0) (o : Option A)
    → OnSome P o
    → OnSome Q o
    → OnSome (λ x. P x × Q x) o
OnSome-both P Q none h k = tt
OnSome-both P Q (some x) h k = (h, k)

module _ (a : ChunkCalls) (b : SubpageCalls a) (lists : ℕ → ChunkList) (s : SizeClasses) where
  pub record System : Type 0 where
    pub arena : Arena a b lists s
    pub cache : ThreadCache
    pub live : List Entry
    pub huge : List ℕ

  pub step : System → Use → Option System
  unfolding take_at
  step y (allocates req_capacity) = do
    (arena, cache, given) ← allocate a b lists s y.arena y.cache req_capacity
    some (record {
      arena = arena;
      cache = cache;
      live = y.live ++ pooled_in a b lists s given;
      huge = y.huge ++ huge_in a b lists s given;
    })
  step y (frees i) = do
    (e, live) ← take_at y.live i
    (arena, cache) ← free a b lists s y.arena y.cache e
    some (record y { arena = arena; cache = cache; live = live })
  step y (frees_elsewhere i) = do
    (e, live) ← take_at y.live i
    arena ← free_uncached a b lists s y.arena e
    some (record y { arena = arena; live = live })
  step y (frees_huge i) = do
    (size, huge) ← take_at y.huge i
    some (record y { arena = free_unpooled a b lists s y.arena size; huge = huge })

  pub run : System → List Use → Option System
  unfolding step
  run y [] = some y
  run y (u ∷ us) = do z ← step y u; run z us

  -- The pooled allocations counted are the releases counted, the entries of the thread's cache and the
  -- pooled buffers that are out; the huge buffers that are out are those counted, and their bytes are
  -- the active ones.
  pub record Balanced (y : System) : Type 0 where
    pub pooled_memory :
        issued a b lists s y.arena
        ≡ returned a b lists s y.arena + out a b lists s y.cache + length y.live
    pub huge_buffers : (y.arena).allocations_huge ≡ (y.arena).deallocations_huge + length y.huge
    pub huge_bytes : (y.arena).active_bytes_huge ≡ total y.huge

  free_unpooled-Balanced :
      (y : System) (size : ℕ) (rest : List ℕ)
      → Balanced y
      → length y.huge ≡ suc (length rest)
      → total y.huge ≡ size + total rest
      → Balanced (record y { arena = free_unpooled a b lists s y.arena size; huge = rest })
  unfolding free_unpooled
  free_unpooled-Balanced y size rest h l t = record {
    pooled_memory = h.pooled_memory;
    huge_buffers = omega (arith, h.huge_buffers, l);
    huge_bytes = omega (arith, h.huge_bytes, t);
  }

  step-Balanced : (y : System) (u : Use) → Balanced y → OnSome Balanced (step y u)
  unfolding step
  step-Balanced y (allocates req_capacity) h =
      OnSome-bind (λ r. Allocated a b lists s y.arena y.cache r.0 r.1 r.2) Balanced
        (allocate a b lists s y.arena y.cache req_capacity) _
        (allocate-Allocates a b lists s y.arena y.cache req_capacity)
        (λ r d. record {
          pooled_memory = omega (
            arith,
            h.pooled_memory,
            d.balanced,
            length-append y.live (pooled_in a b lists s r.2),
          );
          huge_buffers = omega (
            arith,
            h.huge_buffers,
            d.allocations_huge,
            d.deallocations_huge,
            length-append y.huge (huge_in a b lists s r.2),
          );
          huge_bytes =
              omega
                (arith, h.huge_bytes, d.bytes_huge, total-append y.huge (huge_in a b lists s r.2));
        })
  step-Balanced y (frees i) h =
      OnSome-bind (λ r. length y.live ≡ suc (length r.1)) Balanced (take_at y.live i) _
        (length-take_at y.live i)
        (λ r n.
          OnSome-bind
            (λ (q : Arena a b lists s × ThreadCache). Freed a b lists s y.arena y.cache q.0 q.1)
            Balanced (free a b lists s y.arena y.cache r.0) _
            (free-Freed a b lists s y.arena y.cache r.0)
            (λ q d. record {
              pooled_memory = omega (arith, h.pooled_memory, n, d.returns, d.issues);
              huge_buffers =
                  omega (arith, h.huge_buffers, d.same_allocations, d.same_deallocations);
              huge_bytes = d.same_bytes ∙ h.huge_bytes;
            }))
  step-Balanced y (frees_elsewhere i) h =
      OnSome-bind (λ r. length y.live ≡ suc (length r.1)) Balanced (take_at y.live i) _
        (length-take_at y.live i)
        (λ r n.
          OnSome-bind (Counts a b lists s y.arena 0 1) Balanced
            (free_uncached a b lists s y.arena r.0) _ (free_uncached-Counts a b lists s y.arena r.0)
            (λ x d. record {
              pooled_memory = omega (arith, h.pooled_memory, n, d.returns, d.issues);
              huge_buffers =
                  omega (arith, h.huge_buffers, d.same_allocations, d.same_deallocations);
              huge_bytes = d.same_bytes ∙ h.huge_bytes;
            }))
  step-Balanced y (frees_huge i) h =
      OnSome-bind (λ r. (length y.huge ≡ suc (length r.1)) × (total y.huge ≡ r.0 + total r.1))
        Balanced (take_at y.huge i) _
        (OnSome-both _ _ (take_at y.huge i) (length-take_at y.huge i) (total-take_at y.huge i))
        (λ r n. free_unpooled-Balanced y r.0 r.1 h n.0 n.1)

  -- The counters agree with the buffers that are out and the entries of the cache over any run.
  pub run-Balanced : (us : List Use) (y : System) → Balanced y → OnSome Balanced (run y us)
  unfolding run
  run-Balanced [] y h = h
  run-Balanced (u ∷ us) y h =
      OnSome-bind Balanced Balanced (step y u) _ (step-Balanced y u h) (run-Balanced us)
