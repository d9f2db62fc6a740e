-- ===== src/Memory/Arena/System/Returned.antt =====
-- Every handle that chunks and subpages give out over any run of buffer/PoolArena.cpp. The calls on
-- chunks and subpages are those of any arena, with a log beside what its chunks share.
use mutty.Common.{
  Bool, ℕ, zero, suc, ◌+◌, ◌≡◌, refl, Option, none, some, List, [], ◌∷◌, arith, tally, ◌==◌,
  if◌then◌else◌, ◌>>=◌, OnSome, OnSome-bind,
}
use mutty.Memory.SizeClasses.{SizeClasses}
use mutty.Memory.ThreadCache.{Entry, ThreadCache}
use mutty.Memory.ThreadCache.Conservation.{held, count, count-append}
use mutty.Memory.ChunkLists.{ChunkList}
use mutty.Memory.ChunkLists.Calls.{ChunkCalls}
use mutty.Memory.ChunkLists.Handles.{one, Logs}
use mutty.Memory.Arena.{SubpageCalls, Arena, allocate, free, free_uncached, free_unpooled}
use mutty.Memory.Arena.Allocation.{pooled_in}
use mutty.Memory.Arena.Pieces.{
  of_handle, Notes, Conserves, allocate-Allocates, Releases, free-Frees, free_uncached-Notes,
}
use mutty.Memory.Arena.System.{
  Use, allocates, frees, frees_elsewhere, frees_huge, take_at, System, step, run, Balanced,
  run-Balanced, OnSome-both,
}

always {ℓ} : {A : Type ℓ} (o : Option A) → OnSome (λ x. Unit {0}) o
always none = tt
always (some x) = tt

count-take_at :
    (p : Entry → Bool) (xs : List Entry) (i : ℕ)
    → OnSome (λ r. count p xs ≡ (if p r.0 then 1 else 0) + count p r.1) (take_at xs i)
unfolding take_at count
count-take_at p [] i = tt
count-take_at p (x ∷ xs) zero = refl
count-take_at p (x ∷ xs) (suc i) =
    OnSome-bind (λ (r : Entry × List Entry). count p xs ≡ (if p r.0 then 1 else 0) + count p r.1)
      (λ (r : Entry × List Entry). count p (x ∷ xs) ≡ (if p r.0 then 1 else 0) + count p r.1)
      (take_at xs i) _ (count-take_at p xs i) (λ r e. omega (arith, e))

module _ (a : ChunkCalls) (b : SubpageCalls a) (lists : ℕ → ChunkList) (s : SizeClasses) (h : ℕ)
    (l : Logs a b h) where
  -- What was given out went back, is in the thread's cache or is with a buffer.
  abbrev pub Accounted : System a b lists s → Type 0
  Accounted y =
      l.given (y.arena).chunk_lists.shared
      ≡ l.back (y.arena).chunk_lists.shared
        + held (of_handle a b lists s h l) y.cache
        + count (of_handle a b lists s h l) y.live

  unpooled-Accounted :
      (y : System a b lists s) (size : ℕ) (huge : List ℕ)
      → Accounted y
      → Accounted (record y { arena = free_unpooled a b lists s y.arena size; huge = huge })
  unfolding free_unpooled
  unpooled-Accounted y size huge e = e

  step-Accounted :
      (y : System a b lists s) (u : Use) → Accounted y → OnSome Accounted (step a b lists s y u)
  unfolding step
  step-Accounted y (allocates req_capacity) e =
      OnSome-bind (λ r. Conserves a b lists s h l y.arena y.cache r.0 r.1 r.2) Accounted
        (allocate a b lists s y.arena y.cache req_capacity) _
        (allocate-Allocates a b lists s h l y.arena y.cache req_capacity)
        (λ r d. omega (
          arith,
          e,
          d.conserved,
          count-append (of_handle a b lists s h l) y.live (pooled_in a b lists s r.2),
        ))
  step-Accounted y (frees i) e =
      let p = of_handle a b lists s h l in
      OnSome-bind (λ r. count p y.live ≡ (if p r.0 then 1 else 0) + count p r.1) Accounted
        (take_at y.live i) _ (count-take_at p y.live i)
        (λ r n.
          OnSome-bind
            (λ (q : Arena a b lists s × ThreadCache).
              Releases a b lists s h l y.arena y.cache r.0 q.0 q.1)
            Accounted (free a b lists s y.arena y.cache r.0) _
            (free-Frees a b lists s h l y.arena y.cache r.0)
            (λ q d. omega (arith, e, n, d.gives, d.takes)))
  step-Accounted y (frees_elsewhere i) e =
      let p = of_handle a b lists s h l in
      OnSome-bind (λ r. count p y.live ≡ (if p r.0 then 1 else 0) + count p r.1) Accounted
        (take_at y.live i) _ (count-take_at p y.live i)
        (λ r n.
          OnSome-bind (λ x. Notes a b lists s h l y.arena x 0 (one h (r.0).handle)) Accounted
            (free_uncached a b lists s y.arena r.0) _
            (free_uncached-Notes a b lists s h l y.arena r.0)
            (λ x d. omega (arith, e, n, d.gives, d.takes)))
  step-Accounted y (frees_huge i) e =
      OnSome-bind (λ r. Unit {0}) Accounted (take_at y.huge i) _ (always (take_at y.huge i))
        (λ r n. unpooled-Accounted y r.0 r.1 e)

  run-Accounted :
      (us : List Use) (y : System a b lists s)
      → Accounted y
      → OnSome Accounted (run a b lists s y us)
  unfolding run
  run-Accounted [] y e = e
  run-Accounted (u ∷ us) y e =
      OnSome-bind Accounted Accounted (step a b lists s y u) _ (step-Accounted y u e)
        (run-Accounted us)

module _ (a : ChunkCalls) (b : SubpageCalls a) where
  -- The handles given out and given back, the last ones first.
  abbrev Log : Type 0
  Log = List ℕ × List ℕ

  abbrev pub noted : Log → Option a.Buf → Log
  noted log none = log
  noted (out, back) (some buf) = (b.handle buf ∷ out, back)

  abbrev pub logged_calls : ChunkCalls
  logged_calls = record {
    Chunk = a.Chunk;
    Shared = a.Shared × Log;
    Buf = a.Buf;
    new_chunk = a.new_chunk;
    allocate = λ c shared req_capacity size_idx. do
      (c', shared', answer) ← a.allocate c shared.0 req_capacity size_idx
      some (c', (shared', noted shared.1 answer), answer);
    free = λ c shared handle. do
      (c', shared') ← a.free c shared.0 handle
      some (c', (shared', ((shared.1).0, handle ∷ (shared.1).1)));
    free_bytes = a.free_bytes;
    usage = a.usage;
    size_idx_to_size = a.size_idx_to_size;
  }

  abbrev pub logged_subpages : SubpageCalls logged_calls
  logged_subpages = record {
    first_subpage = λ shared size_idx. b.first_subpage shared.0 size_idx;
    serve = λ c shared size_idx req_capacity. do
      (c', shared', buf) ← b.serve c shared.0 size_idx req_capacity
      some (c', (shared', noted shared.1 (some buf)), buf);
    handle = b.handle;
    max_length = b.max_length;
  }

  noted-tally :
      (h : ℕ) (log : Log) (answer : Option a.Buf)
      → (tally (one h) (noted log answer).0
          ≡ tally (one h) log.0 + (elim answer [ none ↦ 0 | some buf ↦ one h (b.handle buf) ]))
        × (tally (one h) (noted log answer).1 ≡ tally (one h) log.1)
  noted-tally h log none = (omega arith, refl)
  noted-tally h log (some buf) = (omega arith, refl)

  -- The log of the handle `h`.
  abbrev log_of : (h : ℕ) → Logs logged_calls logged_subpages h
  log_of h = record {
    given = λ shared. tally (one h) (shared.1).0;
    back = λ shared. tally (one h) (shared.1).1;
    answer = λ answer. elim answer [ none ↦ 0 | some buf ↦ one h (b.handle buf) ];
    answer_none = refl;
    answer_some = λ buf. refl;
    allocates = λ c shared req_capacity size_idx.
        OnSome-bind (λ r. Unit {0}) _ (a.allocate c shared.0 req_capacity size_idx) _
          (always (a.allocate c shared.0 req_capacity size_idx))
          (λ r k. noted-tally h shared.1 r.2);
    frees = λ c shared handle.
        OnSome-bind (λ r. Unit {0}) _ (a.free c shared.0 handle) _
          (always (a.free c shared.0 handle)) (λ r k. (refl, omega arith));
    serves = λ c shared size_idx req_capacity.
        OnSome-bind (λ r. Unit {0}) _ (b.serve c shared.0 size_idx req_capacity) _
          (always (b.serve c shared.0 size_idx req_capacity))
          (λ r k. noted-tally h shared.1 (some r.2));
  }

  -- The handles that were given out, those given back, and those that wait or are with a buffer.
  abbrev pub Returned :
      (lists : ℕ → ChunkList) (s : SizeClasses)
      → System logged_calls logged_subpages lists s
      → Type 0
  Returned lists s y =
      (h : ℕ)
      → tally (one h) (((y.arena).chunk_lists.shared).1).0
        ≡ tally (one h) (((y.arena).chunk_lists.shared).1).1
          + held (λ e. e.handle == h) y.cache
          + count (λ e. e.handle == h) y.live

OnSome-all {ℓ} :
    {A : Type ℓ} (P : ℕ → A → Type 0) (o : Option A)
    → ((h : ℕ) → OnSome (P h) o)
    → OnSome (λ x. (h : ℕ) → P h x) o
OnSome-all P none k = tt
OnSome-all P (some x) k = k

-- Whatever the threads allocate and release, as long as no assertion fails and from a system where
-- this holds, as in a fresh one: each handle was given out by chunks and subpages exactly as often as
-- it was given back to them, waits in the thread's cache and is with a pooled buffer that is out. The
-- counters, taken as exact sums, agree: the allocations less the releases are the buffers that are out
-- and the entries of the cache, and for huge buffers those that are out, whose bytes are the active
-- ones.
pub run-Returned :
    (a : ChunkCalls) (b : SubpageCalls a) (lists : ℕ → ChunkList) (s : SizeClasses) (us : List Use)
    (y : System (logged_calls a b) (logged_subpages a b) lists s)
    → Balanced (logged_calls a b) (logged_subpages a b) lists s y
    → Returned a b lists s y
    → OnSome
        (λ z. Balanced (logged_calls a b) (logged_subpages a b) lists s z × Returned a b lists s z)
        (run (logged_calls a b) (logged_subpages a b) lists s y us)
run-Returned a b lists s us y counters handles =
    OnSome-both _ _ (run (logged_calls a b) (logged_subpages a b) lists s y us)
      (run-Balanced (logged_calls a b) (logged_subpages a b) lists s us y counters)
      (OnSome-all _ (run (logged_calls a b) (logged_subpages a b) lists s y us) (λ h.
        run-Accounted (logged_calls a b) (logged_subpages a b) lists s h (log_of a b h) us y
          (handles h)))
