-- ===== src/Memory/PoolChunk/RoundTrip.antt =====
-- A run taken from a chunk (buffer/PoolChunk.cpp) and given back.
use mutty.Common.{
  ℕ, ◌-◌, ◌*◌, ◌/◌, ◌≤◌, ◌≡◌, sym, ap, ◌∙◌, subst, inl, inr, false, Option, some, arith, eq_of_some,
  none-ne_some,
}
use mutty.Memory.Handle.{calculate_run_pages}
use mutty.Memory.RunQueue.{RunQueue}
use mutty.Memory.Sizes.{Sizes}
use mutty.Memory.PoolChunk.{PoolChunk, chunk_size, page_size, allocate_run, free_run}
use mutty.Memory.PoolChunk.Runs.{IsValid}
use mutty.Memory.PoolChunk.Pages.{IsFreePage, Takes}
use mutty.Memory.PoolChunk.Allocation.{allocate_run-Takes}
use mutty.Memory.PoolChunk.Collapse.{IsLoose}
use mutty.Memory.PoolChunk.Release.{Returns, free_run-Returns}

module _ (r : RunQueue) (a : Sizes) where
  open a use {chunk_pages, n_psizes}

  Takes-IsLoose :
      (c c' : PoolChunk r a) (need h : ℕ) → 1 ≤ need → Takes r a c c' need h → IsLoose r a c' h
  Takes-IsLoose c c' need h low t = record {
    valid = t.valid;
    some_pages = omega (arith, t.pages, low);
    inside = t.inside;
    apart = t.apart;
  }

  -- Both chunks have the same free pages.
  abbrev pub SamePages : PoolChunk r a → PoolChunk r a → Type 0
  SamePages c d =
      (page : ℕ)
      → (IsFreePage r a c page → IsFreePage r a d page)
        × (IsFreePage r a d page → IsFreePage r a c page)

  Takes-Returns :
      (c c' d : PoolChunk r a) (need h : ℕ)
      → Takes r a c c' need h
      → Returns r a c' d h
      → SamePages c d
  Takes-Returns c c' d need h t s page = (
    λ f. s.kept page (elim (t.kept page f) [ inl g ↦ inl g | inr g ↦ inr g ]),
    λ f. elim (s.old page f) [ inl g ↦ t.old page g | inr g ↦ t.was_free page g ],
  )

  allocated-Takes :
      (c c' : PoolChunk r a) (run_size h : ℕ)
      → IsValid r a c
      → 1 ≤ run_size / page_size r a
      → run_size / page_size r a ≤ chunk_pages
      → (c.free_bytes ≡ chunk_size r a → r.is_empty (c.runs_avail (n_psizes - 1)) ≡ false)
      → allocate_run r a c run_size ≡ some (c', some h)
      → Takes r a c c' (run_size / page_size r a) h
        × (c'.free_bytes ≡ c.free_bytes - run_size / page_size r a * page_size r a)
  allocated-Takes c c' run_size h v low high top e =
      elim (allocate_run-Takes r a c run_size v low high top) [
        | inr (wrong, all) ↦
            absurd (
              none-ne_some
                (ap (λ (x : PoolChunk r a × Option ℕ). x.1) (eq_of_some (sym wrong ∙ e))))
        | inl (c1, h1, e1, t, bytes) ↦
            let pair = eq_of_some (sym e1 ∙ e) in
            let one : c1 ≡ c' = ap (λ (x : PoolChunk r a × Option ℕ). x.0) pair in
            let two : h1 ≡ h = eq_of_some (ap (λ (x : PoolChunk r a × Option ℕ). x.1) pair) in
            subst
              (λ (x : PoolChunk r a × ℕ).
                Takes r a c x.0 (run_size / page_size r a) x.1
                × (x.0.free_bytes ≡ c.free_bytes - run_size / page_size r a * page_size r a))
              (λ i. (one i, two i)) (t, bytes)
      ]

  pub allocated-IsLoose :
      (c c' : PoolChunk r a) (run_size h : ℕ)
      → IsValid r a c
      → 1 ≤ run_size / page_size r a
      → run_size / page_size r a ≤ chunk_pages
      → (c.free_bytes ≡ chunk_size r a → r.is_empty (c.runs_avail (n_psizes - 1)) ≡ false)
      → allocate_run r a c run_size ≡ some (c', some h)
      → IsLoose r a c' h
  allocated-IsLoose c c' run_size h v low high top e =
      Takes-IsLoose c c' (run_size / page_size r a) h low
        (allocated-Takes c c' run_size h v low high top e).0

  -- A run that `allocateRun` has given out is given back by `free` without a failed assertion: the
  -- chunk is valid, and its free pages and its free bytes are those before the allocation.
  pub allocate_run-free_run :
      (c c' : PoolChunk r a) (run_size h : ℕ)
      → IsValid r a c
      → 1 ≤ run_size / page_size r a
      → run_size / page_size r a ≤ chunk_pages
      → (c.free_bytes ≡ chunk_size r a → r.is_empty (c.runs_avail (n_psizes - 1)) ≡ false)
      → run_size / page_size r a * page_size r a ≤ c.free_bytes
      → allocate_run r a c run_size ≡ some (c', some h)
      → (d : PoolChunk r a) × (free_run r a c' h ≡ some d)
        × IsValid r a d
        × SamePages c d
        × (d.free_bytes ≡ c.free_bytes)
  allocate_run-free_run c c' run_size h v low high top enough e =
      let need = run_size / page_size r a in
      let (t, bytes) = allocated-Takes c c' run_size h v low high top e in
      let (d, freed, s) = free_run-Returns r a c' h (Takes-IsLoose c c' need h low t) in
      let size : calculate_run_pages h * page_size r a ≡ need * page_size r a =
        ap (λ (n : ℕ). n * page_size r a) t.pages in
      (
        d,
        freed,
        s.valid,
        Takes-Returns c c' d need h t s,
        omega (arith, s.bytes, bytes, enough, size),
      )
