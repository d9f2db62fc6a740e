-- ===== src/Memory/PoolChunk/Collapse.antt =====
-- What `free` of buffer/PoolChunk.cpp promises of a run: the loops that collapse it with the free
-- runs beside it, and its way back into the queues.
use mutty.Common.{
  ℕ, zero, suc, ◌+◌, ◌-◌, ◌≤◌, ◌<◌, ◌≡◌, refl, sym, ap, ◌∙◌, subst, ◌≢◌, ◌⊎◌, inl, inr, ◌&&◌,
  Option, none, some, arith, ltb, leb, ◌==◌, Bool-cases, Option-cases, ==→eq, eq→==,
}
use mutty.Memory.Handle.{
  to_run_handle, calculate_run_offset, calculate_run_pages, run_handle_fields,
}
use mutty.Memory.RunQueue.{RunQueue}
use mutty.Memory.Sizes.{Sizes}
use mutty.Memory.PoolChunk.{
  PoolChunk, remove_avail_run, past_run, next_run, collapse, collapse_runs,
}
use mutty.Memory.PoolChunk.Runs.{Apart, IsValid, IsFree, Drops-IsValid, Drops-IsFree, Drops-keeps}
use mutty.Memory.PoolChunk.Updates.{remove-Drops}
use mutty.Memory.PoolChunk.Pages.{InRun, IsFreePage}

-- A run beside the other one, and the handle of both together.
pub record Joins (h run joined : ℕ) : Type 0 where
  pub beside :
      (calculate_run_offset joined ≡ calculate_run_offset run)
        × (calculate_run_offset run + calculate_run_pages run ≡ calculate_run_offset h)
      ⊎ (calculate_run_offset joined ≡ calculate_run_offset h)
        × (calculate_run_offset h + calculate_run_pages h ≡ calculate_run_offset run)
  pub pages : calculate_run_pages joined ≡ calculate_run_pages run + calculate_run_pages h

Joins-Apart :
    (h run joined k : ℕ)
    → Joins h run joined
    → 1 ≤ calculate_run_pages k
    → Apart h k
    → Apart run k
    → Apart joined k
Joins-Apart h run joined k j p a b = let side = j.beside in let size = j.pages in ground arith

Joins-InRun :
    (h run joined page : ℕ) → Joins h run joined → InRun page joined → InRun page h ⊎ InRun page run
Joins-InRun h run joined page j i =
    elim (Bool-cases (
      leb (calculate_run_offset h) page
      && ltb page (calculate_run_offset h + calculate_run_pages h))) [
        | inl e ↦ inl (ground arith, ground arith)
        | inr e ↦ let side = j.beside in let size = j.pages in inr (ground arith, ground arith)
      ]

InRun-Joins :
    (h run joined page : ℕ) → Joins h run joined → InRun page h ⊎ InRun page run → InRun page joined
InRun-Joins h run joined page j (inl i) =
    let side = j.beside in let size = j.pages in (ground arith, ground arith)
InRun-Joins h run joined page j (inr i) =
    let side = j.beside in let size = j.pages in (ground arith, ground arith)

module _ (r : RunQueue) (a : Sizes) where
  open a use {chunk_pages}

  -- A run that is not in the queues, apart from those that are.
  pub record IsLoose (c : PoolChunk r a) (h : ℕ) : Type 0 where
    pub valid : IsValid r a c
    pub some_pages : 1 ≤ calculate_run_pages h
    pub inside : calculate_run_offset h + calculate_run_pages h ≤ chunk_pages
    pub apart : (k : ℕ) → IsFree r a c k → Apart h k

  -- The neighbour that a collapsing loop finds is free, and joins the run.
  IsNeighbour : (PoolChunk r a → ℕ → Option (ℕ × ℕ)) → Type 0
  IsNeighbour neighbour =
      (c : PoolChunk r a) (h run joined : ℕ)
      → IsLoose c h
      → neighbour c h ≡ some (run, joined)
      → IsFree r a c run × Joins h run joined

  joined_fields :
      (offset pages : ℕ)
      → offset + pages ≤ chunk_pages
      → 1 ≤ pages
      → (calculate_run_offset (to_run_handle offset pages 0) ≡ offset)
        × (calculate_run_pages (to_run_handle offset pages 0) ≡ pages)
  joined_fields offset pages h p =
      let (o, s, u, b) =
        run_handle_fields offset pages 0 (omega (arith, a.small_chunk, h, p))
          (omega (arith, a.small_chunk, h)) (omega arith) in
      (o, s)

  past_run-inv :
      (c : PoolChunk r a) (h run joined : ℕ)
      → past_run r a c h ≡ some (run, joined)
      → (0 < calculate_run_offset h)
        × (c.runs_avail_map (calculate_run_offset h - 1) ≡ some run)
        × (calculate_run_offset run + calculate_run_pages run ≡ calculate_run_offset h)
        × (joined
            ≡ to_run_handle
                (calculate_run_offset run)
                (calculate_run_pages run + calculate_run_pages h)
                0)
  unfolding past_run
  past_run-inv c h run joined e = ground arith

  past_run-IsNeighbour : IsNeighbour (past_run r a)
  unfolding IsNeighbour
  past_run-IsNeighbour c h run joined l e =
      let (pos, found, side, both) = past_run-inv c h run joined e in
      let (free, end) = l.valid.mapped (calculate_run_offset h - 1) run found in
      let (o, p) =
        joined_fields (calculate_run_offset run) (calculate_run_pages run + calculate_run_pages h)
          (omega (arith, side, l.inside)) (omega (arith, l.some_pages)) in
      (
        free,
        record {
          beside = inl (ap calculate_run_offset both ∙ o, side);
          pages = ap calculate_run_pages both ∙ p;
        },
      )

  next_run-inv :
      (c : PoolChunk r a) (h run joined : ℕ)
      → next_run r a c h ≡ some (run, joined)
      → (c.runs_avail_map (calculate_run_offset h + calculate_run_pages h) ≡ some run)
        × (joined
            ≡ to_run_handle
                (calculate_run_offset h)
                (calculate_run_pages h + calculate_run_pages run)
                0)
  unfolding next_run
  next_run-inv c h run joined e = ground arith

  -- A key just behind the run is the first page of the run that has it.
  next_run-IsNeighbour : IsNeighbour (next_run r a)
  unfolding IsNeighbour
  next_run-IsNeighbour c h run joined l e =
      let (found, both) = next_run-inv c h run joined e in
      let (free, end) = l.valid.mapped (calculate_run_offset h + calculate_run_pages h) run found in
      let away = l.apart run free in
      let is_run = l.valid.runs run free in
      let some_pages = is_run.some_pages in
      let inside = is_run.inside in
      let own_pages = l.some_pages in
      let side : calculate_run_offset h + calculate_run_pages h ≡ calculate_run_offset run =
        ground arith in
      let (o, p) =
        joined_fields (calculate_run_offset h) (calculate_run_pages h + calculate_run_pages run)
          (omega (arith, side, inside)) (omega (arith, own_pages)) in
      (
        free,
        record {
          beside = inr (ap calculate_run_offset both ∙ o, side);
          pages = omega (arith, ap calculate_run_pages both, p);
        },
      )

  -- The pages that are free, with those of the run on its way back.
  abbrev pub IsReturned : PoolChunk r a → ℕ → ℕ → Type 0
  IsReturned c h page = IsFreePage r a c page ⊎ InRun page h

  -- A loop may move pages between the queues and the run, and no more.
  pub record Moves (c : PoolChunk r a) (h : ℕ) (c' : PoolChunk r a) (h' : ℕ) : Type 0 where
    pub loose : IsLoose c' h'
    pub kept : (page : ℕ) → IsReturned c h page → IsReturned c' h' page
    pub old : (page : ℕ) → IsReturned c' h' page → IsReturned c h page
    pub bytes : c'.free_bytes ≡ c.free_bytes

  Moves-refl : (c : PoolChunk r a) (h : ℕ) → IsLoose c h → Moves c h c h
  Moves-refl c h l = record { loose = l; kept = λ p i. i; old = λ p i. i; bytes = refl }

  Moves-trans :
      (c c1 c2 : PoolChunk r a) (h h1 h2 : ℕ)
      → Moves c h c1 h1
      → Moves c1 h1 c2 h2
      → Moves c h c2 h2
  Moves-trans c c1 c2 h h1 h2 m n = record {
    loose = n.loose;
    kept = λ p i. n.kept p (m.kept p i);
    old = λ p i. m.old p (n.old p i);
    bytes = n.bytes ∙ m.bytes;
  }

  bytes-remove : (c : PoolChunk r a) (h : ℕ) → (remove_avail_run r a c h).free_bytes ≡ c.free_bytes
  unfolding remove_avail_run
  bytes-remove c h = refl

  -- One round takes the neighbour out of the queues, into the run.
  round-Moves :
      (c : PoolChunk r a) (h run joined : ℕ)
      → IsLoose c h
      → IsFree r a c run
      → Joins h run joined
      → Moves c h (remove_avail_run r a c run) joined
  round-Moves c h run joined l free j =
      let c' = remove_avail_run r a c run in
      let is_run = l.valid.runs run free in
      let d = remove-Drops r a c run l.valid.queues is_run.some_pages free in
      let side = j.beside in
      record {
        loose = record {
          valid = Drops-IsValid r a c c' run d l.valid;
          some_pages = omega (arith, j.pages, l.some_pages);
          inside =
              let a1 = l.inside in let a2 = is_run.inside in let size = j.pages in ground arith;
          apart = λ k f.
              let (old, n) = Drops-IsFree r a c c' run d l.valid k f in
              Joins-Apart h run joined k j (l.valid.runs k old).some_pages (l.apart k old)
                (l.valid.apart run k free old (λ e. n (sym e)));
        };
        kept = λ page i. elim i [
          | inr in_h ↦ inr (InRun-Joins h run joined page j (inl in_h))
          | inl (k, f, in_k) ↦ elim (Bool-cases (k == run)) [
            | inl e ↦
                inr
                  (InRun-Joins h run joined page j (inr (subst (InRun page) (==→eq k run e) in_k)))
            | inr e ↦
                let n : k ≢ run = λ s. absurd (ground (arith, eq→== k run s, e)) in
                inl (k, Drops-keeps r a c c' run d k f n, in_k)
          ]
        ];
        old = λ page i. elim i [
          | inl (k, f, in_k) ↦ inl (k, (Drops-IsFree r a c c' run d l.valid k f).0, in_k)
          | inr in_joined ↦ elim (Joins-InRun h run joined page j in_joined) [
            | inl in_h ↦ inr in_h
            | inr in_run ↦ inl (run, free, in_run)
          ]
        ];
        bytes = bytes-remove c run;
      }

  collapse_stops :
      (fuel : ℕ) (neighbour : PoolChunk r a → ℕ → Option (ℕ × ℕ)) (c : PoolChunk r a) (h : ℕ)
      → neighbour c h ≡ none
      → collapse r a (suc fuel) neighbour c h ≡ some (c, h)
  unfolding collapse
  collapse_stops fuel neighbour c h e = rw (e, collapse) refl

  collapse_goes_on :
      (fuel : ℕ) (neighbour : PoolChunk r a → ℕ → Option (ℕ × ℕ)) (c : PoolChunk r a)
      (h run joined : ℕ)
      → neighbour c h ≡ some (run, joined)
      → collapse r a (suc fuel) neighbour c h
        ≡ collapse r a fuel neighbour (remove_avail_run r a c run) joined
  unfolding collapse
  collapse_goes_on fuel neighbour c h run joined e = rw (e, collapse) refl

  -- A collapsing loop ends, and moves pages only.
  collapse-Moves :
      (fuel : ℕ) (neighbour : PoolChunk r a → ℕ → Option (ℕ × ℕ)) (c : PoolChunk r a) (h : ℕ)
      → IsNeighbour neighbour
      → IsLoose c h
      → chunk_pages < fuel + calculate_run_pages h
      → (c' : PoolChunk r a) × (h' : ℕ) × (collapse r a fuel neighbour c h ≡ some (c', h'))
        × Moves c h c' h'
  unfolding IsNeighbour
  collapse-Moves zero neighbour c h n l f = absurd (omega (arith, l.inside))
  collapse-Moves (suc fuel) neighbour c h n l f = elim (Option-cases (neighbour c h)) [
    | inl e ↦ (c, h, collapse_stops fuel neighbour c h e, Moves-refl c h l)
    | inr ((run, joined), e) ↦
        let (free, j) = n c h run joined l e in
        let m = round-Moves c h run joined l free j in
        let c1 = remove_avail_run r a c run in
        let more = (l.valid.runs run free).some_pages in
        let (c', h', ended, m') =
          collapse-Moves fuel neighbour c1 joined n m.loose (omega (arith, j.pages, more)) in
        (
          c',
          h',
          collapse_goes_on fuel neighbour c h run joined e ∙ ended,
          Moves-trans c c1 c' h joined h' m m',
        )
  ]

  collapse_runs_lem :
      (c c1 : PoolChunk r a) (h h1 : ℕ)
      → collapse r a (chunk_pages + 1) (past_run r a) c h ≡ some (c1, h1)
      → collapse_runs r a c h ≡ collapse r a (chunk_pages + 1) (next_run r a) c1 h1
  unfolding collapse_runs
  collapse_runs_lem c c1 h h1 e = rw (e, collapse_runs) refl

  pub collapse_runs-Moves :
      (c : PoolChunk r a) (h : ℕ)
      → IsLoose c h
      → (c' : PoolChunk r a) × (h' : ℕ) × (collapse_runs r a c h ≡ some (c', h')) × Moves c h c' h'
  collapse_runs-Moves c h l =
      let (c1, h1, past, m) =
        collapse-Moves (chunk_pages + 1) (past_run r a) c h past_run-IsNeighbour l (omega arith) in
      let (c2, h2, next, m') =
        collapse-Moves (chunk_pages + 1) (next_run r a) c1 h1 next_run-IsNeighbour m.loose
          (omega arith) in
      (c2, h2, collapse_runs_lem c c1 h h1 past ∙ next, Moves-trans c c1 c2 h h1 h2 m m')
