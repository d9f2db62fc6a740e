-- ===== src/Memory/PoolChunk/Release.antt =====
-- What `free` of buffer/PoolChunk.cpp promises of a run.
use mutty.Common.{ℕ, ◌+◌, ◌*◌, ◌≡◌, refl, ap, ◌∙◌, subst, inl, inr, false, some, arith}
use mutty.Memory.Handle.{
  calculate_run_offset, calculate_run_pages, is_used, is_subpage, clear_used, clear_subpage,
  clear_used_fields, clear_subpage_fields,
}
use mutty.Memory.RunQueue.{RunQueue}
use mutty.Memory.Sizes.{Sizes}
use mutty.Memory.PoolChunk.{PoolChunk, page_size, insert_avail_run, collapse_runs, free_run}
use mutty.Memory.PoolChunk.Runs.{
  IsRun, IsValid, Adds, Adds-IsValid, Adds-IsFree, Adds-keeps, Adds-holds,
}
use mutty.Memory.PoolChunk.Updates.{insert-Adds}
use mutty.Memory.PoolChunk.Pages.{InRun, IsFreePage}
use mutty.Memory.PoolChunk.Collapse.{IsLoose, IsReturned, collapse_runs-Moves}

module _ (r : RunQueue) (a : Sizes) where
  open a use {chunk_pages}

  -- The pages of a run are free again, and no others.
  pub record Returns (c c' : PoolChunk r a) (h : ℕ) : Type 0 where
    pub valid : IsValid r a c'
    pub kept : (page : ℕ) → IsReturned r a c h page → IsFreePage r a c' page
    pub old : (page : ℕ) → IsFreePage r a c' page → IsReturned r a c h page
    pub bytes : c'.free_bytes ≡ c.free_bytes + calculate_run_pages h * page_size r a

  final_fields :
      (h : ℕ)
      → let f = clear_subpage (clear_used h) in
        (calculate_run_offset f ≡ calculate_run_offset h)
        × (calculate_run_pages f ≡ calculate_run_pages h)
        × (is_used f ≡ false)
        × (is_subpage f ≡ false)
  final_fields h =
      let (o, p, u) = clear_used_fields h in
      let (o', p', u', s) = clear_subpage_fields (clear_used h) in (o' ∙ o, p' ∙ p, u' ∙ u, s)

  abbrev put_back : PoolChunk r a → ℕ → ℕ → PoolChunk r a
  put_back c run pages =
      let f = clear_subpage (clear_used run) in
      let c' = insert_avail_run r a c (calculate_run_offset f) (calculate_run_pages f) f in
      record c' { free_bytes = c'.free_bytes + pages * page_size r a }

  free_run_lem :
      (c c' : PoolChunk r a) (h run : ℕ)
      → collapse_runs r a c h ≡ some (c', run)
      → free_run r a c h ≡ some (put_back c' run (calculate_run_pages h))
  unfolding free_run
  free_run_lem c c' h run e = rw (e, free_run) refl

  put_back-Adds :
      (c : PoolChunk r a) (run pages : ℕ)
      → IsValid r a c
      → Adds r a c (put_back c run pages) (clear_subpage (clear_used run))
  put_back-Adds c run pages v =
      let f = clear_subpage (clear_used run) in
      let d =
        insert-Adds r a c f (calculate_run_offset f) (calculate_run_pages f) v.queues refl refl in
      record { queues = d.queues; counts = d.counts; keys = d.keys }

  bytes-insert :
      (c : PoolChunk r a) (run_offset pages h : ℕ)
      → (insert_avail_run r a c run_offset pages h).free_bytes ≡ c.free_bytes
  unfolding insert_avail_run
  bytes-insert c run_offset pages h = refl

  -- `free` of a run that is apart from the free runs of a valid chunk ends and fails no assertion: the
  -- chunk stays valid, the pages free after it are those free before and the run's, whatever runs
  -- were collapsed, and the run's bytes are counted.
  pub free_run-Returns :
      (c : PoolChunk r a) (h : ℕ)
      → IsLoose r a c h
      → (c' : PoolChunk r a) × (free_run r a c h ≡ some c') × Returns c c' h
  free_run-Returns c h l =
      let (c1, run, ended, m) = collapse_runs-Moves r a c h l in
      let f = clear_subpage (clear_used run) in
      let (o, p, u, sub) = final_fields run in
      let loose = m.loose in
      let c' = put_back c1 run (calculate_run_pages h) in
      let d = put_back-Adds c1 run (calculate_run_pages h) loose.valid in
      let is_run : IsRun chunk_pages f = record {
        some_pages = omega (arith, p, loose.some_pages);
        inside = omega (arith, o, p, loose.inside);
        unused = u;
        plain = sub;
      } in
      (
        c',
        free_run_lem c c1 h run ended,
        record {
          valid =
              Adds-IsValid r a c1 c' f d loose.valid is_run
                (λ k g. let away = loose.apart k g in ground (arith, o, p, away));
          kept = λ page i. elim (m.kept page i) [
            | inl (k, g, in_k) ↦ (k, Adds-keeps r a c1 c' f d k g, in_k)
            | inr in_run ↦ (f, Adds-holds r a c1 c' f d, omega (arith, o, p, in_run))
          ];
          old = λ page (k, g, in_k). m.old page (elim (Adds-IsFree r a c1 c' f d k g) [
            | inl g' ↦ inl (k, g', in_k)
            | inr e ↦
                let in_f : InRun page f = subst (InRun page) e in_k in
                inr (omega (arith, o, p, in_f))
          ]);
          bytes =
              ap (λ (t : ℕ). t + calculate_run_pages h * page_size r a)
                (bytes-insert c1 (calculate_run_offset f) (calculate_run_pages f) f ∙ m.bytes);
        },
      )
