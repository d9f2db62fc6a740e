-- ===== src/Memory/PoolChunk/Fresh.antt =====
-- The constructor of a pooled chunk (buffer/PoolChunk.cpp).
use mutty.Common.{ℕ, ◌*◌, ◌^◌, ◌≤◌, ◌<◌, ◌≡◌, subst, false, none, arith, none-ne_some}
use mutty.Memory.Handle.{
  to_run_handle, calculate_run_offset, calculate_run_pages, is_used, is_subpage, size_shift,
  run_handle_fields,
}
use mutty.Memory.RunQueue.{RunQueue}
use mutty.Memory.Sizes.{Sizes}
use mutty.Memory.PoolChunk.{PoolChunk, chunk_size, insert_avail_run, new_chunk}
use mutty.Memory.PoolChunk.Runs.{IsRun, IsValid, floor_of, Adds-holds, Adds-IsValid}
use mutty.Memory.PoolChunk.Updates.{insert-Adds}
use mutty.Memory.PoolChunk.Pages.{IsFreePage}

module _ (r : RunQueue) (a : Sizes) where
  open a use {chunk_pages}

  abbrev no_runs : PoolChunk r a
  no_runs = record {
    runs_avail = λ i. r.new_queue;
    runs_avail_map = λ k. none;
    subpages = λ i. none;
    free_bytes = chunk_size r a;
  }

  none_held : (i h : ℕ) → 0 < r.holds (no_runs.runs_avail i) h → ⊥
  none_held i h f = omega (arith, f, (r.new_queue_lem).1 h)

  no_runs-IsValid : IsValid r a no_runs
  no_runs-IsValid = record {
    queues = λ i. (r.new_queue_lem).0;
    single = λ i h. omega (arith, (r.new_queue_lem).1 h);
    placed = λ i h f. absurd (none_held i h f);
    runs = λ h f. absurd (none_held (floor_of r a h) h f);
    apart = λ h k f g n. absurd (none_held (floor_of r a h) h f);
    mapped = λ key h e. absurd (none-ne_some e);
  }

  -- The constructor yields a valid chunk in which every page is free.
  pub new_chunk-IsValid :
      1 ≤ chunk_pages
      → IsValid r a (new_chunk r a)
        × ((page : ℕ) → page < chunk_pages → IsFreePage r a (new_chunk r a) page)
  unfolding new_chunk to_run_handle
  new_chunk-IsValid low =
      let h = chunk_pages * 2 ^ size_shift in
      let (o, p, u, b) =
        run_handle_fields 0 chunk_pages 0 (omega arith) (omega (arith, a.small_chunk))
          (omega arith) in
      let same : to_run_handle 0 chunk_pages 0 ≡ h = omega arith in
      let o' : calculate_run_offset h ≡ 0 = subst (λ (t : ℕ). calculate_run_offset t ≡ 0) same o in
      let p' : calculate_run_pages h ≡ chunk_pages =
        subst (λ (t : ℕ). calculate_run_pages t ≡ chunk_pages) same p in
      let u' : is_used h ≡ false = subst (λ (t : ℕ). is_used t ≡ false) same u in
      let b' : is_subpage h ≡ false = subst (λ (t : ℕ). is_subpage t ≡ false) same b in
      let d = insert-Adds r a no_runs h 0 chunk_pages (no_runs-IsValid).queues o' p' in
      let is_run : IsRun chunk_pages h = record {
        some_pages = omega (arith, p', low);
        inside = omega (arith, o', p');
        unused = u';
        plain = b';
      } in
      let c = insert_avail_run r a no_runs 0 chunk_pages h in
      (
        Adds-IsValid r a no_runs c h d no_runs-IsValid is_run
            (λ k f. absurd (none_held (floor_of r a k) k f)),
        λ page i. (h, Adds-holds r a no_runs c h d, omega (arith, o', p', i)),
      )
