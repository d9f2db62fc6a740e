-- ===== src/Memory/PoolChunk/Splitting.antt =====
-- What `splitLargeRun` of buffer/PoolChunk.cpp promises of the run taken from the queues.
use mutty.Common.{
  ℕ, ◌+◌, ◌-◌, ◌≤◌, ◌<◌, ◌≡◌, refl, sym, ap, ◌∙◌, subst, ◌≢◌, inl, inr, true, false, some, arith,
  ltb, ◌==◌, Bool-cases, ltb→lt, lt→ltb, ltb_false→le, le→ltb_false, ==→eq, eq→==, ne→==_false,
}
use mutty.Memory.Handle.{
  to_run_handle, calculate_run_offset, calculate_run_pages, is_used, is_subpage, mark_used,
  run_handle_fields, mark_used_fields,
}
use mutty.Memory.RunQueue.{RunQueue}
use mutty.Memory.Sizes.{Sizes}
use mutty.Memory.PoolChunk.{PoolChunk, insert_avail_run, split_large_run}
use mutty.Memory.PoolChunk.Runs.{
  Apart, IsRun, IsValid, IsFree, Drops, Adds-IsValid, Adds-IsFree, Adds-keeps, Adds-holds,
  Drops-IsValid, Drops-IsFree, Drops-keeps,
}
use mutty.Memory.PoolChunk.Updates.{insert-Adds}
use mutty.Memory.PoolChunk.Pages.{InRun, Takes}

module _ (r : RunQueue) (a : Sizes) where
  open a use {chunk_pages}

  module _ (c c1 : PoolChunk r a) (h need : ℕ) (v : IsValid r a c) (free : IsFree r a c h)
      (d : Drops r a c c1 h) (low : 1 ≤ need) (high : need ≤ calculate_run_pages h) where
    abbrev offset : ℕ
    offset = calculate_run_offset h

    abbrev total : ℕ
    total = calculate_run_pages h

    run : IsRun chunk_pages h
    run = v.runs h free

    -- The others that are free are apart from the run polled.
    away : (k : ℕ) → IsFree r a c1 k → Apart h k
    away k f =
        let (old, n) = Drops-IsFree r a c c1 h d v k f in v.apart h k free old (λ e. n (sym e))

    abbrev rest : ℕ
    rest = to_run_handle (offset + need) (total - need) 0

    abbrev part : ℕ
    part = to_run_handle offset need 1

    rest_offset : calculate_run_offset rest ≡ offset + need
    rest_offset =
        (run_handle_fields (offset + need) (total - need) 0
          (omega (arith, run.inside, high, a.small_chunk))
          (omega (arith, run.inside, a.small_chunk)) (omega arith)).0

    rest_pages : calculate_run_pages rest ≡ total - need
    rest_pages =
        (run_handle_fields (offset + need) (total - need) 0
          (omega (arith, run.inside, high, a.small_chunk))
          (omega (arith, run.inside, a.small_chunk)) (omega arith)).1

    rest_unused : is_used rest ≡ false
    rest_unused =
        (run_handle_fields (offset + need) (total - need) 0
          (omega (arith, run.inside, high, a.small_chunk))
          (omega (arith, run.inside, a.small_chunk)) (omega arith)).2

    rest_plain : is_subpage rest ≡ false
    rest_plain =
        (run_handle_fields (offset + need) (total - need) 0
          (omega (arith, run.inside, high, a.small_chunk))
          (omega (arith, run.inside, a.small_chunk)) (omega arith)).3

    part_fields :
        (calculate_run_offset part ≡ offset)
        × (calculate_run_pages part ≡ need)
        × (is_used part ≡ true)
        × (is_subpage part ≡ false)
    part_fields =
        let (o, p, u, s) =
          run_handle_fields offset need 1 (omega (arith, run.inside, high, low, a.small_chunk))
            (omega (arith, run.inside, high, a.small_chunk)) (omega arith) in
        (o, p, u, s)

    split_part :
        need < total
        → (c' : PoolChunk r a) × (h' : ℕ) × (split_large_run r a c1 h need ≡ some (c', h'))
          × (c'.free_bytes ≡ c1.free_bytes)
          × Takes r a c c' need h'
    unfolding split_large_run insert_avail_run
    split_part less =
        let c' = insert_avail_run r a c1 (offset + need) (total - need) rest in
        let (o, p, u, sub) = part_fields in
        let ro = rest_offset in
        let rp = rest_pages in
        let added = insert-Adds r a c1 rest (offset + need) (total - need) d.queues ro rp in
        let apart_rest = λ (k : ℕ) (f : IsFree r a c1 k).
          let apart_run = away k f in
          let clear : Apart rest k = ground (arith, ro, rp, apart_run) in clear in
        let is_run : IsRun chunk_pages rest = record {
          some_pages = omega (arith, rp, less);
          inside = omega (arith, ro, rp, run.inside, high);
          unused = rest_unused;
          plain = rest_plain;
        } in
        (
          c',
          part,
          rw
              (
                ne→==_false need 0 (omega (arith, low)),
                le→ltb_false total need high,
                lt→ltb 0 (total - need) (omega (arith, less)),
              )
              refl,
          refl,
          record {
            valid =
                Adds-IsValid r a c1 c' rest added (Drops-IsValid r a c c1 h d v) is_run apart_rest;
            used = u;
            plain = sub;
            pages = p;
            inside = omega (arith, o, p, run.inside, high);
            was_free = λ page i. (h, free, omega (arith, o, p, i, high));
            apart = λ k f. elim (Adds-IsFree r a c1 c' rest added k f) [
              | inl f' ↦ let apart_run = away k f' in ground (arith, o, p, apart_run, high)
              | inr e ↦ let ek = ap calculate_run_offset e in inl (omega (arith, o, p, ro, ek))
            ];
            kept = λ page (k, f, i). elim (Bool-cases (k == h)) [
              | inl e ↦
                  let same : k ≡ h = ==→eq k h e in
                  let inside_h : InRun page h = subst (InRun page) same i in
                  elim (Bool-cases (ltb page (offset + need))) [
                    | inl b ↦ let b' = ltb→lt _ _ b in inr (omega (arith, o, p, inside_h, b'))
                    | inr b ↦
                        let b' = ltb_false→le _ _ b in
                        inl (
                          rest,
                          Adds-holds r a c1 c' rest added,
                          omega (arith, ro, rp, inside_h, b'),
                        )
                  ]
              | inr e ↦
                  let n : k ≢ h = λ s. absurd (ground (arith, eq→== k h s, e)) in
                  inl (k, Adds-keeps r a c1 c' rest added k (Drops-keeps r a c c1 h d k f n), i)
            ];
            old = λ page (k, f, i). elim (Adds-IsFree r a c1 c' rest added k f) [
              | inl f' ↦ (k, (Drops-IsFree r a c c1 h d v k f').0, i)
              | inr e ↦
                  let in_rest : InRun page rest = subst (InRun page) e i in
                  (h, free, omega (arith, ro, rp, in_rest, high))
            ];
            small = d.small;
          },
        )

    split_whole :
        need ≡ total
        → (c' : PoolChunk r a) × (h' : ℕ) × (split_large_run r a c1 h need ≡ some (c', h'))
          × (c'.free_bytes ≡ c1.free_bytes)
          × Takes r a c c' need h'
    unfolding split_large_run
    split_whole all =
        let (o, p, u, sub) = mark_used_fields h run.unused in
        (
          c1,
          mark_used h,
          rw
              (
                ne→==_false need 0 (omega (arith, low)),
                le→ltb_false total need high,
                le→ltb_false 0 (total - need) (omega (arith, all)),
              )
              refl,
          refl,
          record {
            valid = Drops-IsValid r a c c1 h d v;
            used = u;
            plain = sub ∙ run.plain;
            pages = p ∙ sym all;
            inside = omega (arith, o, p, run.inside);
            was_free = λ page i. (h, free, omega (arith, o, p, i));
            apart = λ k f. let apart_run = away k f in ground (arith, o, p, apart_run);
            kept = λ page (k, f, i). elim (Bool-cases (k == h)) [
              | inl e ↦
                  let inside_h : InRun page h = subst (InRun page) (==→eq k h e) i in
                  inr (omega (arith, o, p, inside_h))
              | inr e ↦
                  let n : k ≢ h = λ s. absurd (ground (arith, eq→== k h s, e)) in
                  inl (k, Drops-keeps r a c c1 h d k f n, i)
            ];
            old = λ page (k, f, i). (k, (Drops-IsFree r a c c1 h d v k f).0, i);
            small = d.small;
          },
        )

    pub split_lem :
        (c' : PoolChunk r a) × (h' : ℕ) × (split_large_run r a c1 h need ≡ some (c', h'))
        × (c'.free_bytes ≡ c1.free_bytes)
        × Takes r a c c' need h'
    split_lem = elim (Bool-cases (ltb need total)) [
      | inl e ↦ split_part (ltb→lt need total e)
      | inr e ↦ split_whole (omega (arith, high, ltb_false→le need total e))
    ]
