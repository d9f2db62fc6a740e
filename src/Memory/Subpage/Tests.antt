-- ===== src/Memory/Subpage/Tests.antt =====
-- A subpage of three elements on concrete calls.
use mutty.Common.{
  ℕ, ◌<◌, ◌≡◌, refl, Bool, true, false, some, List, [], ◌∷◌, arith, replicate, eq_of_some, subst,
}
use mutty.Memory.Subpage.{Subpage, bit_at, allocate, free, to_handle}
use mutty.Memory.Subpage.Bits.{free_count}
use mutty.Memory.Subpage.Allocation.{IsValid, Takes, allocate-Takes}
use mutty.Memory.Subpage.Release.{Frees, free-Frees}

-- Element 0 of three is used; the hint is element 2.
abbrev first_used : Subpage
first_used = record {
  page_shifts = 13;
  run_offset = 4;
  run_size = 24576;
  elem_size = 8192;
  max_num_elems = 3;
  bitmap_length = 1;
  bitmap = (true ∷ replicate 63 false) ∷ [];
  next_avail = some 2;
  num_avail = 2;
  do_not_destroy = true;
  pooled = true;
}

first_used-IsValid : IsValid first_used
unfolding free_count
first_used-IsValid = record {
  words = (refl, tt);
  covered = omega arith;
  stored = omega arith;
  counted = refl;
  hint = λ i e.
      subst (λ (n : ℕ). (n < 3) × (bit_at first_used.bitmap n ≡ false)) (eq_of_some e)
        (omega arith, refl);
  listed = refl;
}

allocate-Takes_example :
    (i : ℕ) × (s' : Subpage) × (pool' : List ℕ) × (allocate first_used (4 ∷ [])
      ≡ some (s', pool', some (to_handle first_used i)))
    × Takes first_used s' i
allocate-Takes_example = allocate-Takes first_used (4 ∷ []) first_used-IsValid (omega arith) refl

free-Frees_example :
    (s' : Subpage) × (pool' : List ℕ) × (in_use : Bool) × (free first_used (4 ∷ 9 ∷ []) 0
      ≡ some (s', pool', in_use))
    × Frees first_used s' 0 in_use
free-Frees_example =
    free-Frees first_used (4 ∷ 9 ∷ []) 0 first_used-IsValid (omega arith) (omega arith) refl
