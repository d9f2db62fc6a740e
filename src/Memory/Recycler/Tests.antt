-- ===== src/Memory/Recycler/Tests.antt =====
-- Two regions, one buffer, and a second deallocation (buffer/Recycler.h).
use mutty.Common.{ℕ, ◌+◌, ◌≤◌, ◌≡◌, refl, some, List, [], ◌∷◌, get_or, tally}
use mutty.Memory.Recycler.{
  released, region, Recycler, new_recycler, get, Use, allocates, deallocates, run,
}
use mutty.Memory.Recycler.Reuse.{is, out, weigh, handed}
use mutty.Memory.Recycler.Runs.{run-lends}

abbrev twice : List Use
twice = allocates 40 ∷ deallocates 0 ∷ deallocates 0 ∷ allocates 41 ∷ []

run-lends_example :
    (s : Recycler) × (run twice new_recycler ≡ some s)
    × ((k : ℕ) → tally (is k) s.stack + out (get_or s.created k released) ≤ 1)
    × (out (get_or s.created (get s).0 released) ≡ 0)
    × ((f : ℕ → ℕ) → tally f s.freed + tally (weigh f) s.created ≡ tally (handed f) twice)
run-lends_example = run-lends twice

-- The buffer is used again, and its first region went back once.
one_buffer :
    run twice new_recycler ≡ some (record { stack = []; created = region 41 ∷ []; freed = 40 ∷ [] })
unfolding run new_recycler
one_buffer = refl
