-- ===== src/Memory/Recycler/Runs.antt =====
-- Any sequence of allocations and deallocations (buffer/Recycler.h, buffer/PooledByteBuf.cpp).
use mutty.Common.{
  ℕ, ◌+◌, ◌≤◌, ◌≡◌, refl, ap, ◌∙◌, some, List, [], ◌∷◌, ◌>>=◌, arith, length, get_or, tally,
}
use mutty.Memory.Recycler.{
  Held, released, Recycler, new_recycler, get_from, get, allocate, Use, allocates, deallocates,
  step, run,
}
use mutty.Memory.Recycler.Reuse.{
  is, out, weigh, handed, weight, IsSound, allocate-Allocated, deallocate-Deallocated,
}

-- What a run has: its buffers are sound, and what it has handed out went back or is with a buffer.
record Ends (uses : List Use) (r s : Recycler) : Type 0 where
  sound : IsSound s
  accounts : (f : ℕ → ℕ) → weight f s ≡ weight f r + tally (handed f) uses

run-Ends :
    (uses : List Use) (r : Recycler)
    → IsSound r
    → (s : Recycler) × (run uses r ≡ some s) × Ends uses r s
unfolding run step
run-Ends [] r h = (r, refl, record { sound = h; accounts = λ f. omega arith })
run-Ends (allocates handle ∷ uses) r h =
    let a = allocate-Allocated r handle h in
    let (s, e, ends) = run-Ends uses (allocate handle r) a.sound in
    (s, e, record { sound = ends.sound; accounts = λ f. omega (arith, ends.accounts f, a.adds f) })
run-Ends (deallocates i ∷ uses) r h =
    let (t, d, (sound, same)) = deallocate-Deallocated r i h in
    let (s, e, ends) = run-Ends uses t sound in
    (
      s,
      ap (λ o. o >>= run uses) d ∙ e,
      record { sound = ends.sound; accounts = λ f. omega (arith, ends.accounts f, same f) },
    )

new_recycler-IsSound : IsSound new_recycler
unfolding new_recycler
new_recycler-IsSound = record {
  apart = λ k. omega arith;
  inside = λ k l. absurd (omega (arith, l));
  set_up = refl;
}

past_end : (xs : List Held) → get_or xs (length xs) released ≡ released
past_end [] = refl
past_end (x ∷ xs) = past_end xs

-- The buffer that the next `get` answers is not out.
get_from-idle :
    (r : Recycler) (stack : List ℕ)
    → r.stack ≡ stack
    → IsSound r
    → out (get_or r.created (get_from stack r).0 released) ≡ 0
unfolding get_from
get_from-idle r [] e h = ap out (past_end r.created)
get_from-idle r (i ∷ stack) e h =
    let here : is i i ≡ 1 = ground arith in omega (arith, h.apart i, ap (tally (is i)) e, here)

get-idle : (r : Recycler) → IsSound r → out (get_or r.created (get r).0 released) ≡ 0
unfolding get
get-idle r h = get_from-idle r r.stack refl h

-- Whatever buffers are allocated and deallocated, and however often each is: no deallocation reads
-- through a null chunk. A buffer is on the stack once at most, and not while it is out, the next one
-- that `get` answers is not out, and the regions handed out are those that went back and those with a
-- buffer, each once, whatever they are weighed by.
pub run-lends :
    (uses : List Use)
    → (s : Recycler) × (run uses new_recycler ≡ some s)
      × ((k : ℕ) → tally (is k) s.stack + out (get_or s.created k released) ≤ 1)
      × (out (get_or s.created (get s).0 released) ≡ 0)
      × ((f : ℕ → ℕ) → tally f s.freed + tally (weigh f) s.created ≡ tally (handed f) uses)
unfolding new_recycler
run-lends uses =
    let (s, e, ends) = run-Ends uses new_recycler new_recycler-IsSound in
    (s, e, ends.sound.apart, get-idle s ends.sound, λ f. omega (arith, ends.accounts f))
