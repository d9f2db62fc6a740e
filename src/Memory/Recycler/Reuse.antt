-- ===== src/Memory/Recycler/Reuse.antt =====
-- One allocation and one deallocation of a buffer (buffer/Recycler.h, buffer/PooledByteBuf.cpp).
use mutty.Common.{
  ℕ, zero, suc, ◌+◌, ◌≤◌, ◌<◌, ◌≡◌, refl, ap, ◌∙◌, some, List, [], ◌∷◌, ◌++◌, arith, length,
  length-set, get_or, set, get_or-set, tally, tally-set, tally-append, if◌then◌else◌, ◌==◌, inl,
  inr, Bool-cases, ==→eq,
}
use mutty.Memory.Recycler.{
  Held, unset, released, region, Recycler, get_from, get, recycle, init, allocate, give_back,
  deallocate, Use, allocates, deallocates,
}

abbrev pub is : ℕ → ℕ → ℕ
is k i = if k == i then 1 else 0

-- A buffer that is out, one that has no region yet, and what a weight of regions makes of buffers.
abbrev pub out : Held → ℕ
out released = 0
out h = 1

abbrev at_unset : Held → ℕ
at_unset unset = 1
at_unset h = 0

abbrev pub weigh : (ℕ → ℕ) → Held → ℕ
weigh f (region handle) = f handle
weigh f h = 0

-- The weight of what a use hands out.
abbrev pub handed : (ℕ → ℕ) → Use → ℕ
handed f (allocates handle) = f handle
handed f (deallocates i) = 0

-- A buffer is on the stack once at most, and not while it is out; each has been set up.
pub record IsSound (r : Recycler) : Type 0 where
  pub apart : (k : ℕ) → tally (is k) r.stack + out (get_or r.created k released) ≤ 1
  pub inside : (k : ℕ) → 0 < tally (is k) r.stack → k < length r.created
  pub set_up : tally at_unset r.created ≡ 0

-- The regions with a buffer, and those that went back.
abbrev pub weight : (ℕ → ℕ) → Recycler → ℕ
weight f r = tally f r.freed + tally (weigh f) r.created

pub record Allocated (handle : ℕ) (r s : Recycler) : Type 0 where
  pub sound : IsSound s
  pub adds : (f : ℕ → ℕ) → weight f s ≡ weight f r + f handle

weigh-out : (f : ℕ → ℕ) (h : Held) → out h ≡ 0 → weigh f h + at_unset h ≡ 0
weigh-out f unset e = absurd (omega (arith, e))
weigh-out f released e = refl
weigh-out f (region handle) e = absurd (omega (arith, e))

out_after :
    (created : List Held) (i k : ℕ) (new : Held)
    → i < length created
    → out (get_or (set created i new) k released)
      ≡ (if i == k then out new else out (get_or created k released))
out_after created i k new l = elim (Bool-cases (i == k)) [
  | inl e ↦ rw e (ap out (get_or-set created i k new released l ∙ rw e refl))
  | inr e ↦ rw e (ap out (get_or-set created i k new released l ∙ rw e refl))
]

-- A buffer that is taken from the stack.
reused :
    (r : Recycler) (handle i : ℕ) (stack : List ℕ)
    → r.stack ≡ i ∷ stack
    → IsSound r
    → Allocated handle r (init i (record r { stack = stack }) handle)
unfolding init
reused r handle i stack e h =
    let counts : (k : ℕ) → tally (is k) r.stack ≡ is k i + tally (is k) stack =
      λ k. ap (tally (is k)) e in
    let here : is i i ≡ 1 = ground arith in
    let inside = h.inside i (omega (arith, counts i, here)) in
    let old = get_or r.created i released in
    let idle : out old ≡ 0 = omega (arith, h.apart i, counts i, here) in
    record {
      sound = record {
        apart = λ k. grind (
          arith,
          h.apart k,
          counts k,
          h.apart i,
          counts i,
          here,
          idle,
          out_after r.created i k (region handle) inside,
        );
        inside = λ k l. omega (
          arith,
          h.inside k (omega (arith, counts k, l)),
          length-set r.created i (region handle),
        );
        set_up = omega (
          arith,
          h.set_up,
          weigh-out (λ _. 0) old idle,
          tally-set at_unset r.created i released old (region handle) inside refl,
        );
      };
      adds = λ f. omega (
        arith,
        weigh-out f old idle,
        tally-set (weigh f) r.created i released old (region handle) inside refl,
      );
    }

set-append :
    (xs : List Held) (old new : Held) → set (xs ++ old ∷ []) (length xs) new ≡ xs ++ new ∷ []
set-append [] old new = refl
set-append (x ∷ xs) old new = ap (◌∷◌ x) (set-append xs old new)

out-append :
    (xs : List Held) (k : ℕ) (new : Held)
    → out (get_or (xs ++ new ∷ []) k released)
      ≡ (if length xs == k then out new else out (get_or xs k released))
out-append [] zero new = refl
out-append [] (suc k) new = ground arith
out-append (x ∷ xs) zero new = ground arith
out-append (x ∷ xs) (suc k) new = ground (arith, out-append xs k new)

-- A buffer that is created.
created_anew :
    (r : Recycler) (handle : ℕ)
    → r.stack ≡ []
    → IsSound r
    → Allocated handle r
        (init (length r.created) (record r { created = r.created ++ unset ∷ [] }) handle)
unfolding init
created_anew r handle e h = rw (set-append r.created unset (region handle)) (
    let empty : (k : ℕ) → tally (is k) r.stack ≡ 0 = λ k. ap (tally (is k)) e in
    record {
      sound = record {
        apart = λ k. grind (arith, h.apart k, empty k, out-append r.created k (region handle));
        inside = λ k l. absurd (omega (arith, empty k, l));
        set_up = omega (arith, h.set_up, tally-append at_unset r.created (region handle ∷ []));
      };
      adds = λ f. omega (arith, tally-append (weigh f) r.created (region handle ∷ []));
    })

get_from-Allocated :
    (r : Recycler) (handle : ℕ) (stack : List ℕ)
    → r.stack ≡ stack
    → IsSound r
    → let (i, s) = get_from stack r in Allocated handle r (init i s handle)
unfolding get_from
get_from-Allocated r handle [] e h = created_anew r handle e h
get_from-Allocated r handle (i ∷ stack) e h = reused r handle i stack e h

pub allocate-Allocated :
    (r : Recycler) (handle : ℕ) → IsSound r → Allocated handle r (allocate handle r)
unfolding allocate get
allocate-Allocated r handle h = get_from-Allocated r handle r.stack refl h

-- A buffer that is not released is one that was created.
was_created :
    (created : List Held) (i : ℕ) (held : Held)
    → get_or created i released ≡ held
    → 0 < out held
    → i < length created
was_created [] i held e l = absurd (omega (arith, ap out e, l))
was_created (x ∷ xs) zero held e l = omega arith
was_created (x ∷ xs) (suc i) held e l = omega (arith, was_created xs i held e l)

-- What a deallocation leaves.
abbrev pub Deallocated : Recycler → Recycler → Type 0
Deallocated r s = IsSound s × ((f : ℕ → ℕ) → weight f s ≡ weight f r)

give_back-Deallocated :
    (r : Recycler) (i : ℕ) (held : Held)
    → get_or r.created i released ≡ held
    → IsSound r
    → (s : Recycler) × (give_back held i r ≡ some s) × Deallocated r s
unfolding give_back recycle
give_back-Deallocated r i unset e h =
    let inside = was_created r.created i unset e (omega arith) in
    absurd
      (omega (arith, h.set_up, tally-set at_unset r.created i released unset released inside e))
give_back-Deallocated r i released e h = (r, refl, (h, λ f. refl))
give_back-Deallocated r i (region handle) e h =
    let inside = was_created r.created i (region handle) e (omega arith) in
    let busy : out (get_or r.created i released) ≡ 1 = ap out e in
    let here : is i i ≡ 1 = ground arith in
    (
      _,
      refl,
      (
        record {
          apart = λ k.
              grind
                (arith, h.apart k, h.apart i, here, busy, out_after r.created i k released inside);
          inside = λ k l. elim (Bool-cases (k == i)) [
            | inl same ↦ omega (arith, ==→eq k i same, inside, length-set r.created i released)
            | inr other ↦
                let l' = rw other at l in
                omega (arith, h.inside k (omega (arith, l')), length-set r.created i released)
          ];
          set_up = omega (
            arith,
            h.set_up,
            tally-set at_unset r.created i released (region handle) released inside e,
          );
        },
        λ f.
            omega
              (arith, tally-set (weigh f) r.created i released (region handle) released inside e),
      ),
    )

pub deallocate-Deallocated :
    (r : Recycler) (i : ℕ)
    → IsSound r
    → (s : Recycler) × (deallocate i r ≡ some s) × Deallocated r s
unfolding deallocate
deallocate-Deallocated r i h = give_back-Deallocated r i (get_or r.created i released) refl h
