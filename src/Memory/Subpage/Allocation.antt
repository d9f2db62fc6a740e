-- ===== src/Memory/Subpage/Allocation.antt =====
-- What `allocate` and `free` of a subpage promise (buffer/PoolSubpage.cpp).
use mutty.Common.{
  ℕ, zero, suc, ◌-◌, ◌*◌, ◌/◌, ◌%◌, ◌≤◌, ◌<◌, ◌≡◌, refl, sym, ap, ◌∙◌, inl, inr, ◌≢◌, Bool, true,
  false, not, Option, none, some, List, [], ◌∷◌, arith, Bool-cases, length, length-set, get_or, set,
  take, ◌==◌, ne→==_false, Option-cases,
}
use mutty.Memory.Subpage.{
  Subpage, bit_at, set_bit, get_next_avail, take_bit, allocate, remove_from_pool, delete, to_handle,
}
use mutty.Memory.Subpage.Search.{AreWords, FirstBelow, find_next_avail-FirstBelow}
use mutty.Memory.Subpage.Bits.{
  bit_at-set_bit, bit_at-set_bit_other, set_bit-AreWords, free_count, free_count-take,
  free_count-some,
}

-- A subpage in use: its bitmap covers its elements, the counter counts those that are free, the
-- hint is one of them, and it stands in the arena's list while it has one.
pub record IsValid (s : Subpage) : Type 0 where
  pub words : AreWords s.bitmap
  pub covered : s.max_num_elems ≤ 64 * s.bitmap_length
  pub stored : s.bitmap_length ≤ length s.bitmap
  pub counted : s.num_avail ≡ free_count (bit_at s.bitmap) s.max_num_elems
  pub hint : (i : ℕ) → s.next_avail ≡ some i → (i < s.max_num_elems) × (bit_at s.bitmap i ≡ false)
  pub listed : s.pooled ≡ not (s.num_avail == 0)

-- A free element was taken, and nothing else changed.
pub record Takes (s s' : Subpage) (i : ℕ) : Type 0 where
  pub inside : i < s.max_num_elems
  pub was_free : bit_at s.bitmap i ≡ false
  pub taken : bit_at s'.bitmap i ≡ true
  pub others : (l : ℕ) → l ≢ i → bit_at s'.bitmap l ≡ bit_at s.bitmap l
  pub same : s'.max_num_elems ≡ s.max_num_elems
  pub valid : IsValid s'

get_or-take :
    (words : List (List Bool)) (n q : ℕ) → q < n → get_or (take n words) q [] ≡ get_or words q []
get_or-take words zero q h = absurd (omega arith)
get_or-take [] (suc n) q h = refl
get_or-take (w ∷ words) (suc n) zero h = refl
get_or-take (w ∷ words) (suc n) (suc q) h = get_or-take words n q (omega arith)

bit_at-take :
    (words : List (List Bool)) (n l : ℕ) → l < 64 * n → bit_at (take n words) l ≡ bit_at words l
bit_at-take words n l h = rw (get_or-take words n (l / 64) (omega arith)) refl

take-AreWords : (words : List (List Bool)) (n : ℕ) → AreWords words → AreWords (take n words)
take-AreWords words zero w = tt
take-AreWords [] (suc n) w = tt
take-AreWords (b ∷ words) (suc n) w = (w.0, take-AreWords words n w.1)

-- The search of a valid subpage with a free element finds a free one.
search_found :
    (s : Subpage) (o : Option ℕ)
    → IsValid s
    → 0 < s.num_avail
    → FirstBelow (bit_at (take s.bitmap_length s.bitmap)) 0 s.max_num_elems o
    → (i : ℕ) × (o ≡ some i) × (i < s.max_num_elems) × (bit_at s.bitmap i ≡ false)
search_found s none v h f =
    let (i, inside, free) =
      free_count-some (bit_at s.bitmap) s.max_num_elems (omega (arith, h, v.counted)) in
    let used = f i (omega (arith, inside)) in
    let same = bit_at-take s.bitmap s.bitmap_length i (omega (arith, inside, v.covered)) in
    absurd cc
search_found s (some k) v h (j, e, b, f) =
    let place : k ≡ j = omega (arith, e) in
    let same = bit_at-take s.bitmap s.bitmap_length j (omega (arith, b, e, v.covered)) in
    (k, refl, b, ap (bit_at s.bitmap) place ∙ sym same ∙ f.free)

-- `getNextAvail` of a valid subpage with a free element: a free element, the hint used up.
get_next_avail-found :
    (s : Subpage)
    → IsValid s
    → 0 < s.num_avail
    → (i : ℕ) × (get_next_avail s ≡ (some i, record s { next_avail = none }))
      × (i < s.max_num_elems)
      × (bit_at s.bitmap i ≡ false)
unfolding get_next_avail
get_next_avail-found s v h = elim (Option-cases s.next_avail) [
  | inl e ↦
      let f =
        find_next_avail-FirstBelow s.max_num_elems (take s.bitmap_length s.bitmap) 0
          (take-AreWords s.bitmap s.bitmap_length v.words) in
      let (i, found, inside, free) = search_found s _ v h f in (i, rw (e, found) refl, inside, free)
  | inr (i, e) ↦ let (inside, free) = v.hint i e in (i, rw e refl, inside, free)
]

-- The subpage once element `i` is taken.
abbrev after : Subpage → ℕ → Bool → Subpage
after s i pooled = record s {
  bitmap = set_bit s.bitmap i true;
  next_avail = none;
  num_avail = s.num_avail - 1;
  pooled = pooled;
}

after-Takes :
    (s : Subpage) (i : ℕ) (pooled : Bool)
    → IsValid s
    → i < s.max_num_elems
    → bit_at s.bitmap i ≡ false
    → pooled ≡ not (s.num_avail - 1 == 0)
    → Takes s (after s i pooled) i
after-Takes s i pooled v inside free p =
    let range : i < 64 * length s.bitmap = omega (arith, inside, v.covered, v.stored) in
    let taken = bit_at-set_bit s.bitmap i true v.words range in
    let others = λ (l : ℕ) (n : l ≢ i). bit_at-set_bit_other s.bitmap i l true v.words range n in
    let count =
      free_count-take (bit_at s.bitmap) (bit_at (set_bit s.bitmap i true)) s.max_num_elems i inside
        free taken others in
    record {
      inside = inside;
      was_free = free;
      taken = taken;
      others = others;
      same = refl;
      valid = record {
        words = set_bit-AreWords s.bitmap i true v.words range;
        covered = v.covered;
        stored = omega (
          arith,
          v.stored,
          length-set s.bitmap (i / 64) (set (get_or s.bitmap (i / 64) []) (i % 64) true),
        );
        counted = omega (arith, count, v.counted);
        hint = λ j e. absurd cc;
        listed = p;
      };
    }

allocate-take_bit :
    (s s' : Subpage) (pool : List ℕ) (i : ℕ)
    → 0 < s.num_avail
    → s.do_not_destroy ≡ true
    → get_next_avail s ≡ (some i, s')
    → allocate s pool ≡ take_bit s' pool i
unfolding allocate
allocate-take_bit s s' pool i h d found =
    let present = ne→==_false s.num_avail 0 (omega (arith, h)) in simp (present, d, found)

take_bit-more :
    (s : Subpage) (pool : List ℕ) (i : ℕ)
    → bit_at s.bitmap i ≡ false
    → (s.num_avail - 1 == 0) ≡ false
    → take_bit (record s { next_avail = none }) pool i
      ≡ some (after s i s.pooled, pool, some (to_handle s i))
unfolding take_bit to_handle
take_bit-more s pool i free e = simp (free, e)

take_bit-last :
    (s : Subpage) (pool : List ℕ) (i : ℕ)
    → bit_at s.bitmap i ≡ false
    → (s.num_avail - 1 == 0) ≡ true
    → s.pooled ≡ true
    → take_bit (record s { next_avail = none }) pool i
      ≡ some (after s i false, delete s.run_offset pool, some (to_handle s i))
unfolding take_bit to_handle remove_from_pool
take_bit-last s pool i free e listed = simp (free, e, listed)

-- `allocate` on a valid subpage that has an element free and is not given up fails no assertion: it
-- gives out the handle of an element that was free, marks exactly that one as used, and keeps the
-- subpage valid.
pub allocate-Takes :
    (s : Subpage) (pool : List ℕ)
    → IsValid s
    → 0 < s.num_avail
    → s.do_not_destroy ≡ true
    → (i : ℕ) × (s' : Subpage) × (pool' : List ℕ) × (allocate s pool
        ≡ some (s', pool', some (to_handle s i)))
      × Takes s s' i
allocate-Takes s pool v h d =
    let (i, found, inside, free) = get_next_avail-found s v h in
    let present = ne→==_false s.num_avail 0 (omega (arith, h)) in
    let listed : s.pooled ≡ true = v.listed ∙ ap not present in
    let start = allocate-take_bit s (record s { next_avail = none }) pool i h d found in
    elim (Bool-cases (s.num_avail - 1 == 0)) [
      | inl e ↦ (
        i,
        after s i false,
        delete s.run_offset pool,
        start ∙ take_bit-last s pool i free e listed,
        after-Takes s i false v inside free (ap not (sym e)),
      )
      | inr e ↦ (
        i,
        after s i s.pooled,
        pool,
        start ∙ take_bit-more s pool i free e,
        after-Takes s i s.pooled v inside free (listed ∙ ap not (sym e)),
      )
    ]
