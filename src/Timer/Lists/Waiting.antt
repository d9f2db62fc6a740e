-- ===== src/Timer/Lists/Waiting.antt =====
-- What adding an entry leaves of those that wait (timer/Timer.cc and timer/TimerTaskList.cc).
use mutty.Common.{
  ℕ, zero, suc, ◌≡◌, refl, sym, ap, ◌∙◌, subst, ◌⊎◌, inl, inr, Bool, true, false, not, ◌&&◌, ◌||◌,
  Option, none, some, List, [], ◌∷◌, ◌++◌, arith, ◌==◌, if◌then◌else◌, Bool-cases, ==→eq,
  Option-cases,
}
use mutty.Timer.Timeval.{lt, plus}
use mutty.Timer.Wheel.{Wheel, Slot, add, slot_of}
use mutty.Timer.Wheel.Branches.{add-zero, add-here, add-first}
use mutty.Timer.Lists.{
  Entry, Timer, differs, add_to_bucket, put_in_slot, Added, linked, submits, drops, deeper,
  with_wheels, added_to, add_timer_task_entry,
}

-- An entry that the wheel takes back: neither cancelled, nor due by its next tick, nor beyond it.
abbrev pub waits : Wheel → Entry → Bool
waits w e =
    not e.cancelled
    && not (lt e.expiration (plus w.current_time w.tick_ms))
    && lt e.expiration (plus w.current_time w.interval)

abbrev pub any_waits : Wheel → List Entry → Bool
any_waits w [] = false
any_waits w (e ∷ es) = waits w e || any_waits w es

any_waits-append :
    (w : Wheel) (es ds : List Entry) → any_waits w (es ++ ds) ≡ (any_waits w es || any_waits w ds)
any_waits-append w [] ds = refl
any_waits-append w (e ∷ es) ds = elim (Bool-cases (waits w e)) [
  | inl h ↦ rw h refl
  | inr h ↦ rw h (any_waits-append w es ds)
]

or_true : (b : Bool) → (b || true) ≡ true
or_true true = refl
or_true false = refl

any_waits-first :
    (w : Wheel) (es ds : List Entry) → any_waits w es ≡ true → any_waits w (es ++ ds) ≡ true
any_waits-first w es ds h = rw (any_waits-append w es ds, h) refl

any_waits-last :
    (w : Wheel) (es : List Entry) (e : Entry) → waits w e ≡ true → any_waits w (es ++ e ∷ []) ≡ true
any_waits-last w es e h = any_waits-append w es (e ∷ []) ∙ rw h (or_true (any_waits w es))

pub put_in_slot-lists :
    (t : Timer) (slot : Slot) (e : Entry)
    → ((put_in_slot t slot e).wheel ≡ t.wheel)
      × ((put_in_slot t slot e).lists ≡ (add_to_bucket t slot.level slot.bucket e).lists)
unfolding put_in_slot
put_in_slot-lists t slot e =
    elim (Bool-cases (differs slot.starts (t.expirations slot.level slot.bucket))) [
      | inl h ↦ rw (put_in_slot, h) (refl, refl)
      | inr h ↦ rw (put_in_slot, h) (refl, refl)
    ]

-- The timer's first wheel is `w`, and an entry of its list waits.
abbrev pub Has : Wheel → Timer → Type 0
Has w t = (t.wheel ≡ w) × (any_waits w (t.lists 0) ≡ true)

-- A bucket that takes an entry keeps those of the first list, and has it at the list's end if it is
-- one of the first wheel's.
add_to_bucket-waits :
    (w : Wheel) (t : Timer) (level bucket : ℕ) (e : Entry)
    → (any_waits w (t.lists 0) ≡ true) ⊎ ((level ≡ 0) × (waits w e ≡ true))
    → any_waits w ((add_to_bucket t level bucket e).lists 0) ≡ true
unfolding add_to_bucket
add_to_bucket-waits w t level bucket e (inl h) = elim (Bool-cases (0 == level)) [
  | inl z ↦
      rw (z, sym (==→eq 0 level z))
        (any_waits-first w (t.lists 0) (record e { bucket = bucket } ∷ []) h)
  | inr z ↦ rw z h
]
add_to_bucket-waits w t level bucket e (inr (z, h)) =
    rw z (any_waits-last w (t.lists 0) (record e { bucket = bucket }) h)

put_in_slot-Has :
    (w : Wheel) (t : Timer) (slot : Slot) (e : Entry)
    → t.wheel ≡ w
    → (any_waits w (t.lists 0) ≡ true) ⊎ ((slot.level ≡ 0) × (waits w e ≡ true))
    → Has w (put_in_slot t slot e)
put_in_slot-Has w t slot e same h =
    let (wheel, lists) = put_in_slot-lists t slot e in
    (
      wheel ∙ same,
      ap (λ (f : ℕ → List Entry). any_waits w (f 0)) lists
          ∙ add_to_bucket-waits w t slot.level slot.bucket e h,
    )

abbrev pub Keeps : Wheel → Added → Type 0
Keeps w (linked t) = Has w t
Keeps w (submits t) = Has w t
Keeps w drops = Unit
Keeps w deeper = Unit

-- Wherever an entry goes, the others stay.
pub added_to-Keeps :
    (w : Wheel) (t : Timer) (e : Entry) (vs : List Wheel) (slot : Option Slot)
    → Has w t
    → Keeps w (added_to t e (some (w ∷ vs, slot)))
unfolding added_to
added_to-Keeps w t e vs none h = (refl, h.1)
added_to-Keeps w t e vs (some slot) h =
    put_in_slot-Has w (with_wheels t (w ∷ vs)) slot e refl (inl h.1)

-- What the wheels answer of an entry.
abbrev pub wheels_answer : ℕ → Timer → Entry → Option (List Wheel × Option Slot)
wheels_answer depth t e = add depth t.wheel_size t.wheel t.overflow_wheels e.expiration

pub add_timer_task_entry-live :
    (depth : ℕ) (t : Timer) (e : Entry)
    → e.cancelled ≡ false
    → add_timer_task_entry depth t e ≡ added_to t e (wheels_answer depth t e)
unfolding add_timer_task_entry
add_timer_task_entry-live depth t e c =
    ap (λ (b : Bool). if b then drops else added_to t e (wheels_answer depth t e)) c

pub add_timer_task_entry-cancelled :
    (depth : ℕ) (t : Timer) (e : Entry)
    → e.cancelled ≡ true
    → add_timer_task_entry depth t e ≡ drops
unfolding add_timer_task_entry
add_timer_task_entry-cancelled depth t e c =
    ap (λ (b : Bool). if b then drops else added_to t e (wheels_answer depth t e)) c

wheels_answer-first :
    (depth : ℕ) (t : Timer) (e : Entry)
    → (wheels_answer depth t e ≡ none)
      ⊎ ((vs : List Wheel) × (slot : Option Slot) × (wheels_answer depth t e
            ≡ some (t.wheel ∷ vs, slot)))
wheels_answer-first depth t e = elim (Option-cases (wheels_answer depth t e)) [
  | inl a ↦ inl a
  | inr ((us, slot), a) ↦
      let (vs, first) =
        add-first depth t.wheel_size t.wheel t.overflow_wheels us e.expiration slot a in
      inr (vs, slot, a ∙ ap (λ (x : List Wheel). some (x, slot)) first)
]

added_to-none : (t : Timer) (e : Entry) → added_to t e none ≡ deeper
unfolding added_to
added_to-none t e = refl

pub add_timer_task_entry-Keeps :
    (depth : ℕ) (t : Timer) (e : Entry)
    → any_waits t.wheel (t.lists 0) ≡ true
    → Keeps t.wheel (add_timer_task_entry depth t e)
add_timer_task_entry-Keeps depth t e h = elim (Bool-cases e.cancelled) [
  | inl c ↦ subst (Keeps t.wheel) (sym (add_timer_task_entry-cancelled depth t e c)) tt
  | inr c ↦
      subst (Keeps t.wheel) (sym (add_timer_task_entry-live depth t e c))
        (elim (wheels_answer-first depth t e) [
          | inl a ↦ subst (Keeps t.wheel) (sym (ap (added_to t e) a ∙ added_to-none t e)) tt
          | inr (vs, slot, a) ↦
              subst (Keeps t.wheel) (sym (ap (added_to t e) a))
                (added_to-Keeps t.wheel t e vs slot (refl, h))
        ])
]

waits-parts :
    (w : Wheel) (e : Entry)
    → waits w e ≡ true
    → (e.cancelled ≡ false)
      × (lt e.expiration (plus w.current_time w.tick_ms) ≡ false)
      × (lt e.expiration (plus w.current_time w.interval) ≡ true)
waits-parts w e h = ground (arith, h)

-- An entry that waits is taken back by the first wheel.
pub add_timer_task_entry-waits :
    (depth : ℕ) (t : Timer) (e : Entry)
    → waits t.wheel e ≡ true
    → (add_timer_task_entry depth t e ≡ deeper)
      ⊎ ((t' : Timer) × (add_timer_task_entry depth t e ≡ linked t') × Has t.wheel t')
unfolding added_to
add_timer_task_entry-waits zero t e h = inl (
    add_timer_task_entry-live zero t e (waits-parts t.wheel e h).0
    ∙ ap (added_to t e) (add-zero t.wheel_size t.wheel t.overflow_wheels e.expiration))
add_timer_task_entry-waits (suc depth) t e h =
    let (live, not_due, inside) = waits-parts t.wheel e h in
    let slot = slot_of t.wheel t.wheel_size e.expiration in
    inr (
      put_in_slot (with_wheels t (t.wheel ∷ t.overflow_wheels)) slot e,
      add_timer_task_entry-live (suc depth) t e live
          ∙ ap (added_to t e)
              (add-here depth t.wheel_size t.wheel t.overflow_wheels e.expiration not_due inside),
      put_in_slot-Has t.wheel (with_wheels t (t.wheel ∷ t.overflow_wheels)) slot e refl
          (inr (refl, h)),
    )
