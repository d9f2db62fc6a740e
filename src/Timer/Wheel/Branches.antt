-- ===== src/Timer/Wheel/Branches.antt =====
-- The branches of `add` and `advanceClock` of timer/TimingWheel.cc.
use mutty.Common.{
  ℕ, zero, suc, ◌≡◌, refl, sym, ap, ◌∙◌, inl, inr, true, false, Option, none, some, List, [], ◌∷◌,
  Bool-cases, Option-cases, eq_of_some, none-ne_some,
}
use mutty.Timer.Timeval.{Timeval, lt, ge, modulo, minus, plus}
use mutty.Timer.Wheel.{Wheel, Slot, slot_of, overflow, behind, add, advance_clock}

pub add-zero :
    (n : ℕ) (w : Wheel) (ws : List Wheel) (expiration : Timeval) → add zero n w ws expiration ≡ none
unfolding add
add-zero n w ws expiration = refl

pub add-now :
    (fuel n : ℕ) (w : Wheel) (ws : List Wheel) (expiration : Timeval)
    → lt expiration (plus w.current_time w.tick_ms) ≡ true
    → add (suc fuel) n w ws expiration ≡ some (w ∷ ws, none)
unfolding add
add-now fuel n w ws expiration e = rw (e, add) refl

pub add-here :
    (fuel n : ℕ) (w : Wheel) (ws : List Wheel) (expiration : Timeval)
    → lt expiration (plus w.current_time w.tick_ms) ≡ false
    → lt expiration (plus w.current_time w.interval) ≡ true
    → add (suc fuel) n w ws expiration ≡ some (w ∷ ws, some (slot_of w n expiration))
unfolding add
add-here fuel n w ws expiration e f = rw (e, add) (rw (f, add) refl)

pub add-over :
    (fuel n : ℕ) (w v : Wheel) (ws vs : List Wheel) (expiration : Timeval)
    (answer : List Wheel × Option Slot)
    → lt expiration (plus w.current_time w.tick_ms) ≡ false
    → lt expiration (plus w.current_time w.interval) ≡ false
    → overflow n w ws ≡ v ∷ vs
    → add fuel n v vs expiration ≡ some answer
    → add (suc fuel) n w ws expiration ≡ some (behind w answer)
unfolding add
add-over fuel n w v ws vs expiration answer e f o a =
    rw (e, add) (rw (f, add) (rw (o, add) (rw (a, add) refl)))

-- The first wheel comes back as it was: `add` changes nothing but the overflow wheels.
pub add-first :
    (fuel n : ℕ) (w : Wheel) (ws us : List Wheel) (expiration : Timeval) (slot : Option Slot)
    → add fuel n w ws expiration ≡ some (us, slot)
    → (vs : List Wheel) × (us ≡ w ∷ vs)
unfolding add
add-first zero n w ws us expiration slot h = absurd (none-ne_some h)
add-first (suc fuel) n w ws us expiration slot h =
    elim (Bool-cases (lt expiration (plus w.current_time w.tick_ms))) [
      | inl e ↦ (
        ws,
        ap (λ (p : List Wheel × Option Slot). p.0)
            (eq_of_some (sym h ∙ add-now fuel n w ws expiration e)),
      )
      | inr e ↦ elim (Bool-cases (lt expiration (plus w.current_time w.interval))) [
        | inl f ↦ (
          ws,
          ap (λ (p : List Wheel × Option Slot). p.0)
              (eq_of_some (sym h ∙ add-here fuel n w ws expiration e f)),
        )
        | inr f ↦ over (overflow n w ws) refl e f
      ]
    ]
  where
    over :
        (all : List Wheel)
        → overflow n w ws ≡ all
        → lt expiration (plus w.current_time w.tick_ms) ≡ false
        → lt expiration (plus w.current_time w.interval) ≡ false
        → (vs : List Wheel) × (us ≡ w ∷ vs)
    over [] o e f = absurd (none-ne_some (sym (rw (e, add) (rw (f, add) (rw (o, add) refl))) ∙ h))
    over (v ∷ vs) o e f = elim (Option-cases (add fuel n v vs expiration)) [
      | inl a ↦
          absurd
            (none-ne_some (sym (rw (e, add) (rw (f, add) (rw (o, add) (rw (a, add) refl)))) ∙ h))
      | inr (answer, a) ↦ (
        answer.0,
        ap (λ (p : List Wheel × Option Slot). p.0)
            (eq_of_some (sym h ∙ add-over fuel n w v ws vs expiration answer e f o a)),
      )
    ]

pub advance_clock-reached :
    (w : Wheel) (ws : List Wheel) (time_ms : Timeval)
    → ge time_ms (plus w.current_time w.tick_ms) ≡ true
    → let current = minus time_ms (modulo time_ms w.tick_ms) in
      advance_clock (w ∷ ws) time_ms
      ≡ record w { current_time = current } ∷ advance_clock ws current
unfolding advance_clock
advance_clock-reached w ws time_ms h = rw h refl
