-- ===== src/Timer/ThreadPool/Counts.antt =====
-- How many threads of the pool stand at a place.
use mutty.Common.{tally, ℕ, ◌≡◌, refl, false, List, [], ◌∷◌, arith, map}
use mutty.Timer.ThreadPool.{
  Worker, looping, leaving, entering, holding, committed, asleep, notified, running, exited, wake,
  sleeper,
}

wake-weight : (f : Worker → ℕ) (w : Worker) → f notified ≡ f asleep → f (wake w) ≡ f w
unfolding wake
wake-weight f asleep e = e
wake-weight f looping e = refl
wake-weight f leaving e = refl
wake-weight f entering e = refl
wake-weight f holding e = refl
wake-weight f committed e = refl
wake-weight f notified e = refl
wake-weight f (running task) e = refl
wake-weight f exited e = refl

-- Threads that a broadcast does not tell apart are as many after it.
pub tally-wake :
    (f : Worker → ℕ) (ws : List Worker) → f notified ≡ f asleep → tally f (map wake ws) ≡ tally f ws
tally-wake f [] e = refl
tally-wake f (w ∷ ws) e = omega (arith, wake-weight f w e, tally-wake f ws e)

abbrev pub at_holding : Worker → ℕ
at_holding holding = 1
at_holding w = 0

abbrev pub at_committed : Worker → ℕ
at_committed committed = 1
at_committed w = 0

abbrev pub at_asleep : Worker → ℕ
at_asleep asleep = 1
at_asleep w = 0

abbrev pub at_notified : Worker → ℕ
at_notified notified = 1
at_notified w = 0

abbrev pub at_leaving : Worker → ℕ
at_leaving leaving = 1
at_leaving w = 0

abbrev pub at_exited : Worker → ℕ
at_exited exited = 1
at_exited w = 0

wake-asleep : (w : Worker) → at_asleep (wake w) ≡ 0
unfolding wake
wake-asleep asleep = refl
wake-asleep looping = refl
wake-asleep leaving = refl
wake-asleep entering = refl
wake-asleep holding = refl
wake-asleep committed = refl
wake-asleep notified = refl
wake-asleep (running task) = refl
wake-asleep exited = refl

pub none_asleep : (ws : List Worker) → tally at_asleep (map wake ws) ≡ 0
none_asleep [] = refl
none_asleep (w ∷ ws) = omega (arith, wake-asleep w, none_asleep ws)

pub sleeper-tally : (ws : List Worker) → sleeper ws ≡ false → tally at_asleep ws ≡ 0
unfolding sleeper
sleeper-tally [] e = refl
sleeper-tally (asleep ∷ ws) e = absurd (ground (arith, e))
sleeper-tally (looping ∷ ws) e = omega (arith, sleeper-tally ws e)
sleeper-tally (leaving ∷ ws) e = omega (arith, sleeper-tally ws e)
sleeper-tally (entering ∷ ws) e = omega (arith, sleeper-tally ws e)
sleeper-tally (holding ∷ ws) e = omega (arith, sleeper-tally ws e)
sleeper-tally (committed ∷ ws) e = omega (arith, sleeper-tally ws e)
sleeper-tally (notified ∷ ws) e = omega (arith, sleeper-tally ws e)
sleeper-tally (running task ∷ ws) e = omega (arith, sleeper-tally ws e)
sleeper-tally (exited ∷ ws) e = omega (arith, sleeper-tally ws e)
