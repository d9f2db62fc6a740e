-- ===== src/Net/Wakeups/Tests.antt =====
-- The executions of two threads, on concrete functors.
use mutty.Common.{ℕ, ◌≡◌, refl, ap, length, ◌≢◌, true, [], ◌++◌, arith}
use mutty.Net.Queue.{items, exchange, store_link}
use mutty.Net.Wakeups.{
  Loop, queue_exchange, queue_link, queue_wakeup, queue_own, exchanges, links, writes, init, Reach,
  start, later,
}
use mutty.Net.Wakeups.Lost.{Reach-signalled, Reach-Kept}

-- Another thread has queued functor 7.
abbrev queued : Loop ℕ
queued = queue_wakeup (queue_link (queue_exchange init 7) 0)

queued-Reach : Reach queued
unfolding queue_link queue_exchange
queued-Reach = later (later (later start (exchanges 7)) (links 0)) (writes (omega arith))

queued_left : queued.queue ≢ []
unfolding queue_wakeup queue_link queue_exchange store_link exchange
queued_left e = absurd (omega (arith, ap length e))

Reach-signalled_example : queued.signalled ≡ true
unfolding queue_wakeup queue_link queue_exchange store_link exchange
Reach-signalled_example = Reach-signalled queued-Reach refl refl refl queued_left

Reach-Kept_example : queued.put ≡ queued.ran ++ items queued.queue
Reach-Kept_example = Reach-Kept queued-Reach

-- A functor queued by a callback wakes the loop up as well.
own_wakes : (queue_own queued 8).signalled ≡ true
unfolding queue_own queue_wakeup queue_link queue_exchange
own_wakes = refl
