-- ===== src/Memory/LongPriorityQueue/Tests.antt =====
-- A queue of three handles (buffer/LongPriorityQueue.h).
use mutty.Common.{ℕ, ◌+◌, ◌≤◌, ◌<◌, ◌≡◌, some, arith, ◌==◌}
use mutty.Memory.LongPriorityQueue.{LongPriorityQueue, new_queue, offer, poll}
use mutty.Memory.LongPriorityQueue.Occurrences.{one_if}
use mutty.Memory.LongPriorityQueue.Laws.{IsValid, holds, new_queue-IsValid, offer_lem, poll_lem}

abbrev two_handles : LongPriorityQueue
two_handles = offer (offer new_queue 30) 10

abbrev three_handles : LongPriorityQueue
three_handles = offer two_handles 20

two_handles-IsValid : IsValid two_handles
two_handles-IsValid =
    (offer_lem (offer new_queue 30) 10 (offer_lem new_queue 30 new_queue-IsValid).0).0

three_handles-IsValid : IsValid three_handles
three_handles-IsValid = (offer_lem two_handles 20 two_handles-IsValid).0

poll_lem_example :
    (handle : ℕ) × (q' : LongPriorityQueue) × (poll three_handles ≡ some (handle, q'))
    × IsValid q'
    × ((w : ℕ) → holds q' w + one_if (handle == w) ≡ holds three_handles w)
    × ((w : ℕ) → 0 < holds three_handles w → handle ≤ w)
    × (0 < holds three_handles handle)
unfolding offer new_queue
poll_lem_example = poll_lem three_handles three_handles-IsValid (omega arith)
