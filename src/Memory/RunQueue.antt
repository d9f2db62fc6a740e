-- ===== src/Memory/RunQueue.antt =====
-- What a chunk (buffer/PoolChunk.cpp) needs of its queues of runs: a multiset of handles that gives
-- out the least.
pub mod Heap
use mutty.Common.{
  ℕ, ◌+◌, ◌≤◌, ◌<◌, ◌≡◌, Bool, true, false, Option, none, some, ltb, ◌==◌, if◌then◌else◌,
}

pub record RunQueue : Type 1 where
  pub Queue : Type 0
  pub IsValid : Queue → Type 0
  -- How often a handle is in the queue.
  pub holds : Queue → ℕ → ℕ
  pub new_queue : Queue
  pub offer : Queue → ℕ → Queue
  pub remove : Queue → ℕ → Queue
  pub poll : Queue → Option (ℕ × Queue)
  pub is_empty : Queue → Bool
  pub new_queue_lem : IsValid new_queue × ((w : ℕ) → holds new_queue w ≡ 0)
  pub offer_lem :
      (q : Queue) (handle : ℕ)
      → IsValid q
      → IsValid (offer q handle)
        × ((w : ℕ) → holds (offer q handle) w ≡ holds q w + (if handle == w then 1 else 0))
  pub remove_lem :
      (q : Queue) (value : ℕ)
      → IsValid q
      → IsValid (remove q value)
        × ((w : ℕ)
            → holds (remove q value) w
                + (if ltb 0 (holds q value) then (if value == w then 1 else 0) else 0)
              ≡ holds q w)
  pub poll_lem :
      (q : Queue)
      → IsValid q
      → is_empty q ≡ false
      → (handle : ℕ) × (q' : Queue) × (poll q ≡ some (handle, q'))
        × IsValid q'
        × ((w : ℕ) → holds q' w + (if handle == w then 1 else 0) ≡ holds q w)
        × ((w : ℕ) → 0 < holds q w → handle ≤ w)
  pub empty_lem : (q : Queue) (w : ℕ) → is_empty q ≡ true → holds q w ≡ 0
