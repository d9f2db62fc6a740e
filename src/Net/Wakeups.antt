-- ===== src/Net/Wakeups.antt =====
-- `loop`, `queueInLoop`, `wakeup`, `handleRead` and `doPendingFunctors` of EventLoop.cpp, with other
-- threads that queue functors meanwhile. Each shared access of another thread is a step: the exchange
-- and the store of `enqueue`, then the write to the event descriptor. Of that descriptor, a parameter
-- of the code, the state is whether it can be read, as eventfd(2) has it: a write makes it readable,
-- and a read takes that back.
pub mod Lost
mod Tests
use mutty.Common.{
  ℕ, suc, ◌≡◌, ◌≢◌, Bool, true, false, not, Option, none, some, List, [], ◌∷◌, ◌++◌, ◌<◌, ◌-◌,
  if◌then◌else◌, length,
}
use mutty.Net.Queue.{BufferNode, exchange, store_link, dequeue, is_empty}

-- Where the loop's thread is: in `poll`, among the callbacks of the active channels, before the
-- outer test of `doPendingFunctors`, or in its inner loop.
pub data Phase : Type 0 where
  polling handling testing draining : Phase

-- `callingPendingFuncs_`
pub calling : Phase → Bool
calling testing = true
calling draining = true
calling phase = false

pub record Loop {ℓ} (A : Type ℓ) : Type ℓ where
  pub phase : Phase
  -- `funcs_`
  pub queue : List (BufferNode A)
  -- The other threads between the store of `enqueue` and the write of `wakeup`.
  pub waking : ℕ
  -- Whether `wakeupFd_` can be read.
  pub signalled : Bool
  -- The functors put in, in the order of the exchanges, and those run.
  pub put : List A
  pub ran : List A

module _ {ℓ} {A : Type ℓ} where
  -- `wakeup`
  pub wakeup : Loop A → Loop A
  wakeup s = record s { signalled = true }

  -- `handleRead`
  pub handle_read : Loop A → Loop A
  handle_read s = record s { signalled = false }

  -- `queueInLoop` in the loop's own thread. Nothing else takes from the queue, so its enqueue is one
  -- step.
  pub queue_own : Loop A → A → Loop A
  unfolding calling wakeup
  queue_own s a =
      let t = record s {
        queue = store_link (exchange s.queue a) (length s.queue);
        put = s.put ++ a ∷ [];
      } in
      if not (calling s.phase) then wakeup t else t

  -- `queueInLoop` in another thread: the exchange, the store of the link, and the write.
  pub queue_exchange : Loop A → A → Loop A
  queue_exchange s a = record s { queue = exchange s.queue a; put = s.put ++ a ∷ [] }

  pub queue_link : Loop A → ℕ → Loop A
  queue_link s i = record s { queue = store_link s.queue i; waking = suc s.waking }

  pub queue_wakeup : Loop A → Loop A
  unfolding wakeup
  queue_wakeup s = record (wakeup s) { waking = s.waking - 1 }

  -- A round of `while (funcs_.dequeue(functor)) functor();`, with the result of `dequeue`.
  pub drained : Loop A → Option A × List (BufferNode A) → Loop A
  drained s (none, rest) = record s { queue = rest; phase = testing }
  drained s (some a, rest) = record s { queue = rest; ran = s.ran ++ a ∷ [] }

  pub drain_one : Loop A → Loop A
  unfolding drained
  drain_one s = drained s (dequeue s.queue)

  -- The test of `while (!funcs_.empty())`, after which the loop polls again.
  pub test_empty : Loop A → Loop A
  test_empty s = record s { phase = if not (is_empty s.queue) then draining else polling }

  pub data Step (s : Loop A) : Loop A → Type ℓ where
    exchanges : (a : A) → Step s (queue_exchange s a)
    links : (i : ℕ) → Step s (queue_link s i)
    writes : 0 < s.waking → Step s (queue_wakeup s)
    -- The poll returns: for the event descriptor, for another one, or after its time.
    polled : s.phase ≡ polling → Step s (record s { phase = handling })
    reads : s.phase ≡ handling → s.signalled ≡ true → Step s (handle_read s)
    -- A callback or a functor queues another one.
    queues : (a : A) → s.phase ≢ polling → Step s (queue_own s a)
    handled : s.phase ≡ handling → Step s (record s { phase = testing })
    tests : s.phase ≡ testing → Step s (test_empty s)
    drains : s.phase ≡ draining → Step s (drain_one s)

-- `loop` has set its flags, and nothing has been queued.
abbrev pub init {ℓ} : {A : Type ℓ} → Loop A
init = record { phase = polling; queue = []; waking = 0; signalled = false; put = []; ran = [] }

pub data Reach {ℓ} {A : Type ℓ} : Loop A → Type ℓ where
  start : Reach init
  later : {s t : Loop A} → Reach s → Step s t → Reach t
