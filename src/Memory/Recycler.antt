-- ===== src/Memory/Recycler.antt =====
-- The buffers of a thread and those it has recycled: `get` and `recycle` of buffer/Recycler.h,
-- `deallocate` and `newInstance` of buffer/PooledByteBuf.cpp, and the first two calls of
-- `PoolArena::allocate`. A buffer is a number; `none` is a read through a null chunk.
pub mod Reuse
mod Runs
mod Tests
use mutty.Common.{ℕ, ◌≡◌, Bool, Option, none, some, List, [], ◌∷◌, ◌++◌, length, get_or, set, ◌>>=◌}

-- `m_handle` and `m_chunk`: as the constructor leaves them, with a region of memory, whose number is
-- its handle, and -1 with no chunk.
pub data Held : Type 0 where
  unset released : Held
  region : ℕ → Held

pub record Recycler : Type 0 where
  -- `tStack`, from the top, and the buffers that were created
  pub stack : List ℕ
  pub created : List Held
  -- The regions that went back to the arena, the last one first.
  pub freed : List ℕ

pub new_recycler : Recycler
new_recycler = record { stack = []; created = []; freed = [] }

-- `get`, with `newObject`
pub get_from : List ℕ → Recycler → ℕ × Recycler
get_from [] r = (length r.created, record r { created = r.created ++ unset ∷ [] })
get_from (i ∷ stack) r = (i, record r { stack = stack })

pub get : Recycler → ℕ × Recycler
unfolding get_from
get r = get_from r.stack r

pub recycle : ℕ → Recycler → Recycler
recycle i r = record r { stack = i ∷ r.stack }

-- `init0`
pub init : ℕ → Recycler → ℕ → Recycler
init i r handle = record r { created = set r.created i (region handle) }

-- `newByteBuf`, and the `initBuf` that the arena comes to.
pub allocate : ℕ → Recycler → Recycler
unfolding get init
allocate handle r = let (i, s) = get r in init i s handle

pub give_back : Held → ℕ → Recycler → Option Recycler
unfolding recycle
give_back unset i r = none
give_back released i r = some r
give_back (region handle) i r =
    some (recycle i (record r { created = set r.created i released; freed = handle ∷ r.freed }))

pub deallocate : ℕ → Recycler → Option Recycler
unfolding give_back
deallocate i r = give_back (get_or r.created i released) i r

-- A buffer is asked for, with the region that it gets, or deallocated, whichever it is and however
-- often.
pub data Use : Type 0 where
  allocates deallocates : ℕ → Use

pub step : Use → Recycler → Option Recycler
unfolding allocate deallocate
step (allocates handle) r = some (allocate handle r)
step (deallocates i) r = deallocate i r

pub run : List Use → Recycler → Option Recycler
unfolding step
run [] r = some r
run (use_now ∷ uses) r = do s ← step use_now r; run uses s
