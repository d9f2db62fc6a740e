-- ===== src/Memory/ThreadCache/Tests.antt =====
-- A thread's cache (buffer/PoolThreadCache.cpp) of two entries of one size.
use mutty.Common.{ℕ, ◌+◌, ◌≡◌, Bool, false, [], ◌∷◌, ◌==◌}
use mutty.Memory.SizeClasses.Pages.{default_classes}
use mutty.Memory.ThreadCache.{Entry, ThreadCache, Call, step}
use mutty.Memory.ThreadCache.Conservation.{count, count_some, held, held-step}

abbrev entry_at : ℕ → Entry
entry_at handle = record { chunk = 1; buffer = 0; handle = handle; norm_capacity = 16 }

-- The next allocation is the one that sweeps.
abbrev two_entries : ThreadCache
two_entries = record {
  small_caches = (record { size = 4; allocations = 1; queue = entry_at 5 ∷ entry_at 6 ∷ [] }) ∷ [];
  normal_caches = [];
  allocations = 8191;
  free_sweep_allocation_threshold = 8192;
  to_free = false;
}

abbrev is_6 : Entry → Bool
is_6 e = e.handle == 6

held-step_example :
    let (accepted, answer, t') = step default_classes two_entries (Call.take_small 0) in
    held is_6 two_entries + count is_6 accepted
    ≡ count_some is_6 answer.given + count is_6 answer.freed + held is_6 t'
held-step_example = held-step is_6 default_classes two_entries (Call.take_small 0)
