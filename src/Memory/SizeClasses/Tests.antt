-- ===== src/Memory/SizeClasses/Tests.antt =====
-- The tables of the default configuration.
use mutty.Common.{ℕ, ◌<◌, ◌≤◌, arith}
use mutty.Memory.SizeClasses.{size_to_size_idx, size_idx_to_size}
use mutty.Memory.SizeClasses.Pages.{default_classes, default_built}
use mutty.Memory.SizeClasses.Lookup.{size_to_size_idx_default}

size_to_size_idx_default_example :
    let idx = size_to_size_idx default_classes 5000 in
    (idx < default_classes.n_sizes)
    × (5000 ≤ size_idx_to_size default_classes idx)
    × ((k : ℕ) → k < idx → size_idx_to_size default_classes k < 5000)
size_to_size_idx_default_example =
    size_to_size_idx_default default_classes 5000 default_built (omega arith) (omega arith)
