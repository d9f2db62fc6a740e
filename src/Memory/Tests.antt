-- ===== src/Memory/Tests.antt =====
-- The arithmetic of handles and size classes, and a buffer, on concrete inputs.
use mutty.Common.{◌≡◌, arith}
use mutty.Memory.SizeClasses.{
  size_to_size_idx_compute, size_idx_to_size_compute, normalize_size_compute, page_size_to_page_idx,
}
use mutty.Memory.SizeClasses.Rounding.{
  IsSmallestFit, size_to_size_idx_compute-IsSmallestFit, normalize_size_compute-search,
  page_size_to_page_idx-IsSmallestFit,
}

size_to_size_idx_compute_example : IsSmallestFit 4 5000 (size_to_size_idx_compute 5000)
size_to_size_idx_compute_example =
    size_to_size_idx_compute-IsSmallestFit 5000 (omega arith) (omega arith)

normalize_size_compute-search_example :
    size_idx_to_size_compute (size_to_size_idx_compute 5000) ≡ normalize_size_compute 5000
normalize_size_compute-search_example =
    normalize_size_compute-search 5000 (omega arith) (omega arith)

page_size_to_page_idx_example : IsSmallestFit 13 20000 (page_size_to_page_idx 13 20000)
page_size_to_page_idx_example =
    page_size_to_page_idx-IsSmallestFit 13 20000 (omega arith) (omega arith) (omega arith)
