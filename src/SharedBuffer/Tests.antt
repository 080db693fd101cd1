-- ===== src/SharedBuffer/Tests.antt =====
-- Two requests in a fresh buffer.
use xiaotu_moe.Base.{◌≤◌, arith, List, [], ◌∷◌}
use xiaotu_moe.SharedBuffer.State.{Request, init, alloc}
use xiaotu_moe.SharedBuffer.Layout.{Consecutive, bytes_of, alloc-Consecutive}

abbrev two_requests : List Request
two_requests = record { target = 3; bytes = 100 } ∷ record { target = 5; bytes = 28 } ∷ []

alloc-Consecutive_example :
    Consecutive
      (alloc 640 1 two_requests (init (λ _. 0))).base
      two_requests
      (alloc 640 1 two_requests (init (λ _. 0))).pointers
    × (bytes_of two_requests ≤ (alloc 640 1 two_requests (init (λ _. 0))).size)
alloc-Consecutive_example =
    alloc-Consecutive 640 1 two_requests (init (λ _. 0)) (((λ e. omega arith), tt), (tt, tt))
      (omega arith)
