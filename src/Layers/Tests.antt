-- ===== src/Layers/Tests.antt =====
-- Tests and concrete instances.
use xiaotu_moe.Base.{refl, arith, ℕ, ◌*◌, ◌<◌, ◌≡◌, some, [], ◌∷◌, none}
use xiaotu_moe.Layers.Serial.{in_order}
use xiaotu_moe.Layers.Covered.{forward_stuck, Covers, forward-Covers}
use xiaotu_moe.Layers.Jobs.{at, at_once}
use xiaotu_moe.Layers.Batches.{forward, forward_rec, single, group}

forward_runs :
    forward 30 4 10 25 23 ≡ some (group 0 10 ∷ group 10 10 ∷ single 20 ∷ single 21 ∷ single 22 ∷ [])
forward_runs = refl

forward_rec_runs : forward_rec 5 2 0 5 ≡ some (group 0 2 ∷ group 2 2 ∷ group 4 1 ∷ [])
forward_rec_runs = refl

forward-Covers_example : Covers 10 0 23 (forward 30 4 10 25 23)
forward-Covers_example = forward-Covers 30 4 10 25 23 (omega arith) (omega arith)

forward_stuck_example : forward 100 4 0 9 7 ≡ none
forward_stuck_example = forward_stuck 100 4 9 7 (omega arith) (omega arith)

at_once_example :
    (t : ℕ) × (t < 5 * 3)
    × ((at {numa_nodes = 2} (omega arith) (in_order 2 (omega arith)) 0 3 5 t).expert ≡ 2)
    × ((at {numa_nodes = 2} (omega arith) (in_order 2 (omega arith)) 0 3 5 t).ith ≡ 4)
    × ((u : ℕ)
        → u < 5 * 3
        → (at {numa_nodes = 2} (omega arith) (in_order 2 (omega arith)) 0 3 5 u).expert ≡ 2
        → (at {numa_nodes = 2} (omega arith) (in_order 2 (omega arith)) 0 3 5 u).ith ≡ 4
        → u ≡ t)
at_once_example =
    at_once {numa_nodes = 2} (omega arith) (in_order 2 (omega arith)) 0 3 5 2 4 (omega arith)
      (omega arith)
