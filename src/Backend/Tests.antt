-- ===== src/Backend/Tests.antt =====
-- The split and the counters on small inputs.
use xiaotu_moe.Base.{
  refl, arith, ℕ, zero, suc, ◌*◌, ◌%◌, ◌≤◌, ◌<◌, ◌≡◌, some, if◌then◌else◌, ltb, List, [], ◌∷◌,
  count, run_all, none, range, All,
}
use xiaotu_moe.Backend.Nodes.{Share, Chain, do_k_work_stealing_job}
use xiaotu_moe.Backend.Placed.{Placed}
use xiaotu_moe.Backend.Places.{cpus_on, node_threads_work, node_threads_throw}
use xiaotu_moe.Backend.Threads.{node_threads}
use xiaotu_moe.Backend.State.{do_work, fetch}
use xiaotu_moe.Backend.Stealing.{do_work_exactly_once}

-- Five tasks on two threads, thread 1 stealing one task from thread 0.
abbrev stealing_order : List ℕ
stealing_order = 1 ∷ 0 ∷ 1 ∷ 1 ∷ 0 ∷ 0 ∷ 0 ∷ []

do_work_exactly_once_example :
    count 3 (run_all fetch stealing_order (do_work 2 5)).computed ≡ (if ltb 3 5 then 1 else 0)
do_work_exactly_once_example =
    do_work_exactly_once 2 5 stealing_order (omega arith)
      (
        omega arith,
        (
          omega arith,
          (omega arith, (omega arith, (omega arith, (omega arith, (omega arith, tt))))),
        ),
      )
      (λ i lt. ground arith) 3

-- Eight CPUs on two nodes, in turn.
abbrev turns : ℕ → ℕ
turns cid = cid % 2

node_threads_runs : node_threads 8 2 turns none ≡ (0 ∷ 1 ∷ []) ∷ (2 ∷ 3 ∷ []) ∷ []
node_threads_runs = refl

turns_have : (i : ℕ) → i < 2 → 1 ≤ cpus_on turns i (range 0 8)
turns_have zero h = omega arith
turns_have (suc zero) h = omega arith
turns_have (suc (suc i)) h = absurd (omega arith)

node_threads_work_example :
    (shares : List Share) × (do_k_work_stealing_job 3 5 (node_threads 8 2 turns (some 100))
      ≡ some shares)
    × Chain 0 shares (5 * 3)
    × All (λ (s : Share). Placed (node_threads 8 2 turns (some 100)) s.tid) shares
node_threads_work_example =
    node_threads_work 8 2 turns (some 100) (omega arith) (omega arith) turns_have 3 5

node_threads_throw_example : do_k_work_stealing_job 3 5 (node_threads 8 3 turns none) ≡ none
node_threads_throw_example = node_threads_throw 8 3 turns none 2 (omega arith) refl 3 5
