-- ===== src/WorkPool/Tests.antt =====
-- The pool on small histories.
use xiaotu_moe.Base.{ℕ, ◌<◌, ◌-◌, ◌≡◌, refl, arith, true, false, [], ◌∷◌, ℕ_discrete}
use xiaotu_moe.WorkPool.State.{flat_run, shard_run, waiting, shard_waiting}
use xiaotu_moe.WorkPool.Worker.{Work}
use xiaotu_moe.WorkPool.Caller.{Call, System, Step, work, call, Reach, later}
use xiaotu_moe.WorkPool.Invariant.{runs, AreJobs}
use xiaotu_moe.WorkPool.FlatCalls.{parallel_for_exactly_once}
use xiaotu_moe.WorkPool.Asleep.{parallel_for_may_hang}
use xiaotu_moe.WorkPool.Sharded.{sharded_runs_stale_task, sharded_runs_flat_task}

-- Two items, both run by worker 0 of two, and counted down.
two_items : (s : System) × Reach 2 (λ _. 0) (λ _. true) false s
unfolding ℕ_discrete
two_items = (
  _,
  later
      (later
        (later
          (later
            (later
              (later
                (later
                  (later
                    (later
                      (later
                        (later
                          (later
                            (later (Reach.start)
                              (call (Call.open_call 7 2 (omega arith) (omega arith) refl))
                              (omega arith))
                            (call Call.bump) (omega arith))
                          (call Call.mark) (omega arith))
                        (call Call.publish) (omega arith))
                      (work 0 (omega arith) (Work.anchor refl (omega arith) refl)) (omega arith))
                    (work 0 (omega arith) Work.draw) (omega arith))
                  (work 0 (omega arith) (Work.run refl (omega arith))) (omega arith))
                (work 0 (omega arith) Work.execute) (omega arith))
              (work 0 (omega arith) Work.finish) (omega arith))
            (work 0 (omega arith) Work.draw) (omega arith))
          (work 0 (omega arith) (Work.run refl (omega arith))) (omega arith))
        (work 0 (omega arith) Work.execute) (omega arith))
      (work 0 (omega arith) Work.finish) (omega arith),
)

parallel_for_exactly_once_example :
    ((i : ℕ) → i < 2 → runs 7 i (flat_run 7 1 ∷ flat_run 7 0 ∷ []) ≡ 1)
    × AreJobs 7 2 (flat_run 7 1 ∷ flat_run 7 0 ∷ [])
unfolding two_items ℕ_discrete
parallel_for_exactly_once_example =
    parallel_for_exactly_once {s = two_items.0} 7 2 two_items.1 refl refl

parallel_for_may_hang_example :
    (s : System) × Reach 2 (λ _. 0) (λ _. true) false s
    × (s.caller ≡ waiting 8 3)
    × (s.pool.remaining ≡ 3)
    × ((t : System) → ¬ Step 2 (λ _. 0) (λ _. true) false s t)
parallel_for_may_hang_example =
    parallel_for_may_hang (λ _. 0) (λ _. true) 8 3 (omega arith) (omega arith)

sharded_runs_stale_task_example :
    (s : System) × Reach 2 (λ _. 0) (λ _. true) true s
    × (s.caller ≡ shard_waiting 6 1)
    × (s.pool.remaining ≡ 4 - 1)
    × (s.pool.node_ticket 0 ≡ 1)
    × (s.pool.log ≡ shard_run 5 0 0 ∷ [])
sharded_runs_stale_task_example = sharded_runs_stale_task 5 6 4 (omega arith) (omega arith)

sharded_runs_flat_task_example :
    (s : System) × Reach 2 (λ _. 0) (λ _. true) true s
    × (s.caller ≡ shard_waiting 6 1)
    × (s.pool.remaining ≡ 4 - 1)
    × (s.pool.log ≡ flat_run 5 2 ∷ [])
sharded_runs_flat_task_example = sharded_runs_flat_task 5 6 4 (omega arith) (omega arith)
