-- ===== src/WorkPool/Sharded.antt =====
-- Sharded calls: a worker that is late for the end of a call takes a ticket of the next one, and
-- runs the function of the call before. Two workers on one node are enough.
use xiaotu_moe.Base.{ℕ, ◌-◌, ◌<◌, ◌^◌, ◌≡◌, refl, arith, true, [], ◌∷◌, ℕ_discrete, total}
use xiaotu_moe.WorkPool.State.{flat_run, shard_run, shard_waiting}
use xiaotu_moe.WorkPool.Worker.{Work}
use xiaotu_moe.WorkPool.Caller.{Call, System, work, call, Reach, later}

abbrev Reaches : System → Type 0
Reaches = Reach 2 (λ _. 0) (λ _. true) true

-- A sharded call of one job is over; worker 0 is about to draw its next ticket.
after_sharded : (f : ℕ) → (s : System) × Reaches s
unfolding ℕ_discrete total
after_sharded f = (
  _,
  later
      (later
        (later
          (later
            (later
              (later
                (later
                  (later
                    (later
                      (later (Reach.start)
                        (call (
                          Call.shard_open f 1 (λ _. 1) refl (omega arith) (omega arith)
                            (omega arith) (λ m h. refl) refl))
                        (omega arith))
                      (call Call.shard_bump) (omega arith))
                    (call Call.shard_publish) (omega arith))
                  (work 0 (omega arith) (Work.anchor_sharded refl (omega arith) (omega arith)))
                  (omega arith))
                (work 0 (omega arith) (Work.shard_enter (omega arith))) (omega arith))
              (work 0 (omega arith) Work.shard_draw) (omega arith))
            (work 0 (omega arith) (Work.shard_take refl (omega arith))) (omega arith))
          (work 0 (omega arith) Work.shard_execute) (omega arith))
        (work 0 (omega arith) Work.shard_finish) (omega arith))
      (call (Call.shard_return refl)) (omega arith),
)

-- A flat call of two items is over; worker 0 is about to draw its next ticket.
after_flat : (f : ℕ) → (s : System) × Reaches s
unfolding ℕ_discrete
after_flat f = (
  _,
  later
      (later
        (later
          (later
            (later
              (later
                (later
                  (later
                    (later
                      (later
                        (later
                          (later
                            (later
                              (later (Reach.start)
                                (call (Call.open_call f 2 (omega arith) (omega arith) refl))
                                (omega arith))
                              (call Call.bump) (omega arith))
                            (call Call.mark) (omega arith))
                          (call Call.publish) (omega arith))
                        (work 0 (omega arith) (Work.anchor refl (omega arith) refl)) (omega arith))
                      (work 0 (omega arith) Work.draw) (omega arith))
                    (work 0 (omega arith) (Work.run refl (omega arith))) (omega arith))
                  (work 0 (omega arith) Work.execute) (omega arith))
                (work 0 (omega arith) Work.finish) (omega arith))
              (work 0 (omega arith) Work.draw) (omega arith))
            (work 0 (omega arith) (Work.run refl (omega arith))) (omega arith))
          (work 0 (omega arith) Work.execute) (omega arith))
        (work 0 (omega arith) Work.finish) (omega arith))
      (call (Call.finish_call refl)) (omega arith),
)

-- After a sharded call of f, a sharded call of g with k jobs can reach a state in which ticket 0
-- is spent and one job is counted down, while only f has run during the call: g is not called
-- for that job any more.
pub sharded_runs_stale_task :
    (f g k : ℕ)
    → 0 < k
    → k < 2 ^ 63
    → (s : System) × Reaches s
      × (s.caller ≡ shard_waiting g 1)
      × (s.pool.remaining ≡ k - 1)
      × (s.pool.node_ticket 0 ≡ 1)
      × (s.pool.log ≡ shard_run f 0 0 ∷ [])
unfolding after_sharded ℕ_discrete total
sharded_runs_stale_task f g k lo hi = (
  _,
  later
      (later
        (later
          (later
            (later
              (later
                (later
                  (later ((after_sharded f).1)
                    (call (
                      Call.shard_open g 1 (λ _. k) refl (omega arith) (omega arith) (omega arith)
                        (λ m h. refl) refl))
                    (omega arith))
                  (call Call.shard_bump) (omega arith))
                (call Call.shard_publish) (omega arith))
              (work 0 (omega arith) Work.shard_draw) (omega arith))
            (work 0 (omega arith) (Work.shard_advanced (omega arith))) (omega arith))
          (work 0 (omega arith) (Work.shard_reanchor_run refl refl (omega arith) (omega arith)))
          (omega arith))
        (work 0 (omega arith) Work.shard_execute) (omega arith))
      (work 0 (omega arith) Work.shard_finish) (omega arith),
  refl,
  omega arith,
  refl,
  refl,
)

-- After a flat call of f with two items, a sharded call of g with more than two jobs can reach a
-- state in which one of its jobs is counted down, while f has been called with the index 2, which
-- its own call excluded.
pub sharded_runs_flat_task :
    (f g k : ℕ)
    → 2 < k
    → k < 2 ^ 63
    → (s : System) × Reaches s
      × (s.caller ≡ shard_waiting g 1)
      × (s.pool.remaining ≡ k - 1)
      × (s.pool.log ≡ flat_run f 2 ∷ [])
unfolding after_flat ℕ_discrete total
sharded_runs_flat_task f g k lo hi = (
  _,
  later
      (later
        (later
          (later
            (later
              (later
                (later
                  (later ((after_flat f).1)
                    (call (
                      Call.shard_open g 1 (λ _. k) refl (omega arith) (omega arith) (omega arith)
                        (λ m h. refl) refl))
                    (omega arith))
                  (call Call.shard_bump) (omega arith))
                (call Call.shard_publish) (omega arith))
              (work 0 (omega arith) Work.draw) (omega arith))
            (work 0 (omega arith) (Work.advanced (omega arith))) (omega arith))
          (work 0 (omega arith) (Work.reanchor_run refl refl (omega arith))) (omega arith))
        (work 0 (omega arith) Work.execute) (omega arith))
      (work 0 (omega arith) Work.finish) (omega arith),
  refl,
  omega arith,
  refl,
)
