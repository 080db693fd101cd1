-- ===== src/WorkPool/Asleep.antt =====
-- A generation that every worker has marked as handled while its tickets are still to be drawn.
use xiaotu_moe.Base.{ℕ, zero, suc, ◌<◌, ◌^◌, ◌≡◌, refl, arith, Bool, false, ℕ_discrete}
use xiaotu_moe.WorkPool.State.{Pool, Pc, idle, Caller, waiting}
use xiaotu_moe.WorkPool.Worker.{Work}
use xiaotu_moe.WorkPool.Caller.{Call, System, Step, work, call, Reach, later}

-- The caller waits for work that is left, and every worker sleeps with the current generation
-- as its last.
pub record IsAsleep (nt : ℕ) (s : System) : Type 0 where
  pub waits : (f : ℕ) × (k : ℕ) × (s.caller ≡ waiting f k)
  pub left : 0 < s.pool.remaining
  pub open_pool : s.pool.stop ≡ false
  pub marked : (i : ℕ) → i < nt → s.pc i ≡ idle s.pool.gen

below_two : (P : ℕ → Type 0) → P 0 → P 1 → (i : ℕ) → i < 2 → P i
below_two P a b zero h = a
below_two P a b (suc zero) h = b
below_two P a b (suc (suc i)) h = absurd (omega arith)

idle_stuck : {m : ℕ} {s q : Pool} {p p' : Pc} → s.stop ≡ false → p ≡ idle s.gen → ¬ Work m s p q p'
idle_stuck open_pool e (Work.exit l st) = cc
idle_stuck open_pool e (Work.anchor l ne z) = ground arith
idle_stuck open_pool e (Work.anchor_sharded l ne z) = ground arith
idle_stuck open_pool e w = ground arith

waiting_stuck :
    {nt : ℕ} {present : ℕ → Bool} {sharding : Bool} {s q : Pool} {c c' : Caller} (f k : ℕ)
    → 0 < s.remaining
    → c ≡ waiting f k
    → ¬ Call nt present sharding s c q c'
waiting_stuck f k left e (Call.finish_call z) = omega arith
waiting_stuck f k left e w = ground arith

-- Nothing can happen in such a state: the call never returns.
pub asleep_stuck :
    {nt : ℕ} {node : ℕ → ℕ} {present : ℕ → Bool} {sharding : Bool} {s : System}
    → IsAsleep nt s
    → (t : System) → ¬ Step nt node present sharding s t
asleep_stuck a t (work i lt w) = idle_stuck a.open_pool (a.marked i lt) w
asleep_stuck a t (call w) = waiting_stuck a.waits.0 a.waits.1 a.left a.waits.2 w

-- After a call of two items: both workers have drawn a ticket behind its range, 2 and 3, and have
-- not read the generation yet.
module _ (node : ℕ → ℕ) (present : ℕ → Bool) where
  reach_overdrawn : (s : System) × Reach 2 node present false s
  unfolding ℕ_discrete
  reach_overdrawn = (
    _,
    later
        (later
          (later
            (later
              (later
                (later
                  (later
                    (later
                      (later
                        (later
                          (later
                            (later
                              (later
                                (later
                                  (later
                                    (later
                                      (later (Reach.start)
                                        (call (Call.open_call 7 2 (omega arith) (omega arith) refl))
                                        (omega arith))
                                      (call Call.bump) (omega arith))
                                    (call Call.mark) (omega arith))
                                  (call Call.publish) (omega arith))
                                (work 0 (omega arith) (Work.anchor refl (omega arith) refl))
                                (omega arith))
                              (work 0 (omega arith) Work.draw) (omega arith))
                            (work 0 (omega arith) (Work.run refl (omega arith))) (omega arith))
                          (work 0 (omega arith) Work.execute) (omega arith))
                        (work 0 (omega arith) Work.finish) (omega arith))
                      (work 0 (omega arith) Work.draw) (omega arith))
                    (work 0 (omega arith) (Work.run refl (omega arith))) (omega arith))
                  (work 0 (omega arith) Work.execute) (omega arith))
                (work 0 (omega arith) Work.finish) (omega arith))
              (work 0 (omega arith) Work.draw) (omega arith))
            (work 1 (omega arith) (Work.anchor refl (omega arith) refl)) (omega arith))
          (work 1 (omega arith) Work.draw) (omega arith))
        (call (Call.finish_call refl)) (omega arith),
  )

  lost_call :
      (f k : ℕ) → 1 < k → k < 2 ^ 63 → (s : System) × Reach 2 node present false s × IsAsleep 2 s
  unfolding ℕ_discrete reach_overdrawn
  lost_call f k lo hi = (
    _,
    later
        (later
          (later
            (later
              (later
                (later
                  (later
                    (later (reach_overdrawn.1) (call (Call.open_call f k (omega arith) lo refl))
                      (omega arith))
                    (call Call.bump) (omega arith))
                  (call Call.mark) (omega arith))
                (call Call.publish) (omega arith))
              (work 0 (omega arith) (Work.advanced (omega arith))) (omega arith))
            (work 0 (omega arith) (Work.reanchor_drop refl refl (omega arith))) (omega arith))
          (work 1 (omega arith) (Work.advanced (omega arith))) (omega arith))
        (work 1 (omega arith) (Work.reanchor_drop refl refl (omega arith))) (omega arith),
    record {
      waits = (f, k, refl);
      left = omega arith;
      open_pool = refl;
      marked = below_two _ refl refl;
    },
  )

  -- With two workers, whatever the call: there is a history of flat calls after which the caller
  -- waits for all k items and no thread has a step left.
  pub parallel_for_may_hang :
      (f k : ℕ)
      → 1 < k
      → k < 2 ^ 63
      → (s : System) × Reach 2 node present false s
        × (s.caller ≡ waiting f k)
        × (s.pool.remaining ≡ k)
        × ((t : System) → ¬ Step 2 node present false s t)
  unfolding lost_call ℕ_discrete reach_overdrawn
  parallel_for_may_hang f k lo hi =
      let (s, r, a) = lost_call f k lo hi in (s, r, refl, refl, asleep_stuck a)
