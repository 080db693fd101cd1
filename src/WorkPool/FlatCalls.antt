-- ===== src/WorkPool/FlatCalls.antt =====
-- What a call of `parallel_for` promises, as long as the pool serves flat calls only.
use xiaotu_moe.Base.{ℕ, ◌+◌, ◌≤◌, ◌<◌, ◌≡◌, refl, arith, Bool, false, total, total_mono, subst}
use xiaotu_moe.WorkPool.State.{Pc, drawn, stale, running, ran, waiting}
use xiaotu_moe.WorkPool.Caller.{System, Step, work, call, Fits, Reach, start, later}
use xiaotu_moe.WorkPool.Invariant.{holds, pending, runs, AreJobs, Shared, Inv}
use xiaotu_moe.WorkPool.Calls.{Work-Inv, Call-Inv}

Reach-Fits :
    {nt : ℕ} {node : ℕ → ℕ} {present : ℕ → Bool} {sharding : Bool} {s : System}
    → Reach nt node present sharding s
    → Fits s.pool
Reach-Fits start = omega arith
Reach-Fits (later r st fits) = fits

-- Who has yet to run a ticket holds it.
pending-le-holds : (a n i : ℕ) (p : Pc) → i < n → pending (a + i) p ≤ holds a n p
pending-le-holds a n i (drawn sn t) h = ground arith
pending-le-holds a n i (stale sn t) h = ground arith
pending-le-holds a n i (running sn t) h = ground arith
pending-le-holds a n i (ran sn t) h = ground arith
pending-le-holds a n i p h = omega arith

module _ {nt : ℕ} {node : ℕ → ℕ} {present : ℕ → Bool} where
  Step-Inv :
      {s t : System}
      → Fits s.pool
      → Step nt node present false s t
      → Inv nt s.pool s.caller s.pc
      → Inv nt t.pool t.caller t.pc
  Step-Inv {s} fits (work i lt w) inv = Work-Inv s.caller s.pc i lt fits w inv
  Step-Inv {s} fits (call c) inv = Call-Inv s.pc fits c inv

  -- Every state that flat calls reach satisfies the invariant: tickets are neither lost nor drawn
  -- twice, a snapshot is of a generation that has begun, and a function runs only while its own
  -- call waits.
  pub Reach-Inv : {s : System} → Reach nt node present false s → Inv nt s.pool s.caller s.pc
  Reach-Inv start = record {
    flat = refl;
    alive = refl;
    each = λ j h. omega arith;
    shared = (refl, omega arith);
  }
  Reach-Inv (later r st fits) = Step-Inv (Reach-Fits r) st (Reach-Inv r)

  waiting-Inv :
      {s : System} (f k : ℕ)
      → Reach nt node present false s
      → s.caller ≡ waiting f k
      → Inv nt s.pool (waiting f k) s.pc
  waiting-Inv {s} f k r e = subst (λ c. Inv nt s.pool c s.pc) e (Reach-Inv r)

  -- In a history of flat calls, short of the 64-bit wrap of tickets and generations: when the
  -- completion barrier of `parallel_for(k, f)` opens, f has run exactly once for each index below
  -- k, and nothing else has run for the call.
  pub parallel_for_exactly_once :
      {s : System} (f k : ℕ)
      → Reach nt node present false s
      → s.caller ≡ waiting f k
      → s.pool.remaining ≡ 0
      → ((i : ℕ) → i < k → runs f i s.pool.log ≡ 1) × AreJobs f k s.pool.log
  parallel_for_exactly_once {s} f k r e z = (each_once, shared.7)
    where
      shared : Shared nt s.pool (waiting f k) s.pc
      shared = (waiting-Inv f k r e).shared

      none_held : total (holds s.pool.start s.pool.n) nt s.pc ≡ 0
      none_held = ground (arith, shared.5)

      none_pending : (i : ℕ) → i < k → total (pending (s.pool.start + i)) nt s.pc ≡ 0
      none_pending i h = omega (
        arith,
        none_held,
        total_mono (pending (s.pool.start + i)) (holds s.pool.start s.pool.n) nt s.pc
            (λ j _. pending-le-holds s.pool.start s.pool.n i (s.pc j) (omega (arith, shared.2))),
      )

      all_drawn : s.pool.start + s.pool.n ≤ s.pool.counter
      all_drawn = ground (arith, shared.5, none_held, z, shared.3)

      each_once : (i : ℕ) → i < k → runs f i s.pool.log ≡ 1
      each_once i h =
          let lt : i < s.pool.n = omega (arith, shared.2) in
          rw (← shared.1) (ground (arith, none_pending i h, shared.6 i lt, all_drawn))
