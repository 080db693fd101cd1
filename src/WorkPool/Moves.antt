-- ===== src/WorkPool/Moves.antt =====
-- A worker's step keeps what is known of that worker.
use xiaotu_moe.Base.{ℕ, ◌+◌, ◌≤◌, ◌<◌, ◌≡◌, arith, false, inc64, sub64}
use xiaotu_moe.WorkPool.State.{Pool, Snapshot, Pc, Caller, outside, opening, waiting, stopped}
use xiaotu_moe.WorkPool.Worker.{
  Work, exit, anchor, draw, run, exhausted, advanced, reanchor_stop, reanchor_run, reanchor_drop,
  execute, finish, anchor_sharded,
}
use xiaotu_moe.WorkPool.Caller.{Fits}
use xiaotu_moe.WorkPool.Frame.{Known-mono, Live-mono, Work-Extends}
use xiaotu_moe.WorkPool.Invariant.{Good, Known, Checked, Live, Shared}

module _ (nt : ℕ) (s : Pool) (fits : Fits s) where
  -- Under the lock the caller stands outside a call or at its barrier.
  Known-snapshot :
      (c : Caller) (pc : ℕ → Pc)
      → s.locked ≡ false
      → Shared nt s c pc
      → Known s c (record { gen = s.gen; start = s.start; n = s.n; task = s.task })
  Known-snapshot outside pc l sh = ground arith
  Known-snapshot stopped pc l sh = ground arith
  Known-snapshot (waiting f k) pc l sh = ground arith
  Known-snapshot c pc l sh = ground arith

  Known-le : (c : Caller) (sn : Snapshot) → Known s c sn → sn.gen ≤ s.gen
  Known-le (opening f k) sn h = omega arith
  Known-le c sn h = omega arith

  -- A fresh ticket lies behind the range of every call that is over.
  Checked-draw :
      (c : Caller) (pc : ℕ → Pc) (sn : Snapshot)
      → Shared nt s c pc
      → Known s c sn
      → Checked (record s { counter = s.counter + 1 }) c sn s.counter
  Checked-draw outside pc sn sh h = ground arith
  Checked-draw stopped pc sn sh h = ground arith
  Checked-draw (opening f k) pc sn sh h = ground arith
  Checked-draw c pc sn sh h = ground arith

  -- The test of the fast path passes for a ticket of the current call only.
  Live-run :
      (c : Caller) (pc : ℕ → Pc) (sn : Snapshot) (t : ℕ)
      → Shared nt s c pc
      → s.gen ≡ sn.gen
      → sub64 t sn.start < sn.n
      → Known s c sn × Checked s c sn t
      → Live s c sn t
  Live-run (waiting f k) pc sn t sh e lt h = ground arith
  Live-run (opening f k) pc sn t sh e lt h = ground arith
  Live-run c pc sn t sh e lt h = ground arith

  Live-reanchor :
      (c : Caller) (pc : ℕ → Pc) (sn : Snapshot) (t : ℕ)
      → Shared nt s c pc
      → s.locked ≡ false
      → sub64 t s.start < s.n
      → Checked s c sn t
      → Live s c (record { gen = s.gen; start = s.start; n = s.n; task = s.task }) t
  Live-reanchor (waiting f k) pc sn t sh l lt h = ground arith
  Live-reanchor c pc sn t sh l lt h = ground arith

  Known-of_Live : (c : Caller) (sn : Snapshot) (t : ℕ) → Live s c sn t → Known s c sn
  Known-of_Live (waiting f k) sn t h = ground arith
  Known-of_Live c sn t h = elim h [ ]

  pub Good-own :
      {node : ℕ} {p p' : Pc} {q : Pool} (c : Caller) (pc : ℕ → Pc)
      → s.sharded_call ≡ 0
      → Work node s p q p'
      → Shared nt s c pc
      → Good s c p
      → Good q c p'
  Good-own c pc flat (exit l st) sh g = tt
  Good-own c pc flat (anchor l ne z) sh g = Known-snapshot c pc l sh
  Good-own {node} c pc flat (draw {sn}) sh g = (
    Known-mono (Work-Extends node s fits (draw {sn = sn})) c sn g,
    rw counted (Checked-draw c pc sn sh g),
  )
    where
      counted : inc64 s.counter ≡ s.counter + 1
      counted = omega arith
  Good-own c pc flat (run {sn} {t} e lt) sh g = Live-run c pc sn t sh e lt g
  Good-own c pc flat (exhausted {sn} e le) sh g = Known-le c sn g.0
  Good-own c pc flat (advanced {sn} ne) sh g = (ground (arith, Known-le c sn g.0), g.1)
  Good-own c pc flat (reanchor_stop l st) sh g = tt
  Good-own c pc flat (reanchor_run {sn} {t} l st lt) sh g = Live-reanchor c pc sn t sh l lt g.1
  Good-own c pc flat (reanchor_drop l st le) sh g = omega arith
  Good-own {node} c pc flat (execute {sn} {t}) sh g =
      Live-mono (Work-Extends node s fits (execute {sn = sn} {t = t})) c sn t g
  Good-own {node} c pc flat (finish {sn} {t}) sh g =
      Known-mono (Work-Extends node s fits (finish {sn = sn} {t = t})) c sn (Known-of_Live c sn t g)
  Good-own c pc flat (anchor_sharded l ne pos) sh g = absurd (omega arith)
  Good-own c pc flat w sh g = elim g [ ]
