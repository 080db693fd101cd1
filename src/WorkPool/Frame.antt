-- ===== src/WorkPool/Frame.antt =====
-- What a worker's step leaves alone, and what the other workers know after it.
use xiaotu_moe.Base.{ℕ, ◌≤◌, ◌≡◌, refl, arith}
use xiaotu_moe.WorkPool.State.{
  Pool, Snapshot, Pc, idle, pulling, drawn, stale, running, ran, exited, Caller, opening, waiting,
}
use xiaotu_moe.WorkPool.Worker.{Work, draw}
use xiaotu_moe.WorkPool.Caller.{Fits}
use xiaotu_moe.WorkPool.Invariant.{Good, Known, Checked, Live}

-- The call in progress is the same, and tickets are only drawn.
pub record Extends (s q : Pool) : Type 0 where
  pub gen : q.gen ≡ s.gen
  pub start : q.start ≡ s.start
  pub n : q.n ≡ s.n
  pub task : q.task ≡ s.task
  pub locked : q.locked ≡ s.locked
  pub sharded : q.sharded_call ≡ s.sharded_call
  pub counter : s.counter ≤ q.counter

pub Work-Extends :
    (node : ℕ) (s : Pool) {p p' : Pc} {q : Pool} → Fits s → Work node s p q p' → Extends s q
Work-Extends node s fits draw = record {
  gen = refl;
  start = refl;
  n = refl;
  task = refl;
  locked = refl;
  sharded = refl;
  counter = omega arith;
}
Work-Extends node s fits w = record {
  gen = refl;
  start = refl;
  n = refl;
  task = refl;
  locked = refl;
  sharded = refl;
  counter = omega arith;
}

module _ {s q : Pool} (e : Extends s q) where
  pub Known-mono : (c : Caller) (sn : Snapshot) → Known s c sn → Known q c sn
  Known-mono (opening f k) sn h = ground (arith, e.gen, e.counter)
  Known-mono c sn h = ground (arith, e.gen, e.start, e.n, e.task)

  Checked-mono : (c : Caller) (sn : Snapshot) (t : ℕ) → Checked s c sn t → Checked q c sn t
  Checked-mono (opening f k) sn t h = ground (arith, e.gen, e.counter)
  Checked-mono c sn t h = ground (arith, e.start, e.n, e.counter)

  pub Live-mono : (c : Caller) (sn : Snapshot) (t : ℕ) → Live s c sn t → Live q c sn t
  Live-mono (waiting f k) sn t h = ground (arith, e.gen, e.start, e.n, e.task, e.counter)
  Live-mono c sn t h = elim h [ ]

  pub Good-mono : (c : Caller) (o : Pc) → Good s c o → Good q c o
  Good-mono c (idle last) h = omega (arith, e.gen)
  Good-mono c (pulling sn) h = Known-mono c sn h
  Good-mono c (drawn sn t) h = (Known-mono c sn h.0, Checked-mono c sn t h.1)
  Good-mono c (stale sn t) h = (omega (arith, e.gen), Checked-mono c sn t h.1)
  Good-mono c (running sn t) h = Live-mono c sn t h
  Good-mono c (ran sn t) h = Live-mono c sn t h
  Good-mono c exited h = tt
  Good-mono c o h = elim h [ ]
