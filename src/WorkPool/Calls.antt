-- ===== src/WorkPool/Calls.antt =====
-- The steps of the workers and of the caller keep the invariant.
use xiaotu_moe.Base.{
  ℕ, ◌+◌, ◌≤◌, ◌<◌, ◌≡◌, refl, ◌⊎◌, inl, inr, arith, Bool, true, false, [], total, total-eq-zero,
  total-ge, update, inc64, if_pos, if_neg, ◌∙◌, ℕ_discrete,
}
use native.Mathlib.Nat.{le_refl}
use xiaotu_moe.WorkPool.State.{
  Pool, Snapshot, Pc, idle, pulling, drawn, stale, running, ran, exited, Caller, outside, opening,
  bumped, started, waiting, stopped,
}
use xiaotu_moe.WorkPool.Worker.{Work}
use xiaotu_moe.WorkPool.Caller.{
  serial_log, Call, shard_serial, shard_open, serial, open_call, bump, mark, publish, finish_call,
  shutdown, Fits,
}
use xiaotu_moe.WorkPool.Invariant.{holds, pending, Good, Known, Checked, Live, Alive, Inv}
use xiaotu_moe.WorkPool.Frame.{Work-Extends, Good-mono}
use xiaotu_moe.WorkPool.Moves.{Good-own}
use xiaotu_moe.WorkPool.Counts.{Shared-Work}

-- `stop_` is not written by a worker.
stop_kept : {node : ℕ} {s q : Pool} {p p' : Pc} → Work node s p q p' → q.stop ≡ s.stop
stop_kept Work.draw = refl
stop_kept w = refl

Alive-Work :
    {node : ℕ} {s q : Pool} {p p' : Pc} (c : Caller) → Work node s p q p' → Alive s c → Alive q c
Alive-Work stopped w a = tt
Alive-Work outside w a = stop_kept w ∙ a
Alive-Work c w a = stop_kept w ∙ a

pub Work-Inv :
    {nt node : ℕ} {s q : Pool} {p' : Pc} (c : Caller) (pc : ℕ → Pc) (i : ℕ)
    → i < nt
    → Fits s
    → Work node s (pc i) q p'
    → Inv nt s c pc
    → Inv nt q c (update pc i p')
Work-Inv {nt} {node} {s} {q} {p'} c pc i lt fits w inv = record {
  flat = (Work-Extends node s fits w).sharded ∙ inv.flat;
  alive = Alive-Work c w inv.alive;
  each = λ j h. elim (ℕ_discrete i j) [
    | yes same ↦
        rw (if_pos (ℕ_discrete i j) same)
          (Good-own nt s fits c pc inv.flat w inv.shared (inv.each i lt))
    | no other ↦
        rw (if_neg (ℕ_discrete i j) other)
          (Good-mono (Work-Extends node s fits w) c (pc j) (inv.each j h))
  ];
  shared = Shared-Work nt s fits pc i lt c inv.flat inv.alive w refl (inv.each i lt) inv.shared;
}

module _ (s q : Pool) (c c' : Caller) where
  -- A step of the caller keeps a worker's facts if it keeps those of snapshots and tickets.
  Good-map :
      s.gen ≤ q.gen
      → ((sn : Snapshot) → Known s c sn → Known q c' sn)
      → ((sn : Snapshot) (t : ℕ)
          → Known s c sn ⊎ (sn.gen < s.gen)
          → Checked s c sn t
          → Checked q c' sn t)
      → ((sn : Snapshot) (t : ℕ) → Live s c sn t → ⊥)
      → (o : Pc) → Good s c o
      → Good q c' o
  Good-map g k d l (idle last) h = omega arith
  Good-map g k d l (pulling sn) h = k sn h
  Good-map g k d l (drawn sn t) h = (k sn h.0, d sn t (inl h.0) h.1)
  Good-map g k d l (stale sn t) h = (omega arith, d sn t (inr h.0) h.1)
  Good-map g k d l (running sn t) h = absurd (l sn t h)
  Good-map g k d l (ran sn t) h = absurd (l sn t h)
  Good-map g k d l exited h = tt
  Good-map g k d l o h = elim h [ ]

module _ (nt : ℕ) (s : Pool) (fits : Fits s) (pc : ℕ → Pc) where
  open_Inv :
      (f k : ℕ)
      → s.locked ≡ false
      → Inv nt s outside pc
      → Inv nt
          (record s { locked = true; task = f; n = k; sharded_call = 0; log = [] })
          (opening f k)
          pc
  open_Inv f k l inv = record {
    flat = refl;
    alive = inv.alive;
    each = λ j h.
        Good-map s (record s { locked = true; task = f; n = k; sharded_call = 0; log = [] }) outside
          (opening f k) (le_refl _) (λ sn g. ground (arith, inv.shared))
          (λ sn t g e. ground (arith, inv.shared)) (λ sn t b. b) (pc j) (inv.each j h);
    shared = (refl, refl, refl, refl);
  }

  bump_Inv :
      (f k : ℕ) → Inv nt s (opening f k) pc → Inv nt (record s { gen = s.gen + 1 }) (bumped f k) pc
  bump_Inv f k inv = record {
    flat = inv.flat;
    alive = inv.alive;
    each = λ j h.
        Good-map s (record s { gen = s.gen + 1 }) (opening f k) (bumped f k) (omega arith)
          (λ sn g. omega arith) (λ sn t g e. omega arith) (λ sn t b. b) (pc j) (inv.each j h);
    shared = inv.shared;
  }

  -- Before `start_` is written every ticket in a worker's hands lies below the counter.
  holds-behind : (f k : ℕ) (o : Pc) → Good s (bumped f k) o → holds s.counter s.n o ≡ 0
  holds-behind f k (drawn sn t) g = ground arith
  holds-behind f k (stale sn t) g = ground arith
  holds-behind f k o g = ground arith

  pending-behind : (f k i : ℕ) (o : Pc) → Good s (bumped f k) o → pending (s.counter + i) o ≡ 0
  pending-behind f k i (drawn sn t) g = ground arith
  pending-behind f k i (stale sn t) g = ground arith
  pending-behind f k i o g = ground arith

  mark_Inv :
      (f k : ℕ)
      → Inv nt s (bumped f k) pc
      → Inv nt (record s { start = s.counter }) (started f k) pc
  mark_Inv f k inv = record {
    flat = inv.flat;
    alive = inv.alive;
    each = λ j h.
        Good-map s (record s { start = s.counter }) (bumped f k) (started f k) (le_refl _)
          (λ sn g. g) (λ sn t g e. e) (λ sn t b. b) (pc j) (inv.each j h);
    shared = (
      inv.shared.0,
      inv.shared.1,
      inv.shared.2,
      inv.shared.3,
      le_refl _,
      omega (
        arith,
        total-eq-zero (holds s.counter s.n) nt pc (λ j h. holds-behind f k (pc j) (inv.each j h)),
      ),
      λ i h. rw (inv.shared.3) (
          ground (
            arith,
            total-eq-zero (pending (s.counter + i)) nt pc
                (λ j h. pending-behind f k i (pc j) (inv.each j h)),
          )),
    );
  }

  publish_Inv :
      (f k : ℕ)
      → Inv nt s (started f k) pc
      → Inv nt (record s { remaining = k; locked = false }) (waiting f k) pc
  publish_Inv f k inv = record {
    flat = inv.flat;
    alive = inv.alive;
    each = λ j h.
        Good-map s (record s { remaining = k; locked = false }) (started f k) (waiting f k)
          (le_refl _) (λ sn g. ground arith) (λ sn t g e. e) (λ sn t b. b) (pc j) (inv.each j h);
    shared = (
      refl,
      inv.shared.1,
      inv.shared.2,
      inv.shared.4,
      omega (arith, inv.shared.2),
      omega (arith, inv.shared.2, inv.shared.5),
      inv.shared.6,
      rw (inv.shared.3) tt,
    );
  }

  -- At the end of the barrier no worker holds a ticket of the call.
  Good-finish :
      (f k : ℕ) (o : Pc) → holds s.start s.n o ≡ 0 → Good s (waiting f k) o → Good s outside o
  Good-finish f k (drawn sn t) z g = ground arith
  Good-finish f k (stale sn t) z g = ground arith
  Good-finish f k (running sn t) z g = ground arith
  Good-finish f k (ran sn t) z g = ground arith
  Good-finish f k o z g = g

  none_held :
      (f k : ℕ)
      → s.remaining ≡ 0
      → Inv nt s (waiting f k) pc
      → (total (holds s.start s.n) nt pc ≡ 0) × (s.start + s.n ≤ s.counter)
  none_held f k z inv = ground (arith, inv.shared.5)

  finish_Inv : (f k : ℕ) → s.remaining ≡ 0 → Inv nt s (waiting f k) pc → Inv nt s outside pc
  finish_Inv f k z inv = record {
    flat = inv.flat;
    alive = inv.alive;
    each = λ j h.
        Good-finish f k (pc j)
          (omega (arith, none_held f k z inv, total-ge (holds s.start s.n) nt pc j h))
          (inv.each j h);
    shared = (inv.shared.0, (none_held f k z inv).1);
  }

pub Call-Inv :
    {nt : ℕ} {present : ℕ → Bool} {s q : Pool} {c c' : Caller} (pc : ℕ → Pc)
    → Fits s
    → Call nt present false s c q c'
    → Inv nt s c pc
    → Inv nt q c' pc
Call-Inv {s = s} pc fits (serial f k small) inv = record {
  flat = inv.flat;
  alive = inv.alive;
  each = λ j h.
      Good-map s (record s { log = serial_log f k }) outside outside (le_refl _) (λ sn g. g)
        (λ sn t g e. e) (λ sn t b. b) (pc j) (inv.each j h);
  shared = inv.shared;
}
Call-Inv {nt} {s = s} pc fits (open_call f k a b l) inv = open_Inv nt s fits pc f k l inv
Call-Inv {nt} {s = s} pc fits (bump {f} {k}) inv = rw counted (bump_Inv nt s fits pc f k inv)
  where
    counted : inc64 s.gen ≡ s.gen + 1
    counted = omega arith
Call-Inv {nt} {s = s} pc fits (mark {f} {k}) inv = mark_Inv nt s fits pc f k inv
Call-Inv {nt} {s = s} pc fits (publish {f} {k}) inv = publish_Inv nt s fits pc f k inv
Call-Inv {nt} {s = s} pc fits (finish_call {f} {k} z) inv = finish_Inv nt s fits pc f k z inv
Call-Inv {s = s} pc fits (shutdown l) inv = record {
  flat = inv.flat;
  alive = tt;
  each = λ j h.
      Good-map s (record s { stop = true }) outside stopped (le_refl _) (λ sn g. g) (λ sn t g e. e)
        (λ sn t b. b) (pc j) (inv.each j h);
  shared = inv.shared;
}
Call-Inv pc fits (shard_serial f nodes jobs off small) inv = cc
Call-Inv pc fits (shard_open f nodes jobs off a b c d l) inv = cc
Call-Inv pc fits w inv = elim inv.shared [ ]
