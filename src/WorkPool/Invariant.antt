-- ===== src/WorkPool/Invariant.antt =====
-- What holds while callers dispatch flat calls only: where a ticket is, and what has run.
use xiaotu_moe.Base.{
  ℕ, ◌+◌, ◌-◌, ◌≤◌, ◌<◌, ◌≡◌, ◌⊎◌, true, false, List, [], ◌∷◌, ltb, leb, ◌==◌, ◌&&◌, if◌then◌else◌,
  min, total,
}
use xiaotu_moe.WorkPool.State.{
  Event, flat_run, shard_run, Pool, Snapshot, Pc, idle, pulling, drawn, stale, running, ran, exited,
  Caller, outside, opening, bumped, started, waiting, stopped,
}

-- 1 for a worker that holds a ticket of the call with tickets start, …, start + n - 1, until it
-- has counted down.
abbrev pub in_range : ℕ → ℕ → ℕ → ℕ
in_range start n t = if leb start t && ltb t (start + n) then 1 else 0

abbrev pub holds : ℕ → ℕ → Pc → ℕ
holds start n (drawn _ t) = in_range start n t
holds start n (stale _ t) = in_range start n t
holds start n (running _ t) = in_range start n t
holds start n (ran _ t) = in_range start n t
holds start n _ = 0

-- 1 for a worker that holds ticket t and has not run it yet.
abbrev pub pending : ℕ → Pc → ℕ
pending t (drawn _ u) = if u == t then 1 else 0
pending t (stale _ u) = if u == t then 1 else 0
pending t (running _ u) = if u == t then 1 else 0
pending t _ = 0

-- How often `task` ran for index i.
abbrev pub is_run : ℕ → ℕ → Event → ℕ
is_run f i (flat_run g j) = if f == g && i == j then 1 else 0
is_run f i (shard_run g m j) = 0

abbrev pub runs : ℕ → ℕ → List Event → ℕ
runs f i [] = 0
runs f i (e ∷ es) = is_run f i e + runs f i es

-- An event of the call of `task` with n indices.
abbrev pub IsJob : ℕ → ℕ → Event → Type 0
IsJob f n (flat_run g j) = (g ≡ f) × (j < n)
IsJob f n (shard_run g m j) = ⊥

abbrev pub AreJobs : ℕ → ℕ → List Event → Type 0
AreJobs f n [] = Unit {0}
AreJobs f n (e ∷ es) = IsJob f n e × AreJobs f n es

abbrev pub IsCurrent : Pool → Snapshot → Type 0
IsCurrent s sn = (sn.start ≡ s.start) × (sn.n ≡ s.n) × (sn.task ≡ s.task)

-- What a snapshot is worth, for each place of the caller.
abbrev pub Known : Pool → Caller → Snapshot → Type 0
Known s (opening _ _) sn = (sn.gen ≤ s.gen) × (sn.gen ≡ s.gen → sn.start + sn.n ≤ s.counter)
Known s (bumped _ _) sn = sn.gen < s.gen
Known s (started _ _) sn = sn.gen < s.gen
Known s _ sn = (sn.gen ≤ s.gen) × (sn.gen ≡ s.gen → IsCurrent s sn)

-- What is known of a ticket that has not been checked yet.
abbrev pub Checked : Pool → Caller → Snapshot → ℕ → Type 0
Checked s (opening _ _) sn t =
    (t < s.counter) × (sn.gen ≡ s.gen → (t < sn.start) ⊎ (sn.start + sn.n ≤ t))
Checked s (bumped _ _) sn t = t < s.counter
Checked s (started _ _) sn t = t < s.counter
Checked s (waiting _ _) sn t = t < s.counter
Checked s _ sn t = (t < s.counter) × ((t < s.start) ⊎ (s.start + s.n ≤ t))

-- A task runs during its own call only, at a ticket of that call.
abbrev pub Live : Pool → Caller → Snapshot → ℕ → Type 0
Live s (waiting _ _) sn t =
    (sn.gen ≡ s.gen) × IsCurrent s sn × (s.start ≤ t) × (t < s.start + s.n) × (t < s.counter)
Live s _ sn t = ⊥

abbrev pub Good : Pool → Caller → Pc → Type 0
Good s c (idle last) = last ≤ s.gen
Good s c (pulling sn) = Known s c sn
Good s c (drawn sn t) = Known s c sn × Checked s c sn t
Good s c (stale sn t) = (sn.gen < s.gen) × Checked s c sn t
Good s c (running sn t) = Live s c sn t
Good s c (ran sn t) = Live s c sn t
Good s c exited = Unit
Good s c _ = ⊥

-- Every ticket of the call that has been drawn is held by one worker or has run once.
abbrev pub Tickets : ℕ → Pool → (ℕ → Pc) → Type 0
Tickets nt s pc =
    (i : ℕ)
    → i < s.n
    → total (pending (s.start + i)) nt pc + runs s.task i s.log
      ≡ (if ltb (s.start + i) s.counter then 1 else 0)

abbrev pub Shared : ℕ → Pool → Caller → (ℕ → Pc) → Type 0
Shared nt s outside pc = (s.locked ≡ false) × (s.start + s.n ≤ s.counter)
Shared nt s stopped pc = (s.locked ≡ false) × (s.start + s.n ≤ s.counter)
Shared nt s (opening f k) pc = (s.locked ≡ true) × (s.task ≡ f) × (s.n ≡ k) × (s.log ≡ [])
Shared nt s (bumped f k) pc = (s.locked ≡ true) × (s.task ≡ f) × (s.n ≡ k) × (s.log ≡ [])
Shared nt s (started f k) pc =
    (s.locked ≡ true)
    × (s.task ≡ f)
    × (s.n ≡ k)
    × (s.log ≡ [])
    × (s.start ≤ s.counter)
    × (total (holds s.start s.n) nt pc ≡ min (s.counter - s.start) s.n)
    × Tickets nt s pc
Shared nt s (waiting f k) pc =
    (s.locked ≡ false)
    × (s.task ≡ f)
    × (s.n ≡ k)
    × (s.start ≤ s.counter)
    × (s.remaining ≤ s.n)
    × (total (holds s.start s.n) nt pc + s.n ≡ min (s.counter - s.start) s.n + s.remaining)
    × Tickets nt s pc
    × AreJobs f k s.log
Shared nt s _ pc = ⊥

-- `stop_` is set after the last call.
abbrev pub Alive : Pool → Caller → Type 0
Alive s stopped = Unit
Alive s _ = s.stop ≡ false

pub record Inv (nt : ℕ) (s : Pool) (c : Caller) (pc : ℕ → Pc) : Type 0 where
  pub flat : s.sharded_call ≡ 0
  pub alive : Alive s c
  pub each : (j : ℕ) → j < nt → Good s c (pc j)
  pub shared : Shared nt s c pc
