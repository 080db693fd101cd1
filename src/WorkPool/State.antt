-- ===== src/WorkPool/State.antt =====
-- The members of NumaWorkPool that its workers and its callers share, and where each of them stands
-- (xiaotu-moe/csrc/moe/numa_pool.hpp).
use xiaotu_moe.Base.{ℕ, Bool, false, List, []}

-- A call of a dispatched function. A std::function is its number; 0 is the empty one.
pub data Event : Type 0 where
  flat_run : (task i : ℕ) → Event
  shard_run : (task node loc : ℕ) → Event

-- `node_base_` is left out: `parallel_for_sharded` sets it to 0 and nothing else writes it.
pub record Pool : Type 0 where
  pub locked : Bool  -- the caller holds `work_mtx_`
  pub stop : Bool
  pub gen : ℕ  -- `current_gen_`
  pub counter : ℕ
  pub start : ℕ
  pub n : ℕ
  pub remaining : ℕ
  pub task : ℕ
  pub sharded_call : ℕ
  pub sharded_task : ℕ
  pub node_ticket : ℕ → ℕ
  pub node_nj : ℕ → ℕ
  pub log : List Event  -- not in the program: what ran for the current call, newest first

-- The constructor's initial values.
abbrev pub init : Pool
init = record {
  locked = false;
  stop = false;
  gen = 0;
  counter = 0;
  start = 0;
  n = 0;
  remaining = 0;
  task = 0;
  sharded_call = 0;
  sharded_task = 0;
  node_ticket = λ _. 0;
  node_nj = λ _. 0;
  log = [];
}

-- The locals that `worker_loop` copies under the lock for a flat call.
pub record Snapshot : Type 0 where
  pub gen : ℕ
  pub start : ℕ
  pub n : ℕ
  pub task : ℕ

abbrev pub snapshot : Pool → Snapshot
snapshot s = record { gen = s.gen; start = s.start; n = s.n; task = s.task }

-- Where a worker stands, with its live locals.
pub data Pc : Type 0 where
  idle : (last : ℕ) → Pc  -- head of the outer loop; `last` is `my_last_gen`
  pulling : Snapshot → Pc  -- head of the flat inner loop
  drawn : Snapshot → (t : ℕ) → Pc  -- ticket drawn, generation not yet read
  stale : Snapshot → (t : ℕ) → Pc  -- the generation has advanced: about to take the lock
  running : Snapshot → (t : ℕ) → Pc  -- about to call `local_task`
  ran : Snapshot → (t : ℕ) → Pc  -- back from it, about to count down
  shard_entering : (gen task : ℕ) → Pc  -- about to read `sharded_call_` and `node_nj_`
  shard_pulling : (gen task nj : ℕ) → Pc
  shard_drawn : (gen task nj t : ℕ) → Pc
  shard_stale : (gen task t : ℕ) → Pc
  shard_running : (gen task nj t : ℕ) → Pc
  shard_ran : (gen task nj : ℕ) → Pc
  exited : Pc

-- Where the caller stands. `call_mtx_` admits one caller at a time, so one is enough.
pub data Caller : Type 0 where
  outside : Caller
  opening : (task k : ℕ) → Caller  -- `work_mtx_` held; `task_` and `n_` written
  bumped : (task k : ℕ) → Caller  -- generation opened
  started : (task k : ℕ) → Caller  -- `start_` written
  waiting : (task k : ℕ) → Caller  -- lock released, at the completion barrier
  shard_opening : (task nodes : ℕ) → Caller
  shard_bumped : (task nodes : ℕ) → Caller
  shard_waiting : (task nodes : ℕ) → Caller
  stopped : Caller
