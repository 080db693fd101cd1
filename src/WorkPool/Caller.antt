-- ===== src/WorkPool/Caller.antt =====
-- `NumaWorkPool::parallel_for`, `parallel_for_sharded` and `stop`, and the interleavings of one
-- caller with `nt` workers. The deadline of the completion barrier, which aborts the process, and
-- the diagnostics are left out.
use xiaotu_moe.Base.{
  ℕ, suc, zero, ◌+◌, ◌≤◌, ◌<◌, ◌^◌, ◌≡◌, ◌⊎◌, Bool, true, false, List, [], ◌∷◌, ◌++◌, update, total,
  inc64,
}
use xiaotu_moe.WorkPool.State.{
  Event, flat_run, shard_run, Pool, init, Pc, idle, Caller, outside, opening, bumped, started,
  waiting, shard_opening, shard_bumped, shard_waiting, stopped,
}
use xiaotu_moe.WorkPool.Worker.{Work}

-- `for (i = 0; i < k; ++i) fn(i)` on the calling thread, newest first.
unfoldable pub serial_log : ℕ → ℕ → List Event
serial_log f zero = []
serial_log f (suc k) = flat_run f k ∷ serial_log f k

shard_node_log : ℕ → ℕ → ℕ → List Event
shard_node_log f node zero = []
shard_node_log f node (suc j) = shard_run f node j ∷ shard_node_log f node j

-- The serial loops over nodes and jobs of `parallel_for_sharded`.
unfoldable pub serial_shard_log : ℕ → (ℕ → ℕ) → ℕ → List Event
unfolding shard_node_log
serial_shard_log f jobs zero = []
serial_shard_log f jobs (suc m) = shard_node_log f m (jobs m) ++ serial_shard_log f jobs m

-- `max_shards` is `kMaxNodeShards`.
abbrev pub max_shards : ℕ
max_shards = 128

-- `present m` says whether bit m of `node_present_` is set; `sharding` whether callers use
-- `parallel_for_sharded` at all.
pub data Call (nt : ℕ) (present : ℕ → Bool) (sharding : Bool) (s : Pool)
    : Caller → Pool → Caller → Type 0 where
  serial :
      (f k : ℕ)
      → (nt ≤ 1) ⊎ (k ≤ 1)
      → Call nt present sharding s outside (record s { log = serial_log f k }) outside
  open_call :
      (f k : ℕ)
      → 1 < nt
      → 1 < k
      → s.locked ≡ false
      → Call nt present sharding s outside
          (record s { locked = true; task = f; n = k; sharded_call = 0; log = [] })
          (opening f k)
  bump :
      {f k : ℕ}
      → Call nt present sharding s (opening f k) (record s { gen = inc64 s.gen }) (bumped f k)
  mark :
      {f k : ℕ}
      → Call nt present sharding s (bumped f k) (record s { start = s.counter }) (started f k)
  publish :
      {f k : ℕ}
      → Call nt present sharding s
          (started f k)
          (record s { remaining = k; locked = false })
          (waiting f k)
  finish_call : {f k : ℕ} → s.remaining ≡ 0 → Call nt present sharding s (waiting f k) s outside
  shutdown :
      s.locked ≡ false → Call nt present sharding s outside (record s { stop = true }) stopped
  shard_serial :
      (f nodes : ℕ) (jobs : ℕ → ℕ)
      → sharding ≡ true
      → (nt ≤ 1) ⊎ (((m : ℕ) × (m < nodes) × (present m ≡ false)) ⊎ (max_shards < nodes))
      → Call nt present sharding s outside
          (record s { log = serial_shard_log f jobs nodes })
          outside
  -- the stores to `node_ticket_` are taken as one
  shard_open :
      (f nodes : ℕ) (jobs : ℕ → ℕ)
      → sharding ≡ true
      → 1 < nt
      → 0 < nodes
      → nodes ≤ max_shards
      → ((m : ℕ) → m < nodes → present m ≡ true)
      → s.locked ≡ false
      → Call nt present sharding s outside
          (record s {
            locked = true;
            sharded_task = f;
            node_nj = jobs;
            node_ticket = λ _. 0;
            n = total (λ j. j) nodes jobs;
            log = [];
          })
          (shard_opening f nodes)
  shard_bump :
      {f nodes : ℕ}
      → Call nt present sharding s
          (shard_opening f nodes)
          (record s { gen = inc64 s.gen })
          (shard_bumped f nodes)
  shard_publish :
      {f nodes : ℕ}
      → Call nt present sharding s
          (shard_bumped f nodes)
          (record s { sharded_call = nodes; start = 0; remaining = s.n; locked = false })
          (shard_waiting f nodes)
  shard_return :
      {f nodes : ℕ} → s.remaining ≡ 0 → Call nt present sharding s (shard_waiting f nodes) s outside

pub record System : Type 0 where
  pub pool : Pool
  pub caller : Caller
  pub pc : ℕ → Pc

module _ (nt : ℕ) (node : ℕ → ℕ) (present : ℕ → Bool) (sharding : Bool) where
  pub data Step (s : System) : System → Type 0 where
    work :
        (i : ℕ) {q : Pool} {p : Pc}
        → i < nt
        → Work (node i) s.pool (s.pc i) q p
        → Step s (record { pool = q; caller = s.caller; pc = update s.pc i p })
    call :
        {q : Pool} {c : Caller}
        → Call nt present sharding s.pool s.caller q c
        → Step s (record { pool = q; caller = c; pc = s.pc })

-- Every worker starts with `my_last_gen` 0.
abbrev pub start_state : System
start_state = record { pool = init; caller = outside; pc = λ _. idle 0 }

-- Tickets and generations are 64-bit and never reset; a history is kept short of their wrap.
abbrev pub Fits : Pool → Type 0
Fits s = (s.counter + s.n + 1 < 2 ^ 64) × (s.gen + 1 < 2 ^ 64)

module _ (nt : ℕ) (node : ℕ → ℕ) (present : ℕ → Bool) (sharding : Bool) where
  pub data Reach : System → Type 0 where
    start : Reach start_state
    later : {s t : System} → Reach s → Step nt node present sharding s t → Fits t.pool → Reach t
