-- ===== src/Backend/Workers.antt =====
-- A job of Backend_NUMA::do_k_work_stealing_job with its workers (backend_numa.cpp, lines 256-348):
-- the caller writes the shares and waits, and the workers run process_tasks. One step is one access
-- to the shared states, sequentially consistent.
use xiaotu_moe.Base.{
  ℕ, ◌+◌, ◌≤◌, ◌<◌, ◌≡◌, ◌≢◌, ◌⊎◌, Bool, true, false, List, [], ◌∷◌, leb, ltb, if◌then◌else◌,
  update,
}
use xiaotu_moe.Backend.Nodes.{Share}

-- threads_info_.
pub record Crew : Type 0 where
  pub max_threads : ℕ
  pub node_of : ℕ → ℕ
  pub cpu_of : ℕ → ℕ

-- Where a worker is: waiting for WORKING; before the test of its status, before fetch_add and
-- before compute_func in its own loop; at thread i of the loop over the others, before fetch_add on
-- thread i's counter, and before compute_func with a task of that.
pub data Pc : Type 0 where
  idle : Pc
  testing : Pc
  fetching : Pc
  claimed : (task_id : ℕ) → Pc
  look : (i : ℕ) → Pc
  take : (i : ℕ) → Pc
  stolen : (i task_id : ℕ) → Pc

-- compute_func(task_id), called by a thread.
pub record Call : Type 0 where
  pub thread : ℕ
  pub task_id : ℕ

-- thread_state_, the shares that the caller has not written, the threads that it need not wait for
-- any longer, and the calls, newest first. `end` is 0 where the source writes -1.
pub record Job : Type 0 where
  pub curr : ℕ → ℕ
  pub end : ℕ → ℕ
  pub working : ℕ → Bool
  pub pc : ℕ → Pc
  pub todo : List Share
  pub waited : ℕ
  pub calls : List Call

abbrev pub move : (j : ℕ) → Pc → Job → Job
move j p s = record s { pc = update s.pc j p }

-- fetch_add on thread i's counter, by thread j.
abbrev pub draw : (i j : ℕ) → Pc → Job → Job
draw i j p s = record s { curr = update s.curr i (s.curr i + 1); pc = update s.pc j p }

abbrev pub compute : (j task_id : ℕ) → Pc → Job → Job
compute j task_id p s = record s {
  calls = record { thread = j; task_id = task_id } ∷ s.calls;
  pc = update s.pc j p;
}

-- A share is written; its status comes last, and until then nobody reads the rest.
abbrev pub assign : Share → List Share → Job → Job
assign x rest s = record s {
  todo = rest;
  curr = update s.curr x.tid (if leb x.past x.first then 0 else x.first);
  end = update s.end x.tid (if leb x.past x.first then 0 else x.past);
  working = update s.working x.tid (ltb x.first x.past);
}

pub data Step (c : Crew) (s : Job) : Job → Type 0 where
  write : (x : Share) (rest : List Share) → s.todo ≡ x ∷ rest → Step c s (assign x rest s)
  wait :
      s.todo ≡ []
      → s.waited < c.max_threads
      → s.working s.waited ≡ false
      → Step c s (record s { waited = s.waited + 1 })
  start :
      (j : ℕ) → j < c.max_threads → s.pc j ≡ idle → s.working j ≡ true → Step c s (move j testing s)
  go_on :
      (j : ℕ)
      → j < c.max_threads
      → s.pc j ≡ testing
      → s.working j ≡ true
      → Step c s (move j fetching s)
  leave :
      (j : ℕ)
      → j < c.max_threads
      → s.pc j ≡ testing
      → s.working j ≡ false
      → Step c s (move j (look 0) s)
  claim :
      (j : ℕ)
      → j < c.max_threads
      → s.pc j ≡ fetching
      → s.curr j < s.end j
      → Step c s (draw j j (claimed (s.curr j)) s)
  exhaust :
      (j : ℕ)
      → j < c.max_threads
      → s.pc j ≡ fetching
      → s.end j ≤ s.curr j
      → Step c s (draw j j (look 0) s)
  run : (j t : ℕ) → j < c.max_threads → s.pc j ≡ claimed t → Step c s (compute j t testing s)
  pass :
      (j i : ℕ)
      → j < c.max_threads
      → s.pc j ≡ look i
      → i < c.max_threads
      → (c.node_of j ≢ c.node_of i) ⊎ ((c.cpu_of j ≡ c.cpu_of i) ⊎ (s.working i ≡ false))
      → Step c s (move j (look (i + 1)) s)
  target :
      (j i : ℕ)
      → j < c.max_threads
      → s.pc j ≡ look i
      → i < c.max_threads
      → c.node_of j ≡ c.node_of i
      → c.cpu_of j ≢ c.cpu_of i
      → s.working i ≡ true
      → Step c s (move j (take i) s)
  steal :
      (j i : ℕ)
      → j < c.max_threads
      → s.pc j ≡ take i
      → s.curr i < s.end i
      → Step c s (draw i j (stolen i (s.curr i)) s)
  spend :
      (j i : ℕ)
      → j < c.max_threads
      → s.pc j ≡ take i
      → s.end i ≤ s.curr i
      → Step c s (draw i j (look (i + 1)) s)
  run_stolen :
      (j i t : ℕ) → j < c.max_threads → s.pc j ≡ stolen i t → Step c s (compute j t (take i) s)
  finish :
      (j i : ℕ)
      → j < c.max_threads
      → s.pc j ≡ look i
      → c.max_threads ≤ i
      → Step c s (record s { working = update s.working j false; pc = update s.pc j idle })

-- Any number of steps.
pub data Run (c : Crew) (s : Job) : Job → Type 0 where
  begin : Run c s s
  next : {t u : Job} → Run c s t → Step c t u → Run c s u

-- What a job starts from: no worker has anything to do, or anything left.
pub record Rests (s : Job) : Type 0 where
  pub all_idle : (j : ℕ) → s.pc j ≡ idle
  pub none_working : (j : ℕ) → s.working j ≡ false
  pub spent : (j : ℕ) → s.end j ≤ s.curr j

-- The call of do_k_work_stealing_job with these shares to write.
abbrev pub calling : List Share → Job → Job
calling shares s = record s { todo = shares; waited = 0; calls = [] }

-- The caller has found no thread WORKING, and returns.
abbrev pub Returned : Crew → Job → Type 0
Returned c s = (s.todo ≡ []) × (s.waited ≡ c.max_threads)
