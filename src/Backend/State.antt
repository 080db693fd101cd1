-- ===== src/Backend/State.antt =====
-- How the backends split tasks over threads and hand them out: Backend::do_work_stealing_job
-- (backend.cpp, lines 50-86), Backend_NUMA::do_work (backend_numa.cpp, lines 222-254) and the
-- counters of process_tasks (backend.cpp, lines 88-130; backend_numa.cpp, lines 305-348).
use xiaotu_moe.Base.{
  ℕ, zero, suc, ◌+◌, ◌/◌, ◌%◌, ◌==◌, min, ltb, leb, if◌then◌else◌, List, [], ◌∷◌, ◌++◌, Option,
  none, some, update,
}

-- The `end` of the first i threads: each takes base tasks, and the first `remain` one more.
abbrev pub edge : ℕ → ℕ → ℕ → ℕ
edge base remain zero = 0
edge base remain (suc i) = edge base remain i + (base + (if ltb i remain then 1 else 0))

-- The thread states that the workers share, and the tasks computed, oldest first.
pub record Threads : Type 0 where
  pub curr : ℕ → ℕ
  pub end : ℕ → ℕ
  pub computed : List ℕ

-- Backend_NUMA::do_work, when it has written every thread's state. A thread without tasks gets
-- curr = 0 and end = -1; here end = 0, which no task number is below either.
abbrev pub do_work : ℕ → ℕ → Threads
do_work max_threads nth =
    let e = edge (nth / max_threads) (nth % max_threads) in
    record {
      curr = λ i. if leb (e (suc i)) (e i) then 0 else e i;
      end = λ i. if leb (e (suc i)) (e i) then 0 else e (suc i);
      computed = [];
    }

-- Backend::do_work_stealing_job without USE_NUMA: thread_num_, and the states it writes; none
-- where the division is by zero.
abbrev pub do_work_stealing_job : ℕ → ℕ → Option (ℕ × Threads)
do_work_stealing_job max_thread_num task_num =
    let n = min max_thread_num task_num in
    if n == 0
    then none
    else some (
      n,
      record {
        curr = edge (task_num / n) (task_num % n);
        end = λ i. edge (task_num / n) (task_num % n) (suc i);
        computed = [];
      },
    )

-- One round of a loop of process_tasks on thread i's counter, by thread i or by another: fetch_add,
-- the test against `end`, and compute_func.
abbrev pub fetch : ℕ → Threads → Threads
fetch i s = record s {
  curr = update s.curr i (s.curr i + 1);
  computed = if ltb (s.curr i) (s.end i) then s.computed ++ s.curr i ∷ [] else s.computed;
}
