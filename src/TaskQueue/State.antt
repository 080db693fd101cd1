-- ===== src/TaskQueue/State.antt =====
-- TaskQueue: one worker thread and its clients (xiaotu-moe/csrc/scheduler/task_queue.cpp). A block
-- between `mutex.lock()` and `mutex.unlock()` is one step, taken while nobody holds the mutex.
use xiaotu_moe.Base.{ℕ, ◌≡◌, Bool, true, false, List, [], ◌∷◌, ◌++◌}

-- Where the worker of `processTasks` stands.
pub data Pc : Type 0 where
  head : Pc  -- about to lock and wait
  holding : (t : ℕ) → Pc  -- a task popped, the mutex released
  ran : Pc  -- back from the task
  exited : Pc

-- A task is its number. `enqueued` and `done` are not in the program: the tasks handed in and the
-- tasks run, oldest first.
pub record Queue : Type 0 where
  pub tasks : List ℕ
  pub locked : Bool
  pub sync_flag : Bool
  pub exit_flag : Bool
  pub pc : Pc
  pub enqueued : List ℕ
  pub done : List ℕ

-- At the end of the constructor. (It starts the worker before it stores the two flags; the worker
-- is taken not to have read `exit_flag` by then.)
abbrev pub init : Queue
init = record {
  tasks = [];
  locked = false;
  sync_flag = true;
  exit_flag = false;
  pc = head;
  enqueued = [];
  done = [];
}

abbrev pub is_empty : List ℕ → Bool
is_empty [] = true
is_empty (_ ∷ _) = false

-- The second locked block of the loop.
abbrev pub settle_flag : Queue → Bool
settle_flag q = elim (is_empty q.tasks) [ true ↦ true | false ↦ q.sync_flag ]

-- What the worker does.
pub data Work (q : Queue) : Queue → Type 0 where
  -- returns with the mutex locked
  leave :
      q.pc ≡ head
      → q.locked ≡ false
      → q.exit_flag ≡ true
      → q.tasks ≡ []
      → Work q (record q { pc = exited; locked = true })
  pop :
      {t : ℕ} {rest : List ℕ}
      → q.pc ≡ head
      → q.locked ≡ false
      → q.tasks ≡ t ∷ rest
      → Work q (record q { pc = holding t; tasks = rest })
  run : {t : ℕ} → q.pc ≡ holding t → Work q (record q { pc = ran; done = q.done ++ t ∷ [] })
  settle :
      q.pc ≡ ran → q.locked ≡ false → Work q (record q { pc = head; sync_flag = settle_flag q })

-- What clients do: `enqueue`, and the locked block of the destructor.
pub data Client (q : Queue) : Queue → Type 0 where
  enqueue :
      (t : ℕ)
      → q.locked ≡ false
      → Client q (record q {
        tasks = q.tasks ++ t ∷ [];
        sync_flag = false;
        enqueued = q.enqueued ++ t ∷ [];
      })
  destroy : q.locked ≡ false → Client q (record q { exit_flag = true })

pub data Reach : Queue → Type 0 where
  start : Reach init
  by_worker : {q r : Queue} → Reach q → Work q r → Reach r
  by_client : {q r : Queue} → Reach q → Client q r → Reach r

-- The worker alone, for the end of a `sync`.
pub data Works : Queue → Queue → Type 0 where
  none_left : {q : Queue} → Works q q
  then_work : {q r u : Queue} → Work q r → Works r u → Works q u
