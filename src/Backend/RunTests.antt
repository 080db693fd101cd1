-- ===== src/Backend/RunTests.antt =====
-- A run of a job by three threads on two nodes.
use xiaotu_moe.Base.{
  refl, arith, ℕ, zero, suc, ◌*◌, ◌<◌, ◌≡◌, ℕ_discrete, dec_lt, inl, inr, ◌==◌, ◌++◌, List, [], ◌∷◌,
  Option, none, some, false, if◌then◌else◌, Any, count, get_or, ltb, All,
}
use xiaotu_moe.Backend.Returns.{do_k_work_stealing_job_returns}
use xiaotu_moe.Backend.Exactly.{do_k_work_stealing_job_exactly_once}
use xiaotu_moe.Layers.Blocks.{OfNode}
use xiaotu_moe.Backend.Crews.{Mans}
use xiaotu_moe.Backend.Nodes.{Share}
use xiaotu_moe.Backend.Workers.{Crew, Job, Run, Returned, idle, take, calling, Rests}
use xiaotu_moe.Backend.Claims.{tasks}
use xiaotu_moe.Backend.Drive.{drive}

abbrev pub three : Crew
three = record { max_threads = 3; node_of = λ i. if i == 2 then 1 else 0; cpu_of = λ i. i }

abbrev pub two_nodes : List (List ℕ)
two_nodes = (0 ∷ 1 ∷ []) ∷ (2 ∷ []) ∷ []

abbrev at_first : Job
at_first = record {
  curr = λ _. 0;
  end = λ _. 0;
  working = λ _. false;
  pc = λ _. idle;
  todo = [];
  waited = 0;
  calls = [];
}

at_first-Rests : Rests at_first
at_first-Rests = record { all_idle = λ _. refl; none_working = λ _. refl; spent = λ _. omega arith }

-- Three items of one task.
abbrev some_shares : List Share
some_shares =
    record { tid = 0; first = 0; past = 1 }
    ∷ record { tid = 1; first = 1; past = 2 }
    ∷ record { tid = 2; first = 2; past = 3 }
    ∷ []

abbrev turns : ℕ → Option ℕ → List (Option ℕ)
turns zero x = []
turns (suc n) x = x ∷ turns n x

-- Thread 1 runs first, and steals the task of thread 0.
abbrev order : List (Option ℕ)
order = turns 3 none ++ turns 14 (some 1) ++ turns 14 (some 0) ++ turns 14 (some 2) ++ turns 3 none

last : Job
unfolding drive
last = (drive three (calling some_shares at_first) order).0

-- Thread 1 has run its own task and that of thread 0.
last_calls :
    last.calls
    ≡ record { thread = 2; task_id = 2 }
      ∷ record { thread = 1; task_id = 0 }
      ∷ record { thread = 1; task_id = 1 }
      ∷ []
unfolding last drive ℕ_discrete dec_lt
last_calls = refl

last_run : Run three (calling some_shares at_first) last
unfolding last
last_run = (drive three (calling some_shares at_first) order).1

last-Returned : Returned three last
unfolding last drive ℕ_discrete dec_lt
last-Returned = (refl, refl)

three_of_node :
    (nid tid : ℕ)
    → Any (λ x. x ≡ tid) (get_or two_nodes nid [])
    → (tid < 3) × (three.node_of tid ≡ nid)
three_of_node zero tid (inl e) = ground (arith, e)
three_of_node zero tid (inr (inl e)) = ground (arith, e)
three_of_node zero tid (inr (inr m)) = absurd (m.lower)
three_of_node (suc zero) tid (inl e) = ground (arith, e)
three_of_node (suc zero) tid (inr m) = absurd (m.lower)
three_of_node (suc (suc n)) tid m = absurd (m.lower)

pub three-Mans : Mans three two_nodes
three-Mans = record {
  of_node = three_of_node;
  unique = (
    (λ e. absurd (omega (arith, e)), (λ e. absurd (omega (arith, e)), tt)),
    ((λ e. absurd (omega (arith, e)), tt), (tt, tt)),
  );
}

do_k_work_stealing_job_exactly_once_example :
    ((t : ℕ) → count t (tasks last.calls) ≡ (if ltb t (3 * 1) then 1 else 0))
    × All (λ x. OfNode 1 2 3 (three.node_of x.thread) x.task_id) last.calls
    × Rests last
do_k_work_stealing_job_exactly_once_example =
    do_k_work_stealing_job_exactly_once three 1 3 two_nodes some_shares (omega arith)
      (omega arith, (omega arith, tt)) three-Mans refl at_first last at_first-Rests last_run
      last-Returned

-- Thread 1 is about to steal, and thread 0 has not begun.
midway : Job
unfolding drive
midway = (drive three (calling some_shares at_first) (turns 3 none ++ turns 9 (some 1))).0

midway_run : Run three (calling some_shares at_first) midway
unfolding midway
midway_run = (drive three (calling some_shares at_first) (turns 3 none ++ turns 9 (some 1))).1

midway_place : midway.pc 1 ≡ take 0
unfolding midway drive ℕ_discrete dec_lt
midway_place = refl

do_k_work_stealing_job_returns_example : (u : Job) × Run three midway u × Returned three u
do_k_work_stealing_job_returns_example =
    do_k_work_stealing_job_returns three some_shares at_first midway midway_run
