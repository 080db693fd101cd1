-- ===== src/Layers/Finished.antt =====
-- A dispatch of the layers' jobs from finished runs of do_k_work_stealing_job.
use xiaotu_moe.Base.{
  refl, subst, arith, ℕ, ◌+◌, ◌*◌, ◌≤◌, ◌<◌, ◌≡◌, ◌==◌, false, some, List, [], ◌∷◌, All, count,
  length, ltb, if◌then◌else◌, Once, if-both,
}
use xiaotu_moe.Backend.Nodes.{Share, do_k_work_stealing_job, do_k_work_stealing_job-Chain}
use xiaotu_moe.Backend.Returns.{do_k_work_stealing_job_returns}
use xiaotu_moe.Backend.Workers.{Crew, Call, Job, idle, Run, Rests, calling, Returned}
use xiaotu_moe.Backend.Claims.{tasks}
use xiaotu_moe.Backend.Crews.{Mans}
use xiaotu_moe.Backend.Exactly.{do_k_work_stealing_job_exactly_once}
use xiaotu_moe.Layers.Blocks.{OfNode}
use xiaotu_moe.Layers.Jobs.{Dispatch}

-- A call of do_k_work_stealing_job from its start to its return, among the steps of the workers.
pub record Finished (c : Crew) (nodes : List (List ℕ)) (k nth : ℕ) : Type 0 where
  pub shares : List Share
  pub split : do_k_work_stealing_job k nth nodes ≡ some shares
  pub before : Job
  pub at_rest : Rests before
  pub after : Job
  pub run : Run c (calling shares before) after
  pub returned : Returned c after

-- The tasks of the calls, which stand newest first, in their order.
abbrev pub oldest_first : List Call → List ℕ → List ℕ
oldest_first [] later = later
oldest_first (x ∷ xs) later = oldest_first xs (x.task_id ∷ later)

count-oldest_first :
    (t : ℕ) (xs : List Call) (later : List ℕ)
    → count t (oldest_first xs later) ≡ count t (tasks xs) + count t later
count-oldest_first t [] later = omega arith
count-oldest_first t (x ∷ xs) later = omega (arith, count-oldest_first t xs (x.task_id ∷ later))

-- The node of the thread that called compute_func(t).
abbrev pub runner : Crew → List Call → ℕ → ℕ
runner c [] t = 0
runner c (x ∷ xs) t = if x.task_id == t then c.node_of x.thread else runner c xs t

runner-All :
    (c : Crew) (P : ℕ → ℕ → Type 0) (t : ℕ) (xs : List Call)
    → All (λ x. P (c.node_of x.thread) x.task_id) xs
    → 1 ≤ count t (tasks xs)
    → P (runner c xs t) t
runner-All c P t [] a h = absurd (omega arith)
runner-All c P t (x ∷ xs) (p, a) h =
    if-both (λ n. P n t) (x.task_id == t) (c.node_of x.thread) (runner c xs t)
      (λ e. subst (P (c.node_of x.thread)) {x = x.task_id} {y = t} (ground (arith, e)) p)
      (λ e. runner-All c P t xs a (ground (arith, e, h)))

module _ (c : Crew) (nodes : List (List ℕ)) (some_node : 1 ≤ length nodes)
    (manned : All (λ tids. 1 ≤ length tids) nodes) (mans : Mans c nodes)
    (jobs : (job k nth : ℕ) → Finished c nodes k nth) where
  done :
      (job k nth : ℕ)
      → ((t : ℕ)
          → count t (tasks (jobs job k nth).after.calls) ≡ (if ltb t (nth * k) then 1 else 0))
        × All
            (λ x. OfNode k (length nodes) nth (c.node_of x.thread) x.task_id)
            (jobs job k nth).after.calls
        × Rests (jobs job k nth).after
  done job k nth =
      let f = jobs job k nth in
      do_k_work_stealing_job_exactly_once c k nth nodes f.shares some_node manned mans f.split
        f.before f.after f.at_rest f.run f.returned

  pub order-Once : (job k nth : ℕ) → Once (nth * k) (oldest_first (jobs job k nth).after.calls [])
  order-Once job k nth = record {
    once = λ t l.
        ground
          (arith, count-oldest_first t (jobs job k nth).after.calls [], (done job k nth).0 t, l);
    only = λ t l.
        ground
          (arith, count-oldest_first t (jobs job k nth).after.calls [], (done job k nth).0 t, l);
  }

  pub node-OfNode :
      (job k nth t : ℕ)
      → t < nth * k
      → OfNode k (length nodes) nth (runner c (jobs job k nth).after.calls t) t
  node-OfNode job k nth t l =
      runner-All c (λ n u. OfNode k (length nodes) nth n u) t (jobs job k nth).after.calls
        (done job k nth).1 (ground (arith, (done job k nth).0 t, l))

  abbrev pub dispatch : Dispatch (length nodes)
  dispatch = record {
    order = λ job k nth. oldest_first (jobs job k nth).after.calls [];
    order-Once = order-Once;
    node = λ job k nth. runner c (jobs job k nth).after.calls;
    node-OfNode = node-OfNode;
  }

-- Nobody has anything to do, as behind the constructor of Backend_NUMA.
abbrev pub fresh : Job
fresh = record {
  curr = λ _. 0;
  end = λ _. 0;
  working = λ _. false;
  pc = λ _. idle;
  todo = [];
  waited = 0;
  calls = [];
}

-- There is a finished call for every job.
pub any-Finished :
    (c : Crew) (nodes : List (List ℕ))
    → 1 ≤ length nodes
    → All (λ tids. 1 ≤ length tids) nodes
    → (k nth : ℕ) → Finished c nodes k nth
any-Finished c nodes p manned k nth =
    let (shares, e, h) = do_k_work_stealing_job-Chain k nth nodes p manned in
    let (t, r, a) =
      do_k_work_stealing_job_returns c shares fresh (calling shares fresh) Run.begin in
    record {
      shares = shares;
      split = e;
      before = fresh;
      at_rest = record { all_idle = λ _. refl; none_working = λ _. refl; spent = λ _. omega arith };
      after = t;
      run = r;
      returned = a;
    }
