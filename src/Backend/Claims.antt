-- ===== src/Backend/Claims.antt =====
-- What holds at every step of a job: each task of the shares that are written is unclaimed, about to
-- run, or has run, and it is claimed on its own node.
use xiaotu_moe.Base.{
  sym, ap, subst, arith, ℕ, ◌+◌, ◌≤◌, ◌<◌, ◌≡◌, ℕ_discrete, inl, inr, ◌≢◌, true, false, Bool-cases,
  List, [], ◌∷◌, All, count, total, total-update, min, ite, update, update-same, update-other, Bool,
}
use xiaotu_moe.Backend.Split.{holds}
use xiaotu_moe.Backend.Stealing.{claimed, holds-claim, total-change}
use xiaotu_moe.Backend.Nodes.{Share}
use xiaotu_moe.Backend.Workers.{
  Crew, Pc, idle, testing, fetching, look, take, stolen, Call, Job, move, draw, compute,
}

-- The tasks of the calls.
abbrev pub tasks : List Call → List ℕ
tasks [] = []
tasks (x ∷ xs) = x.task_id ∷ tasks xs

-- One when a worker is about to compute task t.
abbrev pub flying : ℕ → Pc → ℕ
flying t idle = 0
flying t testing = 0
flying t fetching = 0
flying t (Pc.claimed u) = ite (ℕ_discrete t u) 1 0
flying t (look i) = 0
flying t (take i) = 0
flying t (stolen i u) = ite (ℕ_discrete t u) 1 0

-- Behind its own loop.
abbrev pub Thief : Pc → Type 0
Thief idle = ⊥
Thief testing = ⊥
Thief fetching = ⊥
Thief (Pc.claimed u) = ⊥
Thief (look i) = Unit
Thief (take i) = Unit
Thief (stolen i u) = Unit

-- How often a task is in the shares that are not written.
abbrev pub pending : ℕ → List Share → ℕ
pending t [] = 0
pending t (x ∷ xs) = holds t x.first x.past + pending t xs

abbrev pub Distinct : List Share → Type 0
Distinct [] = Unit
Distinct (x ∷ xs) = All (λ y. x.tid ≢ y.tid) xs × Distinct xs

-- A task may run on the threads of a node that Home gives.
module _ (c : Crew) (n_tasks : ℕ) (Home : (node t : ℕ) → Type 0) where
  abbrev pub Good : ℕ → Pc → Type 0
  Good j idle = Unit
  Good j testing = Unit
  Good j fetching = Unit
  Good j (Pc.claimed t) = Home (c.node_of j) t
  Good j (look i) = Unit
  Good j (take i) = (i < c.max_threads) × (c.node_of i ≡ c.node_of j)
  Good j (stolen i t) = (i < c.max_threads) × (c.node_of i ≡ c.node_of j) × Home (c.node_of j) t

  pub record Fits (x : Share) : Type 0 where
    pub tid_lt : x.tid < c.max_threads
    pub ordered : x.first ≤ x.past
    pub at_home : (t : ℕ) → x.first ≤ t → t < x.past → Home (c.node_of x.tid) t

  pub record Awaits (from end : ℕ → ℕ) (working : ℕ → Bool) (x : Share) : Type 0 where
    pub fits : Fits x
    pub nothing_left : end x.tid ≤ from x.tid
    pub not_working : working x.tid ≡ false

  pub record Inv (s : Job) : Type 0 where
    -- Where the share of a thread begins.
    pub from : ℕ → ℕ
    pub ahead : (i : ℕ) → from i ≤ s.curr i
    pub tally :
        (t : ℕ)
        → count t (tasks s.calls) + total (flying t) c.max_threads s.pc
          ≡ total (λ i. holds t (from i) (min (s.curr i) (s.end i))) c.max_threads (λ i. i)
    pub shared :
        (t : ℕ)
        → total (λ i. holds t (from i) (s.end i)) c.max_threads (λ i. i) + pending t s.todo
          ≡ holds t 0 n_tasks
    pub awaits : All (Awaits from s.end s.working) s.todo
    pub distinct : Distinct s.todo
    pub quiet : (j : ℕ) → s.working j ≡ false → (s.pc j ≡ idle) × (s.end j ≤ s.curr j)
    pub thief : (j : ℕ) → Thief (s.pc j) → s.end j ≤ s.curr j
    pub outside : (j : ℕ) → c.max_threads ≤ j → s.working j ≡ false
    pub home : (i t : ℕ) → from i ≤ t → t < s.end i → Home (c.node_of i) t
    pub good : (j : ℕ) → Good j (s.pc j)
    pub logged : All (λ x. Home (c.node_of x.thread) x.task_id) s.calls
    pub after_wait : (i : ℕ) → i < s.waited → (s.todo ≡ []) × (s.working i ≡ false)

  -- A property of every thread's place, after one thread has moved.
  pub moved :
      (Q : ℕ → Pc → Type 0) (f : ℕ → Pc) (j : ℕ) (p : Pc)
      → ((k : ℕ) → Q k (f k))
      → Q j p
      → (k : ℕ) → Q k (update f j p k)
  moved Q f j p h q k = elim (ℕ_discrete j k) [
    | yes e ↦ subst (λ x. Q x (update f j p x)) e (subst (Q j) (sym (update-same f j p)) q)
    | no d ↦ subst (Q k) (sym (update-other f j k p d)) (h k)
  ]

  -- A counter only grows.
  pub grown : (f : ℕ → ℕ) (i k : ℕ) → f k ≤ update f i (f i + 1) k
  grown f i k = elim (ℕ_discrete i k) [
    | yes e ↦ subst (λ x. f x ≤ update f i (f i + 1) x) e (omega (arith, update-same f i (f i + 1)))
    | no d ↦ omega (arith, update-other f i k (f i + 1) d)
  ]

  pub busy : (s : Job) (j : ℕ) → Inv s → ¬ (s.pc j ≡ idle) → s.working j ≡ true
  busy s j h n = elim (Bool-cases (s.working j)) [ inl e ↦ e | inr e ↦ absurd (n (h.quiet j e).0) ]

  abbrev pub Quiet : Job → ℕ → Pc → Type 0
  Quiet s k p = s.working k ≡ false → (p ≡ idle) × (s.end k ≤ s.curr k)

  pub move-Inv :
      (s : Job) (j : ℕ) (p : Pc)
      → Inv s
      → j < c.max_threads
      → s.working j ≡ true
      → ((t : ℕ) → flying t p ≡ flying t (s.pc j))
      → (Thief p → s.end j ≤ s.curr j)
      → Good j p
      → Inv (move j p s)
  move-Inv s j p h lt w fly th gd = record {
    from = h.from;
    ahead = h.ahead;
    tally = λ t. omega (arith, h.tally t, total-update (flying t) c.max_threads s.pc j p lt, fly t);
    shared = h.shared;
    awaits = h.awaits;
    distinct = h.distinct;
    quiet = moved (Quiet s) s.pc j p h.quiet (λ e. cc (w, e));
    thief = moved (λ k q. Thief q → s.end k ≤ s.curr k) s.pc j p h.thief th;
    outside = h.outside;
    home = h.home;
    good = moved Good s.pc j p h.good gd;
    logged = h.logged;
    after_wait = h.after_wait;
  }

  pub compute-Inv :
      (s : Job) (j u : ℕ) (p : Pc)
      → Inv s
      → j < c.max_threads
      → s.working j ≡ true
      → ((t : ℕ) → flying t (s.pc j) ≡ flying t p + ite (ℕ_discrete t u) 1 0)
      → (Thief p → s.end j ≤ s.curr j)
      → Good j p
      → Home (c.node_of j) u
      → Inv (compute j u p s)
  compute-Inv s j u p h lt w fly th gd hm = record {
    from = h.from;
    ahead = h.ahead;
    tally = λ t. omega (arith, h.tally t, total-update (flying t) c.max_threads s.pc j p lt, fly t);
    shared = h.shared;
    awaits = h.awaits;
    distinct = h.distinct;
    quiet = moved (Quiet s) s.pc j p h.quiet (λ e. cc (w, e));
    thief = moved (λ k q. Thief q → s.end k ≤ s.curr k) s.pc j p h.thief th;
    outside = h.outside;
    home = h.home;
    good = moved Good s.pc j p h.good gd;
    logged = (hm, h.logged);
    after_wait = h.after_wait;
  }

  abbrev pub tallied : (t : ℕ) → (from curr end : ℕ → ℕ) → ℕ → ℕ
  tallied t from curr end i = holds t (from i) (min (curr i) (end i))

  pub draw-Inv :
      (s : Job) (i j : ℕ) (p : Pc)
      → Inv s
      → i < c.max_threads
      → j < c.max_threads
      → s.working j ≡ true
      → ((t : ℕ) → flying t p ≡ flying t (s.pc j) + claimed t (s.curr i) (s.end i))
      → (Thief p → s.end j ≤ s.curr j)
      → Good j p
      → Inv (draw i j p s)
  draw-Inv s i j p h li lt w fly th gd = record {
    from = h.from;
    ahead = λ k. omega (arith, h.ahead k, grown s.curr i k);
    tally = λ t.
        let own : tallied t h.from (update s.curr i (s.curr i + 1)) s.end i
            ≡ holds t (h.from i) (min (s.curr i + 1) (s.end i)) =
          ap (λ x. holds t (h.from i) (min x (s.end i))) (update-same s.curr i (s.curr i + 1)) in
        omega (
          arith,
          h.tally t,
          total-update (flying t) c.max_threads s.pc j p lt,
          fly t,
          own,
          holds-claim t (h.from i) (s.curr i) (s.end i) (h.ahead i),
          total-change (tallied t h.from (update s.curr i (s.curr i + 1)) s.end)
              (tallied t h.from s.curr s.end) c.max_threads i (others t) li,
        );
    shared = h.shared;
    awaits = h.awaits;
    distinct = h.distinct;
    quiet =
        moved (Quiet (draw i j p s)) s.pc j p
          (λ k e. let (a, b) = h.quiet k e in (a, omega (arith, b, grown s.curr i k)))
          (λ e. cc (w, e));
    thief =
        moved (λ k q. Thief q → s.end k ≤ update s.curr i (s.curr i + 1) k) s.pc j p
          (λ k q. omega (arith, h.thief k q, grown s.curr i k))
          (λ q. omega (arith, th q, grown s.curr i j));
    outside = h.outside;
    home = h.home;
    good = moved Good s.pc j p h.good gd;
    logged = h.logged;
    after_wait = h.after_wait;
  }
    where
      others :
          (t k : ℕ)
          → i ≢ k
          → tallied t h.from (update s.curr i (s.curr i + 1)) s.end k
            ≡ tallied t h.from s.curr s.end k
      others t k d =
          ap (λ x. holds t (h.from k) (min x (s.end k))) (update-other s.curr i k (s.curr i + 1) d)
