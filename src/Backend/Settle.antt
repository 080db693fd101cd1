-- ===== src/Backend/Settle.antt =====
-- Wherever a worker is, it comes to the end of process_tasks.
use xiaotu_moe.Base.{
  refl, ap, ◌∙◌, subst, arith, ℕ, zero, suc, ◌+◌, ◌≤◌, ◌<◌, ◌≡◌, ℕ_discrete, dec_lt, inl, inr,
  false, Bool-cases, update, update-same, update-other,
}
use xiaotu_moe.Backend.Workers.{
  Crew, Pc, idle, testing, fetching, look, take, stolen, Job, move, draw, compute, Step, Run,
}

pub append : (c : Crew) (s t u : Job) → Run c s t → Run c t u → Run c s u
append c s t u r Run.begin = r
append c s t u r (Run.next {t = v} q st) = Run.next (append c s t v r q) st

module _ (c : Crew) where
  -- Steps of workers to a state with P: they leave the caller's variables and wake no thread.
  pub record Goes (P : Job → Type 0) (s : Job) : Type 0 where
    pub to : Job
    pub run : Run c s to
    pub todo_kept : to.todo ≡ s.todo
    pub waited_kept : to.waited ≡ s.waited
    pub off_kept : (k : ℕ) → s.working k ≡ false → to.working k ≡ false
    pub reached : P to

  pub there : (P : Job → Type 0) (s : Job) → P s → Goes P s
  there P s p = record {
    to = s;
    run = Run.begin;
    todo_kept = refl;
    waited_kept = refl;
    off_kept = λ k h. h;
    reached = p;
  }

  -- From a step that leaves `working` alone on.
  step_on :
      (P : Job → Type 0) (s t : Job)
      → Step c s t
      → t.todo ≡ s.todo
      → t.waited ≡ s.waited
      → t.working ≡ s.working
      → Goes P t
      → Goes P s
  step_on P s t st a b w g = record {
    to = g.to;
    run = append c s t g.to (Run.next Run.begin st) g.run;
    todo_kept = g.todo_kept ∙ a;
    waited_kept = g.waited_kept ∙ b;
    off_kept = λ k h. g.off_kept k (ap (λ f. f k) w ∙ h);
    reached = g.reached;
  }

  then_on : (P Q : Job → Type 0) (s : Job) → Goes P s → ((t : Job) → P t → Goes Q t) → Goes Q s
  then_on P Q s g f =
      let r = f g.to g.reached in
      record {
        to = r.to;
        run = append c s g.to r.to g.run r.run;
        todo_kept = r.todo_kept ∙ g.todo_kept;
        waited_kept = r.waited_kept ∙ g.waited_kept;
        off_kept = λ k h. r.off_kept k (g.off_kept k h);
        reached = r.reached;
      }

  module _ (j : ℕ) (lt : j < c.max_threads) where
    abbrev pub At : Pc → Job → Type 0
    At p s = s.pc j ≡ p

    abbrev pub Off : Job → Type 0
    Off s = s.working j ≡ false

    now_at : (s : Job) (p : Pc) → update s.pc j p j ≡ p
    now_at s p = update-same s.pc j p

    spend_on : (s : Job) (i : ℕ) → s.end i ≤ s.curr i → At (take i) s → Goes (At (look (i + 1))) s
    spend_on s i b e =
        step_on (At (look (i + 1))) s (draw i j (look (i + 1)) s) (Step.spend j i lt e b) refl refl
          refl (there (At (look (i + 1))) _ (now_at s (look (i + 1))))

    -- The loop on another thread's counter.
    steal_loop :
        (d : ℕ) (s : Job) (i : ℕ)
        → s.end i ≤ s.curr i + d
        → At (take i) s
        → Goes (At (look (i + 1))) s
    steal_loop zero s i b e = spend_on s i (omega arith) e
    steal_loop (suc d) s i b e = elim (dec_lt (s.curr i) (s.end i)) [
      | no n ↦ spend_on s i (omega arith) e
      | yes l ↦
          let s1 : Job = draw i j (stolen i (s.curr i)) s in
          let s2 : Job = compute j (s.curr i) (take i) s1 in
          step_on (At (look (i + 1))) s s1 (Step.steal j i lt e l) refl refl refl (
            step_on (At (look (i + 1))) s1 s2
              (Step.run_stolen j i (s.curr i) lt (now_at s (stolen i (s.curr i)))) refl refl refl
              (steal_loop d s2 i (omega (arith, update-same s.curr i (s.curr i + 1)))
                (now_at s1 (take i))))
    ]

    finish_on : (s : Job) (i : ℕ) → c.max_threads ≤ i → At (look i) s → Goes Off s
    finish_on s i b e = record {
      to = record s { working = update s.working j false; pc = update s.pc j idle };
      run = Run.next Run.begin (Step.finish j i lt e b);
      todo_kept = refl;
      waited_kept = refl;
      off_kept = λ k h. elim (ℕ_discrete j k) [
        | yes y ↦ subst (λ x. update s.working j false x ≡ false) y (update-same s.working j false)
        | no d ↦ update-other s.working j k false d ∙ h
      ];
      reached = update-same s.working j false;
    }

    -- The loop over the threads, from thread i on.
    look_loop : (d : ℕ) (s : Job) (i : ℕ) → c.max_threads ≤ i + d → At (look i) s → Goes Off s
    look_loop zero s i b e = finish_on s i (omega arith) e
    look_loop (suc d) s i b e = elim (dec_lt i c.max_threads) [
      | no n ↦ finish_on s i (omega arith) e
      | yes l ↦ elim (ℕ_discrete (c.node_of j) (c.node_of i)) [
        | no n ↦
            step_on Off s (move j (look (i + 1)) s) (Step.pass j i lt e l (inl n)) refl refl refl (
              look_loop d (move j (look (i + 1)) s) (i + 1) (omega (arith, b))
                (now_at s (look (i + 1))))
        | yes a ↦ elim (ℕ_discrete (c.cpu_of j) (c.cpu_of i)) [
          | yes x ↦
              step_on Off s (move j (look (i + 1)) s) (Step.pass j i lt e l (inr (inl x))) refl refl
                refl
                (look_loop d (move j (look (i + 1)) s) (i + 1) (omega (arith, b))
                  (now_at s (look (i + 1))))
          | no n ↦ elim (Bool-cases (s.working i)) [
            | inr w ↦
                step_on Off s (move j (look (i + 1)) s) (Step.pass j i lt e l (inr (inr w))) refl
                  refl refl
                  (look_loop d (move j (look (i + 1)) s) (i + 1) (omega (arith, b))
                    (now_at s (look (i + 1))))
            | inl w ↦
                step_on Off s (move j (take i) s) (Step.target j i lt e l a n w) refl refl refl (
                  then_on (At (look (i + 1))) Off (move j (take i) s)
                    (steal_loop (s.end i) (move j (take i) s) i (omega arith) (now_at s (take i)))
                    (λ t y. look_loop d t (i + 1) (omega (arith, b)) y))
          ]
        ]
      ]
    ]

    look_on : (s : Job) (i : ℕ) → At (look i) s → Goes Off s
    look_on s i e = look_loop c.max_threads s i (omega arith) e

    exhaust_on : (s : Job) → s.end j ≤ s.curr j → At fetching s → Goes Off s
    exhaust_on s b e =
        step_on Off s (draw j j (look 0) s) (Step.exhaust j lt e b) refl refl refl
          (look_on (draw j j (look 0) s) 0 (now_at s (look 0)))

    leave_on : (s : Job) → At testing s → s.working j ≡ false → Goes Off s
    leave_on s e w =
        step_on Off s (move j (look 0) s) (Step.leave j lt e w) refl refl refl
          (look_on (move j (look 0) s) 0 (now_at s (look 0)))

    -- A worker's own loop.
    own_loop : (d : ℕ) (s : Job) → s.end j ≤ s.curr j + d → At testing s → Goes Off s
    own_loop zero s b e = elim (Bool-cases (s.working j)) [
      | inr w ↦ leave_on s e w
      | inl w ↦
          step_on Off s (move j fetching s) (Step.go_on j lt e w) refl refl refl
            (exhaust_on (move j fetching s) (omega arith) (now_at s fetching))
    ]
    own_loop (suc d) s b e = elim (Bool-cases (s.working j)) [
      | inr w ↦ leave_on s e w
      | inl w ↦
          let s1 : Job = move j fetching s in
          step_on Off s s1 (Step.go_on j lt e w) refl refl refl
            (elim (dec_lt (s.curr j) (s.end j)) [
              | no n ↦ exhaust_on s1 (omega arith) (now_at s fetching)
              | yes l ↦
                  let s2 : Job = draw j j (Pc.claimed (s.curr j)) s1 in
                  let s3 : Job = compute j (s.curr j) testing s2 in
                  step_on Off s1 s2 (Step.claim j lt (now_at s fetching) l) refl refl refl (
                    step_on Off s2 s3 (Step.run j (s.curr j) lt (now_at s1 (Pc.claimed (s.curr j))))
                      refl refl refl
                      (own_loop d s3 (omega (arith, update-same s.curr j (s.curr j + 1)))
                        (now_at s2 testing)))
            ])
    ]

    own_on : (s : Job) → At testing s → Goes Off s
    own_on s e = own_loop (s.end j) s (omega arith) e

    run_on : (s : Job) (t : ℕ) → At (Pc.claimed t) s → Goes Off s
    run_on s t e =
        step_on Off s (compute j t testing s) (Step.run j t lt e) refl refl refl
          (own_on (compute j t testing s) (now_at s testing))

    take_on : (s : Job) (i : ℕ) → At (take i) s → Goes Off s
    take_on s i e =
        then_on (At (look (i + 1))) Off s (steal_loop (s.end i) s i (omega arith) e)
          (λ t y. look_on t (i + 1) y)

    -- Wherever a worker is, it comes to its end.
    pub settles : (s : Job) (p : Pc) → At p s → Goes Off s
    settles s idle e = elim (Bool-cases (s.working j)) [
      | inr w ↦ there Off s w
      | inl w ↦
          step_on Off s (move j testing s) (Step.start j lt e w) refl refl refl
            (own_on (move j testing s) (now_at s testing))
    ]
    settles s testing e = own_on s e
    settles s fetching e = elim (dec_lt (s.curr j) (s.end j)) [
      | no n ↦ exhaust_on s (omega arith) e
      | yes l ↦
          step_on Off s (draw j j (Pc.claimed (s.curr j)) s) (Step.claim j lt e l) refl refl refl (
            run_on (draw j j (Pc.claimed (s.curr j)) s) (s.curr j)
              (now_at s (Pc.claimed (s.curr j))))
    ]
    settles s (Pc.claimed t) e = run_on s t e
    settles s (look i) e = look_on s i e
    settles s (take i) e = take_on s i e
    settles s (stolen i t) e =
        step_on Off s (compute j t (take i) s) (Step.run_stolen j i t lt e) refl refl refl
          (take_on (compute j t (take i) s) i (now_at s (take i)))
