-- ===== src/Backend/Steps.antt =====
-- Every step of a job keeps the invariant.
use xiaotu_moe.Base.{
  refl, sym, ap, ◌∙◌, subst, arith, ℕ, ◌+◌, ◌≤◌, ◌<◌, ◌≡◌, ℕ_discrete, Bool, false, [], All-map,
  update, update-same, update-other, total-update, true,
}
use xiaotu_moe.Backend.Workers.{
  Crew, idle, look, Job, Pc, Run, Step, testing, fetching, take, stolen,
}
use xiaotu_moe.Backend.Assign.{assign-Inv}
use xiaotu_moe.Backend.Claims.{
  moved, Inv, Thief, flying, Good, move-Inv, busy, draw-Inv, compute-Inv,
}

still_false : (f : ℕ → Bool) (j k : ℕ) (b : Bool) → b ≡ false → f k ≡ false → update f j b k ≡ false
still_false f j k b e h = elim (ℕ_discrete j k) [
  | yes y ↦ subst (λ x. update f j b x ≡ false) y (update-same f j b ∙ e)
  | no d ↦ update-other f j k b d ∙ h
]

module _ (c : Crew) (n_tasks : ℕ) (Home : (node t : ℕ) → Type 0) where
  wait-Inv :
      (s : Job)
      → Inv c n_tasks Home s
      → s.todo ≡ []
      → s.working s.waited ≡ false
      → Inv c n_tasks Home (record s { waited = s.waited + 1 })
  wait-Inv s h e w = record {
    from = h.from;
    ahead = h.ahead;
    tally = h.tally;
    shared = h.shared;
    awaits = h.awaits;
    distinct = h.distinct;
    quiet = h.quiet;
    thief = h.thief;
    outside = h.outside;
    home = h.home;
    good = h.good;
    logged = h.logged;
    after_wait = λ i lt. elim (ℕ_discrete i s.waited) [
      | yes y ↦ (e, subst (λ x. s.working x ≡ false) (sym y) w)
      | no d ↦ h.after_wait i (omega arith)
    ];
  }

  finish-Inv :
      (s : Job) (j i : ℕ)
      → Inv c n_tasks Home s
      → j < c.max_threads
      → s.pc j ≡ look i
      → Inv c n_tasks Home
          (record s { working = update s.working j false; pc = update s.pc j idle })
  finish-Inv s j i h lt e = record {
    from = h.from;
    ahead = h.ahead;
    tally = λ t.
        omega
          (arith, h.tally t, total-update (flying t) c.max_threads s.pc j idle lt, ap (flying t) e);
    shared = h.shared;
    awaits =
        All-map _ _ _
          (λ x a. record {
            fits = a.fits;
            nothing_left = a.nothing_left;
            not_working = still_false s.working j x.tid false refl a.not_working;
          })
          h.awaits;
    distinct = h.distinct;
    quiet = λ k w. elim (ℕ_discrete j k) [
      | yes y ↦
          subst (λ x. (update s.pc j idle x ≡ idle) × (s.end x ≤ s.curr x)) y
            (update-same s.pc j idle, h.thief j (subst Thief (sym e) tt))
      | no d ↦
          let (a, b) = h.quiet k (sym (update-other s.working j k false d) ∙ w) in
          (update-other s.pc j k idle d ∙ a, b)
    ];
    thief =
        moved c n_tasks Home (λ k q. Thief q → s.end k ≤ s.curr k) s.pc j idle h.thief
          (λ b. absurd b);
    outside = λ k lk. still_false s.working j k false refl (h.outside k lk);
    home = h.home;
    good = moved c n_tasks Home (Good c n_tasks Home) s.pc j idle h.good tt;
    logged = h.logged;
    after_wait =
        λ k lk. let (a, b) = h.after_wait k lk in (a, still_false s.working j k false refl b);
  }

  busy_at :
      (s : Job) (j : ℕ) (p : Pc)
      → Inv c n_tasks Home s
      → s.pc j ≡ p
      → ¬ (p ≡ idle)
      → s.working j ≡ true
  busy_at s j p h e n = busy c n_tasks Home s j h (λ y. n (sym e ∙ y))

  behind :
      (s : Job) (j : ℕ) (p : Pc) → Inv c n_tasks Home s → s.pc j ≡ p → Thief p → s.end j ≤ s.curr j
  behind s j p h e q = h.thief j (subst Thief (sym e) q)

  pub step-Inv : (s t : Job) → Inv c n_tasks Home s → Step c s t → Inv c n_tasks Home t
  step-Inv s t h (Step.write x rest e) = assign-Inv c n_tasks Home s x rest h e
  step-Inv s t h (Step.wait e l w) = wait-Inv s h e w
  step-Inv s t h (Step.start j lt e w) =
      move-Inv c n_tasks Home s j testing h lt w (λ u. sym (ap (flying u) e)) (λ b. absurd b) tt
  step-Inv s t h (Step.go_on j lt e w) =
      move-Inv c n_tasks Home s j fetching h lt w (λ u. sym (ap (flying u) e)) (λ b. absurd b) tt
  step-Inv s t h (Step.leave j lt e w) = absurd (cc (e, (h.quiet j w).0))
  step-Inv s t h (Step.claim j lt e l) =
      draw-Inv c n_tasks Home s j j (Pc.claimed (s.curr j)) h lt lt
        (busy_at s j fetching h e (λ y. cc (y))) (λ u. ground (arith, ap (flying u) e, l))
        (λ b. absurd b) (h.home j (s.curr j) (h.ahead j) l)
  step-Inv s t h (Step.exhaust j lt e l) =
      draw-Inv c n_tasks Home s j j (look 0) h lt lt (busy_at s j fetching h e (λ y. cc (y)))
        (λ u. ground (arith, ap (flying u) e, l)) (λ q. l) tt
  step-Inv s t h (Step.run j u lt e) =
      compute-Inv c n_tasks Home s j u testing h lt (busy_at s j (Pc.claimed u) h e (λ y. cc (y)))
        (λ v. omega (arith, ap (flying v) e)) (λ b. absurd b) tt
        (subst (Good c n_tasks Home j) e (h.good j))
  step-Inv s t h (Step.pass j i lt e li o) =
      move-Inv c n_tasks Home s j (look (i + 1)) h lt (busy_at s j (look i) h e (λ y. cc (y)))
        (λ u. sym (ap (flying u) e)) (λ q. behind s j (look i) h e tt) tt
  step-Inv s t h (Step.target j i lt e li a b w) =
      move-Inv c n_tasks Home s j (take i) h lt (busy_at s j (look i) h e (λ y. cc (y)))
        (λ u. sym (ap (flying u) e)) (λ q. behind s j (look i) h e tt) (li, sym a)
  step-Inv s t h (Step.steal j i lt e l) =
      let (li, a) = subst (Good c n_tasks Home j) e (h.good j) in
      draw-Inv c n_tasks Home s i j (stolen i (s.curr i)) h li lt
        (busy_at s j (take i) h e (λ y. cc (y))) (λ u. ground (arith, ap (flying u) e, l))
        (λ q. behind s j (take i) h e tt)
        (li, a, subst (λ x. Home x (s.curr i)) a (h.home i (s.curr i) (h.ahead i) l))
  step-Inv s t h (Step.spend j i lt e l) =
      let (li, a) = subst (Good c n_tasks Home j) e (h.good j) in
      draw-Inv c n_tasks Home s i j (look (i + 1)) h li lt (busy_at s j (take i) h e (λ y. cc (y)))
        (λ u. ground (arith, ap (flying u) e, l)) (λ q. behind s j (take i) h e tt) tt
  step-Inv s t h (Step.run_stolen j i u lt e) =
      let (li, a, b) = subst (Good c n_tasks Home j) e (h.good j) in
      compute-Inv c n_tasks Home s j u (take i) h lt (busy_at s j (stolen i u) h e (λ y. cc (y)))
        (λ v. omega (arith, ap (flying v) e)) (λ q. behind s j (stolen i u) h e tt) (li, a) b
  step-Inv s t h (Step.finish j i lt e l) = finish-Inv s j i h lt e

  pub run-Inv : (s t : Job) → Inv c n_tasks Home s → Run c s t → Inv c n_tasks Home t
  run-Inv s t h Run.begin = h
  run-Inv s t h (Run.next {t = u} r st) = step-Inv u t (run-Inv s u h r) st
