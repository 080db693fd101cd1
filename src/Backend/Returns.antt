-- ===== src/Backend/Returns.antt =====
-- A job can always be finished: whatever its threads have done, there are steps that bring the
-- caller to its return.
use xiaotu_moe.Base.{
  refl, sym, ◌∙◌, subst, arith, ℕ, zero, suc, ◌+◌, ◌-◌, ◌≤◌, ◌<◌, ◌≡◌, ℕ_discrete, false, List, [],
  ◌∷◌,
}
use xiaotu_moe.Backend.Nodes.{Share}
use xiaotu_moe.Backend.Workers.{Crew, Job, assign, Step, Run, calling, Returned}
use xiaotu_moe.Backend.Settle.{append, Goes, there, settles}

module _ (c : Crew) where
  -- All workers below n come to their ends.
  abbrev AllOff : ℕ → Job → Type 0
  AllOff n s = (i : ℕ) → i < n → s.working i ≡ false

  all_settle : (n : ℕ) → n ≤ c.max_threads → (s : Job) → Goes c (AllOff n) s
  all_settle zero l s = there c (AllOff zero) s (λ i b. absurd (omega arith))
  all_settle (suc n) l s =
      let first = all_settle n (omega arith) s in
      let last = settles c n (omega arith) first.to (first.to.pc n) refl in
      record {
        to = last.to;
        run = append c s first.to last.to first.run last.run;
        todo_kept = last.todo_kept ∙ first.todo_kept;
        waited_kept = last.waited_kept ∙ first.waited_kept;
        off_kept = λ k h. last.off_kept k (first.off_kept k h);
        reached = λ i b. elim (ℕ_discrete i n) [
          | yes y ↦ subst (λ x. last.to.working x ≡ false) (sym y) last.reached
          | no d ↦ last.off_kept i (first.reached i (omega arith))
        ];
      }

  -- The caller writes what is left.
  all_written :
      (todo : List Share) (s : Job)
      → s.todo ≡ todo
      → (t : Job) × Run c s t × (t.todo ≡ []) × (t.waited ≡ s.waited)
  all_written [] s e = (s, Run.begin, e, refl)
  all_written (x ∷ rest) s e =
      let (t, r, a, b) = all_written rest (assign x rest s) refl in
      (t, append c s (assign x rest s) t (Run.next Run.begin (Step.write x rest e)) r, a, b)

  -- The caller waits for the others.
  all_waited :
      (d : ℕ) (s : Job)
      → s.todo ≡ []
      → s.waited + d ≡ c.max_threads
      → AllOff c.max_threads s
      → (t : Job) × Run c s t × Returned c t
  all_waited zero s e w h = (s, Run.begin, (e, omega arith))
  all_waited (suc d) s e w h =
      let s1 : Job = record s { waited = s.waited + 1 } in
      let (t, r, a) = all_waited d s1 e (omega (arith, w)) h in
      (
        t,
        append c s s1 t
            (Run.next Run.begin (Step.wait e (omega (arith, w)) (h s.waited (omega (arith, w))))) r,
        a,
      )

  step-waited : (s t : Job) → Step c s t → s.waited ≤ c.max_threads → t.waited ≤ c.max_threads
  step-waited s t (Step.write x rest e) h = h
  step-waited s t (Step.wait e l w) h = omega (arith, l)
  step-waited s t (Step.start j l e w) h = h
  step-waited s t (Step.go_on j l e w) h = h
  step-waited s t (Step.leave j l e w) h = h
  step-waited s t (Step.claim j l e b) h = h
  step-waited s t (Step.exhaust j l e b) h = h
  step-waited s t (Step.run j u l e) h = h
  step-waited s t (Step.pass j i l e li o) h = h
  step-waited s t (Step.target j i l e li a b w) h = h
  step-waited s t (Step.steal j i l e b) h = h
  step-waited s t (Step.spend j i l e b) h = h
  step-waited s t (Step.run_stolen j i u l e) h = h
  step-waited s t (Step.finish j i l e b) h = h

  run-waited : (s t : Job) → Run c s t → s.waited ≤ c.max_threads → t.waited ≤ c.max_threads
  run-waited s t Run.begin h = h
  run-waited s t (Run.next {t = u} r st) h = step-waited u t st (run-waited s u r h)

  finishes : (s : Job) → s.waited ≤ c.max_threads → (t : Job) × Run c s t × Returned c t
  finishes s h =
      let (s1, r1, a1, b1) = all_written s.todo s refl in
      let g = all_settle c.max_threads (omega arith) s1 in
      let (t, r2, a2) =
        all_waited (c.max_threads - g.to.waited) g.to (g.todo_kept ∙ a1)
          (omega (arith, g.waited_kept, b1, h)) g.reached in
      (t, append c s g.to t (append c s s1 g.to r1 g.run) r2, a2)

  -- From every state that the caller and the workers reach in a job, there are steps that bring the
  -- caller to its return: no order of their steps makes it impossible.
  pub do_k_work_stealing_job_returns :
      (shares : List Share) (s t : Job)
      → Run c (calling shares s) t
      → (u : Job) × Run c t u × Returned c u
  do_k_work_stealing_job_returns shares s t r =
      finishes t (run-waited (calling shares s) t r (omega arith))
