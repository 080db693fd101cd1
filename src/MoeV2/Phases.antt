-- ===== src/MoeV2/Phases.antt =====
-- A phase over the jobs fills every routed assignment's row, in whatever order the jobs run.
use xiaotu_moe.Base.{
  ℕ, ◌+◌, ◌-◌, ◌<◌, ◌≡◌, sym, ap, ◌∙◌, subst, arith, Bool, true, List, length, get_or, loop,
  run_all, run_all-writes, loop-keeps, update, update-same, update-other, Once, Any-index,
  All-get_or_default, ℕ_discrete, loop-writes, ◌≤◌,
}
use xiaotu_moe.MoeV2.Routing.{routed, per_expert, active}
use xiaotu_moe.MoeV2.Grouping.{per_expert-Grouped}
use xiaotu_moe.MoeV2.Jobs.{Job, jobs}
use xiaotu_moe.MoeV2.Cover.{
  Takes, Within, jobs_from-cover, jobs_from-Within, perjob_of-pos, active-has,
}

module _ {ℓ} {A : Type ℓ} (nel : ℕ) (ids : ℕ → ℕ) (no_weight : ℕ → Bool) (n nthreads : ℕ)
    (val : ℕ → ℕ → A) where
  abbrev lists : ℕ → List ℕ
  lists = (per_expert nel ids no_weight n).list

  abbrev pub fill : Job → (ℕ → A) → ℕ → A
  fill j s =
      loop (j.ae - j.ab)
        (λ d s'. let ai = get_or (lists j.eid) (j.ab + d) 0 in update s' ai (val j.eid ai)) s

  update-keeps :
      (e ai ai' : ℕ) (s : ℕ → A)
      → ids ai' ≡ e
      → s ai ≡ val (ids ai) ai
      → update s ai' (val e ai') ai ≡ val (ids ai) ai
  update-keeps e ai ai' s q h = elim (ℕ_discrete ai' ai) [
    | yes r ↦
        subst (λ a. update s ai' (val e ai') a ≡ val (ids a) a) r
          (update-same s ai' (val e ai') ∙ ap (λ x. val x ai') (sym q))
    | no d ↦ update-other s ai' ai (val e ai') d ∙ h
  ]

  fill-keeps :
      (ai : ℕ) (j : Job)
      → Within lists j
      → (s : ℕ → A) → s ai ≡ val (ids ai) ai
      → fill j s ai ≡ val (ids ai) ai
  fill-keeps ai j b s h =
      loop-keeps (λ s'. s' ai) (val (ids ai) ai) _ (j.ae - j.ab)
        (λ d lt s'.
          update-keeps j.eid ai _ s'
            (((per_expert-Grouped nel ids no_weight n).entry j.eid (j.ab + d) (omega arith)).2))
        s h

  fill-writes :
      (ai : ℕ) (j : Job)
      → Within lists j
      → Takes (ids ai) ((per_expert nel ids no_weight n).index ai) j
      → ai < n
      → routed nel ids no_weight ai ≡ true
      → (s : ℕ → A) → fill j s ai ≡ val (ids ai) ai
  fill-writes ai j b (e, lo, hi) lt r s =
      loop-writes (λ s'. s' ai) (val (ids ai) ai) _ (j.ae - j.ab)
        (λ d below s'.
          update-keeps j.eid ai _ s'
            (((per_expert-Grouped nel ids no_weight n).entry j.eid (j.ab + d) (omega arith)).2))
        ((per_expert nel ids no_weight n).index ai - j.ab)
        (λ s'.
          subst (λ x. update s' x (val j.eid x) ai ≡ val (ids ai) ai) (sym found)
            (update-same s' ai (val j.eid ai) ∙ ap (λ x. val x ai) e))
        s (omega arith)
    where
      found :
          get_or (lists j.eid) (j.ab + ((per_expert nel ids no_weight n).index ai - j.ab)) 0 ≡ ai
      found =
          ap (λ i. get_or (lists j.eid) i 0) (omega arith)
          ∙ ap (λ x. get_or (lists x) ((per_expert nel ids no_weight n).index ai) 0) e
          ∙ ((per_expert-Grouped nel ids no_weight n).placed ai lt r).1

  -- Every order of the jobs leaves `val` of the assignment's expert in the row of each routed
  -- assignment.
  pub run_all-fill :
      (order : List ℕ)
      → Once (length (jobs nthreads lists (active nel ids no_weight n))) order
      → (no_job : Job) → Within lists no_job
      → (ai : ℕ) → ai < n
      → routed nel ids no_weight ai ≡ true
      → (s : ℕ → A)
      → run_all
          (λ ji. fill (get_or (jobs nthreads lists (active nel ids no_weight n)) ji no_job))
          order
          s
          ai
        ≡ val (ids ai) ai
  run_all-fill order o no_job b ai lt r s =
      let js = jobs nthreads lists (active nel ids no_weight n) in
      let (ji, below, takes) =
        Any-index (Takes (ids ai) ((per_expert nel ids no_weight n).index ai)) js no_job (
          jobs_from-cover _ lists _ (ids ai) _ (perjob_of-pos nthreads _)
            (active-has nel ids no_weight n ai lt r)
            (((per_expert-Grouped nel ids no_weight n).placed ai lt r).0)) in
      run_all-writes (λ s'. s' ai) (val (ids ai) ai) _
        (λ i s'. fill-keeps ai (get_or js i no_job) (within i) s') ji
        (fill-writes ai (get_or js ji no_job) (within ji) takes lt r) order s
        (omega (arith, o.once ji below))
    where
      within :
          (i : ℕ)
          → Within lists (get_or (jobs nthreads lists (active nel ids no_weight n)) i no_job)
      within i = All-get_or_default (Within lists) _ no_job i b (jobs_from-Within _ lists _)

-- A routed assignment makes a job.
pub jobs-nonempty :
    (nel : ℕ) (ids : ℕ → ℕ) (no_weight : ℕ → Bool) (n nthreads ai : ℕ)
    → ai < n
    → routed nel ids no_weight ai ≡ true
    → 1 ≤ length (jobs nthreads (per_expert nel ids no_weight n).list (active nel ids no_weight n))
jobs-nonempty nel ids no_weight n nthreads ai lt r =
    let (ji, below, takes) =
      Any-index (Takes (ids ai) ((per_expert nel ids no_weight n).index ai))
        (jobs nthreads (per_expert nel ids no_weight n).list (active nel ids no_weight n))
        (record { eid = 0; ab = 0; ae = 0 })
        (jobs_from-cover _ (per_expert nel ids no_weight n).list _ (ids ai) _
          (perjob_of-pos nthreads _) (active-has nel ids no_weight n ai lt r)
          (((per_expert-Grouped nel ids no_weight n).placed ai lt r).0)) in
    omega arith
