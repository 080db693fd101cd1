-- ===== src/MoeV2/Results.antt =====
-- forward_many computes the same output on both of its paths, in every schedule.
use xiaotu_moe.Base.{
  refl, row-div, row-lt, if-both, if-congr, fun_ext, ◌||◌, ◌%◌, ◌^◌, if◌then◌else◌, ◌==◌, leb,
  loop-keeps, arith, sym, ℕ, ◌+◌, ◌*◌, ◌/◌, ◌<◌, ◌≡◌, true, loop-congr, List, Once, ap, run_all,
  length, run_all-once, ◌∙◌, update-same, update-other, ◌≤◌, get_or,
}
use xiaotu_moe.MoeV2.Phases.{run_all-fill, jobs-nonempty}
use xiaotu_moe.MoeV2.Routing.{active, routed}
use xiaotu_moe.MoeV2.Forward.{
  phase1, phase2, direct_row, forward_many, Floats, Weights, Call, act_row, down_row, reduce,
  no_weight, nass, Schedule, grouped, add_scaled, job_list, reduce_token, direct_token, no_job,
}

module _ (fl : Floats) (w : Weights fl) (nel : ℕ) (q : Call fl) where
  -- The output of the expert of assignment ai for its token.
  abbrev pub expert_output : ℕ → ℕ → fl.Float
  expert_output ai =
      down_row fl w nel q (q.ids ai) (act_row fl w nel q (q.ids ai) (q.input (ai / q.ranks)))

  -- The sum over the ranks of a token, in order, of weight times the expert's output.
  abbrev pub expected : ℕ → ℕ → fl.Float
  expected t = reduce fl w nel q expert_output t (λ _. fl.zero_float)

  reduce-congr :
      (u v : ℕ → ℕ → fl.Float) (t : ℕ) (out : ℕ → fl.Float)
      → t < q.tokens
      → ((ai : ℕ)
          → ai < nass fl w nel q
          → routed nel q.ids (no_weight fl w nel q) ai ≡ true
          → u ai ≡ v ai)
      → reduce fl w nel q u t out ≡ reduce fl w nel q v t out
  reduce-congr u v t out lt h =
      loop-congr q.ranks _ _
        (λ r below o.
          if-congr (routed nel q.ids (no_weight fl w nel q) (t * q.ranks + r)) _ _ o (λ y.
            ap (λ d. add_scaled fl w nel q (q.weight (t * q.ranks + r)) d o)
              (h (t * q.ranks + r) (row-lt q.tokens q.ranks t r lt below) y)))
        out

  -- A token's row after every token has been reduced once.
  pub reduced :
      (value : ℕ → ℕ → fl.Float) (order : List ℕ) (t : ℕ) (out : ℕ → ℕ → fl.Float)
      → Once q.tokens order
      → t < q.tokens
      → run_all (reduce_token fl w nel q value) order out t ≡ reduce fl w nel q value t (out t)
  reduced value order t out o lt =
      run_all-once (λ s. s t) (reduce_token fl w nel q value) t (reduce fl w nel q value t)
        (λ s. update-same s t _) (λ i s d. update-other s i t _ d) order out (o.once t lt)

  direct_row-eq :
      (t : ℕ) (o : ℕ → fl.Float) → direct_row fl w nel q t o ≡ reduce fl w nel q expert_output t o
  direct_row-eq t o =
      loop-congr q.ranks _ _
        (λ r below s.
          ap
            (λ x.
              if routed nel q.ids (no_weight fl w nel q) (t * q.ranks + r)
              then add_scaled fl w nel q (q.weight (t * q.ranks + r))
                  (down_row fl w nel q (q.ids (t * q.ranks + r))
                    (act_row fl w nel q (q.ids (t * q.ranks + r)) (q.input x)))
                  s
              else s)
            (sym (row-div q.ranks t r below)))
        o

  -- With no routed assignment the sum is zero.
  pub unrouted :
      (t : ℕ)
      → t < q.tokens
      → ((ai : ℕ) → ai < nass fl w nel q → ¬ (routed nel q.ids (no_weight fl w nel q) ai ≡ true))
      → expected t ≡ (λ _. fl.zero_float)
  unrouted t lt h =
      loop-keeps (λ s. s) (λ _. fl.zero_float) _ q.ranks
        (λ r below s e.
          if-both (λ o. o ≡ (λ _. fl.zero_float))
            (routed nel q.ids (no_weight fl w nel q) (t * q.ranks + r)) _ s
            (λ y. absurd (h _ (row-lt q.tokens q.ranks t r lt below) y)) (λ _. e))
        (λ _. fl.zero_float) refl

  module _ (sch : Schedule) (nthreads factor : ℕ) (acts downs : ℕ → ℕ → fl.Float) where
    abbrev job_count : ℕ
    job_count = length (job_list fl w nel q nthreads)

    abbrev acts_done : ℕ → ℕ → fl.Float
    acts_done =
        run_all
          (λ ji. phase1 fl w nel q (get_or (job_list fl w nel q nthreads) ji (no_job fl w nel q)))
          (sch.order 0 job_count) acts

    acts_done-eq :
        (ai : ℕ)
        → ai < nass fl w nel q
        → routed nel q.ids (no_weight fl w nel q) ai ≡ true
        → acts_done ai ≡ act_row fl w nel q (q.ids ai) (q.input (ai / q.ranks))
    acts_done-eq ai lt r =
        run_all-fill nel q.ids (no_weight fl w nel q) (nass fl w nel q) nthreads
          (λ eid a. act_row fl w nel q eid (q.input (a / q.ranks))) (sch.order 0 job_count)
          (sch.order-Once 0 job_count) (no_job fl w nel q) (omega arith) ai lt r acts

    abbrev downs_done : ℕ → ℕ → fl.Float
    downs_done =
        run_all
          (λ ji.
            phase2 fl w nel q acts_done
              (get_or (job_list fl w nel q nthreads) ji (no_job fl w nel q)))
          (sch.order 1 job_count) downs

    downs_done-eq :
        (ai : ℕ)
        → ai < nass fl w nel q
        → routed nel q.ids (no_weight fl w nel q) ai ≡ true
        → downs_done ai ≡ expert_output ai
    downs_done-eq ai lt r =
        run_all-fill nel q.ids (no_weight fl w nel q) (nass fl w nel q) nthreads
          (λ eid a. down_row fl w nel q eid (acts_done a)) (sch.order 1 job_count)
          (sch.order-Once 1 job_count) (no_job fl w nel q) (omega arith) ai lt r downs
        ∙ ap (down_row fl w nel q (q.ids ai)) (acts_done-eq ai lt r)

    grouped-expected :
        (out : ℕ → ℕ → fl.Float) (t : ℕ)
        → t < q.tokens
        → out t ≡ (λ _. fl.zero_float)
        → grouped fl w nel q sch nthreads factor acts downs (job_list fl w nel q nthreads) out t
          ≡ expected t
    grouped-expected out t lt z =
        reduced downs_done (sch.order 2 q.tokens) t out (sch.order-Once 2 q.tokens) lt
        ∙ ap (reduce fl w nel q downs_done t) z
        ∙ reduce-congr downs_done expert_output t (λ _. fl.zero_float) lt downs_done-eq

    direct-expected :
        (out : ℕ → ℕ → fl.Float) (t : ℕ)
        → t < q.tokens
        → out t ≡ (λ _. fl.zero_float)
        → run_all (direct_token fl w nel q) (sch.order 0 q.tokens) out t ≡ expected t
    direct-expected out t lt z =
        run_all-once (λ s. s t) (direct_token fl w nel q) t (reduce fl w nel q expert_output t)
          (λ s. update-same s t _ ∙ direct_row-eq t (s t)) (λ i s d. update-other s i t _ d)
          (sch.order 0 q.tokens) out ((sch.order-Once 0 q.tokens).once t lt)
        ∙ ap (reduce fl w nel q expert_output t) z

    -- For a call with a rank, every schedule of the pool's jobs, number of threads, grouping factor
    -- and contents of the scratch buffers, forward_many leaves in each token's row of the output the
    -- sum over the token's ranks, in order, of the weight times the expert's output (assignments
    -- without an expert or with weight zero left out): the grouped and the direct path agree.
    pub forward_many-expected :
        1 ≤ q.ranks
        → (out : ℕ → ℕ → fl.Float) (t : ℕ) → t < q.tokens
        → forward_many fl w nel q sch nthreads factor acts downs out t ≡ expected t
    forward_many-expected k out t lt =
        if-both (λ (o : ℕ → ℕ → fl.Float). o t ≡ expected t) (q.tokens == 0 || q.ranks == 0) _ _
          (λ e. absurd (ground arith))
          (λ _.
            if-both (λ (o : ℕ → ℕ → fl.Float). o t ≡ expected t)
              (leb
                (length (active nel q.ids (no_weight fl w nel q) (nass fl w nel q))
                  * factor
                  % 2 ^ 64)
                (nass fl w nel q))
              _ _
              (λ _.
                if-both (λ (o : ℕ → ℕ → fl.Float). o t ≡ expected t) (job_count == 0) _ _
                  (λ e. zeroed ∙ sym (unrouted t lt (no_job_left e)))
                  (λ _. grouped-expected _ t lt zeroed))
              (λ _. direct-expected _ t lt zeroed))
      where
        zeroed :
            ◌≡◌ {A = ℕ → fl.Float}
              (λ h. if leb q.tokens t then out t h else fl.zero_float)
              (λ _. fl.zero_float)
        zeroed = fun_ext (λ h.
            if-both (λ x. x ≡ fl.zero_float) (leb q.tokens t) _ _ (λ e. absurd (ground arith))
              (λ _. refl))

        no_job_left :
            (job_count == 0) ≡ true
            → (ai : ℕ) → ai < nass fl w nel q
            → ¬ (routed nel q.ids (no_weight fl w nel q) ai ≡ true)
        no_job_left e ai lt r = ground (
          arith,
          jobs-nonempty nel q.ids (no_weight fl w nel q) (nass fl w nel q) nthreads ai lt r,
        )
