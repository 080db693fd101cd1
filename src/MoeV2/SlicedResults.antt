-- ===== src/MoeV2/SlicedResults.antt =====
-- forward_many_nsliced computes what forward_many computes.
use xiaotu_moe.Base.{
  refl, sym, ap, ◌∙◌, subst, arith, ℕ, ◌+◌, ◌*◌, ◌/◌, ◌≤◌, ◌<◌, ◌≡◌, ◌==◌, true, length, get_or,
  Any-index, loop-agree, if-two, if-both, ◌||◌, leb, row-lt, if◌then◌else◌, List,
}
use xiaotu_moe.MoeV2.Routing.{routed}
use xiaotu_moe.MoeV2.Cover.{active-has}
use xiaotu_moe.MoeV2.Forward.{
  Floats, Weights, Call, Schedule, no_weight, nass, silu_gate, reduce, add_scaled,
}
use xiaotu_moe.MoeV2.Sliced.{
  Config, Slices, Sites, Bufs, active_list, instances, acts_done, down_done, nc_gu, nc_d, sub_a,
  sub_b, gate_up_job, down_job, forward_many_nsliced,
}
use xiaotu_moe.MoeV2.SlicedJobs.{
  RowSlices, size, expert, act_half, down_value, gate_up_job-keeps, gate_up_job-writes,
  down_job-keeps, down_job-writes,
}
use xiaotu_moe.MoeV2.Regroup.{Regrouped, regroup-Regrouped}
use xiaotu_moe.MoeV2.Results.{reduced, unrouted, expert_output, expected}
use xiaotu_moe.MoeV2.Partition.{chunk_count-pos, sub_count-pos}
use xiaotu_moe.MoeV2.SlicedPhase.{Held, phase-writes}

module _ (fl : Floats) (w : Weights fl) (nel : ℕ) (q : Call fl) where
  add-both :
      (s s' : ℕ → fl.Float) (h : ℕ) {x y : fl.Float}
      → s h ≡ s' h
      → x ≡ y
      → fl.add (s h) x ≡ fl.add (s' h) y
  add-both s s' h {x} {y} e d = ap (λ a. fl.add a x) e ∙ ap (fl.add (s' h)) d

  -- A reduced element depends on that element of the routed rows only.
  reduce-at :
      (u v : ℕ → ℕ → fl.Float) (t h : ℕ) (o p : ℕ → fl.Float)
      → t < q.tokens
      → ((ai : ℕ)
          → ai < nass fl w nel q
          → routed nel q.ids (no_weight fl w nel q) ai ≡ true
          → u ai h ≡ v ai h)
      → o h ≡ p h
      → reduce fl w nel q u t o h ≡ reduce fl w nel q v t p h
  reduce-at u v t h o p lt e z =
      loop-agree (λ s. s h) q.ranks _ _
        (λ r below s s' k.
          if-two (λ (x y : ℕ → fl.Float). x h ≡ y h)
            (routed nel q.ids (no_weight fl w nel q) (t * q.ranks + r))
            (add_scaled fl w nel q (q.weight (t * q.ranks + r)) (u (t * q.ranks + r)) s) s
            (add_scaled fl w nel q (q.weight (t * q.ranks + r)) (v (t * q.ranks + r)) s') s'
            (λ y. add-both s s' h k (
              ap (fl.mul (q.weight (t * q.ranks + r)))
                (e (t * q.ranks + r) (row-lt q.tokens q.ranks t r lt below) y)))
            k)
        o p z

  -- The blocks lie where the jobs of both phases look for them.
  module _ (cfg : Config) (sl : Slices fl) (rows : RowSlices fl w cfg sl) (old : ℕ → List ℕ)
      (sch : Schedule) (w13 w2 : Sites sl.Block) (held13 : Held cfg rows.OwnsGate cfg.inter w13)
      (held2 : Held cfg rows.OwnsDown cfg.hidden w2) (bufs : Bufs fl)
      (down : ℕ → ℕ → ℕ → fl.Float) where
    abbrev index_of : ℕ → ℕ
    index_of = (instances fl w nel cfg sl q old).index

    abbrev acts : Bufs fl
    acts = acts_done fl w nel cfg sl q old sch w13 w2 bufs down

    abbrev downs : ℕ → ℕ → ℕ → fl.Float
    downs = down_done fl w nel cfg sl q old sch w13 w2 bufs down

    -- The place among the active experts of the expert of a routed assignment.
    located :
        (ai : ℕ)
        → ai < nass fl w nel q
        → routed nel q.ids (no_weight fl w nel q) ai ≡ true
        → (j : ℕ) × (j < length (active_list fl w nel cfg sl q old))
          × (get_or (active_list fl w nel cfg sl q old) j 0 ≡ q.ids ai)
    located ai lt r =
        Any-index (λ x. x ≡ q.ids ai) (active_list fl w nel cfg sl q old) 0
          (active-has nel q.ids (no_weight fl w nel q) (nass fl w nel q) ai lt r)

    regrouped :
        Regrouped nel q.ids
          (no_weight fl w nel q)
          old
          (nass fl w nel q)
          (instances fl w nel cfg sl q old)
    regrouped = regroup-Regrouped nel q.ids (no_weight fl w nel q) old (nass fl w nel q)

    acts-eq :
        (ai : ℕ)
        → ai < nass fl w nel q
        → routed nel q.ids (no_weight fl w nel q) ai ≡ true
        → (i : ℕ) → i < cfg.inter
        → acts.abf16 (q.ids ai) (index_of ai) i
          ≡ act_half fl w nel cfg sl q old rows (q.ids ai) (index_of ai) i
    acts-eq ai lt r i il =
        let (j, jl, e) = located ai lt r in
        let ml =
          subst (λ x. index_of ai < size fl w nel cfg sl q old rows x) (sym e)
            (regrouped.placed ai lt r).0 in
        subst
          (λ x.
            acts.abf16 x (index_of ai) i ≡ act_half fl w nel cfg sl q old rows x (index_of ai) i)
          e
          (phase-writes fl w nel cfg sl q old sch rows.OwnsGate (gate_up_job fl w nel cfg sl q old)
            (λ (u : Bufs fl). u.abf16 (expert fl w nel cfg sl q old rows j) (index_of ai) i)
            (act_half fl w nel cfg sl q old rows (expert fl w nel cfg sl q old rows j) (index_of ai)
              i)
            j i
            (λ b k p u o z.
              gate_up_job-keeps fl w nel cfg sl q old rows b j k p u (index_of ai) i ml il o z)
            (λ b p u h o.
              gate_up_job-writes fl w nel cfg sl q old rows b j p u (index_of ai) i ml il h o)
            0 cfg.inter (nc_gu fl w nel cfg sl q old) (sub_a fl w nel cfg sl q old) w13 bufs
            (chunk_count-pos cfg.ncgu cfg.nthreads (length (active_list fl w nel cfg sl q old))
              cfg.inter)
            (sub_count-pos cfg.shardsplit cfg.split_disabled cfg.nshard cfg.nthreads
              (length (active_list fl w nel cfg sl q old)) cfg.inter)
            jl il held13)

    downs-eq :
        (ai : ℕ)
        → ai < nass fl w nel q
        → routed nel q.ids (no_weight fl w nel q) ai ≡ true
        → (h : ℕ) → h < cfg.hidden
        → downs (q.ids ai) (index_of ai) h ≡ expert_output fl w nel q ai h
    downs-eq ai lt r h hl =
        let (j, jl, e) = located ai lt r in
        let placed = regrouped.placed ai lt r in
        let ml = subst (λ x. index_of ai < size fl w nel cfg sl q old rows x) (sym e) placed.0 in
        subst (λ x. downs x (index_of ai) h ≡ w.down (acts.abf16 x (index_of ai)) x h) e
          (phase-writes fl w nel cfg sl q old sch rows.OwnsDown
            (down_job fl w nel cfg sl q old acts.abf16)
            (λ (u : ℕ → ℕ → ℕ → fl.Float). u (expert fl w nel cfg sl q old rows j) (index_of ai) h)
            (down_value fl w nel cfg sl q old rows acts.abf16 (expert fl w nel cfg sl q old rows j)
              (index_of ai) h)
            j h
            (λ b k p u o z.
              down_job-keeps fl w nel cfg sl q old rows acts.abf16 b j k p u (index_of ai) h ml hl o
                z)
            (λ b p u d o.
              down_job-writes fl w nel cfg sl q old rows acts.abf16 b j p u (index_of ai) h ml hl d
                o)
            1 cfg.hidden (nc_d fl w nel cfg sl q old) (sub_b fl w nel cfg sl q old) w2 down
            (chunk_count-pos cfg.ncd cfg.nthreads (length (active_list fl w nel cfg sl q old))
              cfg.hidden)
            (sub_count-pos cfg.shardsplit cfg.split_disabled cfg.nshard cfg.nthreads
              (length (active_list fl w nel cfg sl q old)) cfg.hidden)
            jl hl held2)
        ∙ rows.down_local _ _ (q.ids ai) h (λ i il.
          acts-eq ai lt r i il
          ∙ ap
              (λ a. fl.fp32_to_bf16 (
                silu_gate fl w nel (w.gate (q.input (a / q.ranks)) (q.ids ai) i)
                  (w.up (q.input (a / q.ranks)) (q.ids ai) i)))
              placed.1)

    abbrev value : ℕ → ℕ → fl.Float
    value ai = downs (q.ids ai) (index_of ai)

    abbrev cleared : (ℕ → ℕ → fl.Float) → ℕ → ℕ → fl.Float
    cleared out t h = if leb q.tokens t then out t h else fl.zero_float

    -- For a call with a rank and every schedule of the pool's jobs in which each job runs once, every
    -- number of threads and shards, every override of the chunk counts and every contents of the
    -- reused buffers and lists, forward_many_nsliced leaves in each of the `hidden` elements of a
    -- token's row the sum over the token's ranks, in order, of the weight times the expert's output:
    -- the same as forward_many. It supposes that the slices compute the rows of the whole products
    -- that their block holds, and that the blocks hold the rows the jobs read: the shard of a node
    -- the rows of the node, without shards the block of every worker all rows.
    pub forward_many_nsliced-expected :
        1 ≤ q.ranks
        → (out : ℕ → ℕ → fl.Float) (t h : ℕ) → t < q.tokens
        → h < cfg.hidden
        → forward_many_nsliced fl w nel cfg sl q old sch w13 w2 bufs down out t h
          ≡ expected fl w nel q t h
    forward_many_nsliced-expected k out t h lt hl =
        if-both (λ (o : ℕ → ℕ → fl.Float). o t h ≡ expected fl w nel q t h)
          (q.tokens == 0 || q.ranks == 0) _ _ (λ e. absurd (ground arith))
          (λ _.
            if-both (λ (o : ℕ → ℕ → fl.Float). o t h ≡ expected fl w nel q t h)
              (length (active_list fl w nel cfg sl q old) == 0) _ _
              (λ e. zeroed ∙ sym (ap (λ f. f h) (unrouted fl w nel q t lt (none_active e))))
              (λ _.
                ap (λ f. f h)
                  (reduced fl w nel q value (sch.order 2 q.tokens) t (cleared out)
                    (sch.order-Once 2 q.tokens) lt)
                ∙ reduce-at value (expert_output fl w nel q) t h (cleared out t)
                    (λ _. fl.zero_float) lt (λ ai below r. downs-eq ai below r h hl) zeroed))
      where
        zeroed : (if leb q.tokens t then out t h else fl.zero_float) ≡ fl.zero_float
        zeroed =
            if-both (λ x. x ≡ fl.zero_float) (leb q.tokens t) _ _ (λ e. absurd (ground arith))
              (λ _. refl)

        none_active :
            (length (active_list fl w nel cfg sl q old) == 0) ≡ true
            → (ai : ℕ) → ai < nass fl w nel q
            → ¬ (routed nel q.ids (no_weight fl w nel q) ai ≡ true)
        none_active e ai below r = let (j, jl, e') = located ai below r in ground arith
