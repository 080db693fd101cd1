-- ===== src/Moe/Result.antt =====
-- forward_many_m computes what it is to compute.
use xiaotu_moe.Base.{
  sym, ap, ◌∙◌, subst, arith, ℕ, ◌+◌, ◌*◌, ◌/◌, ◌%◌, ◌≤◌, ◌<◌, ◌≡◌, ℕ_discrete, inl, inr, ◌==◌, ◌≢◌,
  if-both, in_block, ◌⊎◌, if◌then◌else◌, row-lt, run_all-turn,
}
use xiaotu_moe.Moe.Inputs.{gathered-Row}
use xiaotu_moe.Moe.Prepared.{prepared}
use xiaotu_moe.Moe.Rows.{stride_blocks, some_blocks}
use xiaotu_moe.Moe.Acts.{nth, blk}
use xiaotu_moe.Layers.Blocks.{Place, NumaBlock}
use xiaotu_moe.Layers.Jobs.{Dispatch, at, home, at_bounds, at_injective, run_job, at_covers}
use xiaotu_moe.Moe.Kernels.{Ggml}
use xiaotu_moe.Moe.Forward.{
  Moe, Args, Inputs, Buffers, Outputs, reduce, reduce_block, forward_many_m, convert_input,
  assignments, gather, gate_up, convert_rows, down,
}
use xiaotu_moe.Moe.Expected.{Matrices, expected}
use xiaotu_moe.Moe.Held.{Layout, stride_block}
use xiaotu_moe.Moe.Downs.{out_blocks, outs_done}
use xiaotu_moe.Moe.Sums.{Waiting, Written, block_Written, block_Waiting, block_stays}

module _ (g : Ggml) (m : Moe g) (q : Args g) (w : Matrices g) (lay : Layout g m q w)
    (d : Dispatch m.numa_nodes) where
  abbrev blocks : ℕ
  blocks = out_blocks g m q w lay d

  abbrev spot : ℕ → Place
  spot = at lay.some_node d 5 q.qlen blocks

  abbrev spot_home : ℕ → NumaBlock
  spot_home = home lay.some_node d 5 q.qlen blocks

  abbrev node_of : ℕ → ℕ
  node_of = d.node 5 q.qlen blocks

  module _ (token ith t : ℕ) (lt : t < blocks * q.qlen) (pe : (spot t).expert ≡ token)
      (pi : (spot t).ith ≡ ith) where
    task_Written :
        1 ≤ q.k
        → (s : Outputs g) → Waiting g m q w lay d token ith s
        → Written g m q w lay d token ith (reduce g m q (node_of t) t s)
    task_Written p s h =
        if-both (Written g m q w lay d token ith) ((spot_home t).num_blocks == 0) s _
          (λ z.
            absurd
              (let b = (at_bounds lay.some_node d 5 q.qlen blocks t lt).1 in ground (arith, b)))
          (λ _.
            subst
              (λ y.
                Written g m q w lay d token ith (reduce_block g m q y ((spot t).ith * m.stride) s))
              (sym pe)
              (subst
                (λ y. Written g m q w lay d token ith (reduce_block g m q token (y * m.stride) s))
                (sym pi)
                (block_Written g m q w lay d token ith s
                  (omega (arith, pe, (at_bounds lay.some_node d 5 q.qlen blocks t lt).0)) p h)))

    away : (u : ℕ) → u < blocks * q.qlen → u ≢ t → ((spot u).expert ≢ token) ⊎ ((spot u).ith ≢ ith)
    away u lu ne = elim (ℕ_discrete (spot u).expert token) [
      | yes e ↦ inr (λ i.
          ne (at_injective lay.some_node d 5 q.qlen blocks u t lu lt (e ∙ sym pe) (i ∙ sym pi)))
      | no n ↦ inl n
    ]

    task_Waiting :
        (u : ℕ)
        → u < blocks * q.qlen
        → u ≢ t
        → (s : Outputs g) → Waiting g m q w lay d token ith s
        → Waiting g m q w lay d token ith (reduce g m q (node_of u) u s)
    task_Waiting u lu ne s h =
        if-both (Waiting g m q w lay d token ith) ((spot_home u).num_blocks == 0) s
          (reduce_block g m q (spot u).expert ((spot u).ith * m.stride) s) (λ _. h)
          (λ _.
            block_Waiting g m q w lay d token ith (spot u).expert (spot u).ith s
              (omega (arith, pe, (at_bounds lay.some_node d 5 q.qlen blocks t lt).0))
              (at_bounds lay.some_node d 5 q.qlen blocks u lu).0 (away u lu ne) h)

    task_stays :
        (u : ℕ)
        → u < blocks * q.qlen
        → u ≢ t
        → (s : Outputs g) → Written g m q w lay d token ith s
        → Written g m q w lay d token ith (reduce g m q (node_of u) u s)
    task_stays u lu ne s h =
        if-both (Written g m q w lay d token ith) ((spot_home u).num_blocks == 0) s
          (reduce_block g m q (spot u).expert ((spot u).ith * m.stride) s) (λ _. h)
          (λ _. block_stays g m q w lay d token ith (spot u).expert (spot u).ith s (away u lu ne) h)

  module _ (rows ordered : Inputs g) (bufs : Buffers g) (downs : ℕ → ℕ → g.Float)
      (out : ℕ → ℕ → g.Block) (some_rank : 1 ≤ q.k) where
    -- For a call with a rank, expert ids in range, and a configuration whose strides and type
    -- blocks fill the rows, whatever the buffers held and in whatever order and on whatever nodes
    -- the tasks of the jobs run as the dispatch allows: forward_many_m leaves in each block of each
    -- token's output the conversion of the weighted sum, over the token's experts in order, of
    -- their outputs, which are computed from the matrices as the constructor was given them.
    pub forward_many_m-expected :
        (token b : ℕ)
        → token < q.qlen
        → b < m.hidden_size / g.blck_size m.hidden_type
        → forward_many_m g m q d rows ordered bufs downs out token b ≡ expected g m q w token b
    forward_many_m-expected token b lt lb =
        let (i, r, e) =
          in_block blocks (m.stride / g.blck_size m.hidden_type) b
            (some_blocks m.stride (g.blck_size m.hidden_type) lay.some_stride lay.hidden_blocks)
            (stride_blocks blocks m.stride (g.blck_size m.hidden_type) m.hidden_size b
              lay.hidden_blocks lay.hidden_whole lay.out_blocks (g.blck_size_pos m.hidden_type)
              lb) in
        let ith = b / (m.stride / g.blck_size m.hidden_type) in
        let (t, below, pe, pi) = at_covers lay.some_node d 5 q.qlen blocks token ith lt i in
        subst
          (λ y.
            forward_many_m g m q d rows ordered bufs downs out token y ≡ expected g m q w token y)
          (ap (λ y. y + b % (m.stride / g.blck_size m.hidden_type))
              (stride_block ith m.stride (g.blck_size m.hidden_type) (g.blck_size_pos m.hidden_type)
                lay.hidden_blocks)
            ∙ e)
          (run_all-turn (Waiting g m q w lay d token ith) (Written g m q w lay d token ith)
            (λ u. reduce g m q (node_of u) u) (blocks * q.qlen) t
            (λ u lu ne s k. task_Waiting token ith t below pe pi u lu ne s k)
            (λ s k. task_Written token ith t below pe pi some_rank s k)
            (λ u lu ne s k. task_stays token ith t below pe pi u lu ne s k)
            (d.order 5 q.qlen blocks) (d.order-Once 5 q.qlen blocks) below
            (record { down_output = outs; output = out }) (waiting ith i)
            (b % (m.stride / g.blck_size m.hidden_type)) r)
      where
        inputs : Inputs g
        inputs = run_job d 0 1 q.qlen (λ _. convert_input g m q) rows

        gathered : Inputs g
        gathered = run_job d 1 1 (assignments g m q) (λ _. gather g m q inputs) ordered

        acts : Buffers g
        acts = run_job d 2 m.expert_num (nth g m q w lay d) (gate_up g m q gathered) bufs

        ready : Buffers g
        ready =
            if m.stride % blk g m q w lay d == 0
            then acts
            else run_job d 3 1 m.expert_num (λ _. convert_rows g m q) acts

        outs : ℕ → ℕ → g.Float
        outs = run_job d 4 m.expert_num blocks (down g m q ready) downs

        waiting :
            (ith : ℕ)
            → ith < blocks
            → Waiting g m q w lay d token ith (record { down_output = outs; output = out })
        waiting ith li a c la lc =
            let here = row-lt q.qlen q.k token a lt la in
            outs_done g m q w lay d ready downs (token * q.k + a) (ith * m.stride + c) here
              (omega (arith, lay.hidden_whole, row-lt blocks m.stride ith c li lc))
              (prepared g m q w lay d gathered bufs (token * q.k + a) here
                (gathered-Row g m q w d rows ordered (token * q.k + a) here))
