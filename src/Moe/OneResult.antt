-- ===== src/Moe/OneResult.antt =====
-- forward_one computes what it is to compute.
use xiaotu_moe.Base.{
  sym, ap, ◌∙◌, subst, arith, ℕ, ◌+◌, ◌-◌, ◌*◌, ◌/◌, ◌%◌, ◌≤◌, ◌<◌, ◌≡◌, ℕ_discrete, inl, inr,
  fun_ext, ◌==◌, ◌≢◌, if◌then◌else◌, if-both, run_all-turn, run_all-settles, in_block, ◌⊎◌, loop,
}
use xiaotu_moe.Layers.Blocks.{Place, NumaBlock}
use xiaotu_moe.Layers.Jobs.{Dispatch, run_job, at, home, at_bounds, at_injective, at_covers}
use xiaotu_moe.Moe.Kernels.{Ggml, sgemm}
use xiaotu_moe.Moe.Forward.{Moe, Args, Buffers, Outputs, down_vec, sum_rows}
use xiaotu_moe.Moe.One.{one_gate_up, one_convert, one_down, one_reduce, forward_one}
use xiaotu_moe.Moe.OneActs.{own, id_lt, one_Ready}
use xiaotu_moe.Moe.Expected.{Matrices, act_row, expert_row, token_sum, expected}
use xiaotu_moe.Moe.Held.{Layout, held_for, stride_block}
use xiaotu_moe.Moe.Acts.{nth, blk}
use xiaotu_moe.Moe.Rows.{Ready, stride_blocks, some_blocks}
use xiaotu_moe.Moe.Sums.{sum_rows_done, sum_rows_other}
use xiaotu_moe.Moe.Writes.{sgemm_in, sgemm_out, convert_in, convert_out}

module _ (g : Ggml) (m : Moe g) (q : Args g) (w : Matrices g) (lay : Layout g m q w)
    (d : Dispatch m.numa_nodes) (one_token : q.qlen ≡ 1) where
  abbrev blocks : ℕ
  blocks = m.hidden_size / m.stride

  abbrev down_at : ℕ → Place
  down_at = at lay.some_node d 4 q.k blocks

  abbrev down_home : ℕ → NumaBlock
  down_home = home lay.some_node d 4 q.k blocks

  abbrev down_node : ℕ → ℕ
  down_node = d.node 4 q.k blocks

  abbrev local : ℕ → ℕ
  local t = q.ids (down_at t).expert * (down_home t).num_blocks + (down_at t).offset

  abbrev Projected : (a ith : ℕ) → (ℕ → ℕ → g.Float) → Type 0
  Projected a ith s =
      (c : ℕ) → c < m.stride → s a (ith * m.stride + c) ≡ expert_row g m q w a (ith * m.stride + c)

  abbrev projected : Buffers g → (t c : ℕ) → (ℕ → ℕ → g.Float) → ℕ → ℕ → g.Float
  projected x t c s =
      sgemm g m.stride 1 (m.intermediate_size / g.blck_size m.down_type) m.down_type
        (down_vec g m q) (m.down_numa (down_node t) (local t)) x.down_input (down_at t).expert c s

  module _ (a ith t : ℕ) (la : a < q.k) (lt : t < blocks * q.k) (pe : (down_at t).expert ≡ a)
      (pi : (down_at t).ith ≡ ith) where
    own_block :
        (x : Buffers g)
        → Ready g m q w lay d own a x
        → (s : ℕ → ℕ → g.Float) → Projected a ith (one_down g m q x (down_node t) t s)
    own_block x h s =
        if-both (Projected a ith) ((down_home t).num_blocks == 0) s
          (projected x t ((down_at t).ith * m.stride) s)
          (λ z.
            absurd (let b = (at_bounds lay.some_node d 4 q.k blocks t lt).1 in ground (arith, b)))
          (λ _.
            subst (λ y. Projected a ith (projected x t (y * m.stride) s)) (sym pi)
              (λ c l.
                sgemm_in g m.stride 1 (m.intermediate_size / g.blck_size m.down_type) m.down_type
                  (down_vec g m q) (m.down_numa (down_node t) (local t)) x.down_input
                  (down_at t).expert (ith * m.stride) s a c
                  (w.down_proj (q.ids a * m.hidden_size + (ith * m.stride + c)))
                  (g.from_float (down_vec g m q) (act_row g m q w a)) (omega arith) (omega arith) l
                  (ap
                      (λ y.
                        m.down_numa (down_node t)
                          (q.ids y * (down_home t).num_blocks + (down_at t).offset) c)
                      pe
                    ∙ held_for lay.some_node d 4 q.k m.expert_num m.stride blocks m.hidden_size
                        m.down_numa w.down_proj lay.down_held lay.hidden_whole t (q.ids a) ith c lt
                        (id_lt g m q w lay d one_token a la) pi)
                  (λ b lb. h b (omega (arith, same_size)))
                ∙ ap
                    (λ n.
                      g.dot m.down_type (down_vec g m q) n
                        (w.down_proj (q.ids a * m.hidden_size + (ith * m.stride + c)))
                        (g.from_float (down_vec g m q) (act_row g m q w a)))
                    (sym same_size)))
      where
        same_size :
            m.intermediate_size / g.blck_size (down_vec g m q)
            ≡ m.intermediate_size / g.blck_size m.down_type
        same_size = ap (λ b. m.intermediate_size / b) (g.blck_size-vec_dot_type m.down_type)

    other_block :
        (x : Buffers g) (u : ℕ)
        → u < blocks * q.k
        → u ≢ t
        → (s : ℕ → ℕ → g.Float) → Projected a ith s
        → Projected a ith (one_down g m q x (down_node u) u s)
    other_block x u lu ne s h =
        if-both (Projected a ith) ((down_home u).num_blocks == 0) s
          (projected x u ((down_at u).ith * m.stride) s) (λ _. h)
          (λ _ c l.
            sgemm_out g m.stride 1 (m.intermediate_size / g.blck_size m.down_type) m.down_type
              (down_vec g m q) (m.down_numa (down_node u) (local u)) x.down_input (down_at u).expert
              ith (down_at u).ith s a c away l
            ∙ h c l)
      where
        away : ¬ (((down_at u).expert ≤ a) × (a < (down_at u).expert + 1)) ⊎ ((down_at u).ith ≢ ith)
        away = elim (ℕ_discrete (down_at u).expert a) [
          | yes e ↦ inr (λ i.
              ne (at_injective lay.some_node d 4 q.k blocks u t lu lt (e ∙ sym pe) (i ∙ sym pi)))
          | no n ↦ inl (λ (lo, hi). n (omega arith))
        ]

  one_outs :
      (x : Buffers g) (downs : ℕ → ℕ → g.Float) (a ith : ℕ)
      → a < q.k
      → ith < blocks
      → Ready g m q w lay d own a x
      → Projected a ith (run_job d 4 q.k blocks (one_down g m q x) downs)
  one_outs x downs a ith la li h =
      let (t, lt, pe, pi) = at_covers lay.some_node d 4 q.k blocks a ith la li in
      run_all-settles (Projected a ith) (λ u. one_down g m q x (down_node u) u) (blocks * q.k) t
        (own_block a ith t la lt pe pi x h)
        (λ u lu ne s k. other_block a ith t la lt pe pi x u lu ne s k) (d.order 4 q.k blocks)
        (d.order-Once 4 q.k blocks) lt downs

  abbrev Waits : ℕ → Outputs g → Type 0
  Waits ith s = (i : ℕ) → i < q.k → Projected i ith s.down_output

  abbrev Stands : ℕ → Outputs g → Type 0
  Stands ith s =
      (b : ℕ)
      → b < m.stride / g.blck_size m.hidden_type
      → s.output 0 (ith * m.stride / g.blck_size m.hidden_type + b)
        ≡ expected g m q w 0 (ith * m.stride / g.blck_size m.hidden_type + b)

  rows_apart : (i : ℕ) → 1 ≤ i → i < q.k → own 0 ≢ own i
  rows_apart i p l e = omega (arith, e)

  one_reduce-Stands :
      (ith : ℕ) (s : Outputs g) → 1 ≤ q.k → Waits ith s → Stands ith (one_reduce g m q ith s)
  one_reduce-Stands ith s p h b l =
      convert_in g m.hidden_type 0 1 ith m.stride
        (λ _. sum_rows g m q own q.weights (ith * m.stride) m.stride s.down_output 0) s.output 0 b
        (token_sum g m q w 0) (omega arith) (omega arith) lay.hidden_blocks l
        (λ c lc.
          sum_rows_done g m q own q.weights rows_apart (ith * m.stride) m.stride c s.down_output
            (λ i. expert_row g m q w i (ith * m.stride + c)) p lc (λ i li. h i li c lc)
          ∙ first_token c)
    where
      first_token :
          (c : ℕ)
          → loop
              (q.k - 1)
              (λ r acc.
                g.add acc
                  (g.mul (expert_row g m q w (r + 1) (ith * m.stride + c)) (q.weights (r + 1))))
              (g.mul (expert_row g m q w 0 (ith * m.stride + c)) (q.weights 0))
            ≡ token_sum g m q w 0 (ith * m.stride + c)
      first_token c =
          ap
            (λ (f : ℕ → ℕ).
              loop (q.k - 1)
                (λ r acc. g.add acc (
                  g.mul (expert_row g m q w (f (r + 1)) (ith * m.stride + c))
                    (q.weights (f (r + 1)))))
                (g.mul (expert_row g m q w (f 0) (ith * m.stride + c)) (q.weights (f 0))))
            {x = λ i. i} {y = λ i. 0 * q.k + i} (fun_ext (λ i. omega arith))

  module _ (bufs : Buffers g) (downs : ℕ → ℕ → g.Float) (out : ℕ → ℕ → g.Block)
      (some_rank : 1 ≤ q.k) where
    pub forward_one-expected :
        (b : ℕ)
        → b < m.hidden_size / g.blck_size m.hidden_type
        → forward_one g m q d bufs downs out 0 b ≡ expected g m q w 0 b
    forward_one-expected b lb =
        let (i, r, e) =
          in_block blocks (m.stride / g.blck_size m.hidden_type) b
            (some_blocks m.stride (g.blck_size m.hidden_type) lay.some_stride lay.hidden_blocks)
            (stride_blocks blocks m.stride (g.blck_size m.hidden_type) m.hidden_size b
              lay.hidden_blocks lay.hidden_whole lay.out_blocks (g.blck_size_pos m.hidden_type)
              lb) in
        let ith = b / (m.stride / g.blck_size m.hidden_type) in
        subst (λ y. forward_one g m q d bufs downs out 0 y ≡ expected g m q w 0 y)
          (ap (λ y. y + b % (m.stride / g.blck_size m.hidden_type))
              (stride_block ith m.stride (g.blck_size m.hidden_type) (g.blck_size_pos m.hidden_type)
                lay.hidden_blocks)
            ∙ e)
          (run_all-turn (Waits ith) (Stands ith) (one_reduce g m q) (blocks * 1) ith
            (λ u lu ne s k a la c lc.
              sum_rows_other g m q own q.weights rows_apart ith u m.stride a c s.down_output lc
                (inr ne)
              ∙ k a la c lc)
            (λ s k. one_reduce-Stands ith s some_rank k)
            (λ u lu ne s k y ly.
              convert_out g m.hidden_type 0 1 ith u m.stride
                (λ _. sum_rows g m q own q.weights (u * m.stride) m.stride s.down_output 0) s.output
                0 y lay.hidden_blocks (inr ne) ly
              ∙ k y ly)
            (d.order 5 1 blocks) (d.order-Once 5 1 blocks) (omega (arith, i))
            (record {
              down_output = run_job d 4 q.k blocks (one_down g m q ready) downs;
              output = out;
            })
            (λ a la. one_outs ready downs a ith la i (one_Ready g m q w lay d one_token bufs a la))
            (b % (m.stride / g.blck_size m.hidden_type)) r)
      where
        acts : Buffers g
        acts = run_job d 2 q.k (nth g m q w lay d) (one_gate_up g m q) bufs

        ready : Buffers g
        ready =
            if m.stride % blk g m q w lay d == 0
            then acts
            else run_job d 3 1 q.k (λ _. one_convert g m q) acts
