-- ===== src/Moe/Downs.antt =====
-- Job 4: the experts' outputs, in the slots of the assignments.
use xiaotu_moe.Base.{
  sym, ◌∙◌, subst, arith, ℕ, ◌+◌, ◌*◌, ◌/◌, ◌%◌, ◌≤◌, ◌<◌, ◌≡◌, ℕ_discrete, inl, inr, ◌==◌, ◌≢◌,
  if-both, run_all-settles, in_block, ◌⊎◌,
}
use xiaotu_moe.Layers.Blocks.{Place, NumaBlock}
use xiaotu_moe.Layers.Jobs.{Dispatch, run_job, at, home, at_bounds, at_injective, at_covers}
use xiaotu_moe.Moe.Kernels.{Ggml, sgemm}
use xiaotu_moe.Moe.Slots.{slot_range, slot_expert}
use xiaotu_moe.Moe.Forward.{Moe, Args, Buffers, down_vec, assignments, down}
use xiaotu_moe.Moe.Expected.{Matrices, act_row, expert_row}
use xiaotu_moe.Moe.Held.{Layout, held_at}
use xiaotu_moe.Moe.Acts.{off, num, row}
use xiaotu_moe.Moe.Rows.{Ready}
use xiaotu_moe.Moe.Writes.{sgemm_in, sgemm_out}

module _ (g : Ggml) (m : Moe g) (q : Args g) (w : Matrices g) (lay : Layout g m q w)
    (d : Dispatch m.numa_nodes) where
  abbrev pub out_blocks : ℕ
  out_blocks = m.hidden_size / m.stride

  abbrev spot : ℕ → Place
  spot = at lay.some_node d 4 m.expert_num out_blocks

  abbrev spot_home : ℕ → NumaBlock
  spot_home = home lay.some_node d 4 m.expert_num out_blocks

  abbrev node_of : ℕ → ℕ
  node_of = d.node 4 m.expert_num out_blocks

  abbrev local : ℕ → ℕ
  local t = (spot t).expert * (spot_home t).num_blocks + (spot t).offset

  -- Block ith of the output of the expert of assignment a stands in its slot.
  abbrev pub Downed : ℕ → ℕ → (ℕ → ℕ → g.Float) → Type 0
  Downed a ith s =
      (c : ℕ)
      → c < m.stride
      → s (row g m q w lay d a) (ith * m.stride + c) ≡ expert_row g m q w a (ith * m.stride + c)

  abbrev projected : Buffers g → ℕ → ℕ → (ℕ → ℕ → g.Float) → ℕ → ℕ → g.Float
  projected x t c s =
      sgemm g m.stride (num g m q w lay d (spot t).expert)
        (m.intermediate_size / g.blck_size (down_vec g m q)) m.down_type (down_vec g m q)
        (m.down_numa (node_of t) (local t)) x.down_input (off g m q w lay d (spot t).expert) c s

  module _ (a ith t : ℕ) (la : a < assignments g m q) (lt : t < out_blocks * m.expert_num)
      (pe : (spot t).expert ≡ q.ids a) (pi : (spot t).ith ≡ ith) where
    rows :
        (off g m q w lay d (spot t).expert ≤ row g m q w lay d a)
        × (row g m q w lay d a
            < off g m q w lay d (spot t).expert + num g m q w lay d (spot t).expert)
    rows =
        subst
          (λ e.
            (off g m q w lay d e ≤ row g m q w lay d a)
            × (row g m q w lay d a < off g m q w lay d e + num g m q w lay d e))
          (sym pe) (slot_range q.ids (assignments g m q) a la)

    task_Downed :
        (x : Buffers g)
        → Ready g m q w lay d (row g m q w lay d) a x
        → (s : ℕ → ℕ → g.Float) → Downed a ith (down g m q x (node_of t) t s)
    task_Downed x h s =
        if-both (Downed a ith) ((spot_home t).num_blocks == 0) s _
          (λ z. absurd (
            let b = (at_bounds lay.some_node d 4 m.expert_num out_blocks t lt).1 in
            ground (arith, b)))
          (λ _.
            if-both (Downed a ith) (num g m q w lay d (spot t).expert == 0) s
              (projected x t ((spot t).ith * m.stride) s)
              (λ z. absurd (let b = rows in ground (arith, b)))
              (λ _.
                subst (λ y. Downed a ith (projected x t (y * m.stride) s)) (sym pi)
                  (λ c l.
                    sgemm_in g m.stride (num g m q w lay d (spot t).expert)
                      (m.intermediate_size / g.blck_size (down_vec g m q)) m.down_type
                      (down_vec g m q) (m.down_numa (node_of t) (local t)) x.down_input
                      (off g m q w lay d (spot t).expert) (ith * m.stride) s (row g m q w lay d a) c
                      (w.down_proj (q.ids a * m.hidden_size + (ith * m.stride + c)))
                      (g.from_float (down_vec g m q) (act_row g m q w a)) rows.0 rows.1 l
                      (held_at lay.some_node d 4 m.expert_num m.stride out_blocks m.hidden_size
                        m.down_numa w.down_proj lay.down_held lay.hidden_whole t (q.ids a) ith c lt
                        pe pi)
                      h)))

    task_other :
        (x : Buffers g) (u : ℕ)
        → u < out_blocks * m.expert_num
        → u ≢ t
        → (s : ℕ → ℕ → g.Float) → Downed a ith s
        → Downed a ith (down g m q x (node_of u) u s)
    task_other x u lu ne s h =
        if-both (Downed a ith) ((spot_home u).num_blocks == 0) s _ (λ _. h)
          (λ _.
            if-both (Downed a ith) (num g m q w lay d (spot u).expert == 0) s
              (projected x u ((spot u).ith * m.stride) s) (λ _. h)
              (λ _ c l.
                sgemm_out g m.stride (num g m q w lay d (spot u).expert)
                  (m.intermediate_size / g.blck_size (down_vec g m q)) m.down_type (down_vec g m q)
                  (m.down_numa (node_of u) (local u)) x.down_input
                  (off g m q w lay d (spot u).expert) ith (spot u).ith s (row g m q w lay d a) c
                  away l
                ∙ h c l))
      where
        away :
            ¬ (
              (off g m q w lay d (spot u).expert ≤ row g m q w lay d a)
              × (row g m q w lay d a
                  < off g m q w lay d (spot u).expert + num g m q w lay d (spot u).expert))
            ⊎ ((spot u).ith ≢ ith)
        away = elim (ℕ_discrete (spot u).expert (q.ids a)) [
          | yes e ↦ inr (λ i. ne (
              at_injective lay.some_node d 4 m.expert_num out_blocks u t lu lt (e ∙ sym pe)
                (i ∙ sym pi)))
          | no n ↦ inl (λ (lo, hi).
              n (sym (slot_expert q.ids (assignments g m q) a (spot u).expert la lo hi)))
        ]

  -- After job 4 the slot of an assignment holds its expert's output.
  pub outs_done :
      (x : Buffers g) (downs : ℕ → ℕ → g.Float) (a c : ℕ)
      → a < assignments g m q
      → c < m.hidden_size
      → Ready g m q w lay d (row g m q w lay d) a x
      → run_job d 4 m.expert_num out_blocks (down g m q x) downs (row g m q w lay d a) c
        ≡ expert_row g m q w a c
  outs_done x downs a c la lc h =
      let (i, r, e) =
        in_block out_blocks m.stride c lay.some_stride (omega (arith, lay.hidden_whole)) in
      let (t, lt, pe, pi) =
        at_covers lay.some_node d 4 m.expert_num out_blocks (q.ids a) (c / m.stride)
          (lay.ids_lt a la) i in
      subst
        (λ y.
          run_job d 4 m.expert_num out_blocks (down g m q x) downs (row g m q w lay d a) y
          ≡ expert_row g m q w a y)
        e
        (run_all-settles (Downed a (c / m.stride)) (λ u. down g m q x (node_of u) u)
          (out_blocks * m.expert_num) t (task_Downed a (c / m.stride) t la lt pe pi x h)
          (λ u lu ne s k. task_other a (c / m.stride) t la lt pe pi x u lu ne s k)
          (d.order 4 m.expert_num out_blocks) (d.order-Once 4 m.expert_num out_blocks) lt downs
          (c % m.stride) r)
