-- ===== src/Moe/OneActs.antt =====
-- The activations of forward_one, in the row of each rank.
use xiaotu_moe.Base.{
  refl, sym, ap, ◌∙◌, subst, arith, ℕ, ◌+◌, ◌*◌, ◌%◌, ◌≤◌, ◌<◌, ◌≡◌, ℕ_discrete, inl, inr, ◌==◌,
  ◌&&◌, ◌≢◌, if◌then◌else◌, if-both, run_all-turn, run_all-settles, ◌⊎◌,
}
use xiaotu_moe.Layers.Blocks.{Place, NumaBlock}
use xiaotu_moe.Layers.Jobs.{Dispatch, run_job, at, home, at_bounds, at_injective, at_covers}
use xiaotu_moe.Moe.Kernels.{Ggml}
use xiaotu_moe.Moe.Forward.{Moe, Args, Buffers, gate_vec, up_vec, gate_up_block}
use xiaotu_moe.Moe.One.{one_inputs, one_gate_up, one_convert}
use xiaotu_moe.Moe.Expected.{Matrices}
use xiaotu_moe.Moe.Held.{Layout, held_for}
use xiaotu_moe.Moe.Inputs.{Row, as_type-same, as_type-gate, left_true, right_true, both_ways}
use xiaotu_moe.Moe.Acts.{Acted, Weighs, block_Acted, block_other, nth, blk}
use xiaotu_moe.Moe.Rows.{Ready, Whole, Acted-Ready, Acted-Whole, converted-Ready, converted_out}
use native.Mathlib.Nat.{div-eq_of_lt}

abbrev pub own : ℕ → ℕ
own a = a

module _ (g : Ggml) (m : Moe g) (q : Args g) (w : Matrices g) (lay : Layout g m q w)
    (d : Dispatch m.numa_nodes) (one_token : q.qlen ≡ 1) where
  pub id_lt : (a : ℕ) → a < q.k → q.ids a < m.expert_num
  id_lt a l = lay.ids_lt a (omega (arith, l, ap (λ x. x * q.k) one_token))

  one_inputs-Row : (r : ℕ) → Row g m q w r 0 (one_inputs g m q)
  one_inputs-Row r =
      if-both (Row g m q w r 0)
        (g.same m.hidden_type (gate_vec g m q) && g.same m.hidden_type (up_vec g m q)) _ _
        (λ e. record {
          in_gate = as_type-same g m q w 0 (gate_vec g m q) (left_true _ _ e);
          in_up = λ _. as_type-same g m q w 0 (up_vec g m q) (right_true _ _ e);
        })
        (λ e.
          if-both (Row g m q w r 0) (g.same (gate_vec g m q) (up_vec g m q)) _ _
            (λ f. record {
              in_gate = as_type-gate g m q w 0 e f;
              in_up = λ f'. absurd (both_ways (g.same (gate_vec g m q) (up_vec g m q)) f f');
            })
            (λ f. record { in_gate = refl; in_up = λ _. refl }))

  abbrev acts_at : ℕ → Place
  acts_at = at lay.some_node d 2 q.k (nth g m q w lay d)

  abbrev acts_home : ℕ → NumaBlock
  acts_home = home lay.some_node d 2 q.k (nth g m q w lay d)

  abbrev acts_node : ℕ → ℕ
  acts_node = d.node 2 q.k (nth g m q w lay d)

  abbrev tasks : ℕ
  tasks = nth g m q w lay d * q.k

  abbrev acts_block : ℕ → Buffers g → Buffers g
  acts_block t =
      gate_up_block g m q (one_inputs g m q) (acts_node t)
        (q.ids (acts_at t).expert * (acts_home t).num_blocks + (acts_at t).offset)
        (acts_at t).expert 1 ((acts_at t).ith * m.stride)

  module _ (a ith t : ℕ) (la : a < q.k) (lt : t < tasks) (pe : (acts_at t).expert ≡ a)
      (pi : (acts_at t).ith ≡ ith) where
    one_Weighs :
        Weighs g m q w lay d own a ith
          (acts_node t)
          (q.ids (acts_at t).expert * (acts_home t).num_blocks + (acts_at t).offset)
    one_Weighs i l = (
      ap
            (λ x.
              m.gate_numa (acts_node t) (q.ids x * (acts_home t).num_blocks + (acts_at t).offset) i)
            pe
          ∙ held_for lay.some_node d 2 q.k m.expert_num m.stride (nth g m q w lay d)
              m.intermediate_size m.gate_numa w.gate_proj lay.gate_held lay.acts_whole t (q.ids a)
              ith i lt (id_lt a la) pi,
      ap (λ x. m.up_numa (acts_node t) (q.ids x * (acts_home t).num_blocks + (acts_at t).offset) i)
            pe
          ∙ held_for lay.some_node d 2 q.k m.expert_num m.stride (nth g m q w lay d)
              m.intermediate_size m.up_numa w.up_proj lay.up_held lay.acts_whole t (q.ids a) ith i
              lt (id_lt a la) pi,
    )

    one_Acted :
        (s : Buffers g) → Acted g m q w lay d own a ith (one_gate_up g m q (acts_node t) t s)
    one_Acted s =
        if-both (Acted g m q w lay d own a ith) ((acts_home t).num_blocks == 0) s (acts_block t s)
          (λ z. absurd (
            let b = (at_bounds lay.some_node d 2 q.k (nth g m q w lay d) t lt).1 in
            ground (arith, b)))
          (λ _.
            subst
              (λ y. Acted g m q w lay d own a ith (
                gate_up_block g m q (one_inputs g m q) (acts_node t)
                  (q.ids (acts_at t).expert * (acts_home t).num_blocks + (acts_at t).offset)
                  (acts_at t).expert 1 (y * m.stride) s))
              (sym pi)
              (block_Acted g m q w lay d own (one_inputs g m q) a ith (acts_node t) _
                (acts_at t).expert 1
                (subst (λ y. Row g m q w a y (one_inputs g m q)) (sym (div-eq_of_lt la))
                  (one_inputs-Row a))
                (omega arith) (omega arith) one_Weighs s))

    one_other :
        (u : ℕ)
        → u < tasks
        → u ≢ t
        → (s : Buffers g) → Acted g m q w lay d own a ith s
        → Acted g m q w lay d own a ith (one_gate_up g m q (acts_node u) u s)
    one_other u lu ne s h =
        if-both (Acted g m q w lay d own a ith) ((acts_home u).num_blocks == 0) s (acts_block u s)
          (λ _. h)
          (λ _.
            block_other g m q w lay d own (one_inputs g m q) a ith (acts_node u) _
              (acts_at u).expert 1 (acts_at u).ith s away h)
      where
        away : ¬ (((acts_at u).expert ≤ a) × (a < (acts_at u).expert + 1)) ⊎ ((acts_at u).ith ≢ ith)
        away = elim (ℕ_discrete (acts_at u).expert a) [
          | yes e ↦ inr (λ i. ne (
              at_injective lay.some_node d 2 q.k (nth g m q w lay d) u t lu lt (e ∙ sym pe)
                (i ∙ sym pi)))
          | no n ↦ inl (λ (lo, hi). n (omega arith))
        ]

  -- Before the down projection the activations of each rank are ready.
  pub one_Ready :
      (bufs : Buffers g) (a : ℕ)
      → a < q.k
      → Ready g m q w lay d own a (
          if m.stride % blk g m q w lay d == 0
          then run_job d 2 q.k (nth g m q w lay d) (one_gate_up g m q) bufs
          else run_job d 3 1 q.k
              (λ _. one_convert g m q)
              (run_job d 2 q.k (nth g m q w lay d) (one_gate_up g m q) bufs))
  one_Ready bufs a la =
      if-both (Ready g m q w lay d own a) (m.stride % blk g m q w lay d == 0) acts
        (run_job d 3 1 q.k (λ _. one_convert g m q) acts)
        (λ z. Acted-Ready g m q w lay d own a acts acted (ground (arith, z)))
        (λ _.
          run_all-turn (Whole g m q w lay d own a) (Ready g m q w lay d own a) (one_convert g m q)
            (q.k * 1) a (λ e l n s k. k)
            (λ s k. converted-Ready g m q w lay d own a a 1 s (omega arith) (omega arith) k)
            (λ e l n s k. converted_out g m q w lay d own a e 1 s (λ (lo, hi). n (omega arith)) k)
            (d.order 3 1 q.k) (d.order-Once 3 1 q.k) (omega arith) acts
            (Acted-Whole g m q w lay d own a acts acted))
    where
      acts : Buffers g
      acts = run_job d 2 q.k (nth g m q w lay d) (one_gate_up g m q) bufs

      acted : (ith : ℕ) → ith < nth g m q w lay d → Acted g m q w lay d own a ith acts
      acted ith l =
          let (t, lt, pe, pi) = at_covers lay.some_node d 2 q.k (nth g m q w lay d) a ith la l in
          run_all-settles (Acted g m q w lay d own a ith) (λ u. one_gate_up g m q (acts_node u) u)
            tasks t (one_Acted a ith t la lt pe pi)
            (λ u lu ne s k. one_other a ith t la lt pe pi u lu ne s k)
            (d.order 2 q.k (nth g m q w lay d)) (d.order-Once 2 q.k (nth g m q w lay d)) lt bufs
