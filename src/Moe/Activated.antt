-- ===== src/Moe/Activated.antt =====
-- Job 3 over all its tasks, and the job after it.
use xiaotu_moe.Base.{
  sym, ◌∙◌, subst, arith, ℕ, ◌+◌, ◌*◌, ◌/◌, ◌≤◌, ◌<◌, ◌≡◌, ℕ_discrete, inl, inr, ◌==◌, ◌≢◌, if-both,
  run_all-settles, ◌⊎◌,
}
use xiaotu_moe.Layers.Blocks.{Place}
use xiaotu_moe.Layers.Jobs.{Dispatch, run_job, home, at_bounds, at_injective, at_covers}
use xiaotu_moe.Moe.Kernels.{Ggml}
use xiaotu_moe.Moe.Slots.{slot_range, slot_expert}
use xiaotu_moe.Moe.Forward.{Moe, Args, Inputs, Buffers, assignments, gate_up, gate_up_block}
use xiaotu_moe.Moe.Expected.{Matrices}
use xiaotu_moe.Moe.Inputs.{Row}
use xiaotu_moe.Moe.Held.{Layout, held_at}
use xiaotu_moe.Moe.Acts.{Acted, Weighs, block_Acted, block_other, at_acts, nth, off, num, row}

module _ (g : Ggml) (m : Moe g) (q : Args g) (w : Matrices g) (lay : Layout g m q w)
    (d : Dispatch m.numa_nodes) where
  abbrev tasks : ℕ
  tasks = nth g m q w lay d * m.expert_num

  abbrev here : ℕ → Place
  here = at_acts g m q w lay d

  abbrev node_of : ℕ → ℕ
  node_of = d.node 2 m.expert_num (nth g m q w lay d)

  module _ (a ith t : ℕ) (la : a < assignments g m q) (lt : t < tasks)
      (pe : (here t).expert ≡ q.ids a) (pi : (here t).ith ≡ ith) where
    task_Weighs : Weighs g m q w lay d (row g m q w lay d) a ith (node_of t) (
        (here t).expert * (home lay.some_node d 2 m.expert_num (nth g m q w lay d) t).num_blocks
        + (here t).offset)
    task_Weighs i l = (
      held_at lay.some_node d 2 m.expert_num m.stride (nth g m q w lay d) m.intermediate_size
          m.gate_numa w.gate_proj lay.gate_held lay.acts_whole t (q.ids a) ith i lt pe pi,
      held_at lay.some_node d 2 m.expert_num m.stride (nth g m q w lay d) m.intermediate_size
          m.up_numa w.up_proj lay.up_held lay.acts_whole t (q.ids a) ith i lt pe pi,
    )

    task_Acted :
        (x : Inputs g)
        → Row g m q w (row g m q w lay d a) (a / q.k) x
        → (s : Buffers g)
        → Acted g m q w lay d (row g m q w lay d) a ith (gate_up g m q x (node_of t) t s)
    task_Acted x h s =
        if-both (Acted g m q w lay d (row g m q w lay d) a ith)
          ((home lay.some_node d 2 m.expert_num (nth g m q w lay d) t).num_blocks == 0) s _
          (λ z. absurd (
            let b = (at_bounds lay.some_node d 2 m.expert_num (nth g m q w lay d) t lt).1 in
            ground (arith, b)))
          (λ _.
            if-both (Acted g m q w lay d (row g m q w lay d) a ith)
              (num g m q w lay d (here t).expert == 0) s _
              (λ z. absurd (let b = rows in ground (arith, b)))
              (λ _.
                subst
                  (λ y. Acted g m q w lay d (row g m q w lay d) a ith (
                    gate_up_block g m q x (node_of t)
                      ((here t).expert
                          * (home lay.some_node d 2 m.expert_num (nth g m q w lay d) t).num_blocks
                        + (here t).offset)
                      (off g m q w lay d (here t).expert) (num g m q w lay d (here t).expert)
                      (y * m.stride) s))
                  (sym pi)
                  (block_Acted g m q w lay d (row g m q w lay d) x a ith (node_of t) _
                    (off g m q w lay d (here t).expert) (num g m q w lay d (here t).expert) h rows.0
                    rows.1 task_Weighs s)))
      where
        rows :
            (off g m q w lay d (here t).expert ≤ row g m q w lay d a)
            × (row g m q w lay d a
                < off g m q w lay d (here t).expert + num g m q w lay d (here t).expert)
        rows =
            subst
              (λ e.
                (off g m q w lay d e ≤ row g m q w lay d a)
                × (row g m q w lay d a < off g m q w lay d e + num g m q w lay d e))
              (sym pe) (slot_range q.ids (assignments g m q) a la)

    task_other :
        (x : Inputs g) (u : ℕ)
        → u < tasks
        → u ≢ t
        → (s : Buffers g) → Acted g m q w lay d (row g m q w lay d) a ith s
        → Acted g m q w lay d (row g m q w lay d) a ith (gate_up g m q x (node_of u) u s)
    task_other x u lu ne s h =
        if-both (Acted g m q w lay d (row g m q w lay d) a ith)
          ((home lay.some_node d 2 m.expert_num (nth g m q w lay d) u).num_blocks == 0) s _ (λ _. h)
          (λ _.
            if-both (Acted g m q w lay d (row g m q w lay d) a ith)
              (num g m q w lay d (here u).expert == 0) s _ (λ _. h)
              (λ _.
                block_other g m q w lay d (row g m q w lay d) x a ith (node_of u) _
                  (off g m q w lay d (here u).expert) (num g m q w lay d (here u).expert)
                  (here u).ith s away h))
      where
        away :
            ¬ (
              (off g m q w lay d (here u).expert ≤ row g m q w lay d a)
              × (row g m q w lay d a
                  < off g m q w lay d (here u).expert + num g m q w lay d (here u).expert))
            ⊎ ((here u).ith ≢ ith)
        away = elim (ℕ_discrete (here u).expert (q.ids a)) [
          | yes e ↦ inr (λ i. ne (
              at_injective lay.some_node d 2 m.expert_num (nth g m q w lay d) u t lu lt (e ∙ sym pe)
                (i ∙ sym pi)))
          | no n ↦ inl (λ (lo, hi).
              n (sym (slot_expert q.ids (assignments g m q) a (here u).expert la lo hi)))
        ]

  -- After job 3 every block of every assignment's activations stands.
  pub acts-Acted :
      (x : Inputs g) (bufs : Buffers g) (a ith : ℕ)
      → a < assignments g m q
      → ith < nth g m q w lay d
      → Row g m q w (row g m q w lay d a) (a / q.k) x
      → Acted g m q w lay d
          (row g m q w lay d)
          a
          ith
          (run_job d 2 m.expert_num (nth g m q w lay d) (gate_up g m q x) bufs)
  acts-Acted x bufs a ith la li h =
      let (t, lt, pe, pi) =
        at_covers lay.some_node d 2 m.expert_num (nth g m q w lay d) (q.ids a) ith (lay.ids_lt a la)
          li in
      run_all-settles (Acted g m q w lay d (row g m q w lay d) a ith)
        (λ u. gate_up g m q x (node_of u) u) tasks t (task_Acted a ith t la lt pe pi x h)
        (λ u lu ne s k. task_other a ith t la lt pe pi x u lu ne s k)
        (d.order 2 m.expert_num (nth g m q w lay d))
        (d.order-Once 2 m.expert_num (nth g m q w lay d)) lt bufs
