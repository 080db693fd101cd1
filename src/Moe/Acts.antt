-- ===== src/Moe/Acts.antt =====
-- Job 3 and the job after it: the activations of each assignment, in its slot, as floats and in the
-- type of the down projection.
use native.Mathlib.Nat.{div-add-mod}
use xiaotu_moe.Base.{
  ap, ◌∙◌, arith, ℕ, ◌+◌, ◌*◌, ◌/◌, ◌%◌, ◌≤◌, ◌<◌, ◌≡◌, ◌==◌, ◌≢◌, if◌then◌else◌, if-both, ◌⊎◌,
}
use xiaotu_moe.Moe.Writes.{write_in, sgemm_in, convert_in, write_out, sgemm_out, convert_out}
use xiaotu_moe.Layers.Blocks.{Place}
use xiaotu_moe.Layers.Jobs.{Dispatch, at}
use xiaotu_moe.Moe.Kernels.{Ggml, convert}
use xiaotu_moe.Moe.Reorder.{slot, selection, reorder_offset}
use xiaotu_moe.Moe.Forward.{
  Moe, Args, Inputs, Buffers, down_vec, assignments, gate_up_block, act_fn, up_vec, gate_vec,
  up_block, gate_block, act_block,
}
use xiaotu_moe.Moe.Expected.{Matrices, act_row, as_type}
use xiaotu_moe.Moe.Inputs.{Row, in_either}
use xiaotu_moe.Moe.Held.{Layout}

module _ (g : Ggml) (m : Moe g) (q : Args g) (w : Matrices g) (lay : Layout g m q w)
    (d : Dispatch m.numa_nodes) where
  abbrev pub blk : ℕ
  blk = g.blck_size (down_vec g m q)

  abbrev pub row : ℕ → ℕ
  row a = slot q.ids (assignments g m q) a

  abbrev pub off : ℕ → ℕ
  off e = reorder_offset q.ids (assignments g m q) e

  abbrev pub num : ℕ → ℕ
  num e = (selection q.ids (assignments g m q)).selected e

  abbrev pub nth : ℕ
  nth = m.intermediate_size / m.stride

  abbrev pub at_acts : ℕ → Place
  at_acts = at lay.some_node d 2 m.expert_num nth

  -- The rows of the assignments in the buffers: their slots, or another choice.
  module _ (to : ℕ → ℕ) where
    -- Block ith of the activations of assignment a stands in its row.
    pub record Acted (a ith : ℕ) (s : Buffers g) : Type 0 where
      pub in_up :
          (c : ℕ)
          → c < m.stride
          → s.up_output (to a) (ith * m.stride + c) ≡ act_row g m q w a (ith * m.stride + c)
      pub in_down :
          m.stride % blk ≡ 0
          → (b : ℕ) → b < m.stride / blk
          → s.down_input (to a) (ith * m.stride / blk + b)
            ≡ g.from_float (down_vec g m q) (act_row g m q w a) (ith * m.stride / blk + b)

    -- The weights of one block, from the matrices.
    abbrev pub Weighs : (a ith nid local : ℕ) → Type 0
    Weighs a ith nid local =
        (i : ℕ)
        → i < m.stride
        → (m.gate_numa nid local i
            ≡ w.gate_proj (q.ids a * m.intermediate_size + (ith * m.stride + i)))
          × (m.up_numa nid local i
              ≡ w.up_proj (q.ids a * m.intermediate_size + (ith * m.stride + i)))

    module _ (x : Inputs g) (a ith nid local o n : ℕ) (h : Row g m q w (to a) (a / q.k) x)
        (lo : o ≤ to a) (hi : to a < o + n) (wt : Weighs a ith nid local) (s : Buffers g) where
      abbrev done : Buffers g
      done = gate_up_block g m q x nid local o n (ith * m.stride) s

      acted_up :
          (i : ℕ)
          → i < m.stride
          → done.up_output (to a) (ith * m.stride + i) ≡ act_row g m q w a (ith * m.stride + i)
      acted_up i l =
          write_in o n (ith * m.stride) m.stride
            (λ j y.
              act_fn g m q (up_block g m q x nid local o n (ith * m.stride) s j y)
                (gate_block g m q x nid local o n (ith * m.stride) s j y))
            (up_block g m q x nid local o n (ith * m.stride) s) (to a) (ith * m.stride + i) lo hi
            (omega arith) (omega arith)
          ∙ ap
              (λ y.
                act_fn g m q y
                  (gate_block g m q x nid local o n (ith * m.stride) s (to a) (ith * m.stride + i)))
              (sgemm_in g m.stride n _ m.up_type (up_vec g m q) (m.up_numa nid local)
                (if g.same (gate_vec g m q) (up_vec g m q) then x.gate_input else x.up_input) o
                (ith * m.stride) s.up_output (to a) i _ (as_type g m q w (up_vec g m q) (a / q.k))
                lo hi l (wt i l).1 (λ y _. ap (λ f. f y) (in_either g m q w (to a) (a / q.k) x h)))
          ∙ ap (act_fn g m q _) (
              sgemm_in g m.stride n _ m.gate_type (gate_vec g m q) (m.gate_numa nid local)
                x.gate_input o (ith * m.stride) s.gate_output (to a) i _
                (as_type g m q w (gate_vec g m q) (a / q.k)) lo hi l (wt i l).0
                (λ y _. ap (λ f. f y) h.in_gate))

      pub block_Acted : Acted a ith done
      block_Acted = record {
        in_up = acted_up;
        in_down = λ e b l.
            if-both
              (λ (y : ℕ → ℕ → g.Block).
                y (to a) (ith * m.stride / blk + b)
                ≡ g.from_float (down_vec g m q) (act_row g m q w a) (ith * m.stride / blk + b))
              (m.stride % blk == 0)
              (convert g (down_vec g m q) o n (ith * m.stride) m.stride (ith * m.stride / blk)
                done.up_output s.down_input)
              s.down_input
              (λ _.
                convert_in g (down_vec g m q) o n ith m.stride done.up_output s.down_input (to a) b
                  (act_row g m q w a) lo hi (omega (arith, e, div-add-mod m.stride blk)) l acted_up)
              (λ f. absurd (ground (arith, e)));
      }

    -- A block of other rows, or another block of columns, leaves it.
    pub block_other :
        (x : Inputs g) (a ith nid local o n ith' : ℕ) (s : Buffers g)
        → (¬ ((o ≤ to a) × (to a < o + n)) ⊎ (ith' ≢ ith))
        → Acted a ith s
        → Acted a ith (gate_up_block g m q x nid local o n (ith' * m.stride) s)
    block_other x a ith nid local o n ith' s away h = record {
      in_up = λ i l.
          write_out o n m.stride ith ith'
            (λ j y.
              act_fn g m q (up_block g m q x nid local o n (ith' * m.stride) s j y)
                (gate_block g m q x nid local o n (ith' * m.stride) s j y))
            (up_block g m q x nid local o n (ith' * m.stride) s) (to a) i away l
          ∙ sgemm_out g m.stride n (m.hidden_size / g.blck_size m.up_type) m.up_type (up_vec g m q)
              (m.up_numa nid local)
              (if g.same (gate_vec g m q) (up_vec g m q) then x.gate_input else x.up_input) o ith
              ith' s.up_output (to a) i away l
          ∙ h.in_up i l;
      in_down = λ e b l.
          if-both
            (λ (y : ℕ → ℕ → g.Block).
              y (to a) (ith * m.stride / blk + b)
              ≡ g.from_float (down_vec g m q) (act_row g m q w a) (ith * m.stride / blk + b))
            (m.stride % blk == 0)
            (convert g (down_vec g m q) o n (ith' * m.stride) m.stride (ith' * m.stride / blk)
              (act_block g m q x nid local o n (ith' * m.stride) s) s.down_input)
            s.down_input
            (λ _.
              convert_out g (down_vec g m q) o n ith ith' m.stride
                (act_block g m q x nid local o n (ith' * m.stride) s) s.down_input (to a) b
                (omega (arith, e, div-add-mod m.stride blk)) away l
              ∙ h.in_down e b l)
            (λ _. h.in_down e b l);
    }
