-- ===== src/Mlp/Result.antt =====
-- MLP computes what it is to compute.
use xiaotu_moe.Base.{sym, subst, ℕ, ◌/◌, ◌<◌, ◌≡◌}
use xiaotu_moe.Layers.Jobs.{Dispatch}
use xiaotu_moe.Moe.Kernels.{Ggml}
use xiaotu_moe.Linear.Forward.{Written, load_blocks}
use xiaotu_moe.Linear.Loaded.{load_blocks-HoldsRows}
use xiaotu_moe.Linear.Products.{run_products-done}
use xiaotu_moe.Mlp.Forward.{
  Mlp, Buffers, forward_many, convert_input, down_inputs, down_layer, down_vec,
}
use xiaotu_moe.Mlp.Expected.{Matrices, Shape, expected, act_row}
use xiaotu_moe.Mlp.Acts.{down_inputs-done}

-- MLP::MLP, where m holds the configuration and what the nodes' memory held before.
abbrev pub construct : (g : Ggml) → Mlp g → Matrices g → Mlp g
construct g m w = record m {
  gate_numa =
      load_blocks m.numa_nodes m.stride (m.intermediate_size / m.stride) w.gate_proj m.gate_numa;
  up_numa = load_blocks m.numa_nodes m.stride (m.intermediate_size / m.stride) w.up_proj m.up_numa;
  down_numa = load_blocks m.numa_nodes m.stride (m.hidden_size / m.stride) w.down_proj m.down_numa;
}

construct-Shape : (g : Ggml) (m : Mlp g) (w : Matrices g) → Shape g m → Shape g (construct g m w)
construct-Shape g m w sh = record {
  some_node = sh.some_node;
  some_stride = sh.some_stride;
  acts_whole = sh.acts_whole;
  hidden_whole = sh.hidden_whole;
  gate_whole = sh.gate_whole;
  up_whole = sh.up_whole;
  down_whole = sh.down_whole;
  out_whole = sh.out_whole;
}

-- On the matrices that the constructor has copied to the nodes, when strides and type blocks fill
-- the rows: whatever the buffers held, and in whatever order and on whatever nodes the tasks of the
-- two jobs run, within what Backend_NUMA allows, MLP::forward_many leaves in each block of each
-- token's output the conversion of the down projection of the token's activations, which are the
-- gated products of the token's input with the gate and the up projection, whichever of the types
-- coincide and whether or not a stride is made of whole blocks of them.
pub forward_many-down_row :
    (g : Ggml) (m : Mlp g) (w : Matrices g) (qlen : ℕ) (input : ℕ → g.Block)
    → Shape g m
    → (d : Dispatch m.numa_nodes) (s : Buffers g) (out : Written g) (i b : ℕ) → i < qlen
    → b < m.hidden_size / g.blck_size m.hidden_type
    → (forward_many g (construct g m w) qlen input d s out).output i b ≡ expected g m w input i b
forward_many-down_row g m w qlen input sh d s out i b li lb =
    run_products-done g (down_layer g made) qlen
      (down_inputs g made qlen (convert_input g made input) d s)
      (λ j. g.from_float (down_vec g m) (act_row g m w input j)) w.down_proj
      (record {
        some_node = sh.some_node;
        some_stride = sh.some_stride;
        strides_whole = sh.hidden_whole;
        in_blocks = sh.down_whole;
        out_blocks = sh.out_whole;
      })
      (load_blocks-HoldsRows m.numa_nodes m.stride (m.hidden_size / m.stride) w.down_proj
        m.down_numa sh.some_node)
      (λ j x lj lx.
        down_inputs-done g made w (construct-Shape g m w sh) qlen input
          (load_blocks-HoldsRows m.numa_nodes m.stride (m.intermediate_size / m.stride) w.gate_proj
            m.gate_numa sh.some_node)
          (load_blocks-HoldsRows m.numa_nodes m.stride (m.intermediate_size / m.stride) w.up_proj
            m.up_numa sh.some_node)
          d s j x lj
          (subst (λ y. x < m.intermediate_size / y) (sym (g.blck_size-vec_dot_type m.down_type))
            lx))
      8 d out i b li lb
  where
    made : Mlp g
    made = construct g m w
