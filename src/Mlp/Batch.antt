-- ===== src/Mlp/Batch.antt =====
-- MLP::forward (mlp.cpp, lines 229-236). What the buffers hold before each call of forward_many is
-- arbitrary, as is how the tasks of its jobs run.
use xiaotu_moe.Base.{sym, ap, ◌∙◌, ℕ, ◌+◌, ◌*◌, ◌/◌, ◌≤◌, ◌≡◌, fun_ext, Option}
use xiaotu_moe.Layers.Jobs.{Dispatch}
use xiaotu_moe.Moe.Kernels.{Ggml}
use xiaotu_moe.Linear.Batch.{in_groups}
use xiaotu_moe.Linear.Groups.{Rows, in_groups-Rows}
use xiaotu_moe.Linear.Shift.{in_type-shifted}
use xiaotu_moe.Mlp.Forward.{
  Mlp, Buffers, act_fn, forward_many, gate_vec, up_vec, down_vec, gate_blocks, up_blocks,
}
use xiaotu_moe.Mlp.Expected.{Matrices, Shape, act_row, gate_row, up_row, as_type, expected}
use xiaotu_moe.Mlp.Result.{construct, forward_many-down_row}

-- Before the call on the tokens from a position on.
pub record Setting (g : Ggml) (m : Mlp g) : Type 0 where
  pub bufs : Buffers g
  pub down_output : ℕ → ℕ → g.Float
  pub dispatch : Dispatch m.numa_nodes

module _ (g : Ggml) (m : Mlp g) (group_max_len : ℕ) (at : ℕ → Setting g m) where
  abbrev pub forward :
      (fuel pos qlen : ℕ)
      → (input : ℕ → g.Block) → (output : ℕ → ℕ → g.Block) → Option (ℕ → ℕ → g.Block)
  forward =
      in_groups group_max_len (m.hidden_size / g.blck_size m.hidden_type) (λ pos len input output.
        (forward_many g m len input (at pos).dispatch (at pos).bufs
          (record { proj_output = (at pos).down_output; output = output })).output)

module _ (g : Ggml) (m : Mlp g) (w : Matrices g) (sh : Shape g m) where
  abbrev shifted : ℕ → (ℕ → g.Block) → ℕ → g.Block
  shifted len input a = input (len * (m.hidden_size / g.blck_size m.hidden_type) + a)

  as_type-shifted :
      (len i : ℕ) (input : ℕ → g.Block) (t : g.DataType)
      → as_type g m w (shifted len input) (g.vec_dot_type t) (m.hidden_size / g.blck_size t) i
        ≡ as_type g m w input (g.vec_dot_type t) (m.hidden_size / g.blck_size t) (len + i)
  as_type-shifted len i input t = fun_ext (λ b.
      in_type-shifted g m.hidden_type (g.vec_dot_type t) (m.hidden_size / g.blck_size t)
        m.hidden_size input (ap (λ x. m.hidden_size / x) (sym (g.blck_size-vec_dot_type t)))
        sh.out_whole len i b)

  act_row-shifted :
      (len i c : ℕ) (input : ℕ → g.Block)
      → act_row g m w (shifted len input) i c ≡ act_row g m w input (len + i) c
  act_row-shifted len i c input =
      ap
        (λ x.
          g.mul (act_fn g (g.dot m.gate_type (gate_vec g m) (gate_blocks g m) (w.gate_proj c) x))
            (up_row g m w (shifted len input) i c))
        (as_type-shifted len i input m.gate_type)
      ∙ ap
          (λ x.
            g.mul (act_fn g (gate_row g m w input (len + i) c))
              (g.dot m.up_type (up_vec g m) (up_blocks g m) (w.up_proj c) x))
          (as_type-shifted len i input m.up_type)

  expected-shifted :
      (len i b : ℕ) (input : ℕ → g.Block)
      → expected g m w (shifted len input) i b ≡ expected g m w input (len + i) b
  expected-shifted len i b input =
      ap
        (λ (x : ℕ → g.Float).
          g.from_float m.hidden_type
            (λ c.
              g.dot m.down_type (down_vec g m) (m.intermediate_size / g.blck_size m.down_type)
                (w.down_proj c) (g.from_float (down_vec g m) x))
            b)
        (fun_ext (λ c. act_row-shifted len i c input))

  -- The output of n tokens.
  abbrev pub Computes : (n : ℕ) → (ℕ → g.Block) → Option (ℕ → ℕ → g.Block) → Type 0
  Computes = Rows (m.hidden_size / g.blck_size m.hidden_type) (λ input. expected g m w input)

  -- On the matrices that the constructor has copied to the nodes, when strides and type blocks fill
  -- the rows, for every group_max_len of at least 1: MLP::forward ends, at a depth of at most qlen,
  -- and whatever its calls of forward_many find in the buffers and however the tasks of their jobs
  -- run, it leaves in the output of each of the qlen tokens the conversion of the down projection of
  -- the token's gated products.
  pub forward-Rows :
      (hi : ℕ) (at : ℕ → Setting g (construct g m w)) (fuel pos qlen : ℕ) (input : ℕ → g.Block)
      (output : ℕ → ℕ → g.Block)
      → 1 ≤ hi
      → qlen ≤ fuel
      → Computes qlen input (forward g (construct g m w) hi at fuel pos qlen input output)
  forward-Rows hi at fuel pos qlen input output p f =
      in_groups-Rows hi (m.hidden_size / g.blck_size m.hidden_type)
        (m.hidden_size / g.blck_size m.hidden_type) _ (λ x. expected g m w x)
        (λ len i b x. expected-shifted len i b x)
        (λ pos' len x out i b li lb.
          forward_many-down_row g m w len x sh (at pos').dispatch (at pos').bufs
            (record { proj_output = (at pos').down_output; output = out }) i b li lb)
        fuel pos qlen input output p f
