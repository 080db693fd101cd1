-- ===== src/Mlp/Expected.antt =====
-- What MLP::forward_many (mlp.cpp, lines 143-227) is to compute.
use xiaotu_moe.Base.{ℕ, ◌*◌, ◌/◌, ◌≤◌, ◌≡◌}
use xiaotu_moe.Moe.Kernels.{Ggml}
use xiaotu_moe.Linear.Shift.{in_type}
use xiaotu_moe.Mlp.Forward.{Mlp, act_fn, gate_vec, up_vec, down_vec, gate_blocks, up_blocks}

-- The matrices that the constructor is given, by rows.
pub record Matrices (g : Ggml) : Type 0 where
  pub gate_proj : ℕ → ℕ → g.Block
  pub up_proj : ℕ → ℕ → g.Block
  pub down_proj : ℕ → ℕ → g.Block

module _ (g : Ggml) (m : Mlp g) (w : Matrices g) (input : ℕ → g.Block) where
  -- Row i of the input, of n blocks in type t.
  abbrev pub as_type : (t : g.DataType) → (n : ℕ) → ℕ → ℕ → g.Block
  as_type t n = in_type g m.hidden_type t n m.hidden_size input

  abbrev pub gate_row : ℕ → ℕ → g.Float
  gate_row i c =
      g.dot m.gate_type (gate_vec g m) (gate_blocks g m) (w.gate_proj c)
        (as_type (gate_vec g m) (gate_blocks g m) i)

  abbrev pub up_row : ℕ → ℕ → g.Float
  up_row i c =
      g.dot m.up_type (up_vec g m) (up_blocks g m) (w.up_proj c)
        (as_type (up_vec g m) (up_blocks g m) i)

  abbrev pub act_row : ℕ → ℕ → g.Float
  act_row i c = g.mul (act_fn g (gate_row i c)) (up_row i c)

  abbrev pub down_row : ℕ → ℕ → g.Float
  down_row i c =
      g.dot m.down_type (down_vec g m) (m.intermediate_size / g.blck_size m.down_type)
        (w.down_proj c) (g.from_float (down_vec g m) (act_row i))

  -- The output of token i.
  abbrev pub expected : ℕ → ℕ → g.Block
  expected i = g.from_float m.hidden_type (down_row i)

-- The numbers fit: strides and type blocks fill the rows.
pub record Shape (g : Ggml) (m : Mlp g) : Type 0 where
  pub some_node : 1 ≤ m.numa_nodes
  pub some_stride : 1 ≤ m.stride
  pub acts_whole : m.intermediate_size / m.stride * m.stride ≡ m.intermediate_size
  pub hidden_whole : m.hidden_size / m.stride * m.stride ≡ m.hidden_size
  pub gate_whole : m.hidden_size / g.blck_size m.gate_type * g.blck_size m.gate_type ≡ m.hidden_size
  pub up_whole : m.hidden_size / g.blck_size m.up_type * g.blck_size m.up_type ≡ m.hidden_size
  pub down_whole :
      m.intermediate_size / g.blck_size m.down_type * g.blck_size m.down_type ≡ m.intermediate_size
  pub out_whole :
      m.hidden_size / g.blck_size m.hidden_type * g.blck_size m.hidden_type ≡ m.hidden_size
