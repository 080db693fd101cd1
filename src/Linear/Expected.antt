-- ===== src/Linear/Expected.antt =====
-- What Linear::forward_many (linear.cpp, lines 82-115) is to compute.
use xiaotu_moe.Base.{ℕ, ◌*◌, ◌/◌, ◌≤◌, ◌≡◌}
use xiaotu_moe.Moe.Kernels.{Ggml}
use xiaotu_moe.Linear.Shift.{in_type}
use xiaotu_moe.Linear.Forward.{Linear, row_blocks, vec_type}

-- What is to be computed, for a matrix by its rows.
module _ (g : Ggml) (m : Linear g) (qlen : ℕ) (input : ℕ → g.Block) (proj : ℕ → ℕ → g.Block) where
  -- Row i of the input, in the type of the product.
  abbrev pub input_row : ℕ → ℕ → g.Block
  input_row = in_type g m.hidden_type (vec_type g m) (row_blocks g m) m.input_size input

  abbrev pub product : ℕ → ℕ → g.Float
  product i c = g.dot m.proj_type (vec_type g m) (row_blocks g m) (proj c) (input_row i)

  abbrev pub output_row : ℕ → ℕ → g.Block
  output_row i = g.from_float m.hidden_type (product i)

-- The numbers fit: strides and type blocks fill the rows.
pub record Shape (g : Ggml) (m : Linear g) : Type 0 where
  pub some_node : 1 ≤ m.numa_nodes
  pub some_stride : 1 ≤ m.stride
  pub strides_whole : m.output_size / m.stride * m.stride ≡ m.output_size
  pub in_blocks : m.input_size / g.blck_size m.proj_type * g.blck_size m.proj_type ≡ m.input_size
  pub out_blocks :
      m.output_size / g.blck_size m.hidden_type * g.blck_size m.hidden_type ≡ m.output_size
