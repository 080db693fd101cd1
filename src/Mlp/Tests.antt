-- ===== src/Mlp/Tests.antt =====
-- Concrete instances.
use xiaotu_moe.Base.{refl, arith, ℕ, ◌+◌, ◌*◌, ◌≡◌}
use xiaotu_moe.Moe.Tests.{numbers}
use xiaotu_moe.Layers.Serial.{in_order}
use xiaotu_moe.Linear.Forward.{Written}
use xiaotu_moe.Mlp.Forward.{Mlp, Buffers, forward_many}
use xiaotu_moe.Mlp.Expected.{Matrices, Shape, expected}
use xiaotu_moe.Mlp.Result.{construct, forward_many-down_row}
use xiaotu_moe.Mlp.Batch.{Setting, forward, Computes, forward-Rows}

-- Strides of two on two nodes.
abbrev small : Mlp numbers
small = record {
  hidden_size = 4;
  intermediate_size = 6;
  stride = 2;
  numa_nodes = 2;
  hidden_type = 0;
  gate_type = 2;
  up_type = 2;
  down_type = 2;
  gate_numa = λ _ _ _ _. 0;
  up_numa = λ _ _ _ _. 0;
  down_numa = λ _ _ _ _. 0;
}

small-Shape : Shape numbers small
small-Shape = record {
  some_node = omega arith;
  some_stride = omega arith;
  acts_whole = refl;
  hidden_whole = refl;
  gate_whole = refl;
  up_whole = refl;
  down_whole = refl;
  out_whole = refl;
}

abbrev some_matrices : Matrices numbers
some_matrices = record {
  gate_proj = λ r i. r + i;
  up_proj = λ r i. r * i;
  down_proj = λ r i. r + 2 * i;
}

abbrev no_buffers : Buffers numbers
no_buffers = record {
  gate_output = λ _ _. 0;
  up_output = λ _ _. 0;
  intermediate_fp32 = λ _ _. 0;
  down_input = λ _ _. 0;
}

abbrev nothing_written : Written numbers
nothing_written = record { proj_output = λ _ _. 0; output = λ _ _. 0 }

forward_many-down_row_example :
    (forward_many numbers
        (construct numbers small some_matrices)
        2
        (λ a. a + 1)
        (in_order 2 (omega arith))
        no_buffers
        nothing_written).output
      1 3
    ≡ expected numbers small some_matrices (λ a. a + 1) 1 3
forward_many-down_row_example =
    forward_many-down_row numbers small some_matrices 2 (λ a. a + 1) small-Shape
      (in_order 2 (omega arith)) no_buffers nothing_written 1 3 (omega arith) (omega arith)

abbrev any_setting : ℕ → Setting numbers (construct numbers small some_matrices)
any_setting _ = record {
  bufs = no_buffers;
  down_output = λ _ _. 9;
  dispatch = in_order 2 (omega arith);
}

forward-Rows_example :
    Computes numbers small some_matrices small-Shape 3
      (λ a. a + 1)
      (forward numbers
        (construct numbers small some_matrices)
        2
        any_setting
        5
        0
        3
        (λ a. a + 1)
        (λ _ _. 0))
forward-Rows_example =
    forward-Rows numbers small some_matrices small-Shape 2 any_setting 5 0 3 (λ a. a + 1) (λ _ _. 0)
      (omega arith) (omega arith)
