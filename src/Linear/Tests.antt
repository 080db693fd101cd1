-- ===== src/Linear/Tests.antt =====
-- Concrete instances.
use xiaotu_moe.Base.{refl, arith, ℕ, ◌+◌, ◌≡◌}
use xiaotu_moe.Linear.Result.{forward_many-output_row, construct}
use xiaotu_moe.Moe.Tests.{numbers}
use xiaotu_moe.Layers.Serial.{in_order}
use xiaotu_moe.Linear.Forward.{Linear, Written, forward_many}
use xiaotu_moe.Linear.Batch.{Setting, forward}
use xiaotu_moe.Linear.BatchResult.{Computes, forward-Computes}
use xiaotu_moe.Linear.Expected.{Shape, output_row}

-- Four outputs of three inputs, in blocks of two rows on two nodes.
abbrev small : Linear numbers
small = record {
  input_size = 3;
  output_size = 4;
  stride = 2;
  numa_nodes = 2;
  proj_type = 2;
  hidden_type = 0;
  proj_numa = λ _ _ _ _. 0;
}

small-Shape : Shape numbers small
small-Shape = record {
  some_node = omega arith;
  some_stride = omega arith;
  strides_whole = refl;
  in_blocks = refl;
  out_blocks = refl;
}

abbrev nothing_written : Written numbers
nothing_written = record { proj_output = λ _ _. 0; output = λ _ _. 0 }

abbrev any_setting : ℕ → Setting numbers (construct numbers small (λ r i. r + i))
any_setting _ = record { proj_output = λ _ _. 9; dispatch = in_order 2 (omega arith) }

forward-Computes_example :
    Computes numbers small
      (λ r i. r + i)
      small-Shape
      refl
      3
      (λ a. a + 1)
      (forward numbers
        (construct numbers small (λ r i. r + i))
        2
        any_setting
        5
        0
        3
        (λ a. a + 1)
        (λ _ _. 0))
forward-Computes_example =
    forward-Computes numbers small (λ r i. r + i) small-Shape refl 2 any_setting 5 0 3 (λ a. a + 1)
      (λ _ _. 0) (omega arith) (omega arith)

forward_many-output_row_example :
    (forward_many numbers
        (construct numbers small (λ r i. r + i))
        2
        (λ a. a + 1)
        (in_order 2 (omega arith))
        nothing_written).output
      1 3
    ≡ output_row numbers small 2 (λ a. a + 1) (λ r i. r + i) 1 3
forward_many-output_row_example =
    forward_many-output_row numbers small 2 (λ a. a + 1) (λ r i. r + i) small-Shape
      (in_order 2 (omega arith)) nothing_written 1 3 (omega arith) (omega arith)
