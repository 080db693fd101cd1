-- ===== src/Linear/BatchResult.antt =====
-- Linear::forward computes the products for every token of a batch.
use xiaotu_moe.Base.{sym, ap, ℕ, ◌+◌, ◌*◌, ◌/◌, ◌≤◌, ◌≡◌, fun_ext, Option}
use xiaotu_moe.Moe.Kernels.{Ggml}
use xiaotu_moe.Linear.Forward.{Linear, vec_type, row_blocks}
use xiaotu_moe.Linear.Expected.{Shape, input_row, output_row}
use xiaotu_moe.Linear.Result.{construct, forward_many-output_row}
use xiaotu_moe.Linear.Groups.{Rows, in_groups-Rows}
use xiaotu_moe.Linear.Shift.{in_type-shifted}
use xiaotu_moe.Linear.Batch.{Setting, forward}

module _ (g : Ggml) (m : Linear g) (proj : ℕ → ℕ → g.Block) (sh : Shape g m)
    (in_whole : m.input_size / g.blck_size m.hidden_type * g.blck_size m.hidden_type
      ≡ m.input_size) where
  abbrev shifted : ℕ → (ℕ → g.Block) → ℕ → g.Block
  shifted len input a = input (len * (m.input_size / g.blck_size m.hidden_type) + a)

  input_row-shifted :
      (n len i b : ℕ) (input : ℕ → g.Block)
      → input_row g m n (shifted len input) proj i b ≡ input_row g m n input proj (len + i) b
  input_row-shifted n len i b input =
      in_type-shifted g m.hidden_type (vec_type g m) (row_blocks g m) m.input_size input
        (ap (λ x. m.input_size / x) (sym (g.blck_size-vec_dot_type m.proj_type))) in_whole len i b

  output_row-shifted :
      (n len i b : ℕ) (input : ℕ → g.Block)
      → output_row g m n (shifted len input) proj i b ≡ output_row g m n input proj (len + i) b
  output_row-shifted n len i b input =
      ap
        (λ (r : ℕ → g.Block).
          g.from_float m.hidden_type
            (λ c. g.dot m.proj_type (vec_type g m) (row_blocks g m) (proj c) r) b)
        (fun_ext (λ y. input_row-shifted n len i y input))

  abbrev pub Computes : (n : ℕ) → (ℕ → g.Block) → Option (ℕ → ℕ → g.Block) → Type 0
  Computes n =
      Rows (m.output_size / g.blck_size m.hidden_type) (λ input. output_row g m n input proj) n

  -- On the matrix that the constructor has copied to the nodes, when strides and type blocks fill
  -- the rows, for every group_max_len of at least 1: Linear::forward ends, at a depth of at most
  -- qlen, and whatever its calls of forward_many find in the buffers and however the tasks of their
  -- jobs run, it leaves in the output of each of the qlen tokens the conversion of the products of
  -- the rows of the matrix with the token's input.
  pub forward-Computes :
      (hi : ℕ) (at : ℕ → Setting g (construct g m proj)) (fuel pos qlen : ℕ) (input : ℕ → g.Block)
      (output : ℕ → ℕ → g.Block)
      → 1 ≤ hi
      → qlen ≤ fuel
      → Computes qlen input (forward g (construct g m proj) hi at fuel pos qlen input output)
  forward-Computes hi at fuel pos qlen input output p f =
      in_groups-Rows hi (m.input_size / g.blck_size m.hidden_type)
        (m.output_size / g.blck_size m.hidden_type) _ (λ x. output_row g m qlen x proj)
        (λ len i b x. output_row-shifted qlen len i b x)
        (λ pos' len x out i b li lb.
          forward_many-output_row g m len x proj sh (at pos').dispatch
            (record { proj_output = (at pos').proj_output; output = out }) i b li lb)
        fuel pos qlen input output p f
