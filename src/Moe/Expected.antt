-- ===== src/Moe/Expected.antt =====
-- What forward_many_m is to compute, on the matrices as they were given: for each token the
-- weighted sum of its experts' outputs, in order.
use xiaotu_moe.Base.{ℕ, ◌+◌, ◌-◌, ◌*◌, ◌/◌, if◌then◌else◌, loop}
use xiaotu_moe.Moe.Kernels.{Ggml}
use xiaotu_moe.Moe.Forward.{Moe, Args, gate_vec, up_vec, down_vec, act_fn}

-- The rows of the three matrices, by expert and row.
pub record Matrices (g : Ggml) : Type 0 where
  pub gate_proj : ℕ → ℕ → g.Block
  pub up_proj : ℕ → ℕ → g.Block
  pub down_proj : ℕ → ℕ → g.Block

module _ (g : Ggml) (m : Moe g) (q : Args g) (w : Matrices g) where
  -- A token's input in a type.
  abbrev pub as_type : g.DataType → ℕ → ℕ → g.Block
  as_type t token =
      if g.same m.hidden_type t
      then q.input token
      else g.from_float t (g.to_float m.hidden_type (q.input token))

  -- The activations of assignment a.
  abbrev pub act_row : ℕ → ℕ → g.Float
  act_row a c =
      act_fn g m q
        (g.dot m.up_type (up_vec g m q) (m.hidden_size / g.blck_size m.up_type)
          (w.up_proj (q.ids a * m.intermediate_size + c)) (as_type (up_vec g m q) (a / q.k)))
        (g.dot m.gate_type (gate_vec g m q) (m.hidden_size / g.blck_size m.gate_type)
          (w.gate_proj (q.ids a * m.intermediate_size + c)) (as_type (gate_vec g m q) (a / q.k)))

  -- The output of the expert of assignment a.
  abbrev pub expert_row : ℕ → ℕ → g.Float
  expert_row a c =
      g.dot m.down_type (down_vec g m q) (m.intermediate_size / g.blck_size (down_vec g m q))
        (w.down_proj (q.ids a * m.hidden_size + c)) (g.from_float (down_vec g m q) (act_row a))

  -- A token's output, before and after its conversion.
  abbrev pub token_sum : ℕ → ℕ → g.Float
  token_sum token c =
      loop (q.k - 1)
        (λ r acc.
          g.add acc
            (g.mul (expert_row (token * q.k + (r + 1)) c) (q.weights (token * q.k + (r + 1)))))
        (g.mul (expert_row (token * q.k + 0) c) (q.weights (token * q.k + 0)))

  abbrev pub expected : ℕ → ℕ → g.Block
  expected token = g.from_float m.hidden_type (token_sum token)
