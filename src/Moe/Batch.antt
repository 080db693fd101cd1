-- ===== src/Moe/Batch.antt =====
-- MOE::forward on a batch (moe.cpp, lines 764-797): its calls, each on the tokens from its position
-- on. What the buffers hold before each call is arbitrary, as is how the tasks of its jobs run.
use xiaotu_moe.Base.{ℕ, ◌+◌, ◌-◌, ◌*◌, ltb, if◌then◌else◌, List, [], ◌∷◌}
use xiaotu_moe.Layers.Batches.{Batch, single, group}
use xiaotu_moe.Layers.Jobs.{Dispatch}
use xiaotu_moe.Moe.Kernels.{Ggml}
use xiaotu_moe.Moe.Forward.{Moe, Args, Inputs, Buffers, forward_many_m}
use xiaotu_moe.Moe.One.{forward_one}

-- Before the call at a position: the buffers, and how the tasks of its jobs run.
pub record Setting (g : Ggml) (m : Moe g) : Type 0 where
  pub rows : Inputs g
  pub ordered : Inputs g
  pub bufs : Buffers g
  pub downs : ℕ → ℕ → g.Float
  pub dispatch : Dispatch m.numa_nodes

module _ (g : Ggml) (m : Moe g) (q : Args g) where
  -- The pointers that a call on `len` tokens from pos on is given.
  abbrev pub args_at : (pos len : ℕ) → Args g
  args_at pos len = record {
    qlen = len;
    k = q.k;
    ids = λ a. q.ids (pos * q.k + a);
    weights = λ a. q.weights (pos * q.k + a);
    input = λ t. q.input (pos + t);
  }

  -- The output from row pos on, given to a call.
  abbrev pub output_at :
      (pos : ℕ) → ((ℕ → ℕ → g.Block) → ℕ → ℕ → g.Block) → (ℕ → ℕ → g.Block) → ℕ → ℕ → g.Block
  output_at pos call out t = if ltb t pos then out t else call (λ i. out (pos + i)) (t - pos)

  module _ (at : ℕ → Setting g m) where
    abbrev pub call_one : ℕ → (ℕ → ℕ → g.Block) → ℕ → ℕ → g.Block
    call_one t =
        output_at t (forward_one g m (args_at t 1) (at t).dispatch (at t).bufs (at t).downs)

    abbrev pub call_many : (pos len : ℕ) → (ℕ → ℕ → g.Block) → ℕ → ℕ → g.Block
    call_many pos len = output_at pos (
        forward_many_m g m (args_at pos len) (at pos).dispatch (at pos).rows (at pos).ordered
          (at pos).bufs (at pos).downs)

    -- The calls in their order.
    abbrev pub run_calls : List Batch → (ℕ → ℕ → g.Block) → ℕ → ℕ → g.Block
    run_calls [] out = out
    run_calls (single token ∷ bs) out = run_calls bs (call_one token out)
    run_calls (group pos len ∷ bs) out = run_calls bs (call_many pos len out)
