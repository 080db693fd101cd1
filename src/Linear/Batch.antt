-- ===== src/Linear/Batch.antt =====
-- Linear::forward (linear.cpp, lines 117-124), and MLP::forward, which is the same recursion. What
-- the buffers hold before each call of forward_many is arbitrary, as is how the tasks of its job
-- run. Lengths are not negative.
use xiaotu_moe.Base.{
  ℕ, zero, suc, ◌+◌, ◌-◌, ◌*◌, ◌/◌, ◌==◌, min, ltb, if◌then◌else◌, Option, none, some,
}
use xiaotu_moe.Layers.Jobs.{Dispatch}
use xiaotu_moe.Moe.Kernels.{Ggml}
use xiaotu_moe.Linear.Forward.{Linear, forward_many}

-- Before the call on the tokens from a position on.
pub record Setting (g : Ggml) (m : Linear g) : Type 0 where
  pub proj_output : ℕ → ℕ → g.Float
  pub dispatch : Dispatch m.numa_nodes

-- The first `len` rows, and those of the rest behind them.
abbrev pub with_rest {ℓ} : {A : Type ℓ} → ℕ → (ℕ → A) → Option (ℕ → A) → Option (ℕ → A)
with_rest len rows none = none
with_rest len rows (some rest) = some (λ i. if ltb i len then rows i else rest (i - len))

-- The recursion on fuel, on rows of `in_blocks` blocks; none when the fuel runs out. The call is that
-- of forward_many on the first `len` of the rows that are left, from row pos of the batch on.
module _ {A B : Type 0} (group_max_len in_blocks : ℕ)
    (call : (pos len : ℕ) → (ℕ → A) → (ℕ → ℕ → B) → ℕ → ℕ → B) where
  abbrev pub in_groups :
      (fuel pos qlen : ℕ) → (input : ℕ → A) → (output : ℕ → ℕ → B) → Option (ℕ → ℕ → B)
  in_groups zero pos qlen input output = if qlen == 0 then some output else none
  in_groups (suc fuel) pos qlen input output =
      let forward_len = min qlen group_max_len in
      let done = call pos forward_len input output in
      let rest =
        in_groups fuel (pos + forward_len) (qlen - forward_len)
          (λ a. input (forward_len * in_blocks + a)) (λ i. done (forward_len + i)) in
      if qlen == 0 then some output else with_rest forward_len done rest

module _ (g : Ggml) (m : Linear g) (group_max_len : ℕ) (at : ℕ → Setting g m) where
  abbrev pub forward :
      (fuel pos qlen : ℕ)
      → (input : ℕ → g.Block) → (output : ℕ → ℕ → g.Block) → Option (ℕ → ℕ → g.Block)
  forward =
      in_groups group_max_len (m.input_size / g.blck_size m.hidden_type) (λ pos len input output.
        (forward_many g m len input (at pos).dispatch
          (record { proj_output = (at pos).proj_output; output = output })).output)
