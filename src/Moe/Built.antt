-- ===== src/Moe/Built.antt =====
-- From the constructor to the output: forward_many_m on the weights that the constructor has
-- copied.
use xiaotu_moe.Base.{
  sym, ◌∙◌, subst, arith, ℕ, ◌*◌, ◌/◌, ◌≤◌, ◌<◌, ◌≡◌, inl, inr, ◌==◌, List, Option, some,
  Option-cases, if-both,
}
use xiaotu_moe.Moe.Batch.{Setting, run_calls}
use xiaotu_moe.Moe.BatchResult.{Computes, rounds-Computes}
use xiaotu_moe.Layers.Batches.{Batch, forward, rounds}
use xiaotu_moe.Layers.Jobs.{Dispatch}
use xiaotu_moe.Moe.Kernels.{Ggml}
use xiaotu_moe.Moe.Forward.{Moe, Args, Inputs, Buffers, assignments, down_vec, forward_many_m}
use xiaotu_moe.Moe.Weights.{load}
use xiaotu_moe.Moe.Loaded.{load_rows}
use xiaotu_moe.Moe.Expected.{Matrices, expected}
use xiaotu_moe.Moe.Held.{Layout}
use xiaotu_moe.Moe.One.{forward_one}
use xiaotu_moe.Moe.OneResult.{forward_one-expected}
use xiaotu_moe.Moe.Result.{forward_many_m-expected}

module _ (g : Ggml) (m : Moe g) (w : Matrices g) where
  -- MOE::MOE, where m holds the configuration and what the nodes' memory held before.
  abbrev pub construct : Dispatch m.numa_nodes → Moe g
  construct d = record m {
    gate_numa =
        load m.numa_nodes m.stride (m.intermediate_size / m.stride) w.gate_proj d 0 m.expert_num
          m.gate_numa;
    up_numa =
        load m.numa_nodes m.stride (m.intermediate_size / m.stride) w.up_proj d 0 m.expert_num
          m.up_numa;
    down_numa =
        load m.numa_nodes m.stride (m.hidden_size / m.stride) w.down_proj d 1 m.expert_num
          m.down_numa;
  }

-- The numbers fit: strides and type blocks fill the rows, and the expert ids are in range.
pub record Shape (g : Ggml) (m : Moe g) (q : Args g) : Type 0 where
  pub some_node : 1 ≤ m.numa_nodes
  pub some_stride : 1 ≤ m.stride
  pub some_rank : 1 ≤ q.k
  pub acts_whole : m.intermediate_size / m.stride * m.stride ≡ m.intermediate_size
  pub hidden_whole : m.hidden_size / m.stride * m.stride ≡ m.hidden_size
  pub down_blocks :
      m.intermediate_size / g.blck_size (down_vec g m q) * g.blck_size (down_vec g m q)
      ≡ m.intermediate_size
  pub hidden_blocks : m.stride / g.blck_size m.hidden_type * g.blck_size m.hidden_type ≡ m.stride
  pub out_blocks :
      m.hidden_size / g.blck_size m.hidden_type * g.blck_size m.hidden_type ≡ m.hidden_size
  pub ids_lt : (a : ℕ) → a < assignments g m q → q.ids a < m.expert_num

module _ (g : Ggml) (m : Moe g) (q : Args g) (w : Matrices g) (sh : Shape g m q)
    (c d : Dispatch m.numa_nodes) where
  construct-Layout : Layout g (construct g m w c) q w
  construct-Layout = record {
    some_node = sh.some_node;
    some_stride = sh.some_stride;
    acts_whole = sh.acts_whole;
    hidden_whole = sh.hidden_whole;
    down_blocks = sh.down_blocks;
    hidden_blocks = sh.hidden_blocks;
    out_blocks = sh.out_blocks;
    ids_lt = sh.ids_lt;
    gate_held = λ nid e ith i le l lo hi.
        load_rows m.numa_nodes m.stride (m.intermediate_size / m.stride) w.gate_proj sh.some_node c
          0 m.expert_num e ith nid le lo hi l m.gate_numa i;
    up_held = λ nid e ith i le l lo hi.
        load_rows m.numa_nodes m.stride (m.intermediate_size / m.stride) w.up_proj sh.some_node c 0
          m.expert_num e ith nid le lo hi l m.up_numa i;
    down_held = λ nid e ith i le l lo hi.
        load_rows m.numa_nodes m.stride (m.hidden_size / m.stride) w.down_proj sh.some_node c 1
          m.expert_num e ith nid le lo hi l m.down_numa i;
  }

  -- On the weights that the constructor has copied to the nodes, for a call with a rank and expert
  -- ids in range, when strides and type blocks fill the rows: whatever the buffers held, and in
  -- whatever order and on whatever nodes the tasks of the constructor's and of the call's jobs run,
  -- within what Backend_NUMA allows, forward_many_m leaves in each block of each token's output the
  -- conversion of the weighted sum, over the token's experts in order, of the experts' outputs,
  -- which are computed from the rows of the matrices that the constructor was given.
  pub construct-expected :
      (rows ordered : Inputs g) (bufs : Buffers g) (downs : ℕ → ℕ → g.Float) (out : ℕ → ℕ → g.Block)
      (token b : ℕ)
      → token < q.qlen
      → b < m.hidden_size / g.blck_size m.hidden_type
      → forward_many_m g (construct g m w c) q d rows ordered bufs downs out token b
        ≡ expected g m q w token b
  construct-expected rows ordered bufs downs out token b lt lb =
      forward_many_m-expected g (construct g m w c) q w construct-Layout d rows ordered bufs downs
        out sh.some_rank token b lt lb

  -- On such weights, for a call for one token with a rank and expert ids in range, when strides and
  -- type blocks fill the rows: whatever the buffers held, and however the tasks of the two calls'
  -- jobs run within what Backend_NUMA allows, forward_one leaves in each block of the output what
  -- forward_many_m leaves there for that call: the conversion of the weighted sum of the token's
  -- experts' outputs.
  pub forward_one-forward_many_m :
      q.qlen ≡ 1
      → (rows ordered : Inputs g) (bufs one_bufs : Buffers g) (downs one_downs : ℕ → ℕ → g.Float)
        (out : ℕ → ℕ → g.Block) (b : ℕ)
      → b < m.hidden_size / g.blck_size m.hidden_type
      → (forward_one g (construct g m w c) q d one_bufs one_downs out 0 b ≡ expected g m q w 0 b)
        × (forward_one g (construct g m w c) q d one_bufs one_downs out 0 b
            ≡ forward_many_m g (construct g m w c) q d rows ordered bufs downs out 0 b)
  forward_one-forward_many_m e rows ordered bufs one_bufs downs one_downs out b lb =
      let one_done =
        forward_one-expected g (construct g m w c) q w construct-Layout d e one_bufs one_downs out
          sh.some_rank b lb in
      (
        one_done,
        one_done ∙ sym (construct-expected rows ordered bufs downs out 0 b (omega (arith, e)) lb),
      )

  -- MOE::forward on such weights, for a batch with a rank and expert ids in range, when strides and
  -- type blocks fill the rows and group_max_len is at least 1: it ends, and whatever group_min_len
  -- and group_max_len are, in whatever settings its calls of forward_one and forward_many find
  -- the buffers and the jobs, they leave for each token of the batch that same output.
  pub forward-expected :
      (fuel lo hi qlen : ℕ)
      → 1 ≤ hi
      → q.qlen ≤ fuel
      → (at : ℕ → Setting g (construct g m w c))
      → (bs : List Batch) × (forward fuel lo hi qlen q.qlen ≡ some bs)
        × ((out : ℕ → ℕ → g.Block) (t b : ℕ)
            → t < q.qlen
            → b < m.hidden_size / g.blck_size m.hidden_type
            → run_calls g (construct g m w c) q at bs out t b ≡ expected g m q w t b)
  forward-expected fuel lo hi qlen p f at =
      let done : Serves (forward fuel lo hi qlen q.qlen) =
        if-both (λ n. Serves (rounds fuel lo hi 0 n)) (qlen == q.qlen) qlen q.qlen
          (λ e.
            subst (λ n. Serves (rounds fuel lo hi 0 n)) {x = q.qlen} {y = qlen} (ground (arith, e))
              whole)
          (λ _. whole) in
      elim (Option-cases (forward fuel lo hi qlen q.qlen)) [
        | inl e ↦ absurd (subst Serves e done)
        | inr (bs, e) ↦ (
          bs,
          e,
          λ out t b lt lb.
              (subst Serves e done (omega arith) out).1 t b (omega arith) (omega arith) lb,
        )
      ]
    where
      Serves : Option (List Batch) → Type 0
      Serves = Computes g (construct g m w c) q w construct-Layout sh.some_rank at 0 q.qlen

      whole : Serves (rounds fuel lo hi 0 q.qlen)
      whole =
          rounds-Computes g (construct g m w c) q w construct-Layout sh.some_rank at fuel lo hi p f
