-- ===== src/Moe/Held.antt =====
-- What the configuration is to satisfy, and the weights that the nodes hold.
use xiaotu_moe.Base.{ap, ◌∙◌, subst, arith, ℕ, ◌+◌, ◌-◌, ◌*◌, ◌/◌, ◌≤◌, ◌<◌, ◌≡◌, row-div}
use xiaotu_moe.Layers.Jobs.{Dispatch, at, home, at_bounds, at_ith-lt}
use xiaotu_moe.Layers.Blocks.{numa_block}
use xiaotu_moe.Moe.Kernels.{Ggml}
use xiaotu_moe.Moe.Forward.{Moe, Args, down_vec, assignments}
use xiaotu_moe.Moe.Expected.{Matrices}

-- Block `ith` of expert e, of `nth` blocks of `stride` rows, on the node that has it.
abbrev pub HoldsRows {ℓ} :
    {A : Type ℓ} → (numa_nodes expert_num stride nth : ℕ) → (ℕ → ℕ → ℕ → A) → (ℕ → A) → Type ℓ
HoldsRows numa_nodes expert_num stride nth numa proj =
    (nid e ith i : ℕ)
    → e < expert_num
    → ith < nth
    → (numa_block numa_nodes nth nid).start_block ≤ ith
    → ith < (numa_block numa_nodes nth nid).start_block + (numa_block numa_nodes nth nid).num_blocks
    → numa nid
        (e * (numa_block numa_nodes nth nid).num_blocks
          + (ith - (numa_block numa_nodes nth nid).start_block))
        i
      ≡ proj ((e * nth + ith) * stride + i)

module _ (g : Ggml) (m : Moe g) (q : Args g) (w : Matrices g) where
  pub record Layout : Type 0 where
    pub some_node : 1 ≤ m.numa_nodes
    pub some_stride : 1 ≤ m.stride
    -- The strides fill the rows, and blocks of the types fill the rows and the strides.
    pub acts_whole : m.intermediate_size / m.stride * m.stride ≡ m.intermediate_size
    pub hidden_whole : m.hidden_size / m.stride * m.stride ≡ m.hidden_size
    pub down_blocks :
        m.intermediate_size / g.blck_size (down_vec g m q) * g.blck_size (down_vec g m q)
        ≡ m.intermediate_size
    pub hidden_blocks : m.stride / g.blck_size m.hidden_type * g.blck_size m.hidden_type ≡ m.stride
    pub out_blocks :
        m.hidden_size / g.blck_size m.hidden_type * g.blck_size m.hidden_type ≡ m.hidden_size
    -- The expert ids are in range.
    pub ids_lt : (a : ℕ) → a < assignments g m q → q.ids a < m.expert_num
    pub gate_held :
        HoldsRows m.numa_nodes m.expert_num m.stride
          (m.intermediate_size / m.stride)
          m.gate_numa
          w.gate_proj
    pub up_held :
        HoldsRows m.numa_nodes m.expert_num m.stride
          (m.intermediate_size / m.stride)
          m.up_numa
          w.up_proj
    pub down_held :
        HoldsRows m.numa_nodes m.expert_num m.stride
          (m.hidden_size / m.stride)
          m.down_numa
          w.down_proj

-- A stride of whole blocks, from its first block on.
pub stride_block :
    (ith stride blk : ℕ)
    → 1 ≤ blk
    → stride / blk * blk ≡ stride
    → ith * stride / blk ≡ ith * (stride / blk)
stride_block ith stride blk p e =
    ap (λ x. x / blk) {x = ith * stride} {y = ith * (stride / blk) * blk + 0}
      (omega (arith, ap (λ x. ith * x) e))
    ∙ row-div blk (ith * (stride / blk)) 0 p

-- Row c of block ith of expert e, in the matrix.
pub row_of :
    (e nth ith stride size i : ℕ)
    → nth * stride ≡ size
    → (e * nth + ith) * stride + i ≡ e * size + (ith * stride + i)
row_of e nth ith stride size i h = omega (arith, ap (λ x. e * x) h)

-- What a task at block ith reads, at the number of expert e on its node.
pub held_for {ℓ} :
    {A : Type ℓ} {numa_nodes : ℕ} (some_node : 1 ≤ numa_nodes) (d : Dispatch numa_nodes)
    (job k expert_num stride nth size : ℕ) (numa : ℕ → ℕ → ℕ → A) (proj : ℕ → A)
    → HoldsRows numa_nodes expert_num stride nth numa proj
    → nth * stride ≡ size
    → (t e ith i : ℕ) → t < nth * k
    → e < expert_num
    → (at some_node d job k nth t).ith ≡ ith
    → numa
        (d.node job k nth t)
        (e * (home some_node d job k nth t).num_blocks + (at some_node d job k nth t).offset)
        i
      ≡ proj (e * size + (ith * stride + i))
held_for some_node d job k expert_num stride nth size numa proj held whole t e ith i lt le pi =
    ap (λ o. numa (d.node job k nth t) (e * (home some_node d job k nth t).num_blocks + o) i)
      {x = (at some_node d job k nth t).offset}
      {y = (at some_node d job k nth t).ith - (home some_node d job k nth t).start_block}
      (omega arith)
    ∙ held (d.node job k nth t) e (at some_node d job k nth t).ith i le
        (at_ith-lt some_node d job k nth t lt) (omega arith)
        (at_bounds some_node d job k nth t lt).2
    ∙ ap (λ x. proj ((e * nth + x) * stride + i)) pi
    ∙ ap proj (row_of e nth ith stride size i whole)

-- What the task at block ith of expert e reads at its number on its node.
pub held_at {ℓ} :
    {A : Type ℓ} {numa_nodes : ℕ} (some_node : 1 ≤ numa_nodes) (d : Dispatch numa_nodes)
    (job expert_num stride nth size : ℕ) (numa : ℕ → ℕ → ℕ → A) (proj : ℕ → A)
    → HoldsRows numa_nodes expert_num stride nth numa proj
    → nth * stride ≡ size
    → (t e ith i : ℕ) → t < nth * expert_num
    → (at some_node d job expert_num nth t).expert ≡ e
    → (at some_node d job expert_num nth t).ith ≡ ith
    → numa
        (d.node job expert_num nth t)
        ((at some_node d job expert_num nth t).expert
            * (home some_node d job expert_num nth t).num_blocks
          + (at some_node d job expert_num nth t).offset)
        i
      ≡ proj (e * size + (ith * stride + i))
held_at some_node d job expert_num stride nth size numa proj held whole t e ith i lt pe pi =
    ap
      (λ x.
        numa (d.node job expert_num nth t)
          (x * (home some_node d job expert_num nth t).num_blocks
            + (at some_node d job expert_num nth t).offset)
          i)
      pe
    ∙ held_for some_node d job expert_num expert_num stride nth size numa proj held whole t e ith i
        lt (subst (λ x. x < expert_num) pe (at_bounds some_node d job expert_num nth t lt).0) pi
