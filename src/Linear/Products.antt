-- ===== src/Linear/Products.antt =====
-- A job of tasks that multiply the rows of an input with the blocks of a matrix (linear.cpp, lines
-- 92-111, and the same in mlp.cpp).
use xiaotu_moe.Base.{
  refl, sym, ap, ◌∙◌, subst, arith, ℕ, ◌+◌, ◌*◌, ◌/◌, ◌≤◌, ◌<◌, ◌≡◌, inr, ◌≢◌, run_all-settles,
}
use xiaotu_moe.Layers.Jobs.{Dispatch, run_job, at, home, at_bounds, at_injective, at_covers}
use xiaotu_moe.Moe.Kernels.{Ggml, sgemm}
use xiaotu_moe.Moe.Held.{HoldsRows, held_for}
use xiaotu_moe.Moe.Writes.{sgemm_in, sgemm_out}
use xiaotu_moe.Linear.Forward.{Linear, Written, project, run_products, row_blocks, vec_type}
use xiaotu_moe.Linear.Expected.{Shape}
use xiaotu_moe.Linear.Strides.{Placed, convert_stride-own, convert_stride-other, convert_rest-done}

-- The tasks of a job with one task for each block.
module _ {numa_nodes : ℕ} (some_node : 1 ≤ numa_nodes) (d : Dispatch numa_nodes) (job nth : ℕ) where
  pub other_ith :
      (t u : ℕ)
      → t < nth * 1
      → u < nth * 1
      → u ≢ t
      → (at some_node d job 1 nth u).ith ≢ (at some_node d job 1 nth t).ith
  other_ith t u lt lu ne e = ne (
      at_injective some_node d job 1 nth u t lu lt
        (omega (
          arith,
          (at_bounds some_node d job 1 nth u lu).0,
          (at_bounds some_node d job 1 nth t lt).0,
        ))
        e)

  -- The product of a task t with block y of the matrix, on its node, into the columns of block y.
  module _ (g : Ggml) (stride size qlen k : ℕ) (w v : g.DataType) (numa : ℕ → ℕ → ℕ → ℕ → g.Block)
      (proj : ℕ → ℕ → g.Block) (acts rows : ℕ → ℕ → g.Block) where
    abbrev pub task_product : (t y : ℕ) → (ℕ → ℕ → g.Float) → ℕ → ℕ → g.Float
    task_product t y =
        sgemm g stride qlen k w v (numa (d.node job 1 nth t) (at some_node d job 1 nth t).offset)
          acts 0 (y * stride)

    pub task_product-own :
        HoldsRows numa_nodes 1 stride nth numa proj
        → nth * stride ≡ size
        → ((i b : ℕ) → i < qlen → b < k → acts i b ≡ rows i b)
        → (t ith : ℕ) → t < nth * 1
        → (at some_node d job 1 nth t).ith ≡ ith
        → (old : ℕ → ℕ → g.Float) (i c : ℕ) → i < qlen
        → c < stride
        → task_product t ith old i (ith * stride + c)
          ≡ g.dot w v k (proj (ith * stride + c)) (rows i)
    task_product-own held whole read t ith lt pi old i c li lc =
        sgemm_in g stride qlen k w v (numa (d.node job 1 nth t) (at some_node d job 1 nth t).offset)
          acts 0 (ith * stride) old i c (proj (ith * stride + c)) (rows i) (omega arith)
          (omega arith) lc
          (ap (λ o. numa (d.node job 1 nth t) o c) {x = (at some_node d job 1 nth t).offset}
              {y = 0 * (home some_node d job 1 nth t).num_blocks
                + (at some_node d job 1 nth t).offset}
              (omega arith)
            ∙ held_for some_node d job 1 1 stride nth size numa proj held whole t 0 ith c lt
                (omega arith) pi
            ∙ ap proj {x = 0 * size + (ith * stride + c)} {y = ith * stride + c} (omega arith))
          (λ b lb. read i b li lb)

    pub task_product-other :
        (u y ith : ℕ)
        → y ≢ ith
        → (old : ℕ → ℕ → g.Float) (i c : ℕ) → c < stride
        → task_product u y old i (ith * stride + c) ≡ old i (ith * stride + c)
    task_product-other u y ith away old i c lc =
        sgemm_out g stride qlen k w v
          (numa (d.node job 1 nth u) (at some_node d job 1 nth u).offset) acts 0 ith y old i c
          (inr away) lc

module _ (g : Ggml) (m : Linear g) (qlen : ℕ) (acts rows : ℕ → ℕ → g.Block) (proj : ℕ → ℕ → g.Block)
    (sh : Shape g m)
    (held : HoldsRows m.numa_nodes 1 m.stride (m.output_size / m.stride) m.proj_numa proj)
    (read : (i b : ℕ) → i < qlen → b < row_blocks g m → acts i b ≡ rows i b) (job : ℕ)
    (d : Dispatch m.numa_nodes) where
  abbrev nth : ℕ
  nth = m.output_size / m.stride

  abbrev vals : ℕ → ℕ → g.Float
  vals i c = g.dot m.proj_type (vec_type g m) (row_blocks g m) (proj c) (rows i)

  abbrev Block : ℕ → Written g → Type 0
  Block ith s =
      Placed g m.hidden_type qlen m.stride m.output_size vals sh.some_stride sh.strides_whole
        sh.out_blocks ith s.proj_output s.output

  abbrev outs : (t y : ℕ) → (ℕ → ℕ → g.Float) → ℕ → ℕ → g.Float
  outs =
      task_product sh.some_node d job nth g m.stride m.output_size qlen (row_blocks g m) m.proj_type
        (vec_type g m) m.proj_numa proj acts rows

  own_block :
      (t : ℕ)
      → t < nth * 1
      → (s : Written g)
      → Block (at sh.some_node d job 1 nth t).ith (project g m qlen acts (d.node job 1 nth t) t s)
  own_block t lt s =
      convert_stride-own g m.hidden_type qlen m.stride m.output_size vals sh.some_stride
        sh.strides_whole sh.out_blocks (at sh.some_node d job 1 nth t).ith
        (outs t (at sh.some_node d job 1 nth t).ith s.proj_output) s.output
        (λ i c li lc.
          task_product-own sh.some_node d job nth g m.stride m.output_size qlen (row_blocks g m)
            m.proj_type (vec_type g m) m.proj_numa proj acts rows held sh.strides_whole read t _ lt
            refl s.proj_output i c li lc)

  other_block :
      (ith u : ℕ)
      → (at sh.some_node d job 1 nth u).ith ≢ ith
      → (s : Written g) → Block ith s
      → Block ith (project g m qlen acts (d.node job 1 nth u) u s)
  other_block ith u away s h =
      convert_stride-other g m.hidden_type qlen m.stride m.output_size vals sh.some_stride
        sh.strides_whole sh.out_blocks ith (at sh.some_node d job 1 nth u).ith s.proj_output
        (outs u (at sh.some_node d job 1 nth u).ith s.proj_output) s.output away
        (λ i c lc.
          task_product-other sh.some_node d job nth g m.stride m.output_size qlen (row_blocks g m)
            m.proj_type (vec_type g m) m.proj_numa proj acts rows u _ ith away s.proj_output i c lc)
        h

  all_blocks :
      (s : Written g) (ith : ℕ)
      → ith < nth
      → Block ith (run_job d job 1 nth (project g m qlen acts) s)
  all_blocks s ith l =
      let (t, lt, pe, pi) = at_covers sh.some_node d job 1 nth 0 ith (omega arith) l in
      run_all-settles (Block ith) (λ u. project g m qlen acts (d.node job 1 nth u) u) (nth * 1) t
        (λ r.
          subst (λ y. Block y (project g m qlen acts (d.node job 1 nth t) t r)) pi
            (own_block t lt r))
        (λ u lu ne r h.
          other_block ith u (λ e. other_ith sh.some_node d job nth t u lt lu ne (e ∙ sym pi)) r h)
        (d.order job 1 nth) (d.order-Once job 1 nth) lt s

  pub run_products-done :
      (s : Written g) (i b : ℕ)
      → i < qlen
      → b < m.output_size / g.blck_size m.hidden_type
      → (run_products g m qlen acts job d s).output i b ≡ g.from_float m.hidden_type (vals i) b
  run_products-done s i b li lb =
      convert_rest-done g m.hidden_type qlen m.stride m.output_size vals sh.some_stride
        sh.strides_whole sh.out_blocks (run_job d job 1 nth (project g m qlen acts) s).proj_output
        (run_job d job 1 nth (project g m qlen acts) s).output (all_blocks s) i b li lb
