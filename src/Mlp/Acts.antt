-- ===== src/Mlp/Acts.antt =====
-- The first job of MLP::forward_many (mlp.cpp, lines 168-202) leaves every token's activations, in
-- the type of the down projection.
use xiaotu_moe.Base.{
  refl, sym, ap, ◌∙◌, subst, arith, ℕ, ◌+◌, ◌*◌, ◌/◌, ◌<◌, ◌≡◌, inr, ◌≢◌, run_all-settles,
}
use xiaotu_moe.Layers.Jobs.{Dispatch, run_job, at, at_covers}
use xiaotu_moe.Moe.Kernels.{Ggml, write}
use xiaotu_moe.Moe.Held.{HoldsRows}
use xiaotu_moe.Moe.Writes.{write_in, write_out}
use xiaotu_moe.Linear.Strides.{Placed, convert_stride-own, convert_stride-other, convert_rest-done}
use xiaotu_moe.Linear.Products.{other_ith, task_product, task_product-own}
use xiaotu_moe.Mlp.Forward.{
  Mlp, Buffers, convert_input, act_fn, gate_up, down_inputs, gate_vec, up_vec, down_vec,
  gate_blocks, up_blocks,
}
use xiaotu_moe.Mlp.Expected.{Matrices, Shape, as_type, act_row}
use xiaotu_moe.Mlp.Inputs.{gate_read, up_read}

module _ (g : Ggml) (m : Mlp g) (w : Matrices g) (sh : Shape g m) (qlen : ℕ) (input : ℕ → g.Block)
    (gate_held : HoldsRows m.numa_nodes 1 m.stride
      (m.intermediate_size / m.stride)
      m.gate_numa
      w.gate_proj)
    (up_held : HoldsRows m.numa_nodes 1 m.stride
      (m.intermediate_size / m.stride)
      m.up_numa
      w.up_proj)
    (d : Dispatch m.numa_nodes) where
  abbrev nth : ℕ
  nth = m.intermediate_size / m.stride

  whole :
      m.intermediate_size / g.blck_size (down_vec g m) * g.blck_size (down_vec g m)
      ≡ m.intermediate_size
  whole =
      ap (λ x. m.intermediate_size / x * x) (g.blck_size-vec_dot_type m.down_type) ∙ sh.down_whole

  abbrev Block : ℕ → Buffers g → Type 0
  Block ith s =
      Placed g (down_vec g m) qlen m.stride m.intermediate_size (act_row g m w input) sh.some_stride
        sh.acts_whole whole ith s.intermediate_fp32 s.down_input

  abbrev gates : (t : ℕ) → Buffers g → ℕ → ℕ → g.Float
  gates t s =
      task_product sh.some_node d 7 nth g m.stride m.intermediate_size qlen (gate_blocks g m)
        m.gate_type (gate_vec g m) m.gate_numa w.gate_proj
        (λ i b. (convert_input g m input).gate_input (i * gate_blocks g m + b))
        (as_type g m w input (gate_vec g m) (gate_blocks g m)) t (at sh.some_node d 7 1 nth t).ith
        s.gate_output

  abbrev ups : (t : ℕ) → Buffers g → ℕ → ℕ → g.Float
  ups t s =
      task_product sh.some_node d 7 nth g m.stride m.intermediate_size qlen (up_blocks g m)
        m.up_type (up_vec g m) m.up_numa w.up_proj
        (λ i b. (convert_input g m input).up_input (i * up_blocks g m + b))
        (as_type g m w input (up_vec g m) (up_blocks g m)) t (at sh.some_node d 7 1 nth t).ith
        s.up_output

  abbrev acts : (t : ℕ) → Buffers g → ℕ → ℕ → g.Float
  acts t s =
      write 0 qlen ((at sh.some_node d 7 1 nth t).ith * m.stride) m.stride
        (λ i j. g.mul (act_fn g (gates t s i j)) (ups t s i j)) s.intermediate_fp32

  own_acts :
      (t : ℕ)
      → t < nth * 1
      → (s : Buffers g) (i c : ℕ) → i < qlen
      → c < m.stride
      → acts t s i ((at sh.some_node d 7 1 nth t).ith * m.stride + c)
        ≡ act_row g m w input i ((at sh.some_node d 7 1 nth t).ith * m.stride + c)
  own_acts t lt s i c li lc =
      write_in 0 qlen ((at sh.some_node d 7 1 nth t).ith * m.stride) m.stride
        (λ j x. g.mul (act_fn g (gates t s j x)) (ups t s j x)) s.intermediate_fp32 i
        ((at sh.some_node d 7 1 nth t).ith * m.stride + c) (omega arith) (omega arith) (omega arith)
        (omega arith)
      ∙ ap (λ x. g.mul (act_fn g x) (ups t s i ((at sh.some_node d 7 1 nth t).ith * m.stride + c)))
          (task_product-own sh.some_node d 7 nth g m.stride m.intermediate_size qlen
            (gate_blocks g m) m.gate_type (gate_vec g m) m.gate_numa w.gate_proj
            (λ j b. (convert_input g m input).gate_input (j * gate_blocks g m + b))
            (as_type g m w input (gate_vec g m) (gate_blocks g m)) gate_held sh.acts_whole
            (λ j b lj lb. gate_read g m w sh input j b) t _ lt refl s.gate_output i c li lc)
      ∙ ap (g.mul _) (
          task_product-own sh.some_node d 7 nth g m.stride m.intermediate_size qlen (up_blocks g m)
            m.up_type (up_vec g m) m.up_numa w.up_proj
            (λ j b. (convert_input g m input).up_input (j * up_blocks g m + b))
            (as_type g m w input (up_vec g m) (up_blocks g m)) up_held sh.acts_whole
            (λ j b lj lb. up_read g m w sh input j b) t _ lt refl s.up_output i c li lc)

  own_block :
      (t : ℕ)
      → t < nth * 1
      → (s : Buffers g)
      → Block
          (at sh.some_node d 7 1 nth t).ith
          (gate_up g m qlen (convert_input g m input) (d.node 7 1 nth t) t s)
  own_block t lt s =
      convert_stride-own g (down_vec g m) qlen m.stride m.intermediate_size (act_row g m w input)
        sh.some_stride sh.acts_whole whole (at sh.some_node d 7 1 nth t).ith (acts t s) s.down_input
        (λ i c li lc. own_acts t lt s i c li lc)

  other_block :
      (ith u : ℕ)
      → (at sh.some_node d 7 1 nth u).ith ≢ ith
      → (s : Buffers g) → Block ith s
      → Block ith (gate_up g m qlen (convert_input g m input) (d.node 7 1 nth u) u s)
  other_block ith u away s h =
      convert_stride-other g (down_vec g m) qlen m.stride m.intermediate_size (act_row g m w input)
        sh.some_stride sh.acts_whole whole ith (at sh.some_node d 7 1 nth u).ith s.intermediate_fp32
        (acts u s) s.down_input away
        (λ i c lc.
          write_out 0 qlen m.stride ith (at sh.some_node d 7 1 nth u).ith
            (λ j x. g.mul (act_fn g (gates u s j x)) (ups u s j x)) s.intermediate_fp32 i c
            (inr away) lc)
        h

  all_blocks :
      (s : Buffers g) (ith : ℕ)
      → ith < nth
      → Block ith (run_job d 7 1 nth (gate_up g m qlen (convert_input g m input)) s)
  all_blocks s ith l =
      let (t, lt, pe, pi) = at_covers sh.some_node d 7 1 nth 0 ith (omega arith) l in
      run_all-settles (Block ith)
        (λ u. gate_up g m qlen (convert_input g m input) (d.node 7 1 nth u) u) (nth * 1) t
        (λ r.
          subst (λ y. Block y (gate_up g m qlen (convert_input g m input) (d.node 7 1 nth t) t r))
            pi (own_block t lt r))
        (λ u lu ne r h.
          other_block ith u (λ e. other_ith sh.some_node d 7 nth t u lt lu ne (e ∙ sym pi)) r h)
        (d.order 7 1 nth) (d.order-Once 7 1 nth) lt s

  pub down_inputs-done :
      (s : Buffers g) (i b : ℕ)
      → i < qlen
      → b < m.intermediate_size / g.blck_size (down_vec g m)
      → down_inputs g m qlen (convert_input g m input) d s i b
        ≡ g.from_float (down_vec g m) (act_row g m w input i) b
  down_inputs-done s i b li lb =
      convert_rest-done g (down_vec g m) qlen m.stride m.intermediate_size (act_row g m w input)
        sh.some_stride sh.acts_whole whole
        (run_job d 7 1 nth (gate_up g m qlen (convert_input g m input)) s).intermediate_fp32
        (run_job d 7 1 nth (gate_up g m qlen (convert_input g m input)) s).down_input (all_blocks s)
        i b li lb
