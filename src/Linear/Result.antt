-- ===== src/Linear/Result.antt =====
-- Linear computes the products of the rows of its input with the matrix that it was given.
use xiaotu_moe.Base.{
  refl, sym, ap, ◌∙◌, subst, ℕ, ◌+◌, ◌*◌, ◌/◌, ◌<◌, ◌≡◌, inl, inr, Bool, Bool-cases, if◌then◌else◌,
}
use xiaotu_moe.Layers.Jobs.{Dispatch}
use xiaotu_moe.Moe.Kernels.{Ggml}
use xiaotu_moe.Moe.Held.{HoldsRows}
use xiaotu_moe.Linear.Forward.{
  Linear, Written, load_blocks, forward_many, proj_input, row_blocks, vec_type,
}
use xiaotu_moe.Linear.Expected.{Shape, input_row, output_row}
use xiaotu_moe.Linear.Strides.{from_float-row}
use xiaotu_moe.Linear.Products.{run_products-done}
use xiaotu_moe.Linear.Loaded.{load_blocks-HoldsRows}

module _ (g : Ggml) (m : Linear g) (qlen : ℕ) (input : ℕ → g.Block) (proj : ℕ → ℕ → g.Block)
    (sh : Shape g m) where
  input_row-done :
      (i b : ℕ)
      → proj_input g m qlen input (i * row_blocks g m + b) ≡ input_row g m qlen input proj i b
  input_row-done i b = elim (Bool-cases (g.same m.hidden_type (vec_type g m))) [
    | inl y ↦ subst Same (sym y) refl
    | inr n ↦ subst Same (sym n) (
        from_float-row g (vec_type g m) (g.to_float m.hidden_type input) (row_blocks g m)
          m.input_size i b whole)
  ]
    where
      Same : Bool → Type 0
      Same x =
          (if x then input else g.from_float (vec_type g m) (g.to_float m.hidden_type input))
            (i * row_blocks g m + b)
          ≡ (if x
                then (λ b'. input (i * row_blocks g m + b'))
                else g.from_float (vec_type g m)
                    (λ h. g.to_float m.hidden_type input (i * m.input_size + h)))
              b

      whole : row_blocks g m * g.blck_size (vec_type g m) ≡ m.input_size
      whole = ap (λ x. row_blocks g m * x) (g.blck_size-vec_dot_type m.proj_type) ∙ sh.in_blocks

  forward_many-held :
      HoldsRows m.numa_nodes 1 m.stride (m.output_size / m.stride) m.proj_numa proj
      → (d : Dispatch m.numa_nodes) (s : Written g) (i b : ℕ) → i < qlen
      → b < m.output_size / g.blck_size m.hidden_type
      → (forward_many g m qlen input d s).output i b ≡ output_row g m qlen input proj i b
  forward_many-held held d s i b li lb =
      run_products-done g m qlen (λ j x. proj_input g m qlen input (j * row_blocks g m + x))
        (input_row g m qlen input proj) proj sh held (λ j x lj lx. input_row-done j x) 6 d s i b li
        lb

-- Linear::Linear, where m holds the configuration and what the nodes' memory held before.
abbrev pub construct : (g : Ggml) → Linear g → (ℕ → ℕ → g.Block) → Linear g
construct g m proj = record m {
  proj_numa = load_blocks m.numa_nodes m.stride (m.output_size / m.stride) proj m.proj_numa;
}

-- On the matrix that the constructor has copied to the nodes, when strides and type blocks fill the
-- rows: whatever the buffers held, and in whatever order and on whatever nodes the tasks of the job
-- run, within what Backend_NUMA allows, Linear::forward_many leaves in each block of each token's
-- output the conversion of the products of the rows of the matrix with the token's input in the
-- type of the product, also where a stride is not made of whole blocks of the hidden type.
pub forward_many-output_row :
    (g : Ggml) (m : Linear g) (qlen : ℕ) (input : ℕ → g.Block) (proj : ℕ → ℕ → g.Block)
    → Shape g m
    → (d : Dispatch m.numa_nodes) (s : Written g) (i b : ℕ) → i < qlen
    → b < m.output_size / g.blck_size m.hidden_type
    → (forward_many g (construct g m proj) qlen input d s).output i b
      ≡ output_row g m qlen input proj i b
forward_many-output_row g m qlen input proj sh d s i b li lb =
    forward_many-held g (construct g m proj) qlen input proj
      (record {
        some_node = sh.some_node;
        some_stride = sh.some_stride;
        strides_whole = sh.strides_whole;
        in_blocks = sh.in_blocks;
        out_blocks = sh.out_blocks;
      })
      (load_blocks-HoldsRows m.numa_nodes m.stride (m.output_size / m.stride) proj m.proj_numa
        sh.some_node)
      d s i b li lb
