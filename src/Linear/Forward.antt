-- ===== src/Linear/Forward.antt =====
-- Linear's constructor and forward_many (linear.cpp, lines 42-53 and 83-117), with USE_NUMA.
use xiaotu_moe.Base.{ℕ, ◌+◌, ◌*◌, ◌/◌, ◌%◌, ◌==◌, if◌then◌else◌, loop, update}
use xiaotu_moe.Layers.Blocks.{numa_block, place}
use xiaotu_moe.Layers.Jobs.{Dispatch, run_job}
use xiaotu_moe.Moe.Kernels.{Ggml, sgemm, convert, write}

-- The copies of the blocks to the nodes: the matrix by its rows, a node's blocks of `stride` rows.
module _ {ℓ} {Row : Type ℓ} (numa_nodes stride nth : ℕ) (proj : ℕ → Row) where
  abbrev pub copy_node : (nid : ℕ) → (ℕ → ℕ → ℕ → Row) → ℕ → ℕ → ℕ → Row
  copy_node nid numa =
      let b = numa_block numa_nodes nth nid in
      loop b.num_blocks
        (λ ib s. update s nid (update (s nid) ib (λ i. proj ((b.start_block + ib) * stride + i))))
        numa

  abbrev pub load_blocks : (ℕ → ℕ → ℕ → Row) → ℕ → ℕ → ℕ → Row
  load_blocks = loop numa_nodes copy_node

module _ (g : Ggml) where
  -- The configuration, and the memory of the nodes.
  pub record Linear : Type 0 where
    pub input_size : ℕ
    pub output_size : ℕ
    pub stride : ℕ
    pub numa_nodes : ℕ
    pub proj_type : g.DataType
    pub hidden_type : g.DataType
    pub proj_numa : ℕ → ℕ → ℕ → ℕ → g.Block

  -- What the tasks write: proj_output_ and output, by row.
  pub record Written : Type 0 where
    pub proj_output : ℕ → ℕ → g.Float
    pub output : ℕ → ℕ → g.Block

-- The conversion of what the tasks leave in a buffer x of floats, to type t. A task converts its
-- stride, where a stride is made of whole blocks of the type.
module _ (g : Ggml) (t : g.DataType) (qlen stride : ℕ) where
  abbrev pub convert_stride : (ith : ℕ) → (ℕ → ℕ → g.Float) → (ℕ → ℕ → g.Block) → ℕ → ℕ → g.Block
  convert_stride ith x y =
      if stride % g.blck_size t == 0
      then convert g t 0 qlen (ith * stride) stride (ith * stride / g.blck_size t) x y
      else y

  -- The rows, of `size` floats each, are converted at once behind the tasks otherwise.
  abbrev pub convert_rest : (size : ℕ) → (ℕ → ℕ → g.Float) → (ℕ → ℕ → g.Block) → ℕ → ℕ → g.Block
  convert_rest size x y =
      let blocks = size / g.blck_size t in
      if stride % g.blck_size t == 0
      then y
      else write 0 qlen 0 blocks
          (λ i b. g.from_float t (λ h. x (h / size) (h % size)) (i * blocks + b)) y

module _ (g : Ggml) (m : Linear g) where
  abbrev pub vec_type : g.DataType
  vec_type = g.vec_dot_type m.proj_type

  -- The blocks of a row of the input of the product.
  abbrev pub row_blocks : ℕ
  row_blocks = m.input_size / g.blck_size m.proj_type

  -- The job on the rows of the input.
  module _ (qlen : ℕ) (acts : ℕ → ℕ → g.Block) where
    -- A task.
    abbrev pub project : (nid task_id : ℕ) → Written g → Written g
    project nid task_id s =
        let p = place 1 (numa_block m.numa_nodes (m.output_size / m.stride) nid) task_id in
        let outs =
          sgemm g m.stride qlen row_blocks m.proj_type vec_type (m.proj_numa nid p.offset) acts 0
            (p.ith * m.stride) s.proj_output in
        record {
          proj_output = outs;
          output = convert_stride g m.hidden_type qlen m.stride p.ith outs s.output;
        }

    abbrev pub run_products : (job : ℕ) → Dispatch m.numa_nodes → Written g → Written g
    run_products job d s =
        let done = run_job d job 1 (m.output_size / m.stride) project s in
        record {
          proj_output = done.proj_output;
          output =
              convert_rest g m.hidden_type qlen m.stride m.output_size done.proj_output done.output;
        }

  module _ (qlen : ℕ) (input : ℕ → g.Block) where
    -- proj_input_ptr; the rows follow one another, and all of them are converted at once.
    abbrev pub proj_input : ℕ → g.Block
    proj_input =
        if g.same m.hidden_type vec_type
        then input
        else g.from_float vec_type (g.to_float m.hidden_type input)

    abbrev pub forward_many : Dispatch m.numa_nodes → Written g → Written g
    forward_many = run_products qlen (λ i b. proj_input (i * row_blocks + b)) 6
