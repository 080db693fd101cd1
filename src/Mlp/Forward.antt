-- ===== src/Mlp/Forward.antt =====
-- MLP's forward_many (mlp.cpp, lines 141-227), with USE_NUMA.
use xiaotu_moe.Base.{ℕ, ◌+◌, ◌*◌, ◌/◌, ◌&&◌, if◌then◌else◌}
use xiaotu_moe.Layers.Blocks.{numa_block, place}
use xiaotu_moe.Layers.Jobs.{Dispatch, run_job}
use xiaotu_moe.Moe.Kernels.{Ggml, sgemm, write}
use xiaotu_moe.Linear.Forward.{Linear, Written, convert_stride, convert_rest, run_products}

module _ (g : Ggml) where
  -- The configuration, and the memory of the nodes.
  pub record Mlp : Type 0 where
    pub hidden_size : ℕ
    pub intermediate_size : ℕ
    pub stride : ℕ
    pub numa_nodes : ℕ
    pub hidden_type : g.DataType
    pub gate_type : g.DataType
    pub up_type : g.DataType
    pub down_type : g.DataType
    pub gate_numa : ℕ → ℕ → ℕ → ℕ → g.Block
    pub up_numa : ℕ → ℕ → ℕ → ℕ → g.Block
    pub down_numa : ℕ → ℕ → ℕ → ℕ → g.Block

  -- gate_input_ptr and up_input_ptr.
  pub record Inputs : Type 0 where
    pub gate_input : ℕ → g.Block
    pub up_input : ℕ → g.Block

  -- What the first job writes, by row.
  pub record Buffers : Type 0 where
    pub gate_output : ℕ → ℕ → g.Float
    pub up_output : ℕ → ℕ → g.Float
    pub intermediate_fp32 : ℕ → ℕ → g.Float
    pub down_input : ℕ → ℕ → g.Block

  abbrev pub act_fn : g.Float → g.Float
  act_fn x = g.div x (g.add g.one (g.exp (g.neg x)))

module _ (g : Ggml) (m : Mlp g) where
  abbrev pub gate_vec : g.DataType
  gate_vec = g.vec_dot_type m.gate_type

  abbrev pub up_vec : g.DataType
  up_vec = g.vec_dot_type m.up_type

  abbrev pub down_vec : g.DataType
  down_vec = g.vec_dot_type m.down_type

  abbrev pub gate_blocks : ℕ
  gate_blocks = m.hidden_size / g.blck_size m.gate_type

  abbrev pub up_blocks : ℕ
  up_blocks = m.hidden_size / g.blck_size m.up_type

  -- The down projection is a product as in Linear.
  abbrev pub down_layer : Linear g
  down_layer = record {
    input_size = m.intermediate_size;
    output_size = m.hidden_size;
    stride = m.stride;
    numa_nodes = m.numa_nodes;
    proj_type = m.down_type;
    hidden_type = m.hidden_type;
    proj_numa = m.down_numa;
  }

  -- The rows of the input follow one another, and all of them are converted at once.
  abbrev pub convert_input : (ℕ → g.Block) → Inputs g
  convert_input input =
      let input_fp32 = g.to_float m.hidden_type input in
      if g.same m.hidden_type gate_vec && g.same m.hidden_type up_vec
      then record { gate_input = input; up_input = input }
      else if g.same gate_vec up_vec
      then record {
        gate_input = g.from_float gate_vec input_fp32;
        up_input = g.from_float gate_vec input_fp32;
      }
      else record {
        gate_input =
            if g.same m.hidden_type gate_vec then input else g.from_float gate_vec input_fp32;
        up_input = if g.same m.hidden_type up_vec then input else g.from_float up_vec input_fp32;
      }

  module _ (qlen : ℕ) (x : Inputs g) where
    -- A task of the first job.
    abbrev pub gate_up : (nid task_id : ℕ) → Buffers g → Buffers g
    gate_up nid task_id s =
        let p = place 1 (numa_block m.numa_nodes (m.intermediate_size / m.stride) nid) task_id in
        let gates =
          sgemm g m.stride qlen gate_blocks m.gate_type gate_vec (m.gate_numa nid p.offset)
            (λ i b. x.gate_input (i * gate_blocks + b)) 0 (p.ith * m.stride) s.gate_output in
        let ups =
          sgemm g m.stride qlen up_blocks m.up_type up_vec (m.up_numa nid p.offset)
            (λ i b. x.up_input (i * up_blocks + b)) 0 (p.ith * m.stride) s.up_output in
        let acts =
          write 0 qlen (p.ith * m.stride) m.stride (λ i j. g.mul (act_fn g (gates i j)) (ups i j))
            s.intermediate_fp32 in
        record {
          gate_output = gates;
          up_output = ups;
          intermediate_fp32 = acts;
          down_input = convert_stride g down_vec qlen m.stride p.ith acts s.down_input;
        }

    -- down_input_ behind the first job.
    abbrev pub down_inputs : Dispatch m.numa_nodes → Buffers g → ℕ → ℕ → g.Block
    down_inputs d s =
        let done = run_job d 7 1 (m.intermediate_size / m.stride) gate_up s in
        convert_rest g down_vec qlen m.stride m.intermediate_size done.intermediate_fp32
          done.down_input

  abbrev pub forward_many :
      (qlen : ℕ) → (input : ℕ → g.Block) → Dispatch m.numa_nodes → Buffers g → Written g → Written g
  forward_many qlen input d s =
      run_products g down_layer qlen (down_inputs qlen (convert_input input) d s) 8 d
