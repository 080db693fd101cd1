-- ===== src/Moe/Forward.antt =====
-- MOE::forward_many_m (moe.cpp, lines 514-760), where use_fp32_buffer_ is false, without AMX and
-- without AVX2. Pointers into a buffer are a row and a column of it.
use xiaotu_moe.Base.{ℕ, ◌+◌, ◌-◌, ◌*◌, ◌/◌, ◌%◌, ◌==◌, ◌&&◌, if◌then◌else◌, update, loop}
use xiaotu_moe.Layers.Blocks.{numa_block, place}
use xiaotu_moe.Layers.Jobs.{Dispatch, run_job}
use xiaotu_moe.Moe.Kernels.{Ggml, write, sgemm, convert}
use xiaotu_moe.Moe.Reorder.{selection, reorder_offset, slot}

-- The members of MOEConfig, the number of nodes and the nodes' weights.
pub record Moe (g : Ggml) : Type 0 where
  pub expert_num : ℕ
  pub hidden_size : ℕ
  pub intermediate_size : ℕ
  pub stride : ℕ
  pub numa_nodes : ℕ
  pub hidden_type : g.DataType
  pub gate_type : g.DataType
  pub up_type : g.DataType
  pub down_type : g.DataType
  pub gate_numa : ℕ → ℕ → ℕ → ℕ → g.Block
  pub up_numa : ℕ → ℕ → ℕ → ℕ → g.Block
  pub down_numa : ℕ → ℕ → ℕ → ℕ → g.Block

-- The arguments of a call.
pub record Args (g : Ggml) : Type 0 where
  pub qlen : ℕ
  pub k : ℕ
  pub ids : ℕ → ℕ
  pub weights : ℕ → g.Float
  pub input : ℕ → ℕ → g.Block

-- The buffers that the jobs share: rows by token in `inputs`, by slot in the others.
pub record Inputs (g : Ggml) : Type 0 where
  pub gate_input : ℕ → ℕ → g.Block
  pub up_input : ℕ → ℕ → g.Block

pub record Buffers (g : Ggml) : Type 0 where
  pub gate_output : ℕ → ℕ → g.Float
  pub up_output : ℕ → ℕ → g.Float
  pub down_input : ℕ → ℕ → g.Block

pub record Outputs (g : Ggml) : Type 0 where
  pub down_output : ℕ → ℕ → g.Float
  pub output : ℕ → ℕ → g.Block

module _ (g : Ggml) (m : Moe g) (q : Args g) where
  abbrev pub gate_vec : g.DataType
  gate_vec = g.vec_dot_type m.gate_type

  abbrev pub up_vec : g.DataType
  up_vec = g.vec_dot_type m.up_type

  abbrev pub down_vec : g.DataType
  down_vec = g.vec_dot_type m.down_type

  abbrev pub assignments : ℕ
  assignments = q.qlen * q.k

  -- Job 1: a token's row of gate_input_ and up_input_.
  abbrev pub convert_input : (token : ℕ) → Inputs g → Inputs g
  convert_input token s =
      let x = q.input token in
      let fp32 = g.to_float m.hidden_type x in
      if g.same m.hidden_type gate_vec && g.same m.hidden_type up_vec
      then record s { gate_input = update s.gate_input token x }
      else if g.same gate_vec up_vec
      then record s { gate_input = update s.gate_input token (g.from_float gate_vec fp32) }
      else record {
        gate_input =
            update s.gate_input token
              (if g.same m.hidden_type gate_vec then x else g.from_float gate_vec fp32);
        up_input =
            update s.up_input token
              (if g.same m.hidden_type up_vec then x else g.from_float up_vec fp32);
      }

  -- Job 2: the row of assignment a copied to its slot, in m_gate_input_ and m_up_input_.
  abbrev pub gather : Inputs g → (a : ℕ) → Inputs g → Inputs g
  gather from a s =
      let to = slot q.ids assignments a in
      let gate = update s.gate_input to (from.gate_input (a / q.k)) in
      if g.same gate_vec up_vec
      then record s { gate_input = gate }
      else record { gate_input = gate; up_input = update s.up_input to (from.up_input (a / q.k)) }

  -- act_fn, one element.
  abbrev pub act_fn : g.Float → g.Float → g.Float
  act_fn up gate = g.mul up (g.div gate (g.add g.one (g.exp (g.neg gate))))

  -- One block of the gate projection and of the up projection, of n rows from `off` on and the
  -- columns from c on, with the node's weights of number `local`.
  abbrev pub gate_block : Inputs g → (nid local off n c : ℕ) → Buffers g → ℕ → ℕ → g.Float
  gate_block x nid local off n c s =
      sgemm g m.stride n (m.hidden_size / g.blck_size m.gate_type) m.gate_type gate_vec
        (m.gate_numa nid local) x.gate_input off c s.gate_output

  abbrev pub up_block : Inputs g → (nid local off n c : ℕ) → Buffers g → ℕ → ℕ → g.Float
  up_block x nid local off n c s =
      sgemm g m.stride n (m.hidden_size / g.blck_size m.up_type) m.up_type up_vec
        (m.up_numa nid local) (if g.same gate_vec up_vec then x.gate_input else x.up_input) off c
        s.up_output

  -- act_fn on the block, in place of the up projection.
  abbrev pub act_block : Inputs g → (nid local off n c : ℕ) → Buffers g → ℕ → ℕ → g.Float
  act_block x nid local off n c s =
      write off n c m.stride
        (λ j i. act_fn (up_block x nid local off n c s j i) (gate_block x nid local off n c s j i))
        (up_block x nid local off n c s)

  -- These, and the conversion when a block holds whole blocks of the type.
  abbrev pub gate_up_block : Inputs g → (nid local off n c : ℕ) → Buffers g → Buffers g
  gate_up_block x nid local off n c s =
      let down =
        convert g down_vec off n c m.stride (c / g.blck_size down_vec)
          (act_block x nid local off n c s) s.down_input in
      record {
        gate_output = gate_block x nid local off n c s;
        up_output = act_block x nid local off n c s;
        down_input = if m.stride % g.blck_size down_vec == 0 then down else s.down_input;
      }

  -- Job 3.
  abbrev pub gate_up : Inputs g → (nid task_id : ℕ) → Buffers g → Buffers g
  gate_up x nid task_id s =
      let b = numa_block m.numa_nodes (m.intermediate_size / m.stride) nid in
      let p = place m.expert_num b task_id in
      let n = (selection q.ids assignments).selected p.expert in
      if b.num_blocks == 0
      then s
      else if n == 0
      then s
      else gate_up_block x nid (p.expert * b.num_blocks + p.offset)
          (reorder_offset q.ids assignments p.expert) n (p.ith * m.stride) s

  -- The job between, when a block does not hold whole blocks of the type.
  abbrev pub convert_rows : (expert : ℕ) → Buffers g → Buffers g
  convert_rows expert s =
      let n = (selection q.ids assignments).selected expert in
      if n == 0 then s else record s {
        down_input =
            convert g down_vec (reorder_offset q.ids assignments expert) n 0 m.intermediate_size 0
              s.up_output s.down_input;
      }

  -- Job 4: one block of the down projection of an expert's rows.
  abbrev pub down : Buffers g → (nid task_id : ℕ) → (ℕ → ℕ → g.Float) → ℕ → ℕ → g.Float
  down x nid task_id s =
      let b = numa_block m.numa_nodes (m.hidden_size / m.stride) nid in
      let p = place m.expert_num b task_id in
      let n = (selection q.ids assignments).selected p.expert in
      if b.num_blocks == 0
      then s
      else if n == 0
      then s
      else sgemm g m.stride n (m.intermediate_size / g.blck_size down_vec) m.down_type down_vec
          (m.down_numa nid (p.expert * b.num_blocks + p.offset)) x.down_input
          (reorder_offset q.ids assignments p.expert) (p.ith * m.stride) s

  -- The sum of the rows of a token's ranks, weighted, in place in the row of rank 0, on `cols`
  -- columns from c.
  abbrev pub sum_rows :
      (row : ℕ → ℕ) (weight : ℕ → g.Float) (c cols : ℕ) → (ℕ → ℕ → g.Float) → ℕ → ℕ → g.Float
  sum_rows row weight c cols s =
      loop (q.k - 1)
        (λ r s'.
          write (row 0) 1 c cols
            (λ j i. g.add (s' j i) (g.mul (s' (row (r + 1)) i) (weight (r + 1)))) s')
        (write (row 0) 1 c cols (λ j i. g.mul (s j i) (weight 0)) s)

  abbrev pub combine : (token c cols : ℕ) → (ℕ → ℕ → g.Float) → ℕ → ℕ → g.Float
  combine token =
      sum_rows (λ i. slot q.ids assignments (token * q.k + i)) (λ i. q.weights (token * q.k + i))

  -- One block of a token's output, from column c on; `output` is a row per token.
  abbrev pub reduce_block : (token c : ℕ) → Outputs g → Outputs g
  reduce_block token c s =
      let sums = combine token c m.stride s.down_output in
      record {
        down_output = sums;
        output =
            convert g m.hidden_type token 1 c m.stride (c / g.blck_size m.hidden_type)
              (λ _. sums (slot q.ids assignments (token * q.k + 0))) s.output;
      }

  -- Job 5.
  abbrev pub reduce : (nid task_id : ℕ) → Outputs g → Outputs g
  reduce nid task_id s =
      let b = numa_block m.numa_nodes (m.hidden_size / m.stride) nid in
      let p = place q.qlen b task_id in
      if b.num_blocks == 0 then s else reduce_block p.expert (p.ith * m.stride) s

  module _ (d : Dispatch m.numa_nodes) (rows ordered : Inputs g) (bufs : Buffers g)
      (downs : ℕ → ℕ → g.Float) where
    -- The jobs in their order; `rows` to `downs` are what the buffers held before the call.
    abbrev pub forward_many_m : (ℕ → ℕ → g.Block) → ℕ → ℕ → g.Block
    forward_many_m output =
        let inputs = run_job d 0 1 q.qlen (λ _. convert_input) rows in
        let gathered = run_job d 1 1 assignments (λ _. gather inputs) ordered in
        let acts =
          run_job d 2 m.expert_num (m.intermediate_size / m.stride) (gate_up gathered) bufs in
        let ready =
          if m.stride % g.blck_size down_vec == 0
          then acts
          else run_job d 3 1 m.expert_num (λ _. convert_rows) acts in
        let outs = run_job d 4 m.expert_num (m.hidden_size / m.stride) (down ready) downs in
        (run_job d 5 q.qlen (m.hidden_size / m.stride) reduce
          (record { down_output = outs; output = output })).output
