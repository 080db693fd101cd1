-- ===== src/Moe/One.antt =====
-- MOE::forward_one (moe.cpp, lines 381-513), where use_fp32_buffer_ is false, without AMX and
-- without AVX2: the call is for one token, and the buffers have a row for each of its experts.
use xiaotu_moe.Base.{ℕ, ◌+◌, ◌*◌, ◌/◌, ◌%◌, ◌==◌, ◌&&◌, if◌then◌else◌}
use xiaotu_moe.Layers.Blocks.{numa_block, place}
use xiaotu_moe.Layers.Jobs.{Dispatch, run_job}
use xiaotu_moe.Moe.Kernels.{Ggml, sgemm, convert}
use xiaotu_moe.Moe.Forward.{
  Moe, Args, Inputs, Buffers, Outputs, gate_vec, up_vec, down_vec, gate_up_block, sum_rows,
}

module _ (g : Ggml) (m : Moe g) (q : Args g) where
  -- gate_input_ptr and up_input_ptr, which every row reads.
  abbrev pub one_inputs : Inputs g
  one_inputs =
      let x = q.input 0 in
      let fp32 = g.to_float m.hidden_type x in
      if g.same m.hidden_type (gate_vec g m q) && g.same m.hidden_type (up_vec g m q)
      then record { gate_input = λ _. x; up_input = λ _. x }
      else if g.same (gate_vec g m q) (up_vec g m q)
      then record {
        gate_input = λ _. g.from_float (gate_vec g m q) fp32;
        up_input = λ _. g.from_float (gate_vec g m q) fp32;
      }
      else record {
        gate_input = λ _.
            if g.same m.hidden_type (gate_vec g m q) then x else g.from_float (gate_vec g m q) fp32;
        up_input = λ _.
            if g.same m.hidden_type (up_vec g m q) then x else g.from_float (up_vec g m q) fp32;
      }

  -- The first job; where the types are one, up_input is gate_input.
  abbrev pub one_gate_up : (nid task_id : ℕ) → Buffers g → Buffers g
  one_gate_up nid task_id s =
      let b = numa_block m.numa_nodes (m.intermediate_size / m.stride) nid in
      let p = place q.k b task_id in
      if b.num_blocks == 0
      then s
      else gate_up_block g m q one_inputs nid (q.ids p.expert * b.num_blocks + p.offset) p.expert 1
          (p.ith * m.stride) s

  abbrev pub one_convert : (expert_idx : ℕ) → Buffers g → Buffers g
  one_convert expert_idx s = record s {
    down_input =
        convert g (down_vec g m q) expert_idx 1 0 m.intermediate_size 0 s.up_output s.down_input;
  }

  abbrev pub one_down : Buffers g → (nid task_id : ℕ) → (ℕ → ℕ → g.Float) → ℕ → ℕ → g.Float
  one_down x nid task_id s =
      let b = numa_block m.numa_nodes (m.hidden_size / m.stride) nid in
      let p = place q.k b task_id in
      if b.num_blocks == 0
      then s
      else sgemm g m.stride 1 (m.intermediate_size / g.blck_size m.down_type) m.down_type
          (down_vec g m q) (m.down_numa nid (q.ids p.expert * b.num_blocks + p.offset)) x.down_input
          p.expert (p.ith * m.stride) s

  -- The last job; the output is row 0.
  abbrev pub one_reduce : (ith : ℕ) → Outputs g → Outputs g
  one_reduce ith s =
      let c = ith * m.stride in
      let sums = sum_rows g m q (λ i. i) q.weights c m.stride s.down_output in
      record {
        down_output = sums;
        output =
            convert g m.hidden_type 0 1 c m.stride (c / g.blck_size m.hidden_type) (λ _. sums 0)
              s.output;
      }

  module _ (d : Dispatch m.numa_nodes) (bufs : Buffers g) (downs : ℕ → ℕ → g.Float) where
    abbrev pub forward_one : (ℕ → ℕ → g.Block) → ℕ → ℕ → g.Block
    forward_one output =
        let acts = run_job d 2 q.k (m.intermediate_size / m.stride) one_gate_up bufs in
        let ready =
          if m.stride % g.blck_size (down_vec g m q) == 0
          then acts
          else run_job d 3 1 q.k (λ _. one_convert) acts in
        let outs = run_job d 4 q.k (m.hidden_size / m.stride) (one_down ready) downs in
        (run_job d 5 1 (m.hidden_size / m.stride) (λ _. one_reduce)
          (record { down_output = outs; output = output })).output
