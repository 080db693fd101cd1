-- ===== src/MoeV2/Sliced.antt =====
-- MOE_V2::forward_many_nsliced (xiaotu-moe/csrc/moe/moe_v2.hpp, lines 601-851), which cuts the
-- rows of each active expert's products into jobs. The dimensions are positive; resize keeps what
-- the buffers held, and the timing of the phases is left out.
use xiaotu_moe.Base.{
  ℕ, ◌+◌, ◌*◌, ◌/◌, ◌%◌, ◌==◌, ◌&&◌, Bool, ◌||◌, ltb, leb, if◌then◌else◌, List, length, update,
  get_or, run_all,
}
use xiaotu_moe.MoeV2.Routing.{active, Groups, regroup}
use xiaotu_moe.MoeV2.Forward.{
  Floats, Weights, Call, Schedule, no_weight, nass, silu_gate, reduce_token,
}
use xiaotu_moe.MoeV2.Spans.{Span, chunk_count, sub_count, chunk_span, shard_span}

-- The shapes and settings of an engine; the last four are the environment's overrides.
pub record Config : Type 0 where
  pub inter : ℕ
  pub hidden : ℕ
  pub nthreads : ℕ
  pub nshard : ℕ
  pub ncgu : ℕ
  pub ncd : ℕ
  pub shardsplit : ℕ
  pub split_disabled : Bool

-- The two batched slices of the weight traits. A Block is what a pointer to a weight block and its
-- scales give to a call; a buffer is a function of instance and row, `both` of 2 * inter rows.
pub record Slices (fl : Floats) : Type 1 where
  pub Block : Type 0
  pub gate_up_slice_batched :
      (me : ℕ) → (ℕ → ℕ → fl.Half) → Block → (ℕ → ℕ → fl.Float) → (eid n0 n1 : ℕ) → ℕ → ℕ → fl.Float
  pub down_slice_batched :
      (me : ℕ) → (ℕ → ℕ → fl.Half) → Block → (ℕ → ℕ → fl.Float) → (eid n0 n1 : ℕ) → ℕ → ℕ → fl.Float

-- Where a phase finds its blocks: the shard of a node, and for job ji of a flat phase the replica
-- of the socket that its worker is pinned to (w13_for, w2_for).
pub record Sites (Block : Type 0) : Type 0 where
  pub shard : ℕ → Block
  pub for_worker : ℕ → Block

-- The parts of ExpBuf that phase A writes, of every expert.
pub record Bufs (fl : Floats) : Type 0 where
  pub both : ℕ → ℕ → ℕ → fl.Float
  pub abf16 : ℕ → ℕ → ℕ → fl.Half

module _ (fl : Floats) (w : Weights fl) (nel : ℕ) (cfg : Config) (sl : Slices fl) (q : Call fl)
    (old : ℕ → List ℕ) where
  abbrev pub active_list : List ℕ
  active_list = active nel q.ids (no_weight fl w nel q) (nass fl w nel q)

  -- exp_[e].ai_list and inst_idx_; `old` are the lists that the last call has left.
  abbrev pub instances : Groups nel q.ids (no_weight fl w nel q)
  instances = regroup nel q.ids (no_weight fl w nel q) old (nass fl w nel q)

  -- The gathered rows `xg` of an expert.
  abbrev pub gathered : ℕ → ℕ → ℕ → fl.Half
  gathered eid m = q.input (get_or (instances.list eid) m 0 / q.ranks)

  -- The fused gated SiLU of a job: rows n0 to n1 - 1 of the first `me` instances.
  abbrev pub fuse : (me : ℕ) → Span → (ℕ → ℕ → fl.Float) → (ℕ → ℕ → fl.Half) → ℕ → ℕ → fl.Half
  fuse me p both abf16 mi i =
      if ltb mi me && (leb p.n0 i && ltb i p.n1)
      then fl.fp32_to_bf16 (silu_gate fl w nel (both mi i) (both mi (cfg.inter + i)))
      else abf16 mi i

  -- A job of phase A on the span of expert e_idx of the active ones. The tests of e_idx and `me` in
  -- the source never hold: e_idx is below the number of active experts, which have instances.
  abbrev pub gate_up_job : sl.Block → ℕ → Span → Bufs fl → Bufs fl
  gate_up_job b e_idx p s =
      let eid = get_or active_list e_idx 0 in
      let me = length (instances.list eid) in
      let both = sl.gate_up_slice_batched me (gathered eid) b (s.both eid) eid p.n0 p.n1 in
      if leb p.n1 p.n0 then s else record s {
        both = update s.both eid both;
        abf16 = update s.abf16 eid (fuse me p both (s.abf16 eid));
      }

  -- A job of phase B, which reads the activations that phase A has left.
  abbrev pub down_job :
      (ℕ → ℕ → ℕ → fl.Half) → sl.Block → ℕ → Span → (ℕ → ℕ → ℕ → fl.Float) → ℕ → ℕ → ℕ → fl.Float
  down_job abf16 b e_idx p s =
      let eid = get_or active_list e_idx 0 in
      let me = length (instances.list eid) in
      if leb p.n1 p.n0
      then s
      else update s eid (sl.down_slice_batched me (abf16 eid) b (s eid) eid p.n0 p.n1)

  abbrev pub nc_gu : ℕ
  nc_gu = chunk_count cfg.ncgu cfg.nthreads (length active_list) cfg.inter

  abbrev pub nc_d : ℕ
  nc_d = chunk_count cfg.ncd cfg.nthreads (length active_list) cfg.hidden

  abbrev pub sub_a : ℕ
  sub_a =
      sub_count cfg.shardsplit cfg.split_disabled cfg.nshard cfg.nthreads (length active_list)
        cfg.inter

  abbrev pub sub_b : ℕ
  sub_b =
      sub_count cfg.shardsplit cfg.split_disabled cfg.nshard cfg.nthreads (length active_list)
        cfg.hidden

  -- A phase: sharded (job `x % jobs` of node `x / jobs`, on the node's shard) when there are two
  -- shards or more, else flat. `c` numbers the phase's call of the pool.
  module _ {S : Type 0} (sch : Schedule) where
    abbrev pub phase : ℕ → ℕ → ℕ → ℕ → Sites sl.Block → (sl.Block → ℕ → Span → S → S) → S → S
    phase c dim nc sub sites job s =
        let na = length active_list in
        if leb 2 cfg.nshard
        then run_all
            (λ x.
              job (sites.shard (x / (na * sub))) (x % (na * sub) / sub)
                (shard_span dim cfg.nshard sub (x / (na * sub)) (x % (na * sub) % sub)))
            (sch.order c (cfg.nshard * (na * sub))) s
        else run_all (λ ji. job (sites.for_worker ji) (ji / nc) (chunk_span dim nc (ji % nc)))
            (sch.order c (na * nc)) s

  -- The buffers hold `bufs` and `down` before the call; `w13` and `w2` are where the blocks lie.
  module _ (sch : Schedule) (w13 w2 : Sites sl.Block) (bufs : Bufs fl)
      (down : ℕ → ℕ → ℕ → fl.Float) where
    abbrev pub acts_done : Bufs fl
    acts_done = phase sch 0 cfg.inter nc_gu sub_a w13 gate_up_job bufs

    abbrev pub down_done : ℕ → ℕ → ℕ → fl.Float
    down_done = phase sch 1 cfg.hidden nc_d sub_b w2 (down_job acts_done.abf16) down

    abbrev pub forward_many_nsliced : (ℕ → ℕ → fl.Float) → ℕ → ℕ → fl.Float
    forward_many_nsliced out =
        let zeroed = λ (t h : ℕ). if leb q.tokens t then out t h else fl.zero_float in
        if q.tokens == 0 || q.ranks == 0
        then out
        else if length active_list == 0
        then zeroed
        else run_all (reduce_token fl w nel q (λ ai. down_done (q.ids ai) (instances.index ai)))
            (sch.order 2 q.tokens) zeroed
