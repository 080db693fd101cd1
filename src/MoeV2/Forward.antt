-- ===== src/MoeV2/Forward.antt =====
-- MOE_V2::forward_many without the N-sliced dispatch (xiaotu-moe/csrc/moe/moe_v2.hpp, lines
-- 420-594). Floating-point numbers and the weight traits are parameters, as `WeightTraits` is in
-- the source; a row is a function of its index, a scratch buffer a function of the row's number.
use xiaotu_moe.Base.{
  ℕ, ◌+◌, ◌-◌, ◌*◌, ◌/◌, Bool, leb, if◌then◌else◌, List, length, get_or, loop, run_all, update,
  Once, ◌==◌, ◌||◌, ◌%◌, ◌^◌,
}
use xiaotu_moe.MoeV2.Routing.{routed, Groups, per_expert, active}
use xiaotu_moe.MoeV2.Jobs.{Job, jobs}

-- fp32 operations, and bf16 as the type `Half`.
pub record Floats : Type 1 where
  pub Float : Type 0
  pub Half : Type 0
  pub zero_float : Float
  pub one : Float
  pub add : Float → Float → Float
  pub mul : Float → Float → Float
  pub div : Float → Float → Float
  pub neg : Float → Float
  pub exp : Float → Float
  pub is_zero : Float → Bool
  pub fp32_to_bf16 : Float → Half

-- What the traits compute with the weights of an expert: `gate`, `up` and `down` of a row of
-- activations.
pub record Weights (fl : Floats) : Type 0 where
  pub gate : (ℕ → fl.Half) → ℕ → ℕ → fl.Float
  pub up : (ℕ → fl.Half) → ℕ → ℕ → fl.Float
  pub down : (ℕ → fl.Half) → ℕ → ℕ → fl.Float

-- A call: M tokens of k ranks, expert_ids, weights and input.
pub record Call (fl : Floats) : Type 0 where
  pub tokens : ℕ
  pub ranks : ℕ
  pub ids : ℕ → ℕ
  pub weight : ℕ → fl.Float
  pub input : ℕ → ℕ → fl.Half

-- pool_.parallel_for: the order in which the jobs of a call run, which the calls of one
-- forward pass (numbered) need not share.
pub record Schedule : Type 0 where
  pub order : ℕ → ℕ → List ℕ
  pub order-Once : (c n : ℕ) → Once n (order c n)

module _ (fl : Floats) (w : Weights fl) (nel : ℕ) where
  -- act::silu_gate, one element.
  abbrev pub silu_gate : fl.Float → fl.Float → fl.Float
  silu_gate g u = fl.mul u (fl.div g (fl.add fl.one (fl.exp (fl.neg g))))

  module _ (q : Call fl) where
    abbrev pub no_weight : ℕ → Bool
    no_weight ai = fl.is_zero (q.weight ai)

    abbrev pub nass : ℕ
    nass = q.tokens * q.ranks

    abbrev pub groups : Groups nel q.ids no_weight
    groups = per_expert nel q.ids no_weight nass

    -- gate_up, then silu_gate, of token row x.
    abbrev pub act_row : ℕ → (ℕ → fl.Half) → ℕ → fl.Float
    act_row eid x i = silu_gate (w.gate x eid i) (w.up x eid i)

    -- convert_f32_to_bf16, then down.
    abbrev pub down_row : ℕ → (ℕ → fl.Float) → ℕ → fl.Float
    down_row eid a = w.down (λ i. fl.fp32_to_bf16 (a i)) eid

    -- Phase 1: job `j` fills act_scratch_.
    abbrev pub phase1 : Job → (ℕ → ℕ → fl.Float) → ℕ → ℕ → fl.Float
    phase1 j s =
        loop (j.ae - j.ab)
          (λ d s'.
            let ai = get_or (groups.list j.eid) (j.ab + d) 0 in
            update s' ai (act_row j.eid (q.input (ai / q.ranks))))
          s

    -- Phase 2: job `j` fills down_scratch_ from act_scratch_.
    abbrev pub phase2 : (ℕ → ℕ → fl.Float) → Job → (ℕ → ℕ → fl.Float) → ℕ → ℕ → fl.Float
    phase2 acts j s =
        loop (j.ae - j.ab)
          (λ d s'.
            let ai = get_or (groups.list j.eid) (j.ab + d) 0 in
            update s' ai (down_row j.eid (acts ai)))
          s

    abbrev pub add_scaled : fl.Float → (ℕ → fl.Float) → (ℕ → fl.Float) → ℕ → fl.Float
    add_scaled x d out h = fl.add (out h) (fl.mul x (d h))

    -- Phase 3, and the loop of the fallback: the ranks of token t added to its output row, in
    -- order; `value ai` is the expert's output for assignment ai.
    abbrev pub reduce : (ℕ → ℕ → fl.Float) → ℕ → (ℕ → fl.Float) → ℕ → fl.Float
    reduce value t out =
        loop q.ranks
          (λ r o.
            let ai = t * q.ranks + r in
            if routed nel q.ids no_weight ai then add_scaled (q.weight ai) (value ai) o else o)
          out

    abbrev pub reduce_token : (ℕ → ℕ → fl.Float) → ℕ → (ℕ → ℕ → fl.Float) → ℕ → ℕ → fl.Float
    reduce_token value t out = update out t (reduce value t (out t))

    -- The fallback computes the expert's output of token t in place.
    abbrev pub direct_row : ℕ → (ℕ → fl.Float) → ℕ → fl.Float
    direct_row t out =
        loop q.ranks
          (λ r o.
            let ai = t * q.ranks + r in
            if routed nel q.ids no_weight ai
            then add_scaled (q.weight ai) (down_row (q.ids ai) (act_row (q.ids ai) (q.input t))) o
            else o)
          out

    abbrev pub direct_token : ℕ → (ℕ → ℕ → fl.Float) → ℕ → ℕ → fl.Float
    direct_token t out = update out t (direct_row t (out t))

    abbrev pub no_job : Job
    no_job = record { eid = 0; ab = 0; ae = 0 }

    abbrev pub job_list : ℕ → List Job
    job_list nthreads = jobs nthreads groups.list (active nel q.ids no_weight nass)

    -- `factor` is F; `acts` and `downs` are what the scratch buffers held before the call.
    module _ (sch : Schedule) (nthreads factor : ℕ) (acts downs : ℕ → ℕ → fl.Float) where
      abbrev pub grouped : List Job → (ℕ → ℕ → fl.Float) → ℕ → ℕ → fl.Float
      grouped js out =
          let n = length js in
          let acts' = run_all (λ ji. phase1 (get_or js ji no_job)) (sch.order 0 n) acts in
          let downs' = run_all (λ ji. phase2 acts' (get_or js ji no_job)) (sch.order 1 n) downs in
          run_all (reduce_token downs') (sch.order 2 q.tokens) out

      abbrev pub forward_many : (ℕ → ℕ → fl.Float) → ℕ → ℕ → fl.Float
      forward_many out =
          let zeroed = λ (t h : ℕ). if leb q.tokens t then out t h else fl.zero_float in
          if q.tokens == 0 || q.ranks == 0
          then out
          else if leb (length (active nel q.ids no_weight nass) * factor % 2 ^ 64) nass
          then if length (job_list nthreads) == 0
            then zeroed
            else grouped (job_list nthreads) zeroed
          else run_all direct_token (sch.order 0 q.tokens) zeroed
