-- ===== src/Bf16/EngineResult.antt =====
-- forward_many on bf16 weights against the rows of the blocks (moe_v2.hpp, lines 175-206 and
-- 420-594).
use xiaotu_moe.Base.{
  refl, sym, ap, ◌∙◌, arith, ℕ, suc, ◌+◌, ◌*◌, ◌/◌, ◌≤◌, ◌<◌, ◌≡◌, Bool, loop-agree, if◌then◌else◌,
  true, false,
}
use xiaotu_moe.MoeV2.Forward.{Weights, Call, Schedule, forward_many}
use xiaotu_moe.MoeV2.Routing.{routed}
use xiaotu_moe.MoeV2.Results.{expected, expert_output, forward_many-expected}
use xiaotu_moe.Bf16.Convert.{fp32_to_bf16, bf16_to_fp32}
use xiaotu_moe.Bf16.Matmul.{Floats, Isa, scalar_sum, product}
use xiaotu_moe.Bf16.Traits.{bf16_weights-rows}
use xiaotu_moe.Bf16.Engine.{Maths, engine_floats, bf16_weights, row_weights}

-- Two conditional steps that agree on a cell where they are taken.
if-agree {ℓ κ} :
    {S : Type ℓ} {A : Type κ} (cell : S → A) (b : Bool) (x y s r : S)
    → cell x ≡ cell y
    → cell s ≡ cell r
    → cell (if b then x else s) ≡ cell (if b then y else r)
if-agree cell true x y s r p q = p
if-agree cell false x y s r p q = q

-- A sum reads only the elements of its row.
scalar_sum-reads :
    (fl : Floats) (a a' b : ℕ → ℕ) (br n : ℕ)
    → ((i : ℕ) → i < n → a i ≡ a' i)
    → scalar_sum fl a b 0 br 0 n ≡ scalar_sum fl a' b 0 br 0 n
scalar_sum-reads fl a a' b br n h =
    loop-agree (λ x. x) n _ _
      (λ i il s r e.
        ap (λ x. fl.add x (product fl a b 0 br (0 + i))) e ∙ ap (fl.add r) (product-reads i il))
      fl.float_zero fl.float_zero refl
  where
    product-reads : (i : ℕ) → i < n → product fl a b 0 br (0 + i) ≡ product fl a' b 0 br (0 + i)
    product-reads i il =
        ap
          (λ p. fl.mul (fl.of_bits (bf16_to_fp32 p)) (fl.of_bits (bf16_to_fp32 (b (br + (0 + i))))))
          (ap a (zeros i) ∙ h i il ∙ ap a' (sym (zeros i)))
      where
        zeros : (k : ℕ) → 0 + (0 + k) ≡ k
        zeros k = omega arith

module _ (fl : Floats) (assoc : (x y z : fl.Float) → fl.add (fl.add x y) z ≡ fl.add x (fl.add y z))
    (comm : (x y : fl.Float) → fl.add x y ≡ fl.add y x)
    (unit : (x : fl.Float) → fl.add x fl.float_zero ≡ x)
    (fused : (x y z : fl.Float) → fl.fmadd x y z ≡ fl.add z (fl.mul x y)) (ma : Maths fl.Float)
    (path : Isa) (w13 w2 : ℕ → ℕ) (inter hidden : ℕ) (stale : ℕ → fl.Float) (nel : ℕ)
    (q : Call (engine_floats fl ma)) where
  expert_output-rows :
      (ai h : ℕ)
      → h < hidden
      → expert_output
          (engine_floats fl ma)
          (bf16_weights fl ma w13 w2 inter hidden path stale)
          nel
          q
          ai
          h
        ≡ expert_output (engine_floats fl ma) (row_weights fl ma w13 w2 inter hidden) nel q ai h
  expert_output-rows ai h hl =
      let ef = engine_floats fl ma in
      let bf = bf16_weights fl ma w13 w2 inter hidden path stale in
      let rows = row_weights fl ma w13 w2 inter hidden in
      let eid = q.ids ai in
      let x = q.input (ai / q.ranks) in
      let act = λ (g u : fl.Float).
        fp32_to_bf16 (ma.bits (fl.mul u (ma.div g (fl.add ma.one (ma.exp (ma.neg g)))))) in
      let a = λ (w : Weights ef) (i : ℕ). act (w.gate x eid i) (w.up x eid i) in
      let (gate_up, down) =
        bf16_weights-rows fl assoc comm unit fused path x (a bf) w13 w2 stale stale stale inter
          hidden (suc eid) eid (omega arith) in
      (down h hl).0
      ∙ scalar_sum-reads fl (a bf) (a rows) w2 ((eid * hidden + h) * inter) inter (λ i il.
        let (g, u, _) = gate_up i il in
        ap (λ y. act y (bf.up x eid i)) g ∙ ap (act (rows.gate x eid i)) u)

  -- Where floats add up exactly and fmadd does not round otherwise than a product and a sum, for a
  -- call with a rank, forward_many on bf16 weights leaves at column h < hidden of a token's row what
  -- is expected of gate, up and down rows that are the sums of products in order: for every path of
  -- matmul_bf16, schedule, number of threads, grouping factor and contents of the buffers.
  pub forward_many-rows :
      (sch : Schedule) (nthreads factor : ℕ) (acts downs : ℕ → ℕ → fl.Float)
      → 1 ≤ q.ranks
      → (out : ℕ → ℕ → fl.Float) (t h : ℕ) → t < q.tokens
      → h < hidden
      → forward_many
          (engine_floats fl ma)
          (bf16_weights fl ma w13 w2 inter hidden path stale)
          nel
          q
          sch
          nthreads
          factor
          acts
          downs
          out
          t
          h
        ≡ expected (engine_floats fl ma) (row_weights fl ma w13 w2 inter hidden) nel q t h
  forward_many-rows sch nthreads factor acts downs one out t h tl hl =
      let ef = engine_floats fl ma in
      ap (λ o. o h)
        (forward_many-expected ef (bf16_weights fl ma w13 w2 inter hidden path stale) nel q sch
          nthreads factor acts downs one out t tl)
      ∙ loop-agree (λ (o : ℕ → fl.Float). o h) q.ranks _ _
          (λ r _ o o' e.
            if-agree (λ (s : ℕ → fl.Float). s h)
              (routed nel q.ids (λ ai. ma.is_zero (q.weight ai)) (t * q.ranks + r)) _ _ o o'
              (ap
                  (λ y. fl.add y (
                    fl.mul (q.weight (t * q.ranks + r)) (
                      expert_output ef (bf16_weights fl ma w13 w2 inter hidden path stale) nel q
                        (t * q.ranks + r) h)))
                  e
                ∙ ap (λ y. fl.add (o' h) (fl.mul (q.weight (t * q.ranks + r)) y))
                    (expert_output-rows (t * q.ranks + r) h hl))
              e)
          (λ _. fl.float_zero) (λ _. fl.float_zero) refl
