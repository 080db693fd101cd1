-- ===== src/Bf16/Engine.antt =====
-- MOE_V2<BF16WeightTraits>: forward_many with the weights of BF16WeightTraits (moe_v2.hpp, lines
-- 175-206 and 420-594).
use xiaotu_moe.Base.{ℕ, ◌+◌, ◌*◌, Bool}
use xiaotu_moe.MoeV2.Forward.{Floats, Weights}
use xiaotu_moe.Bf16.Convert.{fp32_to_bf16}
use xiaotu_moe.Bf16.Matmul as Kernel
use xiaotu_moe.Bf16.Matmul.{Isa, scalar_sum}
use xiaotu_moe.Bf16.Traits.{gate_up_impl, down_impl}

-- The other float operations of forward_many; `bits` is the pattern of a float.
pub record Maths (Float : Type 0) : Type 0 where
  pub one : Float
  pub div : Float → Float → Float
  pub neg : Float → Float
  pub exp : Float → Float
  pub is_zero : Float → Bool
  pub bits : Float → ℕ

abbrev pub engine_floats : (fl : Kernel.Floats) → Maths fl.Float → Floats
engine_floats fl ma = record {
  Float = fl.Float;
  Half = ℕ;
  zero_float = fl.float_zero;
  one = ma.one;
  add = fl.add;
  mul = fl.mul;
  div = ma.div;
  neg = ma.neg;
  exp = ma.exp;
  is_zero = ma.is_zero;
  fp32_to_bf16 = λ x. fp32_to_bf16 (ma.bits x);
}

module _ (fl : Kernel.Floats) (ma : Maths fl.Float) (w13 w2 : ℕ → ℕ) (inter hidden : ℕ) where
  -- The weights of BF16WeightTraits; `stale` is what the output buffers hold before.
  abbrev pub bf16_weights : Isa → (ℕ → fl.Float) → Weights (engine_floats fl ma)
  bf16_weights path stale = record {
    gate = λ x eid. (gate_up_impl fl path x w13 stale stale inter hidden eid).0;
    up = λ x eid. (gate_up_impl fl path x w13 stale stale inter hidden eid).1;
    down = λ a eid. down_impl fl path a w2 stale hidden inter eid;
  }

  -- The products with the rows of the blocks, as sums in order.
  abbrev pub row_weights : Weights (engine_floats fl ma)
  row_weights = record {
    gate = λ x eid i. scalar_sum fl x w13 0 ((eid * (2 * inter) + i) * hidden) 0 hidden;
    up = λ x eid i. scalar_sum fl x w13 0 ((eid * (2 * inter) + (inter + i)) * hidden) 0 hidden;
    down = λ a eid h. scalar_sum fl a w2 0 ((eid * hidden + h) * inter) 0 inter;
  }
