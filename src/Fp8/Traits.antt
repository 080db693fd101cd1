-- ===== src/Fp8/Traits.antt =====
-- FP8WeightTraits and matmul_fp8_quant on the path without vector instructions (moe_v2_fp8.hpp,
-- lines 38-42, 85-97 and 111-159). Memory is a function of the offset.
use xiaotu_moe.Base.{ℕ, ◌+◌, ◌-◌, ◌*◌, ◌/◌, ltb, if◌then◌else◌, loop, Option, none, some}
use xiaotu_moe.MoeV2.Forward.{Floats}

abbrev pub group : ℕ → ℕ
group g = if ltb 0 g then g else 1

-- The number of blocks of `rows` rows, g to a block.
abbrev pub blocks : ℕ → ℕ → ℕ
blocks rows g = (rows + g - 1) / g

module _ (fl : Floats) (bf16_to_fp32 : fl.Half → fl.Float) (e4m3_to_fp32 : ℕ → fl.Float) where
  -- Element j of the product of one row of activations.
  abbrev pub matmul_fp8_quant :
      (ℕ → fl.Half) → (ℕ → ℕ) → (ℕ → fl.Float) → (k group_n group_k j : ℕ) → fl.Float
  matmul_fp8_quant a w s k group_n group_k j =
      loop k
        (λ e acc. fl.add acc (
          fl.mul (fl.mul (bf16_to_fp32 (a e)) (e4m3_to_fp32 (w (j * k + e))))
            (s (j / group group_n * blocks k (group group_k) + e / group group_k))))
        fl.zero_float

  -- A block of weights; the scales are none for a null pointer.
  pub record Block : Type 0 where
    pub bytes : ℕ → ℕ
    pub scales : Option (ℕ → fl.Float)
    pub group_n : ℕ
    pub group_k : ℕ

  -- The scales of expert eid: of n rows and k columns. Without scales a vector of as many ones as
  -- there are blocks; `junk` is what lies behind it.
  abbrev pub expert_scales : Block → (ℕ → fl.Float) → (n k eid : ℕ) → ℕ → fl.Float
  expert_scales b junk n k eid =
      let count = blocks n (group b.group_n) * blocks k (group b.group_k) in
      elim b.scales [
        | none ↦ λ i. if ltb i count then fl.one else junk i
        | some s ↦ λ i. s (eid * count + i)
      ]

  -- `both`: the gate rows below inter, then the up rows.
  abbrev pub gate_up :
      Block → (ℕ → fl.Float) → (ℕ → fl.Half) → (inter hidden eid : ℕ) → ℕ → fl.Float
  gate_up b junk x inter hidden eid =
      matmul_fp8_quant x (λ o. b.bytes (eid * (2 * inter) * hidden + o))
        (expert_scales b junk (2 * inter) hidden eid) hidden b.group_n b.group_k

  abbrev pub down : Block → (ℕ → fl.Float) → (ℕ → fl.Half) → (hidden inter eid : ℕ) → ℕ → fl.Float
  down b junk a hidden inter eid =
      matmul_fp8_quant a (λ o. b.bytes (eid * hidden * inter + o))
        (expert_scales b junk hidden inter eid) inter b.group_n b.group_k
