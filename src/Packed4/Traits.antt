-- ===== src/Packed4/Traits.antt =====
-- Packed4WeightTraitsBase: the products of one expert and their slices (moe_v2_packed4.hpp, lines
-- 647-827).
use xiaotu_moe.Base.{ℕ, ◌+◌, ◌-◌, ◌*◌, ◌/◌, ◌==◌, leb, if◌then◌else◌, Option, none, some}
use xiaotu_moe.MoeV2.Forward.{Floats}
use xiaotu_moe.Packed4.Kernel.{at_least_one_group, clamp_end, matmul_packed4_group}

-- The weight blocks of an engine, the scales as floats whether they are stored as fp32 or as e8m0
-- bytes; `w13_scale` and the like are none for a null pointer. `junk` is
-- what lies in memory behind the one-element array `ones`.
module _ (fl : Floats) (bf16_to_fp32 : fl.Half → fl.Float) (lut : ℕ → fl.Float) where
  pub record Block : Type 0 where
    pub bytes : ℕ → ℕ
    pub scales : Option (ℕ → fl.Float)
    pub globals : Option (ℕ → fl.Float)
    pub junk : ℕ → fl.Float
    pub group_n : ℕ
    pub group_k : ℕ

  -- The expert's scales, in elements: the block count of `n` rows and `k` columns.
  abbrev pub block_scales : Block → (n k eid : ℕ) → ℕ → fl.Float
  block_scales b n k eid =
      let gn = at_least_one_group b.group_n in
      let gk = at_least_one_group b.group_k in
      elim b.scales [
        | none ↦ λ i. if i == 0 then fl.one else b.junk i
        | some s ↦ λ i. s (eid * ((n + gn - 1) / gn * ((k + gk - 1) / gk)) + i)
      ]

  abbrev pub global_scale : Block → ℕ → fl.Float
  global_scale b eid = elim b.globals [ none ↦ fl.one | some g ↦ g eid ]

  -- A call of the kernel on expert eid of a block of n rows and k columns.
  abbrev pub expert_matmul :
      Block
      → (ℕ → ℕ → fl.Half)
      → (m n k eid n0 : ℕ) → Option ℕ
      → (ℕ → ℕ → fl.Float)
      → ℕ
      → ℕ
      → fl.Float
  expert_matmul b a m n k eid n0 n1 c =
      matmul_packed4_group fl bf16_to_fp32 lut a (λ o. b.bytes (eid * n * (k / 2) + o))
        (block_scales b n k eid) (global_scale b eid) m n k b.group_n b.group_k n0 n1 c

  -- gate and up are the two halves of the 2 * inter rows; `both` starts zeroed.
  abbrev pub gate_up : Block → (ℕ → fl.Half) → (inter hidden eid : ℕ) → ℕ → fl.Float
  gate_up b x inter hidden eid =
      expert_matmul b (λ _. x) 1 (2 * inter) hidden eid 0 none (λ _ _. fl.zero_float) 0

  abbrev pub gate_up_slice_batch :
      Block
      → (me : ℕ) → (ℕ → ℕ → fl.Half)
      → (inter hidden eid n0 n1 : ℕ) → (ℕ → ℕ → fl.Float)
      → ℕ
      → ℕ
      → fl.Float
  gate_up_slice_batch b me xg inter hidden eid n0 n1 both =
      let end = clamp_end (some n1) inter in
      if me == 0
      then both
      else if leb end n0
      then both
      else expert_matmul b xg me (2 * inter) hidden eid (inter + n0) (some (inter + end))
          (expert_matmul b xg me (2 * inter) hidden eid n0 (some end) both)

  -- The slice of a single instance.
  abbrev pub gate_up_slice :
      Block → (ℕ → fl.Half) → (inter hidden eid n0 n1 : ℕ) → (ℕ → ℕ → fl.Float) → ℕ → ℕ → fl.Float
  gate_up_slice b x = gate_up_slice_batch b 1 (λ _. x)

  abbrev pub down : Block → (ℕ → fl.Half) → (hidden inter eid : ℕ) → (ℕ → fl.Float) → ℕ → fl.Float
  down b a hidden inter eid out = expert_matmul b (λ _. a) 1 hidden inter eid 0 none (λ _. out) 0

  abbrev pub down_slice_batch :
      Block
      → (me : ℕ) → (ℕ → ℕ → fl.Half)
      → (hidden inter eid n0 n1 : ℕ) → (ℕ → ℕ → fl.Float)
      → ℕ
      → ℕ
      → fl.Float
  down_slice_batch b me actg hidden inter eid n0 n1 out =
      let end = clamp_end (some n1) hidden in
      if me == 0
      then out
      else if leb end n0
      then out
      else expert_matmul b actg me hidden inter eid n0 (some end) out

  abbrev pub down_slice :
      Block → (ℕ → fl.Half) → (hidden inter eid n0 n1 : ℕ) → (ℕ → ℕ → fl.Float) → ℕ → ℕ → fl.Float
  down_slice b a = down_slice_batch b 1 (λ _. a)
