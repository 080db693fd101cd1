-- ===== src/Bf16/Convert.antt =====
-- bf16_to_fp32 and fp32_to_bf16 on bit patterns (bf16_gemm.hpp, lines 45-62).
use xiaotu_moe.Base.{ℕ, ◌+◌, ◌*◌, ◌/◌, ◌%◌, ◌^◌, ◌≤◌, ◌<◌, ◌≡◌, arith, List, [], ◌∷◌}

abbrev pub bf16_to_fp32 : ℕ → ℕ
bf16_to_fp32 b = b * 2 ^ 16 % 2 ^ 32

abbrev pub fp32_to_bf16 : ℕ → ℕ
fp32_to_bf16 u = (u + 32767 + u / 2 ^ 16 % 2) % 2 ^ 32 / 2 ^ 16

abbrev pub convert_f32_to_bf16 : List ℕ → List ℕ
convert_f32_to_bf16 [] = []
convert_f32_to_bf16 (u ∷ us) = fp32_to_bf16 u ∷ convert_f32_to_bf16 us

-- Every bf16 pattern survives the way through fp32, whatever it stands for.
pub fp32_to_bf16-bf16_to_fp32 : (b : ℕ) → b < 2 ^ 16 → fp32_to_bf16 (bf16_to_fp32 b) ≡ b
fp32_to_bf16-bf16_to_fp32 b h = omega arith

-- An fp32 pattern below the last half step is rounded to a nearest bf16 pattern: the two are at
-- most half a step of 2^16 apart, and a pattern half way between two goes to the even one.
pub fp32_to_bf16-nearest :
    (u : ℕ)
    → u + 2 ^ 15 < 2 ^ 32
    → (u ≤ bf16_to_fp32 (fp32_to_bf16 u) + 2 ^ 15)
      × (bf16_to_fp32 (fp32_to_bf16 u) ≤ u + 2 ^ 15)
      × (u % 2 ^ 16 ≡ 2 ^ 15 → fp32_to_bf16 u % 2 ≡ 0)
fp32_to_bf16-nearest u h = (omega arith, omega arith, λ e. omega arith)
