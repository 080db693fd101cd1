-- ===== src/Fp8/Tests.antt =====
-- The products over natural numbers in place of floats.
use xiaotu_moe.Base.{arith, ℕ, ◌+◌, ◌*◌, ◌/◌, ◌≡◌, ◌==◌, true, none, some}
use xiaotu_moe.MoeV2.Forward.{Floats}
use xiaotu_moe.Fp8.E4m3.{e4m3_to_fp32_scalar, e4m3_magnitude, decoded}
use xiaotu_moe.Fp8.Traits.{Block, gate_up}
use xiaotu_moe.Fp8.Scales.{unscaled-eq-ones}

abbrev numbers : Floats
numbers = record {
  Float = ℕ;
  Half = ℕ;
  zero_float = 0;
  one = 1;
  add = λ a b. a + b;
  mul = λ a b. a * b;
  div = λ a b. a / b;
  neg = λ a. a;
  exp = λ a. a;
  is_zero = λ a. a == 0;
  fp32_to_bf16 = λ a. a;
}

abbrev bare : Block numbers (λ a. a) (λ a. a)
bare = record { bytes = λ o. o + 1; scales = none; group_n = 2; group_k = 2 }

abbrev with_ones : Block numbers (λ a. a) (λ a. a)
with_ones = record { bytes = λ o. o + 1; scales = some (λ _. 1); group_n = 2; group_k = 2 }

unscaled-eq-ones_example :
    gate_up numbers (λ a. a) (λ a. a) bare (λ _. 7) (λ k. k + 1) 2 3 1 3
    ≡ gate_up numbers (λ a. a) (λ a. a) with_ones (λ _. 7) (λ k. k + 1) 2 3 1 3
unscaled-eq-ones_example =
    unscaled-eq-ones numbers (λ a. a) (λ a. a) (λ o. o + 1) 2 2 (λ _. 7) (λ k. k + 1) 2 3 1 3
      (omega arith)

decoded_example :
    ((e4m3_to_fp32_scalar (1 * 128 + 60)).negative ≡ true)
    × ((e4m3_to_fp32_scalar (1 * 128 + 60)).units * 1 ≡ e4m3_magnitude 60)
decoded_example = decoded 1 60 (omega arith) (omega arith)
