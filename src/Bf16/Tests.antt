-- ===== src/Bf16/Tests.antt =====
-- Patterns of 1.0 and of a number half way between two bf16 numbers; products over natural numbers.
use xiaotu_moe.Base.{arith, ℕ, ◌+◌, ◌*◌, ◌/◌, ◌%◌, ◌≤◌, ◌<◌, ◌≡◌, ◌==◌, ◌^◌}
use xiaotu_moe.Bf16.Matmul.{Floats, avx2, avx512, matmul_bf16, scalar_sum}
use xiaotu_moe.Bf16.Product.{matmul_bf16-scalar_sum}
use xiaotu_moe.Bf16.Engine.{Maths, engine_floats, bf16_weights, row_weights}
use xiaotu_moe.Bf16.EngineResult.{forward_many-rows}
use xiaotu_moe.MoeV2.Forward.{Call, forward_many}
use xiaotu_moe.MoeV2.Results.{expected}
use xiaotu_moe.MoeV2.Serial.{serial}
use xiaotu_moe.Bf16.Convert.{bf16_to_fp32, fp32_to_bf16, fp32_to_bf16-nearest}

fp32_to_bf16-nearest_example :
    (1065385984 ≤ bf16_to_fp32 (fp32_to_bf16 1065385984) + 2 ^ 15)
    × (bf16_to_fp32 (fp32_to_bf16 1065385984) ≤ 1065385984 + 2 ^ 15)
    × (1065385984 % 2 ^ 16 ≡ 2 ^ 15 → fp32_to_bf16 1065385984 % 2 ≡ 0)
fp32_to_bf16-nearest_example = fp32_to_bf16-nearest 1065385984 (omega arith)

abbrev numbers : Floats
numbers = record {
  Float = ℕ;
  float_zero = 0;
  of_bits = λ u. u / 2 ^ 16;
  add = λ a b. a + b;
  mul = λ a b. a * b;
  fmadd = λ a b c. a * b + c;
}

-- Rows of 19 elements: two vectors of AVX2 and three more.
matmul_bf16-scalar_sum_example :
    ((i j : ℕ)
      → i < 2
      → j < 3
      → matmul_bf16 numbers (λ o. o + 1) (λ o. o + 2) avx2 2 3 19 (λ _. 7) (i * 3 + j)
        ≡ scalar_sum numbers (λ o. o + 1) (λ o. o + 2) (i * 19) (j * 19) 0 19)
    × ((o : ℕ)
        → 2 * 3 ≤ o
        → matmul_bf16 numbers (λ o. o + 1) (λ o. o + 2) avx2 2 3 19 (λ _. 7) o ≡ 7)
matmul_bf16-scalar_sum_example =
    matmul_bf16-scalar_sum numbers (λ o. o + 1) (λ o. o + 2) (λ _ _ _. omega arith)
      (λ _ _. omega arith) (λ _. omega arith) (λ _ _ _. omega arith) avx2 2 3 19 (λ _. 7)

abbrev maths : Maths ℕ
maths = record {
  one = 1;
  div = λ a b. a / b;
  neg = λ a. a;
  exp = λ a. a;
  is_zero = λ a. a == 0;
  bits = λ a. a * 2 ^ 16;
}

-- Two tokens of two ranks over two experts.
abbrev small_call : Call (engine_floats numbers maths)
small_call = record {
  tokens = 2;
  ranks = 2;
  ids = λ i. i % 2;
  weight = λ i. i + 1;
  input = λ t i. t + i;
}

forward_many-rows_example :
    forward_many
      (engine_floats numbers maths)
      (bf16_weights numbers maths (λ o. o + 1) (λ o. o + 2) 3 17 avx512 (λ _. 9))
      2
      small_call
      serial
      8
      8
      (λ _ _. 4)
      (λ _ _. 5)
      (λ _ _. 7)
      1
      16
    ≡ expected
        (engine_floats numbers maths)
        (row_weights numbers maths (λ o. o + 1) (λ o. o + 2) 3 17)
        2
        small_call
        1
        16
forward_many-rows_example =
    forward_many-rows numbers (λ _ _ _. omega arith) (λ _ _. omega arith) (λ _. omega arith)
      (λ _ _ _. omega arith) maths avx512 (λ o. o + 1) (λ o. o + 2) 3 17 (λ _. 9) 2 small_call
      serial 8 8 (λ _ _. 4) (λ _ _. 5) (omega arith) (λ _ _. 7) 1 16 (omega arith) (omega arith)
