-- ===== src/MoeV2/Tests.antt =====
-- The forward pass over natural numbers in place of floats.
use xiaotu_moe.Base.{arith, ℕ, ◌+◌, ◌*◌, ◌/◌, ◌<◌, ◌≡◌, ◌==◌, get_or, [], ◌∷◌}
use xiaotu_moe.MoeV2.Forward.{Floats, Weights, Call, forward_many}
use xiaotu_moe.MoeV2.Spans.{chunk_span, shard_span}
use xiaotu_moe.MoeV2.Partition.{Holds, rows_computed_once}
use xiaotu_moe.MoeV2.Serial.{serial}
use xiaotu_moe.MoeV2.Results.{expected, forward_many-expected}

abbrev pub numbers : Floats
numbers = record {
  Float = ℕ;
  Half = ℕ;
  zero_float = 0;
  one = 1;
  add = λ a b. a + b;
  mul = λ a b. a * b;
  div = λ a b. a / b;
  neg = λ a. a;
  exp = λ a. a;
  is_zero = λ a. a == 0;
  fp32_to_bf16 = λ a. a;
}

-- Two rows of two.
abbrev pub small_weights : Weights numbers
small_weights = record {
  gate = λ x e i. x 0 + e + i;
  up = λ x e i. x 1 + e * i;
  down = λ a e h. a 0 + a 1 * (h + e);
}

-- Two tokens of two ranks over three experts; token 0 has one rank of weight 0.
abbrev pub small_call : Call numbers
small_call = record {
  tokens = 2;
  ranks = 2;
  ids = λ i. get_or (2 ∷ 1 ∷ 1 ∷ 0 ∷ []) i 0;
  weight = λ i. get_or (3 ∷ 0 ∷ 2 ∷ 1 ∷ []) i 0;
  input = λ t i. t + i + 1;
}

forward_many-expected_example :
    forward_many numbers small_weights 3 small_call serial 8 8 (λ _ _. 9) (λ _ _. 9) (λ _ _. 7) 1
    ≡ expected numbers small_weights 3 small_call 1
forward_many-expected_example =
    forward_many-expected numbers small_weights 3 small_call serial 8 8 (λ _ _. 9) (λ _ _. 9)
      (omega arith) (λ _ _. 7) 1 (omega arith)

rows_computed_once_example :
    ((n : ℕ) × (s : ℕ) × (n < 2)
      × (s < 3)
      × Holds 5 (shard_span 8 2 3 n s)
      × ((m r : ℕ) → m < 2 → r < 3 → Holds 5 (shard_span 8 2 3 m r) → (m ≡ n) × (r ≡ s)))
    × ((c : ℕ) × (c < 4)
        × Holds 5 (chunk_span 8 4 c)
        × ((d : ℕ) → Holds 5 (chunk_span 8 4 d) → d ≡ c))
rows_computed_once_example =
    rows_computed_once 8 2 3 4 5 (omega arith) (omega arith) (omega arith) (omega arith)
