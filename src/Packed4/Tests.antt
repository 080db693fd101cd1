-- ===== src/Packed4/Tests.antt =====
-- A slice over natural numbers in place of floats.
use xiaotu_moe.Base.{arith, ℕ, ◌+◌, ◌*◌, ◌/◌, ◌≡◌, ◌==◌, false, none}
use xiaotu_moe.Packed4.Slices.{gate_up_slice_batch-others}
use xiaotu_moe.MoeV2.Forward.{Floats, Call}
use xiaotu_moe.MoeV2.Sliced.{Config, Sites}
use xiaotu_moe.Packed4.Traits.{Block, gate_up_slice_batch}

abbrev numbers : Floats
numbers = record {
  Float = ℕ;
  Half = ℕ;
  zero_float = 0;
  one = 1;
  add = λ a b. a + b;
  mul = λ a b. a * b;
  div = λ a b. a / b;
  neg = λ a. a;
  exp = λ a. a;
  is_zero = λ a. a == 0;
  fp32_to_bf16 = λ a. a;
}

abbrev small_block : Block numbers (λ a. a) (λ a. a)
small_block = record {
  bytes = λ o. o + 17;
  scales = none;
  globals = none;
  junk = λ _. 5;
  group_n = 1;
  group_k = 2;
}

abbrev two_nodes : Config
two_nodes = record {
  inter = 4;
  hidden = 2;
  nthreads = 8;
  nshard = 2;
  ncgu = 0;
  ncd = 0;
  shardsplit = 0;
  split_disabled = false;
}

abbrev two_tokens : Call numbers
two_tokens = record {
  tokens = 2;
  ranks = 1;
  ids = λ i. i;
  weight = λ i. i + 1;
  input = λ t i. t + i;
}

-- The regions of both nodes.
abbrev regions : Sites (Block numbers (λ a. a) (λ a. a))
regions = record { shard = λ _. small_block; for_worker = λ _. small_block }

gate_up_slice_batch-others_example :
    (gate_up_slice_batch numbers
        (λ a. a)
        (λ a. a)
        small_block
        2
        (λ i k. i + k)
        4
        2
        1
        1
        3
        (λ _ _. 9)
        1
        3
      ≡ 9)
    × (gate_up_slice_batch numbers
          (λ a. a)
          (λ a. a)
          small_block
          2
          (λ i k. i + k)
          4
          2
          1
          1
          3
          (λ _ _. 9)
          1
          (4 + 3)
        ≡ 9)
gate_up_slice_batch-others_example =
    gate_up_slice_batch-others numbers (λ a. a) (λ a. a) small_block 2 (λ i k. i + k) 4 2 1 1 3
      (λ _ _. 9) 1 3 (omega arith) (λ h. omega (arith, h.1))
