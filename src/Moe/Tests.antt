-- ===== src/Moe/Tests.antt =====
-- Concrete instances.
use xiaotu_moe.Base.{
  refl, ap, ◌∙◌, arith, ℕ, ◌+◌, ◌*◌, ◌%◌, ◌≤◌, ◌<◌, ◌≡◌, ◌==◌, loop, loop-congr, true, List, some,
}
use native.Mathlib.Nat.{mod-lt}
use xiaotu_moe.Layers.Serial.{in_order}
use xiaotu_moe.Moe.Kernels.{Ggml}
use xiaotu_moe.Moe.Forward.{Moe, Args, Inputs, Buffers, forward_many_m}
use xiaotu_moe.Moe.Expected.{Matrices, expected}
use xiaotu_moe.Moe.Built.{
  construct, Shape, construct-expected, forward-expected, forward_one-forward_many_m,
}
use xiaotu_moe.Moe.One.{forward_one}
use xiaotu_moe.Moe.Batch.{Setting, run_calls}
use xiaotu_moe.Layers.Batches.{Batch, forward}
use xiaotu_moe.Moe.Workers.{on_workers, forward-on_workers}
use xiaotu_moe.Layers.Finished.{any-Finished}
use xiaotu_moe.Layers.Jobs.{Dispatch}
use xiaotu_moe.Backend.RunTests.{three, three-Mans}
use xiaotu_moe.Moe.Slots.{slots_ordered}
use xiaotu_moe.Moe.Reorder.{slot, selection, reorder_offset}
use xiaotu_moe.Backend.RunTests

pub equal_numbers : (a b : ℕ) → (a == b) ≡ true → a ≡ b
equal_numbers a b e = ground (arith, e)

pub equal_self : (a : ℕ) → (a == a) ≡ true
equal_self a = ground arith

-- Whole numbers for the floats, and one element to a block of every type.
abbrev pub numbers : Ggml
numbers = record {
  Float = ℕ;
  one = 1;
  add = λ a b. a + b;
  mul = λ a b. a * b;
  div = λ a b. a;
  neg = λ a. a;
  exp = λ a. a;
  DataType = ℕ;
  same = λ a b. a == b;
  same_eq = equal_numbers;
  same_refl = equal_self;
  Block = ℕ;
  blck_size = λ _. 1;
  blck_size_pos = λ _. omega arith;
  vec_dot_type = λ _. 1;
  blck_size-vec_dot_type = λ _. refl;
  to_float = λ _ x i. x i;
  from_float = λ _ x b. x b;
  to_float_shift = λ t x c h. ap x (omega arith);
  from_float_reads = λ t x y b h.
      ap x (omega arith) ∙ h 0 (omega arith) ∙ ap y {x = b * 1 + 0} {y = b} (omega arith);
  from_float_shift = λ t x c b. ap x (omega arith);
  dot = λ _ _ n a x. loop n (λ b s. s + a b * x b) 0;
  dot_reads = λ w v n a x y h. loop-congr n _ _ (λ b l s. ap (λ z. s + a b * z) (h b l)) 0;
}

-- Two experts on two nodes, blocks of one row.
abbrev small : Moe numbers
small = record {
  expert_num = 2;
  hidden_size = 3;
  intermediate_size = 2;
  stride = 1;
  numa_nodes = 2;
  hidden_type = 0;
  gate_type = 2;
  up_type = 2;
  down_type = 2;
  gate_numa = λ _ _ _ _. 0;
  up_numa = λ _ _ _ _. 0;
  down_numa = λ _ _ _ _. 0;
}

abbrev two_tokens : Args numbers
two_tokens = record {
  qlen = 2;
  k = 2;
  ids = λ a. a % 2;
  weights = λ a. a + 1;
  input = λ t i. t + i;
}

abbrev some_matrices : Matrices numbers
some_matrices = record {
  gate_proj = λ r i. r + i;
  up_proj = λ r i. r * i;
  down_proj = λ r i. r + 2 * i;
}

small-Shape : Shape numbers small two_tokens
small-Shape = record {
  some_node = omega arith;
  some_stride = omega arith;
  some_rank = omega arith;
  acts_whole = refl;
  hidden_whole = refl;
  down_blocks = refl;
  hidden_blocks = refl;
  out_blocks = refl;
  ids_lt = λ a _. omega (arith, mod-lt a {m = 2} (omega arith));
}

abbrev no_inputs : Inputs numbers
no_inputs = record { gate_input = λ _ _. 0; up_input = λ _ _. 0 }

abbrev no_buffers : Buffers numbers
no_buffers = record { gate_output = λ _ _. 0; up_output = λ _ _. 0; down_input = λ _ _. 0 }

construct-expected_example :
    forward_many_m numbers
      (construct numbers small some_matrices (in_order 2 (omega arith)))
      two_tokens
      (in_order 2 (omega arith))
      no_inputs
      no_inputs
      no_buffers
      (λ _ _. 0)
      (λ _ _. 0)
      1
      2
    ≡ expected numbers small two_tokens some_matrices 1 2
construct-expected_example =
    construct-expected numbers small two_tokens some_matrices small-Shape (in_order 2 (omega arith))
      (in_order 2 (omega arith)) no_inputs no_inputs no_buffers (λ _ _. 0) (λ _ _. 0) 1 2
      (omega arith) (omega arith)

abbrev two_nodes : Moe numbers
two_nodes = construct numbers small some_matrices (in_order 2 (omega arith))

abbrev some_setting : ℕ → Setting numbers two_nodes
some_setting _ = record {
  rows = no_inputs;
  ordered = no_inputs;
  bufs = no_buffers;
  downs = λ _ _. 7;
  dispatch = in_order 2 (omega arith);
}

forward-expected_example :
    (bs : List Batch) × (forward 2 1 1 4 2 ≡ some bs)
    × ((out : ℕ → ℕ → ℕ) (t b : ℕ)
        → t < 2
        → b < 3
        → run_calls numbers two_nodes two_tokens some_setting bs out t b
          ≡ expected numbers small two_tokens some_matrices t b)
forward-expected_example =
    forward-expected numbers small two_tokens some_matrices small-Shape (in_order 2 (omega arith))
      (in_order 2 (omega arith)) 2 1 1 4 (omega arith) (omega arith) some_setting

abbrev one_token : Args numbers
one_token = record two_tokens { qlen = 1 }

one_token-Shape : Shape numbers small one_token
one_token-Shape = record {
  some_node = omega arith;
  some_stride = omega arith;
  some_rank = omega arith;
  acts_whole = refl;
  hidden_whole = refl;
  down_blocks = refl;
  hidden_blocks = refl;
  out_blocks = refl;
  ids_lt = λ a _. omega (arith, mod-lt a {m = 2} (omega arith));
}

forward_one-forward_many_m_example :
    (forward_one numbers two_nodes one_token
        (in_order 2 (omega arith))
        no_buffers
        (λ _ _. 7)
        (λ _ _. 0)
        0
        2
      ≡ expected numbers small one_token some_matrices 0 2)
    × (forward_one numbers two_nodes one_token
          (in_order 2 (omega arith))
          no_buffers
          (λ _ _. 7)
          (λ _ _. 0)
          0
          2
        ≡ forward_many_m numbers two_nodes one_token
            (in_order 2 (omega arith))
            no_inputs
            no_inputs
            no_buffers
            (λ _ _. 0)
            (λ _ _. 0)
            0
            2)
forward_one-forward_many_m_example =
    forward_one-forward_many_m numbers small one_token some_matrices one_token-Shape
      (in_order 2 (omega arith)) (in_order 2 (omega arith)) refl no_inputs no_inputs no_buffers
      no_buffers (λ _ _. 0) (λ _ _. 7) (λ _ _. 0) 2 (omega arith)

slots_ordered_example :
    (slot (λ a. a % 3) 6 4 < 6)
    × (slot (λ a. a % 3) 6 4 ≡ slot (λ a. a % 3) 6 1 → ◌≡◌ {A = ℕ} 4 1)
    × (reorder_offset (λ a. a % 3) 6 1 ≤ slot (λ a. a % 3) 6 4)
    × (slot (λ a. a % 3) 6 4
        < reorder_offset (λ a. a % 3) 6 1 + (selection (λ a. a % 3) 6).selected 1)
slots_ordered_example =
    slots_ordered (λ a. a % 3) 3 6 (λ a _. mod-lt a {m = 3} (omega arith)) 4 1 (omega arith)
      (omega arith)

expected_runs : expected numbers small two_tokens some_matrices 1 2 ≡ 25216
expected_runs = refl

-- Dispatches from finished jobs of three threads on two nodes.
abbrev on_three : Dispatch 2
on_three =
    on_workers three RunTests.two_nodes (omega arith, (omega arith, tt)) three-Mans 2 refl
      (omega arith)
      (λ _. any-Finished three RunTests.two_nodes (omega arith) (omega arith, (omega arith, tt)))

abbrev built_on_three : Moe numbers
built_on_three = construct numbers small some_matrices on_three

abbrev any_buffers : Dispatch 2 → ℕ → Setting numbers built_on_three
any_buffers d _ = record {
  rows = no_inputs;
  ordered = no_inputs;
  bufs = no_buffers;
  downs = λ _ _. 5;
  dispatch = d;
}

forward-on_workers_example :
    (bs : List Batch) × (forward 2 1 1 4 2 ≡ some bs)
    × ((out : ℕ → ℕ → ℕ) (t b : ℕ)
        → t < 2
        → b < 3
        → run_calls numbers built_on_three two_tokens (any_buffers on_three) bs out t b
          ≡ expected numbers small two_tokens some_matrices t b)
forward-on_workers_example =
    forward-on_workers three RunTests.two_nodes (omega arith, (omega arith, tt)) three-Mans numbers
      small two_tokens some_matrices small-Shape refl
      (λ _. any-Finished three RunTests.two_nodes (omega arith) (omega arith, (omega arith, tt)))
      (λ _ _. any-Finished three RunTests.two_nodes (omega arith) (omega arith, (omega arith, tt)))
      (any_buffers (in_order 2 (omega arith))) 2 1 1 4 (omega arith) (omega arith)
