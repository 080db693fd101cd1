-- ===== src/MoeV2/ConstructTests.antt =====
-- MOE_V2's constructor on two nodes: small blocks, and a missing block.
use xiaotu_moe.Base.{
  refl, arith, ◌+◌, ◌*◌, ◌/◌, ◌≡◌, ◌==◌, true, false, not, Option, none, some, ◌⊎◌, ◌↔◌,
}
use xiaotu_moe.MoeV2.Construct.{Bytes, Config, Trait, Host, Given, Engine, construct, copies_had}
use xiaotu_moe.MoeV2.Constructed.{HasDims, Serves, construct-Serves}
use xiaotu_moe.MoeV2.Throws.{construct-throws}

abbrev trait : Trait
trait = record {
  n_parallel = true;
  e8m0 = false;
  w13_bytes = λ experts n2 hidden. experts * n2 * (hidden / 2);
  w2_bytes = λ experts hidden inter. experts * hidden * (inter / 2);
}

-- Two nodes; the second replica of a block cannot be had, nor a copy of w2.
abbrev host : Host
host = record {
  single_copy = false;
  no_shard = false;
  numa_node_count = 2;
  numa_socket_count = 2;
  region_w13 = λ _. true;
  region_w2 = λ _. true;
  numa_socket_alloc = λ block socket. socket == 0;
  make_unique = λ block. not (block == 1);
}

abbrev small : Config
small = record {
  expert_num = 2;
  top_k = 1;
  hidden_size = 4;
  intermediate_size = 6;
  group_n = 0;
  group_k = 2;
}

abbrev blocks : Option Bytes → Given
blocks w2 = record {
  w13 = some (λ o. o + 1);
  w2 = w2;
  w13_g = some (λ o. o * 3);
  w2_g = none;
  w13_gs = none;
  w2_gs = some (λ _. 5);
}

small-HasDims : HasDims trait host small
unfolding HasDims
small-HasDims = (omega arith, omega arith, omega arith, omega arith)

construct-Serves_example :
    (e : Engine) × (construct trait host small (blocks (some (λ o. o + 2))) ≡ some e)
    × Serves trait host small (blocks (some (λ o. o + 2))) (λ o. o + 1) (λ o. o + 2) e
construct-Serves_example =
    construct-Serves trait host small (blocks (some (λ o. o + 2))) (λ o. o + 1) (λ o. o + 2)
      small-HasDims refl refl refl

construct-throws_example : (construct trait host small (blocks none) ≡ none) ↔ (
    (¬ HasDims trait host small)
    ⊎ ((((blocks none).w13 ≡ none) ⊎ ((blocks none).w2 ≡ none))
        ⊎ (copies_had trait host small (blocks none) ≡ false)))
construct-throws_example = construct-throws trait host small (blocks none)
