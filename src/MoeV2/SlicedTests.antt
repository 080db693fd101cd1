-- ===== src/MoeV2/SlicedTests.antt =====
-- forward_many_nsliced over natural numbers, with a slice kernel that reads the rows of its block.
use xiaotu_moe.Base.{
  ap, ◌∙◌, arith, ℕ, ◌+◌, ◌-◌, ◌*◌, ◌<◌, ◌≡◌, ◌&&◌, false, get_or, [], ◌∷◌, ltb, leb, if◌then◌else◌,
}
use xiaotu_moe.MoeV2.Spans.{Span, chunk_span}
use xiaotu_moe.MoeV2.Partition.{Holds}
use xiaotu_moe.MoeV2.Serial.{serial}
use xiaotu_moe.MoeV2.Routing.{regroup}
use xiaotu_moe.MoeV2.Regroup.{Regrouped, regroup-Regrouped}
use xiaotu_moe.MoeV2.Results.{expected}
use xiaotu_moe.MoeV2.Sliced.{Config, Slices, Sites, forward_many_nsliced}
use xiaotu_moe.MoeV2.SlicedJobs.{RowSlices}
use xiaotu_moe.MoeV2.SlicedPhase.{Held}
use xiaotu_moe.MoeV2.SlicedResults.{forward_many_nsliced-expected}
use xiaotu_moe.MoeV2.Tests.{numbers, small_weights, small_call}

abbrev small_config : Config
small_config = record {
  inter = 2;
  hidden = 2;
  nthreads = 8;
  nshard = 2;
  ncgu = 0;
  ncd = 0;
  shardsplit = 0;
  split_disabled = false;
}

-- A block is the span of the rows that it holds.
abbrev small_slices : Slices numbers
small_slices = record {
  Block = Span;
  gate_up_slice_batched = λ me xg b both eid n0 n1 m r.
      if ltb m me && (leb n0 r && (ltb r n1 && ltb r 2))
      then small_weights.gate (xg m) eid r
      else if ltb m me && (leb (2 + n0) r && ltb r (2 + n1))
      then small_weights.up (xg m) eid (r - 2)
      else both m r;
  down_slice_batched = λ me actg b down eid n0 n1 m h.
      if ltb m me && (leb n0 h && ltb h n1) then small_weights.down (actg m) eid h else down m h;
}

down_local :
    (a b : ℕ → ℕ) (e h : ℕ)
    → ((i : ℕ) → i < 2 → a i ≡ b i)
    → a 0 + a 1 * (h + e) ≡ b 0 + b 1 * (h + e)
down_local a b e h k =
    ap (λ x. x + a 1 * (h + e)) (k 0 (omega arith))
    ∙ ap (λ x. b 0 + x * (h + e)) (k 1 (omega arith))

abbrev small_rows : RowSlices numbers small_weights small_config small_slices
small_rows = record {
  OwnsGate = λ b i. Holds i b;
  OwnsDown = λ b i. Holds i b;
  gate_up_rows = λ me xg b both eid n0 n1 m i ml lo hi il _. (ground arith, ground arith);
  down_rows = λ me actg b down eid n0 n1 m h ml lo hi hl _. ground arith;
  down_others = λ me actg b down eid n0 n1 m h ml hl out. ground arith;
  down_local = down_local;
}

-- The shard of node n holds the row that the node owns.
abbrev small_sites : Sites Span
small_sites = record { shard = chunk_span 2 2; for_worker = λ _. record { n0 = 0; n1 = 2 } }

small-Held : Held small_config (λ b i. Holds i b) 2 small_sites
small-Held = record { by_node = λ _ n i h. h; by_worker = λ _ ji i il. (omega arith, il) }

forward_many_nsliced-expected_example :
    forward_many_nsliced numbers small_weights 3 small_config small_slices small_call
      (λ _. 5 ∷ [])
      serial
      small_sites
      small_sites
      (record { both = λ _ _ _. 8; abf16 = λ _ _ _. 9 })
      (λ _ _ _. 9)
      (λ _ _. 7)
      1
      0
    ≡ expected numbers small_weights 3 small_call 1 0
forward_many_nsliced-expected_example =
    forward_many_nsliced-expected numbers small_weights 3 small_call small_config small_slices
      small_rows (λ _. 5 ∷ []) serial small_sites small_sites small-Held small-Held
      (record { both = λ _ _ _. 8; abf16 = λ _ _ _. 9 }) (λ _ _ _. 9) (omega arith) (λ _ _. 7) 1 0
      (omega arith) (omega arith)

regroup-Regrouped_example :
    Regrouped 3
      (λ i. get_or (2 ∷ 1 ∷ 1 ∷ 2 ∷ []) i 0)
      (λ _. false)
      (λ _. 5 ∷ [])
      4
      (regroup 3 (λ i. get_or (2 ∷ 1 ∷ 1 ∷ 2 ∷ []) i 0) (λ _. false) (λ _. 5 ∷ []) 4)
regroup-Regrouped_example =
    regroup-Regrouped 3 (λ i. get_or (2 ∷ 1 ∷ 1 ∷ 2 ∷ []) i 0) (λ _. false) (λ _. 5 ∷ []) 4
