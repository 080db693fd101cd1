-- ===== src/Packed4/Interface.antt =====
-- The batched slices of Packed4WeightTraitsBase are what forward_many_nsliced relies on
-- (moe_v2_packed4.hpp, lines 647-827).
use xiaotu_moe.Base.{
  refl, sym, ap, ◌∙◌, arith, ℕ, ◌+◌, ◌-◌, ◌*◌, ◌/◌, ◌%◌, ◌≤◌, ◌<◌, ◌≡◌, ◌==◌, ◌&&◌, if-two, ltb,
  ◌||◌, none, some, if-both, leb, loop-congr,
}
use xiaotu_moe.MoeV2.Forward.{Floats, Weights}
use xiaotu_moe.MoeV2.Sliced.{Config, Slices}
use xiaotu_moe.MoeV2.SlicedJobs.{RowSlices}
use xiaotu_moe.Packed4.Kernel.{clamp_end, nibble_of, scale_at, at_least_one_group}
use xiaotu_moe.Packed4.Traits.{
  Block, gate_up, gate_up_slice_batch, down, down_slice_batch, expert_matmul, global_scale,
  block_scales,
}
use xiaotu_moe.Packed4.Slices.{gate_up_slice_batch-rows, kernel-computes, kernel-skips, row_value}

module _ (fl : Floats) (bf16_to_fp32 : fl.Half → fl.Float) (lut : ℕ → fl.Float) (cfg : Config) where
  abbrev pub packed4_slices : Slices fl
  packed4_slices = record {
    Block = Block fl bf16_to_fp32 lut;
    gate_up_slice_batched = λ me xg b both eid n0 n1.
        gate_up_slice_batch fl bf16_to_fp32 lut b me xg cfg.inter cfg.hidden eid n0 n1 both;
    down_slice_batched = λ me actg b out eid n0 n1.
        down_slice_batch fl bf16_to_fp32 lut b me actg cfg.hidden cfg.inter eid n0 n1 out;
  }

  -- The products with the rows of the blocks b13 and b2.
  abbrev pub packed4_weights : (b13 b2 : Block fl bf16_to_fp32 lut) → Weights fl
  packed4_weights b13 b2 = record {
    gate = λ x eid i. gate_up fl bf16_to_fp32 lut b13 x cfg.inter cfg.hidden eid i;
    up = λ x eid i. gate_up fl bf16_to_fp32 lut b13 x cfg.inter cfg.hidden eid (cfg.inter + i);
    down = λ a eid. down fl bf16_to_fp32 lut b2 a cfg.hidden cfg.inter eid (λ _. fl.zero_float);
  }

  module _ (b : Block fl bf16_to_fp32 lut) (me : ℕ) (actg : ℕ → ℕ → fl.Half) (eid n0 n1 : ℕ)
      (out : ℕ → ℕ → fl.Float) where
    pub down_slice_batch-rows :
        0 < cfg.inter
        → cfg.inter % 2 ≡ 0
        → (m h : ℕ) → m < me
        → h < cfg.hidden
        → n0 ≤ h
        → h < n1
        → down_slice_batch fl bf16_to_fp32 lut b me actg cfg.hidden cfg.inter eid n0 n1 out m h
          ≡ down fl bf16_to_fp32 lut b (actg m) cfg.hidden cfg.inter eid (λ _. fl.zero_float) h
    down_slice_batch-rows p e m h ml hl lo hi =
        let slice =
          expert_matmul fl bf16_to_fp32 lut b actg me cfg.hidden cfg.inter eid n0
            (some (clamp_end (some n1) cfg.hidden)) out in
        let v =
          down fl bf16_to_fp32 lut b (actg m) cfg.hidden cfg.inter eid (λ _. fl.zero_float) h in
        if-both (λ (x : ℕ → ℕ → fl.Float). x m h ≡ v) (me == 0) out _ (λ t. absurd (ground arith))
          (λ _.
            if-both (λ (x : ℕ → ℕ → fl.Float). x m h ≡ v) (leb (clamp_end (some n1) cfg.hidden) n0)
              out slice (λ t. absurd (ground arith))
              (λ _.
                kernel-computes fl bf16_to_fp32 lut b actg me cfg.hidden cfg.inter eid n0 m h
                  (some (clamp_end (some n1) cfg.hidden)) out p e ml lo (ground arith)
                ∙ sym (
                    kernel-computes fl bf16_to_fp32 lut b (λ _. actg m) 1 cfg.hidden cfg.inter eid 0
                      0 h none (λ _ _. fl.zero_float) p e (omega arith) (omega arith) hl)))

    pub down_slice_batch-others :
        (m h : ℕ)
        → ¬ ((n0 ≤ h) × (h < n1))
        → h < cfg.hidden
        → down_slice_batch fl bf16_to_fp32 lut b me actg cfg.hidden cfg.inter eid n0 n1 out m h
          ≡ out m h
    down_slice_batch-others m h out_of hl =
        if-both (λ (x : ℕ → ℕ → fl.Float). x m h ≡ out m h) (me == 0) out _ (λ _. refl)
          (λ _.
            if-both (λ (x : ℕ → ℕ → fl.Float). x m h ≡ out m h)
              (leb (clamp_end (some n1) cfg.hidden) n0) out _ (λ _. refl)
              (λ _.
                kernel-skips fl bf16_to_fp32 lut b actg me cfg.hidden cfg.inter eid n0 m h
                  (some (clamp_end (some n1) cfg.hidden)) out
                  (λ t. out_of (omega (arith, t.0), ground (arith, t.1)))))

  -- The dot product reads the activations of its k columns.
  row_value-reads :
      (b : Block fl bf16_to_fp32 lut) (a a' : ℕ → fl.Half) (n k eid j : ℕ)
      → ((i : ℕ) → i < k → a i ≡ a' i)
      → row_value fl bf16_to_fp32 lut b a n k eid j ≡ row_value fl bf16_to_fp32 lut b a' n k eid j
  row_value-reads b a a' n k eid j h =
      let gn = at_least_one_group b.group_n in
      let gk = at_least_one_group b.group_k in
      let row = λ (o : ℕ). b.bytes (eid * n * (k / 2) + (j * (k / 2) + o)) in
      let scale = λ (i : ℕ).
        scale_at fl bf16_to_fp32 lut (block_scales fl bf16_to_fp32 lut b n k eid) k gn gk j
          (i - i % gk) in
      ap (λ x. fl.mul x (global_scale fl bf16_to_fp32 lut b eid))
        (loop-congr k _ _
          (λ i il acc.
            ap
              (λ x. fl.add acc (fl.mul (fl.mul (bf16_to_fp32 x) (lut (nibble_of row i))) (scale i)))
              (h i il))
          fl.zero_float)

  pub down-reads :
      (b : Block fl bf16_to_fp32 lut) (a a' : ℕ → fl.Half) (eid h : ℕ)
      → ((i : ℕ) → i < cfg.inter → a i ≡ a' i)
      → down fl bf16_to_fp32 lut b a cfg.hidden cfg.inter eid (λ _. fl.zero_float) h
        ≡ down fl bf16_to_fp32 lut b a' cfg.hidden cfg.inter eid (λ _. fl.zero_float) h
  down-reads b a a' eid h k =
      let same = λ (x y : fl.Float). x ≡ y in
      if-two same (cfg.inter == 0 || cfg.inter % 2 == 1) fl.zero_float _ fl.zero_float _ (λ _. refl)
        (if-two same (ltb 0 1 && (leb 0 h && ltb h cfg.hidden))
          (row_value fl bf16_to_fp32 lut b a cfg.hidden cfg.inter eid h) fl.zero_float
          (row_value fl bf16_to_fp32 lut b a' cfg.hidden cfg.inter eid h) fl.zero_float
          (λ _. row_value-reads b a a' cfg.hidden cfg.inter eid h k) refl)

  -- The slices of Packed4WeightTraitsBase on blocks whose owned rows have the products of the rows
  -- of b13 and b2 keep what forward_many_nsliced relies on, for even positive dimensions.
  abbrev pub packed4_rows :
      (b13 b2 : Block fl bf16_to_fp32 lut)
      → 0 < cfg.hidden
      → cfg.hidden % 2 ≡ 0
      → 0 < cfg.inter
      → cfg.inter % 2 ≡ 0
      → RowSlices fl (packed4_weights b13 b2) cfg packed4_slices
  packed4_rows b13 b2 hp he ip ie = record {
    OwnsGate = λ b i.
        (x : ℕ → fl.Half) (eid : ℕ)
        → (gate_up fl bf16_to_fp32 lut b x cfg.inter cfg.hidden eid i
            ≡ gate_up fl bf16_to_fp32 lut b13 x cfg.inter cfg.hidden eid i)
          × (gate_up fl bf16_to_fp32 lut b x cfg.inter cfg.hidden eid (cfg.inter + i)
              ≡ gate_up fl bf16_to_fp32 lut b13 x cfg.inter cfg.hidden eid (cfg.inter + i));
    OwnsDown = λ b h.
        (a : ℕ → fl.Half) (eid : ℕ)
        → down fl bf16_to_fp32 lut b a cfg.hidden cfg.inter eid (λ _. fl.zero_float) h
          ≡ down fl bf16_to_fp32 lut b2 a cfg.hidden cfg.inter eid (λ _. fl.zero_float) h;
    gate_up_rows = λ me xg b both eid n0 n1 m i ml lo hi il owns.
        let (g, u) =
          gate_up_slice_batch-rows fl bf16_to_fp32 lut b me xg cfg.inter cfg.hidden eid n0 n1 both
            hp he m i ml il lo hi in
        let (g', u') = owns (xg m) eid in (g ∙ g', u ∙ u');
    down_rows = λ me actg b out eid n0 n1 m h ml lo hi hl owns.
        down_slice_batch-rows b me actg eid n0 n1 out ip ie m h ml hl lo hi ∙ owns (actg m) eid;
    down_others = λ me actg b out eid n0 n1 m h ml hl outside.
        down_slice_batch-others b me actg eid n0 n1 out m h outside hl;
    down_local = λ a a' e h k. down-reads b2 a a' e h k;
  }
