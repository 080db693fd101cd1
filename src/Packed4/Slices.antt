-- ===== src/Packed4/Slices.antt =====
-- The slices compute the rows of the whole products.
use xiaotu_moe.Base.{
  refl, sym, ◌∙◌, arith, ℕ, ◌+◌, ◌*◌, ◌/◌, ◌%◌, ◌≤◌, ◌<◌, ◌≡◌, ◌==◌, ◌&&◌, some, none, Option,
  if-both, ◌||◌, leb, ltb,
}
use xiaotu_moe.MoeV2.Forward.{Floats}
use xiaotu_moe.Packed4.Kernel.{clamp_end, dot, at_least_one_group}
use xiaotu_moe.Packed4.Traits.{
  block_scales, global_scale, Block, expert_matmul, gate_up_slice_batch, gate_up,
}

module _ (fl : Floats) (bf16_to_fp32 : fl.Half → fl.Float) (lut : ℕ → fl.Float) where
  -- A row that a call of the kernel computes.
  abbrev pub row_value : Block fl bf16_to_fp32 lut → (ℕ → fl.Half) → ℕ → ℕ → ℕ → ℕ → fl.Float
  row_value b x n k eid j =
      dot fl bf16_to_fp32 lut x (λ o. b.bytes (eid * n * (k / 2) + o))
        (block_scales fl bf16_to_fp32 lut b n k eid) (global_scale fl bf16_to_fp32 lut b eid) k
        (at_least_one_group b.group_n) (at_least_one_group b.group_k) j

  module _ (b : Block fl bf16_to_fp32 lut) (a : ℕ → ℕ → fl.Half) (m n k eid n0 i j : ℕ)
      (n1 : Option ℕ) (c : ℕ → ℕ → fl.Float) where
    pub kernel-computes :
        0 < k
        → k % 2 ≡ 0
        → i < m
        → n0 ≤ j
        → j < clamp_end n1 n
        → expert_matmul fl bf16_to_fp32 lut b a m n k eid n0 n1 c i j ≡ row_value b (a i) n k eid j
    kernel-computes p e il lo hi =
        if-both (λ x. x ≡ row_value b (a i) n k eid j) (k == 0 || k % 2 == 1) (c i j) _
          (λ t. absurd (ground arith))
          (λ _.
            if-both (λ x. x ≡ row_value b (a i) n k eid j)
              (ltb i m && (leb n0 j && ltb j (clamp_end n1 n))) _ (c i j) (λ _. refl)
              (λ t. absurd (ground arith)))

    pub kernel-skips :
        ¬ ((n0 ≤ j) × (j < clamp_end n1 n))
        → expert_matmul fl bf16_to_fp32 lut b a m n k eid n0 n1 c i j ≡ c i j
    kernel-skips h =
        if-both (λ x. x ≡ c i j) (k == 0 || k % 2 == 1) (c i j) _ (λ _. refl)
          (λ _.
            if-both (λ x. x ≡ c i j) (ltb i m && (leb n0 j && ltb j (clamp_end n1 n))) _ (c i j)
              (λ t. absurd (h (ground arith, ground arith))) (λ _. refl))

  module _ (b : Block fl bf16_to_fp32 lut) (me : ℕ) (xg : ℕ → ℕ → fl.Half)
      (inter hidden eid n0 n1 : ℕ) (both : ℕ → ℕ → fl.Float) where
    abbrev first : ℕ → ℕ → fl.Float
    first =
        expert_matmul fl bf16_to_fp32 lut b xg me (2 * inter) hidden eid n0
          (some (clamp_end (some n1) inter)) both

    abbrev second : ℕ → ℕ → fl.Float
    second =
        expert_matmul fl bf16_to_fp32 lut b xg me (2 * inter) hidden eid (inter + n0)
          (some (inter + clamp_end (some n1) inter)) first

    -- Where the batched slice does not return early.
    batch-second :
        (i r : ℕ)
        → i < me
        → n0 < clamp_end (some n1) inter
        → gate_up_slice_batch fl bf16_to_fp32 lut b me xg inter hidden eid n0 n1 both i r
          ≡ second i r
    batch-second i r il lt =
        if-both (λ (x : ℕ → ℕ → fl.Float). x i r ≡ second i r) (me == 0) both _
          (λ t. absurd (ground arith))
          (λ _.
            if-both (λ (x : ℕ → ℕ → fl.Float). x i r ≡ second i r)
              (leb (clamp_end (some n1) inter) n0) both second (λ t. absurd (ground arith))
              (λ _. refl))

    whole :
        (i j : ℕ)
        → 0 < hidden
        → hidden % 2 ≡ 0
        → j < 2 * inter
        → gate_up fl bf16_to_fp32 lut b (xg i) inter hidden eid j
          ≡ row_value b (xg i) (2 * inter) hidden eid j
    whole i j p e h =
        kernel-computes b (λ _. xg i) 1 (2 * inter) hidden eid 0 0 j none (λ _ _. fl.zero_float) p e
          (omega arith) (omega arith) h

    pub gate_up_slice_batch-rows :
        0 < hidden
        → hidden % 2 ≡ 0
        → (i r : ℕ) → i < me
        → r < inter
        → n0 ≤ r
        → r < n1
        → (gate_up_slice_batch fl bf16_to_fp32 lut b me xg inter hidden eid n0 n1 both i r
            ≡ gate_up fl bf16_to_fp32 lut b (xg i) inter hidden eid r)
          × (gate_up_slice_batch fl bf16_to_fp32 lut b me xg inter hidden eid n0 n1 both i
                (inter + r)
              ≡ gate_up fl bf16_to_fp32 lut b (xg i) inter hidden eid (inter + r))
    gate_up_slice_batch-rows p e i r il rl lo hi = (
      batch-second i r il busy
          ∙ kernel-skips b xg me (2 * inter) hidden eid (inter + n0) i r
              (some (inter + clamp_end (some n1) inter)) first (λ h. omega (arith, h.0))
          ∙ kernel-computes b xg me (2 * inter) hidden eid n0 i r (some (clamp_end (some n1) inter))
              both p e il lo below
          ∙ sym (whole i r p e (omega arith)),
      batch-second i (inter + r) il busy
          ∙ kernel-computes b xg me (2 * inter) hidden eid (inter + n0) i (inter + r)
              (some (inter + clamp_end (some n1) inter)) first p e il (omega arith) above
          ∙ sym (whole i (inter + r) p e (omega arith)),
    )
      where
        end-above : r < clamp_end (some n1) inter
        end-above = ground arith

        busy : n0 < clamp_end (some n1) inter
        busy = omega (arith, end-above)

        below : r < clamp_end (some (clamp_end (some n1) inter)) (2 * inter)
        below = ground (arith, end-above)

        above : inter + r < clamp_end (some (inter + clamp_end (some n1) inter)) (2 * inter)
        above = ground (arith, end-above)

    -- A batched gate/up slice leaves every row of the two halves outside its range as it was.
    pub gate_up_slice_batch-others :
        (i r : ℕ)
        → r < inter
        → ¬ ((n0 ≤ r) × (r < n1))
        → (gate_up_slice_batch fl bf16_to_fp32 lut b me xg inter hidden eid n0 n1 both i r
            ≡ both i r)
          × (gate_up_slice_batch fl bf16_to_fp32 lut b me xg inter hidden eid n0 n1 both i
                (inter + r)
              ≡ both i (inter + r))
    gate_up_slice_batch-others i r rl out =
        (unless r first_kept second_low, unless (inter + r) first_high second_high)
      where
        unless :
            (j : ℕ)
            → first i j ≡ both i j
            → second i j ≡ first i j
            → gate_up_slice_batch fl bf16_to_fp32 lut b me xg inter hidden eid n0 n1 both i j
              ≡ both i j
        unless j f g =
            if-both (λ (x : ℕ → ℕ → fl.Float). x i j ≡ both i j) (me == 0) both _ (λ _. refl)
              (λ _.
                if-both (λ (x : ℕ → ℕ → fl.Float). x i j ≡ both i j)
                  (leb (clamp_end (some n1) inter) n0) both second (λ _. refl) (λ _. g ∙ f))

        end-below : clamp_end (some n1) inter ≤ n1
        end-below = ground arith

        outside : ¬ ((n0 ≤ r) × (r < clamp_end (some n1) inter))
        outside h = out (h.0, omega (arith, h.1, end-below))

        first_kept : first i r ≡ both i r
        first_kept =
            kernel-skips b xg me (2 * inter) hidden eid n0 i r (some (clamp_end (some n1) inter))
              both (λ h. outside (h.0, ground (arith, h.1)))

        second_low : second i r ≡ first i r
        second_low =
            kernel-skips b xg me (2 * inter) hidden eid (inter + n0) i r
              (some (inter + clamp_end (some n1) inter)) first (λ h. omega (arith, h.0))

        first_high : first i (inter + r) ≡ both i (inter + r)
        first_high =
            kernel-skips b xg me (2 * inter) hidden eid n0 i (inter + r)
              (some (clamp_end (some n1) inter)) both (λ h. ground (arith, h.1))

        second_high : second i (inter + r) ≡ first i (inter + r)
        second_high =
            kernel-skips b xg me (2 * inter) hidden eid (inter + n0) i (inter + r)
              (some (inter + clamp_end (some n1) inter)) first
              (λ h. outside (omega (arith, h.0), ground (arith, h.1)))
