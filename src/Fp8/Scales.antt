-- ===== src/Fp8/Scales.antt =====
-- Without scales the products are those of scales that are all one.
use xiaotu_moe.Base.{
  ℕ, ◌+◌, ◌*◌, ◌/◌, ◌≤◌, ◌<◌, ◌≡◌, refl, ap, arith, ltb, if-both, if◌then◌else◌, loop-congr, row-lt,
  none, some,
}
use native.Mathlib.Nat.{div-lt_iff_lt-mul}
use xiaotu_moe.MoeV2.Forward.{Floats}
use xiaotu_moe.MoeV2.Partition.{ceil-mul}
use xiaotu_moe.Fp8.Traits.{group, blocks, matmul_fp8_quant, gate_up, down}

group-pos : (g : ℕ) → 1 ≤ group g
group-pos g = ground arith

block-lt : (x n g : ℕ) → 1 ≤ g → x < n → x / g < blocks n g
block-lt x n g p h =
    (div-lt_iff_lt-mul {k = g} {x = x} {y = blocks n g} p).1 (omega (arith, ceil-mul n g p))

module _ (fl : Floats) (bf16_to_fp32 : fl.Half → fl.Float) (e4m3_to_fp32 : ℕ → fl.Float) where
  -- The same product with other scales that agree on the n rows and k columns.
  scales-agree :
      (a : ℕ → fl.Half) (w : ℕ → ℕ) (s t : ℕ → fl.Float) (n k group_n group_k j : ℕ)
      → j < n
      → ((i : ℕ) → i < blocks n (group group_n) * blocks k (group group_k) → s i ≡ t i)
      → matmul_fp8_quant fl bf16_to_fp32 e4m3_to_fp32 a w s k group_n group_k j
        ≡ matmul_fp8_quant fl bf16_to_fp32 e4m3_to_fp32 a w t k group_n group_k j
  scales-agree a w s t n k group_n group_k j h e =
      loop-congr k _ _
        (λ c lt acc.
          ap
            (λ x.
              fl.add acc (fl.mul (fl.mul (bf16_to_fp32 (a c)) (e4m3_to_fp32 (w (j * k + c)))) x))
            (e (j / group group_n * blocks k (group group_k) + c / group group_k) (
              row-lt (blocks n (group group_n)) (blocks k (group group_k)) (j / group group_n)
                (c / group group_k) (block-lt j n (group group_n) (group-pos group_n) h)
                (block-lt c k (group group_k) (group-pos group_k) lt))))
        fl.zero_float

  ones-eq :
      (count i : ℕ) (junk : ℕ → fl.Float)
      → i < count
      → (if ltb i count then fl.one else junk i) ≡ fl.one
  ones-eq count i junk h =
      if-both (λ x. x ≡ fl.one) (ltb i count) fl.one (junk i) (λ _. refl)
        (λ t. absurd (ground arith))

  -- With a null scale pointer every gate and every up element is what scales that are all one
  -- give: the vector of ones that the code makes is never read beyond its end.
  pub unscaled-eq-ones :
      (bytes : ℕ → ℕ) (group_n group_k : ℕ) (junk : ℕ → fl.Float) (x : ℕ → fl.Half)
      (inter hidden eid j : ℕ)
      → j < 2 * inter
      → gate_up fl bf16_to_fp32 e4m3_to_fp32
          (record { bytes = bytes; scales = none; group_n = group_n; group_k = group_k })
          junk
          x
          inter
          hidden
          eid
          j
        ≡ gate_up fl bf16_to_fp32 e4m3_to_fp32
            (record {
              bytes = bytes;
              scales = some (λ _. fl.one);
              group_n = group_n;
              group_k = group_k;
            })
            junk
            x
            inter
            hidden
            eid
            j
  unscaled-eq-ones bytes group_n group_k junk x inter hidden eid j h =
      scales-agree x (λ o. bytes (eid * (2 * inter) * hidden + o)) _ (λ _. fl.one) (2 * inter)
        hidden group_n group_k j h (λ i lt. ones-eq _ i junk lt)

  -- With a null scale pointer every down element is what scales that are all one give.
  pub unscaled_down-eq-ones :
      (bytes : ℕ → ℕ) (group_n group_k : ℕ) (junk : ℕ → fl.Float) (a : ℕ → fl.Half)
      (hidden inter eid j : ℕ)
      → j < hidden
      → down fl bf16_to_fp32 e4m3_to_fp32
          (record { bytes = bytes; scales = none; group_n = group_n; group_k = group_k })
          junk
          a
          hidden
          inter
          eid
          j
        ≡ down fl bf16_to_fp32 e4m3_to_fp32
            (record {
              bytes = bytes;
              scales = some (λ _. fl.one);
              group_n = group_n;
              group_k = group_k;
            })
            junk
            a
            hidden
            inter
            eid
            j
  unscaled_down-eq-ones bytes group_n group_k junk a hidden inter eid j h =
      scales-agree a (λ o. bytes (eid * hidden * inter + o)) _ (λ _. fl.one) hidden inter group_n
        group_k j h (λ i lt. ones-eq _ i junk lt)
