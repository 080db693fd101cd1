-- ===== src/Bf16/Traits.antt =====
-- BF16WeightTraits (xiaotu-moe/csrc/moe/moe_v2.hpp, lines 175-206): unquantised weights.
use xiaotu_moe.Base.{refl, ap, ◌∙◌, arith, ℕ, suc, ◌+◌, ◌*◌, ◌≤◌, ◌<◌, ◌≡◌}
use native.Mathlib.Nat.{mul-le-mul_right}
use xiaotu_moe.Bf16.Matmul.{Floats, Isa, scalar_sum, matmul_bf16}
use xiaotu_moe.Bf16.Product.{matmul_bf16-scalar_sum}
use xiaotu_moe.Bf16.Convert.{bf16_to_fp32}
use xiaotu_moe.Bf16.Sums.{sum-congr}

abbrev w13_bytes_impl : (experts n2 hidden : ℕ) → ℕ
w13_bytes_impl experts n2 hidden = experts * n2 * hidden * 2

abbrev w2_bytes_impl : (experts hidden inter : ℕ) → ℕ
w2_bytes_impl experts hidden inter = experts * hidden * inter * 2

module _ (fl : Floats) (path : Isa) where
  abbrev pub gate_up_impl :
      (x w13 : ℕ → ℕ) (gate up : ℕ → fl.Float) (inter hidden eid : ℕ)
      → (ℕ → fl.Float) × (ℕ → fl.Float)
  gate_up_impl x w13 gate up inter hidden eid =
      let base = λ (o : ℕ). w13 (eid * 2 * inter * hidden + o) in
      (
        matmul_bf16 fl x base path 1 inter hidden gate,
        matmul_bf16 fl x (λ o. base (inter * hidden + o)) path 1 inter hidden up,
      )

  abbrev pub down_impl :
      (act w2 : ℕ → ℕ) (down : ℕ → fl.Float) (hidden inter eid : ℕ) → ℕ → fl.Float
  down_impl act w2 down hidden inter eid =
      matmul_bf16 fl act (λ o. w2 (eid * hidden * inter + o)) path 1 hidden inter down

-- The last byte of element k of row r is within the rows of all experts.
element_below :
    (experts rows cols eid r k : ℕ)
    → eid < experts
    → r < rows
    → k < cols
    → 2 * ((eid * rows + r) * cols + k) + 2 ≤ experts * rows * cols * 2
element_below experts rows cols eid r k el rl kl =
    let row = mul-le-mul_right {m = suc eid} {n = experts} rows (omega arith) in
    let cell =
      mul-le-mul_right {m = suc (eid * rows + r)} {n = experts * rows} cols (omega (arith, row)) in
    omega (arith, cell)

further : (p q o : ℕ) → p + (q + o) ≡ p + q + o
further p q o = omega arith

zero_row : (k i : ℕ) → 0 * k + (0 + i) ≡ 0 + (0 + i)
zero_row k i = omega arith

same_place : (base p q i : ℕ) → base + p ≡ q → base + (p + (0 + i)) ≡ q + (0 + i)
same_place base p q i e = omega (arith, e)

module _ (fl : Floats) (assoc : (x y z : fl.Float) → fl.add (fl.add x y) z ≡ fl.add x (fl.add y z))
    (comm : (x y : fl.Float) → fl.add x y ≡ fl.add y x)
    (unit : (x : fl.Float) → fl.add x fl.float_zero ≡ x)
    (fused : (x y z : fl.Float) → fl.fmadd x y z ≡ fl.add z (fl.mul x y)) where
  -- One row of the weights w, for a kernel that is given them from `base` on.
  one_row :
      (path : Isa) (x w b : ℕ → ℕ) (base n k r row : ℕ) (c : ℕ → fl.Float)
      → ((o : ℕ) → b o ≡ w (base + o))
      → r < n
      → base + r * k ≡ row * k
      → matmul_bf16 fl x b path 1 n k c r ≡ scalar_sum fl x w 0 (row * k) 0 k
  one_row path x w b base n k r row c h rl e =
      let float_product =
        λ (p q : ℕ). fl.mul (fl.of_bits (bf16_to_fp32 p)) (fl.of_bits (bf16_to_fp32 q)) in
      let entry =
        (matmul_bf16-scalar_sum fl x b assoc comm unit fused path 1 n k c).0 0 r (omega arith) rl in
      ap (matmul_bf16 fl x b path 1 n k c) (omega arith)
      ∙ entry
      ∙ sum-congr fl.float_zero fl.add assoc comm unit k _ _ (λ i.
        ap (λ o. float_product (x o) (b (r * k + (0 + i)))) (zero_row k i)
        ∙ ap (float_product (x (0 + (0 + i))))
            (h (r * k + (0 + i)) ∙ ap w (same_place base (r * k) (row * k) i e)))

  -- Where floats add up exactly and fmadd does not round otherwise than a product and a sum, the
  -- gate row r, the up row r and the down row h of an expert are the sums of the products of the
  -- input with row r and row inter + r of the expert's first block and row h of its second, on
  -- every path. The elements of an up row and of a down row lie within the bytes of the blocks.
  pub bf16_weights-rows :
      (path : Isa) (x act w13 w2 : ℕ → ℕ) (gate up down : ℕ → fl.Float)
      → (inter hidden experts eid : ℕ) → eid < experts
      → ((r : ℕ)
          → r < inter
          → ((gate_up_impl fl path x w13 gate up inter hidden eid).0 r
              ≡ scalar_sum fl x w13 0 ((eid * (2 * inter) + r) * hidden) 0 hidden)
            × ((gate_up_impl fl path x w13 gate up inter hidden eid).1 r
                ≡ scalar_sum fl x w13 0 ((eid * (2 * inter) + (inter + r)) * hidden) 0 hidden)
            × ((k : ℕ)
                → k < hidden
                → 2 * ((eid * (2 * inter) + (inter + r)) * hidden + k) + 2
                  ≤ w13_bytes_impl experts (2 * inter) hidden))
        × ((h : ℕ)
            → h < hidden
            → (down_impl fl path act w2 down hidden inter eid h
                ≡ scalar_sum fl act w2 0 ((eid * hidden + h) * inter) 0 inter)
              × ((k : ℕ)
                  → k < inter
                  → 2 * ((eid * hidden + h) * inter + k) + 2 ≤ w2_bytes_impl experts hidden inter))
  bf16_weights-rows path x act w13 w2 gate up down inter hidden experts eid el = (
    λ r rl. (
      one_row path x w13 _ (eid * 2 * inter * hidden) inter hidden r (eid * (2 * inter) + r) gate
          (λ _. refl) rl (omega arith),
      one_row path x w13 _ (eid * 2 * inter * hidden + inter * hidden) inter hidden r
          (eid * (2 * inter) + (inter + r)) up
          (λ o. ap w13 (further (eid * 2 * inter * hidden) (inter * hidden) o)) rl (omega arith),
      λ k kl. element_below experts (2 * inter) hidden eid (inter + r) k el (omega arith) kl,
    ),
    λ h hl. (
      one_row path act w2 _ (eid * hidden * inter) hidden inter h (eid * hidden + h) down
          (λ _. refl) hl (omega arith),
      λ k kl. element_below experts hidden inter eid h k el hl kl,
    ),
  )
