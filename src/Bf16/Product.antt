-- ===== src/Bf16/Product.antt =====
-- What matmul_bf16 leaves in C (bf16_gemm.hpp, lines 65-120).
use xiaotu_moe.Base.{
  refl, sym, ap, ◌∙◌, subst, arith, ℕ, zero, suc, ◌+◌, ◌-◌, ◌*◌, ◌/◌, ◌≤◌, ◌<◌, ◌≡◌, ℕ_discrete,
  loop, loop-writes, loop-keeps, update, update-same, update-other, row-lt, row_injective,
}
use xiaotu_moe.Bf16.Sums.{sum, sum_at, sum-congr, sum-split, sum-lanes}
use xiaotu_moe.Bf16.Matmul.{
  Floats, Isa, product, scalar_sum, lanes, vector_dot, dot, matmul_bf16, avx512, avx2, plain,
}

-- Writing an entry of a matrix keeps every entry that holds its own value.
entry_kept {ℓ} :
    {A : Type ℓ} (v : ℕ → ℕ → A) (n x y i j : ℕ) (s : ℕ → A)
    → y < n
    → j < n
    → s (i * n + j) ≡ v i j
    → update s (x * n + y) (v x y) (i * n + j) ≡ v i j
entry_kept v n x y i j s yl jl e = elim (ℕ_discrete (x * n + y) (i * n + j)) [
  | yes q ↦
      let (p, r) = row_injective n x y i j yl jl q in
      subst (λ o. update s (x * n + y) (v x y) o ≡ v i j) q
        (update-same s (x * n + y) (v x y) ∙ ap (λ z. v z y) p ∙ ap (v i) r)
  | no d ↦ update-other s (x * n + y) (i * n + j) (v x y) d ∙ e
]

module _ (fl : Floats) (a b : ℕ → ℕ) where
  -- Each path writes its own dot product to every entry of the m rows of n, and nothing else.
  matmul_bf16-dot :
      (path : Isa) (m n k : ℕ) (c : ℕ → fl.Float)
      → ((i j : ℕ)
          → i < m
          → j < n
          → matmul_bf16 fl a b path m n k c (i * n + j) ≡ dot fl a b path (i * k) (j * k) k)
        × ((o : ℕ) → m * n ≤ o → matmul_bf16 fl a b path m n k c o ≡ c o)
  matmul_bf16-dot path m n k c =
      let entry = λ (i j : ℕ). dot fl a b path (i * k) (j * k) k in
      let row =
        λ (i : ℕ) (ci : ℕ → fl.Float). loop n (λ j cj. update cj (i * n + j) (entry i j)) ci in
      (
        λ i j il jl.
            loop-writes (λ s. s (i * n + j)) (entry i j) row m
              (λ x xl s e.
                loop-keeps (λ s'. s' (i * n + j)) (entry i j)
                  (λ y cj. update cj (x * n + y) (entry x y)) n
                  (λ y yl s' e'. entry_kept entry n x y i j s' yl jl e') s e)
              i
              (λ s.
                loop-writes (λ s'. s' (i * n + j)) (entry i j)
                  (λ y cj. update cj (i * n + y) (entry i y)) n
                  (λ y yl s' e'. entry_kept entry n i y i j s' yl jl e') j
                  (λ s'. update-same s' (i * n + j) (entry i j)) s jl)
              c il,
        λ o ol.
            loop-keeps (λ s. s o) (c o) row m
              (λ x xl s e.
                loop-keeps (λ s'. s' o) (c o) (λ y cj. update cj (x * n + y) (entry x y)) n
                  (λ y yl s' e'.
                    update-other s' (x * n + y) o (entry x y)
                      (λ q. absurd (omega (arith, row-lt m n x y xl yl)))
                    ∙ e')
                  s e)
              c refl,
      )

module _ (fl : Floats) (a b : ℕ → ℕ)
    (assoc : (x y z : fl.Float) → fl.add (fl.add x y) z ≡ fl.add x (fl.add y z))
    (comm : (x y : fl.Float) → fl.add x y ≡ fl.add y x)
    (unit : (x : fl.Float) → fl.add x fl.float_zero ≡ x)
    (fused : (x y z : fl.Float) → fl.fmadd x y z ≡ fl.add z (fl.mul x y)) where
  lanes-sum :
      (w ar br v t : ℕ)
      → lanes fl a b w ar br v t
        ≡ sum fl.float_zero fl.add assoc comm unit v (λ u. product fl a b ar br (u * w + t))
  lanes-sum w ar br zero t = refl
  lanes-sum w ar br (suc v) t =
      fused _ _ _ ∙ ap (λ x. fl.add x (product fl a b ar br (v * w + t))) (lanes-sum w ar br v t)

  vector_dot-sum :
      (w ar br k : ℕ) → k / w * w ≤ k → vector_dot fl a b w ar br k ≡ scalar_sum fl a b ar br 0 k
  vector_dot-sum w ar br k le =
      let g = product fl a b ar br in
      let total = sum fl.float_zero fl.add assoc comm unit in
      let rest = total (k - k / w * w) (λ i. g (k / w * w + i)) in
      ap (λ x. fl.add x rest)
        (sum-congr fl.float_zero fl.add assoc comm unit w _ _ (lanes-sum w ar br (k / w))
          ∙ sum-lanes fl.float_zero fl.add assoc comm unit w (k / w) g)
      ∙ sym (sum-split fl.float_zero fl.add assoc comm unit (k / w * w) (k - k / w * w) g)
      ∙ sum_at fl.float_zero fl.add assoc comm unit (k - k / w * w + k / w * w) k g
          (omega (arith, le))
      ∙ sum-congr fl.float_zero fl.add assoc comm unit k g (λ i. g (0 + i))
          (λ i. ap g (omega arith))

  dot-scalar_sum :
      (path : Isa) (ar br k : ℕ) → dot fl a b path ar br k ≡ scalar_sum fl a b ar br 0 k
  dot-scalar_sum avx512 ar br k = vector_dot-sum 16 ar br k (omega arith)
  dot-scalar_sum avx2 ar br k = vector_dot-sum 8 ar br k (omega arith)
  dot-scalar_sum plain ar br k = refl

  -- Where floats add up exactly and fmadd does not round otherwise than a product and a sum, each
  -- path of matmul_bf16 leaves at row i < m and column j < n the sum of the k products of row i of
  -- A and row j of B in order, and nothing from m * n on is written.
  pub matmul_bf16-scalar_sum :
      (path : Isa) (m n k : ℕ) (c : ℕ → fl.Float)
      → ((i j : ℕ)
          → i < m
          → j < n
          → matmul_bf16 fl a b path m n k c (i * n + j) ≡ scalar_sum fl a b (i * k) (j * k) 0 k)
        × ((o : ℕ) → m * n ≤ o → matmul_bf16 fl a b path m n k c o ≡ c o)
  matmul_bf16-scalar_sum path m n k c =
      let (entries, rest) = matmul_bf16-dot fl a b path m n k c in
      (λ i j il jl. entries i j il jl ∙ dot-scalar_sum path (i * k) (j * k) k, rest)
