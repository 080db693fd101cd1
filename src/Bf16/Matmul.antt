-- ===== src/Bf16/Matmul.antt =====
-- matmul_bf16 on its three paths (bf16_gemm.hpp, lines 65-120). Memory is a function of the
-- offset: bf16 patterns in A and B, floats in C. Float operations are parameters.
use xiaotu_moe.Base.{ℕ, ◌+◌, ◌-◌, ◌*◌, ◌/◌, loop, update}
use xiaotu_moe.Bf16.Convert.{bf16_to_fp32}

-- The operations that the kernel uses; the float with a pattern; fmadd a b c is a * b + c.
pub record Floats : Type 1 where
  pub Float : Type 0
  pub float_zero : Float
  pub of_bits : ℕ → Float
  pub add : Float → Float → Float
  pub mul : Float → Float → Float
  pub fmadd : Float → Float → Float → Float

-- The paths: AVX-512, AVX2 and neither.
pub data Isa : Type 0 where
  avx512 : Isa
  avx2 : Isa
  plain : Isa

module _ (fl : Floats) (a b : ℕ → ℕ) where
  -- The product of element k of a row that starts at ar in A and one that starts at br in B.
  abbrev pub product : (ar br k : ℕ) → fl.Float
  product ar br k =
      fl.mul (fl.of_bits (bf16_to_fp32 (a (ar + k)))) (fl.of_bits (bf16_to_fp32 (b (br + k))))

  -- The sum of n products from k0 on, one after the other.
  abbrev pub scalar_sum : (ar br k0 n : ℕ) → fl.Float
  scalar_sum ar br k0 n = loop n (λ k acc. fl.add acc (product ar br (k0 + k))) fl.float_zero

  -- The w lanes after the whole vectors of w elements.
  abbrev pub lanes : (w ar br vectors : ℕ) → ℕ → fl.Float
  lanes w ar br vectors =
      loop vectors
        (λ v acc t.
          fl.fmadd (fl.of_bits (bf16_to_fp32 (a (ar + (v * w + t)))))
            (fl.of_bits (bf16_to_fp32 (b (br + (v * w + t))))) (acc t))
        (λ _. fl.float_zero)

  -- The element of C on a path with w lanes.
  abbrev pub vector_dot : (w ar br k : ℕ) → fl.Float
  vector_dot w ar br k =
      fl.add (loop w (λ t accf. fl.add accf (lanes w ar br (k / w) t)) fl.float_zero)
        (scalar_sum ar br (k / w * w) (k - k / w * w))

  abbrev pub dot : Isa → (ar br k : ℕ) → fl.Float
  dot avx512 ar br k = vector_dot 16 ar br k
  dot avx2 ar br k = vector_dot 8 ar br k
  dot plain ar br k = scalar_sum ar br 0 k

  abbrev pub matmul_bf16 : Isa → (m n k : ℕ) → (ℕ → fl.Float) → ℕ → fl.Float
  matmul_bf16 path m n k c =
      loop m (λ i ci. loop n (λ j cj. update cj (i * n + j) (dot path (i * k) (j * k) k)) ci) c
