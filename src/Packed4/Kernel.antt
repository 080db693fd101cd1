-- ===== src/Packed4/Kernel.antt =====
-- matmul_packed4_group, the path without vector instructions (moe_v2_packed4.hpp, lines 205-228 and
-- 605-617). Memory is a function of the offset; a matrix C is a function of row and column.
use xiaotu_moe.Base.{
  ℕ, ◌+◌, ◌-◌, ◌*◌, ◌/◌, ◌%◌, ◌==◌, ◌&&◌, ◌||◌, ltb, leb, if◌then◌else◌, loop, Option, none, some,
}
use xiaotu_moe.MoeV2.Forward.{Floats}

abbrev pub at_least_one_group : ℕ → ℕ
at_least_one_group g = if ltb 0 g then g else 1

-- The low nibble of a byte is the even element.
abbrev pub nibble_of : (ℕ → ℕ) → ℕ → ℕ
nibble_of row k = if k % 2 == 1 then row (k / 2) / 16 else row (k / 2) % 16

-- The default n1 = -1 is none.
abbrev pub clamp_end : Option ℕ → ℕ → ℕ
clamp_end none n = n
clamp_end (some n1) n = if ltb n n1 then n else n1

module _ (fl : Floats) (bf16_to_fp32 : fl.Half → fl.Float) (lut : ℕ → fl.Float) where
  abbrev pub scale_at : (ℕ → fl.Float) → ℕ → ℕ → ℕ → ℕ → ℕ → fl.Float
  scale_at s k gn gk n kbase = s (n / gn * ((k + gk - 1) / gk) + kbase / gk)

  -- Row j of the weights times the activations, accumulated in the order of the loop.
  abbrev pub dot : (ℕ → fl.Half) → (ℕ → ℕ) → (ℕ → fl.Float) → fl.Float → ℕ → ℕ → ℕ → ℕ → fl.Float
  dot a w s global_scale k gn gk j =
      fl.mul
        (loop k
          (λ e acc. fl.add acc (
            fl.mul (fl.mul (bf16_to_fp32 (a e)) (lut (nibble_of (λ b. w (j * (k / 2) + b)) e)))
              (scale_at s k gn gk j (e - e % gk))))
          fl.zero_float)
        global_scale

  -- Rows n0 to n1 - 1 of every instance; `rowshift` is 0 in every call.
  abbrev pub matmul_packed4_group :
      (ℕ → ℕ → fl.Half)
      → (ℕ → ℕ)
      → (ℕ → fl.Float)
      → fl.Float
      → (m n k group_n group_k n0 : ℕ) → Option ℕ
      → (ℕ → ℕ → fl.Float)
      → ℕ
      → ℕ
      → fl.Float
  matmul_packed4_group a w s gs m n k group_n group_k n0 n1 c i j =
      if k == 0 || k % 2 == 1
      then c i j
      else if ltb i m && (leb n0 j && ltb j (clamp_end n1 n))
      then dot (a i) w s gs k (at_least_one_group group_n) (at_least_one_group group_k) j
      else c i j
