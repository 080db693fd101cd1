-- ===== src/Moe/Writes.antt =====
-- What a written rectangle of a buffer holds.
use xiaotu_moe.Base.{
  sym, ap, ◌∙◌, arith, ℕ, ◌+◌, ◌-◌, ◌*◌, ◌/◌, ◌≤◌, ◌<◌, ◌≡◌, inl, inr, ◌≢◌, row-lt, row_injective,
  ◌⊎◌,
}
use xiaotu_moe.Moe.Held.{stride_block}
use xiaotu_moe.Moe.Kernels.{write, Ggml, convert, sgemm}

module _ {A : Type 0} (r rows c cols : ℕ) (val old : ℕ → ℕ → A) (i j : ℕ) where
  pub write_in :
      r ≤ i → i < r + rows → c ≤ j → j < c + cols → write r rows c cols val old i j ≡ val i j
  write_in a b x y = ground arith

  pub write_row_out : ¬ ((r ≤ i) × (i < r + rows)) → write r rows c cols val old i j ≡ old i j
  write_row_out h = ground arith

  pub write_col_out : ¬ ((c ≤ j) × (j < c + cols)) → write r rows c cols val old i j ≡ old i j
  write_col_out h = ground arith

-- One output of llamafile_sgemm, on the rows that it reads.
pub sgemm_in :
    (g : Ggml) (m n k : ℕ) (w v : g.DataType) (a b : ℕ → ℕ → g.Block) (r c : ℕ)
    (old : ℕ → ℕ → g.Float) (i j : ℕ) (weights acts : ℕ → g.Block)
    → r ≤ i
    → i < r + n
    → j < m
    → a j ≡ weights
    → ((x : ℕ) → x < k → b i x ≡ acts x)
    → sgemm g m n k w v a b r c old i (c + j) ≡ g.dot w v k weights acts
sgemm_in g m n k w v a b r c old i j weights acts lo hi l e f =
    write_in r n c m (λ y x. g.dot w v k (a (x - c)) (b y)) old i (c + j) lo hi (omega arith)
      (omega arith)
    ∙ ap (λ x. g.dot w v k (a x) (b i)) {x = c + j - c} {y = j} (omega arith)
    ∙ ap (λ x. g.dot w v k x (b i)) e
    ∙ g.dot_reads w v k weights (b i) acts f

-- A converted block, from a stride of whole blocks that holds the row `vals`.
pub convert_in :
    (g : Ggml) (t : g.DataType) (r n ith stride : ℕ) (x : ℕ → ℕ → g.Float) (old : ℕ → ℕ → g.Block)
    (i b : ℕ) (vals : ℕ → g.Float)
    → r ≤ i
    → i < r + n
    → stride / g.blck_size t * g.blck_size t ≡ stride
    → b < stride / g.blck_size t
    → ((h : ℕ) → h < stride → x i (ith * stride + h) ≡ vals (ith * stride + h))
    → convert g t r n
        (ith * stride)
        stride
        (ith * stride / g.blck_size t)
        x
        old
        i
        (ith * stride / g.blck_size t + b)
      ≡ g.from_float t vals (ith * stride / g.blck_size t + b)
convert_in g t r n ith stride x old i b vals lo hi e l f =
    write_in r n (ith * stride / g.blck_size t) (stride / g.blck_size t)
      (λ j y. g.from_float t (λ h. x j (ith * stride + h)) (y - ith * stride / g.blck_size t)) old i
      (ith * stride / g.blck_size t + b) lo hi (omega arith) (omega arith)
    ∙ ap (g.from_float t (λ h. x i (ith * stride + h)))
        {x = ith * stride / g.blck_size t + b - ith * stride / g.blck_size t} {y = b} (omega arith)
    ∙ g.from_float_reads t (λ h. x i (ith * stride + h)) (λ h. vals (c * g.blck_size t + h)) b
        (λ h below.
          f (b * g.blck_size t + h)
            (omega (arith, e, row-lt (stride / g.blck_size t) (g.blck_size t) b h l below))
          ∙ ap vals (omega (arith, whole)))
    ∙ g.from_float_shift t vals c b
  where
    c : ℕ
    c = ith * stride / g.blck_size t

    whole : c * g.blck_size t ≡ ith * stride
    whole = omega (
      arith,
      ap (λ y. y * g.blck_size t) (stride_block ith stride (g.blck_size t) (g.blck_size_pos t) e),
      ap (λ y. ith * y) e,
    )

-- A column of block ith is not one of another block's.
pub other_cols :
    (size ith ith' j : ℕ)
    → ith' ≢ ith
    → j < size
    → ¬ ((ith' * size ≤ ith * size + j) × (ith * size + j < ith' * size + size))
other_cols size ith ith' j n l (lo, hi) =
    n (row_injective size ith' (ith * size + j - ith' * size) ith j (omega arith) l (omega arith)).0

-- A cell outside a written rectangle, by its row or by its block of columns.
pub write_out :
    {A : Type 0} (r rows size ith ith' : ℕ) (val old : ℕ → ℕ → A) (i j : ℕ)
    → (¬ ((r ≤ i) × (i < r + rows)) ⊎ (ith' ≢ ith))
    → j < size
    → write r rows (ith' * size) size val old i (ith * size + j) ≡ old i (ith * size + j)
write_out r rows size ith ith' val old i j (inl h) l =
    write_row_out r rows (ith' * size) size val old i (ith * size + j) h
write_out r rows size ith ith' val old i j (inr n) l =
    write_col_out r rows (ith' * size) size val old i (ith * size + j)
      (other_cols size ith ith' j n l)

pub sgemm_out :
    (g : Ggml) (size n k : ℕ) (w v : g.DataType) (a b : ℕ → ℕ → g.Block) (r ith ith' : ℕ)
    (old : ℕ → ℕ → g.Float) (i j : ℕ)
    → (¬ ((r ≤ i) × (i < r + n)) ⊎ (ith' ≢ ith))
    → j < size
    → sgemm g size n k w v a b r (ith' * size) old i (ith * size + j) ≡ old i (ith * size + j)
sgemm_out g size n k w v a b r ith ith' old i j away l =
    write_out r n size ith ith' (λ y x. g.dot w v k (a (x - ith' * size)) (b y)) old i j away l

pub convert_out :
    (g : Ggml) (t : g.DataType) (r n ith ith' stride : ℕ) (x : ℕ → ℕ → g.Float)
    (old : ℕ → ℕ → g.Block) (i b : ℕ)
    → stride / g.blck_size t * g.blck_size t ≡ stride
    → (¬ ((r ≤ i) × (i < r + n)) ⊎ (ith' ≢ ith))
    → b < stride / g.blck_size t
    → convert g t r n
        (ith' * stride)
        stride
        (ith' * stride / g.blck_size t)
        x
        old
        i
        (ith * stride / g.blck_size t + b)
      ≡ old i (ith * stride / g.blck_size t + b)
convert_out g t r n ith ith' stride x old i b e away l =
    ap
      (λ y.
        write r n y (stride / g.blck_size t)
          (λ j z. g.from_float t (λ h. x j (ith' * stride + h)) (z - ith' * stride / g.blck_size t))
          old i (ith * stride / g.blck_size t + b))
      (stride_block ith' stride (g.blck_size t) (g.blck_size_pos t) e)
    ∙ ap
        (λ y.
          write r n (ith' * (stride / g.blck_size t)) (stride / g.blck_size t)
            (λ j z.
              g.from_float t (λ h. x j (ith' * stride + h)) (z - ith' * stride / g.blck_size t))
            old i (y + b))
        whole
    ∙ write_out r n (stride / g.blck_size t) ith ith'
        (λ j z. g.from_float t (λ h. x j (ith' * stride + h)) (z - ith' * stride / g.blck_size t))
        old i b away l
    ∙ ap (λ y. old i (y + b)) (sym whole)
  where
    whole : ith * stride / g.blck_size t ≡ ith * (stride / g.blck_size t)
    whole = stride_block ith stride (g.blck_size t) (g.blck_size_pos t) e
