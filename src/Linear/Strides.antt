-- ===== src/Linear/Strides.antt =====
-- A buffer that is computed and converted by strides, or by strides and then as a whole.
use native.Mathlib.Nat.{div-add-mod'}
use xiaotu_moe.Base.{
  sym, ap, ◌∙◌, subst, arith, ℕ, ◌+◌, ◌*◌, ◌/◌, ◌%◌, ◌≤◌, ◌<◌, ◌≡◌, inr, ◌==◌, ◌≢◌, if-both,
  in_block, row-div, row-mod, row-lt,
}
use xiaotu_moe.Moe.Kernels.{Ggml, convert}
use xiaotu_moe.Moe.Held.{stride_block}
use xiaotu_moe.Moe.Rows.{some_blocks, stride_blocks}
use xiaotu_moe.Moe.Writes.{write_in, convert_in, convert_out}
use xiaotu_moe.Linear.Forward.{convert_stride, convert_rest}

-- Row i of rows that are converted at once.
pub from_float-row :
    (g : Ggml) (t : g.DataType) (x : ℕ → g.Float) (n size i b : ℕ)
    → n * g.blck_size t ≡ size
    → g.from_float t x (i * n + b) ≡ g.from_float t (λ h. x (i * size + h)) b
from_float-row g t x n size i b e =
    sym (g.from_float_shift t x (i * n) b)
    ∙ ap (λ y. g.from_float t (λ h. x (y + h)) b) {x = i * n * g.blck_size t} {y = i * size}
        (omega (arith, ap (λ y. i * y) e))

module _ (g : Ggml) (t : g.DataType) (qlen stride size : ℕ) (vals : ℕ → ℕ → g.Float)
    (some_stride : 1 ≤ stride) (strides_whole : size / stride * stride ≡ size)
    (blocks_whole : size / g.blck_size t * g.blck_size t ≡ size) where
  abbrev blk : ℕ
  blk = g.blck_size t

  abbrev pub Rows : ℕ → (ℕ → ℕ → g.Float) → Type 0
  Rows ith x =
      (i c : ℕ) → i < qlen → c < stride → x i (ith * stride + c) ≡ vals i (ith * stride + c)

  -- Stride ith is computed, and converted if the tasks do that.
  pub record Placed (ith : ℕ) (x : ℕ → ℕ → g.Float) (y : ℕ → ℕ → g.Block) : Type 0 where
    pub rows : Rows ith x
    pub converted :
        stride % blk ≡ 0
        → (i b : ℕ) → i < qlen
        → b < stride / blk
        → y i (ith * stride / blk + b) ≡ g.from_float t (vals i) (ith * stride / blk + b)

  stride_whole : stride % blk ≡ 0 → stride / blk * blk ≡ stride
  stride_whole e = omega (arith, e, div-add-mod' stride blk)

  pub convert_stride-own :
      (ith : ℕ) (x : ℕ → ℕ → g.Float) (y : ℕ → ℕ → g.Block)
      → Rows ith x
      → Placed ith x (convert_stride g t qlen stride ith x y)
  convert_stride-own ith x y h = record {
    rows = h;
    converted = λ e i b li lb.
        if-both
          (λ z. z i (ith * stride / blk + b) ≡ g.from_float t (vals i) (ith * stride / blk + b))
          (stride % blk == 0) (convert g t 0 qlen (ith * stride) stride (ith * stride / blk) x y) y
          (λ _.
            convert_in g t 0 qlen ith stride x y i b (vals i) (omega arith) (omega arith)
              (stride_whole e) lb (λ c lc. h i c li lc))
          (λ n. absurd (ground (arith, e, n)));
  }

  pub convert_stride-other :
      (ith u : ℕ) (x x' : ℕ → ℕ → g.Float) (y : ℕ → ℕ → g.Block)
      → u ≢ ith
      → ((i c : ℕ) → c < stride → x' i (ith * stride + c) ≡ x i (ith * stride + c))
      → Placed ith x y
      → Placed ith x' (convert_stride g t qlen stride u x' y)
  convert_stride-other ith u x x' y away same h = record {
    rows = λ i c li lc. same i c lc ∙ h.rows i c li lc;
    converted = λ e i b li lb.
        if-both
          (λ z. z i (ith * stride / blk + b) ≡ g.from_float t (vals i) (ith * stride / blk + b))
          (stride % blk == 0) (convert g t 0 qlen (u * stride) stride (u * stride / blk) x' y) y
          (λ _.
            convert_out g t 0 qlen ith u stride x' y i b (stride_whole e) (inr away) lb
            ∙ h.converted e i b li lb)
          (λ _. h.converted e i b li lb);
  }

  module _ (x : ℕ → ℕ → g.Float) (y : ℕ → ℕ → g.Block)
      (placed : (ith : ℕ) → ith < size / stride → Placed ith x y) where
    pub all_rows : (i c : ℕ) → i < qlen → c < size → x i c ≡ vals i c
    all_rows i c li lc =
        let (j, r, e) = in_block (size / stride) stride c some_stride (omega arith) in
        subst (λ n. x i n ≡ vals i n) e ((placed (c / stride) j).rows i (c % stride) li r)

    by_strides :
        (i b : ℕ) → stride % blk ≡ 0 → i < qlen → b < size / blk → y i b ≡ g.from_float t (vals i) b
    by_strides i b z li lb =
        let (j, r, e) =
          in_block (size / stride) (stride / blk) b
            (some_blocks stride blk some_stride (stride_whole z))
            (stride_blocks (size / stride) stride blk size b (stride_whole z) strides_whole
              blocks_whole (g.blck_size_pos t) lb) in
        subst (λ n. y i n ≡ g.from_float t (vals i) n)
          (ap (λ n. n + b % (stride / blk))
              (stride_block (b / (stride / blk)) stride blk (g.blck_size_pos t) (stride_whole z))
            ∙ e)
          ((placed (b / (stride / blk)) j).converted z i (b % (stride / blk)) li r)

    at_once :
        (i b : ℕ)
        → i < qlen
        → b < size / blk
        → g.from_float t (λ h. x (h / size) (h % size)) (i * (size / blk) + b)
          ≡ g.from_float t (vals i) b
    at_once i b li lb =
        from_float-row g t (λ h. x (h / size) (h % size)) (size / blk) size i b blocks_whole
        ∙ g.from_float_reads t (λ h. x ((i * size + h) / size) ((i * size + h) % size)) (vals i) b
            (λ h lh.
              cell (b * blk + h) (omega (arith, blocks_whole, row-lt (size / blk) blk b h lb lh)))
      where
        cell : (c : ℕ) → c < size → x ((i * size + c) / size) ((i * size + c) % size) ≡ vals i c
        cell c lc =
            ap (λ n. x n ((i * size + c) % size)) (row-div size i c lc)
            ∙ ap (x i) (row-mod size i c lc)
            ∙ all_rows i c li lc

    pub convert_rest-done :
        (i b : ℕ)
        → i < qlen
        → b < size / blk
        → convert_rest g t qlen stride size x y i b ≡ g.from_float t (vals i) b
    convert_rest-done i b li lb =
        if-both (λ z. z i b ≡ g.from_float t (vals i) b) (stride % blk == 0) y _
          (λ z. by_strides i b (ground (arith, z)) li lb)
          (λ _.
            write_in 0 qlen 0 (size / blk)
              (λ j n. g.from_float t (λ h. x (h / size) (h % size)) (j * (size / blk) + n)) y i b
              (omega arith) (omega arith) (omega arith) (omega arith)
            ∙ at_once i b li lb)
