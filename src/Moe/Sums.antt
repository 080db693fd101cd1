-- ===== src/Moe/Sums.antt =====
-- The weighted sum in place, and one block of a token's output.
use xiaotu_moe.Base.{
  ap, ◌∙◌, arith, ℕ, zero, suc, ◌+◌, ◌-◌, ◌*◌, ◌/◌, ◌≤◌, ◌<◌, ◌≡◌, inl, inr, ◌≢◌, loop, row-lt,
  row_injective, loop-congr, ◌⊎◌, loop-keeps,
}
use xiaotu_moe.Layers.Jobs.{Dispatch}
use xiaotu_moe.Moe.Kernels.{Ggml, write}
use xiaotu_moe.Moe.Slots.{slot_injective}
use xiaotu_moe.Moe.Forward.{Moe, Args, Outputs, assignments, combine, reduce_block, sum_rows}
use xiaotu_moe.Moe.Expected.{Matrices, expert_row, token_sum, expected}
use xiaotu_moe.Moe.Held.{Layout}
use xiaotu_moe.Moe.Acts.{row}
use xiaotu_moe.Moe.Writes.{write_in, write_row_out, convert_in, convert_out, write_out}

module _ (g : Ggml) (m : Moe g) (q : Args g) (row : ℕ → ℕ) (weight : ℕ → g.Float)
    (apart : (i : ℕ) → 1 ≤ i → i < q.k → row 0 ≢ row i) where
  module _ (c cols j : ℕ) (lj : j < cols) (s : ℕ → ℕ → g.Float) where
    abbrev first : ℕ → ℕ → g.Float
    first = write (row 0) 1 c cols (λ y x. g.mul (s y x) (weight 0)) s

    abbrev round : ℕ → (ℕ → ℕ → g.Float) → ℕ → ℕ → g.Float
    round r s' =
        write (row 0) 1 c cols (λ y x. g.add (s' y x) (g.mul (s' (row (r + 1)) x) (weight (r + 1))))
          s'

    abbrev sum_to : ℕ → g.Float
    sum_to n =
        loop n (λ r acc. g.add acc (g.mul (s (row (r + 1)) (c + j)) (weight (r + 1))))
          (g.mul (s (row 0) (c + j)) (weight 0))

    not_first : (i : ℕ) → 1 ≤ i → i < q.k → ¬ ((row 0 ≤ row i) × (row i < row 0 + 1))
    not_first i p l (lo, hi) = apart i p l (omega arith)

    rounds_done :
        (n : ℕ)
        → n < q.k
        → (loop n round first (row 0) (c + j) ≡ sum_to n)
          × ((i : ℕ) → 1 ≤ i → i < q.k → loop n round first (row i) (c + j) ≡ s (row i) (c + j))
    rounds_done zero l = (
      write_in (row 0) 1 c cols (λ y x. g.mul (s y x) (weight 0)) s (row 0) (c + j) (omega arith)
          (omega arith) (omega arith) (omega arith),
      λ i p h.
          write_row_out (row 0) 1 c cols (λ y x. g.mul (s y x) (weight 0)) s (row i) (c + j)
            (not_first i p h),
    )
    rounds_done (suc n) l =
        let (e, k) = rounds_done n (omega arith) in
        let s' = loop n round first in
        let val = λ (y x : ℕ). g.add (s' y x) (g.mul (s' (row (n + 1)) x) (weight (n + 1))) in
        (
          write_in (row 0) 1 c cols val s' (row 0) (c + j) (omega arith) (omega arith) (omega arith)
                (omega arith)
              ∙ ap (λ x. g.add x (g.mul (s' (row (n + 1)) (c + j)) (weight (n + 1)))) e
              ∙ ap (λ x. g.add (sum_to n) (g.mul x (weight (n + 1))))
                  (k (n + 1) (omega arith) (omega arith)),
          λ i p h.
              write_row_out (row 0) 1 c cols val s' (row i) (c + j) (not_first i p h) ∙ k i p h,
        )

  -- The sum in its column, of the values that the rows held.
  pub sum_rows_done :
      (c cols j : ℕ) (s : ℕ → ℕ → g.Float) (value : ℕ → g.Float)
      → 1 ≤ q.k
      → j < cols
      → ((i : ℕ) → i < q.k → s (row i) (c + j) ≡ value i)
      → sum_rows g m q row weight c cols s (row 0) (c + j)
        ≡ loop
            (q.k - 1)
            (λ r acc. g.add acc (g.mul (value (r + 1)) (weight (r + 1))))
            (g.mul (value 0) (weight 0))
  sum_rows_done c cols j s value p lj h =
      (rounds_done c cols j lj s (q.k - 1) (omega arith)).0
      ∙ ap
          (λ x.
            loop (q.k - 1) (λ r acc. g.add acc (g.mul (s (row (r + 1)) (c + j)) (weight (r + 1))))
              (g.mul x (weight 0)))
          (h 0 p)
      ∙ loop-congr (q.k - 1) _ _
          (λ r below acc. ap (λ x. g.add acc (g.mul x (weight (r + 1)))) (h (r + 1) (omega arith)))
          _

  -- The sum of other columns, or in another row, leaves a cell.
  pub sum_rows_other :
      (ith ith' size i c : ℕ) (s : ℕ → ℕ → g.Float)
      → c < size
      → (¬ ((row 0 ≤ i) × (i < row 0 + 1)) ⊎ (ith' ≢ ith))
      → sum_rows g m q row weight (ith' * size) size s i (ith * size + c) ≡ s i (ith * size + c)
  sum_rows_other ith ith' size i c s lc away =
      loop-keeps (λ x. x i (ith * size + c)) (s i (ith * size + c)) _ (q.k - 1)
        (λ r below s' e.
          write_out (row 0) 1 size ith ith'
            (λ y x. g.add (s' y x) (g.mul (s' (row (r + 1)) x) (weight (r + 1)))) s' i c away lc
          ∙ e)
        (write (row 0) 1 (ith' * size) size (λ y x. g.mul (s y x) (weight 0)) s)
        (write_out (row 0) 1 size ith ith' (λ y x. g.mul (s y x) (weight 0)) s i c away lc)

module _ (g : Ggml) (m : Moe g) (q : Args g) (w : Matrices g) (lay : Layout g m q w)
    (d : Dispatch m.numa_nodes) where
  abbrev at_rank : ℕ → ℕ → ℕ
  at_rank token i = row g m q w lay d (token * q.k + i)

  -- The slots of different ranks or tokens differ.
  rank_other :
      (token i token' i' : ℕ)
      → token < q.qlen
      → i < q.k
      → token' < q.qlen
      → i' < q.k
      → at_rank token i ≡ at_rank token' i'
      → (token ≡ token') × (i ≡ i')
  rank_other token i token' i' lt li lt' li' e = row_injective q.k token i token' i' li li' (
      slot_injective q.ids (assignments g m q) (token * q.k + i) (token' * q.k + i')
        (row-lt q.qlen q.k token i lt li) (row-lt q.qlen q.k token' i' lt' li') e)

  ranks_apart :
      (token : ℕ) → token < q.qlen → (i : ℕ) → 1 ≤ i → i < q.k → at_rank token 0 ≢ at_rank token i
  ranks_apart token lt i p l e =
      let z = (rank_other token 0 token i lt (omega arith) lt l e).1 in omega (arith, z)

  -- The block of token and ith before its turn, and after it.
  abbrev pub Waiting : (token ith : ℕ) → Outputs g → Type 0
  Waiting token ith s =
      (i c : ℕ)
      → i < q.k
      → c < m.stride
      → s.down_output (at_rank token i) (ith * m.stride + c)
        ≡ expert_row g m q w (token * q.k + i) (ith * m.stride + c)

  abbrev pub Written : (token ith : ℕ) → Outputs g → Type 0
  Written token ith s =
      (b : ℕ)
      → b < m.stride / g.blck_size m.hidden_type
      → s.output token (ith * m.stride / g.blck_size m.hidden_type + b)
        ≡ expected g m q w token (ith * m.stride / g.blck_size m.hidden_type + b)

  pub block_Written :
      (token ith : ℕ) (s : Outputs g)
      → token < q.qlen
      → 1 ≤ q.k
      → Waiting token ith s
      → Written token ith (reduce_block g m q token (ith * m.stride) s)
  block_Written token ith s lt p h b l =
      convert_in g m.hidden_type token 1 ith m.stride
        (λ _. combine g m q token (ith * m.stride) m.stride s.down_output (at_rank token 0))
        s.output token b (token_sum g m q w token) (omega arith) (omega arith) lay.hidden_blocks l
        (λ c lc.
          sum_rows_done g m q (at_rank token) (λ i. q.weights (token * q.k + i))
            (ranks_apart token lt) (ith * m.stride) m.stride c s.down_output
            (λ i. expert_row g m q w (token * q.k + i) (ith * m.stride + c)) p lc
            (λ i li. h i c li lc))

  -- The sum of another block leaves the cells of this one.
  combine_other :
      (token ith token' ith' i c : ℕ) (s : ℕ → ℕ → g.Float)
      → token < q.qlen
      → token' < q.qlen
      → i < q.k
      → c < m.stride
      → ((token' ≢ token) ⊎ (ith' ≢ ith))
      → combine g m q token' (ith' * m.stride) m.stride s (at_rank token i) (ith * m.stride + c)
        ≡ s (at_rank token i) (ith * m.stride + c)
  combine_other token ith token' ith' i c s lt lt' li lc away =
      sum_rows_other g m q (at_rank token') (λ r. q.weights (token' * q.k + r))
        (ranks_apart token' lt') ith ith' m.stride (at_rank token i) c s lc outside
    where
      outside :
          ¬ ((at_rank token' 0 ≤ at_rank token i) × (at_rank token i < at_rank token' 0 + 1))
          ⊎ (ith' ≢ ith)
      outside = elim away [
        | inl n ↦
            inl
              (λ (lo, hi). n (rank_other token' 0 token i lt' (omega arith) lt li (omega arith)).0)
        | inr n ↦ inr n
      ]

  pub block_Waiting :
      (token ith token' ith' : ℕ) (s : Outputs g)
      → token < q.qlen
      → token' < q.qlen
      → ((token' ≢ token) ⊎ (ith' ≢ ith))
      → Waiting token ith s
      → Waiting token ith (reduce_block g m q token' (ith' * m.stride) s)
  block_Waiting token ith token' ith' s lt lt' away h i c li lc =
      combine_other token ith token' ith' i c s.down_output lt lt' li lc away ∙ h i c li lc

  pub block_stays :
      (token ith token' ith' : ℕ) (s : Outputs g)
      → ((token' ≢ token) ⊎ (ith' ≢ ith))
      → Written token ith s
      → Written token ith (reduce_block g m q token' (ith' * m.stride) s)
  block_stays token ith token' ith' s away h b l =
      convert_out g m.hidden_type token' 1 ith ith' m.stride
        (λ _. combine g m q token' (ith' * m.stride) m.stride s.down_output (at_rank token' 0))
        s.output token b lay.hidden_blocks outside l
      ∙ h b l
    where
      outside : ¬ ((token' ≤ token) × (token < token' + 1)) ⊎ (ith' ≢ ith)
      outside = elim away [ inl n ↦ inl (λ (lo, hi). n (omega arith)) | inr n ↦ inr n ]
