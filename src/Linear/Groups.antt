-- ===== src/Linear/Groups.antt =====
-- The recursion over a batch computes every row, where a call computes the rows that it is given.
use xiaotu_moe.Base.{
  ap, ◌∙◌, arith, ℕ, zero, suc, ◌+◌, ◌-◌, ◌*◌, ◌≤◌, ◌<◌, ◌≡◌, ◌==◌, min, ltb, Option, none, some,
  if-both,
}
use xiaotu_moe.Linear.Batch.{in_groups, with_rest}

-- The output of n rows, as `row` describes it.
abbrev pub Rows :
    {A B : Type 0}
    → (blocks : ℕ) → (row : (ℕ → A) → ℕ → ℕ → B) → (n : ℕ) → (ℕ → A)
    → Option (ℕ → ℕ → B)
    → Type 0
Rows blocks row n input none = ⊥
Rows blocks row n input (some out) = (i b : ℕ) → i < n → b < blocks → out i b ≡ row input i b

module _ {A B : Type 0} (hi in_blocks blocks : ℕ)
    (call : (pos len : ℕ) → (ℕ → A) → (ℕ → ℕ → B) → ℕ → ℕ → B) (row : (ℕ → A) → ℕ → ℕ → B)
    (shift : (len i b : ℕ) (input : ℕ → A)
      → row (λ a. input (len * in_blocks + a)) i b ≡ row input (len + i) b)
    (right : (pos len : ℕ) (input : ℕ → A) (output : ℕ → ℕ → B) (i b : ℕ)
      → i < len
      → b < blocks
      → call pos len input output i b ≡ row input i b) where
  with_rest-Rows :
      (n len : ℕ) (input : ℕ → A) (rows : ℕ → ℕ → B) (rest : Option (ℕ → ℕ → B))
      → Rows blocks row len input (some rows)
      → Rows blocks row (n - len) (λ a. input (len * in_blocks + a)) rest
      → Rows blocks row n input (with_rest len rows rest)
  with_rest-Rows n len input rows none h k = k
  with_rest-Rows n len input rows (some rest) h k = λ i b li lb.
      if-both (λ x. x b ≡ row input i b) (ltb i len) (rows i) (rest (i - len))
        (λ y. h i b (ground (arith, y)) lb)
        (λ z.
          k (i - len) b (ground (arith, z)) lb
          ∙ shift len (i - len) b input
          ∙ ap (λ x. row input x b) {x = len + (i - len)} {y = i} (ground (arith, z)))

  pub in_groups-Rows :
      (fuel pos qlen : ℕ) (input : ℕ → A) (output : ℕ → ℕ → B)
      → 1 ≤ hi
      → qlen ≤ fuel
      → Rows blocks row qlen input (in_groups hi in_blocks call fuel pos qlen input output)
  in_groups-Rows zero pos qlen input output p f =
      if-both (Rows blocks row qlen input) (qlen == 0) (some output) none
        (λ e i b li lb. absurd (omega arith)) (λ e. absurd (ground arith))
  in_groups-Rows (suc fuel) pos qlen input output p f =
      if-both (Rows blocks row qlen input) (qlen == 0) (some output) _
        (λ e i b li lb. absurd (ground arith))
        (λ e.
          with_rest-Rows qlen (min qlen hi) input _ _
            (λ i b li lb. right pos (min qlen hi) input output i b li lb)
            (in_groups-Rows fuel (pos + min qlen hi) (qlen - min qlen hi)
              (λ a. input (min qlen hi * in_blocks + a)) _ p (ground arith)))
