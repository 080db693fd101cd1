-- ===== src/Linear/Shift.antt =====
-- A row of an input from a pointer into it, in the type of a product.
use xiaotu_moe.Base.{
  sym, ap, ◌∙◌, subst, arith, ℕ, ◌+◌, ◌*◌, ◌/◌, ◌≡◌, inl, inr, fun_ext, Bool, Bool-cases,
  if◌then◌else◌, true,
}
use xiaotu_moe.Moe.Kernels.{Ggml}

-- Row i of rows of n blocks and `size` elements, of the hidden type h, in type t.
abbrev pub in_type :
    (g : Ggml) → (h t : g.DataType) → (n size : ℕ) → (ℕ → g.Block) → ℕ → ℕ → g.Block
in_type g h t n size input i =
    if g.same h t
    then (λ b. input (i * n + b))
    else g.from_float t (λ c. g.to_float h input (i * size + c))

module _ (g : Ggml) (h t : g.DataType) (n size : ℕ) (input : ℕ → g.Block)
    (blocks_of_t : n ≡ size / g.blck_size t)
    (in_whole : size / g.blck_size h * g.blck_size h ≡ size) where
  same_blocks : g.same h t ≡ true → size / g.blck_size h ≡ n
  same_blocks e = ap (λ x. size / g.blck_size x) (g.same_eq h t e) ∙ sym blocks_of_t

  abbrev shifted : ℕ → ℕ → g.Block
  shifted len a = input (len * (size / g.blck_size h) + a)

  pub in_type-shifted :
      (len i b : ℕ)
      → in_type g h t n size (shifted len) i b ≡ in_type g h t n size input (len + i) b
  in_type-shifted len i b = elim (Bool-cases (g.same h t)) [
    | inl y ↦
        subst Same (sym y)
          (ap input (ap (λ x. len * x + (i * n + b)) (same_blocks y) ∙ omega arith))
    | inr z ↦ subst Same (sym z) (
        ap (λ x. g.from_float t x b)
          (fun_ext (λ c.
            g.to_float_shift h input (len * (size / g.blck_size h)) (i * size + c)
            ∙ ap (g.to_float h input) (omega (arith, ap (λ x. len * x) in_whole)))))
  ]
    where
      Same : Bool → Type 0
      Same x =
          (if x
              then (λ b'. shifted len (i * n + b'))
              else g.from_float t (λ c. g.to_float h (shifted len) (i * size + c)))
            b
          ≡ (if x
                then (λ b'. input ((len + i) * n + b'))
                else g.from_float t (λ c. g.to_float h input ((len + i) * size + c)))
              b
