-- ===== src/Mlp/Inputs.antt =====
-- The input of the gate and the up projection, in their types.
use xiaotu_moe.Base.{
  refl, sym, ap, ◌∙◌, subst, arith, ℕ, ◌+◌, ◌*◌, ◌≡◌, inl, inr, ◌&&◌, if-both, Bool-cases, true,
  false, if◌then◌else◌,
}
use xiaotu_moe.Moe.Kernels.{Ggml}
use xiaotu_moe.Linear.Strides.{from_float-row}
use xiaotu_moe.Mlp.Forward.{Mlp, Inputs, convert_input, gate_vec, up_vec, gate_blocks, up_blocks}
use xiaotu_moe.Mlp.Expected.{Matrices, Shape, as_type}

module _ (g : Ggml) (m : Mlp g) (w : Matrices g) (sh : Shape g m) (input : ℕ → g.Block) where
  abbrev fp32 : ℕ → g.Float
  fp32 = g.to_float m.hidden_type input

  as_type-same :
      (t : g.DataType) (n i b : ℕ)
      → g.same m.hidden_type t ≡ true
      → input (i * n + b) ≡ as_type g m w input t n i b
  as_type-same t n i b e =
      if-both (λ (x : ℕ → g.Block). input (i * n + b) ≡ x b) (g.same m.hidden_type t)
        (λ y. input (i * n + y)) _ (λ _. refl) (λ f. cc (e, f))

  as_type-other :
      (t : g.DataType) (n i b : ℕ)
      → n * g.blck_size t ≡ m.hidden_size
      → g.same m.hidden_type t ≡ false
      → g.from_float t fp32 (i * n + b) ≡ as_type g m w input t n i b
  as_type-other t n i b h e =
      if-both (λ x. g.from_float t fp32 (i * n + b) ≡ x b) (g.same m.hidden_type t) _
        (g.from_float t (λ y. fp32 (i * m.hidden_size + y))) (λ f. cc (e, f))
        (λ _. from_float-row g t fp32 n m.hidden_size i b h)

  -- Either way.
  as_type-either :
      (t : g.DataType) (n i b : ℕ)
      → n * g.blck_size t ≡ m.hidden_size
      → (if g.same m.hidden_type t then input else g.from_float t fp32) (i * n + b)
        ≡ as_type g m w input t n i b
  as_type-either t n i b h =
      if-both (λ x. x (i * n + b) ≡ as_type g m w input t n i b) (g.same m.hidden_type t) input
        (g.from_float t fp32) (as_type-same t n i b) (as_type-other t n i b h)

  same_trans : (a b c : g.DataType) → g.same a b ≡ true → g.same b c ≡ true → g.same a c ≡ true
  same_trans a b c e f =
      subst (λ x. g.same a x ≡ true) (g.same_eq a b e ∙ g.same_eq b c f) (g.same_refl a)

  same_sym : (a b : g.DataType) → g.same a b ≡ true → g.same b a ≡ true
  same_sym a b e = subst (λ x. g.same x a ≡ true) (g.same_eq a b e) (g.same_refl a)

  -- Where one type is not the hidden type and they are one, neither is.
  not_hidden :
      (a b : g.DataType)
      → (g.same m.hidden_type a && g.same m.hidden_type b) ≡ false
      → g.same a b ≡ true
      → g.same m.hidden_type a ≡ false
  not_hidden a b n e = elim (Bool-cases (g.same m.hidden_type a)) [
    | inr f ↦ f
    | inl t ↦ absurd (ground (arith, n, t, same_trans m.hidden_type a b t e))
  ]

  gate_whole : gate_blocks g m * g.blck_size (gate_vec g m) ≡ m.hidden_size
  gate_whole = ap (λ x. gate_blocks g m * x) (g.blck_size-vec_dot_type m.gate_type) ∙ sh.gate_whole

  up_whole : up_blocks g m * g.blck_size (up_vec g m) ≡ m.hidden_size
  up_whole = ap (λ x. up_blocks g m * x) (g.blck_size-vec_dot_type m.up_type) ∙ sh.up_whole

  pub gate_read :
      (i b : ℕ)
      → (convert_input g m input).gate_input (i * gate_blocks g m + b)
        ≡ as_type g m w input (gate_vec g m) (gate_blocks g m) i b
  gate_read i b =
      if-both Read (g.same m.hidden_type (gate_vec g m) && g.same m.hidden_type (up_vec g m)) _ _
        (λ e. as_type-same (gate_vec g m) (gate_blocks g m) i b (ground (arith, e)))
        (λ n.
          if-both Read (g.same (gate_vec g m) (up_vec g m)) _ _
            (λ e.
              as_type-other (gate_vec g m) (gate_blocks g m) i b gate_whole
                (not_hidden (gate_vec g m) (up_vec g m) n e))
            (λ _. as_type-either (gate_vec g m) (gate_blocks g m) i b gate_whole))
    where
      Read : Inputs g → Type 0
      Read x =
          x.gate_input (i * gate_blocks g m + b)
          ≡ as_type g m w input (gate_vec g m) (gate_blocks g m) i b

  pub up_read :
      (i b : ℕ)
      → (convert_input g m input).up_input (i * up_blocks g m + b)
        ≡ as_type g m w input (up_vec g m) (up_blocks g m) i b
  up_read i b =
      if-both Read (g.same m.hidden_type (gate_vec g m) && g.same m.hidden_type (up_vec g m)) _ _
        (λ e. as_type-same (up_vec g m) (up_blocks g m) i b (ground (arith, e)))
        (λ n.
          if-both Read (g.same (gate_vec g m) (up_vec g m)) _ _
            (λ e.
              subst
                (λ t.
                  g.from_float t fp32 (i * up_blocks g m + b)
                  ≡ as_type g m w input (up_vec g m) (up_blocks g m) i b)
                (sym (g.same_eq (gate_vec g m) (up_vec g m) e))
                (as_type-other (up_vec g m) (up_blocks g m) i b up_whole (
                  not_hidden (up_vec g m) (gate_vec g m) (ground (arith, n))
                    (same_sym (gate_vec g m) (up_vec g m) e))))
            (λ _. as_type-either (up_vec g m) (up_blocks g m) i b up_whole))
    where
      Read : Inputs g → Type 0
      Read x =
          x.up_input (i * up_blocks g m + b) ≡ as_type g m w input (up_vec g m) (up_blocks g m) i b
