-- ===== src/MoeV2/Throws.antt =====
-- When MOE_V2's constructor throws (moe_v2.hpp, lines 302-305 and 410).
use xiaotu_moe.Base.{
  refl, sym, ap, ◌∙◌, arith, ◌≡◌, inl, inr, ◌==◌, Bool-cases, true, false, if-both, Option, none,
  some, ◌⊎◌, ◌||◌, ◌↔◌, Option-cases,
}
use xiaotu_moe.MoeV2.Backs.{not_missing, none_not_some, not_null-none}
use xiaotu_moe.MoeV2.Constructed.{
  HasDims, ServesSockets, construct-Serves, unsharded-ServesSockets, HasDims_lem,
}
use xiaotu_moe.MoeV2.Construct.{
  Bytes, Trait, Host, Config, Engine, Given, unsharded, w13_size, w2_size, not_null, place,
  construct, copies_had,
}

true_not_false : ¬ (true ≡ false)
true_not_false q = cc

module _ (t : Trait) (h : Host) (cfg : Config) where
  dims-cases : HasDims t h cfg ⊎ (¬ HasDims t h cfg)
  unfolding HasDims
  dims-cases = ground arith

  missing-unsharded :
      (w : Given) (p q : Option Bytes)
      → (p ≡ none) ⊎ (q ≡ none)
      → place t h cfg w p q ≡ unsharded t h cfg w
  missing-unsharded w none q n = refl
  missing-unsharded w (some x) none n = refl
  missing-unsharded w (some x) (some y) n = absurd (not_missing x y n)

  missing-none :
      (w : Given)
      → (w.w13 ≡ none) ⊎ (w.w2 ≡ none)
      → let e = place t h cfg w w.w13 w.w2 in not_null e e.w13 e.w2 ≡ none
  unfolding ServesSockets
  missing-none w n =
      let (x, y, _, _) = unsharded-ServesSockets t h cfg w 2 in
      ap (λ (e : Engine). not_null e e.w13 e.w2) (missing-unsharded w w.w13 w.w2 n)
      ∙ not_null-none (unsharded t h cfg w) (w13_size t h cfg) (w2_size t h cfg) w.w13 w.w2 _ _ n x
          y

  -- The constructor throws exactly when a dimension is 0, a block is null, or a copy by make_unique
  -- that it needs cannot be had: a region or a replica that cannot be had is no error.
  pub construct-throws :
      (w : Given)
      → (construct t h cfg w ≡ none) ↔ (
          (¬ HasDims t h cfg) ⊎ (((w.w13 ≡ none) ⊎ (w.w2 ≡ none)) ⊎ (copies_had t h cfg w ≡ false)))
  construct-throws w = (
    λ q. elim dims-cases [
      | inr nd ↦ inl nd
      | inl d ↦ elim (Option-cases w.w13) [
        | inl n ↦ inr (inl (inl n))
        | inr (w13, a) ↦ elim (Option-cases w.w2) [
          | inl n ↦ inr (inl (inr n))
          | inr (w2, b) ↦ elim (Bool-cases (copies_had t h cfg w)) [
            | inr f ↦ inr (inr f)
            | inl c ↦
                let (e, k, _) = construct-Serves t h cfg w w13 w2 d c a b in
                absurd (none_not_some e (sym q ∙ k))
          ]
        ]
      ]
    ],
    λ n.
        let e = place t h cfg w w.w13 w.w2 in
        if-both (λ (x : Option Engine). x ≡ none)
          (cfg.expert_num == 0
            || (cfg.top_k == 0 || (cfg.hidden_size == 0 || cfg.intermediate_size == 0)))
          none _ (λ _. refl)
          (λ k.
            if-both (λ (x : Option Engine). x ≡ none) (copies_had t h cfg w) (not_null e e.w13 e.w2)
              none
              (λ c. elim n [
                | inl nd ↦ absurd (nd (HasDims_lem t h cfg k))
                | inr (inl m) ↦ missing-none w m
                | inr (inr f) ↦ absurd (true_not_false (sym c ∙ f))
              ])
              (λ _. refl)),
  )
