-- ===== src/MoeV2/Grouping.antt =====
-- What the grouping loops leave in `per_expert`, `inst_idx_` and `active`.
use Prim.Native.Nat.{zero}
use xiaotu_moe.Base.{
  ℕ, suc, ◌<◌, ◌≡◌, inl, inr, refl, Bool, true, false, ◌&&◌, Bool-cases, ltb→lt, length, get_or,
  List, update, ℕ_discrete, arith, sym, ◌++◌, ◌∙◌, ◌∷◌, [], ap, dec_lt, length-append, subst,
  get_or-append, get_or-append_last, if◌then◌else◌, update-same, update-other,
}
use xiaotu_moe.MoeV2.Routing.{routed, Groups, push_one, per_expert}

and-left : (a b : Bool) → (a && b) ≡ true → a ≡ true
and-left true b e = refl
and-left false b e = cc

module _ (nel : ℕ) (ids : ℕ → ℕ) (no_weight : ℕ → Bool) where
  pub routed-lt : (ai : ℕ) → routed nel ids no_weight ai ≡ true → ids ai < nel
  routed-lt ai r = ltb→lt (ids ai) nel (and-left _ _ r)

  -- The members of the list of expert e, below n.
  abbrev pub Members : ℕ → ℕ → List ℕ → Type 0
  Members n e xs =
      (i : ℕ)
      → i < length xs
      → (get_or xs i 0 < n)
        × (routed nel ids no_weight (get_or xs i 0) ≡ true)
        × (ids (get_or xs i 0) ≡ e)

  abbrev pub At : List ℕ → ℕ → ℕ → Type 0
  At xs i ai = (i < length xs) × (get_or xs i 0 ≡ ai)

  -- Each list holds assignments of its own expert, and each assignment stands at its index.
  pub record Grouped (n : ℕ) (g : Groups nel ids no_weight) : Type 0 where
    pub entry : (e : ℕ) → Members n e (g.list e)
    pub placed :
        (ai : ℕ)
        → ai < n
        → routed nel ids no_weight ai ≡ true
        → At (g.list (ids ai)) (g.index ai) ai

  Members-append :
      (n e : ℕ) (xs : List ℕ)
      → Members n e xs
      → routed nel ids no_weight n ≡ true
      → ids n ≡ e
      → Members (suc n) e (xs ++ n ∷ [])
  Members-append n e xs h r q i lt = elim (dec_lt i (length xs)) [
    | yes below ↦
        let (a, b, c) = h i below in
        subst (λ x. (x < suc n) × (routed nel ids no_weight x ≡ true) × (ids x ≡ e))
          (sym (get_or-append xs (n ∷ []) i 0 below)) (omega arith, b, c)
    | no above ↦
        subst (λ x. (x < suc n) × (routed nel ids no_weight x ≡ true) × (ids x ≡ e))
          (sym (
            ap (λ j. get_or (xs ++ n ∷ []) j 0)
              (omega (arith, length-append xs (n ∷ []), lt, above))
            ∙ get_or-append_last xs n 0))
          (omega arith, r, q)
  ]

  Members-weaken : (n e : ℕ) (xs : List ℕ) → Members n e xs → Members (suc n) e xs
  Members-weaken n e xs h i lt = let (a, b, c) = h i lt in (omega arith, b, c)

  At-append : (xs : List ℕ) (i ai n : ℕ) → At xs i ai → At (xs ++ n ∷ []) i ai
  At-append xs i ai n (a, b) =
      (omega (arith, length-append xs (n ∷ [])), get_or-append xs (n ∷ []) i 0 a ∙ b)

  At-last : (xs : List ℕ) (n : ℕ) → At (xs ++ n ∷ []) (length xs) n
  At-last xs n = (omega (arith, length-append xs (n ∷ [])), get_or-append_last xs n 0)

  module _ (n : ℕ) (g : Groups nel ids no_weight) (h : Grouped n g) where
    abbrev added : Groups nel ids no_weight
    added = record {
      list = update g.list (ids n) (g.list (ids n) ++ n ∷ []);
      index = update g.index n (length (g.list (ids n)));
    }

    added_entry :
        routed nel ids no_weight n ≡ true
        → (e : ℕ) → Members (suc n) e (update g.list (ids n) (g.list (ids n) ++ n ∷ []) e)
    added_entry r e = elim (ℕ_discrete (ids n) e) [
      | yes q ↦
          subst (λ e'. Members (suc n) e' (update g.list (ids n) (g.list (ids n) ++ n ∷ []) e')) q
            (subst (Members (suc n) (ids n))
              (sym (update-same g.list (ids n) (g.list (ids n) ++ n ∷ [])))
              (Members-append n (ids n) (g.list (ids n)) (h.entry (ids n)) r refl))
      | no d ↦
          subst (Members (suc n) e)
            (sym (update-other g.list (ids n) e (g.list (ids n) ++ n ∷ []) d))
            (Members-weaken n e (g.list e) (h.entry e))
    ]

    kept :
        (ai : ℕ)
        → ai < n
        → routed nel ids no_weight ai ≡ true
        → At (update g.list (ids n) (g.list (ids n) ++ n ∷ []) (ids ai)) (g.index ai) ai
    kept ai lt r = elim (ℕ_discrete (ids n) (ids ai)) [
      | yes q ↦
          subst (λ xs. At xs (g.index ai) ai)
            (sym (
              ap (update g.list (ids n) (g.list (ids n) ++ n ∷ [])) (sym q)
              ∙ update-same g.list (ids n) (g.list (ids n) ++ n ∷ [])
              ∙ ap (λ e. g.list e ++ n ∷ []) q))
            (At-append (g.list (ids ai)) (g.index ai) ai n (h.placed ai lt r))
      | no d ↦
          subst (λ xs. At xs (g.index ai) ai)
            (sym (update-other g.list (ids n) (ids ai) (g.list (ids n) ++ n ∷ []) d))
            (h.placed ai lt r)
    ]

    added_placed :
        (ai : ℕ)
        → ai < suc n
        → routed nel ids no_weight ai ≡ true
        → At
            (update g.list (ids n) (g.list (ids n) ++ n ∷ []) (ids ai))
            (update g.index n (length (g.list (ids n))) ai)
            ai
    added_placed ai lt r = elim (ℕ_discrete n ai) [
      | yes q ↦
          subst
            (λ a.
              At (update g.list (ids n) (g.list (ids n) ++ n ∷ []) (ids a))
                (update g.index n (length (g.list (ids n))) a) a)
            q
            (subst (λ xs. At xs (update g.index n (length (g.list (ids n))) n) n)
              (sym (update-same g.list (ids n) (g.list (ids n) ++ n ∷ [])))
              (subst (λ i. At (g.list (ids n) ++ n ∷ []) i n)
                (sym (update-same g.index n (length (g.list (ids n)))))
                (At-last (g.list (ids n)) n)))
      | no d ↦
          subst (λ i. At (update g.list (ids n) (g.list (ids n) ++ n ∷ []) (ids ai)) i ai)
            (sym (update-other g.index n ai (length (g.list (ids n))) d)) (kept ai (omega arith) r)
    ]

    push-Grouped : Grouped (suc n) (push_one nel ids no_weight n g)
    push-Grouped = elim (Bool-cases (routed nel ids no_weight n)) [
      | inl r ↦
          subst (λ b. Grouped (suc n) (if b then added else g)) (sym r)
            (record { entry = added_entry r; placed = added_placed })
      | inr r ↦
          subst (λ b. Grouped (suc n) (if b then added else g)) (sym r)
            (record {
              entry = λ e. Members-weaken n e (g.list e) (h.entry e);
              placed = λ ai lt t. h.placed ai (other ai lt t r) t;
            })
    ]
      where
        other :
            (ai : ℕ)
            → ai < suc n
            → routed nel ids no_weight ai ≡ true
            → routed nel ids no_weight n ≡ false
            → ai < n
        other ai lt t r = elim (ℕ_discrete ai n) [
          | yes e ↦ absurd (let e' = sym t ∙ ap (routed nel ids no_weight) e ∙ r in cc)
          | no d ↦ omega arith
        ]

  -- After the loops over n assignments, the list of an expert holds routed assignments to that
  -- expert only, and every routed assignment stands in its expert's list at its `inst_idx_`.
  pub per_expert-Grouped : (n : ℕ) → Grouped n (per_expert nel ids no_weight n)
  per_expert-Grouped zero = record {
    entry = λ e i lt. absurd (omega arith);
    placed = λ ai lt r. absurd (omega arith);
  }
  per_expert-Grouped (suc n) = push-Grouped n _ (per_expert-Grouped n)
