-- ===== src/MoeV2/Regroup.antt =====
-- The lists of forward_many_nsliced, which its calls reuse (moe_v2.hpp, lines 621-637).
use xiaotu_moe.Base.{
  refl, sym, ap, ◌∙◌, subst, arith, ℕ, zero, suc, ◌≤◌, ◌<◌, ◌≡◌, ℕ_discrete, dec_lt, ◌==◌, ◌≢◌,
  ◌++◌, Bool, true, List, [], ◌∷◌, length, get_or, loop, update, update-same, update-other, ite,
  if-two, if◌then◌else◌, if-both, length-append, get_or-append, get_or-append_last,
}
use xiaotu_moe.MoeV2.Routing.{routed, Groups, push_one, per_expert, counts, regroup}
use xiaotu_moe.MoeV2.Grouping.{Grouped, per_expert-Grouped, Members, At}
use xiaotu_moe.MoeV2.Cover.{counts-pos}

update-agree {ℓ} :
    {A : Type ℓ} (f g : ℕ → A) (i e : ℕ) {v w : A}
    → v ≡ w
    → f e ≡ g e
    → update f i v e ≡ update g i w e
update-agree f g i e {v} {w} p q =
    ap (λ x. ite (ℕ_discrete i e) x (f e)) p ∙ ap (ite (ℕ_discrete i e) w) q

module _ (nel : ℕ) (ids : ℕ → ℕ) (no_weight : ℕ → Bool) where
  abbrev added : ℕ → Groups nel ids no_weight → Groups nel ids no_weight
  added n g = record {
    list = update g.list (ids n) (g.list (ids n) ++ n ∷ []);
    index = update g.index n (length (g.list (ids n)));
  }

  -- Two groupings with the same indices and, for the experts in P, the same lists.
  record Alike (P : ℕ → Type 0) (g h : Groups nel ids no_weight) : Type 0 where
    lists : (e : ℕ) → P e → g.list e ≡ h.list e
    indices : (ai : ℕ) → g.index ai ≡ h.index ai

  push-Alike :
      (P : ℕ → Type 0) (n : ℕ) (g h : Groups nel ids no_weight)
      → (routed nel ids no_weight n ≡ true → P (ids n))
      → Alike P g h
      → Alike P (push_one nel ids no_weight n g) (push_one nel ids no_weight n h)
  push-Alike P n g h k a =
      if-two (Alike P) (routed nel ids no_weight n) (added n g) g (added n h) h
        (λ r. record {
          lists = λ e pe.
              update-agree g.list h.list (ids n) e (ap (λ xs. xs ++ n ∷ []) (a.lists (ids n) (k r)))
                (a.lists e pe);
          indices = λ ai.
              update-agree g.index h.index n ai (ap length (a.lists (ids n) (k r))) (a.indices ai);
        })
        a

  loop-Alike :
      (P : ℕ → Type 0) (n : ℕ) (g h : Groups nel ids no_weight)
      → ((ai : ℕ) → ai < n → routed nel ids no_weight ai ≡ true → P (ids ai))
      → Alike P g h
      → Alike P (loop n (push_one nel ids no_weight) g) (loop n (push_one nel ids no_weight) h)
  loop-Alike P zero g h k a = a
  loop-Alike P (suc n) g h k a =
      push-Alike P n (loop n (push_one nel ids no_weight) g) (loop n (push_one nel ids no_weight) h)
        (k n (omega arith)) (loop-Alike P n g h (λ ai lt. k ai (omega arith)) a)

  -- A list that no assignment goes to stays as it was.
  loop-idle :
      (n e : ℕ) (g : Groups nel ids no_weight)
      → ((ai : ℕ) → ai < n → routed nel ids no_weight ai ≡ true → ids ai ≢ e)
      → (loop n (push_one nel ids no_weight) g).list e ≡ g.list e
  loop-idle zero e g k = refl
  loop-idle (suc n) e g k =
      let before = loop n (push_one nel ids no_weight) g in
      if-both (λ (h : Groups nel ids no_weight). h.list e ≡ before.list e)
        (routed nel ids no_weight n) (added n before) before
        (λ r. update-other before.list (ids n) e _ (k n (omega arith) r)) (λ _. refl)
      ∙ loop-idle n e g (λ ai lt. k ai (omega arith))

  -- Entry i of a list has index i.
  abbrev Numbered : Groups nel ids no_weight → Type 0
  Numbered g = (e i : ℕ) → i < length (g.list e) → g.index (get_or (g.list e) i 0) ≡ i

  module _ (n : ℕ) (g : Groups nel ids no_weight) (h : Grouped nel ids no_weight n g)
      (k : Numbered g) where
    -- The entries that stand there before n is pushed.
    still : (e v i : ℕ) → i < length (g.list e) → update g.index n v (get_or (g.list e) i 0) ≡ i
    still e v i il =
        let (below, _, _) = h.entry e i il in
        update-other g.index n (get_or (g.list e) i 0) v (λ q. absurd (omega arith)) ∙ k e i il

    pushed :
        (i : ℕ)
        → i < length (g.list (ids n) ++ n ∷ [])
        → update g.index n (length (g.list (ids n))) (get_or (g.list (ids n) ++ n ∷ []) i 0) ≡ i
    pushed i il =
        let xs = g.list (ids n) in
        let index = update g.index n (length xs) in
        elim (dec_lt i (length xs)) [
          | yes b ↦ ap index (get_or-append xs (n ∷ []) i 0 b) ∙ still (ids n) (length xs) i b
          | no nb ↦
              let last : i ≡ length xs = omega (arith, length-append xs (n ∷ [])) in
              ap (λ j. index (get_or (xs ++ n ∷ []) j 0)) last
              ∙ ap index (get_or-append_last xs n 0)
              ∙ update-same g.index n (length xs)
              ∙ sym last
        ]

    added-Numbered : Numbered (added n g)
    added-Numbered e i il =
        let index = update g.index n (length (g.list (ids n))) in
        let list = update g.list (ids n) (g.list (ids n) ++ n ∷ []) in
        elim (ℕ_discrete (ids n) e) [
          | yes q ↦
              let own = ap list (sym q) ∙ update-same g.list (ids n) (g.list (ids n) ++ n ∷ []) in
              ap (λ xs. index (get_or xs i 0)) own ∙ pushed i (subst (λ xs. i < length xs) own il)
          | no d ↦
              let other = update-other g.list (ids n) e (g.list (ids n) ++ n ∷ []) d in
              ap (λ xs. index (get_or xs i 0)) other
              ∙ still e (length (g.list (ids n))) i (subst (λ xs. i < length xs) other il)
        ]

  per_expert-Numbered : (n : ℕ) → Numbered (per_expert nel ids no_weight n)
  per_expert-Numbered zero = λ e i il. absurd (omega arith)
  per_expert-Numbered (suc n) =
      let g = per_expert nel ids no_weight n in
      let before = per_expert-Numbered n in
      if-both Numbered (routed nel ids no_weight n) (added n g) g
        (λ _. added-Numbered n g (per_expert-Grouped nel ids no_weight n) before) (λ _. before)

  -- What the grouping leaves: for an expert with a routed assignment, a list of its own routed
  -- assignments, each at its index; every routed assignment at its index; the other lists as before.
  pub record Regrouped (old : ℕ → List ℕ) (n : ℕ) (g : Groups nel ids no_weight) : Type 0 where
    pub entry :
        (e : ℕ) → 1 ≤ counts nel ids no_weight n e → Members nel ids no_weight n e (g.list e)
    pub numbered :
        (e i : ℕ)
        → 1 ≤ counts nel ids no_weight n e
        → i < length (g.list e)
        → g.index (get_or (g.list e) i 0) ≡ i
    pub placed :
        (ai : ℕ)
        → ai < n
        → routed nel ids no_weight ai ≡ true
        → At nel ids no_weight (g.list (ids ai)) (g.index ai) ai
    pub kept : (e : ℕ) → counts nel ids no_weight n e ≡ 0 → g.list e ≡ old e

  -- Whatever an earlier call has left in the lists: after the loops over n assignments the list of
  -- an expert with a routed assignment holds routed assignments to that expert only, entry i of it
  -- with `inst_idx_` i (so none twice), every routed assignment stands in its expert's list at its
  -- `inst_idx_`, and the lists of the other experts are as they were.
  pub regroup-Regrouped :
      (old : ℕ → List ℕ) (n : ℕ) → Regrouped old n (regroup nel ids no_weight old n)
  regroup-Regrouped old n =
      let g = regroup nel ids no_weight old n in
      let h = per_expert nel ids no_weight n in
      let c = counts nel ids no_weight n in
      let start = λ (e : ℕ). if c e == 0 then old e else [] in
      let same =
        loop-Alike (λ e. 1 ≤ c e) n (record { list = start; index = λ _. 0 })
          (record { list = λ _. []; index = λ _. 0 }) (counts-pos nel ids no_weight n)
          (record {
            lists = λ e p.
                if-both (λ xs. xs ≡ []) (c e == 0) (old e) [] (λ t. absurd (ground arith))
                  (λ _. refl);
            indices = λ ai. refl;
          }) in
      let grouped = per_expert-Grouped nel ids no_weight n in
      record {
        entry =
            λ e p. subst (Members nel ids no_weight n e) (sym (same.lists e p)) (grouped.entry e);
        numbered = λ e i p il.
            same.indices (get_or (g.list e) i 0)
            ∙ ap (λ xs. h.index (get_or xs i 0)) (same.lists e p)
            ∙ per_expert-Numbered n e i (subst (λ xs. i < length xs) (same.lists e p) il);
        placed = λ ai lt r.
            subst (λ xs. At nel ids no_weight xs (g.index ai) ai)
              (sym (same.lists (ids ai) (counts-pos nel ids no_weight n ai lt r)))
              (subst (λ i. At nel ids no_weight (h.list (ids ai)) i ai) (sym (same.indices ai))
                (grouped.placed ai lt r));
        kept = λ e z.
            loop-idle n e (record { list = start; index = λ _. 0 })
              (λ ai lt r q. absurd (omega (arith, counts-pos nel ids no_weight n ai lt r, ap c q)))
            ∙ if-both (λ xs. xs ≡ old e) (c e == 0) (old e) [] (λ _. refl)
                (λ t. absurd (ground arith));
      }
