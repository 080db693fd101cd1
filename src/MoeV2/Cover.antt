-- ===== src/MoeV2/Cover.antt =====
-- The jobs cover every list, within its bounds; `active` holds every expert that is routed to.
use xiaotu_moe.Base.{
  ℕ, zero, suc, ◌+◌, ◌≤◌, ◌<◌, ◌≡◌, inl, inr, refl, sym, subst, arith, Bool, true, Bool-cases,
  if◌then◌else◌, ltb, min, List, [], ◌∷◌, length, All, Any, Any-append_left, Any-append_right,
  All-append, dec_lt, lt→ltb, ℕ_discrete, ◌==◌, false, update,
}
use xiaotu_moe.MoeV2.Jobs.{Job, chunks, jobs_from, perjob_of}
use xiaotu_moe.MoeV2.Grouping.{routed-lt}
use xiaotu_moe.MoeV2.Routing.{routed, counts, active_below, active, count_one}

-- Job j works on index i of the list of e; job j stays within the lists.
abbrev pub Takes : ℕ → ℕ → Job → Type 0
Takes e i j = (j.eid ≡ e) × (j.ab ≤ i) × (i < j.ae)

abbrev pub Within : (ℕ → List ℕ) → Job → Type 0
Within per_expert j = j.ae ≤ length (per_expert j.eid)

chunks-cover :
    (fuel e perjob size b i : ℕ)
    → 1 ≤ perjob
    → b ≤ i
    → i < size
    → size ≤ fuel + b
    → Any (Takes e i) (chunks fuel e perjob size b)
chunks-cover zero e perjob size b i p lo hi f = absurd (omega arith)
chunks-cover (suc fuel) e perjob size b i p lo hi f =
    subst
      (λ c. Any (Takes e i) (
        if c
        then record { eid = e; ab = b; ae = min (b + perjob) size }
          ∷ chunks fuel e perjob size (b + perjob)
        else []))
      (sym (lt→ltb b size (omega arith)))
      (elim (dec_lt i (b + perjob)) [
        | yes here ↦ inl (refl, lo, omega arith)
        | no later ↦
            inr (chunks-cover fuel e perjob size (b + perjob) i p (omega arith) hi (omega arith))
      ])

chunks-Within :
    (per_expert : ℕ → List ℕ) (fuel e perjob b : ℕ)
    → All (Within per_expert) (chunks fuel e perjob (length (per_expert e)) b)
chunks-Within per_expert zero e perjob b = tt
chunks-Within per_expert (suc fuel) e perjob b = elim (Bool-cases (ltb b (length (per_expert e)))) [
  | inl t ↦
      subst
        (λ c. All (Within per_expert) (
          if c
          then record { eid = e; ab = b; ae = min (b + perjob) (length (per_expert e)) }
            ∷ chunks fuel e perjob (length (per_expert e)) (b + perjob)
          else []))
        (sym t) (omega arith, chunks-Within per_expert fuel e perjob (b + perjob))
  | inr f ↦
      subst
        (λ c. All (Within per_expert) (
          if c
          then record { eid = e; ab = b; ae = min (b + perjob) (length (per_expert e)) }
            ∷ chunks fuel e perjob (length (per_expert e)) (b + perjob)
          else []))
        (sym f) tt
]

pub jobs_from-cover :
    (perjob : ℕ) (per_expert : ℕ → List ℕ) (es : List ℕ) (e i : ℕ)
    → 1 ≤ perjob
    → Any (λ x. x ≡ e) es
    → i < length (per_expert e)
    → Any (Takes e i) (jobs_from perjob per_expert es)
jobs_from-cover perjob per_expert [] e i p h lt = absurd h.lower
jobs_from-cover perjob per_expert (x ∷ es) e i p (inl q) lt = Any-append_left (Takes e i) _ _ (
    subst (λ y. Any (Takes e i) (chunks (length (per_expert y)) y perjob (length (per_expert y)) 0))
      (sym q)
      (chunks-cover (length (per_expert e)) e perjob (length (per_expert e)) 0 i p (omega arith) lt
        (omega arith)))
jobs_from-cover perjob per_expert (x ∷ es) e i p (inr h) lt =
    Any-append_right (Takes e i) _ _ (jobs_from-cover perjob per_expert es e i p h lt)

pub jobs_from-Within :
    (perjob : ℕ) (per_expert : ℕ → List ℕ) (es : List ℕ)
    → All (Within per_expert) (jobs_from perjob per_expert es)
jobs_from-Within perjob per_expert [] = tt
jobs_from-Within perjob per_expert (e ∷ es) =
    All-append (Within per_expert) _ _ (chunks-Within per_expert _ e perjob 0)
      (jobs_from-Within perjob per_expert es)

pub perjob_of-pos : (nt total : ℕ) → 1 ≤ perjob_of nt total
perjob_of-pos nt total = ground arith

nonzero : (x : ℕ) → 1 ≤ x → (x == 0) ≡ false
nonzero x h = ground arith

active_below-has :
    (n : ℕ) (c : ℕ → ℕ) (e : ℕ) → e < n → 1 ≤ c e → Any (λ x. x ≡ e) (active_below n c)
active_below-has zero c e h p = absurd (omega arith)
active_below-has (suc n) c e h p = elim (ℕ_discrete e n) [
  | yes q ↦
      Any-append_right (λ x. x ≡ e) (active_below n c) _
        (subst (λ b. Any (λ x. x ≡ e) (if b then [] else n ∷ []))
          (sym (subst (λ x. (c x == 0) ≡ false) q (nonzero (c e) p))) (inl (sym q)))
  | no d ↦
      Any-append_left (λ x. x ≡ e) (active_below n c) _ (active_below-has n c e (omega arith) p)
]

module _ (nel : ℕ) (ids : ℕ → ℕ) (no_weight : ℕ → Bool) where
  count_one-ge : (n : ℕ) (c : ℕ → ℕ) (e : ℕ) → 1 ≤ c e → 1 ≤ count_one nel ids no_weight n c e
  count_one-ge n c e h = elim (Bool-cases (routed nel ids no_weight n)) [
    | inl r ↦
        subst (λ b. 1 ≤ (if b then update c (ids n) (c (ids n) + 1) else c) e) (sym r)
          (ground arith)
    | inr r ↦ subst (λ b. 1 ≤ (if b then update c (ids n) (c (ids n) + 1) else c) e) (sym r) h
  ]

  count_one-own :
      (n : ℕ) (c : ℕ → ℕ)
      → routed nel ids no_weight n ≡ true
      → 1 ≤ count_one nel ids no_weight n c (ids n)
  count_one-own n c r =
      subst (λ b. 1 ≤ (if b then update c (ids n) (c (ids n) + 1) else c) (ids n)) (sym r)
        (ground arith)

  pub counts-pos :
      (n ai : ℕ)
      → ai < n
      → routed nel ids no_weight ai ≡ true
      → 1 ≤ counts nel ids no_weight n (ids ai)
  counts-pos zero ai h r = absurd (omega arith)
  counts-pos (suc n) ai h r = elim (ℕ_discrete ai n) [
    | yes q ↦
        subst (λ x. 1 ≤ counts nel ids no_weight (suc n) (ids x)) (sym q)
          (count_one-own n (counts nel ids no_weight n)
            (subst (λ x. routed nel ids no_weight x ≡ true) q r))
    | no d ↦ count_one-ge n (counts nel ids no_weight n) (ids ai) (counts-pos n ai (omega arith) r)
  ]

  -- Every expert that an assignment below n is routed to is in `active`.
  pub active-has :
      (n ai : ℕ)
      → ai < n
      → routed nel ids no_weight ai ≡ true
      → Any (λ x. x ≡ ids ai) (active nel ids no_weight n)
  active-has n ai h r =
      active_below-has nel (counts nel ids no_weight n) (ids ai) (routed-lt nel ids no_weight ai r)
        (counts-pos n ai h r)
