-- ===== src/Layers/Covered.antt =====
-- The groups cover the batch, each token once and in order, and the loop ends.
use xiaotu_moe.Base.{
  refl, sym, ap, ◌∙◌, subst, arith, ℕ, zero, suc, ◌+◌, ◌-◌, ◌≤◌, ◌≡◌, ◌==◌, ◌++◌, min, ltb, List,
  ◌∷◌, Option, none, some, range, All, if-both, [],
}
use xiaotu_moe.Layers.Batches.{
  Batch, group, singles, and_then, rounds, tokens, Fits, forward, forward_rec,
}

-- What a finished run has done with n tokens from pos on.
abbrev pub Covers : ℕ → ℕ → ℕ → Option (List Batch) → Type 0
Covers group_max_len pos n none = ⊥
Covers group_max_len pos n (some bs) = (tokens bs ≡ range pos n) × All (Fits group_max_len) bs

range-append : (i m n : ℕ) → range i m ++ range (i + m) n ≡ range i (m + n)
range-append i zero n =
    ap (λ j. range j n) {x = i + zero} {y = i} (omega arith) ∙ ap (range i) (omega arith)
range-append i (suc m) n =
    ap (λ ts. i ∷ ts)
      (ap (λ j. range (suc i) m ++ range j n) (omega arith) ∙ range-append (suc i) m n)
    ∙ ap (range i) {x = suc (m + n)} {y = suc m + n} (omega arith)

singles-Covers : (g pos n : ℕ) → Covers g pos n (some (singles pos n))
singles-Covers g pos zero = (refl, tt)
singles-Covers g pos (suc n) =
    let (e, a) = singles-Covers g (suc pos) n in (ap (λ ts. pos ∷ ts) e, (tt, a))

group-Covers :
    (g pos len n : ℕ) (rest : Option (List Batch))
    → 1 ≤ len
    → len ≤ g
    → len ≤ n
    → Covers g (pos + len) (n - len) rest
    → Covers g pos n (and_then (group pos len) rest)
group-Covers g pos len n none p q l h = h
group-Covers g pos len n (some bs) p q l (e, a) = (
  ap (λ ts. range pos len ++ ts) e ∙ range-append pos len (n - len) ∙ ap (range pos) (omega arith),
  ((p, q), a),
)

none_left : (hi pos n : ℕ) → n ≡ 0 → Covers hi pos n (some [])
none_left hi pos n e = (ap (range pos) (sym e), tt)

-- What holds of no call, of a call of forward_one for each token, and of a call of forward_many
-- before the rest, holds of the calls of MOE::forward.
module _ {ℓ} (C : ℕ → ℕ → Option (List Batch) → Type ℓ) (lo hi : ℕ)
    (nothing : (pos n : ℕ) → n ≡ 0 → C pos n (some []))
    (ones : (pos n : ℕ) → C pos n (some (singles pos n)))
    (more : (pos len n : ℕ) (rest : Option (List Batch))
      → 1 ≤ len
      → len ≤ hi
      → len ≤ n
      → C (pos + len) (n - len) rest
      → C pos n (and_then (group pos len) rest)) where
  pub rounds_rule : (fuel pos n : ℕ) → 1 ≤ hi → n ≤ fuel → C pos n (rounds fuel lo hi pos n)
  rounds_rule zero pos n p f =
      if-both (C pos n) (n == 0) _ _ (λ e. nothing pos n (omega arith)) (λ e. absurd (ground arith))
  rounds_rule (suc fuel) pos n p f =
      if-both (C pos n) (n == 0) _ _ (λ e. nothing pos n (ground arith))
        (λ e.
          if-both (C pos n) (ltb n lo) _ _ (λ _. ones pos n)
            (λ _.
              more pos (min hi n) n _ (ground arith) (omega arith) (omega arith)
                (rounds_rule fuel (pos + min hi n) (n - min hi n) p (ground arith))))

rounds-Covers :
    (fuel lo hi pos n : ℕ) → 1 ≤ hi → n ≤ fuel → Covers hi pos n (rounds fuel lo hi pos n)
rounds-Covers fuel lo hi =
    rounds_rule (Covers hi) lo hi (none_left hi) (singles-Covers hi) (group-Covers hi) fuel

-- With group_max_len at least 1 the recursion of MLP::forward and Linear::forward ends, at a depth
-- of at most the n tokens that are left from pos on: its calls of forward_many work on each of
-- them exactly once, in order, on at least one and at most group_max_len tokens each.
pub forward_rec-Covers :
    (fuel hi pos n : ℕ) → 1 ≤ hi → n ≤ fuel → Covers hi pos n (forward_rec fuel hi pos n)
forward_rec-Covers zero hi pos n p f =
    if-both (Covers hi pos n) (n == 0) _ _ (λ e. none_left hi pos n (omega arith))
      (λ e. absurd (ground arith))
forward_rec-Covers (suc fuel) hi pos n p f =
    if-both (Covers hi pos n) (n == 0) _ _ (λ e. none_left hi pos n (ground arith))
      (λ e.
        group-Covers hi pos (min n hi) n _ (ground arith) (omega arith) (omega arith)
          (forward_rec-Covers fuel hi (pos + min n hi) (n - min n hi) p (ground arith)))

-- With group_max_len at least 1 the loop of MOE::forward ends, after no more rounds than there are
-- tokens in batch_size_tensor[0], for every group_min_len: the calls of forward_one and
-- forward_many that it has made work on each token of the batch exactly once, in order, and no
-- call of forward_many takes more than group_max_len tokens.
pub forward-Covers :
    (fuel lo hi qlen batch_size : ℕ)
    → 1 ≤ hi
    → batch_size ≤ fuel
    → Covers hi 0 batch_size (forward fuel lo hi qlen batch_size)
forward-Covers fuel lo hi qlen batch_size p f =
    if-both (λ n. Covers hi 0 batch_size (rounds fuel lo hi 0 n)) (qlen == batch_size) qlen
      batch_size
      (λ e.
        subst (λ n. Covers hi 0 batch_size (rounds fuel lo hi 0 n)) {x = batch_size} {y = qlen}
          (ground arith) (rounds-Covers fuel lo hi 0 batch_size p f))
      (λ _. rounds-Covers fuel lo hi 0 batch_size p f)

rounds_stuck : (fuel lo pos n : ℕ) → 1 ≤ n → lo ≤ n → rounds fuel lo 0 pos n ≡ none
rounds_stuck zero lo pos n p q =
    if-both (λ r. r ≡ none) (n == 0) _ _ (λ e. absurd (ground arith)) (λ _. refl)
rounds_stuck (suc fuel) lo pos n p q =
    if-both (λ r. r ≡ none) (n == 0) _ _ (λ e. absurd (ground arith))
      (λ _.
        if-both (λ r. r ≡ none) (ltb n lo) _ _ (λ e. absurd (ground arith))
          (λ _. ap (and_then _) (
            subst (λ m. rounds fuel lo 0 (pos + min 0 n) m ≡ none) {x = n} {y = n - min 0 n}
              (omega arith) (rounds_stuck fuel lo (pos + min 0 n) n p q))))

-- With group_max_len = 0 the loop of MOE::forward never ends on a batch that is not empty and not
-- below group_min_len: no amount of fuel is enough.
pub forward_stuck :
    (fuel lo qlen batch_size : ℕ)
    → 1 ≤ batch_size
    → lo ≤ batch_size
    → forward fuel lo 0 qlen batch_size ≡ none
forward_stuck fuel lo qlen batch_size p q =
    if-both (λ n. rounds fuel lo 0 0 n ≡ none) (qlen == batch_size) qlen batch_size
      (λ e. rounds_stuck fuel lo 0 qlen (ground arith) (ground arith))
      (λ _. rounds_stuck fuel lo 0 batch_size p q)
