-- ===== src/Base/Loop.antt =====
-- Counting loops, jobs run in some order, and what a run leaves in one cell.
use Prim.Native.Nat.{ℕ, zero, suc, ◌+◌, ◌≤◌, ◌<◌}
use mathlib.Core.Path.{◌≡◌, refl, ap, ◌∙◌, subst, sym}
use mathlib.Core.Logic.{ite, ◌≢◌}
use mathlib.Core.List.{List, [], ◌∷◌}
use native.Mathlib.Omega.{arith}
use native.Mathlib.Decide.{ℕ_discrete}

-- `for (i = 0; i < n; ++i) s = f(i, s)`.
abbrev pub loop {ℓ} : {S : Type ℓ} → ℕ → (ℕ → S → S) → S → S
loop zero f s = s
loop (suc n) f s = f n (loop n f s)

-- The jobs of a parallel loop, in the order in which they happen to run.
abbrev pub run_all {ℓ} : {S : Type ℓ} → (ℕ → S → S) → List ℕ → S → S
run_all f [] s = s
run_all f (i ∷ is) s = run_all f is (f i s)

abbrev pub count : ℕ → List ℕ → ℕ
count i [] = 0
count i (j ∷ js) = ite (ℕ_discrete i j) 1 0 + count i js

-- Each of the numbers below n once, and no other.
pub record Once (n : ℕ) (order : List ℕ) : Type 0 where
  pub once : (i : ℕ) → i < n → count i order ≡ 1
  pub only : (i : ℕ) → n ≤ i → count i order ≡ 0

-- One cell, read by `cell`: a step that writes it writes `v`, and no other step changes that.
module _ {ℓ κ} {S : Type ℓ} {A : Type κ} (cell : S → A) (v : A) (f : ℕ → S → S) where
  pub run_all-keeps :
      ((i : ℕ) → (s : S) → cell s ≡ v → cell (f i s) ≡ v)
      → (order : List ℕ) (s : S) → cell s ≡ v
      → cell (run_all f order s) ≡ v
  run_all-keeps k [] s e = e
  run_all-keeps k (i ∷ is) s e = run_all-keeps k is (f i s) (k i s e)

  pub run_all-writes :
      ((i : ℕ) → (s : S) → cell s ≡ v → cell (f i s) ≡ v)
      → (j : ℕ) → ((s : S) → cell (f j s) ≡ v)
      → (order : List ℕ) (s : S) → 1 ≤ count j order
      → cell (run_all f order s) ≡ v
  run_all-writes k j w [] s h = absurd (omega arith)
  run_all-writes k j w (i ∷ is) s h = elim (ℕ_discrete j i) [
    | yes e ↦ run_all-keeps k is (f i s) (subst (λ x. cell (f x s) ≡ v) e (w s))
    | no n ↦ run_all-writes k j w is (f i s) (ground arith)
  ]

  pub loop-keeps :
      (n : ℕ)
      → ((i : ℕ) → i < n → (s : S) → cell s ≡ v → cell (f i s) ≡ v)
      → (s : S) → cell s ≡ v
      → cell (loop n f s) ≡ v
  loop-keeps zero k s e = e
  loop-keeps (suc n) k s e = k n (omega arith) _ (loop-keeps n (λ i lt. k i (omega arith)) s e)

  pub loop-writes :
      (n : ℕ)
      → ((i : ℕ) → i < n → (s : S) → cell s ≡ v → cell (f i s) ≡ v)
      → (j : ℕ) → ((s : S) → cell (f j s) ≡ v)
      → (s : S) → j < n
      → cell (loop n f s) ≡ v
  loop-writes zero k j w s h = absurd (omega arith)
  loop-writes (suc n) k j w s h = elim (ℕ_discrete j n) [
    | yes e ↦ subst (λ x. cell (f x (loop n f s)) ≡ v) e (w _)
    | no d ↦ k n (omega arith) _ (loop-writes n (λ i lt. k i (omega arith)) j w s (omega arith))
  ]

-- Jobs that each change a cell of their own, from what it held.
module _ {ℓ κ} {S : Type ℓ} {A : Type κ} (cell : S → A) (f : ℕ → S → S) where
  pub run_all-skips :
      (j : ℕ)
      → ((i : ℕ) → (s : S) → i ≢ j → cell (f i s) ≡ cell s)
      → (order : List ℕ) (s : S) → count j order ≡ 0
      → cell (run_all f order s) ≡ cell s
  run_all-skips j o [] s h = refl
  run_all-skips j o (i ∷ is) s h = elim (ℕ_discrete j i) [
    | yes e ↦ absurd (ground arith)
    | no n ↦ run_all-skips j o is (f i s) (ground arith) ∙ o i s (λ e. n (sym e))
  ]

  pub run_all-once :
      (j : ℕ) (g : A → A)
      → ((s : S) → cell (f j s) ≡ g (cell s))
      → ((i : ℕ) → (s : S) → i ≢ j → cell (f i s) ≡ cell s)
      → (order : List ℕ) (s : S) → count j order ≡ 1
      → cell (run_all f order s) ≡ g (cell s)
  run_all-once j g w o [] s h = absurd (omega arith)
  run_all-once j g w o (i ∷ is) s h = elim (ℕ_discrete j i) [
    | yes e ↦
        run_all-skips j o is (f i s) (ground arith) ∙ subst (λ x. cell (f x s) ≡ g (cell s)) e (w s)
    | no n ↦ run_all-once j g w o is (f i s) (ground arith) ∙ ap g (o i s (λ e. n (sym e)))
  ]

module _ {ℓ} {S : Type ℓ} where
  pub loop-congr :
      (n : ℕ) (f g : ℕ → S → S)
      → ((i : ℕ) → i < n → (s : S) → f i s ≡ g i s)
      → (s : S) → loop n f s ≡ loop n g s
  loop-congr zero f g h s = refl
  loop-congr (suc n) f g h s =
      h n (omega arith) (loop n f s) ∙ ap (g n) (loop-congr n f g (λ i lt. h i (omega arith)) s)

-- Two loops whose steps agree on a cell.
module _ {ℓ κ} {S : Type ℓ} {A : Type κ} (cell : S → A) where
  pub loop-agree :
      (n : ℕ) (f g : ℕ → S → S)
      → ((i : ℕ) → i < n → (s r : S) → cell s ≡ cell r → cell (f i s) ≡ cell (g i r))
      → (s r : S) → cell s ≡ cell r
      → cell (loop n f s) ≡ cell (loop n g r)
  loop-agree zero f g h s r e = e
  loop-agree (suc n) f g h s r e =
      h n (omega arith) _ _ (loop-agree n f g (λ i lt. h i (omega arith)) s r e)
