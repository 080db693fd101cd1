-- ===== src/Base/Turns.antt =====
-- A run of jobs in which one job has its turn: P holds until then, and Q from then on.
use Prim.Native.Nat.{ℕ, ◌≤◌, ◌<◌}
use mathlib.Core.Path.{◌≡◌, subst, sym}
use mathlib.Core.Logic.{◌≢◌}
use mathlib.Core.List.{List, [], ◌∷◌}
use native.Mathlib.Omega.{arith}
use native.Mathlib.Decide.{ℕ_discrete, dec_lt}
use xiaotu_moe.Base.Loop.{run_all, count, Once}

-- Only numbers below n run.
abbrev Only : ℕ → List ℕ → Type 0
Only n order = (i : ℕ) → n ≤ i → count i order ≡ 0

Only-head : (n i : ℕ) (is : List ℕ) → Only n (i ∷ is) → i < n
Only-head n i is o = elim (dec_lt i n) [
  | yes l ↦ l
  | no m ↦ absurd (ground (arith, o i (omega arith)))
]

Only-tail : (n i : ℕ) (is : List ℕ) → Only n (i ∷ is) → Only n is
Only-tail n i is o j h = omega (arith, o j h)

module _ {ℓ κ ι} {S : Type ℓ} (P : S → Type κ) (Q : S → Type ι) (f : ℕ → S → S) (n j : ℕ)
    (keep : (i : ℕ) → i < n → i ≢ j → (s : S) → P s → P (f i s)) (turn : (s : S) → P s → Q (f j s))
    (stay : (i : ℕ) → i < n → i ≢ j → (s : S) → Q s → Q (f i s)) where
  after_turn :
      (order : List ℕ) → Only n order → count j order ≡ 0 → (s : S) → Q s → Q (run_all f order s)
  after_turn [] o c s q = q
  after_turn (i ∷ is) o c s q =
      after_turn is (Only-tail n i is o) (omega arith) (f i s)
        (stay i (Only-head n i is o) (λ e. ground arith) s q)

  in_turn :
      (order : List ℕ) → Only n order → count j order ≡ 1 → (s : S) → P s → Q (run_all f order s)
  in_turn [] o c s p = absurd (omega arith)
  in_turn (i ∷ is) o c s p = elim (ℕ_discrete j i) [
    | yes e ↦
        after_turn is (Only-tail n i is o) (ground arith) (f i s)
          (subst (λ x. Q (f x s)) e (turn s p))
    | no d ↦
        in_turn is (Only-tail n i is o) (ground arith) (f i s)
          (keep i (Only-head n i is o) (λ e. d (sym e)) s p)
  ]

  pub run_all-turn : (order : List ℕ) → Once n order → j < n → (s : S) → P s → Q (run_all f order s)
  run_all-turn order o lt = in_turn order o.only (o.once j lt)

-- The same where the turn of the job establishes Q from any state.
module _ {ℓ ι} {S : Type ℓ} (Q : S → Type ι) (f : ℕ → S → S) (n j : ℕ) (turn : (s : S) → Q (f j s))
    (stay : (i : ℕ) → i < n → i ≢ j → (s : S) → Q s → Q (f i s)) where
  pub run_all-settles : (order : List ℕ) → Once n order → j < n → (s : S) → Q (run_all f order s)
  run_all-settles order o lt s =
      run_all-turn (λ _. n ≡ n) Q f n j (λ i l d x p. p) (λ x p. turn x) stay order o lt s (λ i. n)
