-- ===== src/Base/Rows.antt =====
-- Row-major indices.
use Prim.Native.Nat.{ℕ, ◌+◌, ◌*◌, ◌/◌, ◌<◌, ◌%◌, ◌≤◌, suc, zero}
use mathlib.Core.Path.{◌≡◌, sym, ap, ◌∙◌, subst}
use native.Mathlib.Nat.{mul-le-mul_right, mul-add-div_right, div-eq_of_lt, div-add-mod', mod-lt}
use native.Mathlib.Decide.{dec_lt}
use native.Mathlib.Omega.{arith}

pub row-lt : (n k t r : ℕ) → t < n → r < k → t * k + r < n * k
row-lt n k t r a b = omega (arith, mul-le-mul_right k a)

pub row-div : (k t r : ℕ) → r < k → (t * k + r) / k ≡ t
row-div k t r h =
    mul-add-div_right (omega arith) t r ∙ ap (λ x. t + x) (div-eq_of_lt h) ∙ omega arith

pub row-mod : (k t r : ℕ) → r < k → (t * k + r) % k ≡ r
row-mod k t r h = omega (arith, div-add-mod' (t * k + r) k, ap (λ x. x * k) (row-div k t r h))

pub div-lt : (n k a : ℕ) → a < n * k → a / k < n
div-lt n k a h = elim (dec_lt (a / k) n) [
  | yes l ↦ l
  | no x ↦ absurd (omega (arith, h, mul-le-mul_right k (le x), div-add-mod' a k))
]
  where
    le : ¬ (a / k < n) → n ≤ a / k
    le x = omega arith

-- Number c of n blocks of k is in block c / k.
pub in_block : (n k c : ℕ) → 1 ≤ k → c < n * k → (c / k < n) × (c % k < k) × (c / k * k + c % k ≡ c)
in_block n k c p l = (div-lt n k c l, mod-lt c p, omega (arith, div-add-mod' c k))

pub row_injective : (k t r u q : ℕ) → r < k → q < k → t * k + r ≡ u * k + q → (t ≡ u) × (r ≡ q)
row_injective k t r u q a b e = (
  sym (row-div k t r a) ∙ ap (λ x. x / k) e ∙ row-div k u q b,
  sym (row-mod k t r a) ∙ ap (λ x. x % k) e ∙ row-mod k u q b,
)

-- A sequence that starts at or below i and ends above it crosses i at some step.
pub crossing :
    (b : ℕ → ℕ) (n i : ℕ) → b 0 ≤ i → i < b n → (c : ℕ) × (c < n) × (b c ≤ i) × (i < b (c + 1))
crossing b zero i lo hi = absurd (omega arith)
crossing b (suc n) i lo hi = elim (dec_lt i (b n)) [
  | yes below ↦ let (c, lt, l, h) = crossing b n i lo below in (c, omega arith, l, h)
  | no above ↦ (n, omega arith, omega arith, subst (λ x. i < b x) (omega arith) hi)
]
