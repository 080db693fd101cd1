-- ===== src/Base/Members.antt =====
-- Members of a list that have a property.
use Prim.Native.Nat.{ℕ, zero, suc, ◌<◌}
use mathlib.Core.Logic.{◌⊎◌, inl, inr, Lift}
use mathlib.Core.List.{List, [], ◌∷◌, ◌++◌}
use native.Mathlib.Omega.{arith}
use xiaotu_moe.Base.Lists.{length, get_or, All}

module _ {ℓ κ} {A : Type ℓ} (P : A → Type κ) where
  abbrev pub Any : List A → Type κ
  Any [] = Lift ⊥
  Any (x ∷ xs) = P x ⊎ Any xs

  pub Any-index : (xs : List A) (d : A) → Any xs → (i : ℕ) × (i < length xs) × P (get_or xs i d)
  Any-index [] d h = absurd h.lower
  Any-index (x ∷ xs) d (inl p) = (0, omega arith, p)
  Any-index (x ∷ xs) d (inr h) = let (i, lt, p) = Any-index xs d h in (suc i, omega arith, p)

  pub Any-append_left : (xs ys : List A) → Any xs → Any (xs ++ ys)
  Any-append_left [] ys h = absurd h.lower
  Any-append_left (x ∷ xs) ys (inl p) = inl p
  Any-append_left (x ∷ xs) ys (inr h) = inr (Any-append_left xs ys h)

  pub Any-append_right : (xs ys : List A) → Any ys → Any (xs ++ ys)
  Any-append_right [] ys h = h
  Any-append_right (x ∷ xs) ys h = inr (Any-append_right xs ys h)

  pub All-append : (xs ys : List A) → All P xs → All P ys → All P (xs ++ ys)
  All-append [] ys h k = k
  All-append (x ∷ xs) ys (p, h) k = (p, All-append xs ys h k)

  pub All-get_or : (xs : List A) (d : A) (i : ℕ) → All P xs → i < length xs → P (get_or xs i d)
  All-get_or [] d i h lt = absurd (omega arith)
  All-get_or (x ∷ xs) d zero (p, h) lt = p
  All-get_or (x ∷ xs) d (suc i) (p, h) lt = All-get_or xs d i h (omega arith)

  pub All-get_or_default : (xs : List A) (d : A) (i : ℕ) → P d → All P xs → P (get_or xs i d)
  All-get_or_default [] d i p h = p
  All-get_or_default (x ∷ xs) d zero p (q, h) = q
  All-get_or_default (x ∷ xs) d (suc i) p (q, h) = All-get_or_default xs d i p h

pub All-both {ℓ κ ι} :
    {A : Type ℓ} (P : A → Type κ) (Q : A → Type ι) (xs : List A)
    → All P xs
    → All Q xs
    → All (λ x. P x × Q x) xs
All-both P Q [] h k = tt
All-both P Q (x ∷ xs) (p, h) (q, k) = ((p, q), All-both P Q xs h k)

pub All-map {ℓ κ ι} :
    {A : Type ℓ} (P : A → Type κ) (Q : A → Type ι) (xs : List A)
    → ((x : A) → P x → Q x)
    → All P xs
    → All Q xs
All-map P Q [] f h = tt
All-map P Q (x ∷ xs) f (p, h) = (f x p, All-map P Q xs f h)
