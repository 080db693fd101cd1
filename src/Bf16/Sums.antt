-- ===== src/Bf16/Sums.antt =====
-- Sums in a commutative monoid, and the same sum taken lane by lane.
use xiaotu_moe.Base.{refl, sym, ap, ◌∙◌, arith, ℕ, zero, suc, ◌+◌, ◌*◌, ◌≡◌, loop}

module _ {A : Type 0} (nil : A) (add : A → A → A)
    (assoc : (x y z : A) → add (add x y) z ≡ add x (add y z)) (comm : (x y : A) → add x y ≡ add y x)
    (unit : (x : A) → add x nil ≡ x) where
  abbrev pub sum : ℕ → (ℕ → A) → A
  sum n g = loop n (λ k acc. add acc (g k)) nil

  pub sum-congr : (n : ℕ) (f g : ℕ → A) → ((k : ℕ) → f k ≡ g k) → sum n f ≡ sum n g
  sum-congr zero f g h = refl
  sum-congr (suc n) f g h = ap (λ x. add x (f n)) (sum-congr n f g h) ∙ ap (add (sum n g)) (h n)

  sum-nil : (n : ℕ) → sum n (λ _. nil) ≡ nil
  sum-nil zero = refl
  sum-nil (suc n) = unit _ ∙ sum-nil n

  swap : (p q r s : A) → add (add p q) (add r s) ≡ add (add p r) (add q s)
  swap p q r s =
      assoc p q (add r s)
      ∙ ap (add p) (sym (assoc q r s) ∙ ap (λ x. add x s) (comm q r) ∙ assoc r q s)
      ∙ sym (assoc p r (add q s))

  sum-add : (n : ℕ) (f g : ℕ → A) → sum n (λ k. add (f k) (g k)) ≡ add (sum n f) (sum n g)
  sum-add zero f g = sym (unit nil)
  sum-add (suc n) f g =
      ap (λ x. add x (add (f n) (g n))) (sum-add n f g) ∙ swap (sum n f) (sum n g) (f n) (g n)

  pub sum_at : (m n : ℕ) (g : ℕ → A) → m ≡ n → sum m g ≡ sum n g
  sum_at m n g e = ap (λ i. sum i g) e

  pub sum-split : (m n : ℕ) (g : ℕ → A) → sum (n + m) g ≡ add (sum m g) (sum n (λ k. g (m + k)))
  sum-split m zero g = sum_at (0 + m) m g (omega arith) ∙ sym (unit (sum m g))
  sum-split m (suc n) g =
      sum_at (suc n + m) (suc (n + m)) g (omega arith)
      ∙ ap (λ x. add x (g (n + m))) (sum-split m n g)
      ∙ assoc (sum m g) (sum n (λ k. g (m + k))) (g (n + m))
      ∙ ap (λ i. add (sum m g) (add (sum n (λ k. g (m + k))) (g i))) (omega arith)

  -- The first v * w terms, lane t taking those at t, w + t, 2 * w + t and so on.
  pub sum-lanes : (w v : ℕ) (g : ℕ → A) → sum w (λ t. sum v (λ b. g (b * w + t))) ≡ sum (v * w) g
  sum-lanes w zero g = sum-nil w ∙ sum_at 0 (0 * w) g (omega arith)
  sum-lanes w (suc v) g =
      sum-add w (λ t. sum v (λ b. g (b * w + t))) (λ t. g (v * w + t))
      ∙ ap (λ x. add x (sum w (λ t. g (v * w + t)))) (sum-lanes w v g)
      ∙ sym (sum-split (v * w) w g)
      ∙ sum_at (w + v * w) (suc v * w) g (omega arith)
