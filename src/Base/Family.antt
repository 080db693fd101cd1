-- ===== src/Base/Family.antt =====
-- One value per thread: a value replaced, and weights added up over the first threads.
use native.Mathlib.Omega.{arith}
use native.Mathlib.Decide.{ℕ_discrete}
use mathlib.Core.Logic.{ite, ◌≢◌}
use mathlib.Core.Path.{◌≡◌, refl, ap, ◌∙◌}
use Prim.Native.Nat.{ℕ, zero, suc, ◌+◌, ◌≤◌, ◌<◌}

module _ {ℓ} {A : Type ℓ} where
  -- The family with the value of one thread replaced.
  abbrev pub update : (ℕ → A) → ℕ → A → ℕ → A
  update old thread new = λ k. ite (ℕ_discrete thread k) new (old k)

  pub update-same : (f : ℕ → A) (i : ℕ) (a : A) → update f i a i ≡ a
  update-same f i a = ground arith

  pub update-other : (f : ℕ → A) (i j : ℕ) (a : A) → i ≢ j → update f i a j ≡ f j
  update-other f i j a h = ground arith

-- The weights of the first threads, added up.
unfoldable pub total {ℓ} : {A : Type ℓ} → (A → ℕ) → ℕ → (ℕ → A) → ℕ
total weight zero family = 0
total weight (suc k) family = total weight k family + weight (family k)

module _ {ℓ} {A : Type ℓ} (v w : A → ℕ) where
  -- Weights that are ordered at every member have ordered sums.
  pub total_mono :
      (n : ℕ) (f : ℕ → A) → ((i : ℕ) → i < n → v (f i) ≤ w (f i)) → total v n f ≤ total w n f
  unfolding total
  total_mono zero f h = omega arith
  total_mono (suc n) f h =
      omega (arith, total_mono n f (λ i lt. h i (omega arith)), h n (omega arith))

  pub total-congr :
      (n : ℕ) (f : ℕ → A) → ((i : ℕ) → i < n → v (f i) ≡ w (f i)) → total v n f ≡ total w n f
  unfolding total
  total-congr zero f h = refl
  total-congr (suc n) f h =
      omega (arith, total-congr n f (λ i lt. h i (omega arith)), h n (omega arith))

module _ {ℓ} {A : Type ℓ} (w : A → ℕ) where
  -- Families that agree below n have the same sum.
  total-agree : (n : ℕ) (f g : ℕ → A) → ((j : ℕ) → j < n → g j ≡ f j) → total w n g ≡ total w n f
  unfolding total
  total-agree zero f g h = refl
  total-agree (suc n) f g h =
      omega (arith, total-agree n f g (λ j lt. h j (omega arith)), ap w (h n (omega arith)))

  -- Families that differ at one thread only.
  total-swap :
      (n i : ℕ) (f g : ℕ → A)
      → ((j : ℕ) → i ≢ j → g j ≡ f j)
      → i < n
      → total w n g + w (f i) ≡ total w n f + w (g i)
  unfolding total
  total-swap zero i f g h lt = absurd (omega arith)
  total-swap (suc n) i f g h lt = elim (ℕ_discrete i n) [
    | yes e ↦ omega (
      arith,
      total-agree n f g (λ j b. h j (omega arith)),
      ap (λ k. w (f k)) e,
      ap (λ k. w (g k)) e,
    )
    | no d ↦ omega (arith, total-swap n i f g h (omega arith), ap w (h n d))
  ]

  pub total-update :
      (n : ℕ) (f : ℕ → A) (i : ℕ) (a : A)
      → i < n
      → total w n (update f i a) + w (f i) ≡ total w n f + w a
  total-update n f i a lt =
      total-swap n i f (update f i a) (λ j d. update-other f i j a d) lt
      ∙ ap (λ x. total w n f + w x) (update-same f i a)

  pub total-eq-zero : (n : ℕ) (f : ℕ → A) → ((i : ℕ) → i < n → w (f i) ≡ 0) → total w n f ≡ 0
  unfolding total
  total-eq-zero zero f h = refl
  total-eq-zero (suc n) f h =
      omega (arith, total-eq-zero n f (λ i lt. h i (omega arith)), h n (omega arith))

  -- One summand is at most the sum.
  pub total-ge : (n : ℕ) (f : ℕ → A) (i : ℕ) → i < n → w (f i) ≤ total w n f
  unfolding total
  total-ge zero f i h = absurd (omega arith)
  total-ge (suc n) f i h = elim (ℕ_discrete i n) [
    | yes e ↦ omega (arith, ap (λ k. w (f k)) e)
    | no d ↦ omega (arith, total-ge n f i (omega arith))
  ]
