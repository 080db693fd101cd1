-- ===== src/SharedBuffer/Layout.antt =====
-- Where arranged requests lie.
use xiaotu_moe.Base.{
  ℕ, ◌+◌, ◌%◌, ◌^◌, ◌≤◌, ◌<◌, ◌≡◌, ◌≢◌, refl, sym, ◌∙◌, subst, arith, List, [], ◌∷◌, update,
  update-same, update-other, All,
}
use xiaotu_moe.SharedBuffer.State.{Request, Buffer, request_size, arrange, alloc}

-- The bytes of a list, without wrap-around.
abbrev pub bytes_of : List Request → ℕ
bytes_of [] = 0
bytes_of (r ∷ rs) = r.bytes + bytes_of rs

-- Consecutive: each request's pointer is where the one before it ends.
abbrev pub Consecutive : ℕ → List Request → (ℕ → ℕ) → Type 0
Consecutive at [] p = Unit
Consecutive at (r ∷ rs) p = (p r.target ≡ at) × Consecutive (at + r.bytes) rs p

abbrev pub Distinct : List Request → Type 0
Distinct [] = Unit
Distinct (r ∷ rs) = All (λ x. r.target ≢ x.target) rs × Distinct rs

request_size-eq : (rs : List Request) → bytes_of rs < 2 ^ 64 → request_size rs ≡ bytes_of rs
request_size-eq [] h = refl
request_size-eq (r ∷ rs) h = omega (arith, request_size-eq rs (omega arith))

arrange-keeps :
    (base offset t : ℕ) (rs : List Request) (p : ℕ → ℕ)
    → All (λ x. t ≢ x.target) rs
    → arrange base offset rs p t ≡ p t
arrange-keeps base offset t [] p h = refl
arrange-keeps base offset t (r ∷ rs) p (d, h) =
    arrange-keeps base ((offset + r.bytes) % 2 ^ 64) t rs (update p r.target (base + offset)) h
    ∙ update-other p r.target t (base + offset) (λ e. d (sym e))

arrange-Consecutive :
    (base offset : ℕ) (rs : List Request) (p : ℕ → ℕ)
    → Distinct rs
    → offset + bytes_of rs < 2 ^ 64
    → Consecutive (base + offset) rs (arrange base offset rs p)
arrange-Consecutive base offset [] p d h = tt
arrange-Consecutive base offset (r ∷ rs) p (d, ds) h = (
  arrange-keeps base ((offset + r.bytes) % 2 ^ 64) r.target rs (update p r.target (base + offset)) d
      ∙ update-same p r.target (base + offset),
  subst
      (λ x.
        Consecutive x rs
          (arrange base ((offset + r.bytes) % 2 ^ 64) rs (update p r.target (base + offset))))
      (omega arith)
      (arrange-Consecutive base ((offset + r.bytes) % 2 ^ 64) rs (update p r.target (base + offset))
        ds (omega arith)),
)

-- When the requests fill different pointer variables and their bytes do not overflow 64 bits,
-- alloc lays them out one after the other from the start of the buffer, and the buffer holds
-- them all.
pub alloc-Consecutive :
    (fresh object : ℕ) (rs : List Request) (b : Buffer)
    → Distinct rs
    → bytes_of rs < 2 ^ 64
    → Consecutive (alloc fresh object rs b).base rs (alloc fresh object rs b).pointers
      × (bytes_of rs ≤ (alloc fresh object rs b).size)
alloc-Consecutive fresh object rs b d h = (
  subst (λ x. Consecutive x rs (alloc fresh object rs b).pointers) (omega arith)
      (arrange-Consecutive (alloc fresh object rs b).base 0 rs _ d (omega arith)),
  ground (arith, request_size-eq rs h),
)
