-- ===== src/Packed4/Tables.antt =====
-- The E2M1 table and the byte tables of the vector paths (moe_v2_packed4.hpp, lines 44-49 and
-- 254-260). A magnitude is given in halves, a sign as a bit.
use xiaotu_moe.Base.{
  refl, sym, ◌∙◌, subst, arith, ℕ, zero, suc, ◌+◌, ◌-◌, ◌*◌, ◌/◌, ◌%◌, ◌<◌, ◌≡◌, ◌==◌, ◌^◌,
  if◌then◌else◌, List, [], ◌∷◌, get_or, range, length-range, All, All-get_or,
}

-- The entries of `E2M1`: the sign bit and twice the magnitude.
abbrev pub e2m1 : List (ℕ × ℕ)
e2m1 =
    (0, 0)
    ∷ (0, 1)
    ∷ (0, 2)
    ∷ (0, 3)
    ∷ (0, 4)
    ∷ (0, 6)
    ∷ (0, 8)
    ∷ (0, 12)
    ∷ (1, 0)
    ∷ (1, 1)
    ∷ (1, 2)
    ∷ (1, 3)
    ∷ (1, 4)
    ∷ (1, 6)
    ∷ (1, 8)
    ∷ (1, 12)
    ∷ []

abbrev pub fp4_bf16_lo : List ℕ
fp4_bf16_lo = 0 ∷ 0 ∷ 128 ∷ 192 ∷ 0 ∷ 64 ∷ 128 ∷ 192 ∷ 0 ∷ 0 ∷ 128 ∷ 192 ∷ 0 ∷ 64 ∷ 128 ∷ 192 ∷ []

abbrev pub fp4_bf16_hi : List ℕ
fp4_bf16_hi =
    0 ∷ 63 ∷ 63 ∷ 63 ∷ 64 ∷ 64 ∷ 64 ∷ 64 ∷ 128 ∷ 191 ∷ 191 ∷ 191 ∷ 192 ∷ 192 ∷ 192 ∷ 192 ∷ []

-- The bf16 pattern that the byte shuffles make of a nibble.
abbrev pub pattern_of : ℕ → ℕ
pattern_of n = get_or fp4_bf16_hi n 0 * 256 + get_or fp4_bf16_lo n 0

-- The magnitude of a bf16 pattern in halves: exponent e, mantissa m of seven bits.
abbrev pub bf16_halves : ℕ → ℕ
bf16_halves p = if p % 2 ^ 15 == 0 then 0 else (128 + p % 128) * 2 ^ (p % 2 ^ 15 / 128 - 126) / 128

-- The value of a nibble by its bits: a sign, two bits of exponent e and one of mantissa m.
abbrev pub nibble_halves : ℕ → ℕ
nibble_halves n = if n % 8 / 2 == 0 then n % 2 else (2 + n % 2) * 2 ^ (n % 8 / 2 - 1)

abbrev Agrees : ℕ → Type 0
Agrees n =
    (get_or e2m1 n (0, 0) ≡ (n / 8, nibble_halves n))
    × (bf16_halves (pattern_of n) ≡ nibble_halves n)
    × (pattern_of n / 2 ^ 15 ≡ n / 8)

get_or-range : (a n i d : ℕ) → i < n → get_or (range a n) i d ≡ a + i
get_or-range a zero i d h = absurd (omega arith)
get_or-range a (suc n) zero d h = omega arith
get_or-range a (suc n) (suc i) d h = get_or-range (suc a) n i d (omega arith) ∙ omega arith

sixteen_agree : All Agrees (range 0 16)
sixteen_agree = (
  (refl, refl, refl),
  (
    (refl, refl, refl),
    (
      (refl, refl, refl),
      (
        (refl, refl, refl),
        (
          (refl, refl, refl),
          (
            (refl, refl, refl),
            (
              (refl, refl, refl),
              (
                (refl, refl, refl),
                (
                  (refl, refl, refl),
                  (
                    (refl, refl, refl),
                    (
                      (refl, refl, refl),
                      (
                        (refl, refl, refl),
                        (
                          (refl, refl, refl),
                          ((refl, refl, refl), ((refl, refl, refl), ((refl, refl, refl), tt))),
                        ),
                      ),
                    ),
                  ),
                ),
              ),
            ),
          ),
        ),
      ),
    ),
  ),
)

-- For every nibble the E2M1 table, the bf16 pattern of the byte tables and the nibble's own bits
-- (sign, exponent with bias 1, mantissa) give the same magnitude and the same sign.
pub tables_agree :
    (n : ℕ)
    → n < 16
    → (get_or e2m1 n (0, 0) ≡ (n / 8, nibble_halves n))
      × (bf16_halves (pattern_of n) ≡ nibble_halves n)
      × (pattern_of n / 2 ^ 15 ≡ n / 8)
tables_agree n h = subst Agrees (get_or-range 0 16 n 0 h ∙ omega arith) (
    All-get_or Agrees (range 0 16) 0 n sixteen_agree
      (subst (λ x. n < x) (sym (length-range 0 16)) h))
