-- ===== src/Fp8/E4m3.antt =====
-- e4m3_to_fp32_scalar (kernels/fp8_dequant.hpp, lines 30-44). A magnitude is in units of 2^-10.
use xiaotu_moe.Base.{
  refl, sym, subst, arith, ℕ, zero, suc, ◌+◌, ◌*◌, ◌/◌, ◌%◌, ◌<◌, ◌≡◌, ℕ_discrete, ◌==◌, ◌&&◌, ◌^◌,
  ◌||◌, if◌then◌else◌, Bool, true, false, loop, max,
}

-- (-1)^negative * units * 2^-10.
pub record Decoded : Type 0 where
  pub negative : Bool
  pub units : ℕ

-- The sign is bit 7; ldexp(m / 8, -7) is m units, ldexp(1 + m / 8, e - 7) is (8 + m) * 2^e. A zero
-- has the sign of its byte.
abbrev pub e4m3_to_fp32_scalar : ℕ → Decoded
e4m3_to_fp32_scalar v =
    if v == 127 || v == 255 then record { negative = false; units = 0 } else record {
      negative = v / 128 % 2 == 1;
      units = if v / 8 % 16 == 0 then v % 8 else (8 + v % 8) * 2 ^ (v / 8 % 16);
    }

-- The magnitude that the format gives a byte, by counting up: it grows from each magnitude code c
-- to the next by 2^max(1, exponent of c) units, from 0 at code 0.
abbrev pub e4m3_magnitude : ℕ → ℕ
e4m3_magnitude c = loop c (λ k units. units + 2 ^ max 1 (k / 8)) 0

-- Twice a subnormal number is compared.
abbrev pub decoded_factor : ℕ → ℕ
decoded_factor c = if c / 8 == 0 then 2 else 1

-- What a magnitude code c is decoded to, with either sign.
abbrev pub agrees : ℕ → Bool
agrees c =
    let plus = e4m3_to_fp32_scalar c in
    let minus = e4m3_to_fp32_scalar (128 + c) in
    let factor = decoded_factor c in
    (plus.units * factor == e4m3_magnitude c)
    && ((minus.units * factor == e4m3_magnitude c)
        && (if plus.negative then false else minus.negative))

abbrev all_agree : ℕ → Bool
all_agree zero = true
all_agree (suc n) = all_agree n && agrees n

codes_agree : all_agree 127 ≡ true
codes_agree = refl

and-both : (a b : Bool) → (a && b) ≡ true → (a ≡ true) × (b ≡ true)
and-both true b e = (refl, e)
and-both false b e = cc

signs : (p m : Bool) → (if p then false else m) ≡ true → (p ≡ false) × (m ≡ true)
signs true m e = cc
signs false m e = (refl, e)

e4m3_equal : (a b : ℕ) → (a == b) ≡ true → a ≡ b
e4m3_equal a b e = ground arith

below_agrees : (n c : ℕ) → c < n → all_agree n ≡ true → agrees c ≡ true
below_agrees zero c h e = absurd (omega arith)
below_agrees (suc n) c h e =
    let (before, last) = and-both (all_agree n) (agrees n) e in
    elim (ℕ_discrete c n) [
      | yes q ↦ subst (λ x. agrees x ≡ true) (sym q) last
      | no d ↦ below_agrees n c (omega arith) before
    ]

-- A byte with sign s and a magnitude code c that is not a NaN is decoded with its sign and, where
-- its exponent is not 0, to the magnitude that the format gives it; where the exponent is 0
-- (subnormal), to half of that magnitude.
pub decoded :
    (s c : ℕ)
    → s < 2
    → c < 127
    → ((e4m3_to_fp32_scalar (s * 128 + c)).negative ≡ (s == 1))
      × ((e4m3_to_fp32_scalar (s * 128 + c)).units * decoded_factor c ≡ e4m3_magnitude c)
decoded s c sl cl =
    let factor = decoded_factor c in
    let plus = e4m3_to_fp32_scalar c in
    let minus = e4m3_to_fp32_scalar (128 + c) in
    let (u, rest) =
      and-both (plus.units * factor == e4m3_magnitude c)
        ((minus.units * factor == e4m3_magnitude c)
          && (if plus.negative then false else minus.negative))
        (below_agrees 127 c cl codes_agree) in
    let (v, sign) =
      and-both (minus.units * factor == e4m3_magnitude c)
        (if plus.negative then false else minus.negative) rest in
    let (p, m) = signs plus.negative minus.negative sign in
    let P = λ (x : ℕ). λ (y : ℕ).
      ((e4m3_to_fp32_scalar x).negative ≡ (y == 1))
      × ((e4m3_to_fp32_scalar x).units * factor ≡ e4m3_magnitude c) in
    elim (ℕ_discrete s 0) [
      | yes z ↦
          subst (λ y. P (y * 128 + c) y) (sym z)
            (subst (λ x. P x 0) {x = c} {y = 0 * 128 + c} (omega arith)
              (p, e4m3_equal (plus.units * factor) (e4m3_magnitude c) u))
      | no z ↦
          let one : s ≡ 1 = omega arith in
          subst (λ y. P (y * 128 + c) y) (sym one)
            (subst (λ x. P x 1) {x = 128 + c} {y = 1 * 128 + c} (omega arith)
              (m, e4m3_equal (minus.units * factor) (e4m3_magnitude c) v))
    ]
