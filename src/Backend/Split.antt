-- ===== src/Backend/Split.antt =====
-- The split gives every task to one thread.
use xiaotu_moe.Base.{
  ℕ, zero, suc, ◌+◌, ◌*◌, ◌/◌, ◌%◌, ◌≤◌, ◌≡◌, arith, ltb, leb, if◌then◌else◌, min, total, ◌&&◌,
}
use native.Mathlib.Nat.{div-add-mod, mod-lt}
use xiaotu_moe.Backend.State.{edge}

edge-eq : (base remain n : ℕ) → edge base remain n ≡ n * base + min n remain
edge-eq base remain zero = omega arith
edge-eq base remain (suc n) = ground (arith, edge-eq base remain n)

pub edge_total : (k nth : ℕ) → 1 ≤ k → edge (nth / k) (nth % k) k ≡ nth
edge_total k nth p = omega (arith, edge-eq (nth / k) (nth % k) k, div-add-mod nth k, mod-lt nth p)

-- One when task t lies in [a, b).
abbrev pub holds : ℕ → ℕ → ℕ → ℕ
holds t a b = if leb a t && ltb t b then 1 else 0

holds-join : (t a b : ℕ) → a ≤ b → holds t 0 a + holds t a b ≡ holds t 0 b
holds-join t a b h = ground arith

pub edge_mono : (base remain n : ℕ) → edge base remain n ≤ edge base remain (suc n)
edge_mono base remain n = omega arith

-- The spans of the first n threads hold each task below the last edge once.
pub edge_covers :
    (base remain t n : ℕ)
    → total (λ i. holds t (edge base remain i) (edge base remain (suc i))) n (λ i. i)
      ≡ holds t 0 (edge base remain n)
unfolding total
edge_covers base remain t zero = ground arith
edge_covers base remain t (suc n) = omega (
  arith,
  edge_covers base remain t n,
  holds-join t (edge base remain n) (edge base remain (suc n)) (edge_mono base remain n),
)
