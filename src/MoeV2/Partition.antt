-- ===== src/MoeV2/Partition.antt =====
-- The spans cover the rows.
use xiaotu_moe.Base.{
  ℕ, ◌+◌, ◌-◌, ◌*◌, ◌/◌, ◌≤◌, ◌<◌, arith, crossing, min, subst, Bool-cases, ltb, sym, if◌then◌else◌,
  inl, inr, ap, ◌∙◌, Bool, ◌≡◌, dec_lt, if-both, zero, suc,
}
use xiaotu_moe.MoeV2.Spans.{sep_of, sub_span, Span, chunk_count, sub_count, chunk_span, shard_span}
use native.Mathlib.Nat.{
  div-zero, div-mul-le_self, le-div_iff_mul-le, mul-le-mul_right, zero-div, mul-div_right,
  lt-div-mul-add,
}

abbrev pub Holds : ℕ → Span → Type 0
Holds i s = (s.n0 ≤ i) × (i < s.n1)

pub chunk_count-pos : (override nthreads na dim : ℕ) → 1 ≤ chunk_count override nthreads na dim
chunk_count-pos override nthreads na dim = ground arith

pub sub_count-pos :
    (override : ℕ) (disabled : Bool) (ns nthreads na dim : ℕ)
    → 1 ≤ sub_count override disabled ns nthreads na dim
sub_count-pos override disabled ns nthreads na dim = ground arith

edge_start : (dim k i : ℕ) → 0 * dim / k ≤ i
edge_start dim k i =
    subst (λ x. x ≤ i) (sym (ap (λ x. x / k) {x = 0 * dim} {y = 0} (omega arith) ∙ zero-div k))
      (omega arith)

edge_end : (dim k i : ℕ) → 1 ≤ k → i < dim → i < k * dim / k
edge_end dim k i p h = subst (λ x. i < x) (sym (mul-div_right dim p)) h

-- Each row lies in one of the chunks.
pub chunk_span-cover :
    (dim nc i : ℕ) → 1 ≤ nc → i < dim → (c : ℕ) × (c < nc) × Holds i (chunk_span dim nc c)
chunk_span-cover dim nc i p h =
    let (c, lt, lo, hi) =
      crossing (λ c. c * dim / nc) nc i (edge_start dim nc i) (edge_end dim nc i p h) in
    (c, lt, (lo, omega arith))

pub ceil-mul : (x sub : ℕ) → 1 ≤ sub → x ≤ sub * ((x + sub - 1) / sub)
ceil-mul x sub p = omega (arith, lt-div-mul-add {a = x + sub - 1} {b = sub} p)

-- Each row of a span lies in one of its parts.
sub_span-cover :
    (p : Span) (sub i : ℕ) → 1 ≤ sub → Holds i p → (s : ℕ) × (s < sub) × Holds i (sub_span p sub s)
sub_span-cover p sub i q (lo, hi) = elim (Bool-cases (ltb 1 sub)) [
  | inl t ↦
      let (s, lt, l, h) =
        crossing (λ s. p.n0 + s * sep_of (p.n1 - p.n0) sub) sub i (omega arith)
          (omega (arith, ceil-mul (p.n1 - p.n0) sub q)) in
      (
        s,
        lt,
        subst
            (λ b. Holds i (
              if b
              then record {
                n0 = p.n0 + s * sep_of (p.n1 - p.n0) sub;
                n1 = min p.n1 (p.n0 + s * sep_of (p.n1 - p.n0) sub + sep_of (p.n1 - p.n0) sub);
              }
              else p))
            (sym t) (l, omega arith),
      )
  | inr t ↦ (
    0,
    q,
    subst
        (λ b. Holds i (
          if b
          then record {
            n0 = p.n0 + 0 * sep_of (p.n1 - p.n0) sub;
            n1 = min p.n1 (p.n0 + 0 * sep_of (p.n1 - p.n0) sub + sep_of (p.n1 - p.n0) sub);
          }
          else p))
        (sym t) (lo, hi),
  )
]

-- Each row lies in a part of some node's rows.
pub shard_span-cover :
    (dim ns sub i : ℕ)
    → 1 ≤ ns
    → 1 ≤ sub
    → i < dim
    → (n : ℕ) × (n < ns) × (s : ℕ) × (s < sub) × Holds i (shard_span dim ns sub n s)
shard_span-cover dim ns sub i p q h =
    let (n, below, holds) = chunk_span-cover dim ns i p h in
    let (s, lt, part) = sub_span-cover (chunk_span dim ns n) sub i q holds in
    (n, below, s, lt, part)

edge_mono : (dim k c d : ℕ) → c ≤ d → c * dim / k ≤ d * dim / k
edge_mono dim zero c d h = omega (arith, div-zero (c * dim), div-zero (d * dim))
edge_mono dim (suc k) c d h =
    (le-div_iff_mul-le {k = suc k} {x = c * dim / suc k} {y = d * dim} (omega arith)).1
      (omega (arith, div-mul-le_self (c * dim) (suc k), mul-le-mul_right dim h))

chunk_span-once :
    (dim nc i c d : ℕ) → Holds i (chunk_span dim nc c) → Holds i (chunk_span dim nc d) → c ≡ d
chunk_span-once dim nc i c d (l, u) (l', u') = elim (dec_lt c d) [
  | yes h ↦ absurd (omega (arith, edge_mono dim nc (c + 1) d (omega arith)))
  | no h ↦ elim (dec_lt d c) [
    | yes h' ↦ absurd (omega (arith, edge_mono dim nc (d + 1) c (omega arith)))
    | no h' ↦ omega arith
  ]
]

sep-one : (rows sub : ℕ) → sub ≡ 1 → sep_of rows sub ≡ rows
sep-one rows sub e = ap (sep_of rows) e ∙ omega arith

zero-times : (s x : ℕ) → s ≡ 0 → s * x ≡ 0
zero-times s x e = ap (λ k. k * x) e ∙ omega arith

-- What it takes to lie in part s.
pub sub_span-bounds :
    (p : Span) (sub i s : ℕ)
    → s < sub
    → Holds i (sub_span p sub s)
    → Holds i p
      × (p.n0 + s * sep_of (p.n1 - p.n0) sub ≤ i)
      × (i < p.n0 + s * sep_of (p.n1 - p.n0) sub + sep_of (p.n1 - p.n0) sub)
sub_span-bounds p sub i s lt =
    if-both
      (λ x.
        Holds i x
        → Holds i p
          × (p.n0 + s * sep_of (p.n1 - p.n0) sub ≤ i)
          × (i < p.n0 + s * sep_of (p.n1 - p.n0) sub + sep_of (p.n1 - p.n0) sub))
      (ltb 1 sub)
      (record {
        n0 = p.n0 + s * sep_of (p.n1 - p.n0) sub;
        n1 = min p.n1 (p.n0 + s * sep_of (p.n1 - p.n0) sub + sep_of (p.n1 - p.n0) sub);
      })
      p (λ t h. ((omega arith, omega arith), omega arith, omega arith))
      (λ t h.
        let e = sep-one (p.n1 - p.n0) sub (ground arith) in
        let z = zero-times s (sep_of (p.n1 - p.n0) sub) (ground arith) in
        ((h.0, h.1), omega arith, omega arith))

sub_span-once :
    (p : Span) (sub i s r : ℕ)
    → s < sub
    → r < sub
    → Holds i (sub_span p sub s)
    → Holds i (sub_span p sub r)
    → s ≡ r
sub_span-once p sub i s r a b h k =
    let (_, l, u) = sub_span-bounds p sub i s a h in
    let (_, l', u') = sub_span-bounds p sub i r b k in
    elim (dec_lt s r) [
      | yes y ↦ absurd (omega (arith, mul-le-mul_right (sep_of (p.n1 - p.n0) sub) y))
      | no y ↦ elim (dec_lt r s) [
        | yes z ↦ absurd (omega (arith, mul-le-mul_right (sep_of (p.n1 - p.n0) sub) z))
        | no z ↦ omega arith
      ]
    ]

-- Every row below `dim` is computed by exactly one job of a sharded phase, and by exactly one of a
-- flat phase: some node and part (some chunk) holds it, and no two do.
pub rows_computed_once :
    (dim ns sub nc i : ℕ)
    → 1 ≤ ns
    → 1 ≤ sub
    → 1 ≤ nc
    → i < dim
    → ((n : ℕ) × (s : ℕ) × (n < ns)
        × (s < sub)
        × Holds i (shard_span dim ns sub n s)
        × ((m r : ℕ) → m < ns → r < sub → Holds i (shard_span dim ns sub m r) → (m ≡ n) × (r ≡ s)))
      × ((c : ℕ) × (c < nc)
          × Holds i (chunk_span dim nc c)
          × ((d : ℕ) → Holds i (chunk_span dim nc d) → d ≡ c))
rows_computed_once dim ns sub nc i p q r h =
    let (n, nb, s, sb, part) = shard_span-cover dim ns sub i p q h in
    let (c, cb, chunk) = chunk_span-cover dim nc i r h in
    (
      (n, s, nb, sb, part, λ m t mb tb k. same n s sb part m t tb k),
      (c, cb, chunk, λ d k. chunk_span-once dim nc i d c k chunk),
    )
  where
    node : (n s : ℕ) → s < sub → Holds i (shard_span dim ns sub n s) → Holds i (chunk_span dim ns n)
    node n s b k = (sub_span-bounds (chunk_span dim ns n) sub i s b k).0

    same :
        (n s : ℕ)
        → s < sub
        → Holds i (shard_span dim ns sub n s)
        → (m t : ℕ) → t < sub
        → Holds i (shard_span dim ns sub m t)
        → (m ≡ n) × (t ≡ s)
    same n s sb k m t tb k' =
        let e = chunk_span-once dim ns i m n (node m t tb k') (node n s sb k) in
        (
          e,
          sub_span-once (chunk_span dim ns n) sub i t s tb sb
              (subst (λ x. Holds i (shard_span dim ns sub x t)) e k') k,
        )
