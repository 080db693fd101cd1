-- ===== src/Backend/Stealing.antt =====
-- Whatever threads fetch from whatever counters, in any order, every task is computed once.
use xiaotu_moe.Base.{
  sym, total-eq-zero, ◌/◌, ◌%◌, update-same, update-other, ℕ, zero, suc, ◌+◌, ◌≤◌, ◌<◌, ◌≡◌, refl,
  ap, arith, List, [], ◌∷◌, ◌++◌, count, total, min, ℕ_discrete, ◌≢◌, All, if◌then◌else◌, run_all,
  subst, ltb, update, ◌/◌, Bool-cases, ite, ◌%◌, inl, sym, ◌∙◌, inr, total-congr,
}
use xiaotu_moe.Backend.State.{Threads, fetch, do_work, edge}
use xiaotu_moe.Backend.Split.{holds, edge_covers, edge_total}

count-append : (t : ℕ) (xs ys : List ℕ) → count t (xs ++ ys) ≡ count t xs + count t ys
count-append t [] ys = omega arith
count-append t (x ∷ xs) ys = omega (arith, count-append t xs ys)

-- The tasks computed from thread i's counter are those from its begin up to its counter.
abbrev tally : ℕ → (ℕ → ℕ) → Threads → ℕ → ℕ
tally t begin s i = holds t (begin i) (min (s.curr i) (s.end i))

record Tallied (n : ℕ) (begin : ℕ → ℕ) (s : Threads) : Type 0 where
  counted : (t : ℕ) → count t s.computed ≡ total (tally t begin s) n (λ i. i)
  ahead : (i : ℕ) → begin i ≤ s.curr i

total-other :
    (v w : ℕ → ℕ) (n i : ℕ)
    → ((j : ℕ) → i ≢ j → v j ≡ w j)
    → n ≤ i
    → total v n (λ j. j) ≡ total w n (λ j. j)
unfolding total
total-other v w zero i h b = refl
total-other v w (suc n) i h b =
    omega (arith, total-other v w n i h (omega arith), h n (λ e. ground arith))

-- Sums over the threads that differ at thread i only.
pub total-change :
    (v w : ℕ → ℕ) (n i : ℕ)
    → ((j : ℕ) → i ≢ j → v j ≡ w j)
    → i < n
    → total v n (λ j. j) + w i ≡ total w n (λ j. j) + v i
unfolding total
total-change v w zero i h b = absurd (omega arith)
total-change v w (suc n) i h b = elim (ℕ_discrete i n) [
  | yes e ↦ omega (arith, total-other v w n i h (omega arith), ap v e, ap w e)
  | no d ↦ omega (arith, total-change v w n i h (omega arith), h n d)
]

abbrev pub claimed : ℕ → ℕ → ℕ → ℕ
claimed t c e = if ltb c e then ite (ℕ_discrete t c) 1 0 else 0

pub holds-claim :
    (t b c e : ℕ) → b ≤ c → holds t b (min (c + 1) e) ≡ holds t b (min c e) + claimed t c e
holds-claim t b c e h = ground arith

count-claim :
    (t c e : ℕ) (xs : List ℕ)
    → count t (if ltb c e then xs ++ c ∷ [] else xs) ≡ count t xs + claimed t c e
count-claim t c e xs = elim (Bool-cases (ltb c e)) [
  | inl y ↦
      subst
        (λ b.
          count t (if b then xs ++ c ∷ [] else xs)
          ≡ count t xs + (if b then ite (ℕ_discrete t c) 1 0 else 0))
        (sym y) (count-append t xs (c ∷ []) ∙ omega arith)
  | inr z ↦
      subst
        (λ b.
          count t (if b then xs ++ c ∷ [] else xs)
          ≡ count t xs + (if b then ite (ℕ_discrete t c) 1 0 else 0))
        (sym z) (omega arith)
]

fetch-Tallied :
    (n : ℕ) (begin : ℕ → ℕ) (s : Threads) (i : ℕ)
    → i < n
    → Tallied n begin s
    → Tallied n begin (fetch i s)
fetch-Tallied n begin s i lt h = record {
  counted = λ t.
      let own =
        ap (λ c. holds t (begin i) (min c (s.end i))) (update-same s.curr i (s.curr i + 1)) in
      omega (
        arith,
        h.counted t,
        count-claim t (s.curr i) (s.end i) s.computed,
        holds-claim t (begin i) (s.curr i) (s.end i) (h.ahead i),
        own,
        total-change (tally t begin (fetch i s)) (tally t begin s) n i (others t) lt,
      );
  ahead = λ j. elim (ℕ_discrete i j) [
    | yes e ↦
        subst (λ k. begin k ≤ update s.curr i (s.curr i + 1) k) e
          (omega (arith, h.ahead i, update-same s.curr i (s.curr i + 1)))
    | no d ↦ omega (arith, h.ahead j, update-other s.curr i j (s.curr i + 1) d)
  ];
}
  where
    others : (t j : ℕ) → i ≢ j → tally t begin (fetch i s) j ≡ tally t begin s j
    others t j d =
        ap (λ c. holds t (begin j) (min c (s.end j))) (update-other s.curr i j (s.curr i + 1) d)

run-Tallied :
    (n : ℕ) (begin : ℕ → ℕ) (order : List ℕ) (s : Threads)
    → All (λ i. i < n) order
    → Tallied n begin s
    → Tallied n begin (run_all fetch order s)
run-Tallied n begin [] s a h = h
run-Tallied n begin (i ∷ is) s (lt, a) h =
    run-Tallied n begin is (fetch i s) a (fetch-Tallied n begin s i lt h)

-- Nobody writes `end`, and a counter moves with each fetch.
run-end : (order : List ℕ) (s : Threads) (i : ℕ) → (run_all fetch order s).end i ≡ s.end i
run-end [] s i = refl
run-end (j ∷ js) s i = run-end js (fetch j s) i

run-curr :
    (order : List ℕ) (s : Threads) (i : ℕ)
    → (run_all fetch order s).curr i ≡ s.curr i + count i order
run-curr [] s i = omega arith
run-curr (j ∷ js) s i = elim (ℕ_discrete i j) [
  | yes e ↦ ground (arith, run-curr js (fetch j s) i)
  | no d ↦ ground (arith, run-curr js (fetch j s) i)
]

-- The states of do_work, as spans of the edges.
abbrev cut : ℕ → ℕ → ℕ → ℕ
cut n nth = edge (nth / n) (nth % n)

do_work-holds :
    (n nth t c i : ℕ)
    → (do_work n nth).end i ≤ c
    → holds t ((do_work n nth).curr i) (min c ((do_work n nth).end i))
      ≡ holds t (cut n nth i) (cut n nth (suc i))
do_work-holds n nth t c i h = ground arith

-- After Backend_NUMA::do_work has split nth tasks over n ≥ 1 threads, let any threads fetch from
-- any of the n counters, in any order. If each counter has been fetched from often enough to reach
-- its `end`, each task below nth has been computed exactly once, and no other task at all.
pub do_work_exactly_once :
    (n nth : ℕ) (order : List ℕ)
    → 1 ≤ n
    → All (λ i. i < n) order
    → ((i : ℕ) → i < n → (do_work n nth).end i ≤ (do_work n nth).curr i + count i order)
    → (t : ℕ)
    → count t (run_all fetch order (do_work n nth)).computed ≡ (if ltb t nth then 1 else 0)
do_work_exactly_once n nth order p a enough t =
    let h = run-Tallied n (do_work n nth).curr order (do_work n nth) a start in
    h.counted t
    ∙ total-congr (tally t (do_work n nth).curr (run_all fetch order (do_work n nth)))
        (λ i. holds t (cut n nth i) (cut n nth (suc i))) n (λ i. i) (λ i lt. full i lt)
    ∙ edge_covers (nth / n) (nth % n) t n
    ∙ ap (holds t 0) (edge_total n nth p)
    ∙ whole t nth
  where
    whole : (u m : ℕ) → holds u 0 m ≡ (if ltb u m then 1 else 0)
    whole u m = ground arith

    empty : (u b e : ℕ) → holds u b (min b e) ≡ 0
    empty u b e = ground arith

    start : Tallied n (do_work n nth).curr (do_work n nth)
    start = record {
      counted = λ u. sym (
          total-eq-zero (tally u (do_work n nth).curr (do_work n nth)) n (λ i. i)
            (λ i _. empty u ((do_work n nth).curr i) ((do_work n nth).end i)));
      ahead = λ i. omega arith;
    }

    full :
        (i : ℕ)
        → i < n
        → tally t (do_work n nth).curr (run_all fetch order (do_work n nth)) i
          ≡ holds t (cut n nth i) (cut n nth (suc i))
    full i lt =
        ap
          (λ e.
            holds t ((do_work n nth).curr i) (min ((run_all fetch order (do_work n nth)).curr i) e))
          (run-end order (do_work n nth) i)
        ∙ ap (λ c. holds t ((do_work n nth).curr i) (min c ((do_work n nth).end i)))
            (run-curr order (do_work n nth) i)
        ∙ do_work-holds n nth t ((do_work n nth).curr i + count i order) i (enough i lt)
