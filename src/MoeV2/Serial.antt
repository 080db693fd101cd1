-- ===== src/MoeV2/Serial.antt =====
-- The serial schedule, that of a pool with one thread: jobs 0, 1, … in order (ThreadPool and
-- NumaWorkPool::parallel_for with one worker).
use xiaotu_moe.Base.{ℕ, zero, suc, ◌+◌, ◌≤◌, ◌<◌, ◌≡◌, arith, count, range, Once, ℕ_discrete}
use xiaotu_moe.MoeV2.Forward.{Schedule}

count-range_below : (a n i : ℕ) → i < a → count i (range a n) ≡ 0
count-range_below a zero i h = omega arith
count-range_below a (suc n) i h = ground (arith, count-range_below (suc a) n i (omega arith))

count-range : (a n i : ℕ) → a ≤ i → i < a + n → count i (range a n) ≡ 1
count-range a zero i lo hi = absurd (omega arith)
count-range a (suc n) i lo hi = elim (ℕ_discrete i a) [
  | yes e ↦ ground (arith, count-range_below (suc a) n i (omega arith))
  | no d ↦ ground (arith, count-range (suc a) n i (omega arith) (omega arith))
]

count-range_above : (a n i : ℕ) → a + n ≤ i → count i (range a n) ≡ 0
count-range_above a zero i h = omega arith
count-range_above a (suc n) i h = ground (arith, count-range_above (suc a) n i (omega arith))

pub range-Once : (n : ℕ) → Once n (range 0 n)
range-Once n = record {
  once = λ i h. count-range 0 n i (omega arith) (omega arith);
  only = λ i h. count-range_above 0 n i (omega arith);
}

abbrev pub serial : Schedule
serial = record { order = λ _ n. range 0 n; order-Once = λ _ n. range-Once n }
