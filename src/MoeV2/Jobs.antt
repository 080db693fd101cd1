-- ===== src/MoeV2/Jobs.antt =====
-- The grouped path's jobs (forward_many, lines 499-514): each active expert's list in chunks.
use xiaotu_moe.Base.{
  ℕ, zero, suc, ◌+◌, ◌*◌, ◌/◌, ◌==◌, min, ltb, if◌then◌else◌, List, [], ◌∷◌, ◌++◌, length,
}

pub record Job : Type 0 where
  pub eid : ℕ
  pub ab : ℕ
  pub ae : ℕ

-- `for (b = ...; b < size; b += perjob)`, on fuel: `size` rounds are enough, since perjob > 0.
abbrev pub chunks : ℕ → ℕ → ℕ → ℕ → ℕ → List Job
chunks zero e perjob size b = []
chunks (suc fuel) e perjob size b =
    let rest = chunks fuel e perjob size (b + perjob) in
    if ltb b size then record { eid = e; ab = b; ae = min (b + perjob) size } ∷ rest else []

abbrev pub total_assign : (ℕ → List ℕ) → List ℕ → ℕ
total_assign per_expert [] = 0
total_assign per_expert (e ∷ es) = length (per_expert e) + total_assign per_expert es

-- `nt` is pool_.nthreads().
abbrev pub target_jobs : ℕ → ℕ
target_jobs nt = if ltb 4 nt then nt * 4 else 16

abbrev pub perjob_of : ℕ → ℕ → ℕ
perjob_of nt total =
    let p = total / (if target_jobs nt == 0 then 1 else target_jobs nt) in if ltb p 8 then 8 else p

abbrev pub jobs_from : ℕ → (ℕ → List ℕ) → List ℕ → List Job
jobs_from perjob per_expert [] = []
jobs_from perjob per_expert (e ∷ es) =
    chunks (length (per_expert e)) e perjob (length (per_expert e)) 0
    ++ jobs_from perjob per_expert es

abbrev pub jobs : ℕ → (ℕ → List ℕ) → List ℕ → List Job
jobs nt per_expert active =
    jobs_from (perjob_of nt (total_assign per_expert active)) per_expert active
