-- ===== src/Backend/Places.antt =====
-- When every node gets a thread, and what a node without one does to a job.
use native.Mathlib.Nat.{div-add-mod, mod-lt}
use xiaotu_moe.Base.{
  refl, ap, arith, ℕ, zero, suc, ◌+◌, ◌*◌, ◌/◌, ◌≤◌, ◌<◌, ◌≡◌, ℕ_discrete, dec_lt, inl, inr, ◌==◌,
  ◌++◌, ltb, if◌then◌else◌, if-both, List, [], ◌∷◌, none, some, length, All, Any, min, Option,
  range,
}
use xiaotu_moe.Backend.Placed.{Placed, share_nodes-Placed}
use xiaotu_moe.Backend.Threads.{take_cpus, place_nodes, node_threads, max_threads}
use xiaotu_moe.Backend.Nodes.{
  share_nodes, node_shares, Share, do_k_work_stealing_job, Chain, do_k_work_stealing_job-Chain,
}

-- The CPUs of a list that are on a node.
abbrev pub cpus_on : (ℕ → ℕ) → ℕ → List ℕ → ℕ
cpus_on node_of nid [] = 0
cpus_on node_of nid (cid ∷ cids) = (if node_of cid == nid then 1 else 0) + cpus_on node_of nid cids

length-take_cpus :
    (node_of : ℕ → ℕ) (nid left tid : ℕ) (cids : List ℕ)
    → length (take_cpus node_of nid left tid cids) ≡ min left (cpus_on node_of nid cids)
length-take_cpus node_of nid zero tid cids = omega arith
length-take_cpus node_of nid (suc left) tid [] = omega arith
length-take_cpus node_of nid (suc left) tid (cid ∷ cids) = ground (
  arith,
  length-take_cpus node_of nid left (suc tid) cids,
  length-take_cpus node_of nid (suc left) tid cids,
)

place_nodes-pos :
    (node_of : ℕ → ℕ) (base remain nid tid : ℕ) (cids : List ℕ) (n : ℕ)
    → 1 ≤ base
    → ((i : ℕ) → nid ≤ i → i < nid + n → 1 ≤ cpus_on node_of i cids)
    → All (λ tids. 1 ≤ length tids) (place_nodes node_of base remain nid tid cids n)
place_nodes-pos node_of base remain nid tid cids zero p h = tt
place_nodes-pos node_of base remain nid tid cids (suc n) p h = (
  omega (
    arith,
    length-take_cpus node_of nid (base + (if ltb nid remain then 1 else 0)) tid cids,
    h nid (omega arith) (omega arith),
  ),
  place_nodes-pos node_of base remain (suc nid) _ cids n p
      (λ i lo hi. h i (omega arith) (omega arith)),
)

length-place_nodes :
    (node_of : ℕ → ℕ) (base remain nid tid : ℕ) (cids : List ℕ) (n : ℕ)
    → length (place_nodes node_of base remain nid tid cids n) ≡ n
length-place_nodes node_of base remain nid tid cids zero = refl
length-place_nodes node_of base remain nid tid cids (suc n) =
    ap suc (length-place_nodes node_of base remain (suc nid) _ cids n)

share_nodes-throws :
    (base remain k nid first : ℕ) (nodes : List (List ℕ))
    → Any (λ tids. length tids ≡ 0) nodes
    → share_nodes base remain k nid first nodes ≡ none
share_nodes-throws base remain k nid first [] h = absurd h.lower
share_nodes-throws base remain k nid first (tids ∷ nodes) (inl e) =
    if-both (λ r. r ≡ none) (length tids == 0) none _ (λ _. refl) (λ t. absurd (ground arith))
share_nodes-throws base remain k nid first (tids ∷ nodes) (inr h) =
    if-both (λ r. r ≡ none) (length tids == 0) none _ (λ _. refl)
      (λ _.
        ap
          (λ r. elim r [
            | none ↦ none
            | some shares ↦
                some (
                  node_shares ((base + (if ltb nid remain then 1 else 0)) * k) first tids ++ shares)
          ])
          (share_nodes-throws base remain k (suc nid) _ nodes h))

place_nodes-bare :
    (node_of : ℕ → ℕ) (base remain nid tid : ℕ) (cids : List ℕ) (n i : ℕ)
    → cpus_on node_of i cids ≡ 0
    → nid ≤ i
    → i < nid + n
    → Any (λ tids. length tids ≡ 0) (place_nodes node_of base remain nid tid cids n)
place_nodes-bare node_of base remain nid tid cids zero i e lo hi = absurd (omega arith)
place_nodes-bare node_of base remain nid tid cids (suc n) i e lo hi = elim (ℕ_discrete nid i) [
  | yes q ↦ inl (
      omega (
        arith,
        length-take_cpus node_of nid (base + (if ltb nid remain then 1 else 0)) tid cids,
        ap (λ j. cpus_on node_of j cids) q,
      ))
  | no d ↦
      inr (place_nodes-bare node_of base remain (suc nid) _ cids n i e (omega arith) (omega arith))
]

module _ (num_cpus numa_nodes : ℕ) (node_of : ℕ → ℕ) (env : Option ℕ) where
  -- On a machine with at least two CPUs more than nodes, with a CPU on every node, and whatever
  -- LK_THREADS asks for, no job that is given to Backend_NUMA throws: the nth * k tasks are split
  -- into consecutive shares, and each share goes to a thread that the constructor has placed.
  pub node_threads_work :
      1 ≤ numa_nodes
      → numa_nodes + 2 ≤ num_cpus
      → ((i : ℕ) → i < numa_nodes → 1 ≤ cpus_on node_of i (range 0 num_cpus))
      → (k nth : ℕ)
      → (shares : List Share) × (do_k_work_stealing_job k nth
            (node_threads num_cpus numa_nodes node_of env)
          ≡ some shares)
        × Chain 0 shares (nth * k)
        × All (λ (s : Share). Placed (node_threads num_cpus numa_nodes node_of env) s.tid) shares
  node_threads_work p q h k nth =
      let nodes = node_threads num_cpus numa_nodes node_of env in
      let (shares, e, chain) = chained in
      (shares, e, chain, share_nodes-Placed _ _ k 0 0 nodes shares e)
    where
      m_ge : numa_nodes ≤ max_threads num_cpus numa_nodes env
      m_ge = ground arith

      base_pos : 1 ≤ max_threads num_cpus numa_nodes env / numa_nodes
      base_pos = elim (dec_lt 0 (max_threads num_cpus numa_nodes env / numa_nodes)) [
        | yes b ↦ omega arith
        | no b ↦ absurd (
            omega (
              arith,
              m_ge,
              div-add-mod (max_threads num_cpus numa_nodes env) numa_nodes,
              mod-lt (max_threads num_cpus numa_nodes env) p,
              ap (λ x. numa_nodes * x) {x = max_threads num_cpus numa_nodes env / numa_nodes}
                  {y = 0} (omega arith),
            ))
      ]

      chained :
          (shares : List Share) × (do_k_work_stealing_job k nth
              (node_threads num_cpus numa_nodes node_of env)
            ≡ some shares)
          × Chain 0 shares (nth * k)
      chained =
          do_k_work_stealing_job-Chain k nth (node_threads num_cpus numa_nodes node_of env)
            (omega (arith, length-place_nodes node_of _ _ 0 0 (range 0 num_cpus) numa_nodes))
            (place_nodes-pos node_of _ _ 0 0 (range 0 num_cpus) numa_nodes base_pos
              (λ i _ hi. h i (omega arith)))

  -- On a machine with a node that has no CPU (a node of memory only), every job that is given to
  -- Backend_NUMA throws, whatever the job.
  pub node_threads_throw :
      (i : ℕ)
      → i < numa_nodes
      → cpus_on node_of i (range 0 num_cpus) ≡ 0
      → (k nth : ℕ)
      → do_k_work_stealing_job k nth (node_threads num_cpus numa_nodes node_of env) ≡ none
  node_threads_throw i lt e k nth =
      share_nodes-throws _ _ k 0 0 (node_threads num_cpus numa_nodes node_of env) (
        place_nodes-bare node_of _ _ 0 0 (range 0 num_cpus) numa_nodes i e (omega arith)
          (omega arith))
