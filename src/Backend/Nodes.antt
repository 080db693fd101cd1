-- ===== src/Backend/Nodes.antt =====
-- Backend_NUMA::do_k_work_stealing_job (backend_numa.cpp, lines 256-303): k tasks for each of nth
-- items, the items shared out over the nodes and a node's tasks over its threads.
use native.Mathlib.Nat.{div-add-mod, mod-lt}
use xiaotu_moe.Backend.State.{edge}
use xiaotu_moe.Backend.Split.{edge_total}
use xiaotu_moe.Base.{
  if-both, ℕ, suc, ◌+◌, ◌-◌, ◌*◌, ◌/◌, ◌%◌, ◌≤◌, ◌≡◌, refl, sym, arith, ◌==◌, ltb, if◌then◌else◌,
  min, List, [], ◌∷◌, ◌++◌, length, Option, none, some, subst, All, ◌∙◌, ap,
}

-- The tasks `first` to `past` - 1 for thread tid.
pub record Share : Type 0 where
  pub tid : ℕ
  pub first : ℕ
  pub past : ℕ

-- The loop over a node's threads, from thread j on.
abbrev pub share_node : (t_base t_remain j first : ℕ) → List ℕ → List Share
share_node t_base t_remain j first [] = []
share_node t_base t_remain j first (tid ∷ tids) =
    let past = first + t_base + (if ltb j t_remain then 1 else 0) in
    record { tid = tid; first = first; past = past } ∷ share_node t_base t_remain (suc j) past tids

-- The variable `end` after some shares.
abbrev pub end_after : ℕ → List Share → ℕ
end_after end [] = end
end_after end (s ∷ ss) = end_after s.past ss

-- The shares of one node; a node without tasks is passed over.
abbrev pub node_shares : (n_tasks first : ℕ) → List ℕ → List Share
node_shares n_tasks first tids =
    if n_tasks == 0
    then []
    else share_node (n_tasks / length tids) (n_tasks % length tids) 0 first tids

-- The loop over the nodes; none where it throws, for a node without threads.
abbrev pub share_nodes : (base remain k nid first : ℕ) → List (List ℕ) → Option (List Share)
share_nodes base remain k nid first [] = some []
share_nodes base remain k nid first (tids ∷ nodes) =
    let here = node_shares ((base + (if ltb nid remain then 1 else 0)) * k) first tids in
    let rest = share_nodes base remain k (suc nid) (end_after first here) nodes in
    if length tids == 0
    then none
    else elim rest [ none ↦ none | some shares ↦ some (here ++ shares) ]

abbrev pub do_k_work_stealing_job : (k nth : ℕ) → List (List ℕ) → Option (List Share)
do_k_work_stealing_job k nth nodes =
    share_nodes (nth / length nodes) (nth % length nodes) k 0 0 nodes

-- Each share begins where the one before it ends.
abbrev pub Chain : ℕ → List Share → ℕ → Type 0
Chain a [] b = a ≡ b
Chain a (s ∷ ss) b = (s.first ≡ a) × (s.first ≤ s.past) × Chain s.past ss b

Chain-append : (a b c : ℕ) (xs ys : List Share) → Chain a xs b → Chain b ys c → Chain a (xs ++ ys) c
Chain-append a b c [] ys e h = subst (λ x. Chain x ys c) (sym e) h
Chain-append a b c (x ∷ xs) ys (e, le, g) h = (e, le, Chain-append x.past b c xs ys g h)

share_node-Chain :
    (t_base t_remain j first : ℕ) (tids : List ℕ)
    → Chain first
        (share_node t_base t_remain j first tids)
        (first + length tids * t_base + (min (j + length tids) t_remain - min j t_remain))
share_node-Chain t_base t_remain j first [] = omega arith
share_node-Chain t_base t_remain j first (tid ∷ tids) = (
  refl,
  omega arith,
  subst
      (Chain (first + t_base + (if ltb j t_remain then 1 else 0)) (
        share_node t_base t_remain (suc j) (first + t_base + (if ltb j t_remain then 1 else 0))
          tids))
      (ground arith)
      (share_node-Chain t_base t_remain (suc j) (first + t_base + (if ltb j t_remain then 1 else 0))
        tids),
)

pub Chain-end : (a b : ℕ) (xs : List Share) → Chain a xs b → end_after a xs ≡ b
Chain-end a b [] e = e
Chain-end a b (x ∷ xs) (e, le, h) = Chain-end x.past b xs h

pub node_shares-Chain :
    (n_tasks first : ℕ) (tids : List ℕ)
    → 1 ≤ length tids
    → Chain first (node_shares n_tasks first tids) (first + n_tasks)
node_shares-Chain n_tasks first tids p =
    if-both (λ x. Chain first x (first + n_tasks)) (n_tasks == 0) []
      (share_node (n_tasks / length tids) (n_tasks % length tids) 0 first tids) (λ t. ground arith)
      (λ _.
        subst
          (Chain first (share_node (n_tasks / length tids) (n_tasks % length tids) 0 first tids))
          (omega (arith, div-add-mod n_tasks (length tids), mod-lt n_tasks p))
          (share_node-Chain (n_tasks / length tids) (n_tasks % length tids) 0 first tids))

pub share_nodes-Chain :
    (base remain k nid first : ℕ) (nodes : List (List ℕ))
    → All (λ tids. 1 ≤ length tids) nodes
    → first ≡ edge base remain nid * k
    → (shares : List Share) × (share_nodes base remain k nid first nodes ≡ some shares)
      × Chain first shares (edge base remain (nid + length nodes) * k)
share_nodes-Chain base remain k nid first [] a e =
    ([], refl, e ∙ ap (λ x. edge base remain x * k) (omega arith))
share_nodes-Chain base remain k nid first (tids ∷ nodes) (p, a) e =
    let here = node_shares-Chain ((base + (if ltb nid remain then 1 else 0)) * k) first tids p in
    let done = Chain-end first _ _ here in
    let (shares, q, h) =
      share_nodes-Chain base remain k (suc nid)
        (end_after first (node_shares ((base + (if ltb nid remain then 1 else 0)) * k) first tids))
        nodes a (done ∙ omega arith) in
    (
      node_shares ((base + (if ltb nid remain then 1 else 0)) * k) first tids ++ shares,
      both shares q,
      Chain-append first (first + (base + (if ltb nid remain then 1 else 0)) * k)
          (edge base remain (nid + length (tids ∷ nodes)) * k)
          (node_shares ((base + (if ltb nid remain then 1 else 0)) * k) first tids) shares here
          (subst (λ x. Chain x shares (edge base remain (nid + length (tids ∷ nodes)) * k)) done
            (subst
              (λ m.
                Chain
                  (end_after first
                    (node_shares ((base + (if ltb nid remain then 1 else 0)) * k) first tids))
                  shares (edge base remain m * k))
              {x = suc nid + length nodes} {y = nid + length (tids ∷ nodes)} (omega arith) h)),
    )
  where
    both :
        (shares : List Share)
        → share_nodes base remain k
            (suc nid)
            (end_after first
              (node_shares ((base + (if ltb nid remain then 1 else 0)) * k) first tids))
            nodes
          ≡ some shares
        → share_nodes base remain k nid first (tids ∷ nodes)
          ≡ some (node_shares ((base + (if ltb nid remain then 1 else 0)) * k) first tids ++ shares)
    both shares q =
        if-both
          (λ x.
            x
            ≡ some
                (node_shares ((base + (if ltb nid remain then 1 else 0)) * k) first tids ++ shares))
          (length tids == 0) none _ (λ t. absurd (ground arith))
          (λ _.
            ap
              (λ r. elim r [
                | none ↦ none
                | some more ↦ some (
                    node_shares ((base + (if ltb nid remain then 1 else 0)) * k) first tids ++ more)
              ])
              q)

-- When every node has a thread and there is a node, do_k_work_stealing_job does not throw, and the
-- shares it writes follow one another from 0 to nth * k: each of the k tasks of each item is
-- some thread's.
pub do_k_work_stealing_job-Chain :
    (k nth : ℕ) (nodes : List (List ℕ))
    → 1 ≤ length nodes
    → All (λ tids. 1 ≤ length tids) nodes
    → (shares : List Share) × (do_k_work_stealing_job k nth nodes ≡ some shares)
      × Chain 0 shares (nth * k)
do_k_work_stealing_job-Chain k nth nodes p a =
    let (shares, q, h) =
      share_nodes-Chain (nth / length nodes) (nth % length nodes) k 0 0 nodes a (omega arith) in
    (
      shares,
      q,
      subst (Chain 0 shares)
          (ap (λ m. edge (nth / length nodes) (nth % length nodes) m * k) {x = 0 + length nodes}
              {y = length nodes} (omega arith)
            ∙ ap (λ x. x * k) (edge_total (length nodes) nth p))
          h,
    )
