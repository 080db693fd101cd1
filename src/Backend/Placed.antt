-- ===== src/Backend/Placed.antt =====
-- The threads that a job's shares go to (backend_numa.cpp, lines 256-303).
use xiaotu_moe.Base.{
  refl, subst, ℕ, suc, ◌+◌, ◌*◌, ◌/◌, ◌%◌, ◌≡◌, inl, inr, ◌==◌, ◌++◌, ltb, if◌then◌else◌, if-both,
  List, [], ◌∷◌, length, Option, none, some, All, Any, All-append,
}
use xiaotu_moe.Backend.Nodes.{Share, share_node, node_shares, share_nodes, end_after}

-- Thread tid is one of a node's.
pub Placed : List (List ℕ) → ℕ → Type 0
Placed nodes tid = Any (λ tids. Any (λ t. t ≡ tid) tids) nodes

module _ (P : ℕ → Type 0) where
  members_all : (tids : List ℕ) → ((t : ℕ) → Any (λ u. u ≡ t) tids → P t) → All P tids
  members_all [] h = tt
  members_all (t ∷ tids) h = (h t (inl refl), members_all tids (λ u m. h u (inr m)))

  nodes_all :
      (nodes : List (List ℕ))
      → ((t : ℕ) → Any (λ tids. Any (λ u. u ≡ t) tids) nodes → P t)
      → All (All P) nodes
  nodes_all [] h = tt
  nodes_all (tids ∷ nodes) h =
      (members_all tids (λ t m. h t (inl m)), nodes_all nodes (λ t m. h t (inr m)))

  share_node-tids :
      (t_base t_remain j first : ℕ) (tids : List ℕ)
      → All P tids
      → All (λ (s : Share). P s.tid) (share_node t_base t_remain j first tids)
  share_node-tids t_base t_remain j first [] a = tt
  share_node-tids t_base t_remain j first (tid ∷ tids) (p, a) =
      (p, share_node-tids t_base t_remain (suc j) _ tids a)

  node_shares-tids :
      (n_tasks first : ℕ) (tids : List ℕ)
      → All P tids
      → All (λ (s : Share). P s.tid) (node_shares n_tasks first tids)
  node_shares-tids n_tasks first tids a =
      if-both (All (λ (s : Share). P s.tid)) (n_tasks == 0) [] _ (λ _. tt)
        (λ _. share_node-tids (n_tasks / length tids) (n_tasks % length tids) 0 first tids a)

  -- Of the shares, if there are any.
  Shared : Option (List Share) → Type 0
  Shared none = Unit
  Shared (some shares) = All (λ (s : Share). P s.tid) shares

  joined :
      (here : List Share) (rest : Option (List Share))
      → All (λ (s : Share). P s.tid) here
      → Shared rest
      → Shared (elim rest [ none ↦ none | some shares ↦ some (here ++ shares) ])
  unfolding Shared
  joined here none a b = tt
  joined here (some shares) a b = All-append (λ (s : Share). P s.tid) here shares a b

  share_nodes-Shared :
      (base remain k nid first : ℕ) (nodes : List (List ℕ))
      → All (All P) nodes
      → Shared (share_nodes base remain k nid first nodes)
  unfolding Shared
  share_nodes-Shared base remain k nid first [] a = tt
  share_nodes-Shared base remain k nid first (tids ∷ nodes) (p, a) =
      let n_tasks = (base + (if ltb nid remain then 1 else 0)) * k in
      let here = node_shares n_tasks first tids in
      let rest = share_nodes base remain k (suc nid) (end_after first here) nodes in
      if-both Shared (length tids == 0) none _ (λ _. tt)
        (λ _.
          joined here rest (node_shares-tids n_tasks first tids p)
            (share_nodes-Shared base remain k (suc nid) (end_after first here) nodes a))

  pub shares_all :
      (base remain k nid first : ℕ) (nodes : List (List ℕ)) (shares : List Share)
      → share_nodes base remain k nid first nodes ≡ some shares
      → ((t : ℕ) → Any (λ tids. Any (λ u. u ≡ t) tids) nodes → P t)
      → All (λ (s : Share). P s.tid) shares
  unfolding Shared
  shares_all base remain k nid first nodes shares e h =
      subst Shared e (share_nodes-Shared base remain k nid first nodes (nodes_all nodes h))

-- Every share of a job goes to a thread of some node.
pub share_nodes-Placed :
    (base remain k nid first : ℕ) (nodes : List (List ℕ)) (shares : List Share)
    → share_nodes base remain k nid first nodes ≡ some shares
    → All (λ (s : Share). Placed nodes s.tid) shares
unfolding Placed
share_nodes-Placed base remain k nid first nodes shares e =
    shares_all (Placed nodes) base remain k nid first nodes shares e (λ _ m. m)
