-- ===== src/Backend/Crews.antt =====
-- The shares of a job go to different threads.
use xiaotu_moe.Base.{
  subst, ℕ, suc, ◌+◌, ◌*◌, ◌/◌, ◌%◌, ◌<◌, ◌≡◌, inl, inr, ◌==◌, ◌≢◌, ◌++◌, List, [], ◌∷◌, All, Any,
  All-append, Any-append_left, Option, none, some, get_or, length, if-both, All-map, if◌then◌else◌,
  Any-append_right, ltb,
}
use xiaotu_moe.Backend.Nodes.{
  Share, share_node, node_shares, share_nodes, do_k_work_stealing_job, end_after,
}
use xiaotu_moe.Backend.Homes.{share_node-tids}
use xiaotu_moe.Backend.Workers.{Crew}
use xiaotu_moe.Backend.Claims.{Distinct}

abbrev pub Unique : List ℕ → Type 0
Unique [] = Unit
Unique (x ∷ xs) = All (λ y. x ≢ y) xs × Unique xs

abbrev pub all_tids : List (List ℕ) → List ℕ
all_tids [] = []
all_tids (tids ∷ nodes) = tids ++ all_tids nodes

-- node_threads_ agrees with threads_info_.
pub record Mans (c : Crew) (nodes : List (List ℕ)) : Type 0 where
  pub of_node :
      (nid tid : ℕ)
      → Any (λ x. x ≡ tid) (get_or nodes nid [])
      → (tid < c.max_threads) × (c.node_of tid ≡ nid)
  pub unique : Unique (all_tids nodes)

abbrev Among : List ℕ → List Share → Type 0
Among tids = All (λ x. Any (λ y. y ≡ x.tid) tids)

All-Any : (P : ℕ → Type 0) (xs : List ℕ) (x : ℕ) → All P xs → Any (λ y. y ≡ x) xs → P x
All-Any P [] x a m = absurd (m.lower)
All-Any P (y ∷ ys) x (p, a) (inl e) = subst P e p
All-Any P (y ∷ ys) x (p, a) (inr m) = All-Any P ys x a m

All-apart :
    (tids : List ℕ) (t : ℕ) (xs : List Share)
    → All (λ y. t ≢ y) tids
    → Among tids xs
    → All (λ x. t ≢ x.tid) xs
All-apart tids t [] a m = tt
All-apart tids t (x ∷ xs) a (p, m) = (All-Any (λ y. t ≢ y) tids x.tid a p, All-apart tids t xs a m)

Distinct-append :
    (xs ys : List Share)
    → Distinct xs
    → Distinct ys
    → All (λ x. All (λ y. x.tid ≢ y.tid) ys) xs
    → Distinct (xs ++ ys)
Distinct-append [] ys d e f = e
Distinct-append (x ∷ xs) ys (a, d) e (b, f) =
    (All-append (λ y. x.tid ≢ y.tid) xs ys a b, Distinct-append xs ys d e f)

Unique-append :
    (xs ys : List ℕ) → Unique (xs ++ ys) → Unique xs × Unique ys × All (λ x. All (λ y. x ≢ y) ys) xs
Unique-append [] ys u = (tt, u, tt)
Unique-append (x ∷ xs) ys (a, u) =
    let (b, d, e) = Unique-append xs ys u in ((All-left xs ys a, b), d, (All-right xs ys a, e))
  where
    All-left : (vs ws : List ℕ) → All (λ y. x ≢ y) (vs ++ ws) → All (λ y. x ≢ y) vs
    All-left [] ws h = tt
    All-left (v ∷ vs) ws (h, hs) = (h, All-left vs ws hs)

    All-right : (vs ws : List ℕ) → All (λ y. x ≢ y) (vs ++ ws) → All (λ y. x ≢ y) ws
    All-right [] ws h = h
    All-right (v ∷ vs) ws (h, hs) = All-right vs ws hs

share_node-Distinct :
    (t_base t_remain j first : ℕ) (tids : List ℕ)
    → Unique tids
    → Distinct (share_node t_base t_remain j first tids)
share_node-Distinct t_base t_remain j first [] u = tt
share_node-Distinct t_base t_remain j first (tid ∷ tids) (a, u) = (
  All-apart tids tid _ a (share_node-tids t_base t_remain (suc j) _ tids tids (λ x m. m)),
  share_node-Distinct t_base t_remain (suc j) _ tids u,
)

node_shares-Among :
    (n_tasks first : ℕ) (tids : List ℕ) → Among tids (node_shares n_tasks first tids)
node_shares-Among n_tasks first tids =
    if-both (Among tids) (n_tasks == 0) [] _ (λ _. tt)
      (λ _.
        share_node-tids (n_tasks / length tids) (n_tasks % length tids) 0 first tids tids
          (λ x m. m))

node_shares-Distinct :
    (n_tasks first : ℕ) (tids : List ℕ) → Unique tids → Distinct (node_shares n_tasks first tids)
node_shares-Distinct n_tasks first tids u =
    if-both Distinct (n_tasks == 0) [] _ (λ _. tt)
      (λ _. share_node-Distinct (n_tasks / length tids) (n_tasks % length tids) 0 first tids u)

-- Two lists of shares on threads of two lists that have none in common.
cross :
    (ts us : List ℕ) (xs ys : List Share)
    → Among ts xs
    → Among us ys
    → All (λ t. All (λ u. t ≢ u) us) ts
    → All (λ x. All (λ y. x.tid ≢ y.tid) ys) xs
cross ts us [] ys a b d = tt
cross ts us (x ∷ xs) ys (p, a) b d = (
  All-apart us x.tid ys (All-Any (λ t. All (λ u. t ≢ u) us) ts x.tid d p) b,
  cross ts us xs ys a b d,
)

abbrev Good : List (List ℕ) → List Share → Type 0
Good nodes xs = Distinct xs × Among (all_tids nodes) xs

abbrev Done : List (List ℕ) → Option (List Share) → Type 0
Done nodes none = Unit
Done nodes (some xs) = Good nodes xs

Among-later : (ts us : List ℕ) (xs : List Share) → Among us xs → Among (ts ++ us) xs
Among-later ts us xs a = All-map _ _ xs (λ x m. Any-append_right (λ y. y ≡ x.tid) ts us m) a

Among-first : (ts us : List ℕ) (xs : List Share) → Among ts xs → Among (ts ++ us) xs
Among-first ts us xs a = All-map _ _ xs (λ x m. Any-append_left (λ y. y ≡ x.tid) ts us m) a

Done-append :
    (tids : List ℕ) (nodes : List (List ℕ)) (here : List Share) (rest : Option (List Share))
    → Unique (all_tids (tids ∷ nodes))
    → Distinct here
    → Among tids here
    → Done nodes rest
    → Done (tids ∷ nodes) (elim rest [ none ↦ none | some shares ↦ some (here ++ shares) ])
Done-append tids nodes here none u d a r = tt
Done-append tids nodes here (some shares) u d a (e, b) =
    let (v, w, o) = Unique-append tids (all_tids nodes) u in
    (
      Distinct-append here shares d e (cross tids (all_tids nodes) here shares a b o),
      All-append _ here shares (Among-first tids (all_tids nodes) here a)
          (Among-later tids (all_tids nodes) shares b),
    )

share_nodes-Done :
    (base remain k nid first : ℕ) (nodes : List (List ℕ))
    → Unique (all_tids nodes)
    → Done nodes (share_nodes base remain k nid first nodes)
share_nodes-Done base remain k nid first [] u = (tt, tt)
share_nodes-Done base remain k nid first (tids ∷ nodes) u =
    let (v, w, o) = Unique-append tids (all_tids nodes) u in
    let n_tasks = (base + (if ltb nid remain then 1 else 0)) * k in
    if-both (Done (tids ∷ nodes)) (length tids == 0) none _ (λ _. tt)
      (λ _.
        Done-append tids nodes (node_shares n_tasks first tids) _ u
          (node_shares-Distinct n_tasks first tids v) (node_shares-Among n_tasks first tids)
          (share_nodes-Done base remain k (suc nid)
            (end_after first (node_shares n_tasks first tids)) nodes w))

-- No thread is given two shares.
pub do_k_work_stealing_job-Distinct :
    (k nth : ℕ) (nodes : List (List ℕ)) (shares : List Share)
    → Unique (all_tids nodes)
    → do_k_work_stealing_job k nth nodes ≡ some shares
    → Distinct shares
do_k_work_stealing_job-Distinct k nth nodes shares u e =
    (subst (Done nodes) e
      (share_nodes-Done (nth / length nodes) (nth % length nodes) k 0 0 nodes u)).0
