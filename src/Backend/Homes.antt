-- ===== src/Backend/Homes.antt =====
-- do_k_work_stealing_job gives the tasks of a node's items to the threads of that node.
use xiaotu_moe.Base.{
  refl, sym, ap, ◌∙◌, subst, arith, ℕ, suc, ◌+◌, ◌*◌, ◌/◌, ◌%◌, ◌≤◌, ◌<◌, ◌≡◌, inl, inr, ◌==◌, ◌++◌,
  if-both, List, [], ◌∷◌, length, get_or, All, Any, some, Option, if◌then◌else◌, ltb, none,
  All-append, length-append, append_assoc, All-map, All-both,
}
use xiaotu_moe.Backend.State.{edge}
use xiaotu_moe.Backend.Nodes.{
  Share, share_node, node_shares, Chain, node_shares-Chain, share_nodes, Chain-end,
  do_k_work_stealing_job, end_after,
}

-- The share lies within [a, b), and its thread is one of `tids`.
abbrev Between : ℕ → ℕ → List ℕ → Share → Type 0
Between a b tids s = (a ≤ s.first) × (s.past ≤ b) × Any (λ x. x ≡ s.tid) tids

pub Chain-le : (a b : ℕ) (ss : List Share) → Chain a ss b → a ≤ b
Chain-le a b [] e = omega arith
Chain-le a b (s ∷ ss) (e, le, h) = omega (arith, Chain-le s.past b ss h)

Chain-Within :
    (a b lo : ℕ) (ss : List Share)
    → lo ≤ a
    → Chain a ss b
    → All (λ s. (lo ≤ s.first) × (s.past ≤ b)) ss
Chain-Within a b lo [] l h = tt
Chain-Within a b lo (s ∷ ss) l (e, le, h) =
    ((omega arith, Chain-le s.past b ss h), Chain-Within s.past b lo ss (omega arith) h)

pub share_node-tids :
    (t_base t_remain j first : ℕ) (tids all_tids : List ℕ)
    → ((x : ℕ) → Any (λ y. y ≡ x) tids → Any (λ y. y ≡ x) all_tids)
    → All (λ s. Any (λ x. x ≡ s.tid) all_tids) (share_node t_base t_remain j first tids)
share_node-tids t_base t_remain j first [] all_tids h = tt
share_node-tids t_base t_remain j first (tid ∷ tids) all_tids h =
    (h tid (inl refl), share_node-tids t_base t_remain (suc j) _ tids all_tids (λ x m. h x (inr m)))

node_shares-Between :
    (n_tasks first : ℕ) (tids : List ℕ)
    → 1 ≤ length tids
    → All (Between first (first + n_tasks) tids) (node_shares n_tasks first tids)
node_shares-Between n_tasks first tids p =
    All-map _ _ _ (λ s ((a, b), c). (a, b, c))
      (All-both _ _ _
        (Chain-Within first (first + n_tasks) first _ (omega arith)
          (node_shares-Chain n_tasks first tids p))
        (if-both (All (λ s. Any (λ x. x ≡ s.tid) tids)) (n_tasks == 0) _ _ (λ _. tt)
          (λ _.
            share_node-tids (n_tasks / length tids) (n_tasks % length tids) 0 first tids tids
              (λ x m. m))))

-- Share s is of node nid: its thread is one of the node's, and its tasks are k times the items of
-- that node.
pub record AtHome (base remain k : ℕ) (nodes : List (List ℕ)) (s : Share) : Type 0 where
  pub nid : ℕ
  pub nid_lt : nid < length nodes
  pub of_node : Any (λ x. x ≡ s.tid) (get_or nodes nid [])
  pub from : edge base remain nid * k ≤ s.first
  pub upto : s.past ≤ edge base remain (suc nid) * k

-- What holds of every share of a split that does not throw.
abbrev pub Shares : (Share → Type 0) → Option (List Share) → Type 0
Shares P none = Unit
Shares P (some shares) = All P shares

Shares-append :
    (P : Share → Type 0) (here : List Share) (rest : Option (List Share))
    → All P here
    → Shares P rest
    → Shares P (elim rest [ none ↦ none | some shares ↦ some (here ++ shares) ])
Shares-append P here none h k = tt
Shares-append P here (some shares) h k = All-append P here shares h k

get_or-after :
    (done : List (List ℕ)) (tids : List ℕ) (nodes : List (List ℕ))
    → get_or (done ++ tids ∷ nodes) (length done) [] ≡ tids
get_or-after [] tids nodes = refl
get_or-after (d ∷ done) tids nodes = get_or-after done tids nodes

share_nodes-AtHome :
    (base remain k nid first : ℕ) (done nodes all_nodes : List (List ℕ))
    → length done ≡ nid
    → done ++ nodes ≡ all_nodes
    → All (λ tids. 1 ≤ length tids) nodes
    → first ≡ edge base remain nid * k
    → Shares (AtHome base remain k all_nodes) (share_nodes base remain k nid first nodes)
share_nodes-AtHome base remain k nid first done [] all_nodes l w a e = tt
share_nodes-AtHome base remain k nid first done (tids ∷ nodes) all_nodes l w (p, a) e =
    let n_tasks = (base + (if ltb nid remain then 1 else 0)) * k in
    let next : end_after first
          (node_shares ((base + (if ltb nid remain then 1 else 0)) * k) first tids)
        ≡ edge base remain (suc nid) * k =
      Chain-end first _ _ (node_shares-Chain n_tasks first tids p) ∙ omega arith in
    if-both (Shares (AtHome base remain k all_nodes)) (length tids == 0) none _ (λ _. tt)
      (λ _.
        Shares-append (AtHome base remain k all_nodes) (node_shares n_tasks first tids) _
          (All-map _ _ _
            (λ s (a', b, m). record {
              nid = nid;
              nid_lt = omega (arith, l, ap length w, length-append done (tids ∷ nodes));
              of_node =
                  subst (Any (λ x. x ≡ s.tid))
                    (sym (get_or-after done tids nodes)
                      ∙ ap (λ i. get_or (done ++ tids ∷ nodes) i []) l
                      ∙ ap (λ ns. get_or ns nid []) w)
                    m;
              from = omega arith;
              upto = omega arith;
            })
            (node_shares-Between n_tasks first tids p))
          (share_nodes-AtHome base remain k (suc nid)
            (end_after first (node_shares n_tasks first tids)) (done ++ tids ∷ []) nodes all_nodes
            (length-append done (tids ∷ []) ∙ omega arith) (append_assoc done (tids ∷ []) nodes ∙ w)
            a next))

-- The tasks that do_k_work_stealing_job gives to a thread, when every node has a thread, belong to
-- the node of that thread: they are among the k tasks of each of the items from edge nid up to
-- edge (nid + 1), the node's blocks of the layers.
pub do_k_work_stealing_job-AtHome :
    (k nth : ℕ) (nodes : List (List ℕ))
    → All (λ tids. 1 ≤ length tids) nodes
    → Shares
        (AtHome (nth / length nodes) (nth % length nodes) k nodes)
        (do_k_work_stealing_job k nth nodes)
do_k_work_stealing_job-AtHome k nth nodes a =
    share_nodes-AtHome (nth / length nodes) (nth % length nodes) k 0 0 [] nodes nodes refl refl a
      (omega arith)
