-- ===== src/Layers/Jobs.antt =====
-- A job of the layers on Backend_NUMA: each task runs on a worker of the node that has the task's
-- block, `Backend_NUMA::numa_node_` there.
use xiaotu_moe.Base.{
  sym, ap, ◌∙◌, arith, ℕ, zero, suc, ◌+◌, ◌-◌, ◌*◌, ◌/◌, ◌%◌, ◌≤◌, ◌<◌, ◌≡◌, ℕ_discrete, dec_lt,
  List, Once, run_all,
}
use xiaotu_moe.Backend.Split.{edge_mono, edge_total}
use xiaotu_moe.Backend.State.{edge}
use xiaotu_moe.Layers.Blocks.{NumaBlock, numa_block, Place, place, OfNode}
use xiaotu_moe.Layers.Tasks.{block_home, place_bounds, task_place}
use native.Mathlib.Nat.{div-add-mod, mul-le-mul_right}

-- What do_k_work_stealing_job does with the tasks of the jobs of a call (numbered): the order in
-- which they run, and the node of the worker that runs each.
pub record Dispatch (numa_nodes : ℕ) : Type 0 where
  pub order : (job k nth : ℕ) → List ℕ
  pub order-Once : (job k nth : ℕ) → Once (nth * k) (order job k nth)
  pub node : (job k nth t : ℕ) → ℕ
  pub node-OfNode : (job k nth t : ℕ) → t < nth * k → OfNode k numa_nodes nth (node job k nth t) t

abbrev pub run_job {ℓ} :
    {S : Type ℓ} {numa_nodes : ℕ} → Dispatch numa_nodes → (job k nth : ℕ) → (ℕ → ℕ → S → S) → S → S
run_job d job k nth body = run_all (λ t. body (d.node job k nth t) t) (d.order job k nth)

-- Two nodes do not share a block.
pub edge_le : (base remain m n : ℕ) → m ≤ n → edge base remain m ≤ edge base remain n
edge_le base remain m zero h = omega (arith, ap (edge base remain) {x = m} {y = zero} (omega arith))
edge_le base remain m (suc n) h = elim (ℕ_discrete m (suc n)) [
  | yes e ↦ omega (arith, ap (edge base remain) e)
  | no d ↦ omega (arith, edge_le base remain m n (omega arith), edge_mono base remain n)
]

one_node :
    (base remain i m n : ℕ)
    → edge base remain m ≤ i
    → i < edge base remain (suc m)
    → edge base remain n ≤ i
    → i < edge base remain (suc n)
    → m ≡ n
one_node base remain i m n a b c e = elim (dec_lt m n) [
  | yes l ↦ absurd (omega (arith, edge_le base remain (suc m) n l))
  | no x ↦ elim (dec_lt n m) [
    | yes l ↦ absurd (omega (arith, edge_le base remain (suc n) m l))
    | no y ↦ omega arith
  ]
]

edge_fits :
    (numa_nodes nth : ℕ)
    → 1 ≤ numa_nodes
    → (nid : ℕ) → nid < numa_nodes
    → edge (nth / numa_nodes) (nth % numa_nodes) (suc nid) ≤ nth
edge_fits numa_nodes nth p nid lt = omega (
  arith,
  edge_total numa_nodes nth p,
  edge_le (nth / numa_nodes) (nth % numa_nodes) (suc nid) numa_nodes lt,
)

node_eq :
    (k numa_nodes nth m n t : ℕ) → OfNode k numa_nodes nth m t → OfNode k numa_nodes nth n t → m ≡ n
node_eq k numa_nodes nth m n t h g = elim (dec_lt m n) [
  | yes l ↦ absurd (
      omega (
        arith,
        h.below,
        g.from,
        mul-le-mul_right k (edge_le (nth / numa_nodes) (nth % numa_nodes) (suc m) n l),
      ))
  | no x ↦ elim (dec_lt n m) [
    | yes l ↦ absurd (
        omega (
          arith,
          g.below,
          h.from,
          mul-le-mul_right k (edge_le (nth / numa_nodes) (nth % numa_nodes) (suc n) m l),
        ))
    | no y ↦ omega arith
  ]
]

module _ {numa_nodes : ℕ} (some_node : 1 ≤ numa_nodes) (d : Dispatch numa_nodes)
    (job k nth : ℕ) where
  abbrev pub home : ℕ → NumaBlock
  home t = numa_block numa_nodes nth (d.node job k nth t)

  -- Where task t works.
  abbrev pub at : ℕ → Place
  at t = place k (home t) t

  pub at_bounds :
      (t : ℕ)
      → t < nth * k
      → ((at t).expert < k)
        × ((at t).offset < (home t).num_blocks)
        × ((at t).ith < (home t).start_block + (home t).num_blocks)
  at_bounds t h = place_bounds k numa_nodes nth (d.node job k nth t) t (d.node-OfNode job k nth t h)

  -- A task number is made of its place.
  task_eq :
      (t : ℕ)
      → t < nth * k
      → t ≡ (home t).start_block * k + ((at t).expert * (home t).num_blocks + (at t).offset)
  task_eq t h = omega (
    arith,
    (d.node-OfNode job k nth t h).from,
    div-add-mod (t - (home t).start_block * k) (home t).num_blocks,
  )

  -- Tasks with one place are one task.
  pub at_injective :
      (t u : ℕ)
      → t < nth * k
      → u < nth * k
      → (at t).expert ≡ (at u).expert
      → (at t).ith ≡ (at u).ith
      → t ≡ u
  at_injective t u h l e i =
      let n : d.node job k nth t ≡ d.node job k nth u =
        one_node (nth / numa_nodes) (nth % numa_nodes) (at t).ith _ _ (omega arith)
          (omega (arith, at_bounds t h)) (omega arith) (omega (arith, i, at_bounds u l)) in
      let o : (at t).offset ≡ (at u).offset =
        omega (arith, i, ap (edge (nth / numa_nodes) (nth % numa_nodes)) n) in
      task_eq t h
      ∙ ap (λ m. number m (at t).expert (at t).offset) n
      ∙ ap (λ x. number (d.node job k nth u) x (at t).offset) e
      ∙ ap (number (d.node job k nth u) (at u).expert) o
      ∙ sym (task_eq u l)
    where
      number : ℕ → ℕ → ℕ → ℕ
      number m e o =
          (numa_block numa_nodes nth m).start_block * k
          + (e * (numa_block numa_nodes nth m).num_blocks + o)

  -- A node's blocks are among the nth.
  pub at_ith-lt : (t : ℕ) → t < nth * k → (at t).ith < nth
  at_ith-lt t h = omega (
    arith,
    at_bounds t h,
    edge_fits numa_nodes nth some_node (d.node job k nth t) (d.node-OfNode job k nth t h).nid_lt,
  )

  -- The node of a task is the one that has its block.
  pub at_node :
      (t nid : ℕ)
      → t < nth * k
      → (numa_block numa_nodes nth nid).start_block ≤ (at t).ith
      → (at t).ith
        < (numa_block numa_nodes nth nid).start_block + (numa_block numa_nodes nth nid).num_blocks
      → d.node job k nth t ≡ nid
  at_node t nid h lo hi =
      one_node (nth / numa_nodes) (nth % numa_nodes) (at t).ith _ nid (omega arith)
        (omega (arith, at_bounds t h)) lo hi

  -- Every pair of an expert and a block is the place of a task.
  pub at_covers :
      (e ith : ℕ)
      → e < k
      → ith < nth
      → (t : ℕ) × (t < nth * k) × ((at t).expert ≡ e) × ((at t).ith ≡ ith)
  at_covers e ith lt l =
      let (nid, nl, lo, hi) = block_home k numa_nodes nth ith some_node l in
      let (t, h, q) = task_place k numa_nodes nth nid e ith lt nl lo hi in
      let below : t < nth * k =
        omega (arith, h.below, mul-le-mul_right k (edge_fits numa_nodes nth some_node nid nl)) in
      let n : d.node job k nth t ≡ nid =
        node_eq k numa_nodes nth _ _ t (d.node-OfNode job k nth t below) h in
      let r = ap (λ m. place k (numa_block numa_nodes nth m) t) n ∙ q in
      (t, below, ap (λ p. p.expert) r, ap (λ p. p.ith) r)

  -- With a node at least, and whatever node of theirs the tasks of a job run on: for each of the k
  -- experts (or tokens) and each of the nth blocks there is one task that computes that place from
  -- its number and its node, and no other task does.
  pub at_once :
      (e ith : ℕ)
      → e < k
      → ith < nth
      → (t : ℕ) × (t < nth * k)
        × ((at t).expert ≡ e)
        × ((at t).ith ≡ ith)
        × ((u : ℕ) → u < nth * k → (at u).expert ≡ e → (at u).ith ≡ ith → u ≡ t)
  at_once e ith lt l =
      let (t, h, pe, pi) = at_covers e ith lt l in
      (t, h, pe, pi, λ u hu qe qi. at_injective u t hu h (qe ∙ sym pe) (qi ∙ sym pi))
