-- ===== src/Linear/Loaded.antt =====
-- The constructor leaves every block of the matrix on the node that has it.
use xiaotu_moe.Base.{
  sym, ap, ◌∙◌, subst, arith, ℕ, zero, suc, ◌+◌, ◌-◌, ◌*◌, ◌/◌, ◌%◌, ◌≤◌, ◌<◌, ◌≡◌, ℕ_discrete,
  dec_lt, ◌≢◌, loop-writes, loop-keeps, update, update-other, update-same,
}
use xiaotu_moe.Layers.Blocks.{numa_block}
use xiaotu_moe.Layers.Jobs.{edge_le}
use xiaotu_moe.Backend.Split.{edge_total}
use xiaotu_moe.Moe.Held.{HoldsRows}
use xiaotu_moe.Linear.Forward.{load_blocks, copy_node}

-- A block of the matrix is on a node that there is.
node_lt :
    (numa_nodes nth nid ith : ℕ)
    → 1 ≤ numa_nodes
    → ith < nth
    → (numa_block numa_nodes nth nid).start_block ≤ ith
    → nid < numa_nodes
node_lt numa_nodes nth nid ith p l lo = elim (dec_lt nid numa_nodes) [
  | yes y ↦ y
  | no n ↦ absurd (
      omega (
        arith,
        edge_total numa_nodes nth p,
        edge_le (nth / numa_nodes) (nth % numa_nodes) numa_nodes nid (le n),
      ))
]
  where
    le : ¬ (nid < numa_nodes) → numa_nodes ≤ nid
    le n = omega arith

module _ {A : Type 0} (numa_nodes stride nth : ℕ) (proj : ℕ → A) (nid ith i : ℕ) where
  abbrev start : ℕ
  start = (numa_block numa_nodes nth nid).start_block

  abbrev cell : (ℕ → ℕ → ℕ → A) → A
  cell s = s nid (ith - start) i

  abbrev copied : (n ib : ℕ) → (ℕ → ℕ → ℕ → A) → ℕ → ℕ → ℕ → A
  copied n ib s =
      update s n (
        update (s n) ib (λ r. proj (((numa_block numa_nodes nth n).start_block + ib) * stride + r)))

  copied-own :
      (s : ℕ → ℕ → ℕ → A)
      → start ≤ ith
      → cell (copied nid (ith - start) s) ≡ proj (ith * stride + i)
  copied-own s lo =
      ap (λ f. f (ith - start) i) (update-same s nid _)
      ∙ ap (λ f. f i) (update-same (s nid) (ith - start) _)
      ∙ ap (λ x. proj (x * stride + i)) {x = start + (ith - start)} {y = ith} (omega arith)

  copied-same :
      (ib : ℕ) (s : ℕ → ℕ → ℕ → A)
      → start ≤ ith
      → cell s ≡ proj (ith * stride + i)
      → cell (copied nid ib s) ≡ proj (ith * stride + i)
  copied-same ib s lo e = elim (ℕ_discrete ib (ith - start)) [
    | yes y ↦ subst (λ x. cell (copied nid x s) ≡ proj (ith * stride + i)) (sym y) (copied-own s lo)
    | no n ↦
        ap (λ f. f (ith - start) i) (update-same s nid _)
        ∙ ap (λ f. f i) (update-other (s nid) ib (ith - start) _ n)
        ∙ e
  ]

  copied-other : (n ib : ℕ) (s : ℕ → ℕ → ℕ → A) → n ≢ nid → cell (copied n ib s) ≡ cell s
  copied-other n ib s d = ap (λ f. f (ith - start) i) (update-other s n nid _ d)

  copy_node-keeps :
      (n : ℕ) (s : ℕ → ℕ → ℕ → A)
      → start ≤ ith
      → cell s ≡ proj (ith * stride + i)
      → cell (copy_node numa_nodes stride nth proj n s) ≡ proj (ith * stride + i)
  copy_node-keeps n s lo e =
      loop-keeps cell (proj (ith * stride + i)) (copied n) (numa_block numa_nodes nth n).num_blocks
        (λ ib l t k. elim (ℕ_discrete n nid) [
          | yes y ↦
              subst (λ x. cell (copied x ib t) ≡ proj (ith * stride + i)) (sym y)
                (copied-same ib t lo k)
          | no d ↦ copied-other n ib t d ∙ k
        ])
        s e

  load_blocks-cell :
      (numa : ℕ → ℕ → ℕ → A)
      → 1 ≤ numa_nodes
      → ith < nth
      → start ≤ ith
      → ith < start + (numa_block numa_nodes nth nid).num_blocks
      → cell (load_blocks numa_nodes stride nth proj numa) ≡ proj (ith * stride + i)
  load_blocks-cell numa p l lo hi =
      loop-writes cell (proj (ith * stride + i)) (copy_node numa_nodes stride nth proj) numa_nodes
        (λ n lt s e. copy_node-keeps n s lo e) nid
        (λ s.
          loop-writes cell (proj (ith * stride + i)) (copied nid)
            (numa_block numa_nodes nth nid).num_blocks (λ ib lt t k. copied-same ib t lo k)
            (ith - start) (λ t. copied-own t lo) s (omega arith))
        numa (node_lt numa_nodes nth nid ith p l lo)

pub load_blocks-HoldsRows :
    {A : Type 0} (numa_nodes stride nth : ℕ) (proj : ℕ → A) (numa : ℕ → ℕ → ℕ → A)
    → 1 ≤ numa_nodes
    → HoldsRows numa_nodes 1 stride nth (load_blocks numa_nodes stride nth proj numa) proj
load_blocks-HoldsRows numa_nodes stride nth proj numa p nid zero ith i le l lo hi =
    ap (λ j. load_blocks numa_nodes stride nth proj numa nid j i)
      {x = 0 * (numa_block numa_nodes nth nid).num_blocks
        + (ith - (numa_block numa_nodes nth nid).start_block)}
      {y = ith - (numa_block numa_nodes nth nid).start_block} (omega arith)
    ∙ load_blocks-cell numa_nodes stride nth proj nid ith i numa p l lo hi
    ∙ ap (λ x. proj (x * stride + i)) {x = ith} {y = 0 * nth + ith} (omega arith)
load_blocks-HoldsRows numa_nodes stride nth proj numa p nid (suc e) ith i le l lo hi =
    absurd (omega arith)
