-- ===== src/Moe/Loaded.antt =====
-- Every node has the rows of its blocks, of every expert.
use xiaotu_moe.Base.{
  refl, sym, ap, ◌∙◌, subst, arith, ℕ, ◌+◌, ◌-◌, ◌*◌, ◌≤◌, ◌<◌, ◌≡◌, ℕ_discrete, ◌==◌, ◌≢◌,
  row_injective, if-both, update-other, update, update-same, run_all-settles,
}
use xiaotu_moe.Layers.Blocks.{numa_block, Place}
use xiaotu_moe.Layers.Jobs.{Dispatch, at_covers, at, home, at_bounds, at_injective, at_node}
use xiaotu_moe.Moe.Weights.{load, copy_block}

module _ {ℓ} {Row : Type ℓ} (numa_nodes stride nth : ℕ) (proj : ℕ → Row)
    (some_node : 1 ≤ numa_nodes) (d : Dispatch numa_nodes) (job expert_num : ℕ) where
  abbrev idx : ℕ → ℕ → ℕ → ℕ
  idx nid e ith =
      e * (numa_block numa_nodes nth nid).num_blocks
      + (ith - (numa_block numa_nodes nth nid).start_block)

  abbrev at_job : ℕ → Place
  at_job = at some_node d job expert_num nth

  -- A task at another place leaves the block alone.
  copy_block-other :
      (e ith nid t u : ℕ)
      → u < nth * expert_num
      → t < nth * expert_num
      → u ≢ t
      → (at_job t).expert ≡ e
      → (at_job t).ith ≡ ith
      → (numa_block numa_nodes nth nid).start_block ≤ ith
      → ith
        < (numa_block numa_nodes nth nid).start_block + (numa_block numa_nodes nth nid).num_blocks
      → (numa : ℕ → ℕ → ℕ → Row)
      → copy_block numa_nodes stride nth proj expert_num
          (d.node job expert_num nth u)
          u
          numa
          nid
          (idx nid e ith)
        ≡ numa nid (idx nid e ith)
  copy_block-other e ith nid t u hu ht ne pe pi lo hi numa =
      if-both (λ x. x nid (idx nid e ith) ≡ numa nid (idx nid e ith))
        ((home some_node d job expert_num nth u).num_blocks == 0) numa
        (update numa (d.node job expert_num nth u) here) (λ _. refl)
        (λ _. elim (ℕ_discrete (d.node job expert_num nth u) nid) [
          | no n ↦
              ap (λ f. f (idx nid e ith))
                (update-other numa (d.node job expert_num nth u) nid here n)
          | yes q ↦
              subst
                (λ x.
                  (numa_block numa_nodes nth x).start_block ≤ ith
                  → ith
                    < (numa_block numa_nodes nth x).start_block
                      + (numa_block numa_nodes nth x).num_blocks
                  → update numa (d.node job expert_num nth u) here x (idx x e ith)
                    ≡ numa x (idx x e ith))
                q
                (λ lo' hi'.
                  ap (λ f. f (idx (d.node job expert_num nth u) e ith))
                    (update-same numa (d.node job expert_num nth u) here)
                  ∙ update-other (numa (d.node job expert_num nth u)) _
                      (idx (d.node job expert_num nth u) e ith) _ (apart lo' hi'))
                lo hi
        ])
    where
      here : ℕ → ℕ → Row
      here =
          update (numa (d.node job expert_num nth u))
            ((at_job u).expert * (home some_node d job expert_num nth u).num_blocks
              + (at_job u).offset)
            (λ i. proj (((at_job u).expert * nth + (at_job u).ith) * stride + i))

      apart :
          (home some_node d job expert_num nth u).start_block ≤ ith
          → ith
            < (home some_node d job expert_num nth u).start_block
              + (home some_node d job expert_num nth u).num_blocks
          → (at_job u).expert * (home some_node d job expert_num nth u).num_blocks
              + (at_job u).offset
            ≢ idx (d.node job expert_num nth u) e ith
      apart lo' hi' r =
          let (pe', po) =
            row_injective (home some_node d job expert_num nth u).num_blocks (at_job u).expert
              (at_job u).offset e (ith - (home some_node d job expert_num nth u).start_block)
              (at_bounds some_node d job expert_num nth u hu).1 (omega arith) r in
          ne (
            at_injective some_node d job expert_num nth u t hu ht (pe' ∙ sym pe)
              (omega (arith, po, pi)))

  -- The task at the place writes it.
  copy_block-own :
      (e ith nid t : ℕ)
      → t < nth * expert_num
      → (at_job t).expert ≡ e
      → (at_job t).ith ≡ ith
      → (numa_block numa_nodes nth nid).start_block ≤ ith
      → ith
        < (numa_block numa_nodes nth nid).start_block + (numa_block numa_nodes nth nid).num_blocks
      → (numa : ℕ → ℕ → ℕ → Row)
      → copy_block numa_nodes stride nth proj expert_num
          (d.node job expert_num nth t)
          t
          numa
          nid
          (idx nid e ith)
        ≡ (λ r. proj ((e * nth + ith) * stride + r))
  copy_block-own e ith nid t ht pe pi lo hi numa =
      if-both (λ x. x nid (idx nid e ith) ≡ (λ r. proj ((e * nth + ith) * stride + r)))
        ((home some_node d job expert_num nth t).num_blocks == 0) numa _
        (λ z.
          absurd (let b = (at_bounds some_node d job expert_num nth t ht).1 in ground (arith, b)))
        (λ _.
          subst
            (λ x.
              update numa (d.node job expert_num nth t) here x (idx x e ith)
              ≡ (λ r. proj ((e * nth + ith) * stride + r)))
            (at_node some_node d job expert_num nth t nid ht (omega arith) (omega arith))
            (ap (λ f. f (idx (d.node job expert_num nth t) e ith))
                (update-same numa (d.node job expert_num nth t) here)
              ∙ ap here same_index
              ∙ update-same (numa (d.node job expert_num nth t)) _ _
              ∙ ap (λ x r. proj ((x * nth + (at_job t).ith) * stride + r)) pe
              ∙ ap (λ x r. proj ((e * nth + x) * stride + r)) pi))
    where
      here : ℕ → ℕ → Row
      here =
          update (numa (d.node job expert_num nth t))
            ((at_job t).expert * (home some_node d job expert_num nth t).num_blocks
              + (at_job t).offset)
            (λ i. proj (((at_job t).expert * nth + (at_job t).ith) * stride + i))

      same_index :
          idx (d.node job expert_num nth t) e ith
          ≡ (at_job t).expert * (home some_node d job expert_num nth t).num_blocks
            + (at_job t).offset
      same_index =
          omega (arith, ap (λ x. x * (home some_node d job expert_num nth t).num_blocks) pe, pi)

  -- For every block of every expert, the node that has the block holds the block's rows of the
  -- matrix, at the place where the forward pass reads them.
  pub load_rows :
      (e ith nid : ℕ)
      → e < expert_num
      → (numa_block numa_nodes nth nid).start_block ≤ ith
      → ith
        < (numa_block numa_nodes nth nid).start_block + (numa_block numa_nodes nth nid).num_blocks
      → ith < nth
      → (numa : ℕ → ℕ → ℕ → Row) (i : ℕ)
      → load numa_nodes stride nth proj d job expert_num numa nid
          (e * (numa_block numa_nodes nth nid).num_blocks
            + (ith - (numa_block numa_nodes nth nid).start_block))
          i
        ≡ proj ((e * nth + ith) * stride + i)
  load_rows e ith nid lt lo hi l numa i =
      let (t, ht, pe, pi) = at_covers some_node d job expert_num nth e ith lt l in
      ap (λ f. f i)
        (run_all-settles (λ s. s nid (idx nid e ith) ≡ (λ r. proj ((e * nth + ith) * stride + r)))
          (λ t'. copy_block numa_nodes stride nth proj expert_num (d.node job expert_num nth t') t')
          (nth * expert_num) t (copy_block-own e ith nid t ht pe pi lo hi)
          (λ u hu ne s h. copy_block-other e ith nid t u hu ht ne pe pi lo hi s ∙ h)
          (d.order job expert_num nth) (d.order-Once job expert_num nth) ht numa)
