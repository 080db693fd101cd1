-- ===== src/Layers/Tasks.antt =====
-- The tasks of a job are the pairs of an expert and a block, each of them once.
use native.Mathlib.Nat.{div-add-mod, mod-lt, mul-le-mul_right}
use xiaotu_moe.Base.{
  ◌-◌, ◌*◌, ◌/◌, ◌%◌, ap, ◌∙◌, row-lt, row-div, row-mod, subst, dec_lt, suc, ℕ, ◌+◌, ◌≤◌, ◌<◌, ◌≡◌,
  arith, crossing,
}
use xiaotu_moe.Backend.State.{edge}
use xiaotu_moe.Backend.Split.{edge_total}
use xiaotu_moe.Layers.Blocks.{NumaBlock, numa_block, place, OfNode}

-- The arithmetic of one block of m, from s on.
module _ (k s m t : ℕ) (from : s * k ≤ t) (below : t < (s + m) * k) where
  num-pos : 1 ≤ m
  num-pos = elim (dec_lt 0 m) [
    | yes b ↦ b
    | no b ↦
        absurd (omega (arith, from, below, ap (λ x. (s + x) * k) {x = m} {y = 0} (omega arith)))
  ]

  expert_lt : (t - s * k) / m < k
  expert_lt = elim (dec_lt ((t - s * k) / m) k) [
    | yes b ↦ b
    | no b ↦
        absurd (omega (arith, from, below, mul-le-mul_right m (le b), div-add-mod (t - s * k) m))
  ]
    where
      le : ¬ ((t - s * k) / m < k) → k ≤ (t - s * k) / m
      le n = omega arith

module _ (k s m e ith : ℕ) (lt : e < k) (lo : s ≤ ith) (hi : ith < s + m) where
  task_below : s * k + (e * m + (ith - s)) < (s + m) * k
  task_below = omega (arith, row-lt k m e (ith - s) lt (omega arith))

  place_eq :
      place k (record { start_block = s; num_blocks = m }) (s * k + (e * m + (ith - s)))
      ≡ record { expert = e; offset = ith - s; ith = ith }
  place_eq =
      ap (λ x. record { expert = x / m; offset = x % m; ith = s + x % m })
        {x = s * k + (e * m + (ith - s)) - s * k} {y = e * m + (ith - s)} (omega arith)
      ∙ ap
          (λ x. record {
            expert = x;
            offset = (e * m + (ith - s)) % m;
            ith = s + (e * m + (ith - s)) % m;
          })
          (row-div m e (ith - s) (omega arith))
      ∙ ap (λ x. record { expert = e; offset = x; ith = s + x })
          (row-mod m e (ith - s) (omega arith))
      ∙ ap (λ x. record { expert = e; offset = ith - s; ith = x }) {x = s + (ith - s)} {y = ith}
          (omega arith)

module _ (k numa_nodes nth : ℕ) where
  abbrev blk : ℕ → NumaBlock
  blk nid = numa_block numa_nodes nth nid

  -- The node that has a block.
  pub block_home :
      (ith : ℕ)
      → 1 ≤ numa_nodes
      → ith < nth
      → (nid : ℕ) × (nid < numa_nodes)
        × ((blk nid).start_block ≤ ith)
        × (ith < (blk nid).start_block + (blk nid).num_blocks)
  block_home ith p lt =
      let (nid, a, b, c) =
        crossing (edge (nth / numa_nodes) (nth % numa_nodes)) numa_nodes ith (omega arith)
          (omega (arith, edge_total numa_nodes nth p)) in
      (
        nid,
        a,
        b,
        subst (λ j. ith < edge (nth / numa_nodes) (nth % numa_nodes) j) {x = nid + 1} {y = suc nid}
            (omega arith) c,
      )

  -- A node's tasks name blocks of that node, of experts below k.
  pub place_bounds :
      (nid t : ℕ)
      → OfNode k numa_nodes nth nid t
      → ((place k (blk nid) t).expert < k)
        × ((place k (blk nid) t).offset < (blk nid).num_blocks)
        × ((place k (blk nid) t).ith < (blk nid).start_block + (blk nid).num_blocks)
  place_bounds nid t h = (
    expert_lt k (blk nid).start_block (blk nid).num_blocks t h.from h.below,
    mod-lt _ (num-pos k (blk nid).start_block (blk nid).num_blocks t h.from h.below),
    omega (
      arith,
      mod-lt (t - (blk nid).start_block * k)
          (num-pos k (blk nid).start_block (blk nid).num_blocks t h.from h.below),
    ),
  )

  -- The task of expert e and block ith, on the node that has the block.
  pub task_place :
      (nid e ith : ℕ)
      → e < k
      → nid < numa_nodes
      → (blk nid).start_block ≤ ith
      → ith < (blk nid).start_block + (blk nid).num_blocks
      → (t : ℕ) × OfNode k numa_nodes nth nid t
        × (place k (blk nid) t
            ≡ record { expert = e; offset = ith - (blk nid).start_block; ith = ith })
  task_place nid e ith lt l lo hi = (
    (blk nid).start_block * k + (e * (blk nid).num_blocks + (ith - (blk nid).start_block)),
    record {
      nid_lt = l;
      from = omega arith;
      below = task_below k (blk nid).start_block (blk nid).num_blocks e ith lt lo hi;
    },
    place_eq k (blk nid).start_block (blk nid).num_blocks e ith lt lo hi,
  )
