-- ===== src/Moe/Weights.antt =====
-- The weights that MOE's constructor copies to the nodes (moe.cpp, lines 136-175 and 215-245,
-- without AMX).
use xiaotu_moe.Base.{ℕ, ◌+◌, ◌*◌, ◌==◌, if◌then◌else◌, update}
use xiaotu_moe.Layers.Blocks.{numa_block, place}
use xiaotu_moe.Layers.Jobs.{Dispatch, run_job}

-- A matrix of the weights by the number of its row, over all experts; a node's blocks of `stride`
-- rows by their number, as rows.
module _ {ℓ} {Row : Type ℓ} (numa_nodes stride nth : ℕ) (proj : ℕ → Row) where
  -- A task's memcpy of one block.
  abbrev pub copy_block : (k nid task_id : ℕ) → (ℕ → ℕ → ℕ → Row) → ℕ → ℕ → ℕ → Row
  copy_block k nid task_id numa =
      let b = numa_block numa_nodes nth nid in
      let p = place k b task_id in
      let block = λ (i : ℕ). proj ((p.expert * nth + p.ith) * stride + i) in
      if b.num_blocks == 0
      then numa
      else update numa nid (update (numa nid) (p.expert * b.num_blocks + p.offset) block)

  abbrev pub load :
      (d : Dispatch numa_nodes) (job expert_num : ℕ) → (ℕ → ℕ → ℕ → Row) → ℕ → ℕ → ℕ → Row
  load d job expert_num = run_job d job expert_num nth (copy_block expert_num)
