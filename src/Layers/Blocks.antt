-- ===== src/Layers/Blocks.antt =====
-- The blocks of rows that the layers give to the nodes (constructors: moe.cpp, lines 104-124 and
-- 184-202; mlp.cpp, lines 28-45; linear.cpp, lines 21-34), and how a task number names a block
-- (moe.cpp, lines 138-149 and the other jobs).
use xiaotu_moe.Base.{ℕ, ◌+◌, ◌-◌, ◌*◌, ◌/◌, ◌%◌, ◌≤◌, ◌<◌, ltb, if◌then◌else◌}
use xiaotu_moe.Backend.State.{edge}

pub record NumaBlock : Type 0 where
  pub start_block : ℕ
  pub num_blocks : ℕ

-- The loop over the nodes, `nth` blocks on `numa_nodes` nodes.
abbrev pub numa_block : (numa_nodes nth nid : ℕ) → NumaBlock
numa_block numa_nodes nth nid = record {
  start_block = edge (nth / numa_nodes) (nth % numa_nodes) nid;
  num_blocks = nth / numa_nodes + (if ltb nid (nth % numa_nodes) then 1 else 0);
}

-- What a task works on: an expert (or a token, where k counts tokens), and a block of it, `offset`
-- in the node and `ith` in the whole.
pub record Place : Type 0 where
  pub expert : ℕ
  pub offset : ℕ
  pub ith : ℕ

abbrev pub place : (k : ℕ) → NumaBlock → (task_id : ℕ) → Place
place k b task_id =
    let x = task_id - b.start_block * k in
    record {
      expert = x / b.num_blocks;
      offset = x % b.num_blocks;
      ith = b.start_block + x % b.num_blocks;
    }

-- Task t is one of the node's, in a job of k tasks for each block.
pub record OfNode (k numa_nodes nth nid t : ℕ) : Type 0 where
  pub nid_lt : nid < numa_nodes
  pub from : (numa_block numa_nodes nth nid).start_block * k ≤ t
  pub below :
      t
      < ((numa_block numa_nodes nth nid).start_block + (numa_block numa_nodes nth nid).num_blocks)
        * k
