-- ===== src/Moe/Reorder.antt =====
-- How forward_many_m orders the rows of its buffers by expert (moe.cpp, lines 523-540): the
-- assignments in their order, `a` for expert a % k of token a / k.
use xiaotu_moe.Base.{ℕ, zero, suc, ◌+◌, update}

-- expert_selected_num, and the second components of token_expert_mapping.
pub record Selection : Type 0 where
  pub selected : ℕ → ℕ
  pub pos : ℕ → ℕ

module _ (ids : ℕ → ℕ) where
  abbrev pub select : ℕ → Selection → Selection
  select a s = record {
    selected = update s.selected (ids a) (s.selected (ids a) + 1);
    pos = update s.pos a (s.selected (ids a));
  }

  -- After the first n assignments.
  abbrev pub selection : ℕ → Selection
  selection zero = record { selected = λ _. 0; pos = λ _. 0 }
  selection (suc n) = select n (selection n)

  -- expert_reorder_offset, after n assignments.
  abbrev pub reorder_offset : ℕ → ℕ → ℕ
  reorder_offset n zero = 0
  reorder_offset n (suc e) = reorder_offset n e + (selection n).selected e

  -- The row of assignment a in the buffers ordered by expert.
  abbrev pub slot : ℕ → ℕ → ℕ
  slot n a = reorder_offset n (ids a) + (selection n).pos a
