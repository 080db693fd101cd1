-- ===== src/MoeV2/Routing.antt =====
-- Grouping of the (token, rank) assignments by expert: forward_many, lines 455-470, and the same
-- loops of forward_many_nsliced, lines 621-637 (xiaotu-moe/csrc/moe/moe_v2.hpp).
use xiaotu_moe.Base.{
  ℕ, zero, suc, ◌+◌, Bool, not, ◌&&◌, ◌==◌, if◌then◌else◌, ltb, List, [], ◌∷◌, ◌++◌, loop, update,
  length,
}

abbrev pub active_below : ℕ → (ℕ → ℕ) → List ℕ
active_below zero c = []
active_below (suc e) c = active_below e c ++ (if c e == 0 then [] else e ∷ [])

-- `ids` and `no_weight` are the arrays expert_ids and (weights[ai] == 0) of the call, `nel` the
-- number of experts.
module _ (nel : ℕ) (ids : ℕ → ℕ) (no_weight : ℕ → Bool) where
  abbrev pub routed : ℕ → Bool
  routed ai = ltb (ids ai) nel && not (no_weight ai)

  -- The vectors `per_expert`, and the position of each assignment in its own (`inst_idx_`).
  pub record Groups : Type 0 where
    pub list : ℕ → List ℕ
    pub index : ℕ → ℕ

  abbrev pub push_one : ℕ → Groups → Groups
  push_one ai g =
      if routed ai
      then record {
        list = update g.list (ids ai) (g.list (ids ai) ++ ai ∷ []);
        index = update g.index ai (length (g.list (ids ai)));
      }
      else g

  abbrev pub per_expert : ℕ → Groups
  per_expert nass = loop nass push_one (record { list = λ _. []; index = λ _. 0 })

  abbrev pub count_one : ℕ → (ℕ → ℕ) → ℕ → ℕ
  count_one ai c = if routed ai then update c (ids ai) (c (ids ai) + 1) else c

  abbrev pub counts : ℕ → ℕ → ℕ
  counts nass = loop nass count_one (λ _. 0)

  -- `active`: the experts with a routed assignment, in increasing order.
  abbrev pub active : ℕ → List ℕ
  active nass = active_below nel (counts nass)

  -- The same loops of forward_many_nsliced, on lists that an earlier call has left: those of the
  -- experts with a routed assignment are cleared, the others stay as they were.
  abbrev pub regroup : (ℕ → List ℕ) → ℕ → Groups
  regroup old nass =
      loop nass push_one
        (record { list = λ e. if counts nass e == 0 then old e else []; index = λ _. 0 })
