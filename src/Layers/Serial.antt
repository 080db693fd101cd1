-- ===== src/Layers/Serial.antt =====
-- A dispatch for every number of nodes: the tasks in their order, each on the node of its block.
use xiaotu_moe.Base.{
  ap, subst, arith, ℕ, suc, ◌+◌, ◌*◌, ◌/◌, ◌%◌, ◌≤◌, ◌<◌, dec_lt, crossing, range, dite,
}
use xiaotu_moe.Backend.State.{edge}
use xiaotu_moe.Backend.Split.{edge_total}
use xiaotu_moe.Layers.Blocks.{OfNode}
use xiaotu_moe.Layers.Jobs.{Dispatch}
use xiaotu_moe.MoeV2.Serial.{range-Once}

module _ (numa_nodes : ℕ) (some_node : 1 ≤ numa_nodes) where
  find_node : (k nth t : ℕ) → t < nth * k → (nid : ℕ) × OfNode k numa_nodes nth nid t
  find_node k nth t h =
      let (nid, a, b, c) =
        crossing (λ i. edge (nth / numa_nodes) (nth % numa_nodes) i * k) numa_nodes t (omega arith)
          (omega (arith, ap (λ x. x * k) (edge_total numa_nodes nth some_node))) in
      (
        nid,
        record {
          nid_lt = a;
          from = b;
          below =
              subst (λ j. t < edge (nth / numa_nodes) (nth % numa_nodes) j * k) {x = nid + 1}
                {y = suc nid} (omega arith) c;
        },
      )

  pub home_node : (k nth t : ℕ) → ℕ
  home_node k nth t = dite (dec_lt t (nth * k)) (λ h. (find_node k nth t h).0) (λ _. 0)

  pub home_node-OfNode : (k nth t : ℕ) → t < nth * k → OfNode k numa_nodes nth (home_node k nth t) t
  unfolding home_node
  home_node-OfNode k nth t h =
      elim (dec_lt t (nth * k))
        as (λ x. OfNode k numa_nodes nth (dite x (λ h'. (find_node k nth t h').0) (λ _. 0)) t) [
          | yes h' ↦ (find_node k nth t h').1
          | no n ↦ absurd (n h)
        ]

  abbrev pub in_order : Dispatch numa_nodes
  in_order = record {
    order = λ _ k nth. range 0 (nth * k);
    order-Once = λ _ k nth. range-Once (nth * k);
    node = λ _ k nth t. home_node k nth t;
    node-OfNode = λ _ k nth t h. home_node-OfNode k nth t h;
  }
