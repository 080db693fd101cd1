-- ===== src/MoeV2/Constructed.antt =====
-- What MOE_V2's constructor puts behind the pointers the kernels read (moe_v2.hpp, lines 302-410).
use xiaotu_moe.Base.{
  refl, ap, ◌∙◌, subst, arith, ℕ, ◌+◌, ◌*◌, ◌/◌, ◌≤◌, ◌<◌, ◌≡◌, inl, inr, ◌==◌, ◌&&◌, true, false,
  not, ltb, leb, if◌then◌else◌, if-both, Option, none, some, ◌⊎◌, ◌||◌,
}
use xiaotu_moe.MoeV2.Backs.{
  Backs, Filled, copy_block-Backs, not_null-some, leb_lem, sock_fill-down, sock_fill-Filled,
}
use xiaotu_moe.MoeV2.Shards.{
  shard_fill_w13, shard_fill_w2, shard_fill_w13-owned, shard_fill_w2-owned,
}
use xiaotu_moe.MoeV2.Spans.{chunk_span}
use xiaotu_moe.MoeV2.Partition.{Holds}
use xiaotu_moe.MoeV2.Construct.{
  Bytes, for_socket, sock_fill, Trait, Host, Config, Engine, Given, unsharded, w13_size, w2_size,
  w13g_size, w2g_size, can_shard, not_null, sharded, place, construct, copies_had,
}

module _ (t : Trait) (h : Host) (cfg : Config) where
  -- Every socket reads each block from bytes that agree with the source.
  unfoldable pub ServesSockets : Given → Engine → Type 0
  ServesSockets w e =
      (s : ℕ)
      → Backs (w13_size t h cfg) w.w13 (for_socket e.w13_s e.w13 s)
        × Backs (w2_size t h cfg) w.w2 (for_socket e.w2_s e.w2 s)
        × Backs (w13g_size t h cfg) w.w13_g (for_socket e.w13g_s e.w13_g s)
        × Backs (w2g_size t h cfg) w.w2_g (for_socket e.w2g_s e.w2_g s)

  -- Each of the nshard nodes has a region of w13 and one of w2; of the bytes of every expert they
  -- hold the gate, up and down rows that the node owns.
  ServesNodes : Bytes → Bytes → Engine → Type 0
  ServesNodes w13 w2 e =
      let hidden = cfg.hidden_size in
      let inter = cfg.intermediate_size in
      (n : ℕ)
      → n < e.nshard
      → (a : Bytes) × (b : Bytes) × (e.w13_shard n ≡ some a)
        × (e.w2_shard n ≡ some b)
        × ((x r k : ℕ)
            → x < cfg.expert_num
            → Holds r (chunk_span inter e.nshard n)
            → k < hidden / 2
            → let row = λ (q : ℕ). x * (2 * inter * (hidden / 2)) + (q * (hidden / 2) + k) in
              (a (row r) ≡ w13 (row r)) × (a (row (inter + r)) ≡ w13 (row (inter + r))))
        × ((x r k : ℕ)
            → x < cfg.expert_num
            → Holds r (chunk_span hidden e.nshard n)
            → k < inter / 2
            → let o = x * (hidden * (inter / 2)) + (r * (inter / 2) + k) in b o ≡ w2 o)

  pub unsharded-ServesSockets : (w : Given) → ServesSockets w (unsharded t h cfg w)
  unfolding ServesSockets Filled
  unsharded-ServesSockets w s =
      let sockets = if t.n_parallel && not h.single_copy then h.numa_socket_count else 1 in
      let a = sock_fill sockets (h.numa_socket_alloc 0) (w13_size t h cfg) w.w13 in
      let b = sock_fill a.nsock (h.numa_socket_alloc 1) (w2_size t h cfg) w.w2 in
      let c = sock_fill b.nsock (h.numa_socket_alloc 2) (w13g_size t h cfg) w.w13_g in
      let d = sock_fill c.nsock (h.numa_socket_alloc 3) (w2g_size t h cfg) w.w2_g in
      let to_d = leb_lem d.nsock in
      let to_c = λ (q : leb 2 d.nsock ≡ true).
        sock_fill-down c.nsock (h.numa_socket_alloc 3) (w2g_size t h cfg) w.w2_g (to_d q) in
      let to_b = λ (q : leb 2 d.nsock ≡ true).
        sock_fill-down b.nsock (h.numa_socket_alloc 2) (w13g_size t h cfg) w.w13_g (to_c q) in
      let to_a = λ (q : leb 2 d.nsock ≡ true).
        sock_fill-down a.nsock (h.numa_socket_alloc 1) (w2_size t h cfg) w.w2 (to_b q) in
      (
        sock_fill-Filled sockets (h.numa_socket_alloc 0) (w13_size t h cfg) w.w13 (leb 2 d.nsock)
            to_a s,
        sock_fill-Filled a.nsock (h.numa_socket_alloc 1) (w2_size t h cfg) w.w2 (leb 2 d.nsock) to_b
            s,
        sock_fill-Filled b.nsock (h.numa_socket_alloc 2) (w13g_size t h cfg) w.w13_g (leb 2 d.nsock)
            to_c s,
        sock_fill-Filled c.nsock (h.numa_socket_alloc 3) (w2g_size t h cfg) w.w2_g (leb 2 d.nsock)
            to_d s,
      )

  sharded-ServesNodes : (w : Given) (w13 w2 : Bytes) → ServesNodes w13 w2 (sharded t h cfg w w13 w2)
  unfolding ServesNodes
  sharded-ServesNodes w w13 w2 n nl =
      let ns = h.numa_node_count in
      let experts = cfg.expert_num in
      let hidden = cfg.hidden_size in
      let inter = cfg.intermediate_size in
      let a = shard_fill_w13 experts inter hidden ns n w13 (λ _. 0) in
      let b = shard_fill_w2 experts hidden inter ns n w2 (λ _. 0) in
      let here = λ (x : Bytes).
        if-both (λ (p : Option Bytes). p ≡ some x) (ltb n ns) (some x) none (λ _. refl)
          (λ k. absurd (ground arith)) in
      (
        a,
        b,
        here a,
        here b,
        λ x r k xe hold kb.
            shard_fill_w13-owned experts inter hidden ns n x r k w13 (λ _. 0) xe hold kb,
        λ x r k xe hold kb.
            shard_fill_w2-owned experts hidden inter ns n x r k w2 (λ _. 0) xe hold kb,
      )

  -- The scales: one full copy of each that is given.
  ServesScales : Given → Engine → Type 0
  ServesScales w e =
      Backs (w13g_size t h cfg) w.w13_g e.w13_g
      × Backs (w2g_size t h cfg) w.w2_g e.w2_g
      × Backs cfg.expert_num w.w13_gs e.w13_gs
      × Backs cfg.expert_num w.w2_gs e.w2_gs

  -- The two ways an engine can hold the blocks w13 and w2.
  pub Serves : Given → Bytes → Bytes → Engine → Type 0
  Serves w w13 w2 e =
      ServesScales w e
      × (((can_shard t h cfg ≡ true)
            × (e.nshard ≡ h.numa_node_count)
            × (2 ≤ e.nshard)
            × ServesNodes w13 w2 e)
          ⊎ ((can_shard t h cfg ≡ false) × (e.nshard ≡ 0) × ServesSockets w e))

  unsharded-ServesScales : (w : Given) → ServesScales w (unsharded t h cfg w)
  unfolding ServesScales ServesSockets
  unsharded-ServesScales w =
      let (_, _, c, d) = unsharded-ServesSockets w 2 in
      (c, d, copy_block-Backs cfg.expert_num w.w13_gs, copy_block-Backs cfg.expert_num w.w2_gs)

  sharded-ServesScales : (w : Given) (w13 w2 : Bytes) → ServesScales w (sharded t h cfg w w13 w2)
  unfolding ServesScales
  sharded-ServesScales w w13 w2 = (
    copy_block-Backs (w13g_size t h cfg) w.w13_g,
    copy_block-Backs (w2g_size t h cfg) w.w2_g,
    copy_block-Backs cfg.expert_num w.w13_gs,
    copy_block-Backs cfg.expert_num w.w2_gs,
  )

  place-Serves :
      (w : Given) (w13 w2 : Bytes) → Serves w w13 w2 (place t h cfg w (some w13) (some w2))
  unfolding Serves
  place-Serves w w13 w2 =
      if-both (Serves w w13 w2) (can_shard t h cfg) (sharded t h cfg w w13 w2) (unsharded t h cfg w)
        (λ k. (
          sharded-ServesScales w w13 w2,
          inl (k, refl, ground arith, sharded-ServesNodes w w13 w2),
        ))
        (λ k. (unsharded-ServesScales w, inr (k, refl, unsharded-ServesSockets w)))

  -- The pointers that the constructor tests are the blocks' own.
  place-Backs :
      (w : Given) (w13 w2 : Bytes)
      → w.w13 ≡ some w13
      → w.w2 ≡ some w2
      → let e = place t h cfg w (some w13) (some w2) in not_null e e.w13 e.w2 ≡ some e
  unfolding ServesSockets
  place-Backs w w13 w2 a b =
      if-both (λ (e : Engine). not_null e e.w13 e.w2 ≡ some e) (can_shard t h cfg)
        (sharded t h cfg w w13 w2) (unsharded t h cfg w) (λ _. refl)
        (λ _.
          let (x, y, _, _) = unsharded-ServesSockets w 2 in
          not_null-some (unsharded t h cfg w) (w13_size t h cfg) (w2_size t h cfg) w13 w2 _ _
            (subst (λ p. Backs (w13_size t h cfg) p (unsharded t h cfg w).w13) a x)
            (subst (λ p. Backs (w2_size t h cfg) p (unsharded t h cfg w).w2) b y))

  -- No dimension is 0.
  unfoldable pub HasDims : Type 0
  HasDims =
      (1 ≤ cfg.expert_num) × (1 ≤ cfg.top_k) × (1 ≤ cfg.hidden_size) × (1 ≤ cfg.intermediate_size)

  dims_pass :
      HasDims
      → (cfg.expert_num == 0
          || (cfg.top_k == 0 || (cfg.hidden_size == 0 || cfg.intermediate_size == 0)))
        ≡ false
  unfolding HasDims
  dims_pass d = ground arith

  pub HasDims_lem :
      (cfg.expert_num == 0
          || (cfg.top_k == 0 || (cfg.hidden_size == 0 || cfg.intermediate_size == 0)))
        ≡ false
      → HasDims
  unfolding HasDims
  HasDims_lem d = ground arith

  -- With no dimension 0, both blocks given and every copy by make_unique had, the constructor
  -- returns an engine, whatever regions and replicas cannot be had: it has the scales, and either
  -- every node its owned rows or every socket both blocks.
  pub construct-Serves :
      (w : Given) (w13 w2 : Bytes)
      → HasDims
      → copies_had t h cfg w ≡ true
      → w.w13 ≡ some w13
      → w.w2 ≡ some w2
      → (e : Engine) × (construct t h cfg w ≡ some e) × Serves w w13 w2 e
  construct-Serves w w13 w2 d c a b =
      let made = λ (p q : Option Bytes). let e = place t h cfg w p q in not_null e e.w13 e.w2 in
      (
        place t h cfg w (some w13) (some w2),
        ap (λ x. if x then none else if copies_had t h cfg w then made w.w13 w.w2 else none)
              (dims_pass d)
            ∙ ap (λ x. if x then made w.w13 w.w2 else none) c
            ∙ ap (λ p. made p w.w2) a
            ∙ ap (λ q. made (some w13) q) b
            ∙ place-Backs w w13 w2 a b,
        place-Serves w w13 w2,
      )
