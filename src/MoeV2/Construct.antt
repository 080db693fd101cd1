-- ===== src/MoeV2/Construct.antt =====
-- Where MOE_V2's constructor puts its weights (moe_v2.hpp, lines 302-410 and 1036-1058). A pointer
-- is null or the bytes behind it; dimensions are not negative. What the machine has and which
-- allocations succeed are parameters.
use xiaotu_moe.Base.{
  ℕ, zero, suc, ◌+◌, ◌-◌, ◌*◌, ◌/◌, ◌%◌, ◌==◌, ◌&&◌, true, false, not, Bool, ◌||◌, ltb, leb,
  if◌then◌else◌, Option, none, some,
}
use xiaotu_moe.MoeV2.Shards.{memcpy, shard_fill_w13, shard_fill_w2}

abbrev pub Bytes : Type 0
Bytes = ℕ → ℕ

-- An allocation with the first `bytes` bytes of the source copied to it.
abbrev pub copy_of : ℕ → Bytes → Bytes
copy_of bytes src = memcpy 0 bytes src (λ _. 0)

-- The same of a block that may be null, where the copy can be had.
abbrev pub copy_block : ℕ → Option Bytes → Option Bytes
copy_block bytes none = none
copy_block bytes (some src) = some (copy_of bytes src)

-- A block that is null needs no copy.
abbrev pub copy_had : Bool → Option Bytes → Bool
copy_had had none = true
copy_had had (some src) = had

-- MOEConfigV2.
pub record Config : Type 0 where
  pub expert_num : ℕ
  pub top_k : ℕ
  pub hidden_size : ℕ
  pub intermediate_size : ℕ
  pub group_n : ℕ
  pub group_k : ℕ

-- What the weight traits say of their layout.
pub record Trait : Type 0 where
  pub n_parallel : Bool
  pub e8m0 : Bool
  pub w13_bytes : (experts n2 hidden : ℕ) → ℕ
  pub w2_bytes : (experts hidden inter : ℕ) → ℕ

-- The environment variables, the machine, and which allocations succeed: of the region of a node,
-- of the replica of a block (numbered in the order of the calls) on a socket, and of the one copy of
-- a block that make_unique is to give (w13, w2, their scales, their global scales). The vectors of
-- pointers are had.
pub record Host : Type 0 where
  pub single_copy : Bool
  pub no_shard : Bool
  pub numa_node_count : ℕ
  pub numa_socket_count : ℕ
  pub region_w13 : ℕ → Bool
  pub region_w2 : ℕ → Bool
  pub numa_socket_alloc : (block socket : ℕ) → Bool
  pub make_unique : (block : ℕ) → Bool

-- The arguments of the constructor; the global scales are a number for each expert.
pub record Given : Type 0 where
  pub w13 : Option Bytes
  pub w2 : Option Bytes
  pub w13_g : Option Bytes
  pub w2_g : Option Bytes
  pub w13_gs : Option Bytes
  pub w2_gs : Option Bytes

pub record Engine : Type 0 where
  pub nshard : ℕ
  pub w13 : Option Bytes
  pub w2 : Option Bytes
  pub w13_g : Option Bytes
  pub w2_g : Option Bytes
  pub w13_gs : Option Bytes
  pub w2_gs : Option Bytes
  pub w13_s : ℕ → Option Bytes
  pub w2_s : ℕ → Option Bytes
  pub w13g_s : ℕ → Option Bytes
  pub w2g_s : ℕ → Option Bytes
  pub w13_shard : ℕ → Option Bytes
  pub w2_shard : ℕ → Option Bytes

-- nsock_ behind a call of sock_fill, and the replicas.
pub record Replicas : Type 0 where
  pub nsock : ℕ
  pub dst : ℕ → Option Bytes

abbrev pub no_replicas : ℕ → Replicas
no_replicas nsock = record { nsock = nsock; dst = λ _. none }

abbrev pub sock_fill : (nsock : ℕ) → (alloc : ℕ → Bool) → (bytes : ℕ) → Option Bytes → Replicas
sock_fill nsock alloc bytes none = no_replicas nsock
sock_fill nsock alloc bytes (some src) =
    if ltb nsock 2
    then no_replicas nsock
    else if alloc 0 && alloc 1
    then record { nsock = nsock; dst = λ s. if ltb s 2 then some (copy_of bytes src) else none }
    else no_replicas 1

-- w13_for and its kin.
abbrev pub or_shared : Option Bytes → Option Bytes → Option Bytes
or_shared none shared = shared
or_shared (some p) shared = some p

abbrev pub for_socket : (ℕ → Option Bytes) → Option Bytes → ℕ → Option Bytes
for_socket replicas shared s = if ltb s 2 then or_shared (replicas s) shared else shared

-- The regions of the first n nodes can all be had.
abbrev all_regions : (ℕ → Bool) → ℕ → Bool
all_regions region zero = true
all_regions region (suc n) = all_regions region n && region n

-- The last test: no engine without both blocks.
abbrev pub not_null : Engine → Option Bytes → Option Bytes → Option Engine
not_null e none w2 = none
not_null e (some w13) none = none
not_null e (some w13) (some w2) = some e

module _ (t : Trait) (h : Host) (cfg : Config) where
  abbrev pub w13_size : ℕ
  w13_size = t.w13_bytes cfg.expert_num (2 * cfg.intermediate_size) cfg.hidden_size

  abbrev pub w2_size : ℕ
  w2_size = t.w2_bytes cfg.expert_num cfg.hidden_size cfg.intermediate_size

  -- The bytes of a block scale of n rows and k columns, in groups.
  abbrev scale_size : (n k : ℕ) → ℕ
  scale_size n k =
      let gn = if leb 1 cfg.group_n then cfg.group_n else 1 in
      let gk = if leb 1 cfg.group_k then cfg.group_k else 1 in
      cfg.expert_num * ((n + gn - 1) / gn) * ((k + gk - 1) / gk) * (if t.e8m0 then 1 else 4)

  abbrev pub w13g_size : ℕ
  w13g_size = scale_size (2 * cfg.intermediate_size) cfg.hidden_size

  abbrev pub w2g_size : ℕ
  w2g_size = scale_size cfg.hidden_size cfg.intermediate_size

  -- The blocks that are not sharded: replicas where all of them could be had, else one copy each.
  abbrev pub unsharded : Given → Engine
  unsharded w =
      let sockets = if t.n_parallel && not h.single_copy then h.numa_socket_count else 1 in
      let a = sock_fill sockets (h.numa_socket_alloc 0) w13_size w.w13 in
      let b = sock_fill a.nsock (h.numa_socket_alloc 1) w2_size w.w2 in
      let c = sock_fill b.nsock (h.numa_socket_alloc 2) w13g_size w.w13_g in
      let d = sock_fill c.nsock (h.numa_socket_alloc 3) w2g_size w.w2_g in
      let replicated = leb 2 d.nsock in
      record {
        nshard = 0;
        w13 = if replicated then a.dst 0 else copy_block w13_size w.w13;
        w2 = if replicated then b.dst 0 else copy_block w2_size w.w2;
        w13_g = if replicated then c.dst 0 else copy_block w13g_size w.w13_g;
        w2_g = if replicated then d.dst 0 else copy_block w2g_size w.w2_g;
        w13_gs = copy_block cfg.expert_num w.w13_gs;
        w2_gs = copy_block cfg.expert_num w.w2_gs;
        w13_s = a.dst;
        w2_s = b.dst;
        w13g_s = c.dst;
        w2g_s = d.dst;
        w13_shard = λ _. none;
        w2_shard = λ _. none;
      }

  abbrev pub sharded : Given → Bytes → Bytes → Engine
  sharded w w13 w2 =
      let n = h.numa_node_count in
      let r13 = λ (i : ℕ).
        shard_fill_w13 cfg.expert_num cfg.intermediate_size cfg.hidden_size n i w13 (λ _. 0) in
      let r2 = λ (i : ℕ).
        shard_fill_w2 cfg.expert_num cfg.hidden_size cfg.intermediate_size n i w2 (λ _. 0) in
      record {
        nshard = n;
        w13 = some (r13 0);
        w2 = some (r2 0);
        w13_g = copy_block w13g_size w.w13_g;
        w2_g = copy_block w2g_size w.w2_g;
        w13_gs = copy_block cfg.expert_num w.w13_gs;
        w2_gs = copy_block cfg.expert_num w.w2_gs;
        w13_s = λ _. none;
        w2_s = λ _. none;
        w13g_s = λ _. none;
        w2g_s = λ _. none;
        w13_shard = λ i. if ltb i n then some (r13 i) else none;
        w2_shard = λ i. if ltb i n then some (r2 i) else none;
      }

  -- sharded_ok, where neither block is null.
  abbrev pub can_shard : Bool
  can_shard =
      t.n_parallel
      && not h.single_copy
      && not h.no_shard
      && leb 2 h.numa_node_count
      && (cfg.intermediate_size % h.numa_node_count == 0)
      && (cfg.hidden_size % h.numa_node_count == 0)
      && all_regions h.region_w13 h.numa_node_count
      && all_regions h.region_w2 h.numa_node_count

  abbrev pub place : Given → Option Bytes → Option Bytes → Engine
  place w none w2 = unsharded w
  place w (some w13) none = unsharded w
  place w (some w13) (some w2) = if can_shard then sharded w w13 w2 else unsharded w

  -- The engine has shards.
  abbrev pub is_sharded : Option Bytes → Option Bytes → Bool
  is_sharded none w2 = false
  is_sharded (some w13) none = false
  is_sharded (some w13) (some w2) = can_shard

  -- Replicas of every block could be had.
  abbrev pub is_replicated : Given → Bool
  is_replicated w =
      let sockets = if t.n_parallel && not h.single_copy then h.numa_socket_count else 1 in
      let a = sock_fill sockets (h.numa_socket_alloc 0) w13_size w.w13 in
      let b = sock_fill a.nsock (h.numa_socket_alloc 1) w2_size w.w2 in
      let c = sock_fill b.nsock (h.numa_socket_alloc 2) w13g_size w.w13_g in
      let d = sock_fill c.nsock (h.numa_socket_alloc 3) w2g_size w.w2_g in leb 2 d.nsock

  -- No make_unique throws: of the global scales, of the scales unless there are replicas, and of
  -- the blocks when there are neither shards nor replicas.
  abbrev pub copies_had : Given → Bool
  copies_had w =
      let blocks = copy_had (h.make_unique 0) w.w13 && copy_had (h.make_unique 1) w.w2 in
      let scales = copy_had (h.make_unique 2) w.w13_g && copy_had (h.make_unique 3) w.w2_g in
      let globals = copy_had (h.make_unique 4) w.w13_gs && copy_had (h.make_unique 5) w.w2_gs in
      if is_sharded w.w13 w.w2
      then scales && globals
      else if is_replicated w
      then globals
      else blocks && (scales && globals)

  -- none where the constructor throws.
  abbrev pub construct : Given → Option Engine
  construct w =
      let e = place w w.w13 w.w2 in
      if cfg.expert_num == 0
        || (cfg.top_k == 0 || (cfg.hidden_size == 0 || cfg.intermediate_size == 0))
      then none
      else if copies_had w
      then not_null e e.w13 e.w2
      else none
