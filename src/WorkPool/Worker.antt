-- ===== src/WorkPool/Worker.antt =====
-- `NumaWorkPool::worker_loop`, one shared access at a time (sequentially consistent). What stands
-- between `lock_guard` and the end of its block reads under the lock and is one step.
use xiaotu_moe.Base.{ℕ, ◌≤◌, ◌<◌, ◌≡◌, ◌≢◌, true, false, ◌∷◌, update, inc64, dec64, sub64}
use xiaotu_moe.WorkPool.State.{
  flat_run, shard_run, Pool, Snapshot, snapshot, Pc, idle, pulling, drawn, stale, running, ran,
  shard_entering, shard_pulling, shard_drawn, shard_stale, shard_running, shard_ran, exited,
}

-- `node` is `worker_node_[w]`. Spinning and sleeping until the generation changes are the choice
-- of when `anchor` happens.
pub data Work (node : ℕ) (s : Pool) : Pc → Pool → Pc → Type 0 where
  exit : {last : ℕ} → s.locked ≡ false → s.stop ≡ true → Work node s (idle last) s exited
  anchor :
      {last : ℕ}
      → s.locked ≡ false
      → s.gen ≢ last
      → s.sharded_call ≡ 0
      → Work node s (idle last) s (pulling (snapshot s))
  draw :
      {sn : Snapshot}
      → Work node s (pulling sn) (record s { counter = inc64 s.counter }) (drawn sn s.counter)
  run :
      {sn : Snapshot} {t : ℕ}
      → s.gen ≡ sn.gen
      → sub64 t sn.start < sn.n
      → Work node s (drawn sn t) s (running sn t)
  exhausted :
      {sn : Snapshot} {t : ℕ}
      → s.gen ≡ sn.gen
      → sn.n ≤ sub64 t sn.start
      → Work node s (drawn sn t) s (idle sn.gen)
  advanced : {sn : Snapshot} {t : ℕ} → s.gen ≢ sn.gen → Work node s (drawn sn t) s (stale sn t)
  reanchor_stop :
      {sn : Snapshot} {t : ℕ} → s.locked ≡ false → s.stop ≡ true → Work node s (stale sn t) s exited
  reanchor_run :
      {sn : Snapshot} {t : ℕ}
      → s.locked ≡ false
      → s.stop ≡ false
      → sub64 t s.start < s.n
      → Work node s (stale sn t) s (running (snapshot s) t)
  reanchor_drop :
      {sn : Snapshot} {t : ℕ}
      → s.locked ≡ false
      → s.stop ≡ false
      → s.n ≤ sub64 t s.start
      → Work node s (stale sn t) s (idle s.gen)
  execute :
      {sn : Snapshot} {t : ℕ}
      → Work node s
          (running sn t)
          (record s { log = flat_run sn.task (sub64 t sn.start) ∷ s.log })
          (ran sn t)
  finish :
      {sn : Snapshot} {t : ℕ}
      → Work node s (ran sn t) (record s { remaining = dec64 s.remaining }) (pulling sn)
  anchor_sharded :
      {last : ℕ}
      → s.locked ≡ false
      → s.gen ≢ last
      → 0 < s.sharded_call
      → Work node s (idle last) s (shard_entering s.gen s.sharded_task)
  shard_enter :
      {g f : ℕ}
      → node < s.sharded_call
      → Work node s (shard_entering g f) s (shard_pulling g f (s.node_nj node))
  shard_skip : {g f : ℕ} → s.sharded_call ≤ node → Work node s (shard_entering g f) s (idle g)
  shard_draw :
      {g f nj : ℕ}
      → Work node s
          (shard_pulling g f nj)
          (record s { node_ticket = update s.node_ticket node (inc64 (s.node_ticket node)) })
          (shard_drawn g f nj (s.node_ticket node))
  shard_take :
      {g f nj t : ℕ}
      → s.gen ≡ g
      → t < nj
      → Work node s (shard_drawn g f nj t) s (shard_running g f nj t)
  shard_exhausted :
      {g f nj t : ℕ} → s.gen ≡ g → nj ≤ t → Work node s (shard_drawn g f nj t) s (idle g)
  shard_advanced :
      {g f nj t : ℕ} → s.gen ≢ g → Work node s (shard_drawn g f nj t) s (shard_stale g f t)
  shard_reanchor_stop :
      {g f t : ℕ} → s.locked ≡ false → s.stop ≡ true → Work node s (shard_stale g f t) s exited
  -- switched away from sharded calls: `my_last_gen` is not moved on
  shard_reanchor_flat :
      {g f t : ℕ}
      → s.locked ≡ false
      → s.stop ≡ false
      → s.sharded_call ≤ node
      → Work node s (shard_stale g f t) s (idle g)
  -- `stask` is not read again
  shard_reanchor_run :
      {g f t : ℕ}
      → s.locked ≡ false
      → s.stop ≡ false
      → node < s.sharded_call
      → t < s.node_nj node
      → Work node s (shard_stale g f t) s (shard_running s.gen f (s.node_nj node) t)
  shard_reanchor_drop :
      {g f t : ℕ}
      → s.locked ≡ false
      → s.stop ≡ false
      → node < s.sharded_call
      → s.node_nj node ≤ t
      → Work node s (shard_stale g f t) s (idle s.gen)
  shard_execute :
      {g f nj t : ℕ}
      → Work node s
          (shard_running g f nj t)
          (record s { log = shard_run f node t ∷ s.log })
          (shard_ran g f nj)
  shard_finish :
      {g f nj : ℕ}
      → Work node s
          (shard_ran g f nj)
          (record s { remaining = dec64 s.remaining })
          (shard_pulling g f nj)
