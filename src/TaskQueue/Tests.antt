-- ===== src/TaskQueue/Tests.antt =====
-- The queue on small histories.
use xiaotu_moe.Base.{ℕ, ◌≡◌, refl, true, List, [], ◌∷◌, ◌++◌}
use xiaotu_moe.TaskQueue.State.{
  Queue, Work, leave, pop, run, Client, enqueue, destroy, Reach, start, by_worker, by_client, Works,
}
use xiaotu_moe.TaskQueue.Sync.{sync_waits_for_all, exit_leaves_mutex_locked}
use xiaotu_moe.TaskQueue.Drain.{sync_returns}

-- Tasks 4 and 5 are handed in, and 4 has run.
one_of_two : (q : Queue) × Reach q
one_of_two = (
  _,
  by_worker
      (by_worker (by_client (by_client start (enqueue 4 refl)) (enqueue 5 refl))
        (pop {t = 4} {rest = 5 ∷ []} refl refl refl))
      (run refl),
)

-- The destructor has run, and the worker has left.
closed : (q : Queue) × Reach q
closed = (_, by_worker (by_client start (destroy refl)) (leave refl refl refl refl))

sync_waits_for_all_example :
    ((rest : List ℕ) × (4 ∷ 5 ∷ [] ≡ (4 ∷ []) ++ rest))
    × (one_of_two.0.sync_flag ≡ true → one_of_two.0.done ≡ one_of_two.0.enqueued)
unfolding one_of_two
sync_waits_for_all_example = sync_waits_for_all one_of_two.1

sync_returns_example :
    (u : Queue) × Works one_of_two.0 u × (u.sync_flag ≡ true) × (u.done ≡ 4 ∷ 5 ∷ [])
unfolding one_of_two
sync_returns_example = sync_returns one_of_two.1 refl

exit_leaves_mutex_locked_example :
    (closed.0.done ≡ closed.0.enqueued)
    × (closed.0.locked ≡ true)
    × ((u : Queue) → ¬ Client closed.0 u)
    × ((u : Queue) → ¬ Work closed.0 u)
unfolding closed
exit_leaves_mutex_locked_example = exit_leaves_mutex_locked closed.1 refl
