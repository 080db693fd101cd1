-- ===== src/TaskQueue/Drain.antt =====
-- The worker alone empties the queue, so that a `sync` returns.
use xiaotu_moe.Base.{ℕ, ◌≡◌, refl, ap, ◌∙◌, true, false, List, [], ◌∷◌}
use xiaotu_moe.TaskQueue.State.{
  Pc, head, holding, ran, exited, Queue, is_empty, Work, pop, run, settle, Reach, by_worker, Works,
  none_left, then_work,
}
use xiaotu_moe.TaskQueue.Sync.{Inv, Reach-Inv, sync_waits_for_all}

-- From `q` the worker's own steps reach a state whose flag is set.
abbrev Drains : Queue → Type 0
Drains q = (u : Queue) × Works q u × (u.sync_flag ≡ true) × (u.enqueued ≡ q.enqueued)

prepend : {q r : Queue} → Work q r → r.enqueued ≡ q.enqueued → Drains r → Drains q
prepend w e (u, ws, f, g) = (u, then_work w ws, f, g ∙ e)

from_ran :
    (q : Queue)
    → q.pc ≡ ran
    → q.locked ≡ false
    → ((r : Queue)
        → r.tasks ≡ q.tasks
        → r.pc ≡ head
        → r.locked ≡ false
        → (r.tasks ≡ [] → r.sync_flag ≡ true)
        → Drains r)
    → Drains q
from_ran q p l k =
    prepend (settle p l) refl
      (k _ refl refl l (λ n. ap (λ xs. elim (is_empty xs) [ true ↦ true | false ↦ q.sync_flag ]) n))

from_head :
    (ts : List ℕ) (q : Queue)
    → q.tasks ≡ ts
    → q.pc ≡ head
    → q.locked ≡ false
    → (q.tasks ≡ [] → q.sync_flag ≡ true)
    → Drains q
from_head [] q e p l f = (q, none_left, f e, refl)
from_head (t ∷ ts) q e p l f =
    prepend (pop p l e) refl (prepend (run refl) refl (from_ran _ refl l (λ r d. from_head ts r d)))

Works-Reach : {q u : Queue} → Works q u → Reach q → Reach u
Works-Reach none_left r = r
Works-Reach (then_work w ws) r = Works-Reach ws (by_worker r w)

-- From every reachable state in which the mutex is free, the worker's own steps lead to a state
-- in which `sync_flag` is set and every task enqueued has run, in order.
pub sync_returns :
    {q : Queue}
    → Reach q
    → q.locked ≡ false
    → (u : Queue) × Works q u × (u.sync_flag ≡ true) × (u.done ≡ q.enqueued)
sync_returns {q} r l =
    let (u, ws, f, e) = drains q.pc refl in
    (u, ws, f, (sync_waits_for_all (Works-Reach ws r)).1 f ∙ e)
  where
    inv : Inv q
    inv = Reach-Inv r

    drains : (p : Pc) → q.pc ≡ p → Drains q
    drains head e = from_head q.tasks q refl e l (inv.idle e)
    drains (holding t) e = prepend (run e) refl (from_ran _ refl l (λ r. from_head q.tasks r))
    drains ran e = from_ran q e l (λ r. from_head q.tasks r)
    drains exited e = absurd (let e' = (inv.left e).1 in cc)
