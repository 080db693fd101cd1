-- ===== src/TaskQueue/Sync.antt =====
-- What `sync` and the destructor may rely on.
use mathlib.Core.Bool.{false}
use xiaotu_moe.Base.{
  ℕ, ◌≡◌, refl, true, List, [], ◌∷◌, ◌++◌, ap, sym, ◌∙◌, append-nil, append_assoc, subst,
  Bool-cases, inl, inr,
}
use xiaotu_moe.TaskQueue.State.{
  Pc, holding, ran, exited, Queue, is_empty, Work, leave, pop, run, settle, Client, enqueue,
  destroy, Reach, head, by_worker, by_client, settle_flag, start,
}

-- The task that the worker holds.
abbrev in_flight : Pc → List ℕ
in_flight (holding t) = t ∷ []
in_flight _ = []

abbrev IsBusy : Pc → Type 0
IsBusy (holding t) = Unit
IsBusy ran = Unit
IsBusy _ = ⊥

pub record Inv (q : Queue) : Type 0 where
  pub in_order : q.enqueued ≡ q.done ++ (in_flight q.pc ++ q.tasks)
  pub synced : q.sync_flag ≡ true → (q.tasks ≡ []) × ¬ IsBusy q.pc
  pub left : q.pc ≡ exited → (q.tasks ≡ []) × (q.locked ≡ true)
  pub held : q.locked ≡ true → q.pc ≡ exited
  pub idle : q.pc ≡ head → q.tasks ≡ [] → q.sync_flag ≡ true

is_empty-eq : (xs : List ℕ) → is_empty xs ≡ true → xs ≡ []
is_empty-eq [] h = refl
is_empty-eq (x ∷ xs) h = cc

append-eq-nil : (xs : List ℕ) (x : ℕ) → ¬ (xs ++ x ∷ [] ≡ [])
append-eq-nil [] x e = cc
append-eq-nil (y ∷ ys) x e = cc

Work-Inv : {q r : Queue} → Work q r → Inv q → Inv r
Work-Inv {q} (leave a b c e) inv = record {
  in_order = inv.in_order ∙ ap (λ p. q.done ++ (in_flight p ++ q.tasks)) a;
  synced = λ _. (e, λ x. x);
  left = λ _. (e, refl);
  held = λ _. refl;
  idle = λ h. cc;
}
Work-Inv {q} (pop {t} {rest} a b c) inv = record {
  in_order =
      inv.in_order ∙ ap (λ p. q.done ++ (in_flight p ++ q.tasks)) a ∙ ap (λ ts. q.done ++ ts) c;
  synced = λ e. absurd (let e' = (inv.synced e).0 in cc);
  left = λ e. cc;
  held = λ e. cc;
  idle = λ h. cc;
}
Work-Inv {q} (run {t} a) inv = record {
  in_order =
      inv.in_order
      ∙ ap (λ p. q.done ++ (in_flight p ++ q.tasks)) a
      ∙ sym (append_assoc q.done (t ∷ []) q.tasks);
  synced = λ e. absurd ((inv.synced e).1 (subst IsBusy (sym a) tt));
  left = λ e. cc;
  held = λ e. absurd (let e' = inv.held e in cc);
  idle = λ h. cc;
}
Work-Inv {q} (settle a b) inv = record {
  in_order = inv.in_order ∙ ap (λ p. q.done ++ (in_flight p ++ q.tasks)) a;
  synced = settled;
  left = λ e. cc;
  held = λ e. absurd (let e' = inv.held e in cc);
  idle = λ _ e. ap (λ ts. elim (is_empty ts) [ true ↦ true | false ↦ q.sync_flag ]) e;
}
  where
    busy : ¬ (q.sync_flag ≡ true)
    busy e = (inv.synced e).1 (subst IsBusy (sym a) tt)

    settled : settle_flag q ≡ true → (q.tasks ≡ []) × ¬ IsBusy head
    settled e = elim (Bool-cases (is_empty q.tasks)) [
      | inl i ↦ (is_empty-eq q.tasks i, λ x. x)
      | inr i ↦ absurd (busy (sym (ap (λ b. elim b [ true ↦ true | false ↦ q.sync_flag ]) i) ∙ e))
    ]

Client-Inv : {q r : Queue} → Client q r → Inv q → Inv r
Client-Inv {q} (enqueue t l) inv = record {
  in_order =
      ap (λ ts. ts ++ t ∷ []) inv.in_order
      ∙ append_assoc q.done (in_flight q.pc ++ q.tasks) (t ∷ [])
      ∙ ap (λ ts. q.done ++ ts) (append_assoc (in_flight q.pc) q.tasks (t ∷ []));
  synced = λ e. cc;
  left = λ e. absurd (let e' = (inv.left e).1 in cc);
  held = inv.held;
  idle = λ _ e. absurd (append-eq-nil q.tasks t e);
}
Client-Inv {q} (destroy l) inv = record {
  in_order = inv.in_order;
  synced = inv.synced;
  left = inv.left;
  held = inv.held;
  idle = inv.idle;
}

pub Reach-Inv : {q : Queue} → Reach q → Inv q
Reach-Inv start = record {
  in_order = refl;
  synced = λ _. (refl, λ x. x);
  left = λ e. cc;
  held = λ e. cc;
  idle = λ _ _. refl;
}
Reach-Inv (by_worker r w) = Work-Inv w (Reach-Inv r)
Reach-Inv (by_client r c) = Client-Inv c (Reach-Inv r)

idle-done : {q : Queue} → Inv q → in_flight q.pc ≡ [] → q.tasks ≡ [] → q.done ≡ q.enqueued
idle-done {q} inv a b =
    sym (append-nil q.done)
    ∙ sym (inv.in_order ∙ ap (λ xs. q.done ++ (xs ++ q.tasks)) a ∙ ap (λ xs. q.done ++ xs) b)

not_busy : (p : Pc) → ¬ IsBusy p → in_flight p ≡ []
not_busy head h = refl
not_busy (holding t) h = absurd (h tt)
not_busy ran h = refl
not_busy exited h = refl

-- In every reachable state the tasks run are the first of the tasks enqueued, in the order of the
-- `enqueue` calls; and when `sync_flag` is set, so that `sync` returns, all of them have run.
pub sync_waits_for_all :
    {q : Queue}
    → Reach q
    → ((rest : List ℕ) × (q.enqueued ≡ q.done ++ rest)) × (q.sync_flag ≡ true → q.done ≡ q.enqueued)
sync_waits_for_all {q} r =
    let inv = Reach-Inv r in
    (
      (in_flight q.pc ++ q.tasks, inv.in_order),
      λ e. idle-done inv (not_busy q.pc (inv.synced e).1) (inv.synced e).0,
    )

-- When the worker of a reachable state has left its loop, every task enqueued has run, and the
-- mutex is locked for good: neither the worker nor a client can take a step, so an `enqueue` or
-- a second lock waits for ever.
pub exit_leaves_mutex_locked :
    {q : Queue}
    → Reach q
    → q.pc ≡ exited
    → (q.done ≡ q.enqueued)
      × (q.locked ≡ true)
      × ((u : Queue) → ¬ Client q u)
      × ((u : Queue) → ¬ Work q u)
exit_leaves_mutex_locked {q} r e =
    let inv = Reach-Inv r in
    (
      idle-done inv (ap in_flight e) (inv.left e).0,
      (inv.left e).1,
      (λ u c. no_client c (inv.left e).1),
      λ u w. no_work w e,
    )
  where
    no_client : {u : Queue} → Client q u → q.locked ≡ true → ⊥
    no_client (enqueue t l) h = cc
    no_client (destroy l) h = cc

    no_work : {u : Queue} → Work q u → q.pc ≡ exited → ⊥
    no_work (leave a b c d) h = cc
    no_work (pop a b c) h = cc
    no_work (run a) h = cc
    no_work (settle a b) h = cc
