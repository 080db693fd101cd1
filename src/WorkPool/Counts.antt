-- ===== src/WorkPool/Counts.antt =====
-- A worker's step keeps the count of tickets: each is with one worker or has run.
use xiaotu_moe.Base.{
  ℕ, ◌+◌, ◌≤◌, ◌<◌, ◌≡◌, refl, arith, ◌∷◌, true, false, total, update, total-update, total-ge,
  inc64, dec64, sub64, sub64_of_le, ◌∙◌, subst,
}
use xiaotu_moe.WorkPool.State.{
  flat_run, Pool, Snapshot, Pc, idle, pulling, drawn, stale, running, ran, Caller, outside, opening,
  bumped, started, waiting, stopped,
}
use xiaotu_moe.WorkPool.Worker.{
  Work, exit, anchor, draw, run, exhausted, advanced, reanchor_stop, reanchor_run, reanchor_drop,
  execute, finish, anchor_sharded,
}
use xiaotu_moe.WorkPool.Caller.{Fits}
use xiaotu_moe.WorkPool.Invariant.{holds, pending, Good, Known, Checked, Live, Shared, Alive}

-- The two places hold the same tickets of the call.
abbrev Same : Pool → Caller → Pc → Pc → Type 0
Same s (started f k) p p' =
    (holds s.start s.n p' ≡ holds s.start s.n p)
    × ((j : ℕ) → j < s.n → pending (s.start + j) p' ≡ pending (s.start + j) p)
Same s (waiting f k) p p' =
    (holds s.start s.n p' ≡ holds s.start s.n p)
    × ((j : ℕ) → j < s.n → pending (s.start + j) p' ≡ pending (s.start + j) p)
Same s c p p' = Unit

module _ (nt : ℕ) (s : Pool) (fits : Fits s) (pc : ℕ → Pc) (i : ℕ) (lt : i < nt) where
  -- Only the mover's weight changes.
  moved :
      (w : Pc → ℕ) (p p' : Pc) → pc i ≡ p → total w nt (update pc i p') + w p ≡ total w nt pc + w p'
  moved w p p' e = rw (← e) (total-update w nt pc i p' lt)

  unmoved : (w : Pc → ℕ) (p' : Pc) → w p' ≡ w (pc i) → total w nt (update pc i p') ≡ total w nt pc
  unmoved w p' e = omega (arith, moved w (pc i) p' refl)

  Shared-Same :
      (c : Caller) (p' : Pc)
      → Same s c (pc i) p'
      → Shared nt s c pc
      → Shared nt s c (update pc i p')
  Shared-Same outside p' e sh = sh
  Shared-Same stopped p' e sh = sh
  Shared-Same (opening f k) p' e sh = sh
  Shared-Same (bumped f k) p' e sh = sh
  Shared-Same (started f k) p' e sh = (
    sh.0,
    sh.1,
    sh.2,
    sh.3,
    sh.4,
    unmoved (holds s.start s.n) p' e.0 ∙ sh.5,
    λ j h. omega (arith, unmoved (pending (s.start + j)) p' (e.1 j h), sh.6 j h),
  )
  Shared-Same (waiting f k) p' e sh = (
    sh.0,
    sh.1,
    sh.2,
    sh.3,
    sh.4,
    omega (arith, unmoved (holds s.start s.n) p' e.0, sh.5),
    λ j h. omega (arith, unmoved (pending (s.start + j)) p' (e.1 j h), sh.6 j h),
    sh.7,
  )
  Shared-Same c p' e sh = elim sh [ ]

  Shared-draw :
      (c : Caller) (sn : Snapshot)
      → pc i ≡ pulling sn
      → Shared nt s c pc
      → Shared nt (record s { counter = s.counter + 1 }) c (update pc i (drawn sn s.counter))
  Shared-draw (started f k) sn e sh = (
    sh.0,
    sh.1,
    sh.2,
    sh.3,
    omega arith,
    ground (arith, moved (holds s.start s.n) (pulling sn) (drawn sn s.counter) e, sh.5),
    λ j h.
        ground (arith, moved (pending (s.start + j)) (pulling sn) (drawn sn s.counter) e, sh.6 j h),
  )
  Shared-draw (waiting f k) sn e sh = (
    sh.0,
    sh.1,
    sh.2,
    omega arith,
    sh.4,
    ground (arith, moved (holds s.start s.n) (pulling sn) (drawn sn s.counter) e, sh.5),
    λ j h.
        ground (arith, moved (pending (s.start + j)) (pulling sn) (drawn sn s.counter) e, sh.6 j h),
    sh.7,
  )
  Shared-draw c sn e sh = ground arith

  Shared-execute :
      (c : Caller) (sn : Snapshot) (t : ℕ)
      → pc i ≡ running sn t
      → Live s c sn t
      → Shared nt s c pc
      → Shared nt
          (record s { log = flat_run sn.task (sub64 t sn.start) ∷ s.log })
          c
          (update pc i (ran sn t))
  Shared-execute (waiting f k) sn t e live sh = (
    sh.0,
    sh.1,
    sh.2,
    sh.3,
    sh.4,
    ground (arith, moved (holds s.start s.n) (running sn t) (ran sn t) e, sh.5),
    λ j h. ground (
      arith,
      moved (pending (s.start + j)) (running sn t) (ran sn t) e,
      sh.6 j h,
      sub64_of_le t s.start,
    ),
    ground (arith, sub64_of_le t s.start),
  )
  Shared-execute c sn t e live sh = elim live [ ]

  Shared-finish :
      (c : Caller) (sn : Snapshot) (t : ℕ)
      → pc i ≡ ran sn t
      → Live s c sn t
      → Shared nt s c pc
      → Shared nt (record s { remaining = dec64 s.remaining }) c (update pc i (pulling sn))
  Shared-finish (waiting f k) sn t e live sh = (
    sh.0,
    sh.1,
    sh.2,
    sh.3,
    omega (arith, outstanding),
    ground (arith, moved (holds s.start s.n) (ran sn t) (pulling sn) e, sh.5, outstanding, live),
    λ j h. ground (arith, moved (pending (s.start + j)) (ran sn t) (pulling sn) e, sh.6 j h),
    sh.7,
  )
    where
      mine : holds s.start s.n (ran sn t) ≤ total (holds s.start s.n) nt pc
      mine =
          subst (λ p. holds s.start s.n p ≤ total (holds s.start s.n) nt pc) e
            (total-ge (holds s.start s.n) nt pc i lt)

      outstanding : 1 ≤ s.remaining
      outstanding = ground (arith, mine, sh.5, live)
  Shared-finish c sn t e live sh = elim live [ ]

  -- Outside the range of the call a dropped ticket has no weight.
  Same-drop :
      (c : Caller) (sn : Snapshot) (t last : ℕ)
      → pc i ≡ drawn sn t
      → s.gen ≡ sn.gen
      → sn.n ≤ sub64 t sn.start
      → Known s c sn × Checked s c sn t
      → Shared nt s c pc
      → Same s c (pc i) (idle last)
  Same-drop (started f k) sn t last e g le known sh = absurd (omega arith)
  Same-drop (waiting f k) sn t last e g le known sh =
      rw e (ground (arith, sub64_of_le t s.start), λ j h. ground (arith, sub64_of_le t s.start))
  Same-drop c sn t last e g le known sh = tt

  Same-reanchor_drop :
      (c : Caller) (sn : Snapshot) (t last : ℕ)
      → pc i ≡ stale sn t
      → s.locked ≡ false
      → s.n ≤ sub64 t s.start
      → Checked s c sn t
      → Shared nt s c pc
      → Same s c (pc i) (idle last)
  Same-reanchor_drop (started f k) sn t last e l le known sh = absurd (cc)
  Same-reanchor_drop (waiting f k) sn t last e l le known sh =
      rw e (ground (arith, sub64_of_le t s.start), λ j h. ground (arith, sub64_of_le t s.start))
  Same-reanchor_drop c sn t last e l le known sh = tt

  -- Places with equal weights, whatever the call.
  Same-places :
      (c : Caller) (p p' : Pc)
      → pc i ≡ p
      → ((a b : ℕ) → holds a b p' ≡ holds a b p)
      → ((u : ℕ) → pending u p' ≡ pending u p)
      → Same s c (pc i) p'
  Same-places (started f k) p p' e h g = rw e (h s.start s.n, λ j _. g (s.start + j))
  Same-places (waiting f k) p p' e h g = rw e (h s.start s.n, λ j _. g (s.start + j))
  Same-places c p p' e h g = tt

  -- A worker leaves only when no call is open.
  Same-stop :
      (c : Caller) (p' : Pc)
      → s.locked ≡ false
      → s.stop ≡ true
      → Alive s c
      → Shared nt s c pc
      → Same s c (pc i) p'
  Same-stop (started f k) p' l st alive sh = absurd (cc)
  Same-stop (waiting f k) p' l st alive sh = absurd (cc)
  Same-stop c p' l st alive sh = tt

  pub Shared-Work :
      {node : ℕ} {p p' : Pc} {q : Pool} (c : Caller)
      → s.sharded_call ≡ 0
      → Alive s c
      → Work node s p q p'
      → pc i ≡ p
      → Good s c p
      → Shared nt s c pc
      → Shared nt q c (update pc i p')
  Shared-Work c flat alive (draw {sn}) e g sh = rw counted (Shared-draw c sn e sh)
    where
      counted : inc64 s.counter ≡ s.counter + 1
      counted = omega arith
  Shared-Work c flat alive (execute {sn} {t}) e g sh = Shared-execute c sn t e g sh
  Shared-Work c flat alive (finish {sn} {t}) e g sh = Shared-finish c sn t e g sh
  Shared-Work c flat alive (exhausted {sn} {t} eq le) e g sh =
      Shared-Same c _ (Same-drop c sn t _ e eq le g sh) sh
  Shared-Work c flat alive (reanchor_drop {sn} {t} l st le) e g sh =
      Shared-Same c _ (Same-reanchor_drop c sn t _ e l le g.1 sh) sh
  Shared-Work c flat alive (exit l st) e g sh =
      Shared-Same c _ (Same-places c _ _ e (λ a b. refl) (λ u. refl)) sh
  Shared-Work c flat alive (anchor l ne z) e g sh =
      Shared-Same c _ (Same-places c _ _ e (λ a b. refl) (λ u. refl)) sh
  Shared-Work c flat alive (run eq lt') e g sh =
      Shared-Same c _ (Same-places c _ _ e (λ a b. refl) (λ u. refl)) sh
  Shared-Work c flat alive (advanced ne) e g sh =
      Shared-Same c _ (Same-places c _ _ e (λ a b. refl) (λ u. refl)) sh
  Shared-Work c flat alive (reanchor_stop l st) e g sh =
      Shared-Same c _ (Same-stop c _ l st alive sh) sh
  Shared-Work c flat alive (reanchor_run l st lt') e g sh =
      Shared-Same c _ (Same-places c _ _ e (λ a b. refl) (λ u. refl)) sh
  Shared-Work c flat alive (anchor_sharded l ne pos) e g sh = absurd (omega arith)
  Shared-Work c flat alive w e g sh = elim g [ ]
