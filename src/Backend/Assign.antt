-- ===== src/Backend/Assign.antt =====
-- The caller's writing of a share keeps the invariant.
use xiaotu_moe.Base.{
  sym, ap, ◌∙◌, subst, arith, ℕ, ◌+◌, ◌≤◌, ◌<◌, ◌≡◌, ℕ_discrete, ◌≢◌, false, List, [], ◌∷◌, All,
  min, total, update, update-same, update-other, leb, ltb, if◌then◌else◌,
}
use xiaotu_moe.Backend.Split.{holds}
use xiaotu_moe.Backend.Stealing.{total-change}
use xiaotu_moe.Backend.Nodes.{Share}
use xiaotu_moe.Backend.Workers.{Crew, idle, Job, assign}
use xiaotu_moe.Backend.Claims.{Distinct, Inv, Awaits, Thief, pending, tallied}

module _ (c : Crew) (n_tasks : ℕ) (Home : (node t : ℕ) → Type 0) where
  module _ (s : Job) (x : Share) (rest : List Share) (h : Inv c n_tasks Home s)
      (e : s.todo ≡ x ∷ rest) where
    abbrev lo : ℕ
    lo = if leb x.past x.first then 0 else x.first

    abbrev hi : ℕ
    hi = if leb x.past x.first then 0 else x.past

    here : Awaits c n_tasks Home h.from s.end s.working x
    here = (subst (All (Awaits c n_tasks Home h.from s.end s.working)) e h.awaits).0

    later : All (Awaits c n_tasks Home h.from s.end s.working) rest
    later = (subst (All (Awaits c n_tasks Home h.from s.end s.working)) e h.awaits).1

    apart : All (λ y. x.tid ≢ y.tid) rest
    apart = (subst Distinct e h.distinct).0

    -- The cells of the thread are replaced, those of the others stay.
    replaced :
        {A : Type 0} (f : ℕ → A) (v : A) (Q : ℕ → A → Type 0)
        → Q x.tid v
        → ((k : ℕ) → x.tid ≢ k → Q k (f k))
        → (k : ℕ) → Q k (update f x.tid v k)
    replaced f v Q a b k = elim (ℕ_discrete x.tid k) [
      | yes y ↦
          subst (λ z. Q z (update f x.tid v z)) y (subst (Q x.tid) (sym (update-same f x.tid v)) a)
      | no d ↦ subst (Q k) (sym (update-other f x.tid k v d)) (b k d)
    ]

    no_task : (t a b d : ℕ) → d ≤ a → holds t a (min b d) ≡ 0
    no_task t a b d l = ground arith

    none_in : (t a d : ℕ) → d ≤ a → holds t a d ≡ 0
    none_in t a d l = ground arith

    in_share : (t : ℕ) → holds t lo hi ≡ holds t x.first x.past
    in_share t = ground arith

    assign-tally :
        (t : ℕ)
        → total
            (tallied c n_tasks Home t
              (update h.from x.tid lo)
              (update s.curr x.tid lo)
              (update s.end x.tid hi))
            c.max_threads
            (λ i. i)
          ≡ total (tallied c n_tasks Home t h.from s.curr s.end) c.max_threads (λ i. i)
    assign-tally t =
        let now : holds t (update h.from x.tid lo x.tid)
              (min (update s.curr x.tid lo x.tid) (update s.end x.tid hi x.tid))
            ≡ 0 =
          ap (λ a. holds t a (min (update s.curr x.tid lo x.tid) (update s.end x.tid hi x.tid)))
            (update-same h.from x.tid lo)
          ∙ ap (λ a. holds t lo (min a (update s.end x.tid hi x.tid))) (update-same s.curr x.tid lo)
          ∙ ground arith in
        omega (
          arith,
          now,
          no_task t (h.from x.tid) (s.curr x.tid) (s.end x.tid) here.nothing_left,
          total-change
              (tallied c n_tasks Home t (update h.from x.tid lo) (update s.curr x.tid lo)
                (update s.end x.tid hi))
              (tallied c n_tasks Home t h.from s.curr s.end) c.max_threads x.tid
              (λ k d.
                ap (λ a. holds t a (min (update s.curr x.tid lo k) (update s.end x.tid hi k)))
                  (update-other h.from x.tid k lo d)
                ∙ ap (λ a. holds t (h.from k) (min a (update s.end x.tid hi k)))
                    (update-other s.curr x.tid k lo d)
                ∙ ap (λ a. holds t (h.from k) (min (s.curr k) a)) (update-other s.end x.tid k hi d))
              here.fits.tid_lt,
        )

    assign-shared :
        (t : ℕ)
        → total
              (λ i. holds t (update h.from x.tid lo i) (update s.end x.tid hi i))
              c.max_threads
              (λ i. i)
            + pending t rest
          ≡ holds t 0 n_tasks
    assign-shared t =
        let now : holds t (update h.from x.tid lo x.tid) (update s.end x.tid hi x.tid)
            ≡ holds t x.first x.past =
          ap (λ a. holds t a (update s.end x.tid hi x.tid)) (update-same h.from x.tid lo)
          ∙ ap (holds t lo) (update-same s.end x.tid hi)
          ∙ in_share t in
        omega (
          arith,
          h.shared t,
          ap (pending t) e,
          now,
          none_in t (h.from x.tid) (s.end x.tid) here.nothing_left,
          total-change (λ i. holds t (update h.from x.tid lo i) (update s.end x.tid hi i))
              (λ i. holds t (h.from i) (s.end i)) c.max_threads x.tid
              (λ k d.
                ap (λ a. holds t a (update s.end x.tid hi k)) (update-other h.from x.tid k lo d)
                ∙ ap (holds t (h.from k)) (update-other s.end x.tid k hi d))
              here.fits.tid_lt,
        )

    abbrev at_rest : s.pc x.tid ≡ idle
    at_rest = (h.quiet x.tid here.not_working).0

    pub assign-Inv : Inv c n_tasks Home (assign x rest s)
    assign-Inv = record {
      from = update h.from x.tid lo;
      ahead = λ k. elim (ℕ_discrete x.tid k) [
        | yes y ↦
            subst (λ z. update h.from x.tid lo z ≤ update s.curr x.tid lo z) y
              (omega (arith, update-same h.from x.tid lo, update-same s.curr x.tid lo))
        | no d ↦
            omega
              (arith, h.ahead k, update-other h.from x.tid k lo d, update-other s.curr x.tid k lo d)
      ];
      tally = λ t. h.tally t ∙ sym (assign-tally t);
      shared = assign-shared;
      awaits = awaits_rest rest later apart;
      distinct = (subst Distinct e h.distinct).1;
      quiet = λ k w. elim (ℕ_discrete x.tid k) [
        | yes y ↦
            subst
              (λ z.
                update s.working x.tid (ltb x.first x.past) z ≡ false
                → (s.pc z ≡ idle) × (update s.end x.tid hi z ≤ update s.curr x.tid lo z))
              y (λ w'. (at_rest, low (sym (update-same s.working x.tid (ltb x.first x.past)) ∙ w')))
              w
        | no d ↦
            let (a, b) =
              h.quiet k (sym (update-other s.working x.tid k (ltb x.first x.past) d) ∙ w) in
            (a, omega (arith, b, update-other s.end x.tid k hi d, update-other s.curr x.tid k lo d))
      ];
      thief = λ k q. elim (ℕ_discrete x.tid k) [
        | yes y ↦ absurd (subst Thief at_rest (subst (λ z. Thief (s.pc z)) (sym y) q))
        | no d ↦
            omega (
              arith,
              h.thief k q,
              update-other s.end x.tid k hi d,
              update-other s.curr x.tid k lo d,
            )
      ];
      outside = λ k lk.
          update-other s.working x.tid k (ltb x.first x.past)
            (λ y. absurd (omega (arith, y, here.fits.tid_lt)))
          ∙ h.outside k lk;
      home = λ k t a b. elim (ℕ_discrete x.tid k) [
        | yes y ↦
            subst (λ z. Home (c.node_of z) t) y
              (inside t (subst (λ z. update h.from x.tid lo z ≤ t) (sym y) a)
                (subst (λ z. t < update s.end x.tid hi z) (sym y) b))
        | no d ↦
            h.home k t (omega (arith, a, update-other h.from x.tid k lo d))
              (omega (arith, b, update-other s.end x.tid k hi d))
      ];
      good = h.good;
      logged = h.logged;
      after_wait = λ i lt. absurd (nonempty ((sym (h.after_wait i lt).0) ∙ e));
    }
      where
        nonempty : ¬ (◌≡◌ {A = List Share} [] (x ∷ rest))
        nonempty y = cc (y)

        low :
            ltb x.first x.past ≡ false → update s.end x.tid hi x.tid ≤ update s.curr x.tid lo x.tid
        low w = ground (arith, w, update-same s.end x.tid hi, update-same s.curr x.tid lo)

        inside :
            (t : ℕ)
            → update h.from x.tid lo x.tid ≤ t
            → t < update s.end x.tid hi x.tid
            → Home (c.node_of x.tid) t
        inside t a b =
            here.fits.at_home t
              (ground (arith, a, b, update-same h.from x.tid lo, update-same s.end x.tid hi))
              (ground (arith, b, update-same s.end x.tid hi))

        awaits_rest :
            (ys : List Share)
            → All (Awaits c n_tasks Home h.from s.end s.working) ys
            → All (λ y. x.tid ≢ y.tid) ys
            → All
                (Awaits c n_tasks Home
                  (update h.from x.tid lo)
                  (update s.end x.tid hi)
                  (update s.working x.tid (ltb x.first x.past)))
                ys
        awaits_rest [] a d = tt
        awaits_rest (y ∷ ys) (a, as') (d, ds) = (
          record {
            fits = a.fits;
            nothing_left = omega (
              arith,
              a.nothing_left,
              update-other h.from x.tid y.tid lo d,
              update-other s.end x.tid y.tid hi d,
            );
            not_working = update-other s.working x.tid y.tid (ltb x.first x.past) d ∙ a.not_working;
          },
          awaits_rest ys as' ds,
        )
