-- ===== src/Backend/Exactly.antt =====
-- When do_k_work_stealing_job returns, every task of the job has run once, on its node.
use xiaotu_moe.Base.{
  sym, ap, ◌∙◌, subst, arith, ℕ, ◌*◌, ◌/◌, ◌%◌, ◌≤◌, ◌≡◌, dec_lt, List, [], ◌∷◌, All, All-map,
  All-both, Option, none, some, count, total, total-congr, total-eq-zero, min, ltb, if◌then◌else◌,
  length, false,
}
use xiaotu_moe.Layers.Blocks.{OfNode}
use xiaotu_moe.Backend.Split.{holds}
use xiaotu_moe.Backend.Nodes.{Share, Chain, do_k_work_stealing_job, do_k_work_stealing_job-Chain}
use xiaotu_moe.Backend.Homes.{Shares, AtHome, do_k_work_stealing_job-AtHome, Chain-le}
use xiaotu_moe.Backend.Workers.{Crew, Job, Run, Rests, calling, Returned}
use xiaotu_moe.Backend.Claims.{Good, Inv, Fits, pending, tasks, flying}
use xiaotu_moe.Backend.Steps.{run-Inv}
use xiaotu_moe.Backend.Crews.{Mans, do_k_work_stealing_job-Distinct}

-- The shares of a chain hold each task between its ends once.
Chain-pending : (t a b : ℕ) (xs : List Share) → Chain a xs b → pending t xs ≡ holds t a b
Chain-pending t a b [] e = ground arith
Chain-pending t a b (x ∷ xs) (e, le, h) =
    let rest = Chain-pending t x.past b xs h in
    let up = Chain-le x.past b xs h in ground (arith, rest, up)

Chain-ordered : (a b : ℕ) (xs : List Share) → Chain a xs b → All (λ x. x.first ≤ x.past) xs
Chain-ordered a b [] e = tt
Chain-ordered a b (x ∷ xs) (e, le, h) = (le, Chain-ordered x.past b xs h)

abbrev ChainOf : ℕ → Option (List Share) → Type 0
ChainOf b none = Unit
ChainOf b (some xs) = Chain 0 xs b

module _ (c : Crew) (k nth : ℕ) (nodes : List (List ℕ)) (shares : List Share)
    (some_node : 1 ≤ length nodes) (manned : All (λ tids. 1 ≤ length tids) nodes)
    (mans : Mans c nodes) (split : do_k_work_stealing_job k nth nodes ≡ some shares) where
  abbrev pub Home : (node t : ℕ) → Type 0
  Home = OfNode k (length nodes) nth

  shares-Chain : Chain 0 shares (nth * k)
  shares-Chain =
      let (xs, e, h) = do_k_work_stealing_job-Chain k nth nodes some_node manned in
      subst (ChainOf (nth * k)) split (subst (ChainOf (nth * k)) (sym e) h)

  share-Fits :
      (x : Share)
      → (x.first ≤ x.past) × AtHome (nth / length nodes) (nth % length nodes) k nodes x
      → Fits c (nth * k) Home x
  share-Fits x (o, a) =
      let (lt, n) = mans.of_node a.nid x.tid a.of_node in
      record {
        tid_lt = lt;
        ordered = o;
        at_home = λ t lo hi.
            subst (λ y. Home y t) (sym n)
              (record {
                nid_lt = a.nid_lt;
                from = omega (arith, a.from);
                below = omega (arith, a.upto);
              });
      }

  shares-Fits : All (Fits c (nth * k) Home) shares
  shares-Fits = All-map _ _ shares share-Fits (
      All-both _ _ shares (Chain-ordered 0 (nth * k) shares shares-Chain) (
        subst (Shares (AtHome (nth / length nodes) (nth % length nodes) k nodes)) split
          (do_k_work_stealing_job-AtHome k nth nodes manned)))

  calling-Inv : (s : Job) → Rests s → Inv c (nth * k) Home (calling shares s)
  calling-Inv s r = record {
    from = s.curr;
    ahead = λ i. omega arith;
    tally = λ t. omega (
      arith,
      total-eq-zero (flying t) c.max_threads s.pc (λ i lt. ap (flying t) (r.all_idle i)),
      total-eq-zero (λ i. holds t (s.curr i) (min (s.curr i) (s.end i))) c.max_threads (λ i. i)
          (λ i lt. below t (s.curr i) (s.curr i) (s.end i) (r.spent i)),
    );
    shared = λ t. omega (
      arith,
      total-eq-zero (λ i. holds t (s.curr i) (s.end i)) c.max_threads (λ i. i)
          (λ i lt. nothing t (s.curr i) (s.end i) (r.spent i)),
      Chain-pending t 0 (nth * k) shares shares-Chain,
    );
    awaits =
        All-map _ _ shares
          (λ x f. record {
            fits = f;
            nothing_left = r.spent x.tid;
            not_working = r.none_working x.tid;
          })
          shares-Fits;
    distinct = do_k_work_stealing_job-Distinct k nth nodes shares mans.unique split;
    quiet = λ j w. (r.all_idle j, r.spent j);
    thief = λ j q. r.spent j;
    outside = λ j lj. r.none_working j;
    home = λ i t a b. absurd (omega (arith, r.spent i));
    good = λ j. subst (λ p. Good c (nth * k) Home j p) (sym (r.all_idle j)) tt;
    logged = tt;
    after_wait = λ i lt. absurd (omega arith);
  }
    where
      nothing : (t a b : ℕ) → b ≤ a → holds t a b ≡ 0
      nothing t a b l = ground arith

      below : (t a b d : ℕ) → d ≤ a → holds t a (min b d) ≡ 0
      below t a b d l = ground arith

  module _ (s s' : Job) (r : Rests s) (run : Run c (calling shares s) s')
      (ret : Returned c s') where
    inv : Inv c (nth * k) Home s'
    inv = run-Inv c (nth * k) Home (calling shares s) s' (calling-Inv s r) run

    pub returned-Rests : Rests s'
    returned-Rests = record {
      all_idle = λ j. (inv.quiet j (off j)).0;
      none_working = off;
      spent = λ j. (inv.quiet j (off j)).1;
    }
      where
        off : (j : ℕ) → s'.working j ≡ false
        off j = elim (dec_lt j c.max_threads) [
          | yes l ↦ (inv.after_wait j (omega (arith, l, ret.1))).1
          | no n ↦ inv.outside j (omega arith)
        ]

    pub returned-count : (t : ℕ) → count t (tasks s'.calls) ≡ (if ltb t (nth * k) then 1 else 0)
    returned-count t =
        let landed : total (flying t) c.max_threads s'.pc ≡ 0 =
          total-eq-zero (flying t) c.max_threads s'.pc
            (λ i lt. ap (flying t) (returned-Rests.all_idle i)) in
        let full : total (λ i. holds t (inv.from i) (min (s'.curr i) (s'.end i))) c.max_threads
              (λ i. i)
            ≡ total (λ i. holds t (inv.from i) (s'.end i)) c.max_threads (λ i. i) =
          total-congr _ _ c.max_threads (λ i. i)
            (λ i lt.
              ap (holds t (inv.from i)) (capped (s'.curr i) (s'.end i) (returned-Rests.spent i))) in
        let none_left : pending t s'.todo ≡ 0 = ap (pending t) ret.0 in
        omega (arith, inv.tally t, landed, full, none_left, inv.shared t) ∙ whole t (nth * k)
      where
        capped : (a b : ℕ) → b ≤ a → min a b ≡ b
        capped a b l = omega arith

        whole : (u m : ℕ) → holds u 0 m ≡ (if ltb u m then 1 else 0)
        whole u m = ground arith

    -- Where node_threads_ has a thread for every node and agrees with threads_info_: when
    -- do_k_work_stealing_job returns, after any interleaving of its steps with those of the
    -- workers, which take tasks from their own counter and from those of their node, each of the k
    -- tasks of each of the nth items has been computed exactly once and no other task at all, each
    -- on a thread of the node that has the task's item; and no worker is at work or has anything
    -- left, so that the next job may start.
    pub do_k_work_stealing_job_exactly_once :
        ((t : ℕ) → count t (tasks s'.calls) ≡ (if ltb t (nth * k) then 1 else 0))
        × All (λ x. OfNode k (length nodes) nth (c.node_of x.thread) x.task_id) s'.calls
        × Rests s'
    do_k_work_stealing_job_exactly_once = (returned-count, inv.logged, returned-Rests)
