-- ===== src/MoeV2/SlicedPhase.antt =====
-- A phase of forward_many_nsliced writes every row of every active expert's instances, each from a
-- block that holds it.
use native.Mathlib.Nat.{mod-lt}
use xiaotu_moe.Base.{
  sym, ap, ◌∙◌, subst, arith, ℕ, ◌+◌, ◌*◌, ◌/◌, ◌%◌, ◌≤◌, ◌<◌, ◌≡◌, leb, if-both, length, run_all,
  run_all-writes, row-lt, row-mod, List, row-div, count,
}
use xiaotu_moe.MoeV2.Forward.{Floats, Weights, Call, Schedule}
use xiaotu_moe.MoeV2.Spans.{Span, chunk_span, shard_span}
use xiaotu_moe.MoeV2.Partition.{Holds, shard_span-cover, chunk_span-cover, sub_span-bounds}
use xiaotu_moe.MoeV2.Sliced.{Config, Slices, Sites, active_list, phase}

-- The blocks hold what the jobs read: a node's shard the rows that the node owns, a worker's
-- replica every row. `Owns b i` says that block b holds row i.
pub record Held {Block : Type 0} (cfg : Config) (Owns : Block → ℕ → Type 0) (dim : ℕ)
    (sites : Sites Block) : Type 0 where
  pub by_node :
      2 ≤ cfg.nshard → (n i : ℕ) → Holds i (chunk_span dim cfg.nshard n) → Owns (sites.shard n) i
  pub by_worker : cfg.nshard < 2 → (ji i : ℕ) → i < dim → Owns (sites.for_worker ji) i

module _ (fl : Floats) (w : Weights fl) (nel : ℕ) (cfg : Config) (sl : Slices fl) (q : Call fl)
    (old : ℕ → List ℕ) (sch : Schedule) {S : Type 0} (Owns : sl.Block → ℕ → Type 0)
    (job : sl.Block → ℕ → Span → S → S) where
  abbrev na : ℕ
  na = length (active_list fl w nel cfg sl q old)

  -- One cell: row i of the j-th active expert. A job on a span with row i and a block that holds it
  -- writes v to the cell if it is the expert's, and no job changes v to something else.
  module _ {A : Type 0} (cell : S → A) (v : A) (j i : ℕ)
      (keeps : (b : sl.Block) (k : ℕ) (p : Span) (s : S)
        → (Holds i p → Owns b i)
        → cell s ≡ v
        → cell (job b k p s) ≡ v)
      (writes : (b : sl.Block) (p : Span) (s : S)
        → Holds i p
        → Owns b i
        → cell (job b j p s) ≡ v) where
    jobs-write :
        (block : ℕ → sl.Block) (index : ℕ → ℕ) (span : ℕ → Span) (order : List ℕ) (s : S)
        → (x : ℕ) → index x ≡ j
        → ((y : ℕ) → Holds i (span y) → Owns (block y) i)
        → Holds i (span x)
        → 1 ≤ count x order
        → cell (run_all (λ y. job (block y) (index y) (span y)) order s) ≡ v
    jobs-write block index span order s x e owned h c =
        run_all-writes cell v (λ y. job (block y) (index y) (span y))
          (λ y u. keeps (block y) (index y) (span y) u (owned y)) x
          (λ u.
            subst (λ k. cell (job (block x) k (span x) u) ≡ v) (sym e)
              (writes (block x) (span x) u h (owned x h)))
          order s c

    -- After the phase the cell holds its value.
    pub phase-writes :
        (c dim nc sub : ℕ) (sites : Sites sl.Block) (s : S)
        → 1 ≤ nc
        → 1 ≤ sub
        → j < na
        → i < dim
        → Held cfg Owns dim sites
        → cell (phase fl w nel cfg sl q old sch c dim nc sub sites job s) ≡ v
    phase-writes c dim nc sub sites s a b lt il held =
        if-both (λ (u : S). cell u ≡ v) (leb 2 cfg.nshard) _ _
          (λ t.
            let (n, nb, r, rb, holds) = shard_span-cover dim cfg.nshard sub i (ground arith) b il in
            let inner = row-lt na sub j r lt rb in
            let rest = row-mod (na * sub) n (j * sub + r) inner in
            let node = row-div (na * sub) n (j * sub + r) inner in
            jobs-write (λ x. sites.shard (x / (na * sub))) (λ x. x % (na * sub) / sub)
              (λ x. shard_span dim cfg.nshard sub (x / (na * sub)) (x % (na * sub) % sub))
              (sch.order c (cfg.nshard * (na * sub))) s (n * (na * sub) + (j * sub + r))
              (ap (λ y. y / sub) rest ∙ row-div sub j r rb)
              (λ x h.
                held.by_node (ground arith) (x / (na * sub)) i
                  (sub_span-bounds (chunk_span dim cfg.nshard (x / (na * sub))) sub i
                    (x % (na * sub) % sub) (mod-lt (x % (na * sub)) b) h).0)
              (subst
                (λ y. Holds i (
                  shard_span dim cfg.nshard sub y
                    ((n * (na * sub) + (j * sub + r)) % (na * sub) % sub)))
                (sym node)
                (subst (λ y. Holds i (shard_span dim cfg.nshard sub n y))
                  (sym (ap (λ y. y % sub) rest ∙ row-mod sub j r rb)) holds))
              (omega (
                arith,
                (sch.order-Once c (cfg.nshard * (na * sub))).once (n * (na * sub) + (j * sub + r))
                    (row-lt cfg.nshard (na * sub) n (j * sub + r) nb inner),
              )))
          (λ f.
            let (k, kb, holds) = chunk_span-cover dim nc i a il in
            jobs-write sites.for_worker (λ ji. ji / nc) (λ ji. chunk_span dim nc (ji % nc))
              (sch.order c (na * nc)) s (j * nc + k) (row-div nc j k kb)
              (λ ji _. held.by_worker (ground arith) ji i il)
              (subst (λ y. Holds i (chunk_span dim nc y)) (sym (row-mod nc j k kb)) holds)
              (omega
                (arith, (sch.order-Once c (na * nc)).once (j * nc + k) (row-lt na nc j k lt kb))))
