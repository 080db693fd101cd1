-- ===== src/MoeV2/SlicedJobs.antt =====
-- What a job of forward_many_nsliced leaves in the rows of its expert, given what the slices of the
-- weight traits promise.
use xiaotu_moe.Base.{
  sym, ap, ◌∙◌, subst, arith, ℕ, ◌+◌, ◌≤◌, ◌<◌, ◌≡◌, ℕ_discrete, dec_lt, inl, inr, ◌&&◌, ◌⊎◌, leb,
  ltb, if-both, length, get_or, update, update-same, update-other, List, true, false,
}
use xiaotu_moe.MoeV2.Forward.{Floats, Weights, Call, silu_gate}
use xiaotu_moe.MoeV2.Spans.{Span}
use xiaotu_moe.MoeV2.Partition.{Holds}
use xiaotu_moe.MoeV2.Sliced.{
  Config, Slices, Bufs, active_list, instances, gathered, gate_up_job, fuse, down_job,
}

-- What the weight traits promise: a slice writes, for each of `me` instances and each row of its
-- range that the block holds, the row of the whole product of that instance, and a down slice
-- leaves the other rows of the instances as they were. A product with w2 reads the first `inter`
-- activations only.
pub record RowSlices (fl : Floats) (w : Weights fl) (cfg : Config) (sl : Slices fl) : Type 1 where
  pub OwnsGate : sl.Block → ℕ → Type 0
  pub OwnsDown : sl.Block → ℕ → Type 0
  pub gate_up_rows :
      (me : ℕ) (xg : ℕ → ℕ → fl.Half) (b : sl.Block) (both : ℕ → ℕ → fl.Float)
      → (eid n0 n1 m i : ℕ) → m < me
      → n0 ≤ i
      → i < n1
      → i < cfg.inter
      → OwnsGate b i
      → (sl.gate_up_slice_batched me xg b both eid n0 n1 m i ≡ w.gate (xg m) eid i)
        × (sl.gate_up_slice_batched me xg b both eid n0 n1 m (cfg.inter + i) ≡ w.up (xg m) eid i)
  pub down_rows :
      (me : ℕ) (actg : ℕ → ℕ → fl.Half) (b : sl.Block) (down : ℕ → ℕ → fl.Float)
      → (eid n0 n1 m h : ℕ) → m < me
      → n0 ≤ h
      → h < n1
      → h < cfg.hidden
      → OwnsDown b h
      → sl.down_slice_batched me actg b down eid n0 n1 m h ≡ w.down (actg m) eid h
  pub down_others :
      (me : ℕ) (actg : ℕ → ℕ → fl.Half) (b : sl.Block) (down : ℕ → ℕ → fl.Float)
      → (eid n0 n1 m h : ℕ) → m < me
      → h < cfg.hidden
      → ¬ ((n0 ≤ h) × (h < n1))
      → sl.down_slice_batched me actg b down eid n0 n1 m h ≡ down m h
  pub down_local :
      (a b : ℕ → fl.Half) (e h : ℕ)
      → ((i : ℕ) → i < cfg.inter → a i ≡ b i)
      → w.down a e h ≡ w.down b e h

module _ (fl : Floats) (w : Weights fl) (nel : ℕ) (cfg : Config) (sl : Slices fl) (q : Call fl)
    (old : ℕ → List ℕ) (rows : RowSlices fl w cfg sl) where
  abbrev pub size : ℕ → ℕ
  size e = length ((instances fl w nel cfg sl q old).list e)

  abbrev pub expert : ℕ → ℕ
  expert j = get_or (active_list fl w nel cfg sl q old) j 0

  abbrev pub act_half : ℕ → ℕ → ℕ → fl.Half
  act_half e m i =
      let x = gathered fl w nel cfg sl q old e m in
      fl.fp32_to_bf16 (silu_gate fl w nel (w.gate x e i) (w.up x e i))

  gate_up_job-own :
      (b : sl.Block) (k : ℕ) (p : Span) (s : Bufs fl) (m i : ℕ)
      → m < size (expert k)
      → i < cfg.inter
      → (Holds i p → rows.OwnsGate b i)
      → Holds i p ⊎ (s.abf16 (expert k) m i ≡ act_half (expert k) m i)
      → (gate_up_job fl w nel cfg sl q old b k p s).abf16 (expert k) m i ≡ act_half (expert k) m i
  gate_up_job-own b k p s m i ml il owns h =
      let e = expert k in
      let v = act_half e m i in
      let x = gathered fl w nel cfg sl q old e in
      let both = sl.gate_up_slice_batched (size e) x b (s.both e) e p.n0 p.n1 in
      let fused = fuse fl w nel cfg sl q old (size e) p both (s.abf16 e) in
      let after : Bufs fl = record s {
        both = update s.both e both;
        abf16 = update s.abf16 e fused;
      } in
      if-both (λ (u : Bufs fl). u.abf16 e m i ≡ v) (leb p.n1 p.n0) s after
        (λ t. elim h [ inl held ↦ absurd (empty t held) | inr z ↦ z ])
        (λ _.
          ap (λ (f : ℕ → ℕ → fl.Half). f m i) (update-same s.abf16 e fused)
          ∙ if-both (λ y. y ≡ v) (ltb m (size e) && (leb p.n0 i && ltb i p.n1)) _ (s.abf16 e m i)
              (λ t.
                let held : Holds i p = (ground arith, ground arith) in
                let (g, u) =
                  rows.gate_up_rows (size e) x b (s.both e) e p.n0 p.n1 m i ml held.0 held.1 il
                    (owns held) in
                ap (λ y. fl.fp32_to_bf16 (silu_gate fl w nel y (both m (cfg.inter + i)))) g
                ∙ ap (λ y. fl.fp32_to_bf16 (silu_gate fl w nel (w.gate (x m) e i) y)) u)
              (λ t. elim h [ inl held ↦ absurd (outside t held) | inr z ↦ z ]))
    where
      empty : leb p.n1 p.n0 ≡ true → ¬ Holds i p
      empty t (lo, hi) = ground arith

      outside : (ltb m (size (expert k)) && (leb p.n0 i && ltb i p.n1)) ≡ false → ¬ Holds i p
      outside t (lo, hi) = ground arith

  pub gate_up_job-keeps :
      (b : sl.Block) (j k : ℕ) (p : Span) (s : Bufs fl) (m i : ℕ)
      → m < size (expert j)
      → i < cfg.inter
      → (Holds i p → rows.OwnsGate b i)
      → s.abf16 (expert j) m i ≡ act_half (expert j) m i
      → (gate_up_job fl w nel cfg sl q old b k p s).abf16 (expert j) m i ≡ act_half (expert j) m i
  gate_up_job-keeps b j k p s m i ml il owns z =
      let after = gate_up_job fl w nel cfg sl q old b k p s in
      elim (ℕ_discrete (expert k) (expert j)) [
        | yes e ↦
            subst (λ x. after.abf16 x m i ≡ act_half x m i) e
              (gate_up_job-own b k p s m i (subst (λ x. m < size x) (sym e) ml) il owns
                (inr (subst (λ x. s.abf16 x m i ≡ act_half x m i) (sym e) z)))
        | no d ↦
            if-both (λ (u : Bufs fl). u.abf16 (expert j) m i ≡ act_half (expert j) m i)
              (leb p.n1 p.n0) s _ (λ _. z)
              (λ _.
                ap (λ (f : ℕ → ℕ → fl.Half). f m i) (update-other s.abf16 (expert k) (expert j) _ d)
                ∙ z)
      ]

  pub gate_up_job-writes :
      (b : sl.Block) (j : ℕ) (p : Span) (s : Bufs fl) (m i : ℕ)
      → m < size (expert j)
      → i < cfg.inter
      → Holds i p
      → rows.OwnsGate b i
      → (gate_up_job fl w nel cfg sl q old b j p s).abf16 (expert j) m i ≡ act_half (expert j) m i
  gate_up_job-writes b j p s m i ml il h o = gate_up_job-own b j p s m i ml il (λ _. o) (inl h)

  -- The value of a down row, for activations `a`.
  abbrev pub down_value : (ℕ → ℕ → ℕ → fl.Half) → ℕ → ℕ → ℕ → fl.Float
  down_value a e m = w.down (a e m) e

  module _ (a : ℕ → ℕ → ℕ → fl.Half) (b : sl.Block) where
    down_job-own :
        (k : ℕ) (p : Span) (s : ℕ → ℕ → ℕ → fl.Float) (m h : ℕ)
        → m < size (expert k)
        → h < cfg.hidden
        → (Holds h p → rows.OwnsDown b h)
        → Holds h p ⊎ (s (expert k) m h ≡ down_value a (expert k) m h)
        → down_job fl w nel cfg sl q old a b k p s (expert k) m h ≡ down_value a (expert k) m h
    down_job-own k p s m h ml hl owns before =
        let e = expert k in
        let v = down_value a e m h in
        let slice = sl.down_slice_batched (size e) (a e) b (s e) e p.n0 p.n1 in
        if-both (λ (u : ℕ → ℕ → ℕ → fl.Float). u e m h ≡ v) (leb p.n1 p.n0) s (update s e slice)
          (λ t. elim before [ inl held ↦ absurd (empty t held) | inr z ↦ z ])
          (λ _.
            ap (λ (f : ℕ → ℕ → fl.Float). f m h) (update-same s e slice) ∙ elim (dec_lt h p.n0) [
              | yes lo ↦ other before (λ held. omega (arith, held.0, lo))
              | no lo ↦ elim (dec_lt h p.n1) [
                | yes hi ↦
                    rows.down_rows (size e) (a e) b (s e) e p.n0 p.n1 m h ml (omega arith) hi hl
                      (owns (omega arith, hi))
                | no hi ↦ other before (λ held. hi held.1)
              ]
            ])
      where
        empty : leb p.n1 p.n0 ≡ true → ¬ Holds h p
        empty t (lo, hi) = ground arith

        other :
            Holds h p ⊎ (s (expert k) m h ≡ down_value a (expert k) m h)
            → ¬ Holds h p
            → sl.down_slice_batched
                (size (expert k))
                (a (expert k))
                b
                (s (expert k))
                (expert k)
                p.n0
                p.n1
                m
                h
              ≡ down_value a (expert k) m h
        other (inl held) out = absurd (out held)
        other (inr z) out =
            rows.down_others (size (expert k)) (a (expert k)) b (s (expert k)) (expert k) p.n0 p.n1
              m h ml hl out
            ∙ z

    pub down_job-keeps :
        (j k : ℕ) (p : Span) (s : ℕ → ℕ → ℕ → fl.Float) (m h : ℕ)
        → m < size (expert j)
        → h < cfg.hidden
        → (Holds h p → rows.OwnsDown b h)
        → s (expert j) m h ≡ down_value a (expert j) m h
        → down_job fl w nel cfg sl q old a b k p s (expert j) m h ≡ down_value a (expert j) m h
    down_job-keeps j k p s m h ml hl owns z = elim (ℕ_discrete (expert k) (expert j)) [
      | yes e ↦
          subst (λ x. down_job fl w nel cfg sl q old a b k p s x m h ≡ down_value a x m h) e
            (down_job-own k p s m h (subst (λ x. m < size x) (sym e) ml) hl owns
              (inr (subst (λ x. s x m h ≡ down_value a x m h) (sym e) z)))
      | no d ↦
          if-both (λ (u : ℕ → ℕ → ℕ → fl.Float). u (expert j) m h ≡ down_value a (expert j) m h)
            (leb p.n1 p.n0) s _ (λ _. z)
            (λ _.
              ap (λ (f : ℕ → ℕ → fl.Float). f m h) (update-other s (expert k) (expert j) _ d) ∙ z)
    ]

    pub down_job-writes :
        (j : ℕ) (p : Span) (s : ℕ → ℕ → ℕ → fl.Float) (m h : ℕ)
        → m < size (expert j)
        → h < cfg.hidden
        → Holds h p
        → rows.OwnsDown b h
        → down_job fl w nel cfg sl q old a b j p s (expert j) m h ≡ down_value a (expert j) m h
    down_job-writes j p s m h ml hl held o = down_job-own j p s m h ml hl (λ _. o) (inl held)
