-- ===== src/Moe/Inputs.antt =====
-- Jobs 1 and 2: the converted inputs, in the rows ordered by expert.
use xiaotu_moe.Base.{
  refl, sym, ap, ◌∙◌, subst, arith, ℕ, ◌*◌, ◌/◌, ◌<◌, ◌≡◌, ◌&&◌, ◌≢◌, Bool, false, if◌then◌else◌,
  if-both, true, update-other, update-same, run_all-settles, div-lt,
}
use xiaotu_moe.Moe.Slots.{slot_injective}
use xiaotu_moe.Layers.Jobs.{Dispatch, run_job}
use xiaotu_moe.Moe.Reorder.{slot}
use xiaotu_moe.Moe.Kernels.{Ggml}
use xiaotu_moe.Moe.Forward.{Moe, Args, Inputs, gate_vec, up_vec, convert_input, assignments, gather}
use xiaotu_moe.Moe.Expected.{Matrices, as_type}

pub both_ways : (b : Bool) → b ≡ true → b ≡ false → ⊥
both_ways b e f = cc

pub left_true : (a b : Bool) → (a && b) ≡ true → a ≡ true
left_true true b e = refl
left_true false b e = cc

pub right_true : (a b : Bool) → (a && b) ≡ true → b ≡ true
right_true true b e = e
right_true false b e = cc

not_both : (a b : Bool) → a ≡ true → b ≡ true → (a && b) ≡ false → ⊥
not_both true b e f h = cc
not_both false b e f h = cc

module _ (g : Ggml) (m : Moe g) (q : Args g) (w : Matrices g) where
  abbrev one_input : Bool
  one_input = g.same (gate_vec g m q) (up_vec g m q)

  -- Row r of the inputs holds token t, in both types; in one buffer where the types are one.
  pub record Row (r t : ℕ) (s : Inputs g) : Type 0 where
    pub in_gate : s.gate_input r ≡ as_type g m q w (gate_vec g m q) t
    pub in_up : one_input ≡ false → s.up_input r ≡ as_type g m q w (up_vec g m q) t

  pub in_either :
      (r t : ℕ) (s : Inputs g)
      → Row r t s
      → (if one_input then s.gate_input else s.up_input) r ≡ as_type g m q w (up_vec g m q) t
  in_either r t s h =
      if-both (λ x. x r ≡ as_type g m q w (up_vec g m q) t) one_input s.gate_input s.up_input
        (λ e. h.in_gate ∙ ap (λ x. as_type g m q w x t) (g.same_eq _ _ e)) h.in_up

  pub as_type-same :
      (t : ℕ) (ty : g.DataType) → g.same m.hidden_type ty ≡ true → q.input t ≡ as_type g m q w ty t
  as_type-same t ty e =
      if-both (λ x. q.input t ≡ x) (g.same m.hidden_type ty) (q.input t) _ (λ _. refl)
        (λ f. absurd (both_ways (g.same m.hidden_type ty) e f))

  -- Branch 2 is reached only when the hidden type is neither.
  pub as_type-gate :
      (t : ℕ)
      → (g.same m.hidden_type (gate_vec g m q) && g.same m.hidden_type (up_vec g m q)) ≡ false
      → one_input ≡ true
      → g.from_float (gate_vec g m q) (g.to_float m.hidden_type (q.input t))
        ≡ as_type g m q w (gate_vec g m q) t
  as_type-gate t e f =
      if-both (λ x. g.from_float (gate_vec g m q) (g.to_float m.hidden_type (q.input t)) ≡ x)
        (g.same m.hidden_type (gate_vec g m q)) (q.input t) _
        (λ a.
          absurd
            (not_both _ _ a (subst (λ x. g.same m.hidden_type x ≡ true) (g.same_eq _ _ f) a) e))
        (λ _. refl)

  convert_input-Row : (t : ℕ) (s : Inputs g) → Row t t (convert_input g m q t s)
  convert_input-Row t s =
      if-both (Row t t)
        (g.same m.hidden_type (gate_vec g m q) && g.same m.hidden_type (up_vec g m q)) _ _
        (λ e. record {
          in_gate =
              update-same s.gate_input t _ ∙ as_type-same t (gate_vec g m q) (left_true _ _ e);
          in_up = λ f. absurd (
              both_ways one_input
                (subst (λ x. g.same (gate_vec g m q) x ≡ true)
                  (sym (g.same_eq _ _ (left_true _ _ e)) ∙ g.same_eq _ _ (right_true _ _ e))
                  (g.same_refl (gate_vec g m q)))
                f);
        })
        (λ e.
          if-both (Row t t) one_input _ _
            (λ f. record {
              in_gate = update-same s.gate_input t _ ∙ as_type-gate t e f;
              in_up = λ f'. absurd (both_ways one_input f f');
            })
            (λ f. record {
              in_gate = update-same s.gate_input t _;
              in_up = λ _. update-same s.up_input t _;
            }))

  convert_input-other :
      (r t i : ℕ) (s : Inputs g) → i ≢ r → Row r t s → Row r t (convert_input g m q i s)
  convert_input-other r t i s n h =
      if-both (Row r t)
        (g.same m.hidden_type (gate_vec g m q) && g.same m.hidden_type (up_vec g m q)) _ _
        (λ _. record { in_gate = update-other s.gate_input i r _ n ∙ h.in_gate; in_up = h.in_up })
        (λ _.
          if-both (Row r t) one_input _ _
            (λ _. record {
              in_gate = update-other s.gate_input i r _ n ∙ h.in_gate;
              in_up = h.in_up;
            })
            (λ _. record {
              in_gate = update-other s.gate_input i r _ n ∙ h.in_gate;
              in_up = λ f. update-other s.up_input i r _ n ∙ h.in_up f;
            }))

  gather-Row :
      (from : Inputs g) (a : ℕ) (s : Inputs g)
      → Row (a / q.k) (a / q.k) from
      → Row (slot q.ids (assignments g m q) a) (a / q.k) (gather g m q from a s)
  gather-Row from a s h =
      if-both (Row (slot q.ids (assignments g m q) a) (a / q.k)) one_input _ _
        (λ e. record {
          in_gate = update-same s.gate_input (slot q.ids (assignments g m q) a) _ ∙ h.in_gate;
          in_up = λ f. absurd (both_ways one_input e f);
        })
        (λ e. record {
          in_gate = update-same s.gate_input (slot q.ids (assignments g m q) a) _ ∙ h.in_gate;
          in_up = λ f. update-same s.up_input (slot q.ids (assignments g m q) a) _ ∙ h.in_up f;
        })

  gather-other :
      (from : Inputs g) (r t a : ℕ) (s : Inputs g)
      → slot q.ids (assignments g m q) a ≢ r
      → Row r t s
      → Row r t (gather g m q from a s)
  gather-other from r t a s n h =
      if-both (Row r t) one_input _ _
        (λ _. record { in_gate = update-other s.gate_input _ r _ n ∙ h.in_gate; in_up = h.in_up })
        (λ _. record {
          in_gate = update-other s.gate_input _ r _ n ∙ h.in_gate;
          in_up = λ f. update-other s.up_input _ r _ n ∙ h.in_up f;
        })

  module _ (d : Dispatch m.numa_nodes) (rows ordered : Inputs g) where
    abbrev inputs : Inputs g
    inputs = run_job d 0 1 q.qlen (λ _. convert_input g m q) rows

    -- After job 2 the slot of each assignment holds its token's input.
    pub gathered-Row :
        (a : ℕ)
        → a < assignments g m q
        → Row
            (slot q.ids (assignments g m q) a)
            (a / q.k)
            (run_job d 1 1 (assignments g m q) (λ _. gather g m q inputs) ordered)
    gathered-Row a lt =
        run_all-settles (Row (slot q.ids (assignments g m q) a) (a / q.k)) (gather g m q inputs)
          (assignments g m q * 1) a (λ s. gather-Row inputs a s converted)
          (λ i l n s h.
            gather-other inputs _ _ i s
              (λ e. n (slot_injective q.ids (assignments g m q) i a (omega arith) lt e)) h)
          (d.order 1 1 (assignments g m q)) (d.order-Once 1 1 (assignments g m q)) (omega arith)
          ordered
      where
        converted : Row (a / q.k) (a / q.k) inputs
        converted =
            run_all-settles (Row (a / q.k) (a / q.k)) (convert_input g m q) (q.qlen * 1) (a / q.k)
              (convert_input-Row (a / q.k))
              (λ i l n s h. convert_input-other (a / q.k) (a / q.k) i s n h) (d.order 0 1 q.qlen)
              (d.order-Once 0 1 q.qlen) (omega (arith, div-lt q.qlen q.k a lt)) rows
