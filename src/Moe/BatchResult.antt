-- ===== src/Moe/BatchResult.antt =====
-- MOE::forward computes the expected output of every token, however it cuts the batch.
use xiaotu_moe.Base.{
  refl, sym, ap, ◌∙◌, subst, arith, ℕ, zero, suc, ◌+◌, ◌-◌, ◌*◌, ◌/◌, ◌≤◌, ◌<◌, ◌≡◌, ℕ_discrete,
  dec_lt, fun_ext, loop, Option, some, List, [], if-both, ltb,
}
use xiaotu_moe.Moe.OneResult.{forward_one-expected}
use mathlib.Core.Option.{none}
use xiaotu_moe.Moe.Result.{forward_many_m-expected}
use xiaotu_moe.Moe.One.{forward_one}
use xiaotu_moe.Layers.Covered.{rounds_rule}
use xiaotu_moe.Layers.Batches.{rounds, singles, Batch, and_then, group}
use native.Mathlib.Nat.{mul-le-mul_right, mul-add-div_right}
use xiaotu_moe.Moe.Kernels.{Ggml}
use xiaotu_moe.Moe.Forward.{Moe, Args, act_fn, down_vec, up_vec, gate_vec}
use xiaotu_moe.Moe.Expected.{Matrices, act_row, expert_row, expected, as_type}
use xiaotu_moe.Moe.Held.{Layout}
use xiaotu_moe.Moe.Batch.{args_at, Setting, call_many, call_one, run_calls}

module _ (g : Ggml) (m : Moe g) (q : Args g) (w : Matrices g) (lay : Layout g m q w)
    (some_rank : 1 ≤ q.k) where
  act_row-at :
      (pos len a : ℕ) → act_row g m (args_at g m q pos len) w a ≡ act_row g m q w (pos * q.k + a)
  act_row-at pos len a =
      ap
        (λ t c.
          act_fn g m q
            (g.dot m.up_type (up_vec g m q) (m.hidden_size / g.blck_size m.up_type)
              (w.up_proj (q.ids (pos * q.k + a) * m.intermediate_size + c))
              (as_type g m q w (up_vec g m q) t))
            (g.dot m.gate_type (gate_vec g m q) (m.hidden_size / g.blck_size m.gate_type)
              (w.gate_proj (q.ids (pos * q.k + a) * m.intermediate_size + c))
              (as_type g m q w (gate_vec g m q) t)))
        (sym (mul-add-div_right some_rank pos a))

  expert_row-at :
      (pos len a c : ℕ)
      → expert_row g m (args_at g m q pos len) w a c ≡ expert_row g m q w (pos * q.k + a) c
  expert_row-at pos len a c =
      ap
        (λ x.
          g.dot m.down_type (down_vec g m q) (m.intermediate_size / g.blck_size (down_vec g m q))
            (w.down_proj (q.ids (pos * q.k + a) * m.hidden_size + c))
            (g.from_float (down_vec g m q) x))
        (act_row-at pos len a)

  expected-at :
      (pos len t b : ℕ) → expected g m (args_at g m q pos len) w t b ≡ expected g m q w (pos + t) b
  expected-at pos len t b =
      ap (λ x. g.from_float m.hidden_type x b)
        (fun_ext (λ c.
          ap
            (λ (f : ℕ → g.Float).
              loop (q.k - 1)
                (λ r acc.
                  g.add acc
                    (g.mul (f (t * q.k + (r + 1))) (q.weights (pos * q.k + (t * q.k + (r + 1))))))
                (g.mul (f (t * q.k + 0)) (q.weights (pos * q.k + (t * q.k + 0)))))
            {x = λ a. expert_row g m (args_at g m q pos len) w a c}
            {y = λ a. expert_row g m q w (pos * q.k + a) c}
            (fun_ext (λ a. expert_row-at pos len a c))
          ∙ ap
              (λ (f : ℕ → ℕ).
                loop (q.k - 1)
                  (λ r acc.
                    g.add acc (g.mul (expert_row g m q w (f (r + 1)) c) (q.weights (f (r + 1)))))
                  (g.mul (expert_row g m q w (f 0) c) (q.weights (f 0))))
              {x = λ i. pos * q.k + (t * q.k + i)} {y = λ i. (pos + t) * q.k + i}
              (fun_ext (λ i. omega arith))))

  layout-at : (pos len : ℕ) → pos + len ≤ q.qlen → Layout g m (args_at g m q pos len) w
  layout-at pos len l = record {
    some_node = lay.some_node;
    some_stride = lay.some_stride;
    acts_whole = lay.acts_whole;
    hidden_whole = lay.hidden_whole;
    down_blocks = lay.down_blocks;
    hidden_blocks = lay.hidden_blocks;
    out_blocks = lay.out_blocks;
    ids_lt = λ a la. lay.ids_lt (pos * q.k + a) (omega (arith, la, mul-le-mul_right q.k l));
    gate_held = lay.gate_held;
    up_held = lay.up_held;
    down_held = lay.down_held;
  }

  abbrev blocks : ℕ
  blocks = m.hidden_size / g.blck_size m.hidden_type

  module _ (at : ℕ → Setting g m) where
    call_one-before : (t i : ℕ) (out : ℕ → ℕ → g.Block) → i < t → call_one g m q at t out i ≡ out i
    call_one-before t i out l =
        if-both (λ x. x ≡ out i) (ltb i t) (out i) _ (λ _. refl) (λ e. absurd (ground arith))

    call_many-before :
        (pos len i : ℕ) (out : ℕ → ℕ → g.Block) → i < pos → call_many g m q at pos len out i ≡ out i
    call_many-before pos len i out l =
        if-both (λ x. x ≡ out i) (ltb i pos) (out i) _ (λ _. refl) (λ e. absurd (ground arith))

    call_one-done :
        (t b : ℕ) (out : ℕ → ℕ → g.Block)
        → t < q.qlen
        → b < blocks
        → call_one g m q at t out t b ≡ expected g m q w t b
    call_one-done t b out l lb =
        if-both (λ x. x b ≡ expected g m q w t b) (ltb t t) (out t) _ (λ e. absurd (ground arith))
          (λ _.
            ap
              (λ i.
                forward_one g m (args_at g m q t 1) (at t).dispatch (at t).bufs (at t).downs
                  (λ j. out (t + j)) i b)
              {x = t - t} {y = 0} (omega arith)
            ∙ forward_one-expected g m (args_at g m q t 1) w (layout-at t 1 (omega arith))
                (at t).dispatch refl (at t).bufs (at t).downs (λ j. out (t + j)) some_rank b lb
            ∙ expected-at t 1 0 b
            ∙ ap (λ i. expected g m q w i b) {x = t + 0} {y = t} (omega arith))

    call_many-done :
        (pos len t b : ℕ) (out : ℕ → ℕ → g.Block)
        → pos + len ≤ q.qlen
        → pos ≤ t
        → t < pos + len
        → b < blocks
        → call_many g m q at pos len out t b ≡ expected g m q w t b
    call_many-done pos len t b out l lo hi lb =
        if-both (λ x. x b ≡ expected g m q w t b) (ltb t pos) (out t) _ (λ e. absurd (ground arith))
          (λ _.
            forward_many_m-expected g m (args_at g m q pos len) w (layout-at pos len l)
              (at pos).dispatch (at pos).rows (at pos).ordered (at pos).bufs (at pos).downs
              (λ j. out (pos + j)) some_rank (t - pos) b (omega arith) lb
            ∙ expected-at pos len (t - pos) b
            ∙ ap (λ i. expected g m q w i b) {x = pos + (t - pos)} {y = t} (omega arith))

    -- The calls leave the rows before pos, and compute the n rows from there on.
    abbrev pub Computes : ℕ → ℕ → Option (List Batch) → Type 0
    Computes pos n none = ⊥
    Computes pos n (some bs) =
        pos + n ≤ q.qlen
        → (out : ℕ → ℕ → g.Block)
        → ((t : ℕ) → t < pos → run_calls g m q at bs out t ≡ out t)
          × ((t b : ℕ)
              → pos ≤ t
              → t < pos + n
              → b < blocks
              → run_calls g m q at bs out t b ≡ expected g m q w t b)

    nothing : (pos n : ℕ) → n ≡ 0 → Computes pos n (some [])
    nothing pos n e l out = (λ t h. refl, λ t b lo hi lb. absurd (omega arith))

    ones : (pos n : ℕ) → Computes pos n (some (singles pos n))
    ones pos zero l out = (λ t h. refl, λ t b lo hi lb. absurd (omega arith))
    ones pos (suc n) l out =
        let (keeps, does) = ones (suc pos) n (omega arith) (call_one g m q at pos out) in
        (
          λ t h. keeps t (omega arith) ∙ call_one-before pos t out h,
          λ t b lo hi lb. elim (ℕ_discrete pos t) [
            | yes e ↦
                ap (λ f. f b) (keeps t (omega arith))
                ∙ subst (λ x. call_one g m q at pos out x b ≡ expected g m q w x b) e
                    (call_one-done pos b out (omega arith) lb)
            | no d ↦ does t b (omega arith) (omega arith) lb
          ],
        )

    more :
        (hi pos len n : ℕ) (rest : Option (List Batch))
        → 1 ≤ len
        → len ≤ hi
        → len ≤ n
        → Computes (pos + len) (n - len) rest
        → Computes pos n (and_then (group pos len) rest)
    more hi pos len n none p f l h = h
    more hi pos len n (some bs) p f l h = λ within out.
        let (keeps, does) = h (omega arith) (call_many g m q at pos len out) in
        (
          λ t lt. keeps t (omega arith) ∙ call_many-before pos len t out lt,
          λ t b lo up lb. elim (dec_lt t (pos + len)) [
            | yes e ↦
                ap (λ f'. f' b) (keeps t e) ∙ call_many-done pos len t b out (omega arith) lo e lb
            | no d ↦ does t b (omega arith) (omega arith) lb
          ],
        )

    pub rounds-Computes :
        (fuel lo hi : ℕ) → 1 ≤ hi → q.qlen ≤ fuel → Computes 0 q.qlen (rounds fuel lo hi 0 q.qlen)
    rounds-Computes fuel lo hi p f =
        rounds_rule Computes lo hi nothing ones (more hi) fuel 0 q.qlen p f
