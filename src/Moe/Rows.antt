-- ===== src/Moe/Rows.antt =====
-- The activations of an assignment that all blocks have, as floats and in the type of the down
-- projection.
use native.Mathlib.Nat.{div-add-mod, mul-le-mul_right}
use xiaotu_moe.Base.{
  ap, ◌∙◌, subst, arith, ℕ, ◌+◌, ◌-◌, ◌*◌, ◌/◌, ◌%◌, ◌≤◌, ◌<◌, ◌≡◌, dec_lt, row-lt, in_block,
}
use xiaotu_moe.Layers.Jobs.{Dispatch}
use xiaotu_moe.Moe.Kernels.{Ggml, convert}
use xiaotu_moe.Moe.Forward.{Moe, Args, Buffers, down_vec}
use xiaotu_moe.Moe.Expected.{Matrices, act_row}
use xiaotu_moe.Moe.Held.{Layout, stride_block}
use xiaotu_moe.Moe.Acts.{Acted, nth, blk}
use xiaotu_moe.Moe.Writes.{write_in, write_row_out}

pub some_blocks : (stride k : ℕ) → 1 ≤ stride → stride / k * k ≡ stride → 1 ≤ stride / k
some_blocks stride k p e = elim (dec_lt 0 (stride / k)) [
  | yes l ↦ l
  | no n ↦ absurd (omega (arith, ap (λ x. x * k) {x = stride / k} {y = 0} (omega arith)))
]

-- The blocks of a row are those of its strides.
pub stride_blocks :
    (n stride k total b : ℕ)
    → stride / k * k ≡ stride
    → n * stride ≡ total
    → total / k * k ≡ total
    → 1 ≤ k
    → b < total / k
    → b < n * (stride / k)
stride_blocks n stride k total b e f h p l = elim (dec_lt b (n * (stride / k))) [
  | yes y ↦ y
  | no x ↦ absurd (
      omega (
        arith,
        e,
        f,
        h,
        row-lt (total / k) k b 0 l p,
        mul-le-mul_right k (le x),
        ap (λ y. n * y) e,
      ))
]
  where
    le : ¬ (b < n * (stride / k)) → n * (stride / k) ≤ b
    le x = omega arith

module _ (g : Ggml) (m : Moe g) (q : Args g) (w : Matrices g) (lay : Layout g m q w)
    (d : Dispatch m.numa_nodes) (to : ℕ → ℕ) where
  abbrev pub per_row : ℕ
  per_row = m.intermediate_size / blk g m q w lay d

  -- The activations of assignment a, in the type of the down projection and as floats.
  abbrev pub Ready : ℕ → Buffers g → Type 0
  Ready a s =
      (b : ℕ)
      → b < per_row
      → s.down_input (to a) b ≡ g.from_float (down_vec g m q) (act_row g m q w a) b

  abbrev pub Whole : ℕ → Buffers g → Type 0
  Whole a s = (c : ℕ) → c < m.intermediate_size → s.up_output (to a) c ≡ act_row g m q w a c

  pub Acted-Whole :
      (a : ℕ) (s : Buffers g)
      → ((ith : ℕ) → ith < nth g m q w lay d → Acted g m q w lay d to a ith s)
      → Whole a s
  Acted-Whole a s h c l =
      let (i, r, e) =
        in_block (nth g m q w lay d) m.stride c lay.some_stride (omega (arith, lay.acts_whole)) in
      subst (λ y. s.up_output (to a) y ≡ act_row g m q w a y) e
        ((h (c / m.stride) i).in_up (c % m.stride) r)

  pub Acted-Ready :
      (a : ℕ) (s : Buffers g)
      → ((ith : ℕ) → ith < nth g m q w lay d → Acted g m q w lay d to a ith s)
      → m.stride % blk g m q w lay d ≡ 0
      → Ready a s
  Acted-Ready a s h z b l =
      let (i, r, e) =
        in_block (nth g m q w lay d) sb b
          (some_blocks m.stride (blk g m q w lay d) lay.some_stride divides)
          (stride_blocks (nth g m q w lay d) m.stride (blk g m q w lay d) m.intermediate_size b
            divides lay.acts_whole lay.down_blocks (g.blck_size_pos _) l) in
      subst (λ y. s.down_input (to a) y ≡ g.from_float (down_vec g m q) (act_row g m q w a) y)
        (ap (λ y. y + b % sb)
            (stride_block (b / sb) m.stride (blk g m q w lay d) (g.blck_size_pos _) divides)
          ∙ e)
        ((h (b / sb) i).in_down z (b % sb) r)
    where
      sb : ℕ
      sb = m.stride / blk g m q w lay d

      divides : m.stride / blk g m q w lay d * blk g m q w lay d ≡ m.stride
      divides = omega (arith, z, div-add-mod m.stride (blk g m q w lay d))

  -- n whole rows converted, from row o on.
  abbrev pub converted : (o n : ℕ) → Buffers g → Buffers g
  converted o n s = record s {
    down_input = convert g (down_vec g m q) o n 0 m.intermediate_size 0 s.up_output s.down_input;
  }

  pub converted-Ready :
      (a o n : ℕ) (s : Buffers g) → o ≤ to a → to a < o + n → Whole a s → Ready a (converted o n s)
  converted-Ready a o n s lo hi h b l =
      write_in o n 0 per_row
        (λ j y. g.from_float (down_vec g m q) (λ x. s.up_output j (0 + x)) (y - 0)) s.down_input
        (to a) b lo hi (omega arith) (omega arith)
      ∙ ap (g.from_float (down_vec g m q) (λ x. s.up_output (to a) (0 + x))) {x = b - 0} {y = b}
          (omega arith)
      ∙ g.from_float_reads (down_vec g m q) (λ x. s.up_output (to a) (0 + x)) (act_row g m q w a) b
          (λ x below.
            ap (s.up_output (to a)) {y = b * blk g m q w lay d + x} (omega arith)
            ∙ h (b * blk g m q w lay d + x)
                (omega (arith, lay.down_blocks, row-lt per_row (blk g m q w lay d) b x l below)))

  pub converted_out :
      (a o n : ℕ) (s : Buffers g)
      → ¬ ((o ≤ to a) × (to a < o + n))
      → Ready a s
      → Ready a (converted o n s)
  converted_out a o n s away h b l =
      write_row_out o n 0 per_row
        (λ j y. g.from_float (down_vec g m q) (λ x. s.up_output j (0 + x)) (y - 0)) s.down_input
        (to a) b away
      ∙ h b l
