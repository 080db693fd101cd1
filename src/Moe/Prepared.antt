-- ===== src/Moe/Prepared.antt =====
-- The activations before job 4, in the type of the down projection, on both branches.
use xiaotu_moe.Base.{
  sym, arith, ℕ, ◌*◌, ◌/◌, ◌%◌, ◌<◌, ◌==◌, ◌≢◌, if◌then◌else◌, if-both, run_all-turn,
}
use xiaotu_moe.Layers.Jobs.{Dispatch, run_job}
use xiaotu_moe.Moe.Kernels.{Ggml}
use xiaotu_moe.Moe.Slots.{slot_range, slot_expert}
use xiaotu_moe.Moe.Forward.{Moe, Args, Inputs, Buffers, assignments, gate_up, convert_rows}
use xiaotu_moe.Moe.Expected.{Matrices}
use xiaotu_moe.Moe.Inputs.{Row}
use xiaotu_moe.Moe.Held.{Layout}
use xiaotu_moe.Moe.Acts.{Acted, nth, off, num, row, blk}
use xiaotu_moe.Moe.Activated.{acts-Acted}
use xiaotu_moe.Moe.Rows.{Ready, Whole, Acted-Ready, Acted-Whole, converted-Ready, converted_out}

module _ (g : Ggml) (m : Moe g) (q : Args g) (w : Matrices g) (lay : Layout g m q w)
    (d : Dispatch m.numa_nodes) where
  abbrev SlotReady : ℕ → Buffers g → Type 0
  SlotReady = Ready g m q w lay d (row g m q w lay d)

  abbrev SlotWhole : ℕ → Buffers g → Type 0
  SlotWhole = Whole g m q w lay d (row g m q w lay d)

  convert_rows-Whole :
      (a e : ℕ) (s : Buffers g) → SlotWhole a s → SlotWhole a (convert_rows g m q e s)
  convert_rows-Whole a e s h =
      if-both (SlotWhole a) (num g m q w lay d e == 0) s _ (λ _. h) (λ _. h)

  convert_rows-Ready :
      (a : ℕ) (s : Buffers g)
      → a < assignments g m q
      → SlotWhole a s
      → SlotReady a (convert_rows g m q (q.ids a) s)
  convert_rows-Ready a s la h =
      let (lo, hi) = slot_range q.ids (assignments g m q) a la in
      if-both (SlotReady a) (num g m q w lay d (q.ids a) == 0) s _
        (λ z. absurd (ground (arith, lo, hi)))
        (λ _.
          converted-Ready g m q w lay d (row g m q w lay d) a (off g m q w lay d (q.ids a))
            (num g m q w lay d (q.ids a)) s lo hi h)

  convert_rows-other :
      (a e : ℕ) (s : Buffers g)
      → a < assignments g m q
      → e ≢ q.ids a
      → SlotReady a s
      → SlotReady a (convert_rows g m q e s)
  convert_rows-other a e s la n h =
      if-both (SlotReady a) (num g m q w lay d e == 0) s _ (λ _. h)
        (λ _.
          converted_out g m q w lay d (row g m q w lay d) a (off g m q w lay d e)
            (num g m q w lay d e) s
            (λ (lo, hi). n (sym (slot_expert q.ids (assignments g m q) a e la lo hi))) h)

  -- Before job 4 the activations of every assignment are ready, whatever the types' block sizes.
  pub prepared :
      (x : Inputs g) (bufs : Buffers g) (a : ℕ)
      → a < assignments g m q
      → Row g m q w (row g m q w lay d a) (a / q.k) x
      → SlotReady a (
          if m.stride % blk g m q w lay d == 0
          then run_job d 2 m.expert_num (nth g m q w lay d) (gate_up g m q x) bufs
          else run_job d 3 1 m.expert_num
              (λ _. convert_rows g m q)
              (run_job d 2 m.expert_num (nth g m q w lay d) (gate_up g m q x) bufs))
  prepared x bufs a la h =
      if-both (SlotReady a) (m.stride % blk g m q w lay d == 0) acts
        (run_job d 3 1 m.expert_num (λ _. convert_rows g m q) acts)
        (λ z. Acted-Ready g m q w lay d (row g m q w lay d) a acts acted (ground (arith, z)))
        (λ _.
          run_all-turn (SlotWhole a) (SlotReady a) (convert_rows g m q) (m.expert_num * 1) (q.ids a)
            (λ e l n s k. convert_rows-Whole a e s k) (λ s k. convert_rows-Ready a s la k)
            (λ e l n s k. convert_rows-other a e s la n k) (d.order 3 1 m.expert_num)
            (d.order-Once 3 1 m.expert_num) (omega (arith, lay.ids_lt a la)) acts
            (Acted-Whole g m q w lay d (row g m q w lay d) a acts acted))
    where
      acts : Buffers g
      acts = run_job d 2 m.expert_num (nth g m q w lay d) (gate_up g m q x) bufs

      acted :
          (ith : ℕ) → ith < nth g m q w lay d → Acted g m q w lay d (row g m q w lay d) a ith acts
      acted ith l = acts-Acted g m q w lay d x bufs a ith la l h
