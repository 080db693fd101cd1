-- ===== src/Moe/Slots.antt =====
-- The rows ordered by expert: each assignment has a row of its own, in the range of its expert.
use xiaotu_moe.Base.{
  refl, sym, ap, ◌∙◌, subst, arith, ℕ, zero, suc, ◌+◌, ◌≤◌, ◌<◌, ◌≡◌, ℕ_discrete, dec_lt, ◌≢◌,
  update, update-same, update-other,
}
use xiaotu_moe.Moe.Reorder.{selection, reorder_offset, slot}

update-ge : (c : ℕ → ℕ) (e x : ℕ) → c x ≤ update c e (c e + 1) x
update-ge c e x = ground arith

module _ (ids : ℕ → ℕ) where
  -- The positions of an expert's assignments are below its count, and increase.
  pos_lt : (n a : ℕ) → a < n → (selection ids n).pos a < (selection ids n).selected (ids a)
  pos_lt zero a h = absurd (omega arith)
  pos_lt (suc n) a h = elim (ℕ_discrete n a) [
    | yes e ↦
        subst (λ x. (selection ids (suc n)).pos x < (selection ids (suc n)).selected (ids x)) e
          (omega (
            arith,
            update-same (selection ids n).pos n ((selection ids n).selected (ids n)),
            update-same (selection ids n).selected (ids n) ((selection ids n).selected (ids n) + 1),
          ))
    | no d ↦ omega (
      arith,
      update-other (selection ids n).pos n a ((selection ids n).selected (ids n)) d,
      update-ge (selection ids n).selected (ids n) (ids a),
      pos_lt n a (omega arith),
    )
  ]

  pos_mono :
      (n a b : ℕ)
      → a < b
      → b < n
      → ids a ≡ ids b
      → (selection ids n).pos a < (selection ids n).pos b
  pos_mono zero a b h l e = absurd (omega arith)
  pos_mono (suc n) a b h l e = elim (ℕ_discrete n b) [
    | yes q ↦
        subst (λ x. (selection ids (suc n)).pos a < (selection ids (suc n)).pos x) q
          (omega (
            arith,
            update-same (selection ids n).pos n ((selection ids n).selected (ids n)),
            update-other (selection ids n).pos n a ((selection ids n).selected (ids n))
                (λ x. omega arith),
            pos_lt n a (omega arith),
            ap (selection ids n).selected (e ∙ ap ids (sym q)),
          ))
    | no d ↦ omega (
      arith,
      update-other (selection ids n).pos n a ((selection ids n).selected (ids n))
          (λ x. omega arith),
      update-other (selection ids n).pos n b ((selection ids n).selected (ids n)) d,
      pos_mono n a b h (omega arith) e,
    )
  ]

  reorder_offset_mono :
      (n e f : ℕ)
      → e < f
      → reorder_offset ids n e + (selection ids n).selected e ≤ reorder_offset ids n f
  reorder_offset_mono n e zero h = absurd (omega arith)
  reorder_offset_mono n e (suc f) h = elim (ℕ_discrete e f) [
    | yes q ↦
        subst
          (λ x.
            reorder_offset ids n e + (selection ids n).selected e ≤ reorder_offset ids n (suc x))
          q (omega arith)
    | no d ↦ omega (arith, reorder_offset_mono n e f (omega arith))
  ]

  -- The row of an assignment lies among the rows of its expert.
  pub slot_range :
      (n a : ℕ)
      → a < n
      → (reorder_offset ids n (ids a) ≤ slot ids n a)
        × (slot ids n a < reorder_offset ids n (ids a) + (selection ids n).selected (ids a))
  slot_range n a h = (omega arith, omega (arith, pos_lt n a h))

  -- Rows of different experts do not meet.
  pub slot_expert :
      (n a e : ℕ)
      → a < n
      → reorder_offset ids n e ≤ slot ids n a
      → slot ids n a < reorder_offset ids n e + (selection ids n).selected e
      → ids a ≡ e
  slot_expert n a e h lo hi = elim (dec_lt (ids a) e) [
    | yes l ↦ absurd (omega (arith, slot_range n a h, reorder_offset_mono n (ids a) e l))
    | no m ↦ elim (dec_lt e (ids a)) [
      | yes l ↦ absurd (omega (arith, slot_range n a h, reorder_offset_mono n e (ids a) l))
      | no l ↦ omega arith
    ]
  ]

  slot_apart : (n a b : ℕ) → a < b → b < n → slot ids n a ≢ slot ids n b
  slot_apart n a b h l e =
      let q =
        slot_expert n a (ids b) (omega arith) (omega (arith, e, slot_range n b l))
          (omega (arith, e, slot_range n b l)) in
      omega (arith, e, pos_mono n a b h l q, ap (reorder_offset ids n) q)

  -- Different assignments have different rows.
  pub slot_injective : (n a b : ℕ) → a < n → b < n → slot ids n a ≡ slot ids n b → a ≡ b
  slot_injective n a b h l e = elim (dec_lt a b) [
    | yes x ↦ absurd (slot_apart n a b x l e)
    | no y ↦ elim (dec_lt b a) [
      | yes x ↦ absurd (slot_apart n b a x h (sym e))
      | no z ↦ omega arith
    ]
  ]

  reorder_offset-above :
      (m n : ℕ) → m ≤ ids n → reorder_offset ids (suc n) m ≡ reorder_offset ids n m
  reorder_offset-above zero n h = refl
  reorder_offset-above (suc m) n h = omega (
    arith,
    reorder_offset-above m n (omega arith),
    update-other (selection ids n).selected (ids n) m ((selection ids n).selected (ids n) + 1)
        (λ x. omega arith),
  )

  -- The counts of the experts below m are the assignments to them.
  reorder_offset-select :
      (m n : ℕ) → ids n < m → reorder_offset ids (suc n) m ≡ suc (reorder_offset ids n m)
  reorder_offset-select zero n h = absurd (omega arith)
  reorder_offset-select (suc m) n h = elim (ℕ_discrete (ids n) m) [
    | yes q ↦ omega (
      arith,
      reorder_offset-above m n (omega arith),
      update-same (selection ids n).selected (ids n) ((selection ids n).selected (ids n) + 1),
      ap (update (selection ids n).selected (ids n) ((selection ids n).selected (ids n) + 1)) q,
      ap (selection ids n).selected q,
    )
    | no d ↦ omega (
      arith,
      reorder_offset-select m n (omega arith),
      update-other (selection ids n).selected (ids n) m ((selection ids n).selected (ids n) + 1) d,
    )
  ]

  empty : (m : ℕ) → reorder_offset ids 0 m ≡ 0
  empty zero = refl
  empty (suc m) = omega (arith, empty m)

  pub reorder_offset_total : (m n : ℕ) → ((a : ℕ) → a < n → ids a < m) → reorder_offset ids n m ≡ n
  reorder_offset_total m zero h = empty m
  reorder_offset_total m (suc n) h =
      reorder_offset-select m n (h n (omega arith))
      ∙ ap suc (reorder_offset_total m n (λ a l. h a (omega arith)))

  -- When every expert id is below expert_num, forward_many_m gives the n assignments of a call the
  -- rows 0 to n - 1 of its buffers ordered by expert: a row below n to each, no row to two of them,
  -- and the rows of an expert are those between its offset and its offset plus its count.
  pub slots_ordered :
      (expert_num n : ℕ)
      → ((a : ℕ) → a < n → ids a < expert_num)
      → (a b : ℕ) → a < n
      → b < n
      → (slot ids n a < n)
        × (slot ids n a ≡ slot ids n b → a ≡ b)
        × (reorder_offset ids n (ids a) ≤ slot ids n a)
        × (slot ids n a < reorder_offset ids n (ids a) + (selection ids n).selected (ids a))
  slots_ordered expert_num n h a b la lb = (
    omega (
      arith,
      slot_range n a la,
      reorder_offset_mono n (ids a) expert_num (h a la),
      reorder_offset_total expert_num n h,
    ),
    slot_injective n a b la lb,
    (slot_range n a la).0,
    (slot_range n a la).1,
  )
