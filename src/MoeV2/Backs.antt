-- ===== src/MoeV2/Backs.antt =====
-- What a block has behind it after sock_fill or a copy (moe_v2.hpp, lines 376-410, 871-874 and
-- 1036-1058).
use xiaotu_moe.Base.{
  refl, sym, arith, ℕ, ◌+◌, ◌≤◌, ◌<◌, ◌≡◌, inl, inr, ◌&&◌, Bool, true, ltb, leb, if◌then◌else◌,
  if-both, Option, none, some, ◌⊎◌,
}
use xiaotu_moe.MoeV2.Construct.{
  Bytes, Replicas, copy_block, copy_of, for_socket, no_replicas, or_shared, sock_fill, Engine,
  not_null,
}

-- The pointer p serves the block src: null for null, else the first `bytes` bytes agree.
unfoldable pub Backs : ℕ → Option Bytes → Option Bytes → Type 0
Backs bytes none none = Unit
Backs bytes none (some p) = ⊥
Backs bytes (some src) none = ⊥
Backs bytes (some src) (some p) = (o : ℕ) → o < bytes → p o ≡ src o

copy_of-Backs : (bytes : ℕ) (src : Bytes) → Backs bytes (some src) (some (copy_of bytes src))
unfolding Backs
copy_of-Backs bytes src o ob =
    if-both (λ x. x ≡ src o) (leb 0 o && ltb o (0 + bytes)) (src o) 0 (λ _. refl)
      (λ t. absurd (ground arith))

pub copy_block-Backs : (bytes : ℕ) (src : Option Bytes) → Backs bytes src (copy_block bytes src)
unfolding Backs
copy_block-Backs bytes none = tt
copy_block-Backs bytes (some src) = copy_of-Backs bytes src

or_shared-Backs :
    (bytes : ℕ) (src : Option Bytes) (p shared : Option Bytes)
    → Backs bytes src p
    → Backs bytes src shared
    → Backs bytes src (or_shared p shared)
or_shared-Backs bytes src none shared h k = k
or_shared-Backs bytes src (some p) shared h k = h

-- A socket without a replica reads the shared block.
shared-Backs :
    (bytes : ℕ) (src shared : Option Bytes) (s : ℕ)
    → Backs bytes src shared
    → Backs bytes src (for_socket (λ _. none) shared s)
shared-Backs bytes src shared s h =
    if-both (Backs bytes src) (ltb s 2) shared shared (λ _. h) (λ _. h)

-- What one block has behind it once it is filled, where the replicas are taken for the shared block
-- if `replicated`.
unfoldable pub Filled : ℕ → Option Bytes → Bool → Replicas → Type 0
Filled bytes src replicated f =
    (replicated ≡ true → 2 ≤ f.nsock)
    → (s : ℕ)
    → Backs bytes src (for_socket f.dst (if replicated then f.dst 0 else copy_block bytes src) s)

no_replicas-Filled :
    (bytes : ℕ) (src : Option Bytes) (replicated : Bool) (m : ℕ)
    → m < 2
    → Filled bytes src replicated (no_replicas m)
unfolding Filled
no_replicas-Filled bytes src replicated m ml h s = shared-Backs bytes src _ s (
    if-both (Backs bytes src) replicated none (copy_block bytes src)
      (λ t. absurd (omega (arith, h t))) (λ _. copy_block-Backs bytes src))

pub sock_fill-Filled :
    (nsock : ℕ) (alloc : ℕ → Bool) (bytes : ℕ) (src : Option Bytes) (replicated : Bool)
    → Filled bytes src replicated (sock_fill nsock alloc bytes src)
unfolding Filled Backs
sock_fill-Filled nsock alloc bytes none replicated = λ h s.
    shared-Backs bytes none (if replicated then none else none) s
      (if-both (Backs bytes none) replicated none none (λ _. tt) (λ _. tt))
sock_fill-Filled nsock alloc bytes (some src) replicated =
    let one = copy_of-Backs bytes src in
    let block = Backs bytes (some src) in
    let copied = λ (s : ℕ). if ltb s 2 then some (copy_of bytes src) else none in
    if-both (Filled bytes (some src) replicated) (ltb nsock 2) (no_replicas nsock) _
      (λ t. no_replicas-Filled bytes (some src) replicated nsock (ground arith))
      (λ _.
        if-both (Filled bytes (some src) replicated) (alloc 0 && alloc 1)
          (record { nsock = nsock; dst = copied }) (no_replicas 1)
          (λ _ h s.
            let shared =
              if-both block replicated (some (copy_of bytes src)) (some (copy_of bytes src))
                (λ _. one) (λ _. one) in
            if-both block (ltb s 2) (or_shared (copied s) _) _
              (λ t.
                or_shared-Backs bytes (some src) (copied s) _
                  (if-both block (ltb s 2) (some (copy_of bytes src)) none (λ _. one)
                    (λ k. absurd (ground arith)))
                  shared)
              (λ _. shared))
          (λ _. no_replicas-Filled bytes (some src) replicated 1 (omega arith)))

pub leb_lem : (n : ℕ) → leb 2 n ≡ true → 2 ≤ n
leb_lem n q = ground arith

-- A call of sock_fill never raises nsock_ above 1 again.
pub sock_fill-down :
    (nsock : ℕ) (alloc : ℕ → Bool) (bytes : ℕ) (src : Option Bytes)
    → 2 ≤ (sock_fill nsock alloc bytes src).nsock
    → 2 ≤ nsock
sock_fill-down nsock alloc bytes none = λ h. h
sock_fill-down nsock alloc bytes (some src) =
    let P = λ (f : Replicas). 2 ≤ f.nsock → 2 ≤ nsock in
    if-both P (ltb nsock 2) (no_replicas nsock) _ (λ _ h. h)
      (λ _.
        if-both P (alloc 0 && alloc 1) (record { nsock = nsock; dst = _ }) (no_replicas 1)
          (λ _ h. h) (λ _ h. absurd (omega (arith, h))))

pub none_not_some {ℓ} : {A : Type ℓ} (x : A) → ¬ (none ≡ some x)
none_not_some x q = cc

pub not_missing {ℓ} : {A : Type ℓ} (x y : A) → ¬ ((some x ≡ none) ⊎ (some y ≡ none))
not_missing x y n = elim n [ inl q ↦ none_not_some x (sym q) | inr q ↦ none_not_some y (sym q) ]

pub not_null-none :
    (e : Engine) (a b : ℕ) (w13 w2 p q : Option Bytes)
    → (w13 ≡ none) ⊎ (w2 ≡ none)
    → Backs a w13 p
    → Backs b w2 q
    → not_null e p q ≡ none
unfolding Backs
not_null-none e a b w13 w2 none q n h k = refl
not_null-none e a b w13 w2 (some p) none n h k = refl
not_null-none e a b none w2 (some p) (some q) n h k = absurd h
not_null-none e a b (some x) none (some p) (some q) n h k = absurd k
not_null-none e a b (some x) (some y) (some p) (some q) n h k = absurd (not_missing x y n)

pub not_null-some :
    (e : Engine) (a b : ℕ) (w13 w2 : Bytes) (p q : Option Bytes)
    → Backs a (some w13) p
    → Backs b (some w2) q
    → not_null e p q ≡ some e
unfolding Backs
not_null-some e a b w13 w2 none q h k = absurd h
not_null-some e a b w13 w2 (some p) none h k = absurd k
not_null-some e a b w13 w2 (some p) (some q) h k = refl
