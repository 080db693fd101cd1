-- ===== src/MoeV2/Shards.antt =====
-- The NUMA shards of the weights: shard_fill_w13 and shard_fill_w2 (moe_v2.hpp, lines 976-1034).
-- Memory is a function of the offset. The allocation itself (mmap) either gives a region for
-- every node or the constructor falls back to other copies.
use xiaotu_moe.Base.{
  ◌⊎◌, inl, inr, ℕ, ◌+◌, ◌-◌, ◌*◌, ◌/◌, ◌≤◌, ◌<◌, ◌≡◌, refl, arith, ltb, leb, ◌&&◌, if◌then◌else◌,
  if-both, loop, loop-writes, suc,
}
use native.Mathlib.Nat.{mul-le-mul_right}
use xiaotu_moe.MoeV2.Spans.{chunk_span}
use xiaotu_moe.MoeV2.Partition.{Holds}

abbrev pub memcpy : ℕ → ℕ → (ℕ → ℕ) → (ℕ → ℕ) → ℕ → ℕ
memcpy offset len src dst o = if leb offset o && ltb o (offset + len) then src o else dst o

-- The rows that node n of ns owns, of `dim`.
abbrev pub row_start : ℕ → ℕ → ℕ → ℕ
row_start dim ns n = n * dim / ns

-- The region of node n for the gate and up rows, E experts of 2 * I rows of H / 2 bytes.
abbrev pub shard_fill_w13 : (experts inter hidden ns n : ℕ) → (ℕ → ℕ) → (ℕ → ℕ) → ℕ → ℕ
shard_fill_w13 experts inter hidden ns n src dst =
    let rowbytes = hidden / 2 in
    let stride = 2 * inter * rowbytes in
    let rs = row_start inter ns n in
    let cbytes = (row_start inter ns (n + 1) - rs) * rowbytes in
    loop experts
      (λ e d.
        memcpy (e * stride + (inter + rs) * rowbytes) cbytes src
          (memcpy (e * stride + rs * rowbytes) cbytes src d))
      dst

-- The region of node n for the down rows.
abbrev pub shard_fill_w2 : (experts hidden inter ns n : ℕ) → (ℕ → ℕ) → (ℕ → ℕ) → ℕ → ℕ
shard_fill_w2 experts hidden inter ns n src dst =
    let rowbytes = inter / 2 in
    let stride = hidden * rowbytes in
    let rs = row_start hidden ns n in
    let cbytes = (row_start hidden ns (n + 1) - rs) * rowbytes in
    loop experts (λ e d. memcpy (e * stride + rs * rowbytes) cbytes src d) dst

memcpy-keeps :
    (offset len o : ℕ) (src dst : ℕ → ℕ) → dst o ≡ src o → memcpy offset len src dst o ≡ src o
memcpy-keeps offset len o src dst h =
    if-both (λ x. x ≡ src o) (leb offset o && ltb o (offset + len)) (src o) (dst o) (λ _. refl)
      (λ _. h)

memcpy-writes :
    (offset len o : ℕ) (src dst : ℕ → ℕ)
    → offset ≤ o
    → o < offset + len
    → memcpy offset len src dst o ≡ src o
memcpy-writes offset len o src dst lo hi =
    if-both (λ x. x ≡ src o) (leb offset o && ltb o (offset + len)) (src o) (dst o) (λ _. refl)
      (λ t. absurd (ground arith))

-- Byte k of row r lies within the bytes of rows s to t - 1.
row-bytes :
    (s t r rowbytes k : ℕ)
    → s ≤ r
    → r < t
    → k < rowbytes
    → (s * rowbytes ≤ r * rowbytes + k) × (r * rowbytes + k < s * rowbytes + (t - s) * rowbytes)
row-bytes s t r rowbytes k lo hi kb =
    let below = mul-le-mul_right rowbytes lo in
    let above = mul-le-mul_right {m = suc r} {n = s + (t - s)} rowbytes (omega arith) in
    (omega arith, omega arith)

-- Two copies per expert, from the source's offsets to the same ones.
copies-hold :
    (experts e o len : ℕ) (a b : ℕ → ℕ) (src dst : ℕ → ℕ)
    → e < experts
    → ((a e ≤ o) × (o < a e + len)) ⊎ ((b e ≤ o) × (o < b e + len))
    → loop experts (λ i d. memcpy (b i) len src (memcpy (a i) len src d)) dst o ≡ src o
copies-hold experts e o len a b src dst el h =
    loop-writes (λ d. d o) (src o) (λ i d. memcpy (b i) len src (memcpy (a i) len src d)) experts
      (λ i _ d k.
        memcpy-keeps (b i) len o src (memcpy (a i) len src d) (memcpy-keeps (a i) len o src d k))
      e
      (λ d. elim h [
        | inl (lo, hi) ↦
            memcpy-keeps (b e) len o src (memcpy (a e) len src d)
              (memcpy-writes (a e) len o src d lo hi)
        | inr (lo, hi) ↦ memcpy-writes (b e) len o src (memcpy (a e) len src d) lo hi
      ])
      dst el

-- For every expert, every row of `inter` that node n owns and every byte of it, the node's region
-- holds what the source holds there, in the gate row and in the up row.
pub shard_fill_w13-owned :
    (experts inter hidden ns n e r k : ℕ) (src dst : ℕ → ℕ)
    → e < experts
    → Holds r (chunk_span inter ns n)
    → k < hidden / 2
    → (shard_fill_w13 experts inter hidden ns n src dst
          (e * (2 * inter * (hidden / 2)) + (r * (hidden / 2) + k))
        ≡ src (e * (2 * inter * (hidden / 2)) + (r * (hidden / 2) + k)))
      × (shard_fill_w13 experts inter hidden ns n src dst
            (e * (2 * inter * (hidden / 2)) + ((inter + r) * (hidden / 2) + k))
          ≡ src (e * (2 * inter * (hidden / 2)) + ((inter + r) * (hidden / 2) + k)))
shard_fill_w13-owned experts inter hidden ns n e r k src dst el (lo, hi) kb =
    let low =
      row-bytes (row_start inter ns n) (row_start inter ns (n + 1)) r (hidden / 2) k lo
        (omega arith) kb in
    (
      copies-hold experts e (e * (2 * inter * (hidden / 2)) + (r * (hidden / 2) + k))
          ((row_start inter ns (n + 1) - row_start inter ns n) * (hidden / 2))
          (λ i. i * (2 * inter * (hidden / 2)) + row_start inter ns n * (hidden / 2))
          (λ i. i * (2 * inter * (hidden / 2)) + (inter + row_start inter ns n) * (hidden / 2)) src
          dst el (inl (omega (arith, low.0), omega (arith, low.1))),
      copies-hold experts e (e * (2 * inter * (hidden / 2)) + ((inter + r) * (hidden / 2) + k))
          ((row_start inter ns (n + 1) - row_start inter ns n) * (hidden / 2))
          (λ i. i * (2 * inter * (hidden / 2)) + row_start inter ns n * (hidden / 2))
          (λ i. i * (2 * inter * (hidden / 2)) + (inter + row_start inter ns n) * (hidden / 2)) src
          dst el (inr (omega (arith, low.0), omega (arith, low.1))),
    )

-- For every expert, every row of `hidden` that node n owns and every byte of it, the node's region
-- of the down block holds what the source holds there.
pub shard_fill_w2-owned :
    (experts hidden inter ns n e r k : ℕ) (src dst : ℕ → ℕ)
    → e < experts
    → Holds r (chunk_span hidden ns n)
    → k < inter / 2
    → shard_fill_w2 experts hidden inter ns n src dst
        (e * (hidden * (inter / 2)) + (r * (inter / 2) + k))
      ≡ src (e * (hidden * (inter / 2)) + (r * (inter / 2) + k))
shard_fill_w2-owned experts hidden inter ns n e r k src dst el (lo, hi) kb =
    let low =
      row-bytes (row_start hidden ns n) (row_start hidden ns (n + 1)) r (inter / 2) k lo
        (omega arith) kb in
    loop-writes (λ d. d (e * (hidden * (inter / 2)) + (r * (inter / 2) + k)))
      (src (e * (hidden * (inter / 2)) + (r * (inter / 2) + k)))
      (λ i d.
        memcpy (i * (hidden * (inter / 2)) + row_start hidden ns n * (inter / 2))
          ((row_start hidden ns (n + 1) - row_start hidden ns n) * (inter / 2)) src d)
      experts (λ i _ d h. memcpy-keeps _ _ _ src d h) e
      (λ d. memcpy-writes _ _ _ src d (omega (arith, low.0)) (omega (arith, low.1))) dst el
