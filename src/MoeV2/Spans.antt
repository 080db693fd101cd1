-- ===== src/MoeV2/Spans.antt =====
-- How forward_many_nsliced cuts rows into jobs (xiaotu-moe/csrc/moe/moe_v2.hpp, lines 658-707,
-- 733-742, 766-769, 802-811, 821-824). The signed products fit an int, or the source is undefined.
use xiaotu_moe.Base.{ℕ, ◌+◌, ◌-◌, ◌*◌, ◌/◌, min, max, ltb, leb, if◌then◌else◌, Bool, ◌&&◌, not}

-- Rows n0 to n1 - 1.
pub record Span : Type 0 where
  pub n0 : ℕ
  pub n1 : ℕ

abbrev pub at_least_one : ℕ → ℕ
at_least_one x = if ltb x 1 then 1 else x

-- nc_gu and nc_d: `override` is the environment variable's number, 0 when there is none; `dim` is
-- inter or hidden, `na` the number of active experts.
abbrev pub chunk_count : ℕ → ℕ → ℕ → ℕ → ℕ
chunk_count override nthreads na dim =
    if ltb 0 override
    then override
    else if ltb 1 nthreads
    then at_least_one (min (nthreads * 4 / max 1 na) (at_least_one (dim / 128)))
    else 1

-- subA and subB, `ns` being nshard_. `disabled` is XIAOTU_MOE_SHARDSPLIT=0.
abbrev pub sub_count : ℕ → Bool → ℕ → ℕ → ℕ → ℕ → ℕ
sub_count override disabled ns nthreads na dim =
    if ltb 0 override
    then override
    else if leb 2 ns && (ltb 1 nthreads && not disabled)
    then at_least_one (min ((max 1 (nthreads / ns) + na - 1) / na) (max 1 (dim / ns / 32)))
    else 1

-- Chunk c of nc.
abbrev pub chunk_span : ℕ → ℕ → ℕ → Span
chunk_span dim nc c = record { n0 = c * dim / nc; n1 = min ((c + 1) * dim / nc) dim }

-- Part s of `sub` of the rows of a span, each of `sep` rows.
abbrev pub sep_of : ℕ → ℕ → ℕ
sep_of rows sub = (rows + sub - 1) / sub

abbrev pub sub_span : Span → ℕ → ℕ → Span
sub_span p sub s =
    if ltb 1 sub
    then record {
      n0 = p.n0 + s * sep_of (p.n1 - p.n0) sub;
      n1 = min p.n1 (p.n0 + s * sep_of (p.n1 - p.n0) sub + sep_of (p.n1 - p.n0) sub);
    }
    else p

-- Part s of the rows that node n of ns owns.
abbrev pub shard_span : ℕ → ℕ → ℕ → ℕ → ℕ → Span
shard_span dim ns sub n s = sub_span (chunk_span dim ns n) sub s
