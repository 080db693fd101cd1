-- ===== src/Layers/Batches.antt =====
-- How the layers cut a batch into groups: MOE::forward (moe.cpp, lines 764-797), MLP::forward
-- (mlp.cpp, lines 229-236) and Linear::forward (linear.cpp, lines 117-124). Lengths are not
-- negative.
use xiaotu_moe.Base.{
  ℕ, zero, suc, ◌+◌, ◌-◌, ◌==◌, min, ltb, if◌then◌else◌, List, [], ◌∷◌, ◌++◌, Option, none, some,
  range, ◌≤◌,
}

-- A call of forward_one on a token, or of forward_many on `len` tokens from `pos` on.
pub data Batch : Type 0 where
  single : (token : ℕ) → Batch
  group : (pos len : ℕ) → Batch

abbrev pub singles : ℕ → ℕ → List Batch
singles pos zero = []
singles pos (suc n) = single pos ∷ singles (suc pos) n

abbrev pub and_then : Batch → Option (List Batch) → Option (List Batch)
and_then b none = none
and_then b (some bs) = some (b ∷ bs)

-- The while loop of MOE::forward on fuel, from current_pos and remaining_batch_size; none when the
-- fuel runs out.
abbrev pub rounds : (fuel group_min_len group_max_len pos remaining : ℕ) → Option (List Batch)
rounds zero group_min_len group_max_len pos remaining = if remaining == 0 then some [] else none
rounds (suc fuel) group_min_len group_max_len pos remaining =
    let forward_len = min group_max_len remaining in
    let rest =
      rounds fuel group_min_len group_max_len (pos + forward_len) (remaining - forward_len) in
    if remaining == 0
    then some []
    else if ltb remaining group_min_len
    then some (singles pos remaining)
    else and_then (group pos forward_len) rest

-- MOE::forward: batch_size_tensor[0] takes the place of qlen.
abbrev pub forward : (fuel group_min_len group_max_len qlen batch_size : ℕ) → Option (List Batch)
forward fuel group_min_len group_max_len qlen batch_size =
    rounds fuel group_min_len group_max_len 0 (if qlen == batch_size then qlen else batch_size)

-- MLP::forward and Linear::forward, which call themselves on the tokens that are left.
abbrev pub forward_rec : (fuel group_max_len pos qlen : ℕ) → Option (List Batch)
forward_rec zero group_max_len pos qlen = if qlen == 0 then some [] else none
forward_rec (suc fuel) group_max_len pos qlen =
    let forward_len = min qlen group_max_len in
    let rest = forward_rec fuel group_max_len (pos + forward_len) (qlen - forward_len) in
    if qlen == 0 then some [] else and_then (group pos forward_len) rest

-- The tokens that a sequence of calls works on, in order.
abbrev pub tokens : List Batch → List ℕ
tokens [] = []
tokens (single token ∷ bs) = token ∷ tokens bs
tokens (group pos len ∷ bs) = range pos len ++ tokens bs

-- No call takes more tokens than the group buffers hold, nor none.
abbrev pub Fits : ℕ → Batch → Type 0
Fits group_max_len (single token) = Unit
Fits group_max_len (group pos len) = (1 ≤ len) × (len ≤ group_max_len)
