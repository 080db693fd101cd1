-- ===== src/SharedBuffer/State.antt =====
-- SharedMemBuffer: alloc, dealloc and arrange (shared_mem_buffer.cpp, lines 13-56).
use xiaotu_moe.Base.{ℕ, ◌+◌, ◌%◌, ◌^◌, ◌==◌, leb, ltb, if◌then◌else◌, List, [], ◌∷◌, update}

-- A request: the pointer variable to fill, by its number, and the bytes.
pub record Request : Type 0 where
  pub target : ℕ
  pub bytes : ℕ

-- `pointers` is the memory of the pointer variables; `history` holds hist_requests_: the
-- map's objects in increasing order, each with its requests in the order of the calls.
pub record Entry : Type 0 where
  pub object : ℕ
  pub requests : List Request

pub record Buffer : Type 0 where
  pub base : ℕ
  pub size : ℕ
  pub history : List Entry
  pub pointers : ℕ → ℕ

abbrev pub init : (ℕ → ℕ) → Buffer
init pointers = record { base = 0; size = 0; history = []; pointers = pointers }

-- The sum is a uint64_t.
abbrev pub request_size : List Request → ℕ
request_size [] = 0
request_size (r ∷ rs) = (r.bytes + request_size rs) % 2 ^ 64

abbrev pub arrange : ℕ → ℕ → List Request → (ℕ → ℕ) → ℕ → ℕ
arrange base offset [] p = p
arrange base offset (r ∷ rs) p =
    arrange base ((offset + r.bytes) % 2 ^ 64) rs (update p r.target (base + offset))

abbrev pub arrange_all : ℕ → List Entry → (ℕ → ℕ) → ℕ → ℕ
arrange_all base [] p = p
arrange_all base (e ∷ es) p = arrange_all base es (arrange base 0 e.requests p)

-- hist_requests_[object].push_back(requests).
abbrev pub insert : Entry → List Entry → List Entry
insert x [] = x ∷ []
insert x (e ∷ es) = let rest = insert x es in if leb e.object x.object then e ∷ rest else x ∷ e ∷ es

-- `fresh` is what aligned_alloc returns.
abbrev pub alloc : ℕ → ℕ → List Request → Buffer → Buffer
alloc fresh object requests b =
    let size = request_size requests in
    let grown = ltb b.size size in
    let base = if grown then fresh else b.base in
    record {
      base = base;
      size = if grown then size else b.size;
      history = insert (record { object = object; requests = requests }) b.history;
      pointers =
          arrange base 0 requests
            (if grown then arrange_all base b.history b.pointers else b.pointers);
    }

abbrev pub erase : ℕ → List Entry → List Entry
erase object [] = []
erase object (e ∷ es) = let rest = erase object es in if e.object == object then rest else e ∷ rest

abbrev pub dealloc : ℕ → Buffer → Buffer
dealloc object b = record b { history = erase object b.history }
