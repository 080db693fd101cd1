-- ===== src/Moe/Kernels.antt =====
-- What MOE takes from ggml and llamafile, whose sources are not part of the repository: the types,
-- the conversions of rows and the dot product. A row is a function of its index: of blocks in
-- memory, of floats when it is converted.
use xiaotu_moe.Base.{
  ℕ, ◌+◌, ◌-◌, ◌*◌, ◌/◌, ◌≤◌, ◌<◌, ◌≡◌, ◌&&◌, Bool, true, ltb, leb, if◌then◌else◌,
}

pub record Ggml : Type 1 where
  pub Float : Type 0
  pub one : Float
  pub add : Float → Float → Float
  pub mul : Float → Float → Float
  pub div : Float → Float → Float
  pub neg : Float → Float
  pub exp : Float → Float
  pub DataType : Type 0
  pub same : DataType → DataType → Bool
  pub same_eq : (a b : DataType) → same a b ≡ true → a ≡ b
  pub same_refl : (a : DataType) → same a a ≡ true
  pub Block : Type 0
  pub blck_size : DataType → ℕ
  pub blck_size_pos : (t : DataType) → 1 ≤ blck_size t
  pub vec_dot_type : DataType → DataType
  pub blck_size-vec_dot_type : (t : DataType) → blck_size (vec_dot_type t) ≡ blck_size t
  -- to_float and from_float, of the whole row.
  pub to_float : DataType → (ℕ → Block) → ℕ → Float
  pub from_float : DataType → (ℕ → Float) → ℕ → Block
  -- A pointer into a row is read as the row from there on.
  pub to_float_shift :
      (t : DataType) (x : ℕ → Block) (c h : ℕ)
      → to_float t (λ b. x (c + b)) h ≡ to_float t x (c * blck_size t + h)
  -- A block is made from its own elements, and from a pointer into a row as from the row.
  pub from_float_reads :
      (t : DataType) (x y : ℕ → Float) (b : ℕ)
      → ((h : ℕ) → h < blck_size t → x (b * blck_size t + h) ≡ y (b * blck_size t + h))
      → from_float t x b ≡ from_float t y b
  pub from_float_shift :
      (t : DataType) (x : ℕ → Float) (c b : ℕ)
      → from_float t (λ h. x (c * blck_size t + h)) b ≡ from_float t x (c + b)
  -- One output of llamafile_sgemm: a row of weights times a row of activations, of n blocks.
  pub dot : DataType → DataType → ℕ → (ℕ → Block) → (ℕ → Block) → Float
  pub dot_reads :
      (w v : DataType) (n : ℕ) (a x y : ℕ → Block)
      → ((b : ℕ) → b < n → x b ≡ y b)
      → dot w v n a x ≡ dot w v n a y

-- Whether i is one of the n numbers from `first` on.
abbrev pub inside : ℕ → ℕ → ℕ → Bool
inside first n i = leb first i && ltb i (first + n)

-- A rectangle of a buffer written: `rows` rows from r, `cols` columns from c.
abbrev pub write {ℓ} : {A : Type ℓ} → (r rows c cols : ℕ) → (ℕ → ℕ → A) → (ℕ → ℕ → A) → ℕ → ℕ → A
write r rows c cols val old i j = if inside r rows i && inside c cols j then val i j else old i j

module _ (g : Ggml) where
  -- llamafile_sgemm(m, n, k, A, B, C): C(r + j, c + i) is row i of A times row r + j of B.
  abbrev pub sgemm :
      (m n k : ℕ)
      → (w v : g.DataType) → (ℕ → ℕ → g.Block)
      → (ℕ → ℕ → g.Block)
      → (r c : ℕ) → (ℕ → ℕ → g.Float)
      → ℕ
      → ℕ
      → g.Float
  sgemm m n k w v a b r c = write r n c m (λ j i. g.dot w v k (a (i - c)) (b j))

  -- from_float(x + s, dst + d, n, t) on the rows r to r + rows - 1, d counted in blocks.
  abbrev pub convert :
      (t : g.DataType)
      → (r rows s n d : ℕ) → (ℕ → ℕ → g.Float)
      → (ℕ → ℕ → g.Block)
      → ℕ
      → ℕ
      → g.Block
  convert t r rows s n d x =
      write r rows d (n / g.blck_size t) (λ j b. g.from_float t (λ h. x j (s + h)) (b - d))
