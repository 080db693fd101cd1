-- ===== src/Base/Words.antt =====
-- Unsigned machine words as native numbers, with their wrap-around.
use Prim.Native.Nat.{ℕ, ◌+◌, ◌-◌, ◌%◌, ◌^◌, ◌≤◌, ◌<◌}
use mathlib.Core.Path.{◌≡◌}
use native.Mathlib.Omega.{arith}

-- `x + 1`, `x - 1` and `x - y` on size_t and uint64_t; `-` on ℕ stops at 0, so the modulus is
-- added first.
abbrev pub inc64 : ℕ → ℕ
inc64 x = (x + 1) % 2 ^ 64

abbrev pub dec64 : ℕ → ℕ
dec64 x = (x + 2 ^ 64 - 1) % 2 ^ 64

abbrev pub sub64 : ℕ → ℕ → ℕ
sub64 x y = (x + 2 ^ 64 - y) % 2 ^ 64

pub sub64_of_le : (x y : ℕ) → y ≤ x → x < 2 ^ 64 → sub64 x y ≡ x - y
sub64_of_le x y h b = omega arith

-- Below its subtrahend a difference wraps, to a number that no range reaches.
pub sub64_of_lt : (x y n : ℕ) → x < y → y + n ≤ 2 ^ 64 → n ≤ sub64 x y
sub64_of_lt x y n h b = omega arith
