-- ===== src/Base/Int.antt =====
-- The C `int`, where it can be negative: lengths that come from a subtraction, and return codes.
use Prim.Native.Nat.{ℕ, ◌-◌}
use c_router.Base.Tests.{leb, if◌then◌else◌}

-- `negsuc n` is -(n + 1).
pub data ℤ : Type 0 where
  pos : ℕ → ℤ
  negsuc : ℕ → ℤ

abbrev pub pos_part : ℤ → ℕ
pos_part (pos n) = n
pos_part (negsuc n) = 0

-- a - b, as an integer.
abbrev pub sub_ℕ : ℕ → ℕ → ℤ
sub_ℕ a b = if leb b a then pos (a - b) else negsuc (b - a - 1)

abbrev pub minus_one : ℤ
minus_one = negsuc 0
