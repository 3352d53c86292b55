-- ===== src/Prelude/Word.antt =====
-- Go's `int` and `int64`: two's complement on 64 bits. A sum, difference or product wraps.
use Prim.Native.Nat.{ℕ, ◌-◌, ◌%◌, ◌^◌, ◌<◌, ◌≤◌}
use mathlib.Core.Path.{◌≡◌}
use native.Mathlib.Omega.{arith}
use eve_industry_planner_sta.Prelude.Tests.{ltb, if◌then◌else◌}
use eve_industry_planner_sta.Prelude.Int.{ℤ, pos, negsuc, pos_part, neg_part, ◌+ℤ◌, ◌-ℤ◌, ◌*ℤ◌}

abbrev pub min_int64 : ℤ
min_int64 = negsuc (2 ^ 63 - 1)

abbrev pub max_int64 : ℤ
max_int64 = pos (2 ^ 63 - 1)

abbrev pub InInt64 : ℤ → Type 0
InInt64 z = (pos_part z < 2 ^ 63) × (neg_part z ≤ 2 ^ 63)

-- The bit pattern of an integer on 64 bits, and the integer that a pattern stands for.
to_bits : ℤ → ℕ
to_bits (pos n) = n % 2 ^ 64
to_bits (negsuc n) = 2 ^ 64 - 1 - n % 2 ^ 64

of_bits : ℕ → ℤ
of_bits u = if ltb u (2 ^ 63) then pos u else negsuc (2 ^ 64 - 1 - u)

unfoldable pub wrap64 : ℤ → ℤ
unfolding to_bits of_bits
wrap64 z = of_bits (to_bits z)

unfoldable pub add64 : ℤ → ℤ → ℤ
unfolding wrap64 ◌+ℤ◌
add64 a b = wrap64 (a +ℤ b)

unfoldable pub sub64 : ℤ → ℤ → ℤ
unfolding wrap64 ◌-ℤ◌
sub64 a b = wrap64 (a -ℤ b)

unfoldable pub mul64 : ℤ → ℤ → ℤ
unfolding wrap64 ◌*ℤ◌
mul64 a b = wrap64 (a *ℤ b)

-- A value in range is kept.
pub wrap64-InInt64 : (z : ℤ) → InInt64 z → wrap64 z ≡ z
unfolding wrap64
wrap64-InInt64 (pos n) h = ground arith
wrap64-InInt64 (negsuc n) h = ground arith

-- Every result is in range.
pub wrap64_range : (z : ℤ) → InInt64 (wrap64 z)
unfolding wrap64
wrap64_range (pos n) = ground arith
wrap64_range (negsuc n) = ground arith
