-- ===== src/Base/Int.antt =====
-- Go's `int`, 64 bits wide, as its bit pattern: a number below 2 ^ 64 in two's complement.
use Prim.Native.Nat.{ℕ, ◌+◌, ◌%◌, ◌^◌, ◌<◌}
use mathlib.Core.Path.{◌≡◌}
use mathlib.Core.Bool.{Bool}
use native.Mathlib.Omega.{arith}
use goiardi.Base.Tests.{ltb}

abbrev pub int_bound : ℕ
int_bound = 2 ^ 63

-- `a < b` on `int`: the upper half of the patterns is negative.
unfoldable pub int_ltb : ℕ → ℕ → Bool
int_ltb a b = ltb ((a + 2 ^ 63) % 2 ^ 64) ((b + 2 ^ 63) % 2 ^ 64)

-- `a + 1` on `int` wraps around.
unfoldable pub int_suc : ℕ → ℕ
int_suc a = (a + 1) % 2 ^ 64

-- On patterns that stand for no negative number the order is that of the numbers.
pub int_ltb-eq-ltb : (a b : ℕ) → a < int_bound → b < int_bound → int_ltb a b ≡ ltb a b
unfolding int_ltb
int_ltb-eq-ltb a b h k = ground arith

pub int_suc-eq-add_one : (a : ℕ) → a < int_bound → int_suc a ≡ a + 1
unfolding int_suc
int_suc-eq-add_one a h = omega arith
