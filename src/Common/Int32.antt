-- ===== src/Common/Int32.antt =====
-- Go's int32: an integer between -2^31 and 2^31 - 1, whose sums wrap around.
use Prim.Native.Nat.{ℕ, ◌+◌, ◌-◌, ◌%◌, ◌<◌, ◌^◌}
use mathlib.Core.Path.{◌≡◌}
use native.Mathlib.Omega.{arith}
use payment_module.Common.Tests.{ltb, if◌then◌else◌}
use payment_module.Common.Int.{ℤ, pos, negsuc, pos_part, neg_part, ◌+ℤ◌}

abbrev pub Int32 : Type 0
Int32 = ℤ

abbrev modulus : ℕ
modulus = 2 ^ 32

to_word : ℤ → ℕ
to_word z = (pos_part z % modulus + (modulus - neg_part z % modulus)) % modulus

of_word : ℕ → Int32
of_word u = if ltb u (2 ^ 31) then pos u else negsuc (modulus - u - 1)

-- The conversion `int32(n)`.
unfoldable pub int32 : ℤ → Int32
unfolding to_word of_word
int32 z = of_word (to_word z)

unfoldable pub add : Int32 → Int32 → Int32
unfolding int32
add a b = int32 (a +ℤ b)

pub add-int32_exact : (a b : ℕ) → a + b < 2 ^ 31 → add (pos a) (int32 (pos b)) ≡ pos (a + b)
unfolding add int32
add-int32_exact a b h = ground arith
