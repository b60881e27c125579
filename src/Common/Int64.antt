-- ===== src/Common/Int64.antt =====
-- Go's int64: an integer between -2^63 and 2^63 - 1, whose operations wrap around.
use Prim.Native.Nat.{ℕ, ◌+◌, ◌-◌, ◌%◌, ◌≤◌, ◌<◌, ◌^◌}
use mathlib.Core.Path.{◌≡◌}
use native.Mathlib.Omega.{arith}
use payment_module.Common.Tests.{ltb, if◌then◌else◌}
use payment_module.Common.Int.{ℤ, pos, negsuc, pos_part, neg_part, ◌+ℤ◌, ◌-ℤ◌}

abbrev pub Int64 : Type 0
Int64 = ℤ

abbrev pub modulus : ℕ
modulus = 2 ^ 64

abbrev pub half_modulus : ℕ
half_modulus = 2 ^ 63

-- The bit pattern of an integer, and the signed reading of a bit pattern.
to_word : ℤ → ℕ
to_word z = (pos_part z % modulus + (modulus - neg_part z % modulus)) % modulus

of_word : ℕ → Int64
of_word u = if ltb u half_modulus then pos u else negsuc (modulus - u - 1)

pub wrap : ℤ → Int64
unfolding to_word of_word
wrap z = of_word (to_word z)

unfoldable pub add : Int64 → Int64 → Int64
unfolding wrap
add a b = wrap (a +ℤ b)

unfoldable pub sub : Int64 → Int64 → Int64
unfolding wrap
sub a b = wrap (a -ℤ b)

pub add_exact : (a b : ℕ) → a + b < half_modulus → add (pos a) (pos b) ≡ pos (a + b)
unfolding add
add_exact a b h = ground arith

pub sub_exact : (a b : ℕ) → b ≤ a → a < half_modulus → sub (pos a) (pos b) ≡ pos (a - b)
unfolding sub
sub_exact a b h k = ground arith
