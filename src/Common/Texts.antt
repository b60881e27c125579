-- ===== src/Common/Texts.antt =====
-- Equality of texts, which the program only compares and joins.
use Prim.Native.String.{String}
use mathlib.Core.Bool.{Bool}
pub use text.Mathlib.Text.{◌==◌ as str_eq}
pub use text.Mathlib.TextEquality.{eq_iff}

-- s == ""
abbrev pub is_empty : String → Bool
is_empty s = str_eq s ""
