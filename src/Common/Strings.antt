-- ===== src/Common/Strings.antt =====
-- The functions of Go's package strings that the program calls. Upper case is exact where the
-- result is an ASCII letter, which is all that the callers compare with.
use Prim.Native.Char.{Char, code}
use Prim.Native.String.{String, [] as end_of_text, ◌∷◌ as ◌:>◌}
use mathlib.Core.Bool.{Bool, true, false, ◌&&◌, ◌||◌}
use mathlib.Core.List.{List, [], ◌∷◌}
use Prim.Native.Nat.{ℕ}
use payment_module.Common.Tests.{leb, ◌==◌, if◌then◌else◌}
use payment_module.Common.Texts.{is_empty}

-- unicode.IsSpace
unfoldable pub is_space : Char → Bool
is_space c =
    (leb 9 (code c) && leb (code c) 13)
    || code c == 32
    || code c == 0x85
    || code c == 0xa0
    || code c == 0x1680
    || (leb 0x2000 (code c) && leb (code c) 0x200a)
    || code c == 0x2028
    || code c == 0x2029
    || code c == 0x202f
    || code c == 0x205f
    || code c == 0x3000

unfoldable pub trim_left : String → String
unfolding is_space
trim_left end_of_text = ""
trim_left (c :> s) = if is_space c then trim_left s else (c :> s)

unfoldable pub trim_right : String → String
unfolding is_space
trim_right end_of_text = ""
trim_right (c :> s) =
    let rest = trim_right s in if is_empty rest && is_space c then "" else (c :> rest)

-- strings.TrimSpace
unfoldable pub trim_space : String → String
unfolding is_space trim_left trim_right
trim_space s = trim_right (trim_left s)

-- The characters that Unicode upper-cases to an ASCII letter; the last two are a dotless i and a
-- long s.
abbrev capitals : List (ℕ × Char)
capitals =
    (b'a', "A")
    ∷ (b'b', "B")
    ∷ (b'c', "C")
    ∷ (b'd', "D")
    ∷ (b'e', "E")
    ∷ (b'f', "F")
    ∷ (b'g', "G")
    ∷ (b'h', "H")
    ∷ (b'i', "I")
    ∷ (b'j', "J")
    ∷ (b'k', "K")
    ∷ (b'l', "L")
    ∷ (b'm', "M")
    ∷ (b'n', "N")
    ∷ (b'o', "O")
    ∷ (b'p', "P")
    ∷ (b'q', "Q")
    ∷ (b'r', "R")
    ∷ (b's', "S")
    ∷ (b't', "T")
    ∷ (b'u', "U")
    ∷ (b'v', "V")
    ∷ (b'w', "W")
    ∷ (b'x', "X")
    ∷ (b'y', "Y")
    ∷ (b'z', "Z")
    ∷ (0x131, "I")
    ∷ (0x17f, "S")
    ∷ []

capital_in : List (ℕ × Char) → Char → Char
capital_in [] c = c
capital_in ((n, up) ∷ more) c = if code c == n then up else capital_in more c

-- strings.ToUpper
unfoldable pub to_upper : String → String
unfolding capital_in
to_upper end_of_text = ""
to_upper (c :> s) = capital_in capitals c :> to_upper s

-- strings.HasPrefix
unfoldable pub has_prefix : String → String → Bool
has_prefix s end_of_text = true
has_prefix end_of_text (d :> p) = false
has_prefix (c :> s) (d :> p) = code c == code d && has_prefix s p

-- strings.Cut(s, sep): the parts around the first separator, and whether there is one.
unfoldable pub cut : (sep : Char) → String → String × String × Bool
cut sep end_of_text = ("", "", false)
cut sep (c :> s) =
    let (before, after, found) = cut sep s in
    if code c == code sep then ("", s, true) else (c :> before, after, found)

abbrev grow : Char → List String → List String
grow c [] = (c :> "") ∷ []
grow c (part ∷ parts) = (c :> part) ∷ parts

-- strings.Split(s, sep) for one character
unfoldable pub split : (sep : Char) → String → List String
split sep end_of_text = "" ∷ []
split sep (c :> s) = let rest = split sep s in if code c == code sep then "" ∷ rest else grow c rest
