-- ===== src/Common/Separators.antt =====
-- Texts that hold no separator, and the parts that a separator cuts a text into.
use Prim.Native.Char.{Char, code}
use Prim.Native.String.{String, ◌++◌ as ◌<>◌, [] as end_of_text, ◌∷◌ as ◌:>◌}
use text.Mathlib.TextLemmas.{head-eq_of_cons-eq, tail-eq_of_cons-eq, nil-append, cons-append}
use mathlib.Core.Path.{◌≡◌, refl, sym, ap, ◌∙◌}
use mathlib.Core.Bool.{Bool, true, false, ◌&&◌, ◌||◌}
use native.Mathlib.Omega.{arith}
use payment_module.Common.Tests.{if-either, ◌==◌}
use payment_module.Common.Texts.{is_empty}
use payment_module.Common.Strings.{cut, trim_left, trim_right, is_space}

unfoldable pub has_char : Char → String → Bool
has_char d end_of_text = false
has_char d (c :> s) = code c == code d || has_char d s

pub cut-before : (d : Char) (s : String) → has_char d (cut d s).0 ≡ false
unfolding has_char cut
cut-before d end_of_text = refl
cut-before d (c :> s) =
    if-either (λ (t : String × String × Bool). has_char d t.0 ≡ false) (code c == code d)
      ("", s, true) (c :> (cut d s).0, (cut d s).1, (cut d s).2) (λ e. refl)
      λ e. ground (arith, e, cut-before d s)

pub trim_left-has :
    (d : Char) (s : String) → has_char d s ≡ false → has_char d (trim_left s) ≡ false
unfolding has_char trim_left
trim_left-has d end_of_text h = refl
trim_left-has d (c :> s) h = ground (arith, h, trim_left-has d s)

pub trim_right-has :
    (d : Char) (s : String) → has_char d s ≡ false → has_char d (trim_right s) ≡ false
unfolding has_char trim_right
trim_right-has d end_of_text h = refl
trim_right-has d (c :> s) h =
    if-either (λ (t : String). has_char d t ≡ false) (is_empty (trim_right s) && is_space c) ""
      (c :> trim_right s) (λ e. refl) λ e. ground (arith, h, trim_right-has d s)

-- The text up to the first separator is determined by the whole.
pub before_unique :
    (d : Char) (s t a b : String)
    → has_char d s ≡ false
    → has_char d t ≡ false
    → s <> (d :> a) ≡ t <> (d :> b)
    → (s ≡ t) × (a ≡ b)
unfolding has_char
before_unique d end_of_text end_of_text a b h k e =
    (refl, tail-eq_of_cons-eq (sym (nil-append (d :> a)) ∙ e ∙ nil-append (d :> b)))
before_unique d end_of_text (c :> t) a b h k e =
    let same : d ≡ c =
      head-eq_of_cons-eq (sym (nil-append (d :> a)) ∙ e ∙ cons-append c t (d :> b)) in
    ground (arith, ap code same, k)
before_unique d (c :> s) end_of_text a b h k e =
    let same : c ≡ d =
      head-eq_of_cons-eq (sym (cons-append c s (d :> a)) ∙ e ∙ nil-append (d :> b)) in
    ground (arith, ap code same, h)
before_unique d (c :> s) (x :> t) a b h k e =
    let both : c :> (s <> (d :> a)) ≡ x :> (t <> (d :> b)) =
      sym (cons-append c s (d :> a)) ∙ e ∙ cons-append x t (d :> b) in
    let (below, rest) =
      before_unique d s t a b (ground (arith, h)) (ground (arith, k)) (tail-eq_of_cons-eq both) in
    (ap (λ y. y :> s) (head-eq_of_cons-eq both) ∙ ap (λ r. x :> r) below, rest)

-- Cutting at the separator finds the part that holds none.
pub cut-append :
    (d : Char) (a b : String) → has_char d a ≡ false → cut d (a <> (d :> b)) ≡ (a, b, true)
unfolding cut has_char
cut-append d end_of_text b h = rw (nil-append (d :> b)) (ground arith)
cut-append d (c :> a) b h =
    ap (cut d) (cons-append c a (d :> b))
    ∙ if-either (λ (t : String × String × Bool). t ≡ (c :> a, b, true)) (code c == code d)
        ("", a <> (d :> b), true)
        (c :> (cut d (a <> (d :> b))).0, (cut d (a <> (d :> b))).1, (cut d (a <> (d :> b))).2)
        (λ e. ground (arith, e, h))
        λ e.
          ap (λ (t : String × String × Bool). (c :> t.0, t.1, t.2))
            (cut-append d a b (ground (arith, h)))
