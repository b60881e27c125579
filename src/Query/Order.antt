-- ===== src/Query/Order.antt =====
-- The rows of a list of payments, newest first, and those after a row (payment_repo.go).
use mathlib.Core.Path.{subst}
use payment_module.Common.{
  ◌≡◌, refl, sym, ◌∙◌, ap, true, false, ◌&&◌, ◌||◌, String, Bool, Option, none, some, List, [], ◌∷◌,
  ◌++◌, ◌==◌, arith, All, if-either,
}
use payment_module.Common.Ordered.{
  keep, greatest_first, AllApart, Descending, All-keep, All-greatest_first, All-middle,
  greatest_first-Descending, keep-greatest_first, keep-after,
}
use payment_module.Common.Windows.{keep-All, keep-keep}
use payment_module.Store.Rows.{PaymentRow}
use payment_module.Query.Cursor.{PageKey}
use payment_module.Query.Listing.{ListFilter, key_of, row_before, is_after, matches, listed}

row_before_trans :
    (a b c : PaymentRow) → row_before a b ≡ true → row_before b c ≡ true → row_before a c ≡ true
row_before_trans a b c h k = ground (arith, h, k)

row_before_asym : (a b : PaymentRow) → row_before a b ≡ true → row_before b a ≡ false
row_before_asym a b h = ground (arith, h)

row_before_irrefl : (a : PaymentRow) → row_before a a ≡ false
row_before_irrefl a = ground arith

-- No two rows have the same id, the primary key.
abbrev pub DistinctIds : List PaymentRow → Type 0
DistinctIds [] = Unit
DistinctIds (x ∷ xs) = All (λ y. (y.id == x.id) ≡ false) xs × DistinctIds xs

AllApart-Distinct : (xs : List PaymentRow) → DistinctIds xs → AllApart row_before xs
AllApart-Distinct [] h = tt
AllApart-Distinct (x ∷ xs) (k, h) = (go xs k, AllApart-Distinct xs h)
  where
    go :
        (ys : List PaymentRow)
        → All (λ y. (y.id == x.id) ≡ false) ys
        → All (λ y. row_before y x || row_before x y ≡ true) ys
    go [] k = tt
    go (y ∷ ys) (l, k) = (ground (arith, l), go ys k)

module _ (like : String → String → Bool) (f : ListFilter) (after : Option PageKey)
    (rows : List PaymentRow) (distinct : DistinctIds rows) where
  wanted : PaymentRow → Bool
  wanted row = matches like f row && is_after after row

  AllApart-keep :
      (p : PaymentRow → Bool) (xs : List PaymentRow)
      → AllApart row_before xs
      → AllApart row_before (keep p xs)
  unfolding keep
  AllApart-keep p [] h = tt
  AllApart-keep p (x ∷ xs) (k, h) =
      if-either (AllApart row_before) (p x) (x ∷ keep p xs) (keep p xs)
        (λ e. (
          All-keep row_before (λ y. row_before y x || row_before x y ≡ true) p xs k,
          AllApart-keep p xs h,
        ))
        (λ e. AllApart-keep p xs h)

  apart : AllApart row_before (keep wanted rows)
  apart = AllApart-keep wanted rows (AllApart-Distinct rows distinct)

  after_trans :
      (after : Option PageKey) (row last : PaymentRow)
      → is_after after last ≡ true
      → is_after after row && row_before row last ≡ row_before row last
  after_trans none row last h = refl
  after_trans (some k) row last h = ground (arith, h)

  -- The rows after the last row of a page are those that its cursor asks for.
  pub rest_of :
      (front rest : List PaymentRow) (last : PaymentRow)
      → listed like f after rows ≡ front ++ last ∷ rest
      → listed like f (some (key_of last)) rows ≡ rest
  unfolding listed wanted
  rest_of front rest last whole =
      let below : PaymentRow → Bool = λ row. row_before row last in
      let sorted : List PaymentRow = greatest_first row_before (keep wanted rows) in
      let chosen : is_after after last ≡ true = ground (
        arith,
        All-middle row_before (λ row. wanted row ≡ true) front last rest
            (subst (All (λ row. wanted row ≡ true)) whole (
              All-greatest_first row_before (λ row. wanted row ≡ true) (keep wanted rows)
                (keep-All wanted rows))),
      ) in
      sym (
        ap (greatest_first row_before) (
          keep-keep below wanted (λ row. matches like f row && below row) rows
            λ row. ground (arith, after_trans after row last chosen)))
      ∙ sym (keep-greatest_first row_before row_before_trans below (keep wanted rows) apart)
      ∙ ap (keep below) whole
      ∙ keep-after row_before row_before_trans row_before_asym row_before_irrefl front last rest (
          subst (Descending row_before) whole
            (greatest_first-Descending row_before row_before_trans (keep wanted rows) apart))
