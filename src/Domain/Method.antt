-- ===== src/Domain/Method.antt =====
-- internal/domain/payment/method.go. A Method is a text there; `other` holds any text that is not
-- one of the five constants.
use payment_module.Common.{String, ◌<>◌, Bool, true, false, not, str_eq, if◌then◌else◌}
use payment_module.Common.Strings.{trim_space, to_upper}
use payment_module.Errors.{Result, ok, err, invalid_input}

pub data Method : Type 0 where
  virtual_account qris gopay shopeepay card : Method
  other : String → Method

abbrev pub method_text : Method → String
method_text Method.virtual_account = "VIRTUAL_ACCOUNT"
method_text Method.qris = "QRIS"
method_text Method.gopay = "GOPAY"
method_text Method.shopeepay = "SHOPEEPAY"
method_text Method.card = "CARD"
method_text (Method.other s) = s

-- the conversion Method(s)
unfoldable pub method_of : String → Method
method_of s =
    if str_eq s "VIRTUAL_ACCOUNT"
    then Method.virtual_account
    else if str_eq s "QRIS"
    then Method.qris
    else if str_eq s "GOPAY"
    then Method.gopay
    else if str_eq s "SHOPEEPAY"
    then Method.shopeepay
    else if str_eq s "CARD"
    then Method.card
    else Method.other s

-- knownMethods[m]
abbrev pub is_known : Method → Bool
is_known (Method.other s) = false
is_known _ = true

unfoldable pub parse_method : String → Result Method
unfolding method_of
parse_method s =
    let m = method_of (to_upper (trim_space s)) in
    if not (is_known m)
    then err (invalid_input ("unsupported payment_method_type: " <> s))
    else ok m
