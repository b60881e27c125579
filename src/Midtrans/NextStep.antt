-- ===== src/Midtrans/NextStep.antt =====
-- nextAction, actionURLs and parseWIB of midtrans/charge.go.
use payment_module.Common.{
  String, Option, none, some, List, [], ◌∷◌, ◌||◌, str_eq, is_empty, if◌then◌else◌,
}
use payment_module.Json.{
  Json, Items, Members, Payload, array, object, nil, item, field, text_of, text_field,
}
use payment_module.Domain.Types.{Time}
use payment_module.Domain.Method.{Method}
use payment_module.Ports.Gateway.{NextAction, NextActionType, TransactionStatus}
use payment_module.Midtrans.Host.{Host}

-- m, ok := v.(map[string]any)
abbrev object_of : Json → Option Members
object_of (object ms) = some ms
object_of _ = none

-- The latest entry of a name comes first.
abbrev ActionUrls : Type 0
ActionUrls = List (String × String)

abbrev put_url : (name url : String) → ActionUrls → ActionUrls
put_url name url out = if is_empty name || is_empty url then out else (name, url) ∷ out

abbrev add_action : Option Members → ActionUrls → ActionUrls
add_action none out = out
add_action (some a) out = put_url (text_field "name" (some a)) (text_field "url" (some a)) out

add_actions : Items → ActionUrls → ActionUrls
add_actions nil out = out
add_actions (item raw rest) out = add_actions rest (add_action (object_of raw) out)

abbrev items_of : Option Json → Items
items_of (some (array xs)) = xs
items_of _ = nil

unfoldable pub action_urls : Payload → ActionUrls
unfolding add_actions
action_urls body = add_actions (items_of (field "actions" body)) []

unfoldable pub url_of : String → ActionUrls → String
url_of k [] = ""
url_of k ((name, url) ∷ out) = if str_eq name k then url else url_of k out

abbrev no_step : NextAction
no_step = record {
  type = NextActionType.no_action;
  va_number = "";
  bank = "";
  qr_string = "";
  qr_image_url = "";
  redirect_url = "";
  expires_at = none;
}

-- The first of va_numbers, when it is an object.
abbrev first_va : Items → NextAction → NextAction
first_va (item (object va) rest) na = record na {
  va_number = text_field "va_number" (some va);
  bank = text_field "bank" (some va);
}
first_va _ na = na

abbrev va_step : Payload → NextAction → NextAction
va_step body na =
    let permata = text_field "permata_va_number" body in
    if is_empty permata
    then first_va (items_of (field "va_numbers" body)) na
    else record na { va_number = permata; bank = "permata" }

module _ (host : Host) where
  abbrev parse_time : String → Option Time
  parse_time s = if is_empty s then none else host.parse_wib s

  unfoldable pub parse_wib : Option Json → Option Time
  parse_wib v = parse_time (text_of v)

  unfoldable pub step_for : Method → Payload → NextAction → NextAction
  step_for Method.virtual_account body na =
      va_step body (record na { type = NextActionType.display_va })
  step_for Method.qris body na = record na {
    type = NextActionType.display_qr;
    qr_string = text_field "qr_string" body;
    qr_image_url = url_of "generate-qr-code" (action_urls body);
  }
  step_for Method.gopay body na = record na {
    type = NextActionType.redirect;
    redirect_url = url_of "deeplink-redirect" (action_urls body);
    qr_image_url = url_of "generate-qr-code" (action_urls body);
  }
  step_for Method.shopeepay body na = record na {
    type = NextActionType.redirect;
    redirect_url = url_of "deeplink-redirect" (action_urls body);
  }
  step_for Method.card body na = record na {
    type = NextActionType.redirect;
    redirect_url = text_field "redirect_url" body;
  }
  step_for (Method.other s) body na = na

  -- A method that the switch does not name leaves the type empty, which reads as no action here; no
  -- charge is built for one.
  unfoldable pub next_action : Method → TransactionStatus → Payload → NextAction
  unfolding parse_wib step_for
  next_action m TransactionStatus.pending body =
      step_for m body (record no_step { expires_at = parse_wib (field "expiry_time" body) })
  next_action m _ body = no_step
