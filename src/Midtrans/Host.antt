-- ===== src/Midtrans/Host.antt =====
-- What internal/adapter/outbound/gateway/midtrans takes from the configuration and from Go's library:
-- the Config and the structs of adapter.go, and the library calls as functions.
use payment_module.Common.{ℕ, String, Option, List}
use payment_module.Common.Int.{ℤ}
use payment_module.Common.Int64.{Int64}
use payment_module.Errors.{Error, Result}
use payment_module.Json.{Json, Members, Payload}
use payment_module.Domain.Types.{Time}

pub record Config : Type 0 where
  pub server_key : String
  pub base_url : String
  pub timeout : ℤ
  pub notification_url : String
  pub qris_acquirer : String

-- refundEntry with its two flexString fields as the JSON text that stands there, if any.
pub record RawRefundEntry : Type 0 where
  pub refund_chargeback_id : Option String
  pub refund_amount : Option String
  pub refund_key : String

pub record RefundEntry : Type 0 where
  pub refund_chargeback_id : String
  pub refund_amount : String
  pub refund_key : String

pub record Notification (Entry : Type 0) : Type 0 where
  pub transaction_id : String
  pub order_id : String
  pub status_code : String
  pub gross_amount : String
  pub signature_key : String
  pub transaction_status : String
  pub fraud_status : String
  pub refunds : List Entry

pub record StatusResponse (Entry : Type 0) : Type 0 where
  pub transaction_id : String
  pub transaction_status : String
  pub fraud_status : String
  pub refunds : List Entry

pub record HttpRequest : Type 0 where
  pub method : String
  pub url : String
  pub content : Option (List ℕ)
  pub header : List (String × List String)

-- What client.Do and reading the body come to: no reply, a reply whose body broke off, or a status
-- with the bytes of the body. The texts are those of the library's errors.
pub data Exchange : Type 0 where
  lost : String → Exchange
  broken_off : (http_status : ℕ) → String → Exchange
  replied : (http_status : ℕ) → (body : List ℕ) → Exchange

-- sha512_hex is sha512.Sum512 followed by hex.EncodeToString; unquote is json.Unmarshal of a JSON
-- string; the three decoders are json.Unmarshal into a notification, a statusResponse and a
-- map[string]any; marshal is json.Marshal; new_request is the error of
-- http.NewRequestWithContext; exchange is client.Do with io.ReadAll, at a call's place in the run;
-- parse_amount is strconv.ParseFloat with math.Round and the conversion to int64; sprint is
-- fmt.Sprint of a value or nil; minutes_until is int(math.Ceil(t.Sub(now).Minutes()));
-- format_wib and parse_wib render and read a time in Jakarta's zone; basic_auth is the header value
-- that SetBasicAuth sets.
pub record Host : Type 0 where
  pub sha512_hex : String → String
  pub unquote : String → Option String
  pub decode_notification : List ℕ → Option (Notification RawRefundEntry)
  pub decode_status : List ℕ → Result (StatusResponse RawRefundEntry)
  pub decode_body : List ℕ → Result Payload
  pub marshal : Members → Result (List ℕ)
  pub new_request : (method url : String) → Option Error
  pub exchange : ℕ → HttpRequest → Exchange
  pub itoa : ℕ → String
  pub print : Int64 → String
  pub parse_amount : String → Option Int64
  pub sprint : Option Json → String
  pub to_lower : String → String
  pub minutes_until : (now t : Time) → ℤ
  pub format_wib : Time → String
  pub parse_wib : String → Option Time
  pub basic_auth : (username password : String) → String
