-- ===== src/Ports/Gateway.antt =====
-- internal/application/ports/gateway.go: the gateway-neutral requests and answers, and GatewayPort.
use payment_module.Common.{ℕ, String, Bool, Option, List, true, false}
use payment_module.Common.Int64.{Int64}
use payment_module.Errors.{Error, Result}
use payment_module.Json.{Payload}
use payment_module.Domain.Method.{Method}
use payment_module.Domain.Types.{Time}

pub record CreateTransactionRequest : Type 0 where
  pub payment_id : String
  pub reference_id : String
  pub amount : Int64
  pub currency : String
  pub payment_method : Method
  pub bank_code : String
  pub card_token : String
  pub return_url : String
  pub customer_name : String
  pub customer_email : String
  pub customer_phone : String
  pub description : String
  pub expired_at : Option Time
  pub metadata : Payload

pub data NextActionType : Type 0 where
  display_va display_qr redirect no_action : NextActionType

pub record NextAction : Type 0 where
  pub type : NextActionType
  pub va_number : String
  pub bank : String
  pub qr_string : String
  pub qr_image_url : String
  pub redirect_url : String
  pub expires_at : Option Time

pub data TransactionStatus : Type 0 where
  pending settled failed unknown : TransactionStatus

abbrev pub is_settled : TransactionStatus → Bool
is_settled TransactionStatus.settled = true
is_settled _ = false

abbrev pub is_failed : TransactionStatus → Bool
is_failed TransactionStatus.failed = true
is_failed _ = false

pub record GatewayResponse : Type 0 where
  pub gateway_transaction_id : String
  pub status : TransactionStatus
  pub next_action : NextAction
  pub raw_response : Payload

pub record MethodCapability : Type 0 where
  pub charge : Bool
  pub refund : Bool
  pub partial_refund : Bool

pub record RefundRequest : Type 0 where
  pub gateway_transaction_id : String
  pub refund_key : String
  pub amount : Int64
  pub reason : String

pub record RefundResult : Type 0 where
  pub accepted : Bool
  pub gateway_refund_id : String
  pub decline_reason : String
  pub raw_response : Payload

pub record TransactionRef : Type 0 where
  pub payment_id : String
  pub gateway_transaction_id : String

pub record RefundNotification : Type 0 where
  pub refund_key : String
  pub gateway_refund_id : String
  pub amount : Int64

pub record TransactionState : Type 0 where
  pub found : Bool
  pub gateway_transaction_id : String
  pub status : TransactionStatus
  pub gateway_status : String
  pub refunds : List RefundNotification
  pub raw_response : Payload

pub record WebhookNotification : Type 0 where
  pub payment_id : String
  pub gateway_transaction_id : String
  pub status : TransactionStatus
  pub gateway_status : String
  pub refunds : List RefundNotification

-- GatewayPort. What a remote gateway answers depends on when it is asked: the number is the call's
-- place in the run. `parse_webhook` reads a payload and its headers.
pub record Gateway : Type 0 where
  pub capability : Method → MethodCapability
  pub create_transaction : ℕ → CreateTransactionRequest → Result GatewayResponse
  pub get_transaction : ℕ → TransactionRef → Result TransactionState
  pub cancel_transaction : ℕ → String → Option Error
  pub create_refund : ℕ → RefundRequest → Result RefundResult
  pub parse_webhook : List ℕ → List (String × List String) → Result WebhookNotification
