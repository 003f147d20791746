-- ===== src/Ports/Gateway.antt =====
-- internal/ports/gateway.go: requests to a payment gateway, its replies and its errors. The
-- gateways themselves are a parameter of the services: a table from gateway ids to adapters.
use payment_service.Prelude.{ℕ, Option, String, Result}
use payment_service.Prelude.Int.{ℤ}
use payment_service.Domain.Transaction.{PaymentMethod}

pub data PaymentStatus : Type 0 where
  pending processing authorized succeeded failed cancelled refunded ambiguous : PaymentStatus

pub data RefundStatus : Type 0 where
  initiated processing completed failed : RefundStatus

pub data ErrorCategory : Type 0 where
  hard_decline soft_decline network_timeout gateway_error : ErrorCategory
  idempotency_conflict ambiguous : ErrorCategory

pub record PaymentRequest : Type 0 where
  pub transaction_id : ℕ
  pub tenant_id : ℕ
  pub amount : ℤ
  pub currency : String
  pub payment_method : PaymentMethod
  pub idempotency_key : String
  pub metadata : String
  pub customer_email : String
  pub description : String
  pub attempt_number : ℕ

pub record StatusRequest : Type 0 where
  pub transaction_id : ℕ
  pub tenant_id : ℕ
  pub gateway_reference_id : String
  pub idempotency_key : String

pub record RefundRequest : Type 0 where
  pub refund_id : ℕ
  pub transaction_id : ℕ
  pub tenant_id : ℕ
  pub gateway_reference_id : String
  pub amount : ℤ
  pub currency : String
  pub reason : String

pub record CaptureRequest : Type 0 where
  pub transaction_id : ℕ
  pub gateway_reference_id : String
  pub amount : ℤ
  pub currency : String

-- The four response structs of a payment method; the risk score is carried as its text.
pub data MethodResponse : Type 0 where
  card_response : String → String → String → String → String → MethodResponse
  upi_response : String → String → String → MethodResponse
  netbanking_response : String → String → MethodResponse
  wallet_response : String → String → MethodResponse

pub record PaymentResponse : Type 0 where
  pub gateway_reference_id : String
  pub status : PaymentStatus
  pub amount : ℤ
  pub currency : String
  pub error_code : String
  pub error_message : String
  pub method_response : Option MethodResponse
  pub gateway_metadata : Option String

pub record CaptureResponse : Type 0 where
  pub gateway_reference_id : String
  pub status : PaymentStatus
  pub amount : ℤ
  pub currency : String
  pub error_code : String
  pub error_message : String

pub record RefundResponse : Type 0 where
  pub gateway_refund_id : String
  pub status : RefundStatus
  pub amount : ℤ
  pub currency : String

pub record GatewayError : Type 0 where
  pub category : ErrorCategory
  pub code : String
  pub gateway_code : String
  pub gateway_message : String

-- An adapter fails with a `*GatewayError`, or with any other error, of which the text is kept.
pub data CallError : Type 0 where
  typed : GatewayError → CallError
  untyped : String → CallError

pub record Adapter : Type 0 where
  pub initiate_payment : PaymentRequest → Result CallError PaymentResponse
  pub check_status : StatusRequest → Result CallError PaymentResponse
  pub capture_payment : CaptureRequest → Result CallError CaptureResponse
  pub refund : RefundRequest → Result CallError RefundResponse
