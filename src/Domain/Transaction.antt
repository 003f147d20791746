-- ===== src/Domain/Transaction.antt =====
-- internal/domain/transaction/transaction.go: the payment record, its constructor and its tests.
-- A UUID is a number, 0 for uuid.Nil. A time is an integer of nanoseconds, a duration too; what
-- the code takes from time.Now and from the uuid package comes in as arguments. A text type with a
-- fixed set of constants is an enumeration; where the code compares it with a set of valid texts,
-- `other` is any further text, and `unset` the empty one.
pub mod Machine
pub mod Creation
pub mod Construction
use payment_service.Prelude.{
  ℕ, ◌≡◌, Bool, true, false, not, ◌&&◌, ◌||◌, Option, none, some, List, ◌==◌, if◌then◌else◌, String,
  str_eq, codes, byte_length, Result, ok, err,
}
use payment_service.Prelude.Int.{ℤ, pos, ◌+ℤ◌, leb_ℤ, ltb_ℤ}

pub data Status : Type 0 where
  pending processing authorized captured settled failed cancelled : Status
  refund_pending partially_refunded refunded refund_failed disputed : Status

-- The statuses are distinct texts in the code; here each has a number, and `==` compares those.
abbrev pub status_code : Status → ℕ
status_code pending = 0
status_code processing = 1
status_code authorized = 2
status_code captured = 3
status_code settled = 4
status_code failed = 5
status_code cancelled = 6
status_code refund_pending = 7
status_code partially_refunded = 8
status_code refunded = 9
status_code refund_failed = 10
status_code disputed = 11

abbrev pub status_eq : Status → Status → Bool
status_eq a b = status_code a == status_code b

pub data PaymentMethod : Type 0 where
  card upi netbanking wallet : PaymentMethod
  other : String → PaymentMethod

pub data Actor : Type 0 where
  system tenant ops gateway : Actor

pub data CancelVia : Type 0 where
  api dashboard ops_tool : CancelVia

pub data FailureReasonSource : Type 0 where
  source_gateway source_internal source_timeout : FailureReasonSource

pub data CaptureMode : Type 0 where
  auto manual unset : CaptureMode
  other : String → CaptureMode

pub record FailureReason : Type 0 where
  pub category : String
  pub code : String
  pub gateway_code : String
  pub gateway_message : String
  pub source : FailureReasonSource

-- `RiskScore` is a float that the service only carries; it is kept as its text.
pub data MethodDetails : Type 0 where
  card_details : String → String → String → String → String → MethodDetails
  upi_details : String → String → String → MethodDetails
  netbanking_details : String → String → MethodDetails
  wallet_details : String → String → MethodDetails

-- `Metadata`, `FeeBreakdown` and the fee estimate are JSON documents that no modelled code reads:
-- they are carried as texts.
pub record Txn : Type 0 where
  pub id : ℕ
  pub tenant_id : ℕ
  pub user_id : ℕ
  pub amount : ℤ
  pub currency : String
  pub payment_method : PaymentMethod
  pub status : Status
  pub capture_mode : CaptureMode
  pub version : ℕ
  pub gateway_id : String
  pub gateway_reference_id : String
  pub gateway_idempotency_key : String
  pub attempted_gateway : String
  pub actual_gateway : String
  pub original_gateway : String
  pub estimated_timeout_seconds : ℤ
  pub failure_reason : Option FailureReason
  pub method_details : Option MethodDetails
  pub metadata : String
  pub description : String
  pub customer_id : ℕ
  pub customer_email : String
  pub cancel_intent : Bool
  pub cancel_requested_by : Option Actor
  pub cancel_requested_at : Option ℤ
  pub cancel_requested_via : Option CancelVia
  pub processing_started_at : Option ℤ
  pub processing_timeout : Option ℤ
  pub callback_url : String
  pub redirect_url : String
  pub token_hash : String
  pub gateway_fee_estimate : Option ℤ
  pub gateway_fee_currency : String
  pub gateway_fee_model_version : ℕ
  pub fee_breakdown : Option String
  pub gateway_amount : Option ℤ
  pub gateway_currency : String
  pub created_at : ℤ
  pub updated_at : ℤ

-- The errors that the package returns, one for each message.
pub data TxnError : Type 0 where
  amount_not_positive bad_currency bad_method tenant_nil gateway_empty : TxnError
  timeout_not_positive bad_capture_mode id_nil user_nil : TxnError
  nil_transaction cancel_intent_required : TxnError
  invalid_transition : Status → Status → Actor → TxnError

unfoldable pub is_valid_method : PaymentMethod → Bool
is_valid_method (PaymentMethod.other _) = false
is_valid_method _ = true

unfoldable pub is_valid_capture_mode : CaptureMode → Bool
is_valid_capture_mode auto = true
is_valid_capture_mode manual = true
is_valid_capture_mode _ = false

-- `len(currency) != 3 || currency != strings.ToUpper(currency)`: bytes, and the library's folding,
-- which is an argument.
unfoldable pub is_bad_currency : (String → String) → String → Bool
is_bad_currency upper c = not (byte_length (codes c) == 3) || not (str_eq c (upper c))

unfoldable pub is_terminal : Status → Bool
is_terminal pending = false
is_terminal processing = false
is_terminal authorized = false
is_terminal _ = true

-- What `New` takes from the clock and from the uuid package.
pub record Fresh : Type 0 where
  pub fresh_id : ℕ
  pub fresh_key : String
  pub fresh_now : ℤ

unfoldable pub set_cancel_intent : Txn → Actor → CancelVia → ℤ → Txn
set_cancel_intent t by via now = record t {
  cancel_intent = true;
  cancel_requested_by = some by;
  cancel_requested_at = some now;
  cancel_requested_via = some via;
  updated_at = now;
}

-- Both lease fields are set, and their sum lies before now.
abbrev pub lease_passed : Option ℤ → Option ℤ → ℤ → Bool
lease_passed (some started) (some timeout) now = ltb_ℤ (started +ℤ timeout) now
lease_passed _ _ now = false

unfoldable pub is_lease_expired : Txn → ℤ → Bool
is_lease_expired t now =
    if not (status_eq t.status processing)
    then false
    else lease_passed t.processing_started_at t.processing_timeout now

unfoldable pub has_gateway_discrepancy : Txn → Bool
has_gateway_discrepancy t =
    not (str_eq t.actual_gateway "") && not (str_eq t.attempted_gateway t.actual_gateway)

-- `none` is the nil error.
unfoldable pub validate : (String → String) → Txn → Option TxnError
unfolding is_bad_currency is_valid_method
validate upper t =
    if t.id == 0
    then some id_nil
    else (if t.tenant_id == 0
        then some tenant_nil
        else (if t.user_id == 0
            then some user_nil
            else (if leb_ℤ t.amount (pos 0)
                then some amount_not_positive
                else (if is_bad_currency upper t.currency
                    then some bad_currency
                    else (if not (is_valid_method t.payment_method)
                        then some bad_method
                        else (if str_eq t.gateway_id ""
                            then some gateway_empty
                            else (if leb_ℤ t.estimated_timeout_seconds (pos 0)
                                then some timeout_not_positive
                                else none)))))))
