-- ===== src/Domain/Transaction/Creation.antt =====
-- `New` (internal/domain/transaction/transaction.go): how a payment is made. `strings.ToUpper` is an
-- argument.
use payment_service.Prelude.{
  ℕ, false, not, none, String, str_eq, ◌==◌, if◌then◌else◌, Result, ok, err,
}
use payment_service.Prelude.Int.{ℤ, pos, leb_ℤ}
use payment_service.Domain.Transaction.{
  Txn, TxnError, PaymentMethod, CaptureMode, unset, auto, pending, Fresh, is_bad_currency,
  is_valid_method, is_valid_capture_mode, amount_not_positive, bad_currency, bad_method, tenant_nil,
  gateway_empty, timeout_not_positive, bad_capture_mode,
}

-- `captureMode == ""` is replaced by `auto`.
unfoldable pub default_capture_mode : CaptureMode → CaptureMode
default_capture_mode unset = auto
default_capture_mode m = m

pub record NewTxn : Type 0 where
  pub tenant_id : ℕ
  pub user_id : ℕ
  pub amount : ℤ
  pub currency : String
  pub method : PaymentMethod
  pub gateway_id : String
  pub customer_id : ℕ
  pub customer_email : String
  pub description : String
  pub metadata : String
  pub estimated_timeout_sec : ℤ
  pub capture_mode : CaptureMode

abbrev pub build : NewTxn → Fresh → Txn
build a f = record {
  id = f.fresh_id;
  tenant_id = a.tenant_id;
  user_id = a.user_id;
  amount = a.amount;
  currency = a.currency;
  payment_method = a.method;
  status = pending;
  capture_mode = default_capture_mode a.capture_mode;
  version = 1;
  gateway_id = a.gateway_id;
  gateway_reference_id = "";
  gateway_idempotency_key = f.fresh_key;
  attempted_gateway = "";
  actual_gateway = "";
  original_gateway = "";
  estimated_timeout_seconds = a.estimated_timeout_sec;
  failure_reason = none;
  method_details = none;
  metadata = a.metadata;
  description = a.description;
  customer_id = a.customer_id;
  customer_email = a.customer_email;
  cancel_intent = false;
  cancel_requested_by = none;
  cancel_requested_at = none;
  cancel_requested_via = none;
  processing_started_at = none;
  processing_timeout = none;
  callback_url = "";
  redirect_url = "";
  token_hash = "";
  gateway_fee_estimate = none;
  gateway_fee_currency = "";
  gateway_fee_model_version = 0;
  fee_breakdown = none;
  gateway_amount = none;
  gateway_currency = "";
  created_at = f.fresh_now;
  updated_at = f.fresh_now;
}

unfoldable pub new : (String → String) → NewTxn → Fresh → Result TxnError Txn
unfolding is_bad_currency is_valid_method is_valid_capture_mode default_capture_mode
new upper a f =
    if leb_ℤ a.amount (pos 0)
    then err amount_not_positive
    else (if is_bad_currency upper a.currency
        then err bad_currency
        else (if not (is_valid_method a.method)
            then err bad_method
            else (if a.tenant_id == 0
                then err tenant_nil
                else (if str_eq a.gateway_id ""
                    then err gateway_empty
                    else (if leb_ℤ a.estimated_timeout_sec (pos 0)
                        then err timeout_not_positive
                        else (if not (is_valid_capture_mode (default_capture_mode a.capture_mode))
                            then err bad_capture_mode
                            else ok (build a f)))))))
