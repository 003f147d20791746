-- ===== src/App/Payment/Create.antt =====
-- `Create` (internal/app/payment/service.go). The configuration, the drawn ids and the token come in
-- as arguments.
pub mod Requests
use payment_service.Prelude.{
  ℕ, Bool, true, false, not, Option, none, some, List, [], ◌∷◌, String, str_eq, ◌==◌, Result, ok,
  err, if◌then◌else◌,
}
use Prim.Native.String.{◌++◌}
use payment_service.Prelude.Int.{ℤ, pos, ◌/ℤ◌, leb_ℤ}
use payment_service.Domain.Transaction.{Txn, PaymentMethod, CaptureMode, auto, manual, Fresh}
use payment_service.Domain.Transaction.Creation.{NewTxn, new}
use payment_service.Domain.Fees.{Breakdown, FeeError, calculate}
use payment_service.Ports.Outbox.{
  OutboxEvent, transaction, transaction_created, gateway_initiate, created as created_payload,
  initiate as initiate_payload,
}
use payment_service.Ports.Responses.{
  Response, payment, Verdict, created, replayed, in_progress, key_reused,
}
use payment_service.Postgres.{
  Action, Error, World, ◌>>=◌, ◌>>◌, pure, raise, lift, when, within_tx, txn_error, no_gateway,
  tenant_required, config_failed, timeout_not_configured, token_failed, bad_response, no_state,
  of_txn, payment_created,
}
use payment_service.Postgres.Transactions.{get_by_id, write_event, write_audit}
use payment_service.Postgres.Transactions.Writes.{insert}
use payment_service.App.Idempotency.{Answer, require_key, execute}
use payment_service.App.Idempotency.Hashes.{Texts, composite, request_hash}
use payment_service.App.Payment.Service.{Service}
use payment_service.App.Payment.Initiate.{
  FeeConfig, FeeModel, charges_of, fixed_of, ratio_of, process_gateway_initiate,
}

pub record CreateInput : Type 0 where
  pub tenant_id : ℕ
  pub user_id : ℕ
  pub gateway_id : String
  pub amount : ℤ
  pub currency : String
  pub payment_method : PaymentMethod
  pub capture_mode : CaptureMode
  pub customer_id : ℕ
  pub customer_email : String
  pub description : String
  pub metadata : String
  pub callback_url : String
  pub redirect_url : String
  pub idempotency_key : String

-- `GetGatewayConfig` (whether the gateway is active) and `GetProcessingTimeout`, where `none` is an
-- error, `GenerateToken`, and the text of a payment method.
pub record CreateConfig (F : Type 0) : Type 0 where
  pub gateway_active : String → Option Bool
  pub timeout : String → PaymentMethod → Option ℤ
  pub token : Option (String × String)
  pub method_text : PaymentMethod → String
  pub fees : FeeConfig F

abbrev require_active : Option Bool → Action (Unit {0})
require_active none = raise config_failed
require_active (some false) = raise no_gateway
require_active (some true) = pure tt

-- The timeout in whole seconds.
abbrev timeout_seconds : Option ℤ → Action ℤ
timeout_seconds none = raise config_failed
timeout_seconds (some d) =
    if leb_ℤ (d /ℤ pos 1000000000) (pos 0)
    then raise timeout_not_configured
    else pure (d /ℤ pos 1000000000)

abbrev new_txn : CreateInput → ℤ → NewTxn
new_txn i seconds = record {
  tenant_id = i.tenant_id;
  user_id = i.user_id;
  amount = i.amount;
  currency = i.currency;
  method = i.payment_method;
  gateway_id = i.gateway_id;
  customer_id = i.customer_id;
  customer_email = i.customer_email;
  description = i.description;
  metadata = i.metadata;
  estimated_timeout_sec = seconds;
  capture_mode = i.capture_mode;
}

abbrev with_token : Option (String × String) → Txn → Action (Txn × String)
with_token none t = raise token_failed
with_token (some (raw, hash)) t = pure (record t { token_hash = hash }, raw)

module _ {F : Type 0} where
  abbrev estimated : Result FeeError (Breakdown F) → String → Txn → Txn
  estimated (err e) charges t = t
  estimated (ok b) charges t = record t {
    gateway_fee_estimate = some b.summary.fees;
    gateway_fee_currency = charges;
    gateway_fee_model_version = 1;
  }

  abbrev with_estimate : Option (Option FeeModel) → FeeConfig F → CreateInput → Txn → Txn
  with_estimate (some (some m)) c i t =
      let charges = charges_of m i.currency in
      estimated (calculate c.floats i.amount charges charges (fixed_of c m) (ratio_of c m) [])
        charges t
  with_estimate _ c i t = t

  -- The payment that is stored, and its token.
  unfoldable pub build_payment : CreateConfig F → CreateInput → Fresh → Action (Txn × String)
  build_payment c i fresh = do
    (if str_eq i.gateway_id "" then raise no_gateway else pure tt)
    require_active (c.gateway_active i.gateway_id)
    seconds ← timeout_seconds (c.timeout i.gateway_id i.payment_method)
    (if i.tenant_id == 0 then raise tenant_required else pure tt)
    t ← lift txn_error (new c.fees.floats.upper (new_txn i seconds) fresh)
    with_token c.token (
        with_estimate (c.fees.fee_model i.gateway_id i.payment_method) c.fees i (record t {
          attempted_gateway = i.gateway_id;
          callback_url = i.callback_url;
          redirect_url = i.redirect_url;
        }))

unfoldable pub created_event : Txn → OutboxEvent
created_event t = record {
  aggregate_id = t.id;
  aggregate_type = transaction;
  event_type = transaction_created;
  payload =
      created_payload t.id t.tenant_id t.user_id t.amount t.currency t.payment_method t.gateway_id
        t.status t.created_at t.version;
  event_version = 1;
  aggregate_version = t.version;
}

unfoldable pub initiate_event : Txn → OutboxEvent
initiate_event t = record {
  aggregate_id = t.id;
  aggregate_type = transaction;
  event_type = gateway_initiate;
  payload = initiate_payload t.id t.tenant_id t.gateway_id;
  event_version = 1;
  aggregate_version = t.version;
}

abbrev pub is_auto : CaptureMode → Bool
is_auto auto = true
is_auto _ = false

abbrev pub is_manual : CaptureMode → Bool
is_manual manual = true
is_manual _ = false

-- A manual capture is initiated by `Authorize`, so no event asks the relay for it.
unfoldable pub creation_events : Txn → List OutboxEvent
creation_events t =
    if is_auto t.capture_mode then created_event t ∷ initiate_event t ∷ [] else created_event t ∷ []

unfoldable pub write_events : List OutboxEvent → Action (Unit {0})
write_events [] = pure tt
write_events (e ∷ es) = do write_event e; write_events es

-- What `Create` does within its transaction.
unfoldable pub store_payment : Service → Txn → Action (Unit {0})
store_payment s t = do
  insert t
  when s.has_audit (
      write_audit (record {
        id = 0;
        transaction_id = t.id;
        actor = "system";
        previous = no_state;
        next = of_txn t.status;
        reason = payment_created;
      }))
  write_events (creation_events t)
