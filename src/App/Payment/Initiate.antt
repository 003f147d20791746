-- ===== src/App/Payment/Initiate.antt =====
-- `ProcessGatewayInitiate` (internal/app/payment/service.go): a pending payment is taken to its
-- gateway. The fee configuration (`ConfigStore`) and the JSON of a breakdown are arguments.
use payment_service.Prelude.{
  ℕ, Bool, true, false, ◌&&◌, Option, none, some, List, String, str_eq, Result, ok, err,
  if◌then◌else◌,
}
use payment_service.Prelude.Int.{ℤ, pos, ltb_ℤ}
use payment_service.Domain.Transaction.{Txn, PaymentMethod, pending, processing, system, status_eq}
use payment_service.Domain.Transaction.Machine.{transition_state}
use payment_service.Domain.Fees.{
  Floats, CurrencyRate, Breakdown, GatewayShare, FeeError, calculate, validate,
}
use payment_service.Ports.Gateway.{PaymentRequest, PaymentResponse, CallError}
use payment_service.Postgres.{
  Action, ◌>>=◌, ◌>>◌, pure, raise, lift, gets, emit, when, within_tx, txn_error, gateway_failed,
  config_failed, fee_failed, initiated, breaker_failure, published, of_txn, gateway_initiate,
}
use payment_service.Postgres.Transactions.{
  get_by_id, update_status, update_gateway_reference, insert_gateway_metadata, write_audit,
}
use payment_service.Postgres.Leases.{try_acquire_direct}
use payment_service.App.Payment.Service.{Service, adapter_for}
use payment_service.App.Payment.Attempt.{lease_ttl}

-- `GatewayFeeModel`, the fields that are read.
pub record FeeModel : Type 0 where
  pub fixed_fee : ℤ
  pub percentage_bps : ℤ
  pub charges_currency : String

-- `GetFeeModel` and `GetCurrencyRates`, where `none` outside is an error, and `json.Marshal`.
pub record FeeConfig (F : Type 0) : Type 0 where
  pub floats : Floats F
  pub fee_model : String → PaymentMethod → Option (Option FeeModel)
  pub currency_rates : ℕ → Option (List (CurrencyRate F))
  pub json : Breakdown F → String

abbrev pub charges_of : FeeModel → String → String
charges_of m currency = if str_eq m.charges_currency "" then currency else m.charges_currency

module _ {F : Type 0} (c : FeeConfig F) where
  abbrev pub fixed_of : FeeModel → F
  fixed_of m = c.floats.of_int (if ltb_ℤ (pos 0) m.fixed_fee then m.fixed_fee else pos 0)

  abbrev pub ratio_of : FeeModel → F
  ratio_of m =
      if ltb_ℤ (pos 0) m.percentage_bps
      then c.floats.div (c.floats.of_int m.percentage_bps) (c.floats.of_int (pos 100))
      else c.floats.of_int (pos 0)

  abbrev with_share : Option GatewayShare → Txn → Txn
  with_share none t = t
  with_share (some g) t = record t { gateway_amount = some g.amount; gateway_currency = g.currency }

  -- What is charged at the gateway.
  abbrev charge_of : Option GatewayShare → Txn → ℤ × String
  charge_of none t = (t.amount, t.currency)
  charge_of (some g) t = (g.amount, g.currency)

  -- A breakdown that fails the checks is logged and dropped.
  abbrev with_breakdown : Option FeeError → Breakdown F → Txn → Txn × (ℤ × String)
  with_breakdown (some e) b t = (t, (t.amount, t.currency))
  with_breakdown none b t =
      (with_share b.gateway (record t { fee_breakdown = some (c.json b) }), charge_of b.gateway t)

  abbrev calculated : Result FeeError (Breakdown F) → Txn → Action (Txn × (ℤ × String))
  calculated (err e) t = raise fee_failed
  calculated (ok b) t = pure (with_breakdown (validate b) b t)

  abbrev with_rates : Option (List (CurrencyRate F)) → FeeModel → Txn → Action (Txn × (ℤ × String))
  with_rates none m t = raise config_failed
  with_rates (some rates) m t =
      calculated
        (calculate c.floats t.amount t.currency (charges_of m t.currency) (fixed_of m) (ratio_of m)
          rates)
        t

  abbrev with_model : Option (Option FeeModel) → Txn → Action (Txn × (ℤ × String))
  with_model none t = raise config_failed
  with_model (some none) t = pure (t, (t.amount, t.currency))
  with_model (some (some m)) t = with_rates (c.currency_rates t.tenant_id) m t

  -- The payment with its fees, and what to charge.
  unfoldable pub apply_fees : Txn → Action (Txn × (ℤ × String))
  apply_fees t = with_model (c.fee_model t.gateway_id t.payment_method) t

unfoldable pub initiate_request : Txn → ℤ × String → PaymentRequest
initiate_request t charge = record {
  transaction_id = t.id;
  tenant_id = t.tenant_id;
  amount = charge.0;
  currency = charge.1;
  payment_method = t.payment_method;
  idempotency_key = t.gateway_idempotency_key;
  metadata = t.metadata;
  customer_email = t.customer_email;
  description = t.description;
  attempt_number = 1;
}

abbrev pub insert_metadata_if : Bool → Txn → Option String → Action (Unit {0})
insert_metadata_if true t (some payload) = insert_gateway_metadata t.id t.gateway_id payload
insert_metadata_if _ t _ = pure tt

-- The transaction after the gateway has answered. The event goes out before the commit.
unfoldable pub commit_initiate : Service → Txn → PaymentResponse → Action (Unit {0})
commit_initiate s t r = do
  update_gateway_reference t.id r.gateway_reference_id t.version
  insert_metadata_if s.has_metadata t r.gateway_metadata
  now ← gets (λ w. w.clock)
  moved ← lift txn_error (
      transition_state (some (record t { gateway_reference_id = r.gateway_reference_id }))
        processing system now)
  when s.has_audit (
      write_audit (record {
        id = 0;
        transaction_id = t.id;
        actor = "system";
        previous = of_txn pending;
        next = of_txn moved.status;
        reason = gateway_initiate;
      }))
  t' ← update_status moved
  when s.has_bus (emit (published t.id processing))

abbrev pub answered_initiate : Result CallError PaymentResponse → Service → Txn → Action (Unit {0})
answered_initiate (err e) s t = do
  when s.has_breaker (emit (breaker_failure t.gateway_id))
  raise (gateway_failed e)
answered_initiate (ok r) s t = within_tx (commit_initiate s t r)

unfoldable pub initiate_claimed : {F : Type 0} → Service → FeeConfig F → Txn → Action (Unit {0})
initiate_claimed s c t = do
  a ← adapter_for s t.gateway_id
  charged ← apply_fees c t
  emit (initiated t.gateway_id (initiate_request charged.0 charged.1))
  answered_initiate (a.initiate_payment (initiate_request charged.0 charged.1)) s charged.0

abbrev pub initiate_if : {F : Type 0} → Bool → Service → FeeConfig F → Txn → Action (Unit {0})
initiate_if false s c t = pure tt
initiate_if true s c t = initiate_claimed s c t

abbrev pub lease_then_initiate :
    {F : Type 0} → Bool → Service → FeeConfig F → Txn → Action (Unit {0})
lease_then_initiate false s c t = pure tt
lease_then_initiate true s c t = do
  won ← try_acquire_direct t.id t.id (lease_ttl t)
  initiate_if won s c t

unfoldable pub process_gateway_initiate :
    {F : Type 0} → Service → FeeConfig F → ℕ → Action (Unit {0})
process_gateway_initiate s c id = do
  t ← get_by_id id
  lease_then_initiate (str_eq t.gateway_reference_id "" && status_eq t.status pending) s c t
