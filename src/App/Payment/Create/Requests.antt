-- ===== src/App/Payment/Create/Requests.antt =====
-- `Create` and `syncInitiate` after the payment is built (internal/app/payment/service.go).
use payment_service.Prelude.{
  Option, none, some, [], ◌∷◌, String, str_eq, Result, ok, err, if◌then◌else◌,
}
use Prim.Native.String.{◌++◌}
use payment_service.Domain.Transaction.{Txn, Fresh}
use payment_service.Ports.Responses.{Response, payment, Verdict, created, replayed}
use payment_service.Postgres.{Action, Error, ◌>>=◌, ◌>>◌, pure, raise, within_tx, bad_response}
use payment_service.Postgres.Transactions.{get_by_id}
use payment_service.App.Idempotency.{Answer, require_key, execute}
use payment_service.App.Idempotency.Hashes.{Texts, composite, request_hash}
use payment_service.App.Payment.Service.{Service}
use payment_service.App.Payment.Initiate.{FeeConfig, process_gateway_initiate}
use payment_service.App.Payment.Create.{
  CreateInput, CreateConfig, build_payment, store_payment, is_auto, is_manual,
}

-- `CreateResult` and the error that comes with it.
pub record CreateResult : Type 0 where
  pub verdict : Verdict
  pub txn : Option Txn
  pub token : String
  pub failure : Option Error

-- The result of a call, errors included.
abbrev pub caught : {A : Type 0} → Action A → Action (Result Error A)
caught m w = let (r, w') = m w in (ok r, w')

abbrev failure_of : Result Error (Unit {0}) → Option Error
failure_of (ok _) = none
failure_of (err e) = some e

abbrev loaded_or : Result Error Txn → Txn → Txn
loaded_or (ok t) _ = t
loaded_or (err _) t = t

unfoldable pub sync_initiate :
    {F : Type 0} → Service → FeeConfig F → Txn → Action (Txn × Option Error)
sync_initiate s c t = do
  r ← caught (process_gateway_initiate s c t.id)
  reloaded ← caught (get_by_id t.id)
  pure (loaded_or reloaded t, failure_of r)

abbrev created_result : Txn × Option Error → String → CreateResult
created_result p token = record { verdict = created; txn = some p.0; token = token; failure = p.1 }

unfoldable pub create_op : Service → Txn → String → Action (Response × Unit {0})
create_op s t token = do store_payment s t; pure (payment t.id token, tt)

unfoldable pub identity_key : Texts → CreateInput → String
identity_key x i = x.uuid i.tenant_id ++ (":" ++ (x.uuid i.user_id ++ (":" ++ i.gateway_id)))

abbrev create_composite : Texts → CreateInput → String
create_composite x i = composite x.hash (identity_key x i) "create_payment" i.idempotency_key

module _ {F : Type 0} where
  abbrev answer_created : Service → FeeConfig F → Txn → String → Action CreateResult
  answer_created s c t token = do
    p ← (if is_auto t.capture_mode then sync_initiate s c t else pure (t, none))
    pure (created_result p token)

  unfoldable pub create_unguarded :
      Service → CreateConfig F → CreateInput → Fresh → Action CreateResult
  create_unguarded s c i fresh = do
    built ← build_payment c i fresh
    within_tx (store_payment s built.0)
    p ←
        (if is_manual built.0.capture_mode
          then pure (built.0, none)
          else sync_initiate s c.fees built.0)
    pure (created_result p built.1)

  abbrev answer_replayed : Response → Service → FeeConfig F → Action CreateResult
  answer_replayed (payment id token) s c = do
    t ← get_by_id id
    p ← (if is_auto t.capture_mode then sync_initiate s c t else pure (t, none))
    pure (record { verdict = replayed; txn = some p.0; token = token; failure = none })
  answer_replayed _ s c = raise bad_response

  abbrev answer_create :
      Verdict → Answer → Service → FeeConfig F → Txn → String → Action CreateResult
  answer_create created a s c t token = answer_created s c t token
  answer_create replayed a s c t token = answer_replayed a.response s c
  answer_create v a s c t token =
      pure (record { verdict = v; txn = none; token = ""; failure = none })

  abbrev create_request_hash : Texts → CreateConfig F → CreateInput → String
  create_request_hash x c i = request_hash x.hash (
      identity_key x i
      ∷ x.int i.amount
      ∷ i.currency
      ∷ c.method_text i.payment_method
      ∷ i.callback_url
      ∷ i.redirect_url
      ∷ [])

  unfoldable pub create_guarded :
      Texts → Service → CreateConfig F → CreateInput → Fresh → Action CreateResult
  create_guarded x s c i fresh = do
    built ← build_payment c i fresh
    require_key (str_eq i.idempotency_key "")
    a ← execute (create_composite x i) (create_request_hash x c i) (create_op s built.0 built.1)
    answer_create a.0.verdict a.0 s c.fees built.0 built.1
