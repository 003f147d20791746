-- ===== src/Postgres/Webhooks.antt =====
-- The received events of the gateways, by event and gateway (internal/adapters/postgres/webhook.go),
-- and the payment behind a gateway's reference (transaction.go).
use payment_service.Prelude.{
  Bool, true, false, Option, none, some, List, [], ◌∷◌, String, str_eq, ◌&&◌, ◌||◌, if◌then◌else◌,
}
use payment_service.Domain.Transaction.{Txn}
use payment_service.Postgres.{Action, ◌>>=◌, ◌>>◌, pure, gets, modify, db_call}

unfoldable pub is_recorded : String → String → List (String × String) → Bool
is_recorded event gateway [] = false
is_recorded event gateway ((e, g) ∷ es) =
    (str_eq e event && str_eq g gateway) || is_recorded event gateway es

abbrev pub put_event : Bool → String → String → Action Bool
put_event true event gateway = pure false
put_event false event gateway = do
  modify (λ w. record w {
    db = record w.db { webhook_events = (event, gateway) ∷ w.db.webhook_events };
  })
  pure true

-- INSERT … ON CONFLICT DO NOTHING: whether a row was inserted.
unfoldable pub record_event : String → String → Action Bool
record_event event gateway = do
  db_call
  seen ← gets (λ w. is_recorded event gateway w.db.webhook_events)
  put_event seen event gateway

unfoldable pub find_by_reference : String → String → List Txn → Option Txn
find_by_reference gateway ref [] = none
find_by_reference gateway ref (t ∷ ts) =
    if str_eq t.gateway_id gateway && str_eq t.gateway_reference_id ref
    then some t
    else find_by_reference gateway ref ts

-- The first row that matches; no row is no error.
unfoldable pub get_by_gateway_reference : String → String → Action (Option Txn)
get_by_gateway_reference gateway ref = do
  db_call
  gets (λ w. find_by_reference gateway ref w.db.txns)
