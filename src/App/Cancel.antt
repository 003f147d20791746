-- ===== src/App/Cancel.antt =====
-- internal/app/cancel/service.go: a request to cancel marks the payment; the payment service acts on
-- the mark when the gateway has answered.
pub mod Requests
use payment_service.Prelude.{
  ℕ, Bool, true, false, not, ◌&&◌, Option, none, some, List, [], ◌∷◌, String, ◌==◌, str_eq,
  if◌then◌else◌,
}
use payment_service.Domain.Transaction.{
  Txn, Status, Actor, system, tenant, ops, gateway, CancelVia, api, dashboard, ops_tool,
  is_terminal,
}
use payment_service.Ports.Responses.{
  CancelOutcome, requested, already_terminal, Response, cancel, Verdict, created, replayed,
  in_progress, key_reused,
}
use payment_service.Postgres.{
  Action, ◌>>=◌, ◌>>◌, pure, raise, when, not_found, bad_response, of_txn, cancel_intent_set,
}
use payment_service.Postgres.Transactions.{get_by_id, write_audit}
use payment_service.Postgres.Transactions.Writes.{set_cancel_intent}
use payment_service.App.Idempotency.{Answer, require_key, execute}
use payment_service.App.Idempotency.Hashes.{Texts, composite, request_hash}

pub record CancelInput : Type 0 where
  pub transaction_id : ℕ
  pub tenant_id : ℕ
  pub by : Actor
  pub via : CancelVia
  pub idempotency_key : String

-- `Result`; the outcome and the status are empty for the other verdicts.
pub record CancelResult : Type 0 where
  pub verdict : Verdict
  pub outcome : Option (CancelOutcome × Status)

abbrev pub actor_text : Actor → String
actor_text system = "system"
actor_text tenant = "tenant"
actor_text ops = "ops"
actor_text gateway = "gateway"

abbrev pub via_text : CancelVia → String
via_text api = "api"
via_text dashboard = "dashboard"
via_text ops_tool = "ops-tool"

abbrev audit_cancel : Bool → CancelInput → Txn → Action (Unit {0})
audit_cancel has_audit i t = when has_audit (
    write_audit (record {
      id = 0;
      transaction_id = i.transaction_id;
      actor = actor_text i.by;
      previous = of_txn t.status;
      next = of_txn t.status;
      reason = cancel_intent_set;
    }))

abbrev pub request_cancel : Bool → CancelInput → Txn → Action (CancelOutcome × Status)
request_cancel has_audit i t = do
  was_set ← set_cancel_intent i.transaction_id i.by i.via
  when was_set (audit_cancel has_audit i t)
  pure (requested, t.status)

abbrev pub cancel_open : Bool → CancelInput → Txn → Action (CancelOutcome × Status)
cancel_open has_audit i t =
    if is_terminal t.status
    then pure (already_terminal, t.status)
    else if t.cancel_intent
    then pure (requested, t.status)
    else request_cancel has_audit i t

-- A payment of another tenant is answered as one that is not there.
abbrev pub cancel_owned : Bool → Bool → CancelInput → Txn → Action (CancelOutcome × Status)
cancel_owned true has_audit i t = raise not_found
cancel_owned false has_audit i t = cancel_open has_audit i t

-- `Service.cancel`.
unfoldable pub cancel_payment : Bool → CancelInput → Action (CancelOutcome × Status)
cancel_payment has_audit i = do
  t ← get_by_id i.transaction_id
  cancel_owned (not (i.tenant_id == 0) && not (t.tenant_id == i.tenant_id)) has_audit i t

unfoldable pub cancel_op : Bool → CancelInput → Action (Response × (CancelOutcome × Status))
cancel_op has_audit i = do o ← cancel_payment has_audit i; pure (cancel o.0 o.1, o)

abbrev stored_cancel : Response → Action CancelResult
stored_cancel (cancel o s) = pure (record { verdict = replayed; outcome = some (o, s) })
stored_cancel _ = raise bad_response

abbrev answer_cancel : Answer × Option (CancelOutcome × Status) → Verdict → Action CancelResult
answer_cancel (a, made) created = pure (record { verdict = created; outcome = made })
answer_cancel (a, made) replayed = stored_cancel a.response
answer_cancel (a, made) v = pure (record { verdict = v; outcome = none })

abbrev cancel_composite : Texts → CancelInput → String
cancel_composite x i = composite x.hash (x.uuid i.transaction_id) "cancel_payment" i.idempotency_key

abbrev cancel_request_hash : Texts → CancelInput → String
cancel_request_hash x i =
    request_hash x.hash (x.uuid i.transaction_id ∷ actor_text i.by ∷ via_text i.via ∷ [])

abbrev cancel_unguarded : Bool → CancelInput → Action CancelResult
cancel_unguarded has_audit i = do
  o ← cancel_payment has_audit i
  pure (record { verdict = created; outcome = some o })

abbrev cancel_guarded : Texts → Bool → CancelInput → Action CancelResult
cancel_guarded x has_audit i = do
  require_key (str_eq i.idempotency_key "")
  a ← execute (cancel_composite x i) (cancel_request_hash x i) (cancel_op has_audit i)
  answer_cancel a a.0.verdict

-- `Service.Cancel`, without a guard or with one.
unfoldable pub cancel_request : Option Texts → Bool → CancelInput → Action CancelResult
cancel_request none has_audit i = cancel_unguarded has_audit i
cancel_request (some x) has_audit i = cancel_guarded x has_audit i
