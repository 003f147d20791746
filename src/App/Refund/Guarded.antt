-- ===== src/App/Refund/Guarded.antt =====
-- `InitiateRefund` with the idempotency guard (internal/app/refund/service.go). The texts of UUIDs
-- and numbers and the hash are arguments.
pub mod Safe
pub mod Repeated
use payment_service.Prelude.{
  ℕ, Bool, true, false, Option, none, some, List, [], ◌∷◌, String, str_eq, Result, ok, err,
  if◌then◌else◌,
}
use payment_service.Prelude.Int.{ℤ}
use payment_service.Domain.Transaction.{Txn}
use payment_service.Domain.Refund.{Refund}
use payment_service.Ports.Responses.{
  Response, refund, Verdict, created, replayed, in_progress, key_reused,
}
use payment_service.Postgres.{Action, World, ◌>>=◌, ◌>>◌, pure, raise, key_required, bad_response}
use payment_service.Postgres.Transactions.{get_by_id}
use payment_service.Postgres.Refunds
use payment_service.App.Idempotency.{Answer, require_key, execute}
use payment_service.App.Idempotency.Hashes.{Texts, composite, request_hash}
use payment_service.App.Payment.Service.{Service}
use payment_service.App.Refund.{
  InitiateInput, begin_refund, is_refundable_status, require_refundable,
}

-- `InitiateResult`.
pub record InitiateResult : Type 0 where
  pub verdict : Verdict
  pub refund : Option Refund

-- The operation that the guard runs: its response, and the refund that it leaves in `created`.
unfoldable pub refund_op : Service → InitiateInput → ℕ → Txn → Action (Response × Refund)
refund_op s i fresh parent = do r ← begin_refund s i fresh parent; pure (refund r.id, r)

abbrev pub reload_refund : Response → Action InitiateResult
reload_refund (refund id) = do
  r ← Refunds.get_by_id id
  pure (record { verdict = replayed; refund = some r })
reload_refund _ = raise bad_response

abbrev pub answer_refund : Answer × Option Refund → Verdict → Action InitiateResult
answer_refund (a, made) created = pure (record { verdict = created; refund = made })
answer_refund (a, made) replayed = reload_refund a.response
answer_refund (a, made) v = pure (record { verdict = v; refund = none })

unfoldable pub refund_composite : Texts → Txn → String → String
refund_composite x parent key = composite x.hash (x.uuid parent.tenant_id) "initiate_refund" key

unfoldable pub refund_request_hash : Texts → InitiateInput → String
refund_request_hash x i =
    request_hash x.hash (x.uuid i.transaction_id ∷ x.int i.amount ∷ i.reason ∷ i.initiated_by ∷ [])

unfoldable pub initiate_refund_guarded :
    Texts → Service → InitiateInput → String → ℕ → Action InitiateResult
initiate_refund_guarded x s i key fresh = do
  parent ← get_by_id i.transaction_id
  require_refundable (is_refundable_status parent.status)
  require_key (str_eq key "")
  a ← execute (refund_composite x parent key) (refund_request_hash x i) (refund_op s i fresh parent)
  answer_refund a a.0.verdict
