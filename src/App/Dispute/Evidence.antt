-- ===== src/App/Dispute/Evidence.antt =====
-- The disputes that a tenant may see, and the evidence for them (internal/app/dispute/service.go).
pub mod Granted
use payment_service.Prelude.{
  ℕ, Bool, true, false, ◌==◌, Option, none, some, List, Result, ok, err, if◌then◌else◌,
}
use payment_service.Prelude.Int.{ℤ}
use payment_service.Domain.Transaction.{Txn}
use payment_service.Domain.Dispute.{
  Dispute, Evidence, invalid_transition, not_found, can_submit_evidence,
}
use payment_service.Postgres.{Action, World, Error, ◌>>=◌, ◌>>◌, pure, raise, dispute_error}
use payment_service.Postgres.Transactions
use payment_service.Postgres.Disputes.{get_by_id, update, add_evidence, list_by_dispute_id}

-- A payment that cannot be loaded belongs to nobody.
abbrev pub owned_of : ℕ → Result Error Txn × World → Result Error Bool × World
owned_of tenant (ok t, w) = (ok (t.tenant_id == tenant), w)
owned_of tenant (err _, w) = (ok false, w)

-- The nil UUID, 0, stands for the operators.
unfoldable pub tenant_can_access : ℕ → Dispute → Action Bool
tenant_can_access tenant d w =
    if tenant == 0
    then (ok true, w)
    else owned_of tenant (Transactions.get_by_id d.transaction_id w)

abbrev pub require_access : Bool → Action (Unit {0})
require_access true = pure tt
require_access false = raise (dispute_error not_found)

unfoldable pub get_dispute : ℕ → ℕ → Action Dispute
get_dispute tenant id = do
  d ← get_by_id id
  access ← tenant_can_access tenant d
  require_access access
  pure d

abbrev pub require_open : Bool → Action (Unit {0})
require_open true = pure tt
require_open false = raise (dispute_error invalid_transition)

abbrev pub mark_submitted : Option ℤ → Dispute → Evidence → Action (Unit {0})
mark_submitted (some _) d e = pure tt
mark_submitted none d e = update (record d { evidence_submitted_at = some e.submitted_at })

-- The evidence and the mark are two statements, in no transaction.
unfoldable pub submit_evidence : ℕ → ℕ → Evidence → Action (Unit {0})
submit_evidence tenant id ev = do
  d ← get_dispute tenant id
  require_open (can_submit_evidence d)
  add_evidence (record ev { dispute_id = id })
  mark_submitted d.evidence_submitted_at d ev

unfoldable pub list_evidence : ℕ → ℕ → Action (List Evidence)
list_evidence tenant id = do d ← get_dispute tenant id; list_by_dispute_id id
