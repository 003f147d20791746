-- ===== src/Postgres/Transactions/Writes.antt =====
-- `Insert`, `SetCancelIntent` and `ListExpiredLeaseIDs`
-- (internal/adapters/postgres/transaction.go).
use payment_service.Prelude.{
  ℕ, Bool, true, false, Option, none, some, List, [], ◌∷◌, is_some, ◌&&◌, if◌then◌else◌,
}
use payment_service.Prelude.Int.{ℤ}
use payment_service.Domain.Transaction.{Txn, Actor, CancelVia, processing, status_eq, lease_passed}
use payment_service.Domain.Transaction
use payment_service.Postgres.{Action, ◌>>=◌, ◌>>◌, pure, raise, gets, modify, db_call, db_fault}
use payment_service.Postgres.Transactions.{find_txn, put_txn}

abbrev insert_unless : Bool → Txn → Action (Unit {0})
insert_unless true t = raise db_fault
insert_unless false t = modify (λ w. record w { db = record w.db { txns = t ∷ w.db.txns } })

-- The id is the primary key.
unfoldable pub insert : Txn → Action (Unit {0})
insert t = do db_call; taken ← gets (λ w. is_some (find_txn t.id w.db.txns)); insert_unless taken t

abbrev pub mark_cancel : Option Txn → Actor → CancelVia → ℤ → Action Bool
mark_cancel none by via now = pure false
mark_cancel (some row) by via now =
    if row.cancel_intent
    then pure false
    else (do put_txn (Transaction.set_cancel_intent row by via now); pure true)

-- Whether a row was changed. The version stays as it is.
unfoldable pub set_cancel_intent : ℕ → Actor → CancelVia → Action Bool
set_cancel_intent id by via = do
  db_call
  now ← gets (λ w. w.clock)
  row ← gets (λ w. find_txn id w.db.txns)
  mark_cancel row by via now

unfoldable pub expired_ids : ℤ → List Txn → List ℕ
expired_ids now [] = []
expired_ids now (t ∷ ts) =
    let rest = expired_ids now ts in
    if status_eq t.status processing
      && lease_passed t.processing_started_at t.processing_timeout now
    then t.id ∷ rest
    else rest

unfoldable pub list_expired_lease_ids : Action (List ℕ)
list_expired_lease_ids = do db_call; gets (λ w. expired_ids w.clock w.db.txns)
