-- ===== src/Postgres/Disputes.antt =====
-- internal/adapters/postgres/dispute.go: the disputes and their evidence. Outside a transaction the
-- calls go to the pool, which a round trip covers too.
use payment_service.Prelude.{
  ℕ, Bool, true, false, Option, none, some, List, [], ◌∷◌, String, str_eq, ◌==◌, ◌&&◌, is_some,
  ◌||◌, if◌then◌else◌,
}
use payment_service.Domain.Dispute.{Dispute, Evidence, not_found}
use payment_service.Postgres.{
  Action, ◌>>=◌, ◌>>◌, pure, raise, gets, modify, db_call, db_fault, dispute_error,
}
use payment_service.Postgres.Transactions.{find_txn}

unfoldable pub find_dispute : ℕ → List Dispute → Option Dispute
find_dispute id [] = none
find_dispute id (d ∷ ds) = if d.id == id then some d else find_dispute id ds

abbrev pub is_gateway_dispute : String → String → Dispute → Bool
is_gateway_dispute gateway ref d = str_eq d.gateway_id gateway && str_eq d.gateway_dispute_id ref

unfoldable pub find_gateway_dispute : String → String → List Dispute → Option Dispute
find_gateway_dispute gateway ref [] = none
find_gateway_dispute gateway ref (d ∷ ds) =
    if is_gateway_dispute gateway ref d then some d else find_gateway_dispute gateway ref ds

abbrev pub scanned : Option Dispute → Action Dispute
scanned none = raise (dispute_error not_found)
scanned (some d) = pure d

unfoldable pub get_by_id : ℕ → Action Dispute
get_by_id id = do db_call; found ← gets (λ w. find_dispute id w.db.disputes); scanned found

unfoldable pub get_by_gateway_dispute_id : String → String → Action Dispute
get_by_gateway_dispute_id gateway ref = do
  db_call
  found ← gets (λ w. find_gateway_dispute gateway ref w.db.disputes)
  scanned found

-- The columns that `Update` writes.
abbrev pub updated_dispute : Dispute → Dispute → Dispute
updated_dispute row d = record row {
  reason = d.reason;
  status = d.status;
  evidence_due_by = d.evidence_due_by;
  evidence_submitted_at = d.evidence_submitted_at;
  resolved_at = d.resolved_at;
}

unfoldable pub update_rows : Dispute → List Dispute → List Dispute
update_rows d [] = []
update_rows d (x ∷ xs) = if x.id == d.id then updated_dispute x d ∷ xs else x ∷ update_rows d xs

-- No row is no error.
unfoldable pub update : Dispute → Action (Unit {0})
update d = do
  db_call
  modify (λ w. record w { db = record w.db { disputes = update_rows d w.db.disputes } })

abbrev pub insert_unless : Bool → Dispute → Action (Unit {0})
insert_unless true d = raise db_fault
insert_unless false d = modify (λ w. record w { db = record w.db { disputes = d ∷ w.db.disputes } })

-- The payment is a foreign key; the id, and the gateway with its id, are unique.
abbrev pub is_refused : Dispute → List Dispute → Bool → Bool
is_refused d ds has_payment =
    is_some (find_dispute d.id ds)
    || is_some (find_gateway_dispute d.gateway_id d.gateway_dispute_id ds)
    || (if has_payment then false else true)

unfoldable pub create : Dispute → Action (Unit {0})
create d = do
  db_call
  refused ← gets (λ w. is_refused d w.db.disputes (is_some (find_txn d.transaction_id w.db.txns)))
  insert_unless refused d

abbrev pub add_unless : Bool → Evidence → Action (Unit {0})
add_unless true e = raise db_fault
add_unless false e = modify (λ w. record w { db = record w.db { evidence = e ∷ w.db.evidence } })

unfoldable pub has_evidence : ℕ → List Evidence → Bool
has_evidence id [] = false
has_evidence id (e ∷ es) = (e.id == id) || has_evidence id es

-- The dispute is a foreign key.
unfoldable pub add_evidence : Evidence → Action (Unit {0})
add_evidence e = do
  db_call
  taken ← gets (λ w. has_evidence e.id w.db.evidence)
  orphan ← gets (λ w. if is_some (find_dispute e.dispute_id w.db.disputes) then false else true)
  add_unless (taken || orphan) e

unfoldable pub evidence_of : ℕ → List Evidence → List Evidence
evidence_of id [] = []
evidence_of id (e ∷ es) =
    let rest = evidence_of id es in if e.dispute_id == id then e ∷ rest else rest

-- The order of the rows is left open.
unfoldable pub list_by_dispute_id : ℕ → Action (List Evidence)
list_by_dispute_id id = do db_call; gets (λ w. evidence_of id w.db.evidence)
