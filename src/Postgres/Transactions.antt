-- ===== src/Postgres/Transactions.antt =====
-- internal/adapters/postgres/transaction.go, and the audit and metadata writes that go with it.
pub mod Rows
pub mod Writes
use payment_service.Prelude.{
  ℕ, suc, Bool, false, Option, none, some, List, [], ◌∷◌, String, ◌==◌, ◌||◌, not, str_eq,
  if◌then◌else◌,
}
use payment_service.Prelude.Int.{ℤ}
use payment_service.Domain.Transaction.{Txn}
use payment_service.Ports.Outbox.{OutboxEvent}
use payment_service.Postgres.{
  Action, World, AuditEntry, ◌>>=◌, ◌>>◌, pure, raise, gets, modify, db_call, take_fault, not_found,
  version_conflict,
}

unfoldable pub find_txn : ℕ → List Txn → Option Txn
find_txn id [] = none
find_txn id (t ∷ ts) = if t.id == id then some t else find_txn id ts

-- The rows with this id are replaced; `id` is the primary key, so there is at most one.
unfoldable pub replace_txn : ℕ → Txn → List Txn → List Txn
replace_txn id new [] = []
replace_txn id new (t ∷ ts) = if t.id == id then new ∷ ts else t ∷ replace_txn id new ts

abbrev pub or_raise_not_found : Option Txn → Action Txn
or_raise_not_found none = raise not_found
or_raise_not_found (some t) = pure t

unfoldable pub get_by_id : ℕ → Action Txn
get_by_id id = do db_call; found ← gets (λ w. find_txn id w.db.txns); or_raise_not_found found

-- The columns that `UpdateStatus` writes; the rest of the row stays as it is.
abbrev pub updated_row : Txn → Txn → ℤ → Txn
updated_row row t now = record row {
  status = t.status;
  version = suc row.version;
  actual_gateway = t.actual_gateway;
  gateway_reference_id = t.gateway_reference_id;
  failure_reason = t.failure_reason;
  method_details = t.method_details;
  processing_started_at = t.processing_started_at;
  processing_timeout = t.processing_timeout;
  fee_breakdown = t.fee_breakdown;
  gateway_amount = t.gateway_amount;
  gateway_currency = t.gateway_currency;
  updated_at = now;
}

abbrev pub put_txn : Txn → Action (Unit {0})
put_txn row =
    modify (λ w. record w { db = record w.db { txns = replace_txn row.id row w.db.txns } })

abbrev pub write_row : Option Txn → Txn → ℤ → Action Txn
write_row none t now = do db_call; raise not_found
write_row (some row) t now =
    if row.version == t.version
    then (do put_txn (updated_row row t now); pure (record t { version = suc row.version }))
    else (do db_call; raise version_conflict)

-- The optimistic lock: the row is written only at the version that the caller read, and the caller's
-- copy gets the new version.
unfoldable pub update_status : Txn → Action Txn
update_status t = do
  db_call
  now ← gets (λ w. w.clock)
  row ← gets (λ w. find_txn t.id w.db.txns)
  write_row row t now

abbrev write_reference : Option Txn → String → ℕ → ℤ → Action (Unit {0})
write_reference none ref expected now = do db_call; raise not_found
write_reference (some row) ref expected now =
    if row.version == expected
    then put_txn (record row { gateway_reference_id = ref; updated_at = now })
    else (do db_call; raise version_conflict)

unfoldable pub update_gateway_reference : ℕ → String → ℕ → Action (Unit {0})
update_gateway_reference id ref expected = do
  db_call
  now ← gets (λ w. w.clock)
  row ← gets (λ w. find_txn id w.db.txns)
  write_reference row ref expected now

-- `OutboxWriter.Write`, the row's own id, shard and delivery columns left out.
unfoldable pub write_event : OutboxEvent → Action (Unit {0})
write_event e = do db_call; modify (λ w. record w { db = record w.db { outbox = e ∷ w.db.outbox } })

unfoldable pub has_entry : ℕ → List AuditEntry → Bool
has_entry id [] = false
has_entry id (e ∷ es) = (e.id == id) || has_entry id es

-- The check on the column `actor`.
abbrev pub is_audit_actor : String → Bool
is_audit_actor a = str_eq a "system" || str_eq a "tenant" || str_eq a "ops" || str_eq a "gateway"

-- The insert fails on a fault, on an id that is taken and on an unknown actor. It names the id, so
-- the column's default does not apply.
abbrev append_audit : AuditEntry → World → World
append_audit e w =
    let (broken, rest) = take_fault w.faults in
    if broken || has_entry e.id w.audit || not (is_audit_actor e.actor)
    then record w { faults = rest }
    else record w { faults = rest; audit = e ∷ w.audit }

-- `_ = audit.WriteEntry(…)`: on the pool, outside any transaction, and its error is dropped.
unfoldable pub write_audit : AuditEntry → Action (Unit {0})
write_audit e = modify (append_audit e)

unfoldable pub insert_gateway_metadata : ℕ → String → String → Action (Unit {0})
insert_gateway_metadata id gateway_id payload = do
  db_call
  modify (λ w. record w {
    db = record w.db { gateway_metadata = (id, gateway_id, payload) ∷ w.db.gateway_metadata };
  })
