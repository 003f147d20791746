-- ===== src/Postgres/Reconciliation.antt =====
-- internal/adapters/postgres/reconciliation.go: the jobs and the entries. A NULL column that is
-- scanned into a Go string is an error of the scan.
use payment_service.Prelude.{
  ℕ, Bool, true, false, Option, none, some, List, [], ◌∷◌, ◌++◌, ◌==◌, is_some, not, ◌&&◌, ◌||◌,
  map, if◌then◌else◌,
}
use payment_service.Domain.Transaction.{Txn}
use payment_service.Domain.Reconciliation.{Job, Entry}
use payment_service.Postgres.{
  Action, JobRow, EntryRow, ◌>>=◌, ◌>>◌, pure, raise, gets, modify, db_call, db_fault, not_found,
  scan_failed,
}
use payment_service.Postgres.Transactions.{find_txn}

unfoldable pub find_job : ℕ → List JobRow → Option JobRow
find_job id [] = none
find_job id (r ∷ rs) = if r.job.id == id then some r else find_job id rs

-- The columns of an insert; `error` is not among them.
abbrev pub new_job : Job → JobRow
new_job j = record { job = j; error_set = false }

abbrev insert_unless : Bool → Job → Action (Unit {0})
insert_unless true j = raise db_fault
insert_unless false j = modify (λ w. record w { db = record w.db { jobs = new_job j ∷ w.db.jobs } })

-- One payment, or a period.
abbrev pub has_scope : Job → Bool
has_scope j =
    (is_some j.transaction_id && not (is_some j.period_start) && not (is_some j.period_end))
    || (not (is_some j.transaction_id) && is_some j.period_start && is_some j.period_end)

abbrev has_payment : Option ℕ → List Txn → Bool
has_payment none ts = true
has_payment (some id) ts = is_some (find_txn id ts)

-- The check on the text `triggered_by` is left out.
unfoldable pub create_job : Job → Action (Unit {0})
create_job j = do
  db_call
  taken ← gets (λ w. is_some (find_job j.id w.db.jobs))
  known ← gets (λ w. has_payment j.transaction_id w.db.txns)
  insert_unless (taken || not known || not (has_scope j)) j

abbrev pub updated_job : JobRow → Job → JobRow
updated_job r j = record {
  job = record r.job {
    status = j.status;
    mismatch_count = j.mismatch_count;
    error = j.error;
    started_at = j.started_at;
    completed_at = j.completed_at;
  };
  error_set = true;
}

unfoldable pub update_jobs : Job → List JobRow → List JobRow
update_jobs j [] = []
update_jobs j (r ∷ rs) = if r.job.id == j.id then updated_job r j ∷ rs else r ∷ update_jobs j rs

unfoldable pub update_job : Job → Action (Unit {0})
update_job j = do
  db_call
  modify (λ w. record w { db = record w.db { jobs = update_jobs j w.db.jobs } })

abbrev pub scanned_job : Option JobRow → Action Job
scanned_job none = raise not_found
scanned_job (some r) = if r.error_set then pure r.job else raise scan_failed

unfoldable pub get_job : ℕ → Action Job
get_job id = do db_call; found ← gets (λ w. find_job id w.db.jobs); scanned_job found

-- The foreign keys: the payment and the job of each entry exist.
unfoldable pub have_payments : List Txn → List Entry → Bool
have_payments ts [] = true
have_payments ts (e ∷ es) = is_some (find_txn e.transaction_id ts) && have_payments ts es

unfoldable pub have_jobs : List JobRow → List Entry → Bool
have_jobs rs [] = true
have_jobs rs (e ∷ es) = is_some (find_job e.job_id rs) && have_jobs rs es

abbrev pub new_entry : Entry → EntryRow
new_entry e = record { entry = e; texts_set = false }

abbrev pub put_entries : Bool → List Entry → Action (Unit {0})
put_entries false es = raise db_fault
put_entries true es =
    modify (λ w. record w { db = record w.db { entries = map new_entry es ++ w.db.entries } })

-- The batch is one implicit transaction. The entries' ids are fresh.
unfoldable pub insert_entries : List Entry → Action (Unit {0})
insert_entries [] = pure tt
insert_entries (e ∷ es) = do
  db_call
  fine ← gets (λ w. have_payments w.db.txns (e ∷ es) && have_jobs w.db.jobs (e ∷ es))
  put_entries fine (e ∷ es)

unfoldable pub find_entry : ℕ → List EntryRow → Option EntryRow
find_entry id [] = none
find_entry id (r ∷ rs) = if r.entry.id == id then some r else find_entry id rs

abbrev pub scanned_entry : Option EntryRow → Action Entry
scanned_entry none = raise not_found
scanned_entry (some r) = if r.texts_set then pure r.entry else raise scan_failed

unfoldable pub get_entry : ℕ → Action Entry
get_entry id = do db_call; found ← gets (λ w. find_entry id w.db.entries); scanned_entry found

abbrev pub updated_entry : EntryRow → Entry → EntryRow
updated_entry r e = record {
  entry = record r.entry {
    resolution_status = e.resolution_status;
    resolved_by = e.resolved_by;
    resolved_at = e.resolved_at;
    notes = e.notes;
  };
  texts_set = true;
}

unfoldable pub update_entries : Entry → List EntryRow → List EntryRow
update_entries e [] = []
update_entries e (r ∷ rs) =
    if r.entry.id == e.id then updated_entry r e ∷ rs else r ∷ update_entries e rs

unfoldable pub update_entry : Entry → Action (Unit {0})
update_entry e = do
  db_call
  modify (λ w. record w { db = record w.db { entries = update_entries e w.db.entries } })
