-- ===== src/App/Reconciliation/Jobs.antt =====
-- The jobs of the reconciliation service (internal/app/reconciliation/service.go). The settlement
-- fetchers of the gateways are arguments, and so are the ids that the pages of the transaction list
-- give together, and the text of an error.
pub mod Fresh
pub mod Kept
pub mod Ended
use payment_service.Prelude.{
  ℕ, Bool, true, false, Option, none, some, List, [], ◌∷◌, length, contains, ◌==◌, String, str_eq,
  Result, ok, err, if◌then◌else◌,
}
use payment_service.Prelude.Int.{ℤ, pos, ◌+ℤ◌, ◌-ℤ◌}
use payment_service.Domain.Transaction.{Txn}
use payment_service.Domain.Reconciliation.{
  Job, JobStatus, Entry, pending, running, completed, failed, resolved,
}
use payment_service.Postgres.{
  Action, World, Error, ◌>>=◌, ◌>>◌, pure, raise, gets, ignore_error, not_found, no_fetcher,
  no_tenant, no_scope, fetch_failed, db_call,
}
use payment_service.Postgres.Transactions.{get_by_id}
use payment_service.Postgres.Reconciliation.{
  create_job, update_job, get_job, insert_entries, get_entry, update_entry,
}
use payment_service.App.Reconciliation.{SettlementEntry, Run, batch_entries, single_entries}

-- `FetchSettlementReport`, for a tenant, a gateway and a window.
abbrev pub Fetcher : Type 0
Fetcher = ℕ → String → ℤ → ℤ → Result (Unit {0}) (List SettlementEntry)

pub record Service : Type 0 where
  pub settlement_fetcher : String → Option Fetcher
  pub list_ids : ℕ → String → ℤ → ℤ → Action (List ℕ)
  pub draw : ℕ → ℕ
  pub total_of : String → ℤ
  pub error_text : Error → String

abbrev pub fetcher_of : Option Fetcher → Action Fetcher
fetcher_of none = raise no_fetcher
fetcher_of (some f) = pure f

abbrev pub report_of : Result (Unit {0}) (List SettlementEntry) → Action (List SettlementEntry)
report_of (err _) = raise fetch_failed
report_of (ok ses) = pure ses

abbrev pub run_of : Service → Job → Run
run_of s j = record { job_id = j.id; draw = s.draw; total_of = s.total_of }

abbrev pub window : ℤ
window = pos 86400000000000

unfoldable pub reconcile_single : Service → Job → ℕ → Action (List Entry)
reconcile_single s j id = do
  t ← get_by_id id
  fetch ← fetcher_of (s.settlement_fetcher t.gateway_id)
  ses ← report_of (fetch t.tenant_id t.gateway_id (t.created_at -ℤ window) (t.created_at +ℤ window))
  pure (single_entries (run_of s j) t ses)

unfoldable pub rows_of : List ℕ → List Txn → List Txn
rows_of ids [] = []
rows_of ids (t ∷ ts) =
    let rest = rows_of ids ts in if contains ◌==◌ ids t.id then t ∷ rest else rest

-- `GetByIDs`.
unfoldable pub get_by_ids : List ℕ → Action (List Txn)
get_by_ids [] = pure []
get_by_ids (id ∷ ids) = do db_call; gets (λ w. rows_of (id ∷ ids) w.db.txns)

abbrev pub tenant_of : Option ℕ → Action ℕ
tenant_of none = raise no_tenant
tenant_of (some t) = pure t

unfoldable pub reconcile_batch : Service → Job → ℤ → ℤ → Action (List Entry)
reconcile_batch s j start end_of_period = do
  fetch ← fetcher_of (s.settlement_fetcher j.gateway_id)
  tenant ← tenant_of j.tenant_id
  ses ← report_of (fetch tenant j.gateway_id start end_of_period)
  ids ← s.list_ids tenant j.gateway_id start end_of_period
  ts ← get_by_ids ids
  pure (batch_entries (run_of s j) ts ses)

abbrev pub reconcile_period : Service → Job → Option ℤ → Option ℤ → Action (List Entry)
reconcile_period s j (some start) (some end_of_period) = reconcile_batch s j start end_of_period
reconcile_period s j _ _ = raise no_scope

abbrev pub reconcile_by : Service → Job → Option ℕ → Action (List Entry)
reconcile_by s j (some id) = reconcile_single s j id
reconcile_by s j none = reconcile_period s j j.period_start j.period_end

unfoldable pub reconcile : Service → Job → Action (List Entry)
reconcile s j = reconcile_by s j j.transaction_id

-- A comparison that failed is written into the job, and its error comes back.
abbrev pub fail_job : Service → Job → Error → Action (Unit {0})
fail_job s j e = do
  now ← gets (λ w. w.clock)
  ignore_error
      (update_job (record j { status = failed; error = s.error_text e; completed_at = some now }))
  raise e

abbrev pub complete_job : Service → Job → List Entry → Action (Unit {0})
complete_job s j es = do
  insert_entries es
  now ← gets (λ w. w.clock)
  update_job (record j { mismatch_count = length es; status = completed; completed_at = some now })

abbrev pub after_reconcile :
    Service → Job → Result Error (List Entry) × World → Result Error (Unit {0}) × World
after_reconcile s j (ok es, w) = complete_job s j es w
after_reconcile s j (err e, w) = fail_job s j e w

unfoldable pub finish_job : Service → Job → Action (Unit {0})
finish_job s j w = after_reconcile s j (reconcile s j w)

-- `run`.
unfoldable pub run : Service → Job → Action (Unit {0})
run s j = do
  now ← gets (λ w. w.clock)
  let started = record j { status = running; started_at = some now }
  update_job started
  finish_job s started

-- Operators see every job, a service its own.
abbrev pub can_access_job : String → Job → Bool
can_access_job actor j = if str_eq actor "ops" then true else str_eq j.actor actor

abbrev pub require_access : Bool → Action (Unit {0})
require_access true = pure tt
require_access false = raise not_found

unfoldable pub get_visible_job : String → ℕ → Action Job
get_visible_job actor id = do j ← get_job id; require_access (can_access_job actor j); pure j

abbrev pub run_pending : JobStatus → Service → Job → Action (Unit {0})
run_pending pending s j = run s j
run_pending _ s j = pure tt

unfoldable pub run_job : Service → String → ℕ → Action (Unit {0})
run_job s actor id = do j ← get_visible_job actor id; run_pending j.status s j

unfoldable pub resolve_entry : String → ℕ → String → String → Action (Unit {0})
resolve_entry actor id resolved_by notes = do
  e ← get_entry id
  j ← get_visible_job actor e.job_id
  now ← gets (λ w. w.clock)
  update_entry (record e {
    resolution_status = resolved;
    resolved_by = resolved_by;
    resolved_at = some now;
    notes = notes;
  })

-- What `CreateJob` makes; the id is an argument.
unfoldable pub made_job : ℕ → String → Option ℕ → Option ℤ → Option ℤ → Option ℕ → String → ℤ → Job
made_job fresh gateway tenant start end_of_period txn triggered_by now = record {
  id = fresh;
  gateway_id = gateway;
  tenant_id = tenant;
  transaction_id = txn;
  period_start = start;
  period_end = end_of_period;
  status = pending;
  triggered_by = triggered_by;
  actor = triggered_by;
  mismatch_count = 0;
  error = "";
  started_at = none;
  completed_at = none;
  created_at = now;
}

unfoldable pub create_new_job :
    ℕ → String → Option ℕ → Option ℤ → Option ℤ → Option ℕ → String → Action Job
create_new_job fresh gateway tenant start end_of_period txn triggered_by = do
  now ← gets (λ w. w.clock)
  let j = made_job fresh gateway tenant start end_of_period txn triggered_by now
  create_job j
  pure j
