-- ===== src/App/Reconciliation.antt =====
-- internal/app/reconciliation/service.go: how a settlement report is compared with the payments. The
-- id that the code draws for the `i`-th entry is `draw i`; the fee total of a stored breakdown is an
-- argument, since breakdowns are kept as their JSON.
pub mod Matches
pub mod Agreement
pub mod Complete
pub mod Jobs
use payment_service.Prelude.{
  ℕ, suc, Bool, true, false, not, ◌&&◌, ◌||◌, Option, none, some, List, [], ◌∷◌, ◌++◌, contains,
  length, ◌==◌, String, str_eq, if◌then◌else◌,
}
use payment_service.Prelude.Int.{ℤ, pos, ltb_ℤ, eq_ℤ}
use payment_service.Domain.Transaction.{Txn, Status, captured, settled, status_eq}
use payment_service.Domain.Reconciliation.{
  Entry, MismatchType, mismatch_status, mismatch_amount, mismatch_fee, mismatch_missing_internal,
  mismatch_missing_gateway, unresolved,
}

-- `ports.SettlementEntry`, less the exchange rate and the time.
pub record SettlementEntry : Type 0 where
  pub transaction_ref : String
  pub gateway_status : String
  pub gateway_amount : ℤ
  pub gateway_fees : Option ℤ

-- The amount that was charged at the gateway, if it is known.
unfoldable pub settled_amount_for : Txn → ℤ
settled_amount_for t = elim t.gateway_amount [ none ↦ t.amount | some a ↦ a ]

unfoldable pub is_internal_success : Status → Bool
is_internal_success s = status_eq s captured || status_eq s settled

-- What the entries of one run share.
pub record Run : Type 0 where
  pub job_id : ℕ
  pub draw : ℕ → ℕ
  pub total_of : String → ℤ

abbrev pub positive_total : ℤ → Option ℤ
positive_total z = if ltb_ℤ (pos 0) z then some z else none

unfoldable pub internal_fees_of : Run → Option String → Option ℤ
internal_fees_of r none = none
internal_fees_of r (some breakdown) = positive_total (r.total_of breakdown)

abbrev pub fees_differ : Option ℤ → Option ℤ → Bool
fees_differ (some a) (some b) = not (eq_ℤ a b)
fees_differ _ _ = false

abbrev pub entry_for : Run → ℕ → Txn → SettlementEntry → MismatchType → Entry
entry_for r i t se kind = record {
  id = r.draw i;
  job_id = r.job_id;
  transaction_id = t.id;
  internal_status = some t.status;
  gateway_status = se.gateway_status;
  internal_amount = settled_amount_for t;
  gateway_amount = se.gateway_amount;
  internal_fees = internal_fees_of r t.fee_breakdown;
  gateway_fees = se.gateway_fees;
  mismatch_type = kind;
  resolution_status = unresolved;
  resolved_by = "";
  resolved_at = none;
  notes = "";
}

-- `none` where the two sides agree.
unfoldable pub compare_transaction : Run → ℕ → Txn → SettlementEntry → Option Entry
compare_transaction r i t se =
    if is_internal_success t.status && not (str_eq se.gateway_status "succeeded")
    then some (entry_for r i t se mismatch_status)
    else if not (is_internal_success t.status) && str_eq se.gateway_status "succeeded"
    then some (entry_for r i t se mismatch_status)
    else if not (eq_ℤ (settled_amount_for t) se.gateway_amount)
    then some (entry_for r i t se mismatch_amount)
    else if fees_differ (internal_fees_of r t.fee_breakdown) se.gateway_fees
    then some (entry_for r i t se mismatch_fee)
    else none

-- A payment that the report does not mention.
unfoldable pub missing_gateway : Run → ℕ → Txn → Entry
missing_gateway r i t = record {
  id = r.draw i;
  job_id = r.job_id;
  transaction_id = t.id;
  internal_status = some t.status;
  gateway_status = "NOT_FOUND_IN_REPORT";
  internal_amount = settled_amount_for t;
  gateway_amount = pos 0;
  internal_fees = none;
  gateway_fees = none;
  mismatch_type = mismatch_missing_gateway;
  resolution_status = unresolved;
  resolved_by = "";
  resolved_at = none;
  notes = "";
}

-- A line of the report that belongs to no payment; its `transaction_id` is the nil UUID.
unfoldable pub missing_internal : Run → ℕ → SettlementEntry → Entry
missing_internal r i se = record {
  id = r.draw i;
  job_id = r.job_id;
  transaction_id = 0;
  internal_status = none;
  gateway_status = se.gateway_status;
  internal_amount = pos 0;
  gateway_amount = se.gateway_amount;
  internal_fees = none;
  gateway_fees = se.gateway_fees;
  mismatch_type = mismatch_missing_internal;
  resolution_status = unresolved;
  resolved_by = "";
  resolved_at = none;
  notes = "";
}

-- The map from references to payments: a later payment takes the place of an earlier one, and a
-- payment with no reference is left out.
unfoldable pub by_reference : String → List Txn → Option Txn
by_reference ref [] = none
by_reference ref (t ∷ ts) = elim (by_reference ref ts) as (λ _. Option Txn) [
  | some later ↦ some later
  | none ↦
      if not (str_eq t.gateway_reference_id "") && str_eq t.gateway_reference_id ref
      then some t
      else none
]

abbrev pub line_entries : Run → ℕ → SettlementEntry → Option Txn → List Entry
line_entries r i se none = missing_internal r i se ∷ []
line_entries r i se (some t) = elim (compare_transaction r i t se) as (λ _. List Entry) [
  | none ↦ []
  | some e ↦ e ∷ []
]

-- The entries of the report's lines from the `i`-th on.
unfoldable pub report_entries : Run → ℕ → List Txn → List SettlementEntry → List Entry
report_entries r i ts [] = []
report_entries r i ts (se ∷ ses) =
    line_entries r i se (by_reference se.transaction_ref ts) ++ report_entries r (suc i) ts ses

abbrev add_matched : Option Txn → List ℕ → List ℕ
add_matched none ids = ids
add_matched (some t) ids = t.id ∷ ids

-- The payments that some line belongs to.
unfoldable pub matched_internal : List Txn → List SettlementEntry → List ℕ
matched_internal ts [] = []
matched_internal ts (se ∷ ses) =
    add_matched (by_reference se.transaction_ref ts) (matched_internal ts ses)

unfoldable pub unmatched_entries : Run → ℕ → List ℕ → List Txn → List Entry
unmatched_entries r i matched [] = []
unmatched_entries r i matched (t ∷ ts) =
    let rest = unmatched_entries r (suc i) matched ts in
    if contains ◌==◌ matched t.id then rest else missing_gateway r i t ∷ rest

-- The comparison of `reconcileBatch`: the report's lines, then the payments left over.
unfoldable pub batch_entries : Run → List Txn → List SettlementEntry → List Entry
batch_entries r ts ses =
    report_entries r 0 ts ses ++ unmatched_entries r (length ses) (matched_internal ts ses) ts

-- The lines of `reconcileSingle`, and whether one of them is the payment's.
unfoldable pub single_lines : Run → ℕ → Txn → List SettlementEntry → List Entry × Bool
single_lines r i t [] = ([], false)
single_lines r i t (se ∷ ses) =
    let rest = single_lines r (suc i) t ses in
    if not (str_eq se.transaction_ref t.gateway_reference_id)
    then rest
    else (line_entries r i se (some t) ++ rest.0, true)

unfoldable pub single_entries : Run → Txn → List SettlementEntry → List Entry
single_entries r t ses =
    let (lines, found) = single_lines r 0 t ses in
    if found then lines else lines ++ missing_gateway r (length ses) t ∷ []
