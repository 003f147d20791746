-- ===== src/Postgres/Refunds.antt =====
-- internal/adapters/postgres/refund.go: the refund rows.
use payment_service.Prelude.{
  ℕ, suc, Bool, true, false, Option, none, some, List, [], ◌∷◌, String, str_eq, ◌==◌, ◌||◌, ◌&&◌,
  if◌then◌else◌, is_some,
}
use payment_service.Prelude.Int.{ℤ, pos, ◌+ℤ◌}
use payment_service.Domain.Refund.{Refund, Status, status_eq, initiated, processing, refunded}
use payment_service.Postgres.{
  Action, ◌>>=◌, ◌>>◌, pure, raise, gets, modify, db_call, not_found, no_parent, version_conflict,
}
use payment_service.Postgres.Transactions.{find_txn}

unfoldable pub find_refund : ℕ → List Refund → Option Refund
find_refund id [] = none
find_refund id (r ∷ rs) = if r.id == id then some r else find_refund id rs

unfoldable pub replace_refund : ℕ → Refund → List Refund → List Refund
replace_refund id new [] = []
replace_refund id new (r ∷ rs) = if r.id == id then new ∷ rs else r ∷ replace_refund id new rs

-- The statuses that count towards the refunded sum.
unfoldable pub is_active : Status → Bool
is_active initiated = true
is_active processing = true
is_active refunded = true
is_active _ = false

-- SUM(amount) is exact in the database: a bigint sum is numeric.
unfoldable pub sum_active : ℕ → List Refund → ℤ
sum_active txn [] = pos 0
sum_active txn (r ∷ rs) =
    let rest = sum_active txn rs in
    if (r.transaction_id == txn) && is_active r.status then r.amount +ℤ rest else rest

unfoldable pub sum_active_refunds : ℕ → Action ℤ
sum_active_refunds txn = do db_call; gets (λ w. sum_active txn w.db.refunds)

unfoldable pub insert : Refund → Action (Unit {0})
insert r = do db_call; modify (λ w. record w { db = record w.db { refunds = r ∷ w.db.refunds } })

abbrev pub or_raise_not_found : Option Refund → Action Refund
or_raise_not_found none = raise not_found
or_raise_not_found (some r) = pure r

unfoldable pub get_by_id : ℕ → Action Refund
get_by_id id = do db_call; found ← gets (λ w. find_refund id w.db.refunds); or_raise_not_found found

abbrev pub put_refund : Refund → Action (Unit {0})
put_refund row =
    modify (λ w. record w { db = record w.db { refunds = replace_refund row.id row w.db.refunds } })

abbrev pub write_row : Option Refund → Refund → Action Refund
write_row none r = do db_call; raise not_found
write_row (some row) r =
    if row.version == r.version
    then (do
      put_refund (record row {
        status = r.status;
        version = suc row.version;
        gateway_refund_id = r.gateway_refund_id;
        actual_gateway = r.actual_gateway;
        attempts = r.attempts;
        failure_reason = r.failure_reason;
        resolved_at = r.resolved_at;
      })
      pure (record r { version = suc row.version }))
    else (do db_call; raise version_conflict)

unfoldable pub update_status : Refund → Action Refund
update_status r = do db_call; row ← gets (λ w. find_refund r.id w.db.refunds); write_row row r

unfoldable pub has_reason : ℕ → String → List Refund → Bool
has_reason txn reason [] = false
has_reason txn reason (r ∷ rs) =
    ((r.transaction_id == txn) && str_eq r.reason reason) || has_reason txn reason rs

unfoldable pub exists_by_reason : ℕ → String → Action Bool
exists_by_reason txn reason = do db_call; gets (λ w. has_reason txn reason w.db.refunds)

abbrev pub require_parent : Bool → Action (Unit {0})
require_parent true = pure tt
require_parent false = raise no_parent

-- SELECT … FOR UPDATE: one request at a time runs here, so the lock itself is not seen.
unfoldable pub lock_parent_transaction : ℕ → Action (Unit {0})
lock_parent_transaction txn = do
  db_call
  present ← gets (λ w. is_some (find_txn txn w.db.txns))
  require_parent present

abbrev pub claim_row : Option Refund → Refund → Action (Bool × Refund)
claim_row none r = pure (false, r)
claim_row (some row) r =
    if (status_eq row.status initiated || status_eq row.status processing)
      && (row.version == r.version)
    then (do
      put_refund (record row {
        status = processing;
        version = suc row.version;
        attempts = suc row.attempts;
      })
      pure (
        true,
        record r { status = processing; attempts = suc r.attempts; version = suc row.version },
      ))
    else pure (false, r)

-- The guarded update that lets one caller drive a refund; the caller's copy follows the row.
unfoldable pub claim_processing : Refund → Action (Bool × Refund)
claim_processing r = do db_call; row ← gets (λ w. find_refund r.id w.db.refunds); claim_row row r
