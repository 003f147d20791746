-- ===== src/App/Refund/Guarded/Repeated.antt =====
-- A guarded refund request that is sent again (internal/app/refund/service.go).
use payment_service.Prelude.{ℕ, ◌≡◌, refl, ap, ◌∙◌, some, String, ok, err}
use payment_service.Prelude.Int.{◌+ℤ◌, IsInt64}
use payment_service.Domain.Transaction.{Txn, refund_pending}
use payment_service.Ports.Responses.{created}
use payment_service.Postgres.{World, not_refundable, db_call, gets}
use payment_service.Postgres.Transactions.{find_txn, get_by_id, or_raise_not_found}
use payment_service.Postgres.Refunds.{sum_active}
use payment_service.Postgres.Steps.{Ends-ok}
use payment_service.Postgres.Clear.{Clear}
use payment_service.Postgres.Quiet.{db_call_quiet, bind_quiet, bind_fails}
use payment_service.App.Idempotency.Hashes.{Texts}
use payment_service.App.Payment.Service.{Service}
use payment_service.App.Refund.{InitiateInput, is_refundable_status, require_refundable}
use payment_service.App.Refund.Guarded.{InitiateResult, initiate_refund_guarded}
use payment_service.App.Refund.Guarded.Safe.{guarded_refund_within_cap}

pub get_by_id_quiet :
    (id : ℕ) (t : Txn) (w : World)
    → Clear w
    → find_txn id w.db.txns ≡ some t
    → get_by_id id w ≡ (ok t, w)
unfolding get_by_id
get_by_id_quiet id t w clear e =
    bind_quiet db_call _ tt (db_call_quiet w clear)
    ∙ bind_quiet (gets (λ w. find_txn id w.db.txns)) _ (find_txn id w.db.txns) refl
    ∙ ap (λ o. or_raise_not_found o w) e

refused :
    (x : Texts) (s : Service) (i : InitiateInput) (key : String) (fresh : ℕ) (t : Txn) (w : World)
    → Clear w
    → find_txn i.transaction_id w.db.txns ≡ some t
    → t.status ≡ refund_pending
    → initiate_refund_guarded x s i key fresh w ≡ (err not_refundable, w)
unfolding initiate_refund_guarded is_refundable_status
refused x s i key fresh t w clear e pending =
    bind_quiet (get_by_id i.transaction_id) _ t (get_by_id_quiet i.transaction_id t w clear e)
    ∙ bind_fails (require_refundable (is_refundable_status t.status)) _
        (ap (λ s. require_refundable (is_refundable_status s) w) pending)

-- A guarded refund request that was answered with `created` is not replayed when it is sent again:
-- as long as nothing else happens and nothing fails, every further request for the payment, with the
-- same key or another one, is answered with the error `not_refundable`, and the world stays as it
-- is. Condition: the sum that the first request's guard on over-refunds computed fits an int64.
pub repeat_refused :
    (x : Texts) (s : Service) (i i' : InitiateInput) (key key' : String) (fresh fresh' : ℕ)
    (w : World) {a : InitiateResult} {w1 : World}
    → IsInt64 (sum_active i.transaction_id w.db.refunds +ℤ i.amount)
    → initiate_refund_guarded x s i key fresh w ≡ (ok a, w1)
    → a.verdict ≡ created
    → i'.transaction_id ≡ i.transaction_id
    → Clear w1
    → initiate_refund_guarded x s i' key' fresh' w1 ≡ (err not_refundable, w1)
repeat_refused x s i i' key key' fresh fresh' w {w1 = w1} fits first v same clear =
    let (r, _, (parent, _, _, b)) =
      (Ends-ok (guarded_refund_within_cap x s i key fresh w fits) first).tables.0 v in
    refused x s i' key' fresh' b.pending w1 clear
      (ap (λ id. find_txn id w1.db.txns) same
        ∙ ap (find_txn i.transaction_id) b.is_inserted.payments_kept
        ∙ b.row_after)
      b.pending_after
