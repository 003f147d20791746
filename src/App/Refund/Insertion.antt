-- ===== src/App/Refund/Insertion.antt =====
-- `insertRefund` when nothing fails (internal/app/refund/service.go).
use payment_service.Prelude.{
  ℕ, Bool, true, false, ◌≡◌, ◌≢◌, refl, ap, Result, ok, is_some, arith, str_eq,
}
use payment_service.Prelude.Int.{ℤ, pos, ◌+ℤ◌, ◌≤ℤ◌, ◌<ℤ◌, IsInt64, int_laws}
use payment_service.Domain.Transaction.{
  Txn, Fresh, Status, captured, settled, partially_refunded, refund_failed, failed, refund_pending,
}
use payment_service.Domain.Transaction.Machine.Diagram.{
  ◌⟶◌, refund_captured, refund_settled, part_again, retry_refund,
}
use payment_service.Domain.Refund.{Refund, NewRefund, new, build}
use payment_service.Domain.Refund.Cap.{add64_exact}
use payment_service.Postgres.{World, Db, Error, AuditEntry, gets, lift, when, refund_error}
use payment_service.Postgres.Transactions.{find_txn, write_audit}
use payment_service.Postgres.Refunds.{
  sum_active, lock_parent_transaction, sum_active_refunds, insert, require_parent,
}
use payment_service.Postgres.Steps.{done, bind, imply}
use payment_service.Postgres.Clear.{
  Clear, ClearAt, Succeeds, db_call-Clear, call-Clear, write_event-Clear, write_audit-Clear,
}
use payment_service.App.Payment.Service.{Service}
use payment_service.App.Refund.{InitiateInput, insert_refund, new_refund, is_refundable_status}

-- What a request must be for `New` to accept it, the sum of the earlier refunds given.
pub record IsAcceptable (a : NewRefund) : Type 0 where
  pub has_transaction : a.transaction_id ≢ 0
  pub is_positive : pos 0 <ℤ a.amount
  pub has_reason : str_eq a.reason "" ≡ false
  pub has_initiator : str_eq a.initiated_by "" ≡ false
  pub earlier_positive : pos 0 ≤ℤ a.already_refunded
  pub within_amount : a.already_refunded +ℤ a.amount ≤ℤ a.original_amount
  pub fits : IsInt64 (a.already_refunded +ℤ a.amount)

cap_facts : (a b c : ℤ) → pos 0 ≤ℤ a → pos 0 <ℤ b → a +ℤ b ≤ℤ c → (pos 0 <ℤ c) × (a ≤ℤ c)
cap_facts a b c h k l = grind int_laws

new-IsAcceptable : (a : NewRefund) (f : Fresh) → IsAcceptable a → new a f ≡ ok (build a f)
unfolding new
new-IsAcceptable a f h = ground (
  arith,
  add64_exact a.already_refunded a.amount h.fits,
  cap_facts a.already_refunded a.amount a.original_amount h.earlier_positive h.is_positive
      h.within_amount,
)

pub refundable_pending :
    (s : Status) → is_refundable_status s ≡ true → (s ⟶ refund_pending) × ((s ≡ failed) → ⊥)
unfolding is_refundable_status
refundable_pending captured h = (refund_captured, λ e. cc)
refundable_pending settled h = (refund_settled, λ e. cc)
refundable_pending partially_refunded h = (part_again, λ e. cc)
refundable_pending refund_failed h = (retry_refund, λ e. cc)
refundable_pending _ h = absurd (cc)

module _ {w : World} (c : Clear w) where
  insert-Clear : (r : Refund) → Succeeds (λ _. Clear) (insert r w)
  unfolding insert
  insert-Clear r =
      bind _ _ _ (call-Clear c)
        λ _ w1 c1. done (record { no_faults = c1.no_faults; not_aborted = c1.not_aborted })

  require_parent-Clear :
      (b : Bool) (d : Db) → b ≡ true → w.db ≡ d → Succeeds (λ _. ClearAt d) (require_parent b w)
  require_parent-Clear true d e h = done (h, c)
  require_parent-Clear false d e h = absurd (cc)

  audit_if-Clear : (b : Bool) (x : AuditEntry) → Succeeds (λ _. Clear) (when b (write_audit x) w)
  audit_if-Clear true x = imply (λ _ _ (_, c). c) (λ _ h. h) (write_audit-Clear c x w.db refl)
  audit_if-Clear false x = done c

module _ {w : World} (c : Clear w) (d : Db) (same : w.db ≡ d) where
  lock-Clear :
      (id : ℕ)
      → is_some (find_txn id d.txns) ≡ true
      → Succeeds (λ _. ClearAt d) (lock_parent_transaction id w)
  unfolding lock_parent_transaction
  lock-Clear id found = bind _ _ _ (db_call-Clear c d same) λ _ w1 (d1, c1).
      bind {M = λ b w'. (b ≡ true) × ClearAt d w'} (gets (λ w. is_some (find_txn id w.db.txns))) _
        w1 (done (rw d1 found, (d1, c1))) λ b w2 (eb, (d2, c2)). require_parent-Clear c2 b d eb d2

  sum-Clear :
      (id : ℕ)
      → Succeeds (λ z w'. (z ≡ sum_active id d.refunds) × ClearAt d w') (sum_active_refunds id w)
  unfolding sum_active_refunds
  sum-Clear id =
      bind _ _ _ (db_call-Clear c d same)
        λ _ w1 (d1, c1). done (ap (λ d. sum_active id d.refunds) d1, (d1, c1))

pub lift_ok-Clear :
    {w : World} {X A : Type 0} (f : X → Error) (r : Result X A) (a : A) (P : World → Type 0)
    → r ≡ ok a
    → P w
    → Succeeds (λ b w'. (b ≡ a) × P w') (lift f r w)
lift_ok-Clear f r a P e h = rw e (done (refl, h))

pub insert_refund-Clear :
    (s : Service) (i : InitiateInput) (fresh : ℕ) (parent : Txn) (w : World) (d : Db)
    → Clear w
    → w.db ≡ d
    → is_some (find_txn i.transaction_id d.txns) ≡ true
    → IsAcceptable (new_refund i parent (sum_active i.transaction_id d.refunds))
    → Succeeds (λ _. Clear) (insert_refund s i fresh parent w)
unfolding insert_refund
insert_refund-Clear s i fresh parent w d c same found acceptable =
    bind _ _ _ (lock-Clear c d same i.transaction_id found) λ _ w1 (d1, c1).
      bind _ _ _ (sum-Clear c1 d d1 i.transaction_id) λ already w2 (sum, (d2, c2)).
        bind {M = λ _ w'. Clear w'} (gets (λ w. w.clock)) _ w2 (done c2) λ now w3 c3.
          bind _ _ _
            (lift_ok-Clear refund_error _ _ Clear (new-IsAcceptable _ _ (rw sum acceptable)) c3)
            λ made w4 (_, c4). bind _ _ _ (insert-Clear c4 _) λ _ w5 c5.
              bind _ _ _ (write_event-Clear c5 _)
                λ _ w6 c6. bind _ _ _ (audit_if-Clear c6 s.has_audit _) λ _ w7 c7. done c7
