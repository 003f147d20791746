-- ===== src/App/Refund/Inserted.antt =====
-- What the insertion of a refund leaves (`insertRefund` in internal/app/refund/service.go).
use payment_service.Prelude.{ℕ, Bool, true, false, ◌≡◌, ap, List, ◌∷◌, ok, arith, is_some}
use payment_service.Prelude.Int.{ℤ, pos, ◌≤ℤ◌, ◌<ℤ◌, ◌+ℤ◌, IsInt64, int_laws}
use payment_service.Domain.Transaction.{Txn, Fresh}
use payment_service.Domain.Refund.{Refund, new, initiated, NewRefund}
use payment_service.Domain.Refund.Cap.{new_within_cap}
use payment_service.Postgres.{World, Db, Effect, refund_error}
use payment_service.Postgres.Transactions.{find_txn}
use payment_service.Postgres.Refunds.{
  sum_active, lock_parent_transaction, sum_active_refunds, insert, require_parent, is_active,
}
use payment_service.Postgres.Atomic.{InTx}
use payment_service.Postgres.Steps.{
  Ends, done, stopped, bind, At, Stopped, db_call-Ends, write_event-Ends, when_audit-Ends,
  gets-Ends, lift-Ends,
}
use payment_service.App.Payment.Service.{Service}
use payment_service.App.Refund.{InitiateInput, insert_refund, new_refund}

module _ {d : Db} {now : ℤ} {fx : List Effect} {w : World} (at : At d now fx w) where
  require_parent-Ends :
      (b : Bool) → Ends (λ _ w'. At d now fx w') (Stopped now fx) (require_parent b w)
  require_parent-Ends true = done at
  require_parent-Ends false =
      stopped (record { stopped_clock = at.at_clock; stopped_effects = at.at_effects })

  insert-Ends :
      (r : Refund)
      → Ends
          (λ _ w'. At (record d { refunds = r ∷ d.refunds }) now fx w')
          (Stopped now fx)
          (insert r w)
  unfolding insert
  insert-Ends r = bind _ _ _ (db_call-Ends at) λ _ w1 at1. done (ground arith)

  sum_active_refunds-Ends :
      (txn : ℕ)
      → Ends
          (λ a w'. (a ≡ sum_active txn d.refunds) × At d now fx w')
          (Stopped now fx)
          (sum_active_refunds txn w)
  unfolding sum_active_refunds
  sum_active_refunds-Ends txn = bind _ _ _ (db_call-Ends at) λ _ w1 at1. done (ground arith, at1)

module _ {d : Db} {now : ℤ} {fx : List Effect} {w : World} (at : At d now fx w) where
  lock_parent_transaction-Ends :
      (txn : ℕ) → Ends (λ _ w'. At d now fx w') (Stopped now fx) (lock_parent_transaction txn w)
  unfolding lock_parent_transaction
  lock_parent_transaction-Ends txn = bind _ _ _ (db_call-Ends at) λ _ w1 at1.
      bind _ _ _ (gets-Ends at1 (λ w. is_some (find_txn txn w.db.txns)))
        λ b w2 (_, at2). require_parent-Ends at2 b

-- A positive refund of the payment, that has not been sent yet.
abbrev pub IsNew : InitiateInput → Refund → Type 0
IsNew i r = (pos 0 <ℤ r.amount) × (r.transaction_id ≡ i.transaction_id) × (r.status ≡ initiated)

-- A refund was made from what the refunds of its payment add up to, and it is in the table.
pub record Inserted (i : InitiateInput) (amount : ℤ) (ts : List Txn) (rs : List Refund) (r : Refund)
    (d' : Db) : Type 0 where
  pub within_cap : sum_active i.transaction_id d'.refunds ≤ℤ amount
  pub in_table : d'.refunds ≡ r ∷ rs
  pub payments_kept : d'.txns ≡ ts
  pub is_new : IsNew i r

new_made :
    (a : NewRefund) (f : Fresh) {r : Refund}
    → new a f ≡ ok r
    → (r.transaction_id ≡ a.transaction_id) × (r.amount ≡ a.amount) × (r.status ≡ initiated)
unfolding new
new_made a f h = ground arith

sum_active-new :
    (txn : ℕ) (r : Refund) (rs : List Refund)
    → r.transaction_id ≡ txn
    → r.status ≡ initiated
    → sum_active txn (r ∷ rs) ≡ r.amount +ℤ sum_active txn rs
unfolding sum_active is_active
sum_active-new txn r rs e s = ground arith

-- A refund that is inserted keeps the refunds of its payment within the payment's amount.
new_keeps_cap :
    (i : InitiateInput) (parent : Txn) (rs : List Refund) (f : Fresh) (already : ℤ) {r : Refund}
    → already ≡ sum_active i.transaction_id rs
    → new (new_refund i parent already) f ≡ ok r
    → IsInt64 (sum_active i.transaction_id rs +ℤ i.amount)
    → sum_active i.transaction_id (record r { attempted_gateway = parent.gateway_id } ∷ rs)
      ≤ℤ parent.amount
new_keeps_cap i parent rs f already {r} e h fits =
    let (t, a, s) = new_made _ f h in
    let (_, cap, _) = new_within_cap (new_refund i parent already) f (rw e fits) h in
    rw (sum_active-new i.transaction_id (record r { attempted_gateway = parent.gateway_id }) rs t s)
      (grind int_laws)

new-IsNew :
    (i : InitiateInput) (parent : Txn) (rs : List Refund) (f : Fresh) (already : ℤ) {r : Refund}
    → already ≡ sum_active i.transaction_id rs
    → new (new_refund i parent already) f ≡ ok r
    → IsInt64 (sum_active i.transaction_id rs +ℤ i.amount)
    → IsNew i r
new-IsNew i parent rs f already e h fits =
    let (t, _, s) = new_made _ f h in
    let (positive, _, _) = new_within_cap (new_refund i parent already) f (rw e fits) h in
    (positive, t, s)

pub insert_refund-Ends :
    (s : Service) (i : InitiateInput) (fresh : ℕ) (parent : Txn) {d : Db} {now : ℤ}
    {fx : List Effect} {w : World}
    → IsInt64 (sum_active i.transaction_id d.refunds +ℤ i.amount)
    → At d now fx w
    → Ends
        (InTx (Inserted i parent.amount d.txns d.refunds) now fx)
        (Stopped now fx)
        (insert_refund s i fresh parent w)
unfolding insert_refund
insert_refund-Ends s i fresh parent {d} fits at =
    bind _ _ _ (lock_parent_transaction-Ends at i.transaction_id) λ _ w1 at1.
      bind _ _ _ (sum_active_refunds-Ends at1 i.transaction_id) λ already w2 (sum, at2).
        bind _ _ _ (gets-Ends at2 (λ w. w.clock)) λ now1 w3 (_, at3).
          bind _ _ _ (lift-Ends refund_error _ at3) λ made w4 (ok_made, at4).
            bind _ _ _ (insert-Ends at4 (record made { attempted_gateway = parent.gateway_id }))
              λ _ w5 at5. bind _ _ _ (write_event-Ends at5 _) λ _ w6 at6.
                bind _ _ _ (when_audit-Ends at6 s.has_audit _) λ _ w7 at7. done (
                  record {
                    within_cap =
                        rw at7.at_db
                          (new_keeps_cap i parent d.refunds _ already (sum) ok_made fits);
                    in_table = ap (λ e. e.refunds) at7.at_db;
                    payments_kept = ap (λ e. e.txns) at7.at_db;
                    is_new = new-IsNew i parent d.refunds _ already (sum) ok_made fits;
                  },
                  at7.at_clock,
                  at7.at_effects,
                )
