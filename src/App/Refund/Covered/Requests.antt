-- ===== src/App/Refund/Covered/Requests.antt =====
-- The requests for refunds keep the sums of the active refunds within the amounts
-- (internal/app/refund/service.go).
use payment_service.Prelude.{
  ℕ, ◌^◌, false, ◌==◌, ◌≡◌, refl, ap, ◌∙◌, inl, inr, List, ◌∷◌, Bool-cases, arith,
}
use payment_service.Prelude.Int.{ℤ, pos, negsuc, ◌≤ℤ◌, ◌<ℤ◌, ◌+ℤ◌, IsInt64, int_laws}
use payment_service.Domain.Transaction.{Txn, refund_pending, system}
use payment_service.Domain.Transaction.Machine.Diagram.{transition_state-kept}
use payment_service.Domain.Refund.{Refund}
use payment_service.Postgres.{World, Db, txn_error}
use payment_service.Postgres.Refunds.{sum_active}
use payment_service.Postgres.Steps.{bind, imply, gets-Ends, lift-Ends}
use payment_service.Postgres.Updates.{update_status-Ends, get_by_id-Kept}
use payment_service.Postgres.Told.{or_anything}
use payment_service.App.Payment.Service.{Service}
use payment_service.App.Refund.{
  InitiateInput, begin_refund, insert_refund, initiate_refund, is_refundable_status,
}
use payment_service.App.Refund.Inserted.{Inserted, insert_refund-Ends}
use payment_service.App.Refund.Requests.{require_refundable-Ends}
use payment_service.App.Refund.Covered.{
  IsCovered, Covers, sum_active-unfailed, active_within, sum_active-positive,
}
use payment_service.App.Refund.Covered.Updates.{payment_written}
use payment_service.App.Refund.Covered.Ended.{Stays, StaysInTx, here}
use payment_service.App.Refund.Covered.Run.{tx-Stays}

-- Amounts that add up within an int64.
abbrev pub IsModest : ℤ → Type 0
IsModest z = (negsuc (2 ^ 62) <ℤ z) × (z <ℤ pos (2 ^ 62))

sum_fits :
    (sum amount a : ℤ)
    → pos 0 ≤ℤ sum
    → sum ≤ℤ amount
    → IsModest amount
    → IsModest a
    → IsInt64 (sum +ℤ a)
sum_fits sum amount a p le (_, m) (n, k) = grind int_laws

sum_active-other :
    (txn : ℕ) (r : Refund) (rs : List Refund)
    → (r.transaction_id == txn) ≡ false
    → sum_active txn (r ∷ rs) ≡ sum_active txn rs
unfolding sum_active
sum_active-other txn r rs h = rw h refl

module _ {amount_of : ℕ → ℤ} {d : Db} (c : IsCovered amount_of d) where
  request_fits :
      (i : InitiateInput)
      → IsModest (amount_of i.transaction_id)
      → IsModest i.amount
      → IsInt64 (sum_active i.transaction_id d.refunds +ℤ i.amount)
  request_fits i m k =
      sum_fits _ _ i.amount (sum_active-positive i.transaction_id d.refunds c.is_positive)
        (active_within c i.transaction_id) m k

  within_inserted :
      (i : InitiateInput) (amount : ℤ) (r : Refund) {d' : Db} (id : ℕ)
      → Inserted i amount d.txns d.refunds r d'
      → amount ≡ amount_of i.transaction_id
      → sum_active id d'.refunds ≤ℤ amount_of id
  within_inserted i amount r {d'} id h e = elim (Bool-cases (r.transaction_id == id)) [
    | inl asked ↦
        let (_, t, _) = h.is_new in
        let same : i.transaction_id ≡ id = ground arith in
        let cap : amount ≡ amount_of id = e ∙ ap amount_of same in rw⁻¹ cap (rw⁻¹ same h.within_cap)
    | inr other ↦ rw h.in_table (rw (sum_active-other id r d.refunds other) (active_within c id))
  ]

  kept_by_insert :
      (i : InitiateInput) (amount : ℤ) (r : Refund) {d' : Db}
      → Inserted i amount d.txns d.refunds r d'
      → amount ≡ amount_of i.transaction_id
      → IsCovered amount_of d'
  kept_by_insert i amount r {d'} h e = record {
    is_priced = rw h.payments_kept c.is_priced;
    is_within = λ id. rw⁻¹ (sum_active-unfailed id d'.refunds) (within_inserted i amount r id h e);
    is_positive = let (p, _, _) = h.is_new in rw h.in_table ((omega arith, c.is_positive));
  }

module _ {amount_of : ℕ → ℤ} (w : World) (s : Service) (i : InitiateInput) (fresh : ℕ) where
  insert-Covers :
      (parent : Txn)
      → Covers amount_of w
      → parent.amount ≡ amount_of i.transaction_id
      → IsModest (amount_of i.transaction_id)
      → IsModest i.amount
      → StaysInTx amount_of (insert_refund s i fresh parent w)
  insert-Covers parent c e m k =
      imply (λ r w1 (h, _, _). kept_by_insert c i parent.amount r h e) (λ _ _. tt)
        (insert_refund-Ends s i fresh parent (request_fits c i m k) (here w))

module _ {amount_of : ℕ → ℤ} (w : World) (s : Service) (i : InitiateInput) (fresh : ℕ) where
  pub begin_refund-Covers :
      (parent : Txn)
      → Covers amount_of w
      → parent.amount ≡ amount_of i.transaction_id
      → IsModest (amount_of i.transaction_id)
      → IsModest i.amount
      → StaysInTx amount_of (begin_refund s i fresh parent w)
  unfolding begin_refund
  begin_refund-Covers parent c e m k =
      bind _ _ _ (gets-Ends (here w) (λ w. w.clock)) λ now w1 (_, at1).
        bind _ _ _ (or_anything (lift-Ends txn_error _ at1)) λ moved w2 (ok_moved, at2).
          bind _ _ _ (or_anything (update_status-Ends moved at2))
            λ parent' w3 (row, held, _, next, at3).
              let (_, _, _, amount) =
                transition_state-kept parent refund_pending system now ok_moved in
              insert-Covers w3 s i fresh parent'
                (rw at3.at_db (payment_written c moved.id row moved w.clock held))
                (ap (λ t. t.amount) next ∙ amount ∙ e) m k

module _ {amount_of : ℕ → ℤ} (w : World) (s : Service) (i : InitiateInput) (fresh : ℕ) where
  -- A request, whatever fails on the way.
  pub initiate_refund-Stays :
      IsModest (amount_of i.transaction_id)
      → IsModest i.amount
      → Covers amount_of w
      → Stays amount_of (initiate_refund s i fresh w)
  unfolding initiate_refund
  initiate_refund-Stays m k c =
      bind _ _ _
        (imply (λ _ _ h. h) (λ _ at. rw at.at_db c) (get_by_id-Kept i.transaction_id (here w)))
        λ parent w1 (found, at1).
          bind _ _ _
            (require_refundable-Ends (is_refundable_status parent.status) w1 (rw at1.at_db c))
            λ _ w2 (_, same).
              let c2 : Covers amount_of w2 = rw (same, at1.at_db) c in
              tx-Stays w2 (begin_refund s i fresh parent) c2 λ w3 e.
                begin_refund-Covers w3 s i fresh parent (rw e c2)
                  (c.is_priced i.transaction_id parent found) m k
