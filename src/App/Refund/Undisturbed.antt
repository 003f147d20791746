-- ===== src/App/Refund/Undisturbed.antt =====
-- `InitiateRefund` when nothing fails (internal/app/refund/service.go).
use payment_service.Prelude.{
  ℕ, Bool, true, false, ◌≡◌, refl, sym, ap, ◌∙◌, some, [], Result, ok, is_some,
}
use payment_service.Prelude.Int.{ℤ}
use payment_service.Domain.Transaction.{Txn, refund_pending, system}
use payment_service.Domain.Transaction.Machine.Diagram.{
  moved, transition_state-ok_iff, transition_state-kept,
}
use payment_service.Domain.Refund.{Refund}
use payment_service.Postgres.{World, Db, Error, gets, ◌>>=◌, txn_error}
use payment_service.Postgres.Transactions.{find_txn, updated_row, update_status, get_by_id}
use payment_service.Postgres.Refunds.{sum_active}
use payment_service.Postgres.Steps.{Ends, Ends-ok, At, done, stopped, bind}
use payment_service.Postgres.Updates.{update_status-Ends}
use payment_service.Postgres.Clear.{
  Clear, ClearAt, Succeeds, Succeeds-ok, is_aborted, update_status-Clear, within_tx-Clear,
  db_call-Clear,
}
use payment_service.App.Refund.Requests.{Requested, initiate_refund_within_cap}
use payment_service.App.Payment.Service.{Service}
use payment_service.App.Refund.{
  InitiateInput, insert_refund, new_refund, is_refundable_status, begin_refund, initiate_refund,
  require_refundable,
}
use payment_service.Postgres.Transactions.Rows.{find_txn-replace, find_txn-id}
use payment_service.App.Refund.Insertion.{
  IsAcceptable, refundable_pending, lift_ok-Clear, insert_refund-Clear,
}

IsAcceptable-amount :
    (i : InitiateInput) (parent parent' : Txn) (z : ℤ)
    → parent'.amount ≡ parent.amount
    → IsAcceptable (new_refund i parent z)
    → IsAcceptable (new_refund i parent' z)
IsAcceptable-amount i parent parent' z e h = rw e h

both :
    {A : Type 0} {P Q : A → World → Type 0} {E : World → Type 0} {p : Result Error A × World}
    → Ends P E p
    → Succeeds Q p
    → Succeeds (λ a w. P a w × Q a w) p
both (done h) (done k) = done (h, k)
both (stopped h) (stopped k) = stopped k

-- The payment is written, and the refund is inserted for the payment as written.
update_then_insert :
    (s : Service) (i : InitiateInput) (fresh : ℕ) (parent m : Txn) (w : World) (d : Db)
    → Clear w
    → w.db ≡ d
    → find_txn i.transaction_id d.txns ≡ some parent
    → (m.id ≡ parent.id) × (m.version ≡ parent.version) × (m.amount ≡ parent.amount)
    → IsAcceptable (new_refund i parent (sum_active i.transaction_id d.refunds))
    → Succeeds (λ _. Clear) ((update_status m >>= insert_refund s i fresh) w)
update_then_insert s i fresh parent m w d c same found (mi, mv, ma) acceptable =
    let at : At d w.clock w.effects w = record {
      at_db = same;
      at_clock = refl;
      at_effects = refl;
    } in
    let key : m.id ≡ i.transaction_id = mi ∙ find_txn-id i.transaction_id d.txns parent found in
    bind _ _ _
      (both (update_status-Ends m at)
        (update_status-Clear m parent c (rw same (rw key found)) (sym mv)))
      λ parent' w1 ((row, _, _, next, at1), c1).
        insert_refund-Clear s i fresh parent' w1 _ c1 at1.at_db
          (find_txn-replace i.transaction_id row.id (updated_row row m w.clock) d.txns refl
            (ap is_some found))
          (IsAcceptable-amount i parent parent' _ (ap (λ t. t.amount) next ∙ ma) acceptable)

begin_refund-Clear :
    (s : Service) (i : InitiateInput) (fresh : ℕ) (parent : Txn) (w : World) (d : Db)
    → Clear w
    → w.db ≡ d
    → find_txn i.transaction_id d.txns ≡ some parent
    → is_refundable_status parent.status ≡ true
    → IsAcceptable (new_refund i parent (sum_active i.transaction_id d.refunds))
    → Succeeds (λ _. Clear) (begin_refund s i fresh parent w)
unfolding begin_refund
begin_refund-Clear s i fresh parent w d c same found may acceptable =
    let (arrow, not_failed) = refundable_pending parent.status may in
    let e =
      (transition_state-ok_iff parent (moved parent refund_pending w.clock) refund_pending system
          w.clock).1
        (arrow, (λ h. absurd (not_failed h)), refl) in
    let (ki, kv, _, ka) = transition_state-kept parent refund_pending system w.clock e in
    bind {M = λ now w'. (now ≡ w.clock) × ClearAt d w'} (gets (λ w. w.clock)) _ w
      (done (refl, (same, c)))
      λ now w1 (en, (d1, c1)).
        bind _ _ _
          (lift_ok-Clear txn_error _ (moved parent refund_pending w.clock) (ClearAt d) (rw en e)
            (d1, c1))
          λ m w2 (em, (d2, c2)).
            update_then_insert s i fresh parent m w2 d c2 d2 found
              (ap (λ t. t.id) em ∙ ki, ap (λ t. t.version) em ∙ kv, ap (λ t. t.amount) em ∙ ka)
              acceptable

require_refundable-Clear :
    {w : World} (b : Bool) (d : Db)
    → b ≡ true
    → ClearAt d w
    → Succeeds (λ _. ClearAt d) (require_refundable b w)
require_refundable-Clear true d e h = done h
require_refundable-Clear false d e h = absurd (cc)

get_by_id-Clear :
    {w : World} (id : ℕ) (t : Txn) (d : Db)
    → ClearAt d w
    → find_txn id d.txns ≡ some t
    → Succeeds (λ a w'. (a ≡ t) × ClearAt d w') (get_by_id id w)
unfolding get_by_id
get_by_id-Clear id t d (e, c) found = bind _ _ _ (db_call-Clear c d e) λ _ w1 (d1, c1).
    bind {M = λ o w'. (o ≡ some t) × ClearAt d w'} (gets (λ w. find_txn id w.db.txns)) _ w1
      (done (rw d1 found, (d1, c1))) λ o w2 (eo, h2). rw eo (done (refl, h2))

initiate_refund-Clear :
    (s : Service) (i : InitiateInput) (fresh : ℕ) (parent : Txn) (w : World)
    → Clear w
    → find_txn i.transaction_id w.db.txns ≡ some parent
    → is_refundable_status parent.status ≡ true
    → IsAcceptable (new_refund i parent (sum_active i.transaction_id w.db.refunds))
    → Succeeds (λ _ _. Unit {0}) (initiate_refund s i fresh w)
unfolding initiate_refund
initiate_refund-Clear s i fresh parent w c found may acceptable =
    bind _ _ _ (get_by_id-Clear i.transaction_id parent w.db (refl, c) found) λ t w1 (et, h1).
      rw et (
        bind _ _ _ (require_refundable-Clear _ w.db may h1) λ _ w2 (d2, c2).
          within_tx-Clear (begin_refund s i fresh parent) w2 c2 (λ w3 (d3, c3).
            begin_refund-Clear s i fresh parent w3 w.db c3 (d3 ∙ d2) found may acceptable))

-- If no database call fails, the payment is found in a refundable status, and the request is
-- positive, with a reason and an initiator, and within what the earlier refunds leave of the amount,
-- then the request succeeds, and leaves what a success of `initiate_refund_within_cap` leaves.
pub initiate_refund_goes_through :
    (s : Service) (i : InitiateInput) (fresh : ℕ) (parent : Txn) (w : World)
    → w.faults ≡ []
    → is_aborted w.tx ≡ false
    → find_txn i.transaction_id w.db.txns ≡ some parent
    → is_refundable_status parent.status ≡ true
    → IsAcceptable (new_refund i parent (sum_active i.transaction_id w.db.refunds))
    → (r : Refund) × (w' : World) × (initiate_refund s i fresh w ≡ (ok r, w'))
      × Requested i w.db r w'.db
initiate_refund_goes_through s i fresh parent w faults tx found may acceptable =
    let (r, w', same, _) = Succeeds-ok (
      initiate_refund-Clear s i fresh parent w (record { no_faults = faults; not_aborted = tx })
        found may acceptable) in
    (r, w', same, Ends-ok (initiate_refund_within_cap s i fresh w acceptable.fits) same)
