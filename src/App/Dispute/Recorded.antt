-- ===== src/App/Dispute/Recorded.antt =====
-- What `CreateDispute` leaves (internal/app/dispute/service.go).
use payment_service.Prelude.{
  suc, true, false, not, ◌&&◌, ◌≡◌, ◌⊎◌, inl, inr, refl, sym, subst, Option, none, some, List, ◌∷◌,
  ok, Bool-cases,
}
use payment_service.Prelude.Int.{ℤ}
use payment_service.Domain.Transaction.{
  Txn, Status, gateway, system, disputed, captured, refunded, status_eq,
}
use payment_service.Domain.Transaction.Machine.{transition_state}
use payment_service.Domain.Dispute.{Dispute, won, lost}
use payment_service.Domain.Dispute
use payment_service.Ports.Outbox.{dispute_created, dispute_updated}
use payment_service.Postgres.{World, Db, Effect, Notice, pure, dispute_won, dispute_lost, Dispatch}
use payment_service.Postgres.Transactions.{find_txn}
use payment_service.Postgres.Disputes.{find_gateway_dispute, update_rows}
use payment_service.Postgres.Steps.{Ends, done, bind, imply, At}
use payment_service.Postgres.Updates.{get_by_id-Kept}
use payment_service.Postgres.Kept.{Anywhere}
use payment_service.Postgres.Told.{Tells, or_anything, within_tx-Tells}
use payment_service.App.Payment.Finalize.Commit.{when_event-Ends}
use payment_service.App.Dispute.Parent.{
  told_event, told_bus, with_payment, open_parent-Ends, end_dispute-Ends,
}
use payment_service.App.Dispute.Stored.{update-Ends, create-Ends, existing-Ends}
use payment_service.App.Dispute.{
  Service, change_event, ended_event, overwritten, is_decided, create_or_update, create_body,
  create_dispute, transition_parent_on_dispute_update, end_dispute, end_with,
}

-- What a decided dispute makes of the payment.
pub data Decides : Dispute.Status → Status → Type 0 where
  won_captured : Decides won captured
  lost_refunded : Decides lost refunded

abbrev pub with_dispute : Service → Dispute → Db → Db
with_dispute s x d = record d {
  disputes = x ∷ d.disputes;
  outbox = told_event s.has_outbox (change_event dispute_created x x.id) d.outbox;
}

abbrev pub with_update : Service → Dispute → Dispute → Db → Db
with_update s row x d = record d {
  disputes = update_rows (overwritten row x) d.disputes;
  outbox =
      told_event (s.has_outbox && not (is_decided x.status)) (change_event dispute_updated x row.id)
        d.outbox;
}

-- What a dispute leaves, by what it found.
pub data Recorded (s : Service) (x : Dispute) (d : Db) (now : ℤ) (fx : List Effect)
    : Db → List Effect → Type 0 where
  opened :
      (t moved row : Txn) (ds : List Dispatch)
      → find_gateway_dispute x.gateway_id x.gateway_dispute_id d.disputes ≡ none
      → find_txn x.transaction_id d.txns ≡ some t
      → transition_state (some t) disputed gateway now ≡ ok moved
      → find_txn t.id d.txns ≡ some row
      → row.version ≡ t.version
      → Recorded s x d now fx
          (with_payment row moved now ds (with_dispute s x d))
          (told_bus s moved fx)
  changed :
      (row : Dispute) (t : Txn)
      → find_gateway_dispute x.gateway_id x.gateway_dispute_id d.disputes ≡ some row
      → find_txn x.transaction_id d.txns ≡ some t
      → (status_eq t.status disputed ≡ false) ⊎ (is_decided x.status ≡ false)
      → Recorded s x d now fx (with_update s row x d) fx
  ended :
      (old : Dispute) (t moved row next : Txn) (status : Status) (ds : List Dispatch)
      → find_gateway_dispute x.gateway_id x.gateway_dispute_id d.disputes ≡ some old
      → find_txn x.transaction_id d.txns ≡ some t
      → status_eq t.status disputed ≡ true
      → Decides x.status status
      → transition_state (some t) status system now ≡ ok moved
      → find_txn t.id d.txns ≡ some row
      → row.version ≡ t.version
      → next ≡ record moved { version = suc t.version }
      → Recorded s x d now fx
          (record (with_payment row moved now ds (with_update s old x d)) {
            outbox =
                told_event s.has_outbox
                  (ended_event next x.status status)
                  (with_update s old x d).outbox;
          })
          (told_bus s next fx)

module _ (s : Service) (x : Dispute) {d : Db} {now : ℤ} {fx : List Effect} where
  decided_parent-Ends :
      {w : World} (old : Dispute) (t : Txn) (status : Status) (notice : Notice)
      → At (with_update s old x d) now fx w
      → find_gateway_dispute x.gateway_id x.gateway_dispute_id d.disputes ≡ some old
      → find_txn x.transaction_id d.txns ≡ some t
      → status_eq t.status disputed ≡ true
      → Decides x.status status
      → Ends
          (Tells (λ _. Recorded s x d now fx))
          Anywhere
          (end_dispute s t x.status status notice w)
  decided_parent-Ends old t status notice at have found held decides =
      imply
        (λ _ w' (moved, row, next, ds, allowed, row_found, version, eq, at').
          rw (at'.at_db, at'.at_effects)
            (ended old t moved row next status ds have found held decides allowed row_found version
              eq))
        (λ _ h. h) (end_dispute-Ends at s t x.status status notice)

  given-Ends :
      {w : World} {outcome : Dispute.Status} (old : Dispute) (t : Txn) (status : Status)
      (notice : Notice)
      → At (with_update s old x d) now fx w
      → find_gateway_dispute x.gateway_id x.gateway_dispute_id d.disputes ≡ some old
      → find_txn x.transaction_id d.txns ≡ some t
      → status_eq t.status disputed ≡ true
      → x.status ≡ outcome
      → Decides outcome status
      → Ends (Tells (λ _. Recorded s x d now fx)) Anywhere (end_dispute s t outcome status notice w)
  given-Ends {w} old t status notice at have found held e decides =
      subst
        (λ o.
          Ends (Tells (λ _. Recorded s x d now fx)) Anywhere (end_dispute s t o status notice w))
        e
        (decided_parent-Ends old t status notice at have found held
          (subst (λ o. Decides o status) (sym e) decides))

  undecided-Ends :
      {w : World} (old : Dispute) (t : Txn)
      → At (with_update s old x d) now fx w
      → find_gateway_dispute x.gateway_id x.gateway_dispute_id d.disputes ≡ some old
      → find_txn x.transaction_id d.txns ≡ some t
      → (status_eq t.status disputed ≡ false) ⊎ (is_decided x.status ≡ false)
      → Ends (Tells (λ _. Recorded s x d now fx)) Anywhere (pure tt w)
  undecided-Ends old t at have found why =
      done (rw (at.at_db, at.at_effects) (changed old t have found why))

  end_with-Ends :
      {w : World} (old : Dispute) (t : Txn) (outcome : Dispute.Status)
      → At (with_update s old x d) now fx w
      → find_gateway_dispute x.gateway_id x.gateway_dispute_id d.disputes ≡ some old
      → find_txn x.transaction_id d.txns ≡ some t
      → status_eq t.status disputed ≡ true
      → x.status ≡ outcome
      → Ends (Tells (λ _. Recorded s x d now fx)) Anywhere (end_with s t outcome w)
  end_with-Ends old t won at have found held e =
      given-Ends old t captured dispute_won at have found held e won_captured
  end_with-Ends old t lost at have found held e =
      given-Ends old t refunded dispute_lost at have found held e lost_refunded
  end_with-Ends old t _ at have found held e = undecided-Ends old t at have found (inr (rw e refl))

  update_parent-Ends :
      {w : World} (old : Dispute)
      → At (with_update s old x d) now fx w
      → find_gateway_dispute x.gateway_id x.gateway_dispute_id d.disputes ≡ some old
      → Ends
          (Tells (λ _. Recorded s x d now fx))
          Anywhere
          (transition_parent_on_dispute_update s x.transaction_id x.status w)
  unfolding transition_parent_on_dispute_update
  update_parent-Ends old at have =
      bind _ _ _ (or_anything (get_by_id-Kept x.transaction_id at)) λ t w1 (found, at1).
        elim (Bool-cases (status_eq t.status disputed)) [
          | inl held ↦ rw held (end_with-Ends old t x.status at1 have found held refl)
          | inr free ↦ rw free (undecided-Ends old t at1 have found (inl free))
        ]

  create_or_update-Ends :
      {w : World} (o : Option Dispute)
      → At d now fx w
      → find_gateway_dispute x.gateway_id x.gateway_dispute_id d.disputes ≡ o
      → Ends (Tells (λ _. Recorded s x d now fx)) Anywhere (create_or_update s x o w)
  create_or_update-Ends (some old) at have =
      bind _ _ _ (or_anything (update-Ends at (overwritten old x))) λ _ w1 at1.
        bind _ _ _
          (or_anything (
            when_event-Ends at1 (s.has_outbox && not (is_decided x.status))
              (change_event dispute_updated x old.id)))
          λ _ w2 at2. update_parent-Ends old at2 have
  create_or_update-Ends none at have = bind _ _ _ (create-Ends at x) λ _ w1 at1.
      bind _ _ _
        (or_anything (when_event-Ends at1 s.has_outbox (change_event dispute_created x x.id)))
        λ _ w2 at2.
          imply
            (λ _ w' (t, moved, row, ds, h, at').
              rw (at'.at_db, at'.at_effects)
                (opened t moved row ds have h.payment_found h.is_allowed h.row_found
                  h.version_held))
            (λ _ h. h) (open_parent-Ends at2 s x.transaction_id)

  create_body-Ends :
      {w : World}
      → At d now fx w
      → Ends (Tells (λ _. Recorded s x d now fx)) Anywhere (create_body s x w)
  unfolding create_body
  create_body-Ends at =
      bind _ _ _ (existing-Ends at x.gateway_id x.gateway_dispute_id)
        λ o w1 (have, at1). create_or_update-Ends o at1 have

-- Whatever fails on the way, `CreateDispute` leaves every table as it was, or one of three things. A
-- dispute that is not known yet is stored with its event, and its payment, which the state machine
-- lets become DISPUTED, is DISPUTED at the next version. A known dispute takes the reason, the due
-- date and the status that the gateway reports, whatever its status was; if it is won or lost and the
-- payment is DISPUTED, the payment becomes CAPTURED or REFUNDED in turn, by the machine and at the
-- version that was read, with its own event and the bus told; otherwise the payment is left as it
-- is, and an event is written just where the dispute is neither won nor lost.
pub create_dispute-Recorded :
    (s : Service) (x : Dispute) (w : World)
    → Ends
        (λ _ w'. Recorded s x w.db w.clock w.effects w'.db w'.effects)
        (λ w'. w'.db ≡ w.db)
        (create_dispute s x w)
unfolding create_dispute
create_dispute-Recorded s x w =
    imply (λ _ _ h. h) (λ _ h. h.same_db)
      (within_tx-Tells (λ _. Recorded s x w.db w.clock w.effects) (create_body s x) w
        (λ w' at. create_body-Ends s x at))
