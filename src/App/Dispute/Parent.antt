-- ===== src/App/Dispute/Parent.antt =====
-- What a dispute does to its payment (internal/app/dispute/service.go).
use payment_service.Prelude.{
  ℕ, suc, Bool, true, false, not, ◌&&◌, ◌≡◌, sym, ap, ◌∙◌, some, List, ◌∷◌, str_eq, ok, arith,
  if◌then◌else◌,
}
use payment_service.Prelude.Int.{ℤ}
use payment_service.Domain.Transaction.{Txn, Status, Actor, gateway, system, disputed}
use payment_service.Domain.Transaction.Machine.{transition_state}
use payment_service.Domain.Transaction.Machine.Diagram.{transition_state-kept}
use payment_service.Domain.Dispute.{Dispute, won, lost}
use payment_service.Domain.Dispute
use payment_service.Ports.Outbox.{OutboxEvent, EventType, dispute_created, dispute_updated}
use payment_service.Postgres.{
  World, Db, Effect, Notice, published, notified, webhook, when, emit, txn_error, dispute_opened,
  Dispatch,
}
use payment_service.Postgres.Transactions.{find_txn, replace_txn, updated_row}
use payment_service.Postgres.Steps.{Ends, done, bind, imply, At, Stopped, gets-Ends, lift-Ends}
use payment_service.Postgres.Updates.{update_status-Ends, get_by_id-Kept}
use payment_service.Postgres.Kept.{Anywhere}
use payment_service.Postgres.Told.{or_anything}
use payment_service.App.Payment.Finalize.Commit.{Dispatched, one-Ends, when-Ends, when_event-Ends}
use payment_service.App.Dispute.{
  Service, ended_event, transition_parent_on_dispute_create, end_dispute, moved_to, publish,
  dispatch_dispute_notification, dispatch_dispute_webhook,
}

abbrev pub told_event : Bool → OutboxEvent → List OutboxEvent → List OutboxEvent
told_event b e old = if b then e ∷ old else old

abbrev pub told_bus : Service → Txn → List Effect → List Effect
told_bus s t fx = if s.has_bus then published t.id t.status ∷ fx else fx

-- The tables with a payment's row written and some dispatches.
abbrev pub with_payment : Txn → Txn → ℤ → List Dispatch → Db → Db
with_payment row t now ds d = record d {
  txns = replace_txn row.id (updated_row row t now) d.txns;
  dispatched = ds;
}

module _ {d : Db} {now : ℤ} {fx : List Effect} {w : World} (at : At d now fx w) where
  moved_to-Ends :
      (t : Txn) (status : Status) (actor : Actor)
      → Ends
          (λ m w'. (transition_state (some t) status actor now ≡ ok m) × At d now fx w')
          (Stopped now fx)
          (moved_to t status actor w)
  moved_to-Ends t status actor = bind _ _ _ (gets-Ends at (λ w. w.clock)) λ now1 w1 (e1, at1).
      imply
        (λ m w2 (e2, at2).
          (ap (transition_state (some t) status actor) (sym (e1 ∙ at.at_clock)) ∙ e2, at2))
        (λ _ h. h) (lift-Ends txn_error _ at1)

  notification-Ends :
      (s : Service) (t : Txn) (notice : Notice)
      → Ends
          (λ _. Dispatched d now fx)
          (Stopped now fx)
          (dispatch_dispute_notification s t notice w)
  unfolding dispatch_dispute_notification
  notification-Ends s t notice =
      when-Ends at (s.has_notif && not (str_eq t.customer_email "")) _
        (one-Ends at (notified t.id notice))

  webhook-Ends :
      (s : Service) (t : Txn) (kind : EventType)
      → Ends (λ _. Dispatched d now fx) (Stopped now fx) (dispatch_dispute_webhook s t kind w)
  unfolding dispatch_dispute_webhook
  webhook-Ends s t kind = when-Ends at s.has_webhooks _ (one-Ends at (webhook t.id kind))

  publish-Ends :
      (s : Service) (t : Txn)
      → Ends (λ _ w'. At d now (told_bus s t fx) w') Anywhere (publish s t w)
  publish-Ends s t = by_bus s.has_bus
    where
      by_bus :
          (b : Bool)
          → Ends
              (λ _ w'. At d now (if b then published t.id t.status ∷ fx else fx) w')
              Anywhere
              (when b (emit (published t.id t.status)) w)
      by_bus true = done (ground arith)
      by_bus false = done at

-- A payment that moved by the machine and was written at the version that was read.
pub record Written (id : ℕ) (status : Status) (actor : Actor) (d : Db) (now : ℤ) (t moved row : Txn)
    : Type 0 where
  pub payment_found : find_txn id d.txns ≡ some t
  pub is_allowed : transition_state (some t) status actor now ≡ ok moved
  pub row_found : find_txn t.id d.txns ≡ some row
  pub version_held : row.version ≡ t.version

module _ {d : Db} {now : ℤ} {fx : List Effect} {w : World} (at : At d now fx w) where
  pub open_parent-Ends :
      (s : Service) (id : ℕ)
      → Ends
          (λ _ w'.
            (t moved row : Txn) × (ds : List Dispatch) × Written id disputed gateway d now t moved
              row
            × At (with_payment row moved now ds d) now (told_bus s moved fx) w')
          Anywhere
          (transition_parent_on_dispute_create s id w)
  unfolding transition_parent_on_dispute_create
  open_parent-Ends s id = bind _ _ _ (or_anything (get_by_id-Kept id at)) λ t w1 (found, at1).
      bind _ _ _ (or_anything (moved_to-Ends at1 t disputed gateway)) λ moved w2 (ok_moved, at2).
        bind _ _ _ (or_anything (notification-Ends at2 s moved dispute_opened)) λ _ w3 (ds, at3).
          bind _ _ _ (or_anything (webhook-Ends at3 s moved dispute_created)) λ _ w4 (ds', at4).
            bind _ _ _ (publish-Ends at4 s moved) λ _ w5 at5.
              bind _ _ _ (or_anything (update_status-Ends moved at5))
                λ t' w6 (row, have, held, _, at6).
                  let (i, v, _, _) = transition_state-kept t disputed gateway now ok_moved in
                  done (
                    t,
                    moved,
                    row,
                    ds',
                    record {
                      payment_found = found;
                      is_allowed = ok_moved;
                      row_found = cc;
                      version_held = cc;
                    },
                    at6,
                  )

  pub end_dispute-Ends :
      (s : Service) (t : Txn) (outcome : Dispute.Status) (status : Status) (notice : Notice)
      → Ends
          (λ _ w'.
            (moved row next : Txn) × (ds : List Dispatch) × (transition_state
                (some t)
                status
                system
                now
              ≡ ok moved)
            × (find_txn t.id d.txns ≡ some row)
            × (row.version ≡ t.version)
            × (next ≡ record moved { version = suc t.version })
            × At
                (record (with_payment row moved now ds d) {
                  outbox = told_event s.has_outbox (ended_event next outcome status) d.outbox;
                })
                now
                (told_bus s next fx)
                w')
          Anywhere
          (end_dispute s t outcome status notice w)
  end_dispute-Ends s t outcome status notice =
      bind _ _ _ (or_anything (moved_to-Ends at t status system)) λ moved w2 (ok_moved, at2).
        bind _ _ _ (or_anything (update_status-Ends moved at2))
          λ t' w3 (row, have, held, next, at3).
            bind _ _ _ (or_anything (notification-Ends at3 s t' notice)) λ _ w4 (ds, at4).
              bind _ _ _ (or_anything (webhook-Ends at4 s t' dispute_updated)) λ _ w5 (ds', at5).
                bind _ _ _ (publish-Ends at5 s t') λ _ w6 at6.
                  let (i, v, _, _) = transition_state-kept t status system now ok_moved in
                  imply (λ _ w7 at7. (moved, row, t', ds', ok_moved, cc, cc, cc, at7)) (λ _ _. tt)
                    (when_event-Ends at6 s.has_outbox (ended_event t' outcome status))
