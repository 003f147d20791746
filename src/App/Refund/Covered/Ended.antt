-- ===== src/App/Refund/Covered/Ended.antt =====
-- The run of a refund keeps the sums of the active refunds (internal/app/refund/process.go).
use payment_service.Prelude.{
  ℕ, Bool, true, false, not, ◌&&◌, ◌≡◌, refl, Option, str_eq, Result, ok, arith,
}
use payment_service.Prelude.Int.{ℤ}
use payment_service.Domain.Transaction.{Txn, FailureReason}
use payment_service.Domain.Refund.{Refund, transition, status_eq, initiated, processing}
use payment_service.Domain.Refund
use payment_service.Ports.Outbox.{OutboxEvent}
use payment_service.Postgres.{
  Action, World, Db, Effect, Error, AuditEntry, when, emit, txn_error, refund_error,
}
use payment_service.Postgres.Transactions.{update_status, write_event, write_audit}
use payment_service.Postgres.Refunds.{sum_active, sum_active_refunds}
use payment_service.Postgres.Steps.{
  Ends, done, bind, imply, At, Stopped, gets-Ends, lift-Ends, db_call-Kept, write_event-Ends,
}
use payment_service.Postgres.Updates.{update_status-Ends}
use payment_service.Postgres.Kept.{Anywhere}
use payment_service.Postgres.Told.{or_anything}
use payment_service.App.Payment.Service.{Service}
use payment_service.App.Payment.Finalize.Commit.{Dispatched, nothing-Ends, one-Ends, when-Ends}
use payment_service.App.Refund.Process.{
  parent_after, transition_parent_on_refund_result, notify, send_webhook,
  dispatch_terminal_notification, dispatch_tenant_webhook, end_refund, build_terminal_event,
}
use payment_service.App.Refund.Covered.{Covers}
use payment_service.App.Refund.Covered.Updates.{
  Drives, same_rows, payment_written, update_status-Covers,
}

-- Whatever the call does, the sums are kept.
abbrev pub Stays : {A : Type 0} → (ℕ → ℤ) → Result Error A × World → Type 0
Stays amount_of = Ends (λ _. Covers amount_of) (Covers amount_of)

-- The same inside a transaction, where an error takes everything back.
abbrev pub StaysInTx : {A : Type 0} → (ℕ → ℤ) → Result Error A × World → Type 0
StaysInTx amount_of = Ends (λ _. Covers amount_of) Anywhere

pub here : (w : World) → At w.db w.clock w.effects w
here w = record { at_db = refl; at_clock = refl; at_effects = refl }

module _ {amount_of : ℕ → ℤ} (w : World) (c : Covers amount_of w) where
  write_payment-Covers : (t : Txn) → StaysInTx amount_of (update_status t w)
  write_payment-Covers t =
      imply
        (λ _ w1 (row, found, _, _, at1). rw at1.at_db (payment_written c t.id row t w.clock found))
        (λ _ _. tt) (update_status-Ends t (here w))

  write_event-Covers : (e : OutboxEvent) → StaysInTx amount_of (write_event e w)
  write_event-Covers e =
      imply (λ _ w1 at1. rw at1.at_db (same_rows c refl refl)) (λ _ _. tt)
        (write_event-Ends (here w) e)

  when-Covers :
      (b : Bool) (m : Action (Unit {0}))
      → Ends (λ _. Dispatched w.db w.clock w.effects) (Stopped w.clock w.effects) (m w)
      → StaysInTx amount_of (when b m w)
  when-Covers b m h =
      imply (λ _ w1 (ds, at1). rw at1.at_db (same_rows c refl refl)) (λ _ _. tt)
        (when-Ends (here w) b m h)

  emitted-Covers : (b : Bool) (x : Effect) → StaysInTx amount_of (when b (emit x) w)
  emitted-Covers true x = done c
  emitted-Covers false x = done c

  pub audited-Covers : (b : Bool) (x : AuditEntry) → Stays amount_of (when b (write_audit x) w)
  unfolding write_audit
  audited-Covers true x = done (ground arith)
  audited-Covers false x = done c

transition-id :
    (r : Refund) (to : Refund.Status) (now : ℤ) {r' : Refund}
    → transition r to now ≡ ok r'
    → r'.id ≡ r.id
unfolding transition
transition-id r to now h = ground arith

module _ {amount_of : ℕ → ℤ} (w : World) (c : Covers amount_of w) where
  parent-Covers :
      (parent : Txn) (status : Refund.Status)
      → StaysInTx amount_of (transition_parent_on_refund_result parent status w)
  unfolding transition_parent_on_refund_result sum_active_refunds
  parent-Covers parent status =
      bind _ _ _
        (bind _ _ _ (or_anything (db_call-Kept (here w))) λ _ w1 at1.
          imply (λ _ _ (_, at2). at2) (λ _ h. h)
            (gets-Ends at1 (λ w. sum_active parent.id w.db.refunds)))
        λ sum w1 at1. bind _ _ _ (gets-Ends at1 (λ w. w.clock)) λ now w2 (_, at2).
          imply (λ _ _ (_, at3). rw at3.at_db c) (λ _ _. tt)
            (lift-Ends txn_error (parent_after parent status sum now) at2)

  notify-Stays :
      (status : Refund.Status) (id : ℕ) (reason : Option FailureReason)
      → Ends
          (λ _. Dispatched w.db w.clock w.effects)
          (Stopped w.clock w.effects)
          (notify status id reason w)
  notify-Stays Refund.refunded id reason = one-Ends (here w) _
  notify-Stays Refund.failed id reason = one-Ends (here w) _
  notify-Stays _ id reason = nothing-Ends (here w)

  send_webhook-Stays :
      (status : Refund.Status) (id : ℕ)
      → Ends
          (λ _. Dispatched w.db w.clock w.effects)
          (Stopped w.clock w.effects)
          (send_webhook status id w)
  send_webhook-Stays Refund.refunded id = one-Ends (here w) _
  send_webhook-Stays Refund.failed id = one-Ends (here w) _
  send_webhook-Stays _ id = nothing-Ends (here w)

  notification-Covers :
      (s : Service) (parent : Txn) (status : Refund.Status) (reason : Option FailureReason)
      → StaysInTx amount_of (dispatch_terminal_notification s parent status reason w)
  unfolding dispatch_terminal_notification
  notification-Covers s parent status reason =
      when-Covers w c (s.has_notif && not (str_eq parent.customer_email ""))
        (notify status parent.id reason) (notify-Stays status parent.id reason)

  webhook-Covers :
      (s : Service) (parent : Txn) (status : Refund.Status)
      → StaysInTx amount_of (dispatch_tenant_webhook s parent status w)
  unfolding dispatch_tenant_webhook
  webhook-Covers s parent status =
      when-Covers w c s.has_webhooks (send_webhook status parent.id)
        (send_webhook-Stays status parent.id)

module _ {amount_of : ℕ → ℤ} {d : Db} (w : World) where
  pub end_refund-Covers :
      (s : Service) (r : Refund) (parent : Txn) (status : Refund.Status)
      (reason : Option FailureReason)
      → Drives amount_of r.id d
      → w.db ≡ d
      → StaysInTx amount_of (end_refund s r parent status reason w)
  unfolding end_refund
  end_refund-Covers s r parent status reason drives e =
      bind _ _ _
        (gets-Ends {d = d} {now = w.clock} {fx = w.effects}
          (record { at_db = e; at_clock = refl; at_effects = refl }) (λ w. w.clock))
        λ now w1 (_, at1).
          bind _ _ _ (or_anything (lift-Ends refund_error (transition r status now) at1))
            λ moved w2 (ok_moved, at2).
              bind _ _ _
                (update_status-Covers (record moved { failure_reason = reason })
                  (rw (transition-id r status now ok_moved) drives) at2)
                λ r' w3 c3. bind _ _ _ (parent-Covers w3 c3 parent status) λ parent' w4 c4.
                  bind _ _ _ (write_payment-Covers w4 c4 parent') λ parent'' w5 c5.
                    bind _ _ _ (write_event-Covers w5 c5 (build_terminal_event r' status))
                      λ _ w6 c6.
                        bind _ _ _ (notification-Covers w6 c6 s parent'' status reason) λ _ w7 c7.
                          bind _ _ _ (webhook-Covers w7 c7 s parent'' status) λ _ w8 c8.
                            bind _ _ _ (emitted-Covers w8 c8 s.has_bus _) λ _ w9 c9. done c9
