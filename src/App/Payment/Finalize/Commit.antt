-- ===== src/App/Payment/Finalize/Commit.antt =====
-- What the transaction of `finalize` leaves (internal/app/payment/gateway.go).
use payment_service.Prelude.{
  ℕ, suc, Bool, true, false, not, ◌&&◌, ◌≡◌, refl, Option, none, some, List, ◌∷◌, str_eq, ok, arith,
  if◌then◌else◌,
}
use payment_service.Prelude.Int.{ℤ}
use payment_service.Domain.Transaction.{
  Txn, Status, FailureReason, gateway, captured, failed, cancelled,
}
use payment_service.Domain.Transaction.Machine.Diagram.{transition_state-kept}
use payment_service.Domain.Transaction.Machine.{transition_state}
use payment_service.Ports.Outbox.{OutboxEvent}
use payment_service.Postgres.{
  Action, World, Db, Effect, pure, when, dispatch, within_tx, CachedResponse, Dispatch, txn_error,
}
use payment_service.Postgres.Transactions.{find_txn, replace_txn, updated_row, write_event}
use payment_service.Postgres.Leases.{set_cached}
use payment_service.Postgres.Atomic.{InTx, Unchanged, within_tx-Ends}
use payment_service.Postgres.Steps.{
  Ends, done, bind, At, Stopped, write_event-Ends, write_cached_response-Ends, when_audit-Ends,
  gets-Ends, lift-Ends,
}
use payment_service.Postgres.Updates.{update_status-Ends}
use payment_service.App.Payment.Outcome.{terminal}
use payment_service.App.Payment.Service.{Service}
use payment_service.App.Payment.Finalize.{
  apply_outcome, emit_terminal, commit_outcome, write_event_if, build_terminal_event,
  callback_event, dispatch_terminal_notification, dispatch_tenant_webhook, notify, send_webhook,
}

-- The payment that the transaction writes: the transition's result with the reason of the failure.
abbrev pub Resolved : Txn → Status → Option FailureReason → ℤ → Txn → Type 0
Resolved t status reason now t1 =
    (t' : Txn) × (transition_state (some t) status gateway now ≡ ok t')
    × (t1 ≡ record t' { failure_reason = reason })

-- The events of a resolved payment, newest first, put before the ones that are there.
abbrev pub with_callback : Txn → Status → List OutboxEvent → List OutboxEvent
with_callback t status old =
    if not (str_eq t.callback_url "") then callback_event t status ∷ old else old

abbrev pub with_event : Option OutboxEvent → List OutboxEvent → List OutboxEvent
with_event none old = old
with_event (some e) old = e ∷ old

abbrev pub events_after : Txn → Status → List OutboxEvent → List OutboxEvent
events_after t status old = with_callback t status (with_event (build_terminal_event t status) old)

module _ {d : Db} {now : ℤ} {fx : List Effect} {w : World} (at : At d now fx w) where
  pub write_event_if-Ends :
      (o : Option OutboxEvent)
      → Ends
          (λ _ w'. At (record d { outbox = with_event o d.outbox }) now fx w')
          (Stopped now fx)
          (write_event_if o w)
  unfolding write_event_if
  write_event_if-Ends none = done at
  write_event_if-Ends (some e) = write_event-Ends at e

  pub when_event-Ends :
      (b : Bool) (e : OutboxEvent)
      → Ends
          (λ _ w'. At (record d { outbox = if b then e ∷ d.outbox else d.outbox }) now fx w')
          (Stopped now fx)
          (when b (write_event e) w)
  when_event-Ends true e = write_event-Ends at e
  when_event-Ends false e = done at

module _ {d : Db} {now : ℤ} {fx : List Effect} {w : World} (at : At d now fx w) where
  apply_outcome-Ends :
      (s : Service) (t : Txn) (status : Status) (reason : Option FailureReason)
      → Ends
          (λ t1 w'. Resolved t status reason now t1 × At d now fx w')
          (Stopped now fx)
          (apply_outcome s t (terminal status reason) w)
  unfolding apply_outcome
  apply_outcome-Ends s t status reason =
      bind _ _ _ (gets-Ends at (λ w. w.clock)) λ now1 w1 (e1, at1).
        bind _ _ _ (lift-Ends txn_error _ at1) λ t' w2 (e2, at2).
          bind _ _ _ (when_audit-Ends at2 s.has_audit _)
            λ _ w3 at3. done ((t', ground arith, refl), at3)

-- Some dispatches more, and nothing else.
abbrev pub Dispatched : Db → ℤ → List Effect → World → Type 0
Dispatched d now fx w' = (ds : List Dispatch) × At (record d { dispatched = ds }) now fx w'

module _ {d : Db} {now : ℤ} {fx : List Effect} {w : World} (at : At d now fx w) where
  pub nothing-Ends : Ends (λ _. Dispatched d now fx) (Stopped now fx) (pure tt w)
  nothing-Ends = done (d.dispatched, at)

  pub one-Ends : (x : Dispatch) → Ends (λ _. Dispatched d now fx) (Stopped now fx) (dispatch x w)
  one-Ends x = done (x ∷ d.dispatched, ground arith)

  notify-Ends :
      (status : Status) (id : ℕ) (reason : Option FailureReason)
      → Ends (λ _. Dispatched d now fx) (Stopped now fx) (notify status id reason w)
  notify-Ends captured id reason = one-Ends _
  notify-Ends failed id reason = one-Ends _
  notify-Ends _ id reason = nothing-Ends

  send_webhook-Ends :
      (status : Status) (id : ℕ)
      → Ends (λ _. Dispatched d now fx) (Stopped now fx) (send_webhook status id w)
  send_webhook-Ends captured id = one-Ends _
  send_webhook-Ends failed id = one-Ends _
  send_webhook-Ends cancelled id = one-Ends _
  send_webhook-Ends _ id = nothing-Ends

  pub when-Ends :
      (b : Bool) (m : Action (Unit {0}))
      → Ends (λ _. Dispatched d now fx) (Stopped now fx) (m w)
      → Ends (λ _. Dispatched d now fx) (Stopped now fx) (when b m w)
  when-Ends true m h = h
  when-Ends false m h = nothing-Ends

module _ {d : Db} {now : ℤ} {fx : List Effect} {w : World} (at : At d now fx w) where
  emit_terminal-Ends :
      (s : Service) (t : Txn) (status : Status) (reason : Option FailureReason)
      → Ends
          (λ _. Dispatched (record d { outbox = events_after t status d.outbox }) now fx)
          (Stopped now fx)
          (emit_terminal s t (terminal status reason) w)
  unfolding emit_terminal dispatch_terminal_notification dispatch_tenant_webhook
  emit_terminal-Ends s t status reason =
      bind _ _ _ (write_event_if-Ends at (build_terminal_event t status)) λ _ w1 at1.
        bind _ _ _ (when_event-Ends at1 (not (str_eq t.callback_url "")) (callback_event t status))
          λ _ w2 at2.
            bind _ _ _
              (when-Ends at2 (s.has_notif && not (str_eq t.customer_email ""))
                (notify status t.id reason) (notify-Ends at2 status t.id reason))
              λ _ w3 (ds, at3).
                when-Ends at3 s.has_webhooks (send_webhook status t.id)
                  (send_webhook-Ends at3 status t.id)

-- What a finalized payment's transaction leaves in the tables.
pub record Committed (txn : Txn) (status : Status) (reason : Option FailureReason)
    (cached : CachedResponse) (d : Db) (now : ℤ) (t : Txn) (d' : Db) : Type 0 where
  pub before_update : Txn
  pub row : Txn
  pub is_resolved : Resolved txn status reason now before_update
  pub row_found : find_txn txn.id d.txns ≡ some row
  pub version_held : row.version ≡ txn.version
  pub next_version : t ≡ record before_update { version = suc txn.version }
  pub row_written : d'.txns ≡ replace_txn row.id (updated_row row before_update now) d.txns
  pub events_written : d'.outbox ≡ events_after t status d.outbox
  pub response_cached : d'.leases ≡ set_cached t.id cached d.leases
  pub refunds_kept : d'.refunds ≡ d.refunds

Resolved-kept :
    (t : Txn) {t1 : Txn} (status : Status) (reason : Option FailureReason) (now : ℤ)
    → Resolved t status reason now t1
    → (t1.id ≡ t.id) × (t1.version ≡ t.version) × (t1.status ≡ status)
Resolved-kept t status reason now (t', e, same) =
    let (i, v, s, _) = transition_state-kept t status gateway now e in rw same (i, v, s)

module _ {d : Db} {now : ℤ} {fx : List Effect} {w : World} (at : At d now fx w) where
  commit_outcome-Ends :
      (s : Service) (t : Txn) (status : Status) (reason : Option FailureReason) (c : CachedResponse)
      → Ends
          (InTx (Committed t status reason c d now) now fx)
          (Stopped now fx)
          (commit_outcome s t (terminal status reason) c w)
  unfolding commit_outcome
  commit_outcome-Ends s t status reason c =
      bind _ _ _ (apply_outcome-Ends at s t status reason) λ t1 w1 (res, at1).
        bind _ _ _ (update_status-Ends t1 at1) λ t2 w2 (row, found, held, next, at2).
          bind _ _ _ (emit_terminal-Ends at2 s t2 status reason) λ _ w3 (ds, at3).
            bind _ _ _ (write_cached_response-Ends at3 t2.id c) λ _ w4 at4.
              let (i, v, _) = Resolved-kept t status reason now res in
              done (
                record {
                  before_update = t1;
                  row = row;
                  is_resolved = res;
                  row_found = cc;
                  version_held = cc;
                  next_version = cc;
                  row_written = cc;
                  events_written = cc;
                  response_cached = cc;
                  refunds_kept = cc;
                },
                cc,
                cc,
              )

pub commit-Ends :
    (s : Service) (t : Txn) (status : Status) (reason : Option FailureReason) (c : CachedResponse)
    (w : World)
    → Ends
        (InTx (Committed t status reason c w.db w.clock) w.clock w.effects)
        (Unchanged w)
        (within_tx (commit_outcome s t (terminal status reason) c) w)
commit-Ends s t status reason c w =
    within_tx-Ends _ _ _ λ w' at. commit_outcome-Ends at s t status reason c
