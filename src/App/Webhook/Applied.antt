-- ===== src/App/Webhook/Applied.antt =====
-- The steps of one event and what they leave (internal/app/webhook/service.go).
use payment_service.Prelude.{
  ℕ, suc, Bool, true, false, not, ◌&&◌, ◌≡◌, ◌⊎◌, refl, sym, ap, none, some, List, ◌∷◌, String,
  str_eq, ok, err, arith,
}
use payment_service.Prelude.Int.{ℤ}
use payment_service.Domain.Transaction.{
  Txn, TxnError, Status, gateway, captured, failed, cancelled, status_eq,
}
use payment_service.Domain.Transaction.Machine.{transition_state}
use payment_service.Postgres.{World, Db, Effect, Dispatch, when}
use payment_service.Postgres.Transactions.{
  find_txn, replace_txn, updated_row, insert_gateway_metadata,
}
use payment_service.Postgres.Webhooks.{is_recorded, find_by_reference, get_by_gateway_reference}
use payment_service.Postgres.Steps.{Ends, done, bind, At, Stopped, when_audit-Ends, db_call-Ends}
use payment_service.Postgres.Updates.{update_status-Ends}
use payment_service.App.Payment.Finalize.Commit.{
  with_event, with_callback, write_event_if-Ends, when_event-Ends, Dispatched, nothing-Ends,
  one-Ends, when-Ends,
}
use payment_service.App.Webhook.{
  Service, Event, Outcome, is_duplicate, is_unknown, is_kept, is_resolved, map_webhook_status,
  build_event, notify, send_webhook, with_reason, run_resolver, apply_status,
  dispatch_terminal_notification, dispatch_tenant_webhook, resolve_cancel_if_requested,
}

-- The tables with the event recorded.
abbrev pub recorded : String → Event → Db → Db
recorded gateway_id ev d = record d {
  webhook_events = (ev.event_id, gateway_id) ∷ d.webhook_events;
}

-- And with the raw payload at the payment.
abbrev pub noted : String → Event → String → Txn → Db → Db
noted gateway_id ev raw t d = record (recorded gateway_id ev d) {
  gateway_metadata = (t.id, gateway_id, raw) ∷ d.gateway_metadata;
}

-- And with the payment's row, events and dispatches.
abbrev pub resolved_db : String → Status → Txn → Txn → Txn → ℤ → List Dispatch → Db → Db
resolved_db gateway_id status row moved next now ds d = record d {
  txns = replace_txn row.id (updated_row row moved now) d.txns;
  outbox = with_callback next status (with_event (build_event next status gateway_id) d.outbox);
  dispatched = ds;
}

-- Why a payment is left as it is: the text asks for no status, for the one that it has, or for one
-- that the machine refuses.
abbrev pub IsRefused : Event → Txn → ℤ → Type 0
IsRefused ev t now =
    (map_webhook_status ev.status ≡ none)
    ⊎ ((st : Status) × (map_webhook_status ev.status ≡ some st)
        × ((status_eq st t.status ≡ true)
            ⊎ ((e : TxnError) × (transition_state (some t) st gateway now ≡ err e))))

-- What an event leaves, by what it found.
pub data Processed (gateway_id : String) (ev : Event) (raw : String) (d : Db) (now : ℤ)
    : Outcome → Db → Type 0 where
  seen :
      is_recorded ev.event_id gateway_id d.webhook_events ≡ true
      → Processed gateway_id ev raw d now is_duplicate d
  stranger :
      is_recorded ev.event_id gateway_id d.webhook_events ≡ false
      → find_by_reference gateway_id ev.gateway_reference_id d.txns ≡ none
      → Processed gateway_id ev raw d now is_unknown (recorded gateway_id ev d)
  kept :
      (t : Txn)
      → is_recorded ev.event_id gateway_id d.webhook_events ≡ false
      → find_by_reference gateway_id ev.gateway_reference_id d.txns ≡ some t
      → IsRefused ev t now
      → Processed gateway_id ev raw d now (is_kept t.status) (noted gateway_id ev raw t d)
  advanced :
      (t moved row next : Txn) (status : Status) (ds : List Dispatch)
      → is_recorded ev.event_id gateway_id d.webhook_events ≡ false
      → find_by_reference gateway_id ev.gateway_reference_id d.txns ≡ some t
      → map_webhook_status ev.status ≡ some status
      → transition_state (some t) status gateway now ≡ ok moved
      → find_txn t.id d.txns ≡ some row
      → row.version ≡ t.version
      → next ≡ record (with_reason status moved) { version = suc t.version }
      → Processed gateway_id ev raw d now (is_resolved next status) (
          resolved_db gateway_id status row
            (with_reason status moved)
            next
            now
            ds
            (noted gateway_id ev raw t d))

module _ {d : Db} {now : ℤ} {fx : List Effect} {w : World} (at : At d now fx w) where
  notify-Ends :
      (status : Status) (t : Txn)
      → Ends (λ _. Dispatched d now fx) (Stopped now fx) (notify status t w)
  notify-Ends captured t = one-Ends at _
  notify-Ends failed t = one-Ends at _
  notify-Ends _ t = nothing-Ends at

  send_webhook-Ends :
      (status : Status) (t : Txn)
      → Ends (λ _. Dispatched d now fx) (Stopped now fx) (send_webhook status t w)
  send_webhook-Ends captured t = one-Ends at _
  send_webhook-Ends failed t = one-Ends at _
  send_webhook-Ends cancelled t = one-Ends at _
  send_webhook-Ends _ t = nothing-Ends at

  no_resolver-Ends :
      (s : Service) (t : Txn) (status : Status)
      → s.cancel_resolver ≡ none
      → Ends (λ _ w'. At d now fx w') (Stopped now fx) (resolve_cancel_if_requested s t status w)
  unfolding resolve_cancel_if_requested
  no_resolver-Ends s t status e = rw e (unresolved (status_eq status captured && t.cancel_intent))
    where
      unresolved :
          (b : Bool)
          → Ends (λ _ w'. At d now fx w') (Stopped now fx) (when b (run_resolver none t) w)
      unresolved true = done at
      unresolved false = done at

  pub insert_gateway_metadata-Ends :
      (id : ℕ) (gateway_id raw : String)
      → Ends
          (λ _ w'.
            At
              (record d { gateway_metadata = (id, gateway_id, raw) ∷ d.gateway_metadata })
              now
              fx
              w')
          (Stopped now fx)
          (insert_gateway_metadata id gateway_id raw w)
  unfolding insert_gateway_metadata
  insert_gateway_metadata-Ends id gateway_id raw =
      bind _ _ _ (db_call-Ends at) λ _ w1 at1. done (ground arith)

  pub get_by_gateway_reference-Ends :
      (gateway_id ref : String)
      → Ends
          (λ o w'. (find_by_reference gateway_id ref d.txns ≡ o) × At d now fx w')
          (Stopped now fx)
          (get_by_gateway_reference gateway_id ref w)
  unfolding get_by_gateway_reference
  get_by_gateway_reference-Ends gateway_id ref =
      bind _ _ _ (db_call-Ends at)
        λ _ w1 at1. done (ap (λ x. find_by_reference gateway_id ref x.txns) (sym at1.at_db), at1)

module _ {d : Db} {now : ℤ} {fx : List Effect} {w : World} (at : At d now fx w) where
  -- What `apply_status` leaves of a payment whose failure has its reason.
  pub apply_status-Ends :
      (s : Service) (gateway_id : String) (status : Status) (moved : Txn)
      → s.cancel_resolver ≡ none
      → Ends
          (λ o w'.
            (next row : Txn) × (ds : List Dispatch) × (find_txn (with_reason status moved).id d.txns
              ≡ some row)
            × (row.version ≡ (with_reason status moved).version)
            × (next ≡ record (with_reason status moved) { version = suc row.version })
            × (o ≡ is_resolved next status)
            × At
                (resolved_db gateway_id status row (with_reason status moved) next now ds d)
                now
                fx
                w')
          (Stopped now fx)
          (apply_status s gateway_id status moved w)
  unfolding apply_status dispatch_terminal_notification dispatch_tenant_webhook
  apply_status-Ends s gateway_id status moved e =
      bind _ _ _ (update_status-Ends (with_reason status moved) at)
        λ t w1 (row, found, held, next, at1).
          bind _ _ _ (when_audit-Ends at1 s.has_audit _) λ _ w2 at2.
            bind _ _ _ (write_event_if-Ends at2 (build_event t status gateway_id)) λ _ w3 at3.
              bind _ _ _ (when_event-Ends at3 (not (str_eq t.callback_url "")) _) λ _ w4 at4.
                bind _ _ _
                  (when-Ends at4 (s.has_notif && not (str_eq t.customer_email "")) _
                    (notify-Ends at4 status t))
                  λ _ w5 (ds, at5).
                    bind _ _ _ (when-Ends at5 s.has_webhooks _ (send_webhook-Ends at5 status t))
                      λ _ w6 (ds', at6).
                        bind _ _ _ (no_resolver-Ends at6 s t status e)
                          λ _ w7 at7. done (t, row, ds', found, held, next, refl, at7)

pub with_reason_kept :
    (status : Status) (t : Txn)
    → ((with_reason status t).id ≡ t.id) × ((with_reason status t).version ≡ t.version)
with_reason_kept status t = ground arith
