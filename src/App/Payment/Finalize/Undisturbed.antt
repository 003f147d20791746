-- ===== src/App/Payment/Finalize/Undisturbed.antt =====
-- `finalize` when nothing fails (internal/app/payment/gateway.go).
use payment_service.Prelude.{
  ℕ, Bool, true, false, not, ◌&&◌, ◌≡◌, refl, sym, ◌∙◌, ap, Option, none, some, [], Result, ok,
  str_eq, Bool-cases, inl, inr,
}
use payment_service.Domain.Transaction.{
  Txn, Status, FailureReason, MethodDetails, TxnError, captured, failed, cancelled, gateway,
}
use payment_service.Domain.Transaction.Machine.{transition_state}
use payment_service.Domain.Transaction.Machine.Diagram.{
  ◌⟶◌, IsPermitted, moved, transition_state-ok_iff, transition_state-kept,
}
use payment_service.Ports.Gateway.{PaymentResponse}
use payment_service.Ports.Outbox.{OutboxEvent}
use payment_service.Postgres.{
  Action, World, Db, Error, AuditEntry, CachedResponse, when, gets, lift, txn_error,
}
use payment_service.Postgres.Transactions.{find_txn, write_event, write_audit}
use payment_service.Postgres.Steps.{Ends-ok, done, bind}
use payment_service.Postgres.Clear.{
  Clear, is_aborted, ClearAt, Succeeds, Succeeds-ok, dispatch-Clear, write_audit-Clear,
  write_event-Clear, write_cached_response-Clear, update_status-Clear, within_tx-Clear,
}
use payment_service.App.Payment.Outcome.{terminal, to_method_details}
use payment_service.App.Payment.Service.{Service}
use payment_service.App.Payment.Finalize.{
  finalize, with_response, with_details, commit_outcome, apply_outcome, emit_terminal,
  write_event_if, build_terminal_event, callback_event, dispatch_terminal_notification,
  dispatch_tenant_webhook, notify, send_webhook,
}
use payment_service.App.Payment.Finalize.Recorded.{
  after_commit-Ends, unless_captured-Ends, finalized, Finalized, finalize_all_or_nothing,
}

module _ {w : World} (c : Clear w) where
  notify-Clear :
      (status : Status) (id : ℕ) (reason : Option FailureReason)
      → Succeeds (λ _. Clear) (notify status id reason w)
  notify-Clear captured id reason = dispatch-Clear c _
  notify-Clear failed id reason = dispatch-Clear c _
  notify-Clear _ id reason = done c

  send_webhook-Clear : (status : Status) (id : ℕ) → Succeeds (λ _. Clear) (send_webhook status id w)
  send_webhook-Clear captured id = dispatch-Clear c _
  send_webhook-Clear failed id = dispatch-Clear c _
  send_webhook-Clear cancelled id = dispatch-Clear c _
  send_webhook-Clear _ id = done c

  when-Clear :
      (b : Bool) (m : Action (Unit {0}))
      → Succeeds (λ _. Clear) (m w)
      → Succeeds (λ _. Clear) (when b m w)
  when-Clear true m h = h
  when-Clear false m h = done c

  write_event_if-Clear : (o : Option OutboxEvent) → Succeeds (λ _. Clear) (write_event_if o w)
  unfolding write_event_if
  write_event_if-Clear none = done c
  write_event_if-Clear (some e) = write_event-Clear c e

  audit_if-Clear :
      (b : Bool) (x : AuditEntry) (d : Db)
      → w.db ≡ d
      → Succeeds (λ _. ClearAt d) (when b (write_audit x) w)
  audit_if-Clear true x d e = write_audit-Clear c x d e
  audit_if-Clear false x d e = done (e, c)

lift-Clear :
    {w : World} (f : TxnError → Error) (r : Result TxnError Txn) (t : Txn) (d : Db)
    → r ≡ ok t
    → ClearAt d w
    → Succeeds (λ a w'. (a ≡ t) × ClearAt d w') (lift f r w)
lift-Clear f r t d e h = rw e (done (refl, h))

-- The transition succeeds where the diagram has an arrow, and the tables are not touched.
apply_outcome-Clear :
    {w : World} (s : Service) (t : Txn) (status : Status) (reason : Option FailureReason)
    → Clear w
    → t.status ⟶ status
    → IsPermitted t
    → Succeeds
        (λ t1 w'. (t1.id ≡ t.id) × (t1.version ≡ t.version) × ClearAt w.db w')
        (apply_outcome s t (terminal status reason) w)
unfolding apply_outcome
apply_outcome-Clear {w} s t status reason c a p =
    let e : transition_state (some t) status gateway w.clock ≡ ok (moved t status w.clock) =
      (transition_state-ok_iff t (moved t status w.clock) status gateway w.clock).1 (a, p, refl) in
    let (i, v, _, _) = transition_state-kept t status gateway w.clock e in
    bind {M = λ now w'. (now ≡ w.clock) × ClearAt w.db w'} (gets (λ w. w.clock)) _ w
      (done (refl, (refl, c)))
      λ now w1 (en, (d1, c1)).
        bind _ _ _ (lift-Clear txn_error _ (moved t status w.clock) w.db (rw en e) (d1, c1))
          λ t' w2 (et, (d2, c2)).
            bind _ _ _ (audit_if-Clear c2 s.has_audit _ w.db d2)
              λ _ w3 h3. done (ap (λ t. t.id) et ∙ i, ap (λ t. t.version) et ∙ v, h3)

emit_terminal-Clear :
    {w : World} (s : Service) (t : Txn) (status : Status) (reason : Option FailureReason)
    → Clear w
    → Succeeds (λ _. Clear) (emit_terminal s t (terminal status reason) w)
unfolding emit_terminal dispatch_terminal_notification dispatch_tenant_webhook
emit_terminal-Clear s t status reason c =
    bind _ _ _ (write_event_if-Clear c (build_terminal_event t status)) λ _ w1 c1.
      bind _ _ _
        (when-Clear c1 (not (str_eq t.callback_url "")) (write_event (callback_event t status))
          (write_event-Clear c1 _))
        λ _ w2 c2.
          bind _ _ _
            (when-Clear c2 (s.has_notif && not (str_eq t.customer_email ""))
              (notify status t.id reason) (notify-Clear c2 status t.id reason))
            λ _ w3 c3.
              when-Clear c3 s.has_webhooks (send_webhook status t.id)
                (send_webhook-Clear c3 status t.id)

commit_outcome-Clear :
    {w : World} (s : Service) (t row : Txn) (status : Status) (reason : Option FailureReason)
    (x : CachedResponse)
    → Clear w
    → t.status ⟶ status
    → IsPermitted t
    → find_txn t.id w.db.txns ≡ some row
    → row.version ≡ t.version
    → Succeeds (λ _. Clear) (commit_outcome s t (terminal status reason) x w)
unfolding commit_outcome
commit_outcome-Clear s t row status reason x c a p found e =
    bind _ _ _ (apply_outcome-Clear s t status reason c a p) λ t1 w1 (i, v, (d1, c1)).
      bind _ _ _ (update_status-Clear t1 row c1 (rw d1 (rw i found)) (e ∙ sym v)) λ t2 w2 c2.
        bind _ _ _ (emit_terminal-Clear s t2 status reason c2)
          λ _ w3 c3. bind _ _ _ (write_cached_response-Clear c3 t2.id x) λ _ w4 c4. done c4

finalize-Clear :
    (s : Service) (txn row : Txn) (resp : Option PaymentResponse) (status : Status)
    (reason : Option FailureReason) (w : World)
    → s.cancel_resolver ≡ none
    → Clear w
    → (finalized txn resp).status ⟶ status
    → IsPermitted (finalized txn resp)
    → find_txn (finalized txn resp).id w.db.txns ≡ some row
    → row.version ≡ (finalized txn resp).version
    → Succeeds (λ _ _. Unit {0}) (finalize s txn resp (terminal status reason) w)
unfolding finalize
finalize-Clear s txn row resp status reason w r c a p found e =
    bind _ _ _
      (within_tx-Clear (commit_outcome s (finalized txn resp) (terminal status reason) _) w c
        (λ w' (d, c').
          commit_outcome-Clear s (finalized txn resp) row status reason _ c' a p (rw d found) e))
      λ t w1 _.
        bind _ _ _ (after_commit-Ends s t status reason w1)
          λ _ w2 _. bind _ _ _ (unless_captured-Ends s t status reason w2 r) λ _ w3 _. done tt

with_details-kept :
    (o : Option MethodDetails) (t : Txn)
    → ((with_details o t).id ≡ t.id)
      × ((with_details o t).status ≡ t.status)
      × ((with_details o t).version ≡ t.version)
      × ((with_details o t).cancel_intent ≡ t.cancel_intent)
with_details-kept none t = (refl, refl, refl, refl)
with_details-kept (some d) t = (refl, refl, refl, refl)

-- A reply adds a reference and details to the payment, and leaves what finalizing rests on.
with_response-kept :
    (resp : Option PaymentResponse) (t : Txn)
    → ((with_response resp t).id ≡ t.id)
      × ((with_response resp t).status ≡ t.status)
      × ((with_response resp t).version ≡ t.version)
      × ((with_response resp t).cancel_intent ≡ t.cancel_intent)
unfolding with_response
with_response-kept none t = (refl, refl, refl, refl)
with_response-kept (some r) t = elim (Bool-cases (str_eq r.gateway_reference_id "")) [
  | inl e ↦ rw e (with_details-kept (to_method_details r.method_response) t)
  | inr e ↦ rw e (
      with_details-kept (to_method_details r.method_response)
        (record t { gateway_reference_id = r.gateway_reference_id }))
]

-- If no database call fails, the row of the payment is at the version that the caller read, the
-- diagram has an arrow from the payment's status to the outcome's, a payment that has FAILED has a
-- recorded cancel intent, and no cancel resolver is set, then finalizing succeeds, and leaves what a
-- success of `finalize_all_or_nothing` leaves.
pub finalize_goes_through :
    (s : Service) (txn row : Txn) (resp : Option PaymentResponse) (status : Status)
    (reason : Option FailureReason) (w : World)
    → s.cancel_resolver ≡ none
    → w.faults ≡ []
    → is_aborted w.tx ≡ false
    → find_txn txn.id w.db.txns ≡ some row
    → row.version ≡ txn.version
    → txn.status ⟶ status
    → IsPermitted txn
    → (t : Txn) × (w' : World) × (finalize s txn resp (terminal status reason) w ≡ (ok t, w'))
      × Finalized s txn resp status reason w t w'
finalize_goes_through s txn row resp status reason w r faults tx found e a p =
    let (i, st, v, ci) = with_response-kept resp txn in
    let (t, w', same, _) = Succeeds-ok (
      finalize-Clear s txn row resp status reason w r
        (record { no_faults = faults; not_aborted = tx }) (rw st a) (λ h. ci ∙ p (sym st ∙ h))
        (rw i found) (e ∙ sym v)) in
    (t, w', same, Ends-ok (finalize_all_or_nothing s txn resp status reason w r) same)
