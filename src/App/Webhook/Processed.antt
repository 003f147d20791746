-- ===== src/App/Webhook/Processed.antt =====
-- What one event leaves (internal/app/webhook/service.go).
use payment_service.Prelude.{
  Bool, true, false, not, ◌&&◌, ◌≡◌, inl, inr, refl, ap, ◌∙◌, Option, none, some, List, ◌∷◌, String,
  Result, ok, err, arith, if◌then◌else◌, Bool-cases,
}
use payment_service.Prelude.Int.{ℤ}
use payment_service.Domain.Transaction.{Txn, TxnError, Status, gateway, status_eq}
use payment_service.Domain.Transaction.Machine.{transition_state}
use payment_service.Domain.Transaction.Machine.Diagram.{transition_state-kept}
use payment_service.Postgres.{World, Db, Effect, ◌>>=◌, pure, when, published, emit}
use payment_service.Postgres.Webhooks.{is_recorded, record_event, put_event, find_by_reference}
use payment_service.Postgres.Atomic.{InTx, Unchanged, within_tx-Ends}
use payment_service.Postgres.Steps.{Ends, done, bind, imply, At, Stopped, gets-Ends, db_call-Ends}
use payment_service.App.Payment.Finalize.Recorded.{Told, report-Ends}
use payment_service.App.Webhook.Applied.{
  recorded, noted, IsRefused, Processed, seen, stranger, kept, advanced, apply_status-Ends,
  with_reason_kept, insert_gateway_metadata-Ends, get_by_gateway_reference-Ends,
}
use payment_service.App.Webhook.{
  status_or_zero, Service, Event, Outcome, is_kept, map_webhook_status, moved_or_kept, advance,
  advance_if, on_payment, on_recorded, process_body, tell, process,
}

-- The tables of a world that has not moved since.
module _ (gateway_id : String) (ev : Event) (raw : String) (d : Db) (now : ℤ) (fx : List Effect)
    (fresh : is_recorded ev.event_id gateway_id d.webhook_events ≡ false) (t : Txn)
    (found : find_by_reference gateway_id ev.gateway_reference_id d.txns ≡ some t) (s : Service)
    (none_set : s.cancel_resolver ≡ none) where
  kept-Ends :
      {w : World}
      → At (noted gateway_id ev raw t d) now fx w
      → IsRefused ev t now
      → Ends
          (InTx (Processed gateway_id ev raw d now) now fx)
          (Stopped now fx)
          (pure (is_kept t.status) w)
  kept-Ends at why = done (rw at.at_db (kept t fresh found why), at.at_clock, at.at_effects)

  moved_or_kept-Ends :
      {w : World} (status : Status) (r : Result TxnError Txn)
      → At (noted gateway_id ev raw t d) now fx w
      → map_webhook_status ev.status ≡ some status
      → transition_state (some t) status gateway now ≡ r
      → Ends
          (InTx (Processed gateway_id ev raw d now) now fx)
          (Stopped now fx)
          (moved_or_kept s gateway_id status t r w)
  moved_or_kept-Ends status (err x) at asks e = kept-Ends at (inr (status, asks, inr (x, e)))
  moved_or_kept-Ends status (ok moved) at asks e =
      imply
        (λ o w' (next, row, ds, have, held, eq, out, at').
          let (i, v, _, _) = transition_state-kept t status gateway now e in
          let (i', v') = with_reason_kept status moved in
          (
            rw (out, at'.at_db)
                (advanced t moved row next status ds fresh found asks e (cc) (cc) (cc)),
            at'.at_clock,
            at'.at_effects,
          ))
        (λ _ h. h) (apply_status-Ends at s gateway_id status moved none_set)

  advance-Ends :
      {w : World} (status : Status)
      → At (noted gateway_id ev raw t d) now fx w
      → map_webhook_status ev.status ≡ some status
      → Ends
          (InTx (Processed gateway_id ev raw d now) now fx)
          (Stopped now fx)
          (advance s gateway_id status t w)
  unfolding advance
  advance-Ends status at asks =
      bind _ _ _ (gets-Ends at (λ w. w.clock))
        λ now1 w1 (e1, at1). rw (e1 ∙ at.at_clock) (moved_or_kept-Ends status _ at1 asks refl)

  advance_if-Ends :
      {w : World} (o : Option Status)
      → At (noted gateway_id ev raw t d) now fx w
      → map_webhook_status ev.status ≡ o
      → Ends
          (InTx (Processed gateway_id ev raw d now) now fx)
          (Stopped now fx)
          (advance_if o s gateway_id t w)
  advance_if-Ends none at asks = kept-Ends at (inl asks)
  advance_if-Ends (some status) at asks = elim (Bool-cases (status_eq status t.status)) [
    | inl same ↦ rw same (kept-Ends at (inr (status, asks, inl same)))
    | inr other ↦ rw other (advance-Ends status at asks)
  ]

module _ (s : Service) (gateway_id : String) (ev : Event) (raw : String)
    (none_set : s.cancel_resolver ≡ none) {d : Db} {now : ℤ} {fx : List Effect} where
  on_payment-Ends :
      {w : World} (o : Option Txn)
      → At (recorded gateway_id ev d) now fx w
      → is_recorded ev.event_id gateway_id d.webhook_events ≡ false
      → find_by_reference gateway_id ev.gateway_reference_id d.txns ≡ o
      → Ends
          (InTx (Processed gateway_id ev raw d now) now fx)
          (Stopped now fx)
          (on_payment o s gateway_id ev raw w)
  on_payment-Ends none at fresh found =
      done (rw at.at_db (stranger fresh found), at.at_clock, at.at_effects)
  on_payment-Ends (some t) at fresh found =
      bind _ _ _ (insert_gateway_metadata-Ends at t.id gateway_id raw)
        λ _ w1 at1. advance_if-Ends gateway_id ev raw d now fx fresh t found s none_set _ at1 refl

  on_recorded-Ends :
      {w : World} (b : Bool)
      → is_recorded ev.event_id gateway_id d.webhook_events ≡ not b
      → At (if b then recorded gateway_id ev d else d) now fx w
      → Ends
          (InTx (Processed gateway_id ev raw d now) now fx)
          (Stopped now fx)
          (on_recorded b s gateway_id ev raw w)
  on_recorded-Ends false was at = done (rw at.at_db (seen was), at.at_clock, at.at_effects)
  on_recorded-Ends true was at =
      bind _ _ _ (get_by_gateway_reference-Ends at gateway_id ev.gateway_reference_id)
        λ o w1 (found, at1). on_payment-Ends o at1 was found

  put_event-Ends :
      {w : World} (was : Bool)
      → is_recorded ev.event_id gateway_id d.webhook_events ≡ was
      → At d now fx w
      → Ends
          (λ b w'.
            (is_recorded ev.event_id gateway_id d.webhook_events ≡ not b)
            × At (if b then recorded gateway_id ev d else d) now fx w')
          (Stopped now fx)
          (put_event was ev.event_id gateway_id w)
  unfolding ◌>>=◌
  put_event-Ends true e at = done (e, at)
  put_event-Ends false e at = done (e, ground arith)

  record_event-Ends :
      {w : World}
      → At d now fx w
      → Ends
          (λ b w'.
            (is_recorded ev.event_id gateway_id d.webhook_events ≡ not b)
            × At (if b then recorded gateway_id ev d else d) now fx w')
          (Stopped now fx)
          (record_event ev.event_id gateway_id w)
  unfolding record_event
  record_event-Ends at = bind _ _ _ (db_call-Ends at) λ _ w1 at1.
      bind _ _ _ (gets-Ends at1 (λ w. is_recorded ev.event_id gateway_id w.db.webhook_events))
        λ was w2 (e, at2). put_event-Ends was (cc) at2

  process_body-Ends :
      {w : World}
      → At d now fx w
      → Ends
          (InTx (Processed gateway_id ev raw d now) now fx)
          (Stopped now fx)
          (process_body s gateway_id ev raw w)
  unfolding process_body
  process_body-Ends at =
      bind _ _ _ (record_event-Ends at) λ b w1 (was, at1). on_recorded-Ends b was at1

abbrev pub told_of : Option Status → Service → Outcome → List Effect → List Effect
told_of none s o fx = fx
told_of (some st) s o fx =
    if not o.duplicate && o.resolved && s.has_bus then published o.transaction_id st ∷ fx else fx

-- What the bus has heard.
abbrev pub told : Service → Outcome → List Effect → List Effect
told s o fx = told_of o.status s o fx

told_of-Ends :
    {E : World → Type 0} (x : Option Status) (s : Service) (o : Outcome) (w : World)
    → Ends (Told w.db (told_of x s o w.effects)) E (
        status_or_zero x
          (pure tt)
          (λ st.
            when
              (not o.duplicate && o.resolved && s.has_bus)
              (emit (published o.transaction_id st)))
          w)
told_of-Ends none s o w = done (refl, refl)
told_of-Ends (some st) s o w = report-Ends _ _ w.db w.effects w (refl, refl)

told-Ends :
    {E : World → Type 0} (s : Service) (o : Outcome) (w : World)
    → Ends (Told w.db (told s o w.effects)) E (tell s o w)
unfolding tell
told-Ends s o w = told_of-Ends o.status s o w

-- Whatever fails on the way, `Process` either leaves every table, the clock and the outward calls as
-- they were and returns an error, or has done one of four things. An event that is recorded already
-- changes nothing. An event whose reference belongs to no payment is recorded. An event that asks
-- for no status, for the one that the payment has, or for one that the state machine refuses is
-- recorded with its payload. Any other moves the payment, from whatever status the machine lets
-- it leave, to the status that it asks for, at the version that was read, and writes its row, its event and its callback with the record, and the bus hears of it
-- exactly then. Condition: no cancel resolver is set.
pub process-Processed :
    (s : Service) (gateway_id : String) (ev : Event) (raw : String) (w : World)
    → s.cancel_resolver ≡ none
    → Ends
        (λ o w'.
          Processed gateway_id ev raw w.db w.clock o w'.db × (w'.effects ≡ told s o w.effects))
        (Unchanged w)
        (process s gateway_id ev raw w)
unfolding process
process-Processed s gateway_id ev raw w none_set =
    bind _ _ _
      (within_tx-Ends (Processed gateway_id ev raw w.db w.clock) (process_body s gateway_id ev raw)
        w (λ w' at. process_body-Ends s gateway_id ev raw none_set at))
      λ o w1 (p, _, fx1).
        bind _ _ _ (told-Ends s o w1) λ _ w2 (d2, fx2). done (rw d2 p, fx2 ∙ ap (told s o) fx1)
