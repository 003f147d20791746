-- ===== src/Tests/Payments.antt =====
-- Payments: the state machine, the outcomes, finalization and recovery.
use payment_service.Prelude.{
  ◌≡◌, refl, ap, ◌↔◌, ◌⊎◌, inl, true, false, none, some, List, [], ◌∷◌, ok, err, is_ok, arith,
  String, Result,
}
use payment_service.Prelude.Int.{pos}
use payment_service.Domain.Transaction.{
  Txn, captured, settled, refund_pending, refunded, processing, system, gateway, Fresh, card, unset,
  validate, is_valid_capture_mode,
}
use payment_service.Domain.Transaction.Creation.{NewTxn, new, build, default_capture_mode}
use payment_service.Domain.Transaction.Machine.{transition_state}
use payment_service.Domain.Transaction.Machine.Diagram.{
  transition_state-ok_iff, moved, IsPermitted, ◌⟶◌, capture,
}
use payment_service.Domain.Transaction.Machine.Traces.{
  Request, request, run, IsLeaseConsistent, run-IsLeaseConsistent, refund_needs_capture, targets,
  is_taken,
}
use payment_service.Domain.Transaction.Construction.{new-validate}
use mathlib.Core.Path.{subst}
use mathlib.Core.List.{Memᴰ}
use payment_service.Ports.Gateway.{
  Adapter, StatusRequest, GatewayError, PaymentResponse, ErrorCategory, network_timeout, succeeded,
}
use payment_service.App.Payment.Outcome.{
  terminal, open_outcome, resolve_outcome, resolve_capture_outcome, resolve_authorize_outcome,
  is_gateway_health_failure, to_method_details,
}
use payment_service.App.Payment.Outcome.Safety.{resolve_never_guesses}
use payment_service.App.Payment.Finalize.{
  finalize, with_response, cached_response, commit_outcome, apply_outcome, emit_terminal,
  write_event_if, build_terminal_event, dispatch_terminal_notification, dispatch_tenant_webhook,
  after_commit, resolve_cancel_if_requested,
}
use payment_service.Ports.Outbox.{event_type_for_transaction_status}
use payment_service.Postgres.Leases.{write_cached_response, set_cached}
use payment_service.App.Payment.Service.{exit_intent}
use payment_service.App.Payment.Finalize.Audited.{audit_entry_lost}
use payment_service.Postgres.{of_txn, gateway_finalize}
use payment_service.Postgres.Transactions.{has_entry}
use payment_service.App.Payment.Finalize.Undisturbed.{finalize_goes_through}
use payment_service.Domain.Transaction.Machine.Diagram.{capture}
use payment_service.App.Payment.Finalize.Recorded.{Finalized, finalize_all_or_nothing}
use payment_service.App.Payment.Process.{recover_expired_lease}
use payment_service.App.Payment.Process.Recovery.{recover_guesses_nothing, IsUndecided}
use payment_service.Postgres.Steps.{Ends}
use payment_service.Postgres.Atomic.{Unchanged}
use payment_service.Postgres.Transactions.{
  update_status, find_txn, replace_txn, write_event, write_audit,
}
use payment_service.Postgres.{within_tx, World, db_fault, ◌>>=◌, db_call}
use payment_service.Tests.Samples.{paying, service, world_with, accepted, unknown, forgetful}

finalize_all_or_nothing_example :
    Ends
      (Finalized service paying (some accepted) captured none (world_with paying [] []))
      (Unchanged (world_with paying [] []))
      (finalize service paying (some accepted) (terminal captured none) (world_with paying [] []))
finalize_all_or_nothing_example =
    finalize_all_or_nothing service paying (some accepted) captured none (world_with paying [] [])
      refl

service-IsUndecided :
    (g : String) (a : Adapter)
    → service.gateways g ≡ some a
    → (q : StatusRequest) → IsUndecided (a.check_status q)
service-IsUndecided g a h q =
    let same : forgetful ≡ a = cc in
    subst (λ a. IsUndecided (a.check_status q)) same (unknown, refl, inl refl)

recover_guesses_nothing_example :
    Ends
      (λ _ w'. w'.db ≡ (world_with paying [] []).db)
      (λ w'. w'.db ≡ (world_with paying [] []).db)
      (recover_expired_lease service 7 (world_with paying [] []))
recover_guesses_nothing_example =
    recover_guesses_nothing service service-IsUndecided 7 (world_with paying [] [])

transition_state-ok_iff_example :
    (transition_state (some paying) captured gateway (pos 9) ≡ ok (moved paying captured (pos 9)))
    ↔ ((processing ⟶ captured)
        × IsPermitted paying
        × (moved paying captured (pos 9) ≡ moved paying captured (pos 9)))
transition_state-ok_iff_example =
    transition_state-ok_iff paying (moved paying captured (pos 9)) captured gateway (pos 9)

-- Authorized, captured, settled, refund requested, refunded.
abbrev whole_life : List Request
whole_life =
    record { target = captured; actor = gateway; at = pos 1 }
    ∷ record { target = settled; actor = system; at = pos 2 }
    ∷ record { target = refund_pending; actor = system; at = pos 3 }
    ∷ record { target = refunded; actor = system; at = pos 4 }
    ∷ []

whole_life_ends : (run paying whole_life).status ≡ refunded
unfolding run request transition_state
whole_life_ends = refl

run-IsLeaseConsistent_example : IsLeaseConsistent (run paying whole_life)
run-IsLeaseConsistent_example = run-IsLeaseConsistent paying whole_life (λ h. absurd (h refl))

refund_needs_capture_example : Memᴰ captured (targets whole_life)
refund_needs_capture_example =
    refund_needs_capture paying whole_life refl (ap (λ s. is_taken s) whole_life_ends)

abbrev input : NewTxn
input = record {
  tenant_id = 1;
  user_id = 2;
  amount = pos 50000;
  currency = "INR";
  method = card;
  gateway_id = "razorpay";
  customer_id = 3;
  customer_email = "";
  description = "";
  metadata = "{}";
  estimated_timeout_sec = pos 30;
  capture_mode = unset;
}

-- `strings.ToUpper` on texts in capitals.
abbrev same_text : String → String
same_text s = s

abbrev fresh : Fresh
fresh = record { fresh_id = 7; fresh_key = "key-7"; fresh_now = pos 0 }

new_builds : new same_text input fresh ≡ ok (build input fresh)
unfolding new
new_builds = refl

new-validate_example : (new same_text input fresh ≡ ok (build input fresh)) ↔ (
    (validate same_text (build input fresh) ≡ none)
    × (is_valid_capture_mode (default_capture_mode unset) ≡ true))
new-validate_example = new-validate same_text input fresh (λ h. ground arith) (λ h. ground arith)

abbrev silence : Result GatewayError PaymentResponse
silence = err unknown

resolve_never_guesses_example :
    ((resolve_outcome silence ≡ terminal captured none)
        ⊎ (resolve_capture_outcome silence ≡ terminal captured none)
      → (r : PaymentResponse) × (silence ≡ ok r) × (r.status ≡ succeeded))
    × ¬ (resolve_authorize_outcome silence ≡ terminal captured none)
    × ((e : GatewayError)
        → silence ≡ err e
        → (e.category ≡ ErrorCategory.ambiguous) ⊎ (e.category ≡ network_timeout)
        → (resolve_outcome silence ≡ open_outcome)
          × (resolve_authorize_outcome silence ≡ open_outcome)
          × (resolve_capture_outcome silence ≡ open_outcome)
          × (is_gateway_health_failure silence ≡ true))
resolve_never_guesses_example = resolve_never_guesses silence none

-- The commit fails after the update has been made.
abbrev broken : World
broken = world_with paying [] (false ∷ false ∷ true ∷ [])

update_fails : (within_tx (update_status paying) broken).0 ≡ err db_fault
unfolding within_tx update_status db_call ◌>>=◌ find_txn replace_txn
update_fails = refl

-- With nothing in the way, the payment is finalized.
finalize_succeeds :
    is_ok
      (finalize service paying (some accepted) (terminal captured none) (world_with paying [] [])).0
    ≡ true
unfolding finalize with_response cached_response within_tx commit_outcome apply_outcome
    transition_state update_status find_txn replace_txn emit_terminal write_event_if
    build_terminal_event event_type_for_transaction_status write_event write_audit
    dispatch_terminal_notification dispatch_tenant_webhook write_cached_response set_cached
    after_commit exit_intent resolve_cancel_if_requested to_method_details ◌>>=◌ db_call has_entry
finalize_succeeds = refl

abbrev logged : World
logged = record (world_with paying [] []) {
  audit =
      record {
        id = 0;
        transaction_id = 6;
        actor = "gateway";
        previous = of_txn processing;
        next = of_txn captured;
        reason = gateway_finalize;
      }
      ∷ [];
}

audit_entry_lost_example :
    (apply_outcome service paying (terminal captured none) logged).1.audit ≡ logged.audit
unfolding has_entry
audit_entry_lost_example = audit_entry_lost service paying (terminal captured none) logged refl

finalize_goes_through_example :
    (t : Txn) × (w' : World) × (finalize service paying
        (some accepted)
        (terminal captured none)
        (world_with paying [] [])
      ≡ (ok t, w'))
    × Finalized service paying (some accepted) captured none (world_with paying [] []) t w'
unfolding find_txn
finalize_goes_through_example =
    finalize_goes_through service paying paying (some accepted) captured none
      (world_with paying [] []) refl refl refl refl refl capture (λ h. absurd (cc))
