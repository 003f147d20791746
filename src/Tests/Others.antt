-- ===== src/Tests/Others.antt =====
-- The circuit breaker, disputes and reconciliation.
use payment_service.Prelude.{
  ℕ, ◌*◌, ◌≤◌, ◌<◌, ◌≡◌, refl, ◌↔◌, true, none, some, List, [], ◌∷◌, ok, arith,
}
use payment_service.Prelude.Int.{ℤ, pos, ◌-ℤ◌, mul64}
use payment_service.Domain.Transaction.{captured}
use payment_service.Domain.Gateway.{
  CircuitBreaker, CircuitState, closed, open_state, half_open, transition, cooldown_duration,
  second, is_routable, should_transition_to_half_open,
}
use payment_service.Domain.Gateway
use payment_service.Valkey.Breaker.{Cell, breaker_of, record_failure}
use payment_service.Valkey.Breaker
use payment_service.Valkey.Breaker.Agreement.{
  Agrees, transition-Agrees, Counted, record_failure_opens,
}
use payment_service.Domain.Dispute.{
  Dispute, needs_response, under_review, won, is_urgent, can_submit_evidence,
}
use payment_service.Domain.Dispute
use payment_service.Domain.Dispute.Lifecycle.{IsDated, run_bounded}
use payment_service.Domain.Dispute.Lifecycle
use payment_service.Domain.Reconciliation.{
  Entry, AutoResolutionConfig, mismatch_amount, eligible_for_auto_resolution, unresolved,
}
use payment_service.Domain.Reconciliation.Threshold.{eligible_iff, distance}

abbrev healthy : CircuitBreaker
healthy = record {
  gateway_id = "razorpay";
  state = closed;
  cooldown_until = 0;
  consecutive_failures = 0;
  last_known_reliability_score = pos 100;
}

abbrev probes : List (CircuitState × ℕ)
probes = (open_state, 10) ∷ (half_open, 70000000000) ∷ (open_state, 70000000001) ∷ []

abbrev opened : CircuitBreaker
opened = record healthy {
  state = open_state;
  consecutive_failures = 1;
  cooldown_until = 60000000010;
}

opens : transition healthy open_state 10 ≡ ok opened
unfolding transition
opens = refl

abbrev raised : Dispute
raised = record {
  id = 31;
  transaction_id = 7;
  gateway_id = "razorpay";
  gateway_dispute_id = "dp_1";
  reason = "fraud";
  status = needs_response;
  amount = pos 50000;
  currency = "INR";
  evidence_due_by = some (pos 172800000000000);
  evidence_submitted_at = none;
  created_at = pos 0;
  resolved_at = none;
}

abbrev decisions : List (Dispute.Status × ℤ)
decisions = (under_review, pos 1) ∷ (won, pos 2) ∷ (under_review, pos 3) ∷ []

run_bounded_example :
    ((Lifecycle.run raised decisions).1 ≤ 2) × IsDated (Lifecycle.run raised decisions).0
unfolding can_submit_evidence
run_bounded_example = run_bounded raised decisions refl

raised_urgent : is_urgent raised (pos 2) (pos 0) ≡ true
unfolding is_urgent ◌-ℤ◌ mul64
raised_urgent = refl

abbrev entry : Entry
entry = record {
  id = 1;
  job_id = 2;
  transaction_id = 7;
  internal_status = some captured;
  gateway_status = "succeeded";
  internal_amount = pos 49990;
  gateway_amount = pos 50000;
  internal_fees = none;
  gateway_fees = none;
  mismatch_type = mismatch_amount;
  resolution_status = unresolved;
  resolved_by = "";
  resolved_at = none;
  notes = "";
}

abbrev config : AutoResolutionConfig
config = record {
  payment_method = "card";
  region = "IN";
  threshold_bps = pos 10;
  absolute_cap_paise = pos 100;
  action = "ignore";
}

eligible_iff_example : (eligible_for_auto_resolution entry config ≡ none) ↔ (
    (mismatch_amount ≡ mismatch_amount)
    × (0 < 50000)
    × (distance 50000 49990 * 10000 ≤ 50000 * 10)
    × (distance 50000 49990 ≤ 100))
eligible_iff_example =
    eligible_iff entry config 50000 49990 10 100 refl refl refl refl (omega arith) (omega arith)
      (omega arith)

abbrev failing : Cell
failing = some (record {
  state = closed;
  cooldown_until = none;
  consecutive_failures = some 2;
  last_known_score = some (pos 90);
})

transition-Agrees_example :
    Agrees "stripe" failing
      (Gateway.transition (breaker_of "stripe" failing) open_state 1700000000500000000)
      (Breaker.transition true (breaker_of "stripe" failing) open_state 1700000000500000000 failing)
transition-Agrees_example = transition-Agrees "stripe" failing open_state 1700000000500000000

record_failure_opens_example : Counted "stripe" failing (pos 3) 1700000000500000000
record_failure_opens_example = record_failure_opens "stripe" failing (pos 3) 1700000000500000000

opened_cell :
    (record_failure true (pos 3) 1700000000500000000 failing).1
    ≡ some (record {
      state = open_state;
      cooldown_until = some 1700000240;
      consecutive_failures = some 3;
      last_known_score = some (pos 90);
    })
unfolding record_failure
opened_cell = refl
