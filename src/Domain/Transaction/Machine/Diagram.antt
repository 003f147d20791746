-- ===== src/Domain/Transaction/Machine/Diagram.antt =====
-- What `TransitionState` guarantees (internal/domain/transaction/state_machine.go).
use payment_service.Prelude.{◌≡◌, refl, ◌↔◌, true, none, some, ok, arith, sym, ap, ◌∙◌}
use payment_service.Prelude.Int.{ℤ}
use payment_service.Domain.Transaction.{
  Status, pending, processing, authorized, captured, settled, failed, cancelled, refund_pending,
  partially_refunded, refunded, refund_failed, disputed, Actor, Txn,
}
use payment_service.Domain.Transaction.Machine.{
  is_valid_transition, apply_transition_effects, transition_state,
}

-- The arrows of the lifecycle diagram, one for each.
infix 40 ◌⟶◌
pub data ◌⟶◌ : Status → Status → Type 0 where
  begin : pending ⟶ processing
  begin_authorized : pending ⟶ authorized
  begin_captured : pending ⟶ captured
  begin_failed : pending ⟶ failed
  begin_cancelled : pending ⟶ cancelled
  capture : processing ⟶ captured
  authorize : processing ⟶ authorized
  fail : processing ⟶ failed
  cancel : processing ⟶ cancelled
  resume : authorized ⟶ processing
  capture_authorized : authorized ⟶ captured
  fail_authorized : authorized ⟶ failed
  cancel_authorized : authorized ⟶ cancelled
  settle : captured ⟶ settled
  refund_captured : captured ⟶ refund_pending
  refunded_captured : captured ⟶ refunded
  unrefunded_captured : captured ⟶ refund_failed
  dispute_captured : captured ⟶ disputed
  refund_settled : settled ⟶ refund_pending
  refunded_settled : settled ⟶ refunded
  unrefunded_settled : settled ⟶ refund_failed
  dispute_settled : settled ⟶ disputed
  cancel_failed : failed ⟶ cancelled
  refund_done : refund_pending ⟶ refunded
  refund_lost : refund_pending ⟶ refund_failed
  refund_part : refund_pending ⟶ partially_refunded
  part_again : partially_refunded ⟶ refund_pending
  part_done : partially_refunded ⟶ refunded
  part_lost : partially_refunded ⟶ refund_failed
  retry_refund : refund_failed ⟶ refund_pending
  dispute_won : disputed ⟶ captured
  dispute_lost : disputed ⟶ refunded

ruleset arrows = (
  begin, begin_authorized, begin_captured, begin_failed, begin_cancelled, capture, authorize, fail,
  cancel, resume, capture_authorized, fail_authorized, cancel_authorized, settle, refund_captured,
  refunded_captured, unrefunded_captured, dispute_captured, refund_settled, refunded_settled,
  unrefunded_settled, dispute_settled, cancel_failed, refund_done, refund_lost, refund_part,
  part_again, part_done, part_lost, retry_refund, dispute_won, dispute_lost,
)

pub ⟶-is_valid : {s t : Status} → s ⟶ t → is_valid_transition s t ≡ true
unfolding is_valid_transition
⟶-is_valid begin = refl
⟶-is_valid _ = refl

pub is_valid-⟶ : (s t : Status) → is_valid_transition s t ≡ true → s ⟶ t
unfolding is_valid_transition
is_valid-⟶ pending t h = grind (arith, arrows)
is_valid-⟶ _ t h = grind (arith, arrows)

-- What a successful transition makes of the payment: only the status, the time stamp and, on the
-- way out of PROCESSING, the lease fields change.
abbrev pub moved : Txn → Status → ℤ → Txn
moved tx to now = leave tx.status (record tx { status = to; updated_at = now })
  where
    leave : Status → Txn → Txn
    leave processing t = record t { processing_started_at = none; processing_timeout = none }
    leave _ t = t

-- A failed payment is cancelled only on a recorded cancel intent.
abbrev pub IsPermitted : Txn → Type 0
IsPermitted tx = tx.status ≡ failed → tx.cancel_intent ≡ true

transition_state-moved :
    (tx : Txn) (to : Status) (actor : Actor) (now : ℤ)
    → is_valid_transition tx.status to ≡ true
    → IsPermitted tx
    → transition_state (some tx) to actor now ≡ ok (moved tx to now)
unfolding transition_state
transition_state-moved tx to actor now h p = ground arith

transition_state-inv :
    (tx tx' : Txn) (to : Status) (actor : Actor) (now : ℤ)
    → transition_state (some tx) to actor now ≡ ok tx'
    → (is_valid_transition tx.status to ≡ true) × IsPermitted tx × (tx' ≡ moved tx to now)
unfolding transition_state
transition_state-inv tx tx' to actor now h = ground arith

-- A transition succeeds exactly along an arrow of the lifecycle diagram, out of FAILED only with a
-- recorded cancel intent; and then it changes the status, the time stamp and, out of PROCESSING,
-- clears the two lease fields, and changes nothing else.
pub transition_state-ok_iff :
    (tx tx' : Txn) (to : Status) (actor : Actor) (now : ℤ)
    → (transition_state (some tx) to actor now ≡ ok tx')
      ↔ ((tx.status ⟶ to) × IsPermitted tx × (tx' ≡ moved tx to now))
transition_state-ok_iff tx tx' to actor now = (
  λ h.
      let (v, p, e) = transition_state-inv tx tx' to actor now h in
      (is_valid-⟶ tx.status to v, p, e),
  λ (a, p, e). transition_state-moved tx to actor now (⟶-is_valid a) p ∙ ap ok (sym e),
)

-- What a successful transition leaves, field by field, for the services.
pub transition_state-kept :
    (t : Txn) (to : Status) (actor : Actor) (now : ℤ) {t' : Txn}
    → transition_state (some t) to actor now ≡ ok t'
    → (t'.id ≡ t.id) × (t'.version ≡ t.version) × (t'.status ≡ to) × (t'.amount ≡ t.amount)
unfolding transition_state apply_transition_effects
transition_state-kept t to actor now e = ground arith
