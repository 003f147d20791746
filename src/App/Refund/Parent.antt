-- ===== src/App/Refund/Parent.antt =====
-- Where a refund's end takes its payment (internal/app/refund/process.go).
use payment_service.Prelude.{◌≡◌, refl, false, true, ok, arith, some}
use payment_service.Prelude.Int.{ℤ, pos, ◌≤ℤ◌, ◌<ℤ◌}
use payment_service.Domain.Transaction.{
  Txn, refund_pending, refunded, partially_refunded, refund_failed, system,
}
use payment_service.Domain.Transaction
use payment_service.Domain.Transaction.Machine.{
  transition_state, is_valid_transition, apply_transition_effects,
}
use payment_service.Domain.Refund
use payment_service.App.Refund.{is_refundable_status}
use payment_service.App.Refund.Process.{parent_after}

pending_moves :
    (parent : Txn) (to : Transaction.Status) (now : ℤ)
    → parent.status ≡ refund_pending
    → is_valid_transition refund_pending to ≡ true
    → transition_state (some parent) to system now
      ≡ ok (record parent { status = to; updated_at = now })
unfolding transition_state apply_transition_effects
pending_moves parent to now e v = ground arith

-- When a refund of a REFUND_PENDING payment ends, the payment's own transition never fails: a
-- completed refund makes it REFUNDED exactly if the active refunds add up to at least its amount, and
-- PARTIALLY_REFUNDED otherwise; a failed one makes it REFUND_FAILED if no refund counts any more. If
-- one still counts, a completed one included, the payment stays REFUND_PENDING, and in that status no
-- further refund is accepted.
pub parent_after-cases :
    (parent : Txn) (sum now : ℤ)
    → parent.status ≡ refund_pending
    → (parent.amount ≤ℤ sum
        → (p : Txn) × (parent_after parent Refund.refunded sum now ≡ ok p) × (p.status ≡ refunded))
      × (sum <ℤ parent.amount
          → (p : Txn) × (parent_after parent Refund.refunded sum now ≡ ok p)
            × (p.status ≡ partially_refunded)
            × (is_refundable_status p.status ≡ true))
      × (sum ≤ℤ pos 0
          → (p : Txn) × (parent_after parent Refund.failed sum now ≡ ok p)
            × (p.status ≡ refund_failed)
            × (is_refundable_status p.status ≡ true))
      × (pos 0 <ℤ sum
          → (parent_after parent Refund.failed sum now ≡ ok parent)
            × (is_refundable_status parent.status ≡ false))
unfolding parent_after is_refundable_status is_valid_transition
parent_after-cases parent sum now e = (
  λ h. (
    record parent { status = refunded; updated_at = now },
    ground (arith, pending_moves parent refunded now e refl),
    refl,
  ),
  λ h. (
    record parent { status = partially_refunded; updated_at = now },
    ground (arith, pending_moves parent partially_refunded now e refl),
    refl,
    refl,
  ),
  λ h. (
    record parent { status = refund_failed; updated_at = now },
    ground (arith, pending_moves parent refund_failed now e refl),
    refl,
    refl,
  ),
  λ h. (ground arith, ground arith),
)
