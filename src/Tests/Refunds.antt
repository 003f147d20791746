-- ===== src/Tests/Refunds.antt =====
-- Refunds: the cap, the requests, the shares and the state machine.
use payment_service.Prelude.{ℕ, ◌≡◌, refl, true, false, none, some, List, [], ◌∷◌, ok, arith}
use payment_service.Prelude.Int.{ℤ, pos, ◌+ℤ◌, ◌≤ℤ◌, ◌<ℤ◌, add64}
use payment_service.Domain.Transaction.{
  Txn, refund_pending, refunded, partially_refunded, refund_failed, Fresh,
}
use payment_service.Domain.Refund.{Refund, NewRefund, new, build, initiated, transition}
use payment_service.Domain.Refund
use payment_service.Domain.Refund.Cap.{new_overflow}
use payment_service.App.Refund.{
  InitiateInput, initiate_refund, is_refundable_status, gateway_refund_amount,
}
use payment_service.App.Refund.Requests.{Requested, initiate_refund_within_cap}
use payment_service.App.Refund.Undisturbed.{initiate_refund_goes_through}
use payment_service.Postgres.{World}
use payment_service.Postgres.Transactions.{find_txn}
use payment_service.Postgres.Refunds.{sum_active}
use payment_service.App.Refund.Process.{parent_after}
use payment_service.App.Refund.Parent.{parent_after-cases}
use payment_service.App.Refund.Shares.{shares_within_charge}
use payment_service.Postgres.Steps.{Ends}
use payment_service.Postgres.Atomic.{Unchanged}
use payment_service.Tests.Samples.{paid, half, service, world_with}

abbrev asked : InitiateInput
asked = record { transaction_id = 7; amount = pos 25000; reason = "damaged"; initiated_by = "ops" }

initiate_refund_within_cap_example :
    Ends
      (λ r w'. Requested asked (world_with paid [] []).db r w'.db)
      (Unchanged (world_with paid [] []))
      (initiate_refund service asked 21 (world_with paid [] []))
unfolding sum_active ◌+ℤ◌
initiate_refund_within_cap_example =
    initiate_refund_within_cap service asked 21 (world_with paid [] []) (omega arith)

abbrev fresh : Fresh
fresh = record { fresh_id = 21; fresh_key = ""; fresh_now = pos 0 }

abbrev input : ℤ → ℤ → NewRefund
input already amount = record {
  transaction_id = 7;
  amount = amount;
  original_amount = pos 50000;
  already_refunded = already;
  reason = "damaged";
  initiated_by = "ops";
}

second_half :
    new (input (pos 25000) (pos 25000)) fresh ≡ ok (build (input (pos 25000) (pos 25000)) fresh)
unfolding new add64
second_half = refl

new_overflow_example :
    new (input (pos 25000) (pos 9223372036854775807)) fresh
    ≡ ok (build (input (pos 25000) (pos 9223372036854775807)) fresh)
new_overflow_example =
    new_overflow (input (pos 25000) (pos 9223372036854775807)) fresh 50000 25000 9223372036854775807
      refl refl refl (omega arith) (omega arith) (omega arith) (omega arith) (λ h. ground arith)
      refl refl

abbrev waiting : Txn
waiting = record paid { status = refund_pending }

parent_after-cases_example :
    (waiting.amount ≤ℤ pos 25000
      → (p : Txn) × (parent_after waiting Refund.refunded (pos 25000) (pos 9) ≡ ok p)
        × (p.status ≡ refunded))
    × (pos 25000 <ℤ waiting.amount
        → (p : Txn) × (parent_after waiting Refund.refunded (pos 25000) (pos 9) ≡ ok p)
          × (p.status ≡ partially_refunded)
          × (is_refundable_status p.status ≡ true))
    × (pos 25000 ≤ℤ pos 0
        → (p : Txn) × (parent_after waiting Refund.failed (pos 25000) (pos 9) ≡ ok p)
          × (p.status ≡ refund_failed)
          × (is_refundable_status p.status ≡ true))
    × (pos 0 <ℤ pos 25000
        → (parent_after waiting Refund.failed (pos 25000) (pos 9) ≡ ok waiting)
          × (is_refundable_status waiting.status ≡ false))
parent_after-cases_example = parent_after-cases waiting (pos 25000) (pos 9) refl

shares_within_charge_example :
    ((gateway_refund_amount half paid).0 +ℤ (gateway_refund_amount half paid).0 ≤ℤ pos 51000)
    × (◌≡◌ {A = ℕ} 25000 50000 → (gateway_refund_amount half paid).0 ≡ pos 51000)
shares_within_charge_example =
    shares_within_charge half half paid 51000 25000 25000 50000 refl refl refl refl (omega arith)
      (omega arith) (omega arith)

abbrev attempts : List (Refund.Status × ℤ)
attempts = (Refund.failed, pos 5) ∷ (Refund.processing, pos 6) ∷ (Refund.refunded, pos 7) ∷ []

abbrev lost : Refund
lost = record half { status = Refund.failed; resolved_at = some (pos 5) }

lost_again : transition lost Refund.processing (pos 6) ≡ ok (record half { resolved_at = none })
unfolding transition
lost_again = refl

initiate_refund_goes_through_example :
    (r : Refund) × (w' : World) × (initiate_refund service asked 21 (world_with paid [] [])
      ≡ (ok r, w'))
    × Requested asked (world_with paid [] []).db r w'.db
unfolding find_txn is_refundable_status sum_active ◌+ℤ◌
initiate_refund_goes_through_example =
    initiate_refund_goes_through service asked 21 paid (world_with paid [] []) refl refl refl refl
      (record {
        has_transaction = λ h. ground arith;
        is_positive = omega arith;
        has_reason = refl;
        has_initiator = refl;
        earlier_positive = omega arith;
        within_amount = omega arith;
        fits = omega arith;
      })
