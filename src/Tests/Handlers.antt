-- ===== src/Tests/Handlers.antt =====
-- The handlers of the payment service, and the fees.
use payment_service.Prelude.{◌≡◌, ◌↔◌, refl, none, some, [], str_eq, ok}
use payment_service.Prelude.Int.{ℤ, pos, ◌+ℤ◌, ◌-ℤ◌, ◌*ℤ◌, ◌/ℤ◌, leb_ℤ}
use payment_service.Domain.Transaction.{Txn}
use payment_service.Domain.Fees.{Floats, Breakdown, calculate, calculate_same_currency, validate}
use payment_service.Domain.Fees.Consistency.{IsCharge, calculate_validates}
use payment_service.Postgres.Leases.{has_lease}
use payment_service.Postgres.Steps.{Ends}
use payment_service.Postgres.Transactions.{find_txn}
use payment_service.App.Payment.Attempt.{settle}
use payment_service.App.Payment.Leased.Drivers.{capturing, effects_of, held_lease_is_silent}
use payment_service.App.Payment.Settled.{Settled, settle_all_or_nothing}
use payment_service.Tests.Samples.{paid, service, world_with}

-- Whole numbers in the place of floats.
abbrev whole : Floats ℤ
whole = record {
  of_int = λ z. z;
  add = λ a b. a +ℤ b;
  sub = λ a b. a -ℤ b;
  mul = λ a b. a *ℤ b;
  div = λ a b. a /ℤ b;
  le = λ a b. leb_ℤ a b;
  ceil = λ a. a;
  upper = λ s. s;
  equal_fold = λ s t. str_eq s t;
}

abbrev breakdown : Breakdown ℤ
breakdown = calculate_same_currency whole (pos 50000) "INR" (pos 300) (pos 0)

calculated : calculate whole (pos 50000) "INR" "INR" (pos 300) (pos 0) [] ≡ ok breakdown
unfolding calculate calculate_same_currency
calculated = refl

calculate_validates_example :
    (pos 50000 ≡ pos 50000) × ((validate breakdown ≡ none) ↔ IsCharge breakdown)
unfolding calculate_same_currency
calculate_validates_example =
    calculate_validates whole (pos 50000) "INR" "INR" (pos 300) (pos 0) [] calculated

held_lease_is_silent_example :
    effects_of {F = ℤ} capturing service 7 (world_with paid [] []) ≡ (world_with paid [] []).effects
unfolding has_lease
held_lease_is_silent_example =
    held_lease_is_silent {F = ℤ} capturing service 7 (world_with paid [] []) refl

settle_all_or_nothing_example :
    Ends
      (λ t' w'.
        (t : Txn) × (find_txn 7 (world_with paid [] []).db.txns ≡ some t)
        × Settled t (world_with paid [] []).db (world_with paid [] []).clock t' w'.db)
      (λ w'. w'.db ≡ (world_with paid [] []).db)
      (settle service 7 (world_with paid [] []))
settle_all_or_nothing_example = settle_all_or_nothing service 7 (world_with paid [] [])
