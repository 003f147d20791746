-- ===== src/Tests/Sequences.antt =====
-- A sequence of calls on the refunds of one payment.
use payment_service.Prelude.{err, some, ℕ, List, [], ◌∷◌, arith}
use payment_service.Prelude.Int.{ℤ, pos, ◌+ℤ◌}
use payment_service.Postgres.{World}
use payment_service.Postgres.Transactions.{find_txn}
use payment_service.App.Idempotency.Hashes.{Texts}
use payment_service.App.Refund.{InitiateInput}
use payment_service.App.Refund.Covered.{sum_unfailed, IsCovered, Covers}
use payment_service.App.Refund.Covered.Sequences.{
  Call, initiate_with_key, process, retry, resolve_cancel, after_calls, after_calls-Covers,
}
use payment_service.Ports.Gateway.{typed}
use payment_service.App.Payment.Service.{Service}
use payment_service.Tests.Samples.{forgetful, unknown, paid, half, service, world_with}

-- A payment of 500.00 of which 250.00 is being refunded.
abbrev half_refunded : World
half_refunded = world_with paid (half ∷ []) []

abbrev five_hundred : ℕ → ℤ
five_hundred id = pos 50000

half_refunded-IsCovered : IsCovered five_hundred half_refunded.db
unfolding find_txn sum_unfailed ◌+ℤ◌
half_refunded-IsCovered = record {
  is_priced = λ id t found. ground arith;
  is_within = λ id. ground arith;
  is_positive = (omega arith, tt);
}

abbrev plain_texts : Texts
plain_texts = record { uuid = λ _. "id"; int = λ _. "n"; hash = λ s. s }

abbrev rest : InitiateInput
rest = record { transaction_id = 7; amount = pos 30000; reason = "late"; initiated_by = "ops" }

-- A gateway that does not answer.
abbrev silent_service : Service
silent_service = record service {
  gateways = λ _. some (record forgetful { refund = λ _. err (typed unknown) });
}

-- The first retry is not answered and the second one is.
abbrev calls : List (Service × Call)
calls =
    (silent_service, retry 21)
    ∷ (service, retry 21)
    ∷ (service, initiate_with_key rest "key" 22)
    ∷ (silent_service, process 22)
    ∷ (service, resolve_cancel 7 (pos 50000) 23)
    ∷ []

after_calls-Covers_example : Covers five_hundred (after_calls plain_texts calls half_refunded)
after_calls-Covers_example =
    after_calls-Covers plain_texts five_hundred calls half_refunded
      (λ id. (omega arith, omega arith))
      (tt, (tt, ((omega arith, omega arith), (tt, ((omega arith, omega arith), tt)))))
      half_refunded-IsCovered
