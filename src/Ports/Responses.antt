-- ===== src/Ports/Responses.antt =====
-- The answers that the services keep with an idempotency key, and the guard's verdicts
-- (`idempotencyTransactionResponse`, `idempotencyRefundResponse` and `idempotencyCancelResponse` in
-- internal/app, `Verdict` in internal/app/idempotency/idempotency.go). JSON is its fields.
use payment_service.Prelude.{ℕ, String}
use payment_service.Domain.Transaction.{Status}

-- `Outcome` of internal/app/cancel/service.go.
pub data CancelOutcome : Type 0 where
  requested already_terminal : CancelOutcome

-- `nothing` is the `{}` of a key that is reserved.
pub data Response : Type 0 where
  nothing : Response
  payment : ℕ → String → Response
  refund : ℕ → Response
  cancel : CancelOutcome → Status → Response

pub data Verdict : Type 0 where
  created replayed in_progress key_reused : Verdict
