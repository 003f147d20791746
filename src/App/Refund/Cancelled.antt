-- ===== src/App/Refund/Cancelled.antt =====
-- `ResolveCancelRefund` (internal/app/refund/process.go): the refund of a payment that was captured
-- although it should have been cancelled.
use payment_service.Prelude.{ℕ, Bool, true, false, Option, none, some, String, Result, ok, err}
use payment_service.Prelude.Int.{ℤ}
use payment_service.Domain.Refund.{Refund, over_refund}
use payment_service.Postgres.{Action, World, Error, ◌>>=◌, pure, refund_error}
use payment_service.Postgres.Refunds.{exists_by_reason}
use payment_service.App.Idempotency.Hashes.{Texts}
use payment_service.App.Payment.Service.{Service}
use payment_service.App.Refund.{InitiateInput}
use payment_service.App.Refund.Guarded.{InitiateResult, initiate_refund_guarded}
use payment_service.App.Refund.Process.{process_refund}
use Prim.Native.String.{◌++◌ as append_text}

abbrev pub reason_cancel_resolution : String
reason_cancel_resolution = "cancel_resolution"

abbrev pub cancel_input : ℕ → ℤ → InitiateInput
cancel_input id amount = record {
  transaction_id = id;
  amount = amount;
  reason = reason_cancel_resolution;
  initiated_by = "system:cancel_resolution";
}

-- A refund beyond the amount is no error here.
abbrev pub unless_over : Result Error InitiateResult × World → Result Error (Option Refund) × World
unless_over (ok a, w) = (ok a.refund, w)
unless_over (err (refund_error (over_refund _ _ _)), w) = (ok none, w)
unless_over (err e, w) = (err e, w)

unfoldable pub request_resolution : Texts → Service → ℕ → ℤ → ℕ → Action (Option Refund)
request_resolution x s id amount fresh w = unless_over (
    initiate_refund_guarded x s (cancel_input id amount)
      (append_text "cancel-resolution:" (x.uuid id)) fresh w)

abbrev pub drive : Service → Option Refund → Action (Unit {0})
drive s none = pure tt
drive s (some r) = do r' ← process_refund s r.id; pure tt

abbrev pub resolve_unless : Bool → Texts → Service → ℕ → ℤ → ℕ → Action (Unit {0})
resolve_unless true x s id amount fresh = pure tt
resolve_unless false x s id amount fresh = do
  made ← request_resolution x s id amount fresh
  drive s made

unfoldable pub resolve_cancel_refund : Texts → Service → ℕ → ℤ → ℕ → Action (Unit {0})
resolve_cancel_refund x s id amount fresh = do
  exists ← exists_by_reason id reason_cancel_resolution
  resolve_unless exists x s id amount fresh
