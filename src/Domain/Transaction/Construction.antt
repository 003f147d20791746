-- ===== src/Domain/Transaction/Construction.antt =====
-- What `New` and `Validate` guarantee (internal/domain/transaction/transaction.go).
use payment_service.Prelude.{◌≡◌, ◌≢◌, ◌↔◌, true, none, String, ok, arith}
use payment_service.Domain.Transaction.{Fresh, validate, is_valid_capture_mode}
use payment_service.Domain.Transaction.Creation.{NewTxn, build, new, default_capture_mode}

-- For a fresh id and a known user, `New` succeeds exactly when `Validate` accepts the payment that
-- it would build and the capture mode, where none is given `auto`, is a known one. That holds for any folding of texts in place of
-- `strings.ToUpper`.
pub new-validate :
    (upper : String → String) (a : NewTxn) (f : Fresh)
    → f.fresh_id ≢ 0
    → a.user_id ≢ 0
    → (new upper a f ≡ ok (build a f)) ↔ (
        (validate upper (build a f) ≡ none)
        × (is_valid_capture_mode (default_capture_mode a.capture_mode) ≡ true))
unfolding new validate
new-validate upper a f i u = (λ h. ground arith, λ h. ground arith)
