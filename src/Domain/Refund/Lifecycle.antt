-- ===== src/Domain/Refund/Lifecycle.antt =====
-- What the refund's state machine guarantees (internal/domain/refund/refund.go).
use payment_service.Prelude.{◌≡◌, refl, true, none, List, [], ◌∷◌, Result, ok, err, is_some, arith}
use payment_service.Prelude.Int.{ℤ}
use payment_service.Domain.Refund.{
  Status, processing, refunded, Refund, RefundError, is_terminal, transition, is_retryable,
}

-- A refund carries a resolution time exactly while it is resolved.
abbrev pub IsDated : Refund → Type 0
IsDated r = is_some r.resolved_at ≡ is_terminal r.status

abbrev after : Refund → Result RefundError Refund → Refund
after r (ok r') = r'
after r (err _) = r

unfoldable pub request : Refund → Status × ℤ → Refund
request r (to, now) = after r (transition r to now)

unfoldable pub run : Refund → List (Status × ℤ) → Refund
run r [] = r
run r (q ∷ qs) = run (request r q) qs

request-IsDated : (r : Refund) (q : Status × ℤ) → IsDated r → IsDated (request r q)
unfolding request transition is_terminal
request-IsDated r (to, now) h = ground arith

request_refunded : (r : Refund) (q : Status × ℤ) → r.status ≡ refunded → request r q ≡ r
unfolding request transition
request_refunded r (to, now) h = ground arith

run-IsDated : (r : Refund) (qs : List (Status × ℤ)) → IsDated r → IsDated (run r qs)
unfolding run
run-IsDated r [] h = h
run-IsDated r (q ∷ qs) h = run-IsDated (request r q) qs (request-IsDated r q h)

run_refunded : (r : Refund) (qs : List (Status × ℤ)) → r.status ≡ refunded → run r qs ≡ r
unfolding run
run_refunded r [] h = refl
run_refunded r (q ∷ qs) h = rw (request_refunded r q h) (run_refunded r qs h)

-- Over every sequence of transition requests a refund keeps a resolution time exactly while it is
-- REFUNDED or FAILED, and a REFUNDED one is not changed at all.
run_resolution :
    (r : Refund) (qs : List (Status × ℤ))
    → IsDated r
    → IsDated (run r qs) × (r.status ≡ refunded → run r qs ≡ r)
run_resolution r qs h = (run-IsDated r qs h, run_refunded r qs)

-- A refund is retryable exactly when its status is FAILED, and then the only transition that it
-- admits is back to PROCESSING, which clears the resolution time.
is_retryable-transition :
    (r : Refund) (to : Status) (now : ℤ) {r' : Refund}
    → is_retryable r ≡ true
    → transition r to now ≡ ok r'
    → (to ≡ processing) × (r' ≡ record r { status = processing; resolved_at = none })
unfolding is_retryable transition
is_retryable-transition r to now h e = ground arith
