-- ===== src/Domain/Refund/Cap.antt =====
-- The over-refund guard of `New` (internal/domain/refund/refund.go).
use payment_service.Prelude.{ℕ, ◌≤◌, ◌<◌, ◌+◌, ◌^◌, ◌≡◌, ◌≢◌, ok, arith, false, str_eq}
use payment_service.Prelude.Int.{ℤ, pos, ◌+ℤ◌, ◌≤ℤ◌, ◌<ℤ◌, IsInt64, add64, wrap64_of_IsInt64}
use payment_service.Domain.Transaction.{Fresh}
use payment_service.Domain.Refund.{NewRefund, Refund, new, build, initiated}

-- Where the sum of the refunds fits an int64, the code's addition is the true one.
pub add64_exact : (a b : ℤ) → IsInt64 (a +ℤ b) → add64 a b ≡ a +ℤ b
unfolding add64
add64_exact a b h = wrap64_of_IsInt64 (a +ℤ b) h

-- If the already refunded amount and the requested one add up within an int64, a refund that `New`
-- accepts is positive and does not take the sum past the original amount; it starts INITIATED.
pub new_within_cap :
    (a : NewRefund) (f : Fresh) {r : Refund}
    → IsInt64 (a.already_refunded +ℤ a.amount)
    → new a f ≡ ok r
    → (pos 0 <ℤ r.amount)
      × (a.already_refunded +ℤ r.amount ≤ℤ a.original_amount)
      × (r.status ≡ initiated)
unfolding new
new_within_cap a f fits h = ground (arith, add64_exact a.already_refunded a.amount)

-- A sum of two amounts that passes the largest int64 is negative.
add64_wraps : (m n : ℕ) → m < 2 ^ 63 → n < 2 ^ 63 → 2 ^ 63 ≤ m + n → add64 (pos m) (pos n) <ℤ pos 0
unfolding add64
add64_wraps m n hm hn h = ground arith

-- The guard is passed whenever the two amounts add up past the largest int64: the refund is
-- accepted although it exceeds what is left of the original amount.
pub new_overflow :
    (a : NewRefund) (f : Fresh) (original already amount : ℕ)
    → a.original_amount ≡ pos original
    → a.already_refunded ≡ pos already
    → a.amount ≡ pos amount
    → already ≤ original
    → original < 2 ^ 63
    → amount < 2 ^ 63
    → 2 ^ 63 ≤ already + amount
    → a.transaction_id ≢ 0
    → str_eq a.reason "" ≡ false
    → str_eq a.initiated_by "" ≡ false
    → new a f ≡ ok (build a f)
unfolding new
new_overflow a f original already amount eo ea em h1 h2 h3 h4 h5 h6 h7 =
    ground (arith, add64_wraps already amount)
