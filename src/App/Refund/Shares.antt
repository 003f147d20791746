-- ===== src/App/Refund/Shares.antt =====
-- The share of the gateway's charge that a partial refund asks for (internal/app/refund/process.go).
use payment_service.Prelude.{ℕ, ◌+◌, ◌*◌, ◌/◌, ◌≤◌, ◌<◌, ◌^◌, ◌≡◌, ◌∙◌, ap, some, arith}
use payment_service.Prelude.Int.{pos, ◌+ℤ◌, ◌≤ℤ◌, int_laws}
use payment_service.Prelude.Int.Exact.{mul64-pos, div64-pos}
use native.Mathlib.Nat.{mul-le-mul_left, mul-div-le, mul-div_left, le_of_mul-le-mul_left}
use payment_service.Domain.Transaction.{Txn}
use payment_service.Domain.Refund.{Refund}
use payment_service.App.Refund.{gateway_refund_amount}

share-pos :
    (r : Refund) (parent : Txn) (charged amount whole : ℕ)
    → parent.gateway_amount ≡ some (pos charged)
    → r.amount ≡ pos amount
    → parent.amount ≡ pos whole
    → charged * amount < 2 ^ 63
    → (gateway_refund_amount r parent).0 ≡ pos (charged * amount / whole)
unfolding gateway_refund_amount
share-pos r parent charged amount whole eg ea ew h =
    rw eg (rw ea (rw ew (rw (mul64-pos charged amount h) (div64-pos (charged * amount) whole h))))

shares_le : (c m n k : ℕ) → 0 < k → m + n ≤ k → c * m / k + c * n / k ≤ c
shares_le c m n k p h =
    le_of_mul-le-mul_left
      (ground (arith, mul-div-le (c * m) k, mul-div-le (c * n) k, mul-le-mul_left c h)) p

share_fits : (c m k : ℕ) → m ≤ k → c * k < 2 ^ 63 → c * m < 2 ^ 63
share_fits c m k h fits = ground (arith, mul-le-mul_left c h)

pos_sum_le : (a b c : ℕ) → a + b ≤ c → pos a +ℤ pos b ≤ℤ pos c
pos_sum_le a b c h = grind int_laws

-- Two partial refunds that stay within the payment's amount ask the gateway for no more than it
-- charged, and a refund of the whole amount asks for the whole charge, as long as charge times amount
-- fits an int64. The charge may include fees and be in another currency.
pub shares_within_charge :
    (r1 r2 : Refund) (parent : Txn) (charged m n whole : ℕ)
    → parent.gateway_amount ≡ some (pos charged)
    → parent.amount ≡ pos whole
    → r1.amount ≡ pos m
    → r2.amount ≡ pos n
    → 0 < whole
    → m + n ≤ whole
    → charged * whole < 2 ^ 63
    → ((gateway_refund_amount r1 parent).0 +ℤ (gateway_refund_amount r2 parent).0 ≤ℤ pos charged)
      × (m ≡ whole → (gateway_refund_amount r1 parent).0 ≡ pos charged)
shares_within_charge r1 r2 parent charged m n whole eg ew e1 e2 p h fits =
    let s1 =
      share-pos r1 parent charged m whole eg e1 ew
        (share_fits charged m whole (omega arith) fits) in
    let s2 =
      share-pos r2 parent charged n whole eg e2 ew
        (share_fits charged n whole (omega arith) fits) in
    (
      rw s1 (rw s2 (pos_sum_le _ _ charged (shares_le charged m n whole p h))),
      λ same. s1 ∙ rw same (ap pos (mul-div_left charged p)),
    )
