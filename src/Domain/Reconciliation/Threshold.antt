-- ===== src/Domain/Reconciliation/Threshold.antt =====
-- The two thresholds of an automatic resolution
-- (internal/domain/reconciliation/reconciliation.go).
use payment_service.Prelude.{ℕ, ◌+◌, ◌*◌, ◌-◌, ◌/◌, ◌%◌, ◌^◌, ◌≤◌, ◌<◌, ◌≡◌, ap, ◌↔◌, none, arith}
use payment_service.Prelude.Int.{pos, sub64}
use payment_service.Prelude.Int.Exact.{add64-pos, mul64-pos, div64-pos, rem64-pos}
use payment_service.Domain.Reconciliation.{
  Entry, AutoResolutionConfig, mismatch_amount, discrepancy, allowed_discrepancy,
  eligible_for_auto_resolution,
}

-- Splitting off the multiples of 10000 first gives the same quotient.
quotient_split : (s t : ℕ) → s / 10000 * t + s % 10000 * t / 10000 ≡ s * t / 10000
quotient_split s t =
    let e : s ≡ 10000 * (s / 10000) + s % 10000 = omega arith in
    omega (arith, ap (λ (x : ℕ). x * t) e)

module _ (s t : ℕ) (settled : s < 2 ^ 63) (percent : t ≤ 10000) where
  product-le : (n : ℕ) → n * t ≤ n * 10000
  product-le n = grind arith

  rest-lt : s % 10000 * t < 2 ^ 63
  rest-lt = omega (arith, product-le (s % 10000))

  sum-lt : s / 10000 * t + s % 10000 * t / 10000 < 2 ^ 63
  sum-lt = omega (arith, product-le (s / 10000), product-le (s % 10000))

  allowed_discrepancy_exact : allowed_discrepancy (pos s) (pos t) ≡ pos (s * t / 10000)
  unfolding allowed_discrepancy
  allowed_discrepancy_exact =
      rw
        (
          div64-pos s 10000 settled,
          rem64-pos s 10000,
          mul64-pos (s / 10000) t (omega (arith, product-le (s / 10000))),
          mul64-pos (s % 10000) t rest-lt,
          div64-pos (s % 10000 * t) 10000 rest-lt,
          add64-pos (s / 10000 * t) (s % 10000 * t / 10000) sum-lt,
        )
        (ap pos (quotient_split s t))

-- The distance of two amounts.
abbrev pub distance : ℕ → ℕ → ℕ
distance a b = (a - b) + (b - a)

discrepancy_exact :
    (e : Entry) (s i : ℕ)
    → e.gateway_amount ≡ pos s
    → e.internal_amount ≡ pos i
    → s < 2 ^ 63
    → i < 2 ^ 63
    → discrepancy e ≡ pos (distance s i)
unfolding discrepancy sub64
discrepancy_exact e s i es ei hs hi = ground arith

-- For amounts of zero or more and a threshold of at most 10000 basis points, an entry is resolved
-- automatically exactly when it is an amount mismatch, the gateway amount is not zero, the
-- difference of the amounts is at most that share of the gateway amount, and at most the cap.
pub eligible_iff :
    (e : Entry) (cfg : AutoResolutionConfig) (s i t cap_paise : ℕ)
    → e.gateway_amount ≡ pos s
    → e.internal_amount ≡ pos i
    → cfg.threshold_bps ≡ pos t
    → cfg.absolute_cap_paise ≡ pos cap_paise
    → s < 2 ^ 63
    → i < 2 ^ 63
    → t ≤ 10000
    → (eligible_for_auto_resolution e cfg ≡ none) ↔ (
        (e.mismatch_type ≡ mismatch_amount)
        × (0 < s)
        × (distance s i * 10000 ≤ s * t)
        × (distance s i ≤ cap_paise))
unfolding eligible_for_auto_resolution
eligible_iff e cfg s i t cap_paise es ei et ec hs hi ht = (
  λ h. ground (arith, discrepancy_exact e s i es ei hs hi, allowed_discrepancy_exact s t hs ht),
  λ h. ground (arith, discrepancy_exact e s i es ei hs hi, allowed_discrepancy_exact s t hs ht),
)
