-- ===== src/Domain/Gateway/Cooldown.antt =====
-- The cooldown of an open breaker (internal/domain/gateway/gateway.go).
use payment_service.Prelude.{ℕ, zero, suc, ◌*◌, ◌≤◌, ◌≡◌, refl, arith}
use payment_service.Prelude.Int.{ℤ, pos, negsuc, ◌≤ℤ◌}
use payment_service.Domain.Gateway.{cooldown_duration, second}

-- The cooldown by its table, in seconds.
abbrev pub cooldown_seconds : ℕ → ℕ
cooldown_seconds zero = 60
cooldown_seconds (suc zero) = 60
cooldown_seconds (suc (suc zero)) = 120
cooldown_seconds (suc (suc (suc _))) = 240

pub cooldown_duration-pos : (n : ℕ) → cooldown_duration (pos n) ≡ cooldown_seconds n * second
unfolding cooldown_duration
cooldown_duration-pos zero = refl
cooldown_duration-pos (suc zero) = refl
cooldown_duration-pos (suc (suc zero)) = refl
cooldown_duration-pos (suc (suc (suc zero))) = refl
cooldown_duration-pos (suc (suc (suc (suc zero)))) = refl
cooldown_duration-pos (suc (suc (suc (suc (suc n))))) = ground arith

cooldown_duration-negsuc : (n : ℕ) → cooldown_duration (negsuc n) ≡ 60 * second
unfolding cooldown_duration
cooldown_duration-negsuc n = ground arith

cooldown_seconds_bounds : (n : ℕ) → (60 ≤ cooldown_seconds n) × (cooldown_seconds n ≤ 240)
cooldown_seconds_bounds zero = omega arith
cooldown_seconds_bounds (suc zero) = omega arith
cooldown_seconds_bounds (suc (suc zero)) = omega arith
cooldown_seconds_bounds (suc (suc (suc _))) = omega arith

cooldown_seconds_mono : (m n : ℕ) → m ≤ n → cooldown_seconds m ≤ cooldown_seconds n
cooldown_seconds_mono m n h = ground arith

-- The cooldown lies between 60 and 240 seconds for every count of failures, negative ones
-- included, and does not fall as the count grows.
pub cooldown_duration_bounds :
    (m n : ℤ)
    → m ≤ℤ n
    → (60 * second ≤ cooldown_duration m)
      × (cooldown_duration m ≤ cooldown_duration n)
      × (cooldown_duration n ≤ 240 * second)
cooldown_duration_bounds (pos m) (pos n) h = omega (
  arith,
  cooldown_duration-pos m,
  cooldown_duration-pos n,
  cooldown_seconds_bounds m,
  cooldown_seconds_bounds n,
  cooldown_seconds_mono m n,
)
cooldown_duration_bounds (negsuc m) (pos n) h =
    omega (arith, cooldown_duration-negsuc m, cooldown_duration-pos n, cooldown_seconds_bounds n)
cooldown_duration_bounds (negsuc m) (negsuc n) h =
    omega (arith, cooldown_duration-negsuc m, cooldown_duration-negsuc n)
cooldown_duration_bounds (pos m) (negsuc n) h = absurd (omega arith)
