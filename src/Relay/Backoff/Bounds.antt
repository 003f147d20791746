-- ===== src/Relay/Backoff/Bounds.antt =====
-- How long an event waits before it is tried again (internal/relay/relay.go).
use payment_service.Prelude.{
  ℕ, ◌+◌, ◌*◌, ◌≤◌, ◌<◌, ◌^◌, ◌/◌, ◌≡◌, refl, ap, ◌∙◌, ltb, arith, if◌then◌else◌,
}
use payment_service.Prelude.Int.{ℤ, pos, negsuc, ◌≤ℤ◌, ◌<ℤ◌, add64, mul64, div64}
use payment_service.Prelude.Int.Exact.{add64-pos, mul64-pos, div64-pos}
use native.Mathlib.Nat.{pow-le-pow_right, one-le-pow, mul-le-mul_left}
use payment_service.Relay.Backoff.{Config, shift, capped, delay, backoff}

-- What the library says of `rand.Int64N`: for a positive argument, a number below it.
abbrev pub IsRandom : (ℤ → ℤ) → Type 0
IsRandom int64n = (n : ℤ) → pos 0 <ℤ n → (pos 0 ≤ℤ int64n n) × (int64n n <ℤ n)

abbrev pub smaller : ℕ → ℕ → ℕ
smaller a b = if ltb b a then b else a

-- The delay without wrap-around: doubled with each attempt up to the thirtieth, at most `m`.
abbrev pub doubled : ℕ → ℕ → ℕ → ℕ
doubled b m attempts = smaller (b * 2 ^ smaller attempts 30) m

shift-smaller : (attempts : ℕ) → shift attempts ≡ smaller attempts 30
shift-smaller attempts = ground arith

power_bounded : (b k : ℕ) → k ≤ 30 → b * 2 ^ k ≤ b * 2 ^ 30
power_bounded b k h = mul-le-mul_left b (pow-le-pow_right (omega arith) h)

power_positive : (k : ℕ) → 0 < 2 ^ k
power_positive k = one-le-pow k 2 (omega arith)

product_positive : (b p : ℕ) → 0 < b → 0 < p → 0 < b * p
product_positive b p hb hp = grind arith

capped-pos :
    (c : Config) (d m : ℕ) → c.max_backoff ≡ pos m → 0 < d → capped c (pos d) ≡ pos (smaller d m)
capped-pos c d m e h = ground arith

delay-doubled :
    (c : Config) (b m attempts : ℕ)
    → c.base_backoff ≡ pos b
    → c.max_backoff ≡ pos m
    → 0 < b
    → b * 2 ^ 30 < 2 ^ 63
    → delay c attempts ≡ pos (doubled b m attempts)
unfolding delay
delay-doubled c b m attempts eb em positive fits =
    let k = smaller attempts 30 in
    let bounded : b * 2 ^ k < 2 ^ 63 = omega (arith, power_bounded b k (ground arith), fits) in
    let some_delay : 0 < b * 2 ^ k = product_positive b (2 ^ k) positive (power_positive k) in
    ap (λ z. capped c (mul64 z (pos (2 ^ k)))) eb
    ∙ ap (capped c) (mul64-pos b (2 ^ k) bounded)
    ∙ capped-pos c (b * 2 ^ k) m em some_delay

natural : (z : ℤ) (n : ℕ) → pos 0 ≤ℤ z → z <ℤ pos n → (r : ℕ) × (z ≡ pos r) × (r < n)
natural (pos r) n low high = (r, refl, omega arith)
natural (negsuc r) n low high = absurd (omega arith)

random_natural :
    (int64n : ℤ → ℤ) (n : ℕ)
    → IsRandom int64n
    → 0 < n
    → (r : ℕ) × (int64n (pos n) ≡ pos r) × (r < n)
random_natural int64n n random h =
    let (low, high) = random (pos n) (omega arith) in natural (int64n (pos n)) n low high

-- An event that fails waits between half of the doubled delay and the whole of it, whatever the
-- random draw, and so never longer than the configured maximum. Conditions: the base and the maximum
-- are positive, the maximum fits an int64, and the base is below 2 ^ 33 nanoseconds (8.5 seconds), so
-- that thirty doublings do not overflow.
pub backoff_bounds :
    (int64n : ℤ → ℤ) (c : Config) (b m attempts : ℕ)
    → IsRandom int64n
    → c.base_backoff ≡ pos b
    → c.max_backoff ≡ pos m
    → 0 < b
    → 0 < m
    → m < 2 ^ 63
    → b * 2 ^ 30 < 2 ^ 63
    → (n : ℕ) × (backoff int64n c attempts ≡ pos n)
      × (doubled b m attempts / 2 ≤ n)
      × (n ≤ doubled b m attempts)
unfolding backoff
backoff_bounds int64n c b m attempts random eb em pb pm mfits bfits =
    let d = doubled b m attempts in
    let small : d ≤ m = ground arith in
    let half : div64 (delay c attempts) (pos 2) ≡ pos (d / 2) =
      ap (λ z. div64 z (pos 2)) (delay-doubled c b m attempts eb em pb bfits)
      ∙ div64-pos d 2 (omega arith) in
    let (r, drawn, below) = random_natural int64n (d / 2 + 1) random (omega arith) in
    (
      d / 2 + r,
      ap (λ h. add64 h (int64n (add64 h (pos 1)))) half
          ∙ ap (λ z. add64 (pos (d / 2)) (int64n z)) (add64-pos (d / 2) 1 (omega arith))
          ∙ ap (add64 (pos (d / 2))) drawn
          ∙ add64-pos (d / 2) r (omega arith),
      omega arith,
      omega arith,
    )
