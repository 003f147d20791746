-- ===== src/Valkey/Breaker/Agreement.antt =====
-- The stored breaker against the breaker of the domain.
use payment_service.Prelude.{
  ℕ, zero, suc, ◌+◌, ◌-◌, ◌*◌, ◌/◌, ◌^◌, ◌≤◌, ◌≡◌, refl, ap, ◌∙◌, ltb, if◌then◌else◌, Bool, true,
  false, Bool-cases, inl, inr, Option, none, some, String, Result, ok, err, arith,
}
use payment_service.Prelude.Int.{ℤ, pos, leb_ℤ}
use native.Mathlib.Nat.{one-le-pow}
use payment_service.Domain.Gateway.{
  CircuitState, closed, open_state, half_open, CircuitBreaker, BreakerError, invalid_transition,
  cooldown_duration, second,
}
use payment_service.Domain.Gateway
use payment_service.Domain.Gateway.Lifecycle.{after}
use payment_service.Domain.Gateway.Cooldown.{cooldown_seconds, cooldown_duration-pos}
use payment_service.Valkey.Breaker.{
  StoreError, refused, Cell, or_zero, breaker_of, transition, opened_seconds, score_or_zero,
  record_failure,
}

-- The cooldown as the store keeps it.
abbrev pub whole_seconds : CircuitBreaker → CircuitBreaker
whole_seconds cb = record cb { cooldown_until = cb.cooldown_until / second * second }

-- What the domain answers, and what the store answers and keeps.
pub data Agrees (id : String) (cell : Cell)
    : Result BreakerError CircuitBreaker → Result StoreError CircuitBreaker × Cell → Type 0 where
  both_move :
      (cb : CircuitBreaker) (cell' : Cell)
      → breaker_of id cell' ≡ whole_seconds cb
      → Agrees id cell (ok cb) (ok (whole_seconds cb), cell')
  both_refuse :
      (a b : CircuitState) → Agrees id cell (err (invalid_transition a b)) (err (refused a b), cell)

power_step : (n : ℕ) → 2 ^ suc (suc n) ≡ 4 * 2 ^ n
power_step n = omega (arith, pow_suc n, pow_suc (suc n))
  where
    pow_suc : (k : ℕ) → 2 ^ suc k ≡ 2 * 2 ^ k
    pow_suc k = omega arith

capped_lem : (p : ℕ) → 1 ≤ p → (if ltb 240 (60 * (4 * p)) then 240 else 60 * (4 * p)) ≡ 240
capped_lem p h = ground arith

opened_seconds_lem : (n : ℕ) → opened_seconds (suc n) ≡ cooldown_seconds (suc n)
unfolding opened_seconds
opened_seconds_lem zero = refl
opened_seconds_lem (suc zero) = refl
opened_seconds_lem (suc (suc n)) =
    ap (λ k. if ltb 240 (60 * 2 ^ k) then 240 else 60 * 2 ^ k) (less_one n)
    ∙ ap (λ p. if ltb 240 (60 * p) then 240 else 60 * p) (power_step n)
    ∙ capped_lem (2 ^ n) (one-le-pow n 2 (omega arith))
  where
    less_one : (n : ℕ) → suc (suc (suc n)) - 1 ≡ suc (suc n)
    less_one n = omega arith

abbrev cell_of : CircuitState → Option ℕ → Option ℕ → Option ℤ → Cell
cell_of s c f score =
    some
      (record { state = s; cooldown_until = c; consecutive_failures = f; last_known_score = score })

transition_at-Agrees :
    (id : String) (s to : CircuitState) (c f : Option ℕ) (score : Option ℤ) (now : ℕ)
    → let cell = cell_of s c f score in
      Agrees id cell
        (Gateway.transition (breaker_of id cell) to now)
        (transition true (breaker_of id cell) to now cell)
unfolding transition breaker_of Gateway.transition
transition_at-Agrees id closed closed c f score now = both_refuse closed closed
transition_at-Agrees id closed open_state c f score now = both_move _ _ refl
transition_at-Agrees id closed half_open c f score now = both_refuse closed half_open
transition_at-Agrees id open_state closed c f score now = both_refuse open_state closed
transition_at-Agrees id open_state open_state c f score now = both_refuse open_state open_state
transition_at-Agrees id open_state half_open c f score now = both_move _ _ refl
transition_at-Agrees id half_open closed c f score now = both_move _ _ refl
transition_at-Agrees id half_open open_state c f score now = both_move _ _ refl
transition_at-Agrees id half_open half_open c f score now = both_refuse half_open half_open

-- Where Valkey answers, and for the breaker that was read from the cell, the store's `Transition`
-- succeeds exactly when the domain's does, refuses with the same two states and then keeps the cell, and otherwise returns
-- the domain's breaker with its cooldown cut to whole seconds, which is what `Get` then reads.
pub transition-Agrees :
    (id : String) (cell : Cell) (to : CircuitState) (now : ℕ)
    → Agrees id cell
        (Gateway.transition (breaker_of id cell) to now)
        (transition true (breaker_of id cell) to now cell)
unfolding transition breaker_of Gateway.transition
transition-Agrees id none closed now = both_refuse closed closed
transition-Agrees id none open_state now = both_move _ _ refl
transition-Agrees id none half_open now = both_refuse closed half_open
transition-Agrees id (some r) to now =
    transition_at-Agrees id r.state to r.cooldown_until r.consecutive_failures r.last_known_score
      now

same_end :
    (now n : ℕ)
    → now / second + opened_seconds (suc n) ≡ (now + cooldown_duration (pos (suc n))) / second
same_end now n = omega (arith, opened_seconds_lem n, cooldown_duration-pos (suc n))

abbrev pub after_failure : CircuitBreaker → ℕ → Bool → CircuitBreaker
after_failure cb now true = whole_seconds (after cb (Gateway.transition cb open_state now))
after_failure cb now false = record cb { consecutive_failures = suc cb.consecutive_failures }

-- Whether one more failure opens the breaker.
abbrev pub reaches : CircuitState → ℕ → ℤ → Bool
reaches closed fails threshold = leb_ℤ threshold (pos fails)
reaches open_state fails threshold = false
reaches half_open fails threshold = true

abbrev pub Counted : String → Cell → ℤ → ℕ → Type 0
Counted id cell threshold now =
    let cb = breaker_of id cell in
    let opened = reaches cb.state (suc cb.consecutive_failures) threshold in
    let r = record_failure true threshold now cell in
    (r.0 ≡ ok (opened, suc cb.consecutive_failures))
    × (breaker_of id r.1 ≡ after_failure cb now opened)

unfoldable opened_at : String → ℕ → Option ℤ → ℕ → CircuitBreaker
opened_at id fails score epoch = record {
  gateway_id = id;
  state = open_state;
  cooldown_until = epoch * second;
  consecutive_failures = fails;
  last_known_reliability_score = score_or_zero score;
}

opens_at-Counted :
    (id : String) (s : CircuitState) (c f : Option ℕ) (score : Option ℤ) (threshold : ℤ) (now : ℕ)
    → Counted id (cell_of s c f score) threshold now
unfolding record_failure breaker_of Gateway.transition opened_at
opens_at-Counted id open_state c f score threshold now = (refl, refl)
opens_at-Counted id half_open c f score threshold now =
    (refl, ap (opened_at id (suc (or_zero f)) score) (same_end now (or_zero f)))
opens_at-Counted id closed c f score threshold now =
    elim (Bool-cases (leb_ℤ threshold (pos (suc (or_zero f))))) [
      | inl e ↦ rw e (refl, ap (opened_at id (suc (or_zero f)) score) (same_end now (or_zero f)))
      | inr e ↦ rw e (refl, refl)
    ]

-- Where Valkey answers, `RecordFailure` reports one failure more, and reports the breaker opened
-- exactly when it was half open, or closed with the failures at the threshold or above; `Get` then reads what the domain's
-- transition to OPEN gives, its cooldown cut to whole seconds. Otherwise only the count changes.
pub record_failure_opens :
    (id : String) (cell : Cell) (threshold : ℤ) (now : ℕ) → Counted id cell threshold now
unfolding record_failure breaker_of
record_failure_opens id none threshold now = opens_at-Counted id closed none none none threshold now
record_failure_opens id (some r) threshold now =
    opens_at-Counted id r.state r.cooldown_until r.consecutive_failures r.last_known_score threshold
      now
