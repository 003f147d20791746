-- ===== src/Domain/Gateway/Lifecycle.antt =====
-- What the breaker's state machine guarantees (internal/domain/gateway/gateway.go).
use payment_service.Prelude.{
  ℕ, suc, ◌+◌, ◌*◌, ◌<◌, ◌≡◌, ◌⊎◌, true, false, List, [], ◌∷◌, Result, ok, err, arith,
}
use payment_service.Prelude.Int.{pos}
use payment_service.Domain.Gateway.{
  CircuitState, closed, open_state, half_open, CircuitBreaker, BreakerError, transition,
  is_routable, should_transition_to_half_open, second,
}
use payment_service.Domain.Gateway.Cooldown.{cooldown_duration_bounds}

abbrev pub after : CircuitBreaker → Result BreakerError CircuitBreaker → CircuitBreaker
after cb (ok cb') = cb'
after cb (err _) = cb

unfoldable pub run : CircuitBreaker → List (CircuitState × ℕ) → CircuitBreaker
run cb [] = cb
run cb ((to, now) ∷ qs) = run (after cb (transition cb to now)) qs

-- A closed breaker counts no failure; only an open one waits for a cooldown.
pub record IsConsistent (cb : CircuitBreaker) : Type 0 where
  pub closed_clean : cb.state ≡ closed → cb.consecutive_failures ≡ 0
  pub opened_failed : cb.state ≡ open_state → 0 < cb.consecutive_failures
  pub waits_open : cb.cooldown_until ≡ 0 ⊎ (cb.state ≡ open_state)

step-IsConsistent :
    (cb : CircuitBreaker) (to : CircuitState) (now : ℕ)
    → IsConsistent cb
    → IsConsistent (after cb (transition cb to now))
unfolding transition
step-IsConsistent cb to now h = ground arith

-- Over every sequence of transition requests a closed breaker has no failures counted, an open one
-- has some, and only an open one has a cooldown.
run-IsConsistent :
    (cb : CircuitBreaker) (qs : List (CircuitState × ℕ))
    → IsConsistent cb
    → IsConsistent (run cb qs)
unfolding run
run-IsConsistent cb [] h = h
run-IsConsistent cb ((to, now) ∷ qs) h =
    run-IsConsistent (after cb (transition cb to now)) qs (step-IsConsistent cb to now h)

-- A breaker that has just opened is not routable, and is not offered a probe until at least 60
-- seconds later; the state that follows can only be HALF_OPEN.
transition-open_waits :
    (cb cb'' : CircuitBreaker) (now later : ℕ) (to : CircuitState) {cb' : CircuitBreaker}
    → transition cb open_state now ≡ ok cb'
    → (is_routable cb' ≡ false)
      × (should_transition_to_half_open cb' later ≡ true → now + 60 * second < later)
      × (transition cb' to later ≡ ok cb'' → to ≡ half_open)
unfolding transition is_routable should_transition_to_half_open
transition-open_waits cb cb'' now later to h = ground (
  arith,
  cooldown_duration_bounds (pos (suc cb.consecutive_failures)) (pos (suc cb.consecutive_failures)),
)
