-- ===== src/Domain/Gateway.antt =====
-- internal/domain/gateway/gateway.go: the circuit breaker. Times are nanoseconds since 1970, 0 for
-- the zero time; the count of failures only grows from 0 and is a natural number. The discrepancy
-- rates are floats and are not modelled.
pub mod Cooldown
pub mod Lifecycle
use payment_service.Prelude.{
  ℕ, suc, ◌+◌, ◌*◌, ◌-◌, ◌^◌, Bool, true, false, not, ◌&&◌, ◌||◌, Option, none, some, List, [], ◌∷◌,
  contains, ◌==◌, ltb, if◌then◌else◌, String, Result, ok, err,
}
use payment_service.Prelude.Int.{ℤ, pos, negsuc, leb_ℤ, ltb_ℤ, pos_part}

pub data CircuitState : Type 0 where
  closed open_state half_open : CircuitState

abbrev pub state_code : CircuitState → ℕ
state_code closed = 0
state_code open_state = 1
state_code half_open = 2

abbrev pub state_eq : CircuitState → CircuitState → Bool
state_eq a b = state_code a == state_code b

pub record CircuitBreaker : Type 0 where
  pub gateway_id : String
  pub state : CircuitState
  pub cooldown_until : ℕ
  pub consecutive_failures : ℕ
  pub last_known_reliability_score : ℤ

unfoldable pub transition_table : CircuitState → Option (List CircuitState)
transition_table closed = some (open_state ∷ [])
transition_table open_state = some (half_open ∷ [])
transition_table half_open = some (closed ∷ open_state ∷ [])

pub data BreakerError : Type 0 where
  invalid_transition : CircuitState → CircuitState → BreakerError
  unreachable : BreakerError

unfoldable pub is_routable : CircuitBreaker → Bool
is_routable cb = state_eq cb.state closed || state_eq cb.state half_open

unfoldable pub should_transition_to_half_open : CircuitBreaker → ℕ → Bool
should_transition_to_half_open cb now = state_eq cb.state open_state && ltb cb.cooldown_until now

abbrev pub second : ℕ
second = 1000000000

-- The failures, brought into 1..4.
abbrev pub clamp_failures : ℤ → ℕ
clamp_failures n =
    let m = if leb_ℤ n (pos 0) then pos 1 else n in pos_part (if ltb_ℤ (pos 4) m then pos 4 else m)

unfoldable pub cooldown_duration : ℤ → ℕ
cooldown_duration n =
    let d = 60 * second * 2 ^ (clamp_failures n - 1) in
    if ltb (240 * second) d then 240 * second else d

-- The switch over the two states.
unfoldable pub apply_transition : CircuitState → CircuitState → CircuitBreaker → ℕ → CircuitBreaker
unfolding cooldown_duration
apply_transition closed open_state cb now = record cb {
  consecutive_failures = suc cb.consecutive_failures;
  cooldown_until = now + cooldown_duration (pos (suc cb.consecutive_failures));
}
apply_transition open_state half_open cb now = record cb { cooldown_until = 0 }
apply_transition half_open closed cb now = record cb {
  consecutive_failures = 0;
  cooldown_until = 0;
}
apply_transition half_open open_state cb now = record cb {
  consecutive_failures = suc cb.consecutive_failures;
  cooldown_until = now + cooldown_duration (pos (suc cb.consecutive_failures));
}
apply_transition _ _ cb now = cb

unfoldable pub transition : CircuitBreaker → CircuitState → ℕ → Result BreakerError CircuitBreaker
unfolding transition_table apply_transition
transition cb to now = elim (transition_table cb.state) [
  | none ↦ err (invalid_transition cb.state to)
  | some allowed ↦
      if not (contains state_eq allowed to)
      then err (invalid_transition cb.state to)
      else ok (apply_transition cb.state to (record cb { state = to }) now)
]
