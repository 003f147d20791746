-- ===== src/Valkey/Breaker.antt =====
-- The stored circuit breaker of one gateway (internal/adapters/valkey/circuit_breaker.go) and the
-- scripts that Valkey runs on it (scripts.go). A cell is the value of the key `gateway:cb:<id>`,
-- `none` when the key is absent; a field is `none` when no script has written it. The scripts'
-- numbers are exact. `up` is false when the call to Valkey fails, and then the cell is as before.
-- The keys of the probe and of the critical events are not modelled.
pub mod Agreement
use payment_service.Prelude.{
  ℕ, suc, ◌+◌, ◌*◌, ◌/◌, ◌-◌, ◌^◌, Bool, true, false, ◌&&◌, ◌||◌, Option, none, some, ltb, ◌==◌,
  if◌then◌else◌, String, Result, ok, err,
}
use payment_service.Prelude.Int.{ℤ, pos, leb_ℤ}
use payment_service.Domain.Gateway.{
  CircuitState, closed, open_state, half_open, state_eq, CircuitBreaker, cooldown_duration, second,
}

pub data StoreError : Type 0 where
  refused : CircuitState → CircuitState → StoreError
  unavailable : StoreError

pub record CbRecord : Type 0 where
  pub state : CircuitState
  pub cooldown_until : Option ℕ
  pub consecutive_failures : Option ℕ
  pub last_known_score : Option ℤ

abbrev pub Cell : Type 0
Cell = Option CbRecord

-- `raw and cjson.decode(raw) or {}`, with `cb.state or 'CLOSED'`.
abbrev pub loaded : Cell → CbRecord
loaded none = record {
  state = closed;
  cooldown_until = none;
  consecutive_failures = none;
  last_known_score = none;
}
loaded (some r) = r

abbrev pub or_zero : Option ℕ → ℕ
or_zero none = 0
or_zero (some n) = n

abbrev pub score_or_zero : Option ℤ → ℤ
score_or_zero none = pos 0
score_or_zero (some z) = z

-- The test of `cbTransitionLua`.
unfoldable pub is_edge : CircuitState → CircuitState → Bool
is_edge from to =
    (state_eq from closed && state_eq to open_state)
    || (state_eq from open_state && state_eq to half_open)
    || (state_eq from half_open && (state_eq to closed || state_eq to open_state))

unfoldable pub cb_transition : CircuitState → ℕ → ℕ → Cell → Bool × Cell
unfolding is_edge
cb_transition to cooldown fails cell =
    let cb = loaded cell in
    if is_edge cb.state to
    then (
      true,
      some (record cb {
        state = to;
        cooldown_until = some cooldown;
        consecutive_failures = some fails;
      }),
    )
    else (false, cell)

-- The seconds for which `cbRecordFailureLua` opens the breaker.
unfoldable pub opened_seconds : ℕ → ℕ
opened_seconds fails = let secs = 60 * 2 ^ (fails - 1) in if ltb 240 secs then 240 else secs

abbrev pub opens : CircuitState → ℕ → ℤ → Bool
opens state fails threshold =
    state_eq state half_open || (state_eq state closed && leb_ℤ threshold (pos fails))

unfoldable pub cb_record_failure : ℤ → ℕ → Cell → (Bool × ℕ) × Cell
unfolding opened_seconds
cb_record_failure threshold now_epoch cell =
    let cb = loaded cell in
    let fails = suc (or_zero cb.consecutive_failures) in
    if opens cb.state fails threshold
    then (
      (true, fails),
      some (record cb {
        state = open_state;
        cooldown_until = some (now_epoch + opened_seconds fails);
        consecutive_failures = some fails;
      }),
    )
    else ((false, fails), some (record cb { consecutive_failures = some fails }))

unfoldable pub cb_record_success : Cell → Cell
cb_record_success cell =
    let cb = loaded cell in
    some (record cb {
      state = if state_eq cb.state half_open then closed else cb.state;
      cooldown_until = some 0;
      consecutive_failures = some 0;
    })

unfoldable pub cb_set_score : ℤ → Cell → Cell
cb_set_score score cell = some (record (loaded cell) { last_known_score = some score })

-- The breaker that `Get` builds from a value it has read.
unfoldable pub breaker_of : String → Cell → CircuitBreaker
breaker_of id cell =
    let r = loaded cell in
    record {
      gateway_id = id;
      state = r.state;
      cooldown_until = or_zero r.cooldown_until * second;
      consecutive_failures = or_zero r.consecutive_failures;
      last_known_reliability_score = score_or_zero r.last_known_score;
    }

unfoldable pub get : Bool → String → Cell → Result StoreError CircuitBreaker
get up id cell = if up then ok (breaker_of id cell) else err unavailable

-- The failures and the end of the cooldown that `Transition` sends to the script.
abbrev pub new_fails : CircuitState → CircuitBreaker → ℕ
new_fails to cb =
    if state_eq to open_state
    then suc cb.consecutive_failures
    else if state_eq to closed
    then 0
    else cb.consecutive_failures

unfoldable pub cooldown_epoch : CircuitState → ℕ → ℕ → ℕ
unfolding cooldown_duration
cooldown_epoch to fails now =
    if state_eq to open_state then (now + cooldown_duration (pos fails)) / second else 0

-- The breaker, as the caller passed it, after the script has said whether it moved.
abbrev pub moved : CircuitBreaker → CircuitState → ℕ → ℕ → Bool → Result StoreError CircuitBreaker
moved cb to fails epoch false = err (refused cb.state to)
moved cb to fails epoch true =
    ok (record cb { state = to; consecutive_failures = fails; cooldown_until = epoch * second })

unfoldable pub transition :
    Bool → CircuitBreaker → CircuitState → ℕ → Cell → Result StoreError CircuitBreaker × Cell
unfolding cb_transition cooldown_epoch
transition up cb to now cell =
    if up
    then (let fails = new_fails to cb in
        let epoch = cooldown_epoch to fails now in
        let r = cb_transition to epoch fails cell in (moved cb to fails epoch r.0, r.1))
    else (err unavailable, cell)

unfoldable pub record_failure : Bool → ℤ → ℕ → Cell → Result StoreError (Bool × ℕ) × Cell
unfolding cb_record_failure
record_failure up threshold now cell =
    if up
    then (let r = cb_record_failure threshold (now / second) cell in (ok r.0, r.1))
    else (err unavailable, cell)

unfoldable pub record_success : Bool → Cell → Result StoreError Bool × Cell
record_success up cell = if up then (ok true, cb_record_success cell) else (err unavailable, cell)

unfoldable pub set_last_known_score : Bool → ℤ → Cell → Result StoreError Bool × Cell
set_last_known_score up score cell =
    if up then (ok true, cb_set_score score cell) else (err unavailable, cell)
