-- ===== src/App/Idempotency/Once.antt =====
-- Requests with one key, one after the other (internal/app/idempotency/idempotency.go).
use payment_service.Prelude.{
  ℕ, ◌+◌, Option, is_some, List, [], ◌∷◌, String, Result, ok, err, if◌then◌else◌,
}
use payment_service.Ports.Responses.{Response, Verdict, created}
use payment_service.Postgres.{Action, World, Error}
use payment_service.Postgres.Keys.{find_key}
use payment_service.App.Idempotency.{Answer, execute}

pub record Request (A : Type 0) : Type 0 where
  pub request_hash : String
  pub op : Action (Response × A)

abbrev ran_of : Verdict → ℕ
ran_of created = 1
ran_of _ = 0

abbrev pub ran_now : {A : Type 0} → Result Error (Answer × Option A) → ℕ
ran_now (err e) = 0
ran_now (ok a) = ran_of a.0.verdict

-- How many of these requests ran their operation and committed it.
unfoldable pub executions : {A : Type 0} → String → List (Request A) → World → ℕ
executions c [] w = 0
executions c (q ∷ qs) w =
    let (r, w') = execute c q.request_hash q.op w in ran_now r + executions c qs w'

-- How many executions a key has left.
abbrev left : String → World → ℕ
left c w = if is_some (find_key c w.db.keys) then 0 else 1
