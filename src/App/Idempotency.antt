-- ===== src/App/Idempotency.antt =====
-- internal/app/idempotency/idempotency.go: a request is executed within one transaction with the row
-- of its key, so that a repeated request gets the first one's answer.
pub mod Hashes
pub mod Verdicts
pub mod Results
pub mod Replays
pub mod Once
use payment_service.Prelude.{
  Bool, true, false, not, Option, none, some, String, str_eq, List, [], ◌∷◌, if◌then◌else◌,
}
use payment_service.Ports.Responses.{
  Response, nothing, Verdict, created, replayed, in_progress, key_reused,
}
use payment_service.Postgres.{
  Action, Key, KeyStatus, completed, ◌>>=◌, ◌>>◌, pure, raise, key_required, within_tx,
}
use payment_service.Postgres.Keys.{reserve, lookup, complete, is_reserved}

-- `Result`.
pub record Answer : Type 0 where
  pub verdict : Verdict
  pub response : Response

abbrev pub no_response : Verdict → Answer
no_response v = record { verdict = v; response = nothing }

unfoldable pub verdict_of : String → Option Key → Answer
verdict_of h none = no_response in_progress
verdict_of h (some k) =
    if not (str_eq k.request_hash h)
    then no_response key_reused
    else if is_reserved k.status
    then no_response in_progress
    else record { verdict = replayed; response = k.response }

-- The operation gives its response, and what it leaves in the variables of its caller.
abbrev pub claimed_or_known :
    {A : Type 0} → Bool → String → String → Action (Response × A) → Action (Answer × Option A)
claimed_or_known false c h op = do found ← lookup c; pure (verdict_of h found, none)
claimed_or_known true c h op = do
  r ← op
  complete c r.0
  pure (record { verdict = created; response = r.0 }, some r.1)

-- What `Execute` does within its transaction.
unfoldable pub attempt :
    {A : Type 0} → String → String → Action (Response × A) → Action (Answer × Option A)
attempt c h op = do claimed ← reserve c h; claimed_or_known claimed c h op

unfoldable pub execute :
    {A : Type 0} → String → String → Action (Response × A) → Action (Answer × Option A)
execute c h op = within_tx (attempt c h op)

-- Each service asks for a key before it calls `Execute`.
abbrev pub require_key : Bool → Action (Unit {0})
require_key true = raise key_required
require_key false = pure tt
