-- ===== src/App/Idempotency/Replays.antt =====
-- A request that is repeated (internal/app/idempotency/idempotency.go).
use payment_service.Prelude.{
  false, ◌≡◌, refl, ap, ◌∙◌, inl, inr, Option, none, some, String, str_eq, Bool-cases, ok,
  if◌then◌else◌,
}
use payment_service.Ports.Responses.{Response, created, replayed, key_reused}
use payment_service.Postgres.{Action, World, Db, Key, completed, gets, db_call}
use payment_service.Postgres.Keys.{find_key, reserve, lookup, claim_key}
use payment_service.Postgres.Steps.{Ends-ok}
use payment_service.Postgres.Clear.{Clear}
use payment_service.Postgres.Quiet.{db_call_quiet, bind_quiet, Clear-inside, within_tx_quiet}
use payment_service.App.Idempotency.{Answer, no_response, verdict_of, attempt, execute}
use payment_service.App.Idempotency.Verdicts.{
  KeepsKey, Answered, Explained, ran, known, clashing, running, execute-Explained,
}

reserve_taken :
    (c h : String) (k : Key) (w : World)
    → Clear w
    → find_key c w.db.keys ≡ some k
    → reserve c h w ≡ (ok false, w)
unfolding reserve
reserve_taken c h k w clear e =
    bind_quiet db_call _ tt (db_call_quiet w clear)
    ∙ bind_quiet (gets (λ w. find_key c w.db.keys)) _ (find_key c w.db.keys) refl
    ∙ ap (λ o. claim_key o c h w) e

lookup_known :
    (c : String) (k : Key) (w : World)
    → Clear w
    → find_key c w.db.keys ≡ some k
    → lookup c w ≡ (ok (some k), w)
unfolding lookup
lookup_known c k w clear e = bind_quiet db_call _ tt (db_call_quiet w clear) ∙ ap (λ o. (ok o, w)) e

-- A key that has a row: the operation does not run, and the world stays as it is.
pub execute_known :
    {A : Type 0} (c h : String) (op : Action (Response × A)) (k : Key) (w : World)
    → Clear w
    → find_key c w.db.keys ≡ some k
    → execute c h op w ≡ (ok (verdict_of h (some k), none), w)
unfolding execute attempt
execute_known c h op k w clear e = within_tx_quiet _ _ w clear (
    bind_quiet (reserve c h) _ false (reserve_taken c h k _ (Clear-inside clear) e)
    ∙ bind_quiet (lookup c) _ (some k) (lookup_known c k _ (Clear-inside clear) e))

-- The answer to a request whose key holds the request `h` with the response `r`.
abbrev pub answer_again : String → Response → String → Answer
answer_again h r h' =
    if str_eq h h' then record { verdict = replayed; response = r } else no_response key_reused

verdict_of-completed :
    (h h' : String) (r : Response) (k : Key)
    → (k.request_hash ≡ h) × (k.status ≡ completed) × (k.response ≡ r)
    → verdict_of h' (some k) ≡ answer_again h r h'
unfolding verdict_of
verdict_of-completed h h' r k (eh, es, er) = elim (Bool-cases (str_eq h h')) [
  | inl same ↦ rw eh (rw same (rw es (rw er refl)))
  | inr other ↦ rw eh (rw other refl)
]

created-Answered :
    {c h : String} {before after : Db} {a : Answer}
    → Explained c h before after a
    → a.verdict ≡ created
    → Answered c h a.response after
created-Answered (ran r e answered) v = answered
created-Answered (known k _ _ _ _) v = absurd (cc)
created-Answered (clashing k _ _ _) v = absurd (cc)
created-Answered (running k _ _ _ _) v = absurd (cc)

-- A request that was executed once is not executed again: as long as its key holds the row that the
-- first execution left, and nothing fails, a repetition of the same request returns the first
-- response and a different request with the key is told so; either way the second operation, whatever
-- it is, does not run, and the world stays as it is. Conditions: the first execution was answered
-- with `created`, and its operation left the row of the key alone.
pub execute_twice :
    {A : Type 0} (c h h' : String) (op again : Action (Response × A)) (w : World)
    {a : Answer × Option A} {w1 : World} (w2 : World)
    → KeepsKey c op
    → execute c h op w ≡ (ok a, w1)
    → a.0.verdict ≡ created
    → find_key c w2.db.keys ≡ find_key c w1.db.keys
    → Clear w2
    → execute c h' again w2 ≡ (ok (answer_again h a.0.response h', none), w2)
execute_twice c h h' op again w w2 keeps first v same clear =
    let (k, found, eh, es, er) =
      created-Answered (Ends-ok (execute-Explained c h op w keeps) first).tables v in
    execute_known c h' again k w2 clear (same ∙ found)
    ∙ ap (λ x. (ok (x, none), w2)) (verdict_of-completed h h' _ k (eh, es, er))
