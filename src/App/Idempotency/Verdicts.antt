-- ===== src/App/Idempotency/Verdicts.antt =====
-- What each verdict of the guard means (internal/app/idempotency/idempotency.go).
use payment_service.Prelude.{
  Bool, true, false, ◌≡◌, ◌≢◌, ◌⊎◌, refl, ap, ◌∙◌, inl, inr, none, some, String, str_eq, str_eq_iff,
  Bool-cases,
}
use payment_service.Ports.Responses.{Response, created, replayed, in_progress, key_reused}
use payment_service.Postgres.{Action, World, Db, Key, KeyStatus, reserved, completed}
use payment_service.Postgres.Keys.{find_key, reserved_key, is_reserved}
use payment_service.Postgres.Keys.Rows.{
  find_key_complete, find_key-reserved, completed_key, Claimed, fresh, taken, reserve-Ends,
  lookup-Ends, complete-Ends,
}
use payment_service.Postgres.Steps.{Ends, done, bind}
use payment_service.Postgres.Kept.{Holds, Anywhere, Leaves, within_tx-Leaves}
use payment_service.App.Idempotency.{
  Answer, no_response, verdict_of, claimed_or_known, attempt, execute,
}

-- An operation that leaves the row of its key alone: one that does not use the guard's tables.
abbrev pub KeepsKey : {A : Type 0} → String → Action (Response × A) → Type 0
KeepsKey c op =
    (w : World)
    → Ends (λ _. Leaves (λ _ d'. find_key c d'.keys ≡ find_key c w.db.keys) tt) Anywhere (op w)

-- The row that an executed request leaves.
abbrev pub Answered : String → String → Response → Db → Type 0
Answered c h r d =
    (k : Key) × (find_key c d.keys ≡ some k)
    × (k.request_hash ≡ h)
    × (k.status ≡ completed)
    × (k.response ≡ r)

-- What an answer says of the tables before and after.
pub data Explained (c h : String) (before after : Db) : Answer → Type 0 where
  ran :
      (r : Response)
      → find_key c before.keys ≡ none
      → Answered c h r after
      → Explained c h before after (record { verdict = created; response = r })
  known :
      (k : Key)
      → find_key c before.keys ≡ some k
      → k.request_hash ≡ h
      → k.status ≡ completed
      → after ≡ before
      → Explained c h before after (record { verdict = replayed; response = k.response })
  clashing :
      (k : Key)
      → find_key c before.keys ≡ some k
      → k.request_hash ≢ h
      → after ≡ before
      → Explained c h before after (no_response key_reused)
  running :
      (k : Key)
      → find_key c before.keys ≡ some k
      → k.request_hash ≡ h
      → k.status ≡ reserved
      → after ≡ before
      → Explained c h before after (no_response in_progress)

is_reserved-cases :
    (s : KeyStatus)
    → ((s ≡ reserved) × (is_reserved s ≡ true)) ⊎ ((s ≡ completed) × (is_reserved s ≡ false))
is_reserved-cases reserved = inl (refl, refl)
is_reserved-cases completed = inr (refl, refl)

verdict_of-Explained :
    (c h : String) (d : Db) (k : Key)
    → find_key c d.keys ≡ some k
    → Explained c h d d (verdict_of h (some k))
unfolding verdict_of
verdict_of-Explained c h d k e = elim (Bool-cases (str_eq k.request_hash h)) [
  | inl same ↦ elim (is_reserved-cases k.status) [
    | inl (s, b) ↦ rw same (rw b (running k e ((str_eq_iff _ _).0 same) s refl))
    | inr (s, b) ↦ rw same (rw b (known k e ((str_eq_iff _ _).0 same) s refl))
  ]
  | inr other ↦
      rw other (clashing k e (λ eq. absurd (cc (other, (str_eq_iff k.request_hash h).1 eq))) refl)
]

-- The body of `Execute`, by what it found.
claimed_or_known-Leaves :
    {A : Type 0} {c h : String} {d : Db} {b : Bool} {w : World} (op : Action (Response × A))
    → KeepsKey c op
    → Claimed c h d b w
    → Ends (Leaves (λ a d'. Explained c h d d' a.0)) Anywhere (claimed_or_known b c h op w)
claimed_or_known-Leaves {c} {h} {d} op keeps (taken k e held) =
    bind _ _ _ (lookup-Ends held c) λ o w1 (eo, at1).
      done (record { tables = rw at1.same_db (rw eo (rw e (verdict_of-Explained c h d k e))) })
claimed_or_known-Leaves {c} {h} {d} {w} op keeps (fresh now e held) =
    bind _ _ _ (keeps w) λ r w1 kept.
      bind _ _ _ (complete-Ends {d = w1.db} (record { same_db = refl }) c r.0) λ _ w2 at2.
        let row : find_key c w1.db.keys ≡ some (reserved_key c h now) =
          kept.tables
          ∙ ap (λ d. find_key c d.keys) held.same_db
          ∙ find_key-reserved c h now d.keys in
        let answered : find_key c w2.db.keys ≡ some (completed_key (reserved_key c h now) r.0) =
          ap (λ d. find_key c d.keys) at2.same_db ∙ find_key_complete c r.0 w1.db.keys row in
        done (record {
          tables = ran r.0 e (completed_key (reserved_key c h now) r.0, answered, refl, refl, refl);
        })

-- Whatever fails on the way, an execution of a request either leaves the tables as they were and
-- returns an error, or its verdict tells the truth: `created` means that the key had no row and now
-- holds this request and its response, `replayed` that the key held the same request with the
-- response that is returned, `key_reused` that it held another request, `in_progress` that the same
-- request is not completed, and in these three cases the tables have not changed. Condition: the
-- operation itself leaves the row of the key alone.
pub execute-Explained :
    {A : Type 0} (c h : String) (op : Action (Response × A)) (w : World)
    → KeepsKey c op
    → Ends (Leaves (λ a d'. Explained c h w.db d' a.0)) (Holds w.db) (execute c h op w)
unfolding execute attempt
execute-Explained c h op w keeps =
    within_tx-Leaves _ _ _
      λ w1 at1. bind _ _ _ (reserve-Ends at1 c h) λ b w2 cl. claimed_or_known-Leaves op keeps cl
