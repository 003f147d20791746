-- ===== src/App/Idempotency/Results.antt =====
-- What an execution leaves, for an operation of which more is known
-- (internal/app/idempotency/idempotency.go).
use payment_service.Prelude.{
  Bool, ◌≡◌, ◌≢◌, refl, ◌∙◌, inl, inr, Option, none, some, String, str_eq, List, Bool-cases, arith,
}
use payment_service.Ports.Responses.{Response, created}
use payment_service.Postgres.{Action, World, Db, Key}
use payment_service.Postgres.Keys.{is_reserved}
use payment_service.Postgres.Keys.Rows.{
  Claimed, fresh, taken, reserve-Ends, lookup-Ends, complete-Ends,
}
use payment_service.Postgres.Steps.{Ends, done, bind, imply}
use payment_service.Postgres.Kept.{Holds, Anywhere, Leaves, within_tx-Leaves}
use payment_service.App.Idempotency.{Answer, verdict_of, claimed_or_known, attempt, execute}

-- The operation ran and left `P`, or the tables are as they were.
abbrev pub Made : {A : Type 0} → (A → Db → Type 0) → Db → Answer × Option A → Db → Type 0
Made P d (a, none) d' = (a.verdict ≢ created) × (d' ≡ d)
Made P d (a, some x) d' = (a.verdict ≡ created) × P x d'

verdict_of-known : (h : String) (o : Option Key) → (verdict_of h o).verdict ≢ created
unfolding verdict_of
verdict_of-known h none e = cc
verdict_of-known h (some k) e = elim (Bool-cases (str_eq k.request_hash h)) [
  | inl same ↦ elim (Bool-cases (is_reserved k.status)) [
    | inl b ↦ ground arith
    | inr b ↦ ground arith
  ]
  | inr other ↦ ground arith
]

module _ {A : Type 0} (P : A → Db → Type 0) (d : Db) (op : Action (Response × A))
    (stable : (a : A) (d' : Db) (ks : List Key) → P a d' → P a (record d' { keys = ks }))
    (runs : (ks : List Key) (w : World)
      → Holds (record d { keys = ks }) w
      → Ends (λ r. Leaves (λ (r : Response × A) d'. P r.1 d') r) Anywhere (op w)) where
  claimed-Made :
      {c h : String} {b : Bool} {w : World}
      → Claimed c h d b w
      → Ends (Leaves (Made P d)) Anywhere (claimed_or_known b c h op w)
  claimed-Made {c} {h} (taken k e held) =
      bind _ _ _ (lookup-Ends held c)
        λ o w1 (eo, at1). done (record { tables = (verdict_of-known h o, at1.same_db) })
  claimed-Made {c} {w} (fresh now e held) = bind _ _ _ (runs _ w held) λ r w1 kept.
      bind _ _ _ (complete-Ends {d = w1.db} (record { same_db = refl }) c r.0) λ _ w2 at2.
        done (record { tables = (refl, rw at2.same_db (stable r.1 w1.db _ kept.tables)) })

  pub execute-Made :
      (c h : String) (w : World) → w.db ≡ d → Ends (Leaves (Made P d)) (Holds d) (execute c h op w)
  unfolding execute attempt
  execute-Made c h w e =
      imply (λ _ _ h. h) (λ _ held. record { same_db = held.same_db ∙ e })
        (within_tx-Leaves (Made P d) (attempt c h op) w λ w1 at1.
          bind _ _ _ (reserve-Ends (record { same_db = at1.same_db ∙ e }) c h)
            λ b w2 cl. claimed-Made cl)
