-- ===== src/App/Dispute/Stored.antt =====
-- What the calls to the disputes leave (internal/app/dispute/service.go).
use payment_service.Prelude.{
  Bool, true, false, ◌≡◌, ◌⊎◌, inl, inr, refl, Option, none, some, List, ◌∷◌, String, ok, err,
  arith, is_some,
}
use payment_service.Prelude.Int.{ℤ}
use payment_service.Domain.Dispute.{Dispute}
use payment_service.Postgres.{
  World, Db, Effect, ◌>>=◌, gets, db_call, db_fault, round_trip, answered, TxState, outside, inside,
  aborted,
}
use payment_service.Postgres.Transactions.{find_txn}
use payment_service.Postgres.Disputes.{
  find_gateway_dispute, update_rows, create, update, insert_unless, get_by_gateway_dispute_id,
  scanned, is_refused,
}
use payment_service.Postgres.Steps.{
  Ends, done, stopped, bind, imply, At, Stopped, gets-Ends, db_call-Ends,
}
use payment_service.Postgres.Quiet.{bind_quiet, bind_fails}
use payment_service.Postgres.Kept.{Anywhere}
use payment_service.Postgres.Told.{or_anything}
use payment_service.App.Dispute.{or_missing}

module _ {d : Db} {now : ℤ} {fx : List Effect} {w : World} (at : At d now fx w) where
  pub update-Ends :
      (x : Dispute)
      → Ends
          (λ _ w'. At (record d { disputes = update_rows x d.disputes }) now fx w')
          (Stopped now fx)
          (update x w)
  unfolding update
  update-Ends x = bind _ _ _ (db_call-Ends at) λ _ w1 at1. done (ground arith)

  insert_unless-Ends :
      (b : Bool) (x : Dispute)
      → Ends
          (λ _ w'. At (record d { disputes = x ∷ d.disputes }) now fx w')
          Anywhere
          (insert_unless b x w)
  insert_unless-Ends true x = stopped tt
  insert_unless-Ends false x = done (ground arith)

  found-Ends :
      (o : Option Dispute)
      → Ends (λ r w'. (r ≡ o) × At d now fx w') Anywhere (or_missing (scanned o) w)
  unfolding or_missing
  found-Ends none = done (refl, at)
  found-Ends (some x) = done (refl, at)

answered-cases :
    {d : Db} {now : ℤ} {fx : List Effect} {w : World} (broken : Bool) (state : TxState)
    → At d now fx w
    → ((w1 : World) × (answered broken state w ≡ (ok tt, w1)) × At d now fx w1)
      ⊎ ((w1 : World) × (answered broken state w ≡ (err db_fault, w1)))
answered-cases {w} false state at = inl (w, refl, at)
answered-cases true state at = inr (_, refl)

round_trip-cases :
    {d : Db} {now : ℤ} {fx : List Effect} {w : World} (state : TxState)
    → At d now fx w
    → ((w1 : World) × (round_trip state w ≡ (ok tt, w1)) × At d now fx w1)
      ⊎ ((w1 : World) × (round_trip state w ≡ (err db_fault, w1)))
round_trip-cases {w} aborted at = inr (w, refl)
round_trip-cases outside at =
    answered-cases _ outside
      (record { at_db = at.at_db; at_clock = at.at_clock; at_effects = at.at_effects })
round_trip-cases inside at =
    answered-cases _ inside
      (record { at_db = at.at_db; at_clock = at.at_clock; at_effects = at.at_effects })

abbrev in_tables : String → String → World → Option Dispute
in_tables gateway_id ref w = find_gateway_dispute gateway_id ref w.db.disputes

-- A round trip that fails gives the database's error, and no other.
db_call-cases :
    {d : Db} {now : ℤ} {fx : List Effect} {w : World}
    → At d now fx w
    → ((w1 : World) × (db_call w ≡ (ok tt, w1)) × At d now fx w1)
      ⊎ ((w1 : World) × (db_call w ≡ (err db_fault, w1)))
unfolding db_call
db_call-cases {w} at = round_trip-cases w.tx at

module _ {d : Db} {now : ℤ} {fx : List Effect} {w : World} (at : At d now fx w) where
  pub create-Ends :
      (x : Dispute)
      → Ends (λ _ w'. At (record d { disputes = x ∷ d.disputes }) now fx w') Anywhere (create x w)
  unfolding create
  create-Ends x = bind _ _ _ (or_anything (db_call-Ends at)) λ _ w1 at1.
      bind _ _ _
        (gets-Ends at1
          (λ w. is_refused x w.db.disputes (is_some (find_txn x.transaction_id w.db.txns))))
        λ b w2 (_, at2). insert_unless-Ends at2 b x

  pub existing-Ends :
      (gateway_id ref : String)
      → Ends
          (λ o w'. (find_gateway_dispute gateway_id ref d.disputes ≡ o) × At d now fx w')
          Anywhere
          (or_missing (get_by_gateway_dispute_id gateway_id ref) w)
  unfolding or_missing get_by_gateway_dispute_id
  existing-Ends gateway_id ref = elim (db_call-cases at) [
    | inl (w1, e, at1) ↦
        rw
          (
            bind_quiet db_call (λ _. gets (in_tables gateway_id ref) >>= scanned) tt e,
            bind_quiet (gets (in_tables gateway_id ref)) scanned (in_tables gateway_id ref w1)
                {w = w1} refl,
          )
          (imply (λ r w2 (same, at2). (cc, at2)) (λ _ h. h)
            (found-Ends at1 (in_tables gateway_id ref w1)))
    | inr (w1, e) ↦
        rw (bind_fails db_call (λ _. gets (in_tables gateway_id ref) >>= scanned) e) (stopped tt)
  ]
