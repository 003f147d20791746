-- ===== src/Postgres/Updates.antt =====
-- What the reads and the updates of payments leave (internal/adapters/postgres/transaction.go).
use payment_service.Prelude.{
  ℕ, suc, ◌≡◌, refl, inl, inr, Option, none, some, List, arith, Bool-cases, ◌==◌,
}
use payment_service.Prelude.Int.{ℤ}
use payment_service.Domain.Transaction.{Txn}
use payment_service.Postgres.{World, Db, Effect, db_call, ◌>>◌, Error, raise}
use payment_service.Postgres.Transactions.{
  find_txn, replace_txn, updated_row, update_status, put_txn, get_by_id, write_row,
  or_raise_not_found,
}
use payment_service.Postgres.Steps.{
  Ends, done, stopped, bind, At, Stopped, gets-Ends, db_call-Ends, db_call-Kept,
}

put_txn-Ends :
    {d : Db} {now : ℤ} {fx : List Effect} {w : World} (row : Txn)
    → At d now fx w
    → Ends
        (λ _ w'. At (record d { txns = replace_txn row.id row d.txns }) now fx w')
        (Stopped now fx)
        (put_txn row w)
put_txn-Ends row at = done (ground arith)

refused-Ends :
    {d : Db} {now : ℤ} {fx : List Effect} {w : World} {A : Type 0} {P : A → World → Type 0}
    (e : Error)
    → At d now fx w
    → Ends P (Stopped now fx) ((db_call >> raise e) w)
refused-Ends e at =
    bind _ _ _ (db_call-Ends at) λ _ w1 at1.
      stopped (record { stopped_clock = at1.at_clock; stopped_effects = at1.at_effects })

-- What `UpdateStatus` leaves: the caller's copy at the next version, and the row with it.
abbrev pub Updated : Db → ℤ → List Effect → Txn → Txn → World → Type 0
Updated d now fx t t' w' =
    (row : Txn) × (find_txn t.id d.txns ≡ some row)
    × (row.version ≡ t.version)
    × (t' ≡ record t { version = suc row.version })
    × At (record d { txns = replace_txn row.id (updated_row row t now) d.txns }) now fx w'

write_row-Ends :
    {d : Db} {now : ℤ} {fx : List Effect} {w : World} (o : Option Txn) (t : Txn)
    → At d now fx w
    → find_txn t.id d.txns ≡ o
    → Ends (Updated d now fx t) (Stopped now fx) (write_row o t now w)
write_row-Ends none t at e = refused-Ends _ at
write_row-Ends (some row) t at e = elim (Bool-cases (row.version == t.version)) [
  | inl same ↦
      rw same (bind _ _ _ (put_txn-Ends _ at) λ _ w1 at1. done (row, e, ground arith, refl, at1))
  | inr other ↦ rw other (refused-Ends _ at)
]

write_row_given-Ends :
    {d : Db} {now now' : ℤ} {fx : List Effect} {w : World} (o : Option Txn) (t : Txn)
    → now' ≡ now
    → At d now fx w
    → find_txn t.id d.txns ≡ o
    → Ends (Updated d now fx t) (Stopped now fx) (write_row o t now' w)
write_row_given-Ends o t same at e = rw same (write_row-Ends o t at e)

pub update_status-Ends :
    {d : Db} {now : ℤ} {fx : List Effect} {w : World} (t : Txn)
    → At d now fx w
    → Ends (Updated d now fx t) (Stopped now fx) (update_status t w)
unfolding update_status
update_status-Ends t at = bind _ _ _ (db_call-Ends at) λ _ w1 at1.
    bind _ _ _ (gets-Ends at1 (λ w. w.clock)) λ now1 w2 (e2, at2).
      bind _ _ _ (gets-Ends at2 (λ w. find_txn t.id w.db.txns))
        λ o w3 (e3, at3). write_row_given-Ends o t (ground arith) at3 (ground arith)

pub get_by_id-Kept :
    {d : Db} {now : ℤ} {fx : List Effect} {w : World} (id : ℕ)
    → At d now fx w
    → Ends (λ t w'. (find_txn id d.txns ≡ some t) × At d now fx w') (At d now fx) (get_by_id id w)
unfolding get_by_id
get_by_id-Kept id at = bind _ _ _ (db_call-Kept at) λ _ w1 at1.
    bind _ _ _ (gets-Ends at1 (λ w. find_txn id w.db.txns))
      λ o w2 (e, at2). found o (ground arith) at2
  where
    found :
        {d : Db} {now : ℤ} {fx : List Effect} {w : World} (o : Option Txn)
        → find_txn id d.txns ≡ o
        → At d now fx w
        → Ends
            (λ t w'. (find_txn id d.txns ≡ some t) × At d now fx w')
            (At d now fx)
            (or_raise_not_found o w)
    found none e at = stopped at
    found (some t) e at = done (e, at)
