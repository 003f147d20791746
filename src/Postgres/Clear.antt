-- ===== src/Postgres/Clear.antt =====
-- The calls when nothing fails: no fault lies ahead and no transaction is aborted
-- (internal/adapters/postgres/transaction.go, lease.go, transactor.go).
use payment_service.Prelude.{
  ℕ, Bool, true, false, ◌≡◌, refl, ◌∙◌, some, [], Result, ok, arith, ◌==◌,
}
use payment_service.Prelude.Int.{ℤ}
use payment_service.Domain.Transaction.{Txn}
use payment_service.Ports.Outbox.{OutboxEvent}
use payment_service.Postgres.{
  Action, World, Db, Error, TxState, outside, inside, aborted, AuditEntry, Dispatch, CachedResponse,
  db_call, round_trip, dispatch, gets, set_tx, settle_tx, within_tx,
}
use payment_service.Postgres.Transactions.{
  find_txn, put_txn, write_row, update_status, write_event, write_audit,
}
use payment_service.Postgres.Leases.{write_cached_response}
use payment_service.Postgres.Steps.{Ends, done, stopped, bind, imply}

abbrev pub is_aborted : TxState → Bool
is_aborted aborted = true
is_aborted _ = false

pub record Clear (w : World) : Type 0 where
  pub no_faults : w.faults ≡ []
  pub not_aborted : is_aborted w.tx ≡ false

-- A call that succeeds.
abbrev pub Succeeds : {A : Type 0} → (A → World → Type 0) → Result Error A × World → Type 0
Succeeds P p = Ends P (λ _. ⊥) p

pub Succeeds-ok :
    {A : Type 0} {P : A → World → Type 0} {p : Result Error A × World}
    → Succeeds P p
    → (a : A) × (w : World) × (p ≡ (ok a, w)) × P a w
Succeeds-ok (done {a} {w} h) = (a, w, refl, h)
Succeeds-ok (stopped h) = absurd h

round_trip-Clear :
    {d : Db} {w : World} (state : TxState)
    → is_aborted state ≡ false
    → (w.db ≡ d) × Clear w
    → Succeeds (λ _ w'. (w'.db ≡ d) × Clear w') (round_trip state w)
round_trip-Clear aborted h c = absurd (cc)
round_trip-Clear outside h (e, c) =
    rw c.no_faults (done (e, record { no_faults = refl; not_aborted = c.not_aborted }))
round_trip-Clear inside h (e, c) =
    rw c.no_faults (done (e, record { no_faults = refl; not_aborted = c.not_aborted }))

-- A clear world with these tables.
abbrev pub ClearAt : Db → World → Type 0
ClearAt d w = (w.db ≡ d) × Clear w

module _ {w : World} (c : Clear w) where
  pub db_call-Clear : (d : Db) → w.db ≡ d → Succeeds (λ _. ClearAt d) (db_call w)
  unfolding db_call
  db_call-Clear d e = round_trip-Clear w.tx c.not_aborted (e, c)

  pub call-Clear : Succeeds (λ _. Clear) (db_call w)
  call-Clear = imply (λ _ _ (_, c). c) (λ _ h. h) (db_call-Clear w.db refl)

  pub dispatch-Clear : (x : Dispatch) → Succeeds (λ _. Clear) (dispatch x w)
  dispatch-Clear x = done (record { no_faults = c.no_faults; not_aborted = c.not_aborted })

  put_txn-Clear : (row : Txn) → Succeeds (λ _. Clear) (put_txn row w)
  put_txn-Clear row = done (record { no_faults = c.no_faults; not_aborted = c.not_aborted })

  pub write_audit-Clear :
      (x : AuditEntry) (d : Db) → w.db ≡ d → Succeeds (λ _. ClearAt d) (write_audit x w)
  unfolding write_audit
  write_audit-Clear x d e = done (ground arith)

  set_tx-Clear :
      (state : TxState) → is_aborted state ≡ false → Succeeds (λ _. ClearAt w.db) (set_tx state w)
  set_tx-Clear state h = done (refl, record { no_faults = c.no_faults; not_aborted = h })

module _ {w : World} (c : Clear w) where
  pub write_event-Clear : (x : OutboxEvent) → Succeeds (λ _. Clear) (write_event x w)
  unfolding write_event
  write_event-Clear x =
      bind _ _ _ (call-Clear c)
        λ _ w1 c1. done (record { no_faults = c1.no_faults; not_aborted = c1.not_aborted })

  pub write_cached_response-Clear :
      (key : ℕ) (x : CachedResponse) → Succeeds (λ _. Clear) (write_cached_response key x w)
  unfolding write_cached_response
  write_cached_response-Clear key x =
      bind _ _ _ (call-Clear c)
        λ _ w1 c1. done (record { no_faults = c1.no_faults; not_aborted = c1.not_aborted })

  write_row-Clear :
      (row t : Txn) (now : ℤ)
      → row.version ≡ t.version
      → Succeeds (λ _. Clear) (write_row (some row) t now w)
  write_row-Clear row t now e =
      let same : (row.version == t.version) ≡ true = ground arith in
      rw same (bind _ _ _ (put_txn-Clear c _) λ _ w1 c1. done c1)

-- The update succeeds where the row is at the version that was read.
pub update_status-Clear :
    {w : World} (t row : Txn)
    → Clear w
    → find_txn t.id w.db.txns ≡ some row
    → row.version ≡ t.version
    → Succeeds (λ _. Clear) (update_status t w)
unfolding update_status
update_status-Clear {w} t row c found e = bind _ _ _ (db_call-Clear c w.db refl) λ _ w1 (d1, c1).
    bind {M = λ _ w'. ClearAt w.db w'} (gets (λ w. w.clock)) _ w1 (done (d1, c1)) λ now w2 (d2, c2).
      bind {M = λ o w'. (o ≡ some row) × Clear w'} (gets (λ w. find_txn t.id w.db.txns)) _ w2
        (done (rw d2 found, c2)) λ o w3 (eo, c3). rw eo (write_row-Clear c3 row t now e)

-- A transaction commits where its body succeeds.
pub within_tx-Clear :
    {A : Type 0} (body : Action A) (w : World)
    → Clear w
    → ((w' : World) → ClearAt w.db w' → Succeeds (λ _. Clear) (body w'))
    → Succeeds (λ _ _. Unit {0}) (within_tx body w)
unfolding within_tx
within_tx-Clear body w c h = settled (
    bind _ _ _ (set_tx-Clear c outside refl) λ _ w1 (d1, c1).
      bind _ _ _ (db_call-Clear c1 w.db d1) λ _ w2 (d2, c2).
        bind _ _ _ (set_tx-Clear c2 inside refl) λ _ w3 (d3, c3).
          bind _ _ _ (h w3 (d3 ∙ d2, c3)) λ a w4 c4. bind _ _ _ (call-Clear c4) λ _ w5 c5. done c5)
  where
    settled :
        {A : Type 0} {p : Result Error A × World}
        → Succeeds (λ _. Clear) p
        → Succeeds (λ _ _. Unit {0}) (settle_tx w p)
    settled (done _) = done tt
    settled (stopped h) = stopped h
