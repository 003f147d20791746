-- ===== src/Postgres/Atomic.antt =====
-- What `WithinTx` guarantees (internal/adapters/postgres/transactor.go).
use payment_service.Prelude.{◌≡◌, refl, List, Result, ok, err}
use payment_service.Prelude.Int.{ℤ}
use payment_service.Postgres.Steps.{Ends, done, stopped, bind, At, Stopped, db_call-Ends}
use payment_service.Postgres.{
  Effect, TxState, inside, outside, set_tx, Action, World, Db, Error, within_tx, settle_tx, tx_body,
}

settle_tx-err :
    {A : Type 0} (before : World) (p : Result Error A × World) {e : Error}
    → (settle_tx before p).0 ≡ err e
    → (settle_tx before p).1.db ≡ before.db
settle_tx-err before (ok a, w) h = cc
settle_tx-err before (err x, w) h = refl

-- A transaction that fails, in its body, at its begin or at its commit, leaves every table as it was.
within_tx_rollback :
    {A : Type 0} (body : Action A) (w : World) {e : Error}
    → (within_tx body w).0 ≡ err e
    → (within_tx body w).1.db ≡ w.db
unfolding within_tx
within_tx_rollback body w h = settle_tx-err w (tx_body body w) h

pub set_tx-Ends :
    {d : Db} {now : ℤ} {fx : List Effect} {w : World}
    → At d now fx w
    → (state : TxState) → Ends (λ _ w'. At d now fx w') (Stopped now fx) (set_tx state w)
set_tx-Ends at state =
    done (record { at_db = at.at_db; at_clock = at.at_clock; at_effects = at.at_effects })

-- A condition on the result and the tables, where nothing else that matters has changed.
abbrev pub InTx : {A : Type 0} → (A → Db → Type 0) → ℤ → List Effect → A → World → Type 0
InTx P now fx a w' = P a w'.db × (w'.clock ≡ now) × (w'.effects ≡ fx)

-- The tables, the clock and the outward calls are those of `w`.
abbrev pub Unchanged : World → World → Type 0
Unchanged w w' = (w'.db ≡ w.db) × (w'.clock ≡ w.clock) × (w'.effects ≡ w.effects)

-- The body of a transaction, with the begin before it and the commit after it.
tx_body-Ends :
    {A : Type 0} (d : Db) (now : ℤ) (fx : List Effect) (P : A → Db → Type 0) (body : Action A)
    (w : World)
    → At d now fx w
    → ((w' : World) → At d now fx w' → Ends (InTx P now fx) (Stopped now fx) (body w'))
    → Ends (InTx P now fx) (Stopped now fx) (tx_body body w)
tx_body-Ends d now fx P body w at h = bind _ _ _ (set_tx-Ends at outside) λ _ w1 at1.
    bind _ _ _ (db_call-Ends at1) λ _ w2 at2. bind _ _ _ (set_tx-Ends at2 inside) λ _ w3 at3.
      bind _ _ _ (h w3 at3) λ a w4 (p, c, e).
        bind _ _ _
          (db_call-Ends {d = w4.db} (record { at_db = refl; at_clock = c; at_effects = e }))
          λ _ w5 at5. done (rw at5.at_db p, at5.at_clock, at5.at_effects)

settle_tx-Ends :
    {A : Type 0} (P : A → Db → Type 0) (w : World) {p : Result Error A × World}
    → Ends (InTx P w.clock w.effects) (Stopped w.clock w.effects) p
    → Ends (InTx P w.clock w.effects) (Unchanged w) (settle_tx w p)
settle_tx-Ends P w (done h) = done h
settle_tx-Ends P w (stopped h) = stopped (refl, h.stopped_clock, h.stopped_effects)

-- A transaction does what its body does, or leaves the world's tables as they were.
pub within_tx-Ends :
    {A : Type 0} (P : A → Db → Type 0) (body : Action A) (w : World)
    → ((w' : World)
        → At w.db w.clock w.effects w'
        → Ends (InTx P w.clock w.effects) (Stopped w.clock w.effects) (body w'))
    → Ends (InTx P w.clock w.effects) (Unchanged w) (within_tx body w)
unfolding within_tx
within_tx-Ends P body w h = settle_tx-Ends P w (
    tx_body-Ends w.db w.clock w.effects P body w
      (record { at_db = refl; at_clock = refl; at_effects = refl }) h)
