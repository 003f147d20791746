-- ===== src/Postgres/Kept.antt =====
-- The tables alone: what a call leaves in them, whatever happens to the rest of the world
-- (internal/adapters/postgres/transactor.go).
use payment_service.Prelude.{Bool, true, false, ◌≡◌, refl, Result}
use payment_service.Postgres.{
  Action, World, Db, Error, TxState, outside, inside, aborted, db_call, round_trip, answered,
  set_tx, settle_tx, tx_body, within_tx,
}
use payment_service.Postgres.Steps.{Ends, done, stopped, bind}

-- A world with these tables.
pub record Holds (d : Db) (w : World) : Type 0 where
  pub same_db : w.db ≡ d

-- A world of which nothing is known.
abbrev pub Anywhere : World → Type 0
Anywhere w = Unit {0}

answered-Holds :
    {d : Db} {w : World} (broken : Bool) (state : TxState)
    → Holds d w
    → Ends (λ _. Holds d) Anywhere (answered broken state w)
answered-Holds true state h = stopped tt
answered-Holds false state h = done h

round_trip-Holds :
    {d : Db} {w : World} (state : TxState)
    → Holds d w
    → Ends (λ _. Holds d) Anywhere (round_trip state w)
round_trip-Holds aborted h = stopped tt
round_trip-Holds outside h = answered-Holds _ outside (record { same_db = h.same_db })
round_trip-Holds inside h = answered-Holds _ inside (record { same_db = h.same_db })

pub db_call-Holds : {d : Db} {w : World} → Holds d w → Ends (λ _. Holds d) Anywhere (db_call w)
unfolding db_call
db_call-Holds {w} h = round_trip-Holds w.tx h

set_tx-Holds :
    {d : Db} {w : World}
    → Holds d w
    → (state : TxState) → Ends (λ _. Holds d) Anywhere (set_tx state w)
set_tx-Holds h state = done (record { same_db = h.same_db })

-- A condition on the result and the tables.
pub record Leaves {A : Type 0} (P : A → Db → Type 0) (a : A) (w : World) : Type 0 where
  pub tables : P a w.db

Leaves-held :
    {A : Type 0} (P : A → Db → Type 0) (a : A) (d : Db) (w : World)
    → P a d
    → Holds d w
    → Leaves P a w
Leaves-held P a d w p h = record { tables = rw h.same_db p }

tx_body-Leaves :
    {A : Type 0} (P : A → Db → Type 0) (body : Action A) (w : World)
    → ((w' : World) → Holds w.db w' → Ends (Leaves P) Anywhere (body w'))
    → Ends (Leaves P) Anywhere (tx_body body w)
tx_body-Leaves P body w h =
    bind _ _ _ (set_tx-Holds {d = w.db} {w = w} (record { same_db = refl }) outside) λ _ w1 at1.
      bind _ _ _ (db_call-Holds at1) λ _ w2 at2. bind _ _ _ (set_tx-Holds at2 inside) λ _ w3 at3.
        bind _ _ _ (h w3 at3) λ a w4 p.
          bind _ _ _ (db_call-Holds {d = w4.db} (record { same_db = refl }))
            λ _ w5 at5. done (Leaves-held P a w4.db w5 p.tables at5)

settle_tx-Leaves :
    {A : Type 0} (P : A → Db → Type 0) (w : World) {p : Result Error A × World}
    → Ends (Leaves P) Anywhere p
    → Ends (Leaves P) (Holds w.db) (settle_tx w p)
settle_tx-Leaves P w (done h) = done (record { tables = h.tables })
settle_tx-Leaves P w (stopped h) = stopped (record { same_db = refl })

-- A transaction leaves what its body leaves, or the tables as they were.
pub within_tx-Leaves :
    {A : Type 0} (P : A → Db → Type 0) (body : Action A) (w : World)
    → ((w' : World) → Holds w.db w' → Ends (Leaves P) Anywhere (body w'))
    → Ends (Leaves P) (Holds w.db) (within_tx body w)
unfolding within_tx
within_tx-Leaves P body w h = settle_tx-Leaves P w (tx_body-Leaves P body w h)
