-- ===== src/Postgres/Told.antt =====
-- Transactions that tell the outside world before they commit: what stands is known of the tables,
-- and of the outward calls only where the transaction commits
-- (internal/adapters/postgres/transactor.go).
use payment_service.Prelude.{refl, List, Result}
use payment_service.Prelude.Int.{ℤ}
use payment_service.Postgres.{
  Action, World, Db, Effect, Error, inside, outside, settle_tx, tx_body, within_tx,
}
use payment_service.Postgres.Steps.{Ends, done, stopped, bind, imply, At, db_call-Ends}
use payment_service.Postgres.Atomic.{set_tx-Ends}
use payment_service.Postgres.Kept.{Anywhere, Holds}

-- A condition on the result, the tables and the outward calls.
abbrev pub Tells : {A : Type 0} → (A → Db → List Effect → Type 0) → A → World → Type 0
Tells P a w' = P a w'.db w'.effects

-- What is known of a failure is dropped.
pub or_anything :
    {A : Type 0} {P : A → World → Type 0} {E : World → Type 0} {p : Result Error A × World}
    → Ends P E p
    → Ends P Anywhere p
or_anything h = imply (λ _ _ k. k) (λ _ _. tt) h

tx_body-Tells :
    {A : Type 0} (d : Db) (now : ℤ) (fx : List Effect) (P : A → Db → List Effect → Type 0)
    (body : Action A) (w : World)
    → At d now fx w
    → ((w' : World) → At d now fx w' → Ends (Tells P) Anywhere (body w'))
    → Ends (Tells P) Anywhere (tx_body body w)
tx_body-Tells d now fx P body w at h = bind _ _ _ (or_anything (set_tx-Ends at outside)) λ _ w1 at1.
    bind _ _ _ (or_anything (db_call-Ends at1)) λ _ w2 at2.
      bind _ _ _ (or_anything (set_tx-Ends at2 inside)) λ _ w3 at3. bind _ _ _ (h w3 at3) λ a w4 p.
        bind _ _ _
          (or_anything (
            db_call-Ends {d = w4.db} {now = w4.clock} {fx = w4.effects}
              (record { at_db = refl; at_clock = refl; at_effects = refl })))
          λ _ w5 at5. done (rw (at5.at_db, at5.at_effects) p)

settle_tx-Tells :
    {A : Type 0} (P : A → Db → List Effect → Type 0) (w : World) {p : Result Error A × World}
    → Ends (Tells P) Anywhere p
    → Ends (Tells P) (Holds w.db) (settle_tx w p)
settle_tx-Tells P w (done h) = done h
settle_tx-Tells P w (stopped h) = stopped (record { same_db = refl })

-- A transaction leaves what its body leaves, or the tables as they were.
pub within_tx-Tells :
    {A : Type 0} (P : A → Db → List Effect → Type 0) (body : Action A) (w : World)
    → ((w' : World) → At w.db w.clock w.effects w' → Ends (Tells P) Anywhere (body w'))
    → Ends (Tells P) (Holds w.db) (within_tx body w)
unfolding within_tx
within_tx-Tells P body w h = settle_tx-Tells P w (
    tx_body-Tells w.db w.clock w.effects P body w
      (record { at_db = refl; at_clock = refl; at_effects = refl }) h)
