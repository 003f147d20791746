-- ===== src/Postgres/Quiet.antt =====
-- Calls that only read, when nothing fails: the world comes back as it was
-- (internal/adapters/postgres/transactor.go).
use payment_service.Prelude.{◌≡◌, refl, ap, ◌∙◌, false, List, [], ◌∷◌, Bool, Result, ok, err}
use payment_service.Postgres.{
  Action, World, Error, TxState, outside, inside, aborted, db_call, round_trip, within_tx,
  settle_tx, ◌>>=◌,
}
use payment_service.Postgres.Clear.{Clear, is_aborted}

round_trip_quiet :
    (state : TxState) (fs : List Bool) (w : World)
    → is_aborted state ≡ false
    → fs ≡ []
    → round_trip state (record w { faults = fs }) ≡ (ok tt, record w { faults = fs })
round_trip_quiet outside [] w h e = refl
round_trip_quiet inside [] w h e = refl
round_trip_quiet aborted [] w h e = absurd (cc)
round_trip_quiet _ (b ∷ fs) w h e = absurd (cc)

pub db_call_quiet : (w : World) → Clear w → db_call w ≡ (ok tt, w)
unfolding db_call
db_call_quiet w c = round_trip_quiet w.tx w.faults w c.not_aborted c.no_faults

-- A chain whose first call gives a value.
pub bind_quiet :
    {A B : Type 0} (m : Action A) (f : A → Action B) (a : A) {w w' : World}
    → m w ≡ (ok a, w')
    → (m >>= f) w ≡ f a w'
unfolding ◌>>=◌
bind_quiet {B} m f a e =
    ap (λ p. elim p.0 as (λ _. Result Error B × World) [ ok x ↦ f x p.1 | err x ↦ (err x, p.1) ]) e

-- A chain whose first call fails.
pub bind_fails :
    {A B : Type 0} (m : Action A) (f : A → Action B) {e : Error} {w w' : World}
    → m w ≡ (err e, w')
    → (m >>= f) w ≡ (err e, w')
unfolding ◌>>=◌
bind_fails {B} m f e =
    ap (λ p. elim p.0 as (λ _. Result Error B × World) [ ok x ↦ f x p.1 | err x ↦ (err x, p.1) ]) e

pub Clear-inside : {w : World} → Clear w → Clear (record w { tx = inside })
Clear-inside c = record { no_faults = c.no_faults; not_aborted = refl }

-- A transaction whose body only reads.
pub within_tx_quiet :
    {A : Type 0} (body : Action A) (a : A) (w : World)
    → Clear w
    → body (record w { tx = inside }) ≡ (ok a, record w { tx = inside })
    → within_tx body w ≡ (ok a, w)
unfolding within_tx
within_tx_quiet {A} body a w c h = ap (settle_tx w) (
    bind_quiet _ _ tt {w = w} refl
    ∙ bind_quiet db_call _ tt (
        db_call_quiet (record w { tx = outside })
          (record { no_faults = c.no_faults; not_aborted = refl }))
    ∙ bind_quiet _ _ tt {w = record w { tx = outside }} refl
    ∙ bind_quiet body _ a h
    ∙ bind_quiet db_call _ tt (db_call_quiet (record w { tx = inside }) (Clear-inside c)))
