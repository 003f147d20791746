-- ===== src/Postgres/Steps.antt =====
-- A logic for the calls of the services: what a call leaves when it succeeds and when it fails, with
-- one rule for a chain of calls and one for each database action
-- (internal/adapters/postgres/transaction.go, lease.go, transactor.go).
use payment_service.Prelude.{ℕ, Bool, true, false, ◌≡◌, refl, List, ◌∷◌, Result, ok, err, arith}
use payment_service.Prelude.Int.{ℤ}
use payment_service.Ports.Outbox.{OutboxEvent}
use mathlib.Core.Path.{subst₂}
use payment_service.Postgres.{
  answered, round_trip, Action, World, Db, CachedResponse, AuditEntry, Effect, Dispatch, db_call,
  TxState, outside, inside, aborted, ◌>>=◌, Error, gets, dispatch, when, lift,
}
use payment_service.Postgres.Transactions.{write_event, write_audit}
use payment_service.Postgres.Leases.{write_cached_response, set_cached}

-- A call ended with a value at which `P` holds, or with an error in a world at which `E` holds.
pub data Ends {A : Type 0} (P : A → World → Type 0) (E : World → Type 0)
    : Result Error A × World → Type 0 where
  done : {a : A} {w : World} → P a w → Ends P E (ok a, w)
  stopped : {e : Error} {w : World} → E w → Ends P E (err e, w)

module _ {A B : Type 0} {M : A → World → Type 0} {P : B → World → Type 0} {E : World → Type 0} where
  bind_pair :
      {p : Result Error A × World} (f : A → Action B)
      → Ends M E p
      → ((a : A) (w : World) → M a w → Ends P E (f a w))
      → Ends P E
          (elim p.0 as (λ _. Result Error B × World) [ ok a ↦ f a p.1 | err e ↦ (err e, p.1) ])
  bind_pair f (done {a} {w} h) k = k a w h
  bind_pair f (stopped h) k = stopped h

  -- A chain: what the first call leaves is enough for the rest.
  pub bind :
      (m : Action A) (f : A → Action B) (w : World)
      → Ends M E (m w)
      → ((a : A) (w' : World) → M a w' → Ends P E (f a w'))
      → Ends P E ((m >>= f) w)
  unfolding ◌>>=◌
  bind m f w h k = bind_pair f h k

-- What a call that ended must have left.
pub Ends-ok :
    {A : Type 0} {P : A → World → Type 0} {E : World → Type 0} {p : Result Error A × World} {a : A}
    {w : World}
    → Ends P E p
    → p ≡ (ok a, w)
    → P a w
Ends-ok {P} (done h) e = subst₂ P (cc) (cc) h
Ends-ok (stopped h) e = absurd (cc)

-- The tables, the clock and the outward calls of a world.
pub record At (d : Db) (now : ℤ) (fx : List Effect) (w : World) : Type 0 where
  pub at_db : w.db ≡ d
  pub at_clock : w.clock ≡ now
  pub at_effects : w.effects ≡ fx

-- After a failure inside a transaction the tables do not matter; the rest is as it was.
pub record Stopped (now : ℤ) (fx : List Effect) (w : World) : Type 0 where
  pub stopped_clock : w.clock ≡ now
  pub stopped_effects : w.effects ≡ fx

pub imply :
    {A : Type 0} {P P' : A → World → Type 0} {E E' : World → Type 0} {p : Result Error A × World}
    → ((a : A) (w : World) → P a w → P' a w)
    → ((w : World) → E w → E' w)
    → Ends P E p
    → Ends P' E' p
imply f g (done h) = done (f _ _ h)
imply f g (stopped h) = stopped (g _ h)

At-Stopped : {d : Db} {now : ℤ} {fx : List Effect} (w : World) → At d now fx w → Stopped now fx w
At-Stopped w at = record { stopped_clock = at.at_clock; stopped_effects = at.at_effects }

answered-Kept :
    {d : Db} {now : ℤ} {fx : List Effect} {w : World} (broken : Bool) (state : TxState)
    → At d now fx w
    → Ends (λ _ w'. At d now fx w') (At d now fx) (answered broken state w)
answered-Kept true state at =
    stopped (record { at_db = at.at_db; at_clock = at.at_clock; at_effects = at.at_effects })
answered-Kept false state at = done at

round_trip-Kept :
    {d : Db} {now : ℤ} {fx : List Effect} {w : World} (state : TxState)
    → At d now fx w
    → Ends (λ _ w'. At d now fx w') (At d now fx) (round_trip state w)
round_trip-Kept aborted at = stopped at
round_trip-Kept outside at =
    answered-Kept _ outside
      (record { at_db = at.at_db; at_clock = at.at_clock; at_effects = at.at_effects })
round_trip-Kept inside at =
    answered-Kept _ inside
      (record { at_db = at.at_db; at_clock = at.at_clock; at_effects = at.at_effects })

module _ {d : Db} {now : ℤ} {fx : List Effect} {w : World} (at : At d now fx w) where
  -- A round trip leaves the tables as they are, whether or not it fails.
  pub db_call-Kept : Ends (λ _ w'. At d now fx w') (At d now fx) (db_call w)
  unfolding db_call
  db_call-Kept = round_trip-Kept w.tx at

  pub db_call-Ends : Ends (λ _ w'. At d now fx w') (Stopped now fx) (db_call w)
  db_call-Ends = imply (λ _ _ h. h) At-Stopped db_call-Kept

  pub write_event-Ends :
      (e : OutboxEvent)
      → Ends
          (λ _ w'. At (record d { outbox = e ∷ d.outbox }) now fx w')
          (Stopped now fx)
          (write_event e w)
  unfolding write_event
  write_event-Ends e = bind _ _ _ db_call-Ends λ _ w1 at1. done (ground arith)

  pub write_cached_response-Ends :
      (key : ℕ) (c : CachedResponse)
      → Ends
          (λ _ w'. At (record d { leases = set_cached key c d.leases }) now fx w')
          (Stopped now fx)
          (write_cached_response key c w)
  unfolding write_cached_response
  write_cached_response-Ends key c = bind _ _ _ db_call-Ends λ _ w1 at1. done (ground arith)

  pub dispatch-Ends :
      (x : Dispatch)
      → Ends
          (λ _ w'. At (record d { dispatched = x ∷ d.dispatched }) now fx w')
          (Stopped now fx)
          (dispatch x w)
  dispatch-Ends x = done (ground arith)

  pub write_audit-Ends :
      (x : AuditEntry) → Ends (λ _ w'. At d now fx w') (Stopped now fx) (write_audit x w)
  unfolding write_audit
  write_audit-Ends x = done (ground arith)

  pub gets-Ends :
      {A : Type 0} {E : World → Type 0} (f : World → A)
      → Ends (λ a w'. (a ≡ f w) × At d now fx w') E (gets f w)
  gets-Ends f = done (refl, at)

pub when_audit-Ends :
    {d : Db} {now : ℤ} {fx : List Effect} {w : World}
    → At d now fx w
    → (b : Bool) (x : AuditEntry)
    → Ends (λ _ w'. At d now fx w') (Stopped now fx) (when b (write_audit x) w)
when_audit-Ends at true x = write_audit-Ends at x
when_audit-Ends at false x = done at

pub lift-Ends :
    {d : Db} {now : ℤ} {fx : List Effect} {w : World} {X A : Type 0} (f : X → Error)
    (r : Result X A)
    → At d now fx w
    → Ends (λ a w'. (r ≡ ok a) × At d now fx w') (Stopped now fx) (lift f r w)
lift-Ends f (ok a) at = done (refl, at)
lift-Ends f (err e) at =
    stopped (record { stopped_clock = at.at_clock; stopped_effects = at.at_effects })
