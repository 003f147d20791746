-- ===== src/App/Payment/Leased.antt =====
-- A lease that is held (internal/app/payment/service.go, process.go;
-- internal/adapters/postgres/lease.go).
pub mod Drivers
use payment_service.Prelude.{
  ℕ, Bool, true, false, ◌&&◌, ◌==◌, ◌≡◌, refl, sym, ap, ◌∙◌, inl, inr, Bool-cases, Option, none,
  some, List, String, str_eq, Result, ok, err, if◌then◌else◌,
}
use payment_service.Prelude.Int.{ℤ}
use payment_service.Domain.Transaction.{
  Txn, Status, processing, authorized, pending, system, status_eq,
}
use payment_service.Domain.Transaction.Machine.Diagram.{transition_state-kept}
use payment_service.Ports.Gateway.{Adapter}
use payment_service.Postgres.{
  Action, World, Db, Effect, Error, TxState, outside, inside, ◌>>=◌, ◌>>◌, gets, pure, raise, lift,
  set_tx, settle_tx, db_call, within_tx, txn_error, not_found, version_conflict,
}
use payment_service.Postgres.Transactions.{
  find_txn, get_by_id, update_status, write_row, put_txn, updated_row,
}
use payment_service.Postgres.Transactions.Rows.{find_txn-id}
use payment_service.Postgres.Leases.{
  has_lease, cached_for, try_acquire_direct, acquire, read_cached, insert_unless,
}
use payment_service.Postgres.Steps.{Ends, done, stopped, bind, imply, At, db_call-Kept}
use payment_service.Postgres.Updates.{get_by_id-Kept}
use payment_service.App.Payment.Service.{Service, adapter_for, found_adapter}
use payment_service.App.Payment.Process.{
  process_payment, process_if, begin_processing, claim_or_reload, drive,
}
use payment_service.App.Payment.Attempt.{
  attempt_leased, begin_attempt, or_invalid_transition, authorize, authorize_call, capture,
  capture_call, lease_ttl, is_manual,
}
use payment_service.App.Payment.Initiate.{
  FeeConfig, process_gateway_initiate, lease_then_initiate, initiate_if,
}

-- The lease is held, and nothing has left the process.
pub record Held (id : ℕ) (fx : List Effect) (w : World) : Type 0 where
  pub held : has_lease id w.db.leases ≡ true
  pub silent : w.effects ≡ fx

-- A call in which it stays so, whether it fails or not.
abbrev pub Silent : {A : Type 0} → ℕ → List Effect → Result Error A × World → Type 0
Silent id fx p = Ends (λ _. Held id fx) (Held id fx) p

module _ {id : ℕ} {fx : List Effect} where
  At-Held :
      (d : Db) {now : ℤ} (w : World) → has_lease id d.leases ≡ true → At d now fx w → Held id fx w
  At-Held d w h at = record { held = rw at.at_db h; silent = at.at_effects }

  -- What a world holds, as the tables that it starts from.
  own_At : (w : World) → Held id fx w → At w.db w.clock fx w
  own_At w h = record { at_db = refl; at_clock = refl; at_effects = h.silent }

  pub get_by_id-Held :
      (key : ℕ) (w : World)
      → Held id fx w
      → Ends (λ t w'. (t.id ≡ key) × Held id fx w') (Held id fx) (get_by_id key w)
  get_by_id-Held key w h =
      imply (λ t w' (e, at). (find_txn-id key w.db.txns t e, At-Held w.db w' h.held at))
        (λ w' at. At-Held w.db w' h.held at) (get_by_id-Kept key (own_At w h))

  pub db_call-Held : (w : World) → Held id fx w → Silent id fx (db_call w)
  db_call-Held w h =
      imply (λ _ w' at. At-Held w.db w' h.held at) (λ w' at. At-Held w.db w' h.held at)
        (db_call-Kept (own_At w h))

  -- The lease is not won a second time.
  pub try_acquire_direct-Held :
      (key txn : ℕ) (ttl : ℤ) (w : World)
      → key ≡ id
      → Held id fx w
      → Ends
          (λ won w'. (won ≡ false) × Held id fx w')
          (Held id fx)
          (try_acquire_direct key txn ttl w)
  unfolding try_acquire_direct
  try_acquire_direct-Held key txn ttl w own h = bind _ _ _ (db_call-Held w h) λ _ w1 h1.
      bind {M = λ taken w'. (taken ≡ true) × Held id fx w'} (gets (λ w. has_lease key w.db.leases))
        _ w1 (done (ap (λ k. has_lease k w1.db.leases) own ∙ h1.held, h1))
        λ taken w2 (e, h2). rw e (done (refl, h2))

  pub lift-Held :
      {X A : Type 0} (f : X → Error) (r : Result X A) (w : World)
      → Held id fx w
      → Ends (λ a w'. (r ≡ ok a) × Held id fx w') (Held id fx) (lift f r w)
  lift-Held f (ok a) w h = done (refl, h)
  lift-Held f (err e) w h = stopped h

  pub found_adapter-Held :
      (name : String) (o : Option Adapter) (w : World)
      → Held id fx w
      → Silent id fx (found_adapter name o w)
  found_adapter-Held name none w h = stopped h
  found_adapter-Held name (some a) w h = done h

  pub or_invalid_transition-Held :
      {A : Type 0} {P : A → World → Type 0} (m : Action A) (w : World)
      → Ends P (Held id fx) (m w)
      → Ends P (Held id fx) (or_invalid_transition m w)
  unfolding or_invalid_transition
  or_invalid_transition-Held {A} {P} m w h = by_end h
    where
      by_end :
          {p : Result Error A × World}
          → Ends P (Held id fx) p
          → Ends P (Held id fx) (elim p.0 as (λ _. Result Error A × World) [
            | ok a ↦ (ok a, p.1)
            | err _ ↦ (err Error.invalid_transition, p.1)
          ])
      by_end (done k) = done k
      by_end (stopped k) = stopped k

  set_tx-Held : (state : TxState) (w : World) → Held id fx w → Silent id fx (set_tx state w)
  set_tx-Held state w h = done (record { held = h.held; silent = h.silent })

  settle_tx-Held :
      {A : Type 0} {P : A → Type 0} (w : World) {p : Result Error A × World}
      → Held id fx w
      → Ends (λ a w'. P a × Held id fx w') (Held id fx) p
      → Ends (λ a w'. P a × Held id fx w') (Held id fx) (settle_tx w p)
  settle_tx-Held w h (done (p, k)) = done (p, record { held = k.held; silent = k.silent })
  settle_tx-Held w h (stopped k) = stopped (record { held = h.held; silent = k.silent })

  -- A transaction whose body keeps the lease and makes no call.
  pub within_tx-Held :
      {A : Type 0} (P : A → Type 0) (body : Action A) (w : World)
      → Held id fx w
      → ((w' : World) → Held id fx w' → Ends (λ a w'. P a × Held id fx w') (Held id fx) (body w'))
      → Ends (λ a w'. P a × Held id fx w') (Held id fx) (within_tx body w)
  unfolding within_tx
  within_tx-Held P body w h k = settle_tx-Held w h (
      bind _ _ _ (set_tx-Held outside w h) λ _ w1 h1. bind _ _ _ (db_call-Held w1 h1) λ _ w2 h2.
        bind _ _ _ (set_tx-Held inside w2 h2) λ _ w3 h3.
          bind _ _ _ (k w3 h3)
            λ a w4 (p, h4). bind _ _ _ (db_call-Held w4 h4) λ _ w5 h5. done (p, h5))

module _ {id : ℕ} {fx : List Effect} where
  write_row-Held :
      (o : Option Txn) (t : Txn) (now : ℤ) (w : World)
      → Held id fx w
      → Ends (λ a w'. (a.id ≡ t.id) × Held id fx w') (Held id fx) (write_row o t now w)
  write_row-Held none t now w h = bind _ _ _ (db_call-Held w h) λ _ w1 h1. stopped h1
  write_row-Held (some row) t now w h = elim (Bool-cases (row.version == t.version)) [
    | inl same ↦ rw same (
        bind {M = λ _. Held id fx} (put_txn (updated_row row t now)) _ w
          (done (record { held = h.held; silent = h.silent })) λ _ w1 h1. done (refl, h1))
    | inr other ↦ rw other (bind _ _ _ (db_call-Held w h) λ _ w1 h1. stopped h1)
  ]

  pub update_status-Held :
      (t : Txn) (w : World)
      → Held id fx w
      → Ends (λ a w'. (a.id ≡ t.id) × Held id fx w') (Held id fx) (update_status t w)
  unfolding update_status
  update_status-Held t w h = bind _ _ _ (db_call-Held w h) λ _ w1 h1.
      bind {M = λ _. Held id fx} (gets (λ w. w.clock)) _ w1 (done h1) λ now w2 h2.
        bind {M = λ _. Held id fx} (gets (λ w. find_txn t.id w.db.txns)) _ w2 (done h2)
          λ o w3 h3. write_row-Held o t now w3 h3
