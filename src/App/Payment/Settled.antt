-- ===== src/App/Payment/Settled.antt =====
-- What `Settle` leaves (internal/app/payment/service.go).
use payment_service.Prelude.{ℕ, suc, ◌≡◌, refl, sym, ap, ◌∙◌, some, List, Result, ok, err}
use payment_service.Prelude.Int.{ℤ}
use mathlib.Core.Path.{subst₂}
use payment_service.Domain.Transaction.{Txn, settled, system}
use payment_service.Domain.Transaction.Machine.{transition_state}
use payment_service.Domain.Transaction.Machine.Diagram.{transition_state-kept}
use payment_service.Postgres.{Action, World, Db, Effect, Error, txn_error, invalid_transition}
use payment_service.Postgres.Transactions.{find_txn, replace_txn, updated_row}
use payment_service.Postgres.Steps.{
  Ends, done, stopped, bind, imply, At, Stopped, gets-Ends, lift-Ends, when_audit-Ends,
}
use payment_service.Postgres.Updates.{update_status-Ends, get_by_id-Kept}
use payment_service.Postgres.Atomic.{InTx, within_tx-Ends}
use payment_service.App.Payment.Service.{Service}
use payment_service.App.Payment.Finalize.{build_terminal_event}
use payment_service.App.Payment.Finalize.Commit.{with_event, write_event_if-Ends}
use payment_service.App.Payment.Attempt.{or_invalid_transition, settle_body, settle}

-- A payment that was read as `t` is settled as `t'`.
pub record Settled (t : Txn) (d : Db) (now : ℤ) (t' : Txn) (d' : Db) : Type 0 where
  pub moved : Txn
  pub row : Txn
  pub is_allowed : transition_state (some t) settled system now ≡ ok moved
  pub row_found : find_txn t.id d.txns ≡ some row
  pub version_held : row.version ≡ t.version
  pub result : t' ≡ record moved { version = suc t.version }
  pub tables : d' ≡ record d {
    txns = replace_txn row.id (updated_row row moved now) d.txns;
    outbox = with_event (build_terminal_event t' settled) d.outbox;
  }

settle_body-Ends :
    (s : Service) (t : Txn) {d : Db} {now : ℤ} {fx : List Effect} (w : World)
    → At d now fx w
    → Ends (InTx (Settled t d now) now fx) (Stopped now fx) (settle_body s t w)
unfolding settle_body
settle_body-Ends s t {d} {now} w at = bind _ _ _ (gets-Ends at (λ w. w.clock)) λ now1 w1 (e1, at1).
    bind _ _ _ (lift-Ends txn_error _ at1) λ moved w2 (ok_moved, at2).
      bind _ _ _ (update_status-Ends moved at2) λ t' w3 (row, found, held, next, at3).
        bind _ _ _ (write_event_if-Ends at3 (build_terminal_event t' settled)) λ _ w4 at4.
          bind _ _ _ (when_audit-Ends at4 s.has_audit _) λ _ w5 at5.
            let allowed : transition_state (some t) settled system now ≡ ok moved =
              ap (transition_state (some t) settled system) (sym (e1 ∙ at.at_clock)) ∙ ok_moved in
            let (i, v, _, _) = transition_state-kept t settled system now allowed in
            done (
              record {
                moved = moved;
                row = row;
                is_allowed = allowed;
                row_found = cc;
                version_held = cc;
                result = cc;
                tables = at5.at_db;
              },
              at5.at_clock,
              at5.at_effects,
            )

or_invalid_transition-Ends :
    {A : Type 0} {P : A → World → Type 0} {E : World → Type 0} (m : Action A) (w : World)
    → Ends P E (m w)
    → Ends P E (or_invalid_transition m w)
unfolding or_invalid_transition
or_invalid_transition-Ends {A} {P} {E} m w h = by_end h
  where
    by_end :
        {p : Result Error A × World}
        → Ends P E p
        → Ends P E (elim p.0 as (λ _. Result Error A × World) [
          | ok a ↦ (ok a, p.1)
          | err _ ↦ (err invalid_transition, p.1)
        ])
    by_end (done k) = done k
    by_end (stopped k) = stopped k

-- Whatever fails on the way, `Settle` either leaves the tables as they were and returns an error, or
-- the payment that was read may become SETTLED by the state machine, its row was still at the version
-- that was read and is now SETTLED at the next one, the event of a settled payment is in the outbox,
-- and no other table has changed.
pub settle_all_or_nothing :
    (s : Service) (id : ℕ) (w : World)
    → Ends
        (λ t' w'. (t : Txn) × (find_txn id w.db.txns ≡ some t) × Settled t w.db w.clock t' w'.db)
        (λ w'. w'.db ≡ w.db)
        (settle s id w)
unfolding settle
settle_all_or_nothing s id w =
    bind _ _ _
      (imply (λ _ _ h. h) (λ _ at. at.at_db)
        (get_by_id-Kept {d = w.db} id
          (record { at_db = refl; at_clock = refl; at_effects = refl })))
      λ t w1 (found, at1).
        imply (λ t' w2 (p, _, _). (t, found, settled_from at1 p)) (λ w2 (d, _, _). d ∙ at1.at_db)
          (or_invalid_transition-Ends _ w1 (
            within_tx-Ends (Settled t w1.db w1.clock) (settle_body s t) w1
              (λ w2 at2. settle_body-Ends s t w2 at2)))
  where
    settled_from :
        {t t' : Txn} {d' : Db} {w1 : World}
        → At w.db w.clock w.effects w1
        → Settled t w1.db w1.clock t' d'
        → Settled t w.db w.clock t' d'
    settled_from {t} {t'} {d'} at p = subst₂ (λ d now. Settled t d now t' d') at.at_db at.at_clock p
