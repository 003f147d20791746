-- ===== src/App/Cancel/Requests.antt =====
-- What a request to cancel leaves (internal/app/cancel/service.go).
use payment_service.Prelude.{
  ℕ, Bool, true, false, not, ◌&&◌, ◌==◌, ◌≡◌, refl, sym, ap, ◌∙◌, inl, inr, Bool-cases, some,
  is_some, List, subst, arith,
}
use payment_service.Prelude.Int.{ℤ}
use payment_service.Domain.Transaction.{Txn, Status, is_terminal}
use payment_service.Domain.Transaction
use payment_service.Ports.Responses.{CancelOutcome, requested, already_terminal}
use payment_service.Postgres.{World, Db, Effect, AuditEntry, ◌>>◌, pure, when, gets}
use payment_service.Postgres.Transactions.{find_txn, replace_txn, put_txn, write_audit}
use payment_service.Postgres.Transactions.Rows.{find_txn-id, find_txn-replaced}
use payment_service.Postgres.Transactions.Writes.{set_cancel_intent}
use payment_service.Postgres.Steps.{Ends, done, stopped, bind, imply, At, db_call-Kept}
use payment_service.Postgres.Updates.{get_by_id-Kept}
use payment_service.Postgres.Kept.{Holds, Leaves}
use payment_service.App.Cancel.{CancelInput, cancel_payment, cancel_owned, cancel_open}

-- The row of a payment carries the mark, and is otherwise at the same version and status.
abbrev pub Marked : ℕ → Txn → List Txn → Type 0
Marked id t ts =
    (t' : Txn) × (find_txn id ts ≡ some t')
    × (t'.cancel_intent ≡ true)
    × (t'.version ≡ t.version)
    × (t'.status ≡ t.status)

-- What an answer says of the tables.
abbrev pub ByOutcome : CancelOutcome → ℕ → Txn → Db → Db → Type 0
ByOutcome already_terminal id t d d' = (is_terminal t.status ≡ true) × (d' ≡ d)
ByOutcome requested id t d d' = (is_terminal t.status ≡ false) × Marked id t d'.txns

abbrev pub Cancelled : ℕ → Db → CancelOutcome × Status → Db → Type 0
Cancelled id d a d' =
    (t : Txn) × (find_txn id d.txns ≡ some t) × (a.1 ≡ t.status) × ByOutcome a.0 id t d d'

module _ (d : Db) (id : ℕ) (t : Txn) (found : find_txn id d.txns ≡ some t)
    (unmarked : t.cancel_intent ≡ false) where
  Marked-row :
      (by : Transaction.Actor) (via : Transaction.CancelVia) (now : ℤ) (ts : List Txn)
      → ts ≡ replace_txn t.id (Transaction.set_cancel_intent t by via now) d.txns
      → Marked id t ts
  unfolding Transaction.set_cancel_intent
  Marked-row by via now ts e = (
    Transaction.set_cancel_intent t by via now,
    ap (find_txn id) e
        ∙ find_txn-replaced id t.id (Transaction.set_cancel_intent t by via now) d.txns
            (find_txn-id id d.txns t found) refl (ap is_some found),
    refl,
    refl,
    refl,
  )

  put-Marked-Ends :
      (by : Transaction.Actor) (via : Transaction.CancelVia) (now2 : ℤ) {now : ℤ} {fx : List Effect}
      {w : World}
      → At d now fx w
      → Ends
          (λ _. Leaves (λ _ d'. Marked id t d'.txns) tt)
          (Holds d)
          ((put_txn (Transaction.set_cancel_intent t by via now2) >> pure true) w)
  unfolding Transaction.set_cancel_intent
  put-Marked-Ends by via now2 {w} at =
      bind {M = λ _. Leaves (λ _ d'. Marked id t d'.txns) tt}
        (put_txn (Transaction.set_cancel_intent t by via now2)) _ w
        (done (record {
          tables = Marked-row by via now2 _ (
              ap (λ d. replace_txn t.id (Transaction.set_cancel_intent t by via now2) d.txns)
                at.at_db);
        }))
        λ _ w1 h. done h

  set_cancel_intent-Ends :
      (by : Transaction.Actor) (via : Transaction.CancelVia) {now : ℤ} {fx : List Effect}
      {w : World}
      → At d now fx w
      → Ends
          (λ _. Leaves (λ _ d'. Marked id t d'.txns) tt)
          (Holds d)
          (set_cancel_intent id by via w)
  unfolding set_cancel_intent Transaction.set_cancel_intent
  set_cancel_intent-Ends by via {now} {fx} at =
      bind _ _ _ (imply (λ _ _ h. h) (λ _ at. record { same_db = at.at_db }) (db_call-Kept at))
        λ _ w1 at1. bind {M = λ _. At d now fx} (gets (λ w. w.clock)) _ w1 (done at1) λ now2 w2 at2.
          bind {M = λ o w'. (o ≡ some t) × At d now fx w'} (gets (λ w. find_txn id w.db.txns)) _ w2
            (done (ap (λ d. find_txn id d.txns) at2.at_db ∙ found, at2))
            λ o w3 (e, at3). rw e (rw unmarked (put-Marked-Ends by via now2 at3))

write_audit_db : (x : AuditEntry) (w : World) → (write_audit x w).1.db ≡ w.db
unfolding write_audit
write_audit_db x w = ground arith

audit_when-Ends :
    {P : Db → Type 0} {E : World → Type 0} {w : World} (b c : Bool) (x : AuditEntry)
    → Leaves (λ _. P) tt w
    → Ends (λ _. Leaves (λ _. P) tt) E (when b (when c (write_audit x)) w)
audit_when-Ends false c x h = done h
audit_when-Ends true false x h = done h
audit_when-Ends {P} {w = w} true true x h =
    unfold write_audit in done (record { tables = subst P (sym (write_audit_db x w)) h.tables })

cancel_open-Ends :
    (has_audit : Bool) (i : CancelInput) (t : Txn) {d : Db} {now : ℤ} {fx : List Effect} {w : World}
    → find_txn i.transaction_id d.txns ≡ some t
    → At d now fx w
    → Ends (Leaves (Cancelled i.transaction_id d)) (Holds d) (cancel_open has_audit i t w)
cancel_open-Ends has_audit i t {d} found at = elim (Bool-cases (is_terminal t.status)) [
  | inl over ↦ rw over (done (record { tables = (t, found, refl, (over, at.at_db)) }))
  | inr still ↦ elim (Bool-cases t.cancel_intent) [
    | inl was ↦ rw still (
        rw was (
          done (record {
            tables = (
              t,
              found,
              refl,
              (
                still,
                (t, ap (λ d. find_txn i.transaction_id d.txns) at.at_db ∙ found, was, refl, refl),
              ),
            );
          })))
    | inr not_yet ↦ rw still (
        rw not_yet (
          bind _ _ _ (set_cancel_intent-Ends d i.transaction_id t found not_yet i.by i.via at)
            λ b w1 h1.
              bind _ _ _ (audit_when-Ends b has_audit _ h1)
                λ _ w2 h2. done (record { tables = (t, found, refl, (still, h2.tables)) })))
  ]
]

-- Whatever fails on the way, a request to cancel that returns an error leaves the tables as they
-- were; one that is answered ALREADY_TERMINAL found the payment in a terminal status and leaves the
-- tables as they were; one that is answered CANCEL_REQUESTED found it in a status that is not
-- terminal and leaves it marked, at the version and in the status that it had. The status that is
-- returned is the payment's.
pub cancel_payment-Cancelled :
    (has_audit : Bool) (i : CancelInput) (w : World)
    → Ends (Leaves (Cancelled i.transaction_id w.db)) (Holds w.db) (cancel_payment has_audit i w)
unfolding cancel_payment
cancel_payment-Cancelled has_audit i w =
    bind _ _ _
      (imply (λ _ _ h. h) (λ _ at. record { same_db = at.at_db })
        (get_by_id-Kept {d = w.db} i.transaction_id
          (record { at_db = refl; at_clock = refl; at_effects = refl })))
      λ t w1 (found, at1).
        by_owner (not (i.tenant_id == 0) && not (t.tenant_id == i.tenant_id)) t found at1
  where
    by_owner :
        (foreign : Bool) (t : Txn) {w1 : World}
        → find_txn i.transaction_id w.db.txns ≡ some t
        → At w.db w.clock w.effects w1
        → Ends
            (Leaves (Cancelled i.transaction_id w.db))
            (Holds w.db)
            (cancel_owned foreign has_audit i t w1)
    by_owner true t found at = stopped (record { same_db = at.at_db })
    by_owner false t found at = cancel_open-Ends has_audit i t found at
