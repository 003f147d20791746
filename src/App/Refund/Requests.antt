-- ===== src/App/Refund/Requests.antt =====
-- What a refund request leaves (internal/app/refund/service.go).
use payment_service.Prelude.{ℕ, Bool, true, false, ◌≡◌, refl, ap, sym, ◌∙◌, some, List, is_some}
use payment_service.Prelude.Int.{ℤ, ◌+ℤ◌, IsInt64}
use payment_service.Domain.Transaction.{Txn, refund_pending, system}
use payment_service.Domain.Refund.{Refund}
use payment_service.Postgres.{World, Db, Effect, txn_error, within_tx}
use payment_service.Postgres.Refunds.{sum_active}
use mathlib.Core.Path.{subst}
use payment_service.Postgres.Atomic.{InTx, Unchanged, within_tx-Ends}
use payment_service.Domain.Transaction.Machine.Diagram.{transition_state-kept}
use payment_service.Postgres.Steps.{
  imply, Ends, done, stopped, bind, At, Stopped, gets-Ends, lift-Ends,
}
use payment_service.Postgres.Updates.{update_status-Ends, get_by_id-Kept}
use payment_service.App.Payment.Service.{Service}
use payment_service.App.Refund.{
  InitiateInput, begin_refund, initiate_refund, is_refundable_status, require_refundable,
}
use payment_service.App.Refund.Inserted.{Inserted, insert_refund-Ends}
use payment_service.Postgres.Transactions.Rows.{find_txn-id, find_txn-replaced}
use payment_service.Postgres.Transactions.{find_txn, replace_txn, updated_row}

-- The same, and the row of the payment is REFUND_PENDING.
pub record Begun (i : InitiateInput) (amount : ℤ) (rs : List Refund) (r : Refund) (d' : Db)
    : Type 0 where
  pub payments : List Txn
  pub pending : Txn
  pub is_inserted : Inserted i amount payments rs r d'
  pub row_after : find_txn i.transaction_id payments ≡ some pending
  pub pending_after : pending.status ≡ refund_pending

-- What a refund request leaves: the row that was read was refundable and is pending now, and the
-- refund stands within its amount.
abbrev pub Requested : InitiateInput → Db → Refund → Db → Type 0
Requested i d r d' =
    (parent : Txn) × (find_txn i.transaction_id d.txns ≡ some parent)
    × (is_refundable_status parent.status ≡ true)
    × Begun i parent.amount d.refunds r d'

-- The payment as it is after the update.
pending_row :
    (id : ℕ) (parent moved row : Txn) (now : ℤ) (ts : List Txn)
    → find_txn id ts ≡ some parent
    → moved.id ≡ parent.id
    → find_txn moved.id ts ≡ some row
    → find_txn id (replace_txn row.id (updated_row row moved now) ts)
      ≡ some (updated_row row moved now)
pending_row id parent moved row now ts found same held =
    let key : moved.id ≡ id = same ∙ find_txn-id id ts parent found in
    let own : row.id ≡ moved.id = find_txn-id moved.id ts row held in
    find_txn-replaced id row.id (updated_row row moved now) ts (own ∙ key) refl (ap is_some found)

pub begin_refund-Ends :
    (s : Service) (i : InitiateInput) (fresh : ℕ) (parent : Txn) {d : Db} {now : ℤ}
    {fx : List Effect} {w : World}
    → find_txn i.transaction_id d.txns ≡ some parent
    → IsInt64 (sum_active i.transaction_id d.refunds +ℤ i.amount)
    → At d now fx w
    → Ends
        (InTx (Begun i parent.amount d.refunds) now fx)
        (Stopped now fx)
        (begin_refund s i fresh parent w)
unfolding begin_refund
begin_refund-Ends s i fresh parent {d} {now} found fits at =
    bind _ _ _ (gets-Ends at (λ w. w.clock)) λ now1 w1 (_, at1).
      bind _ _ _ (lift-Ends txn_error _ at1) λ moved w2 (ok_moved, at2).
        bind _ _ _ (update_status-Ends moved at2) λ parent' w3 (row, held, _, next, at3).
          let (same, _, status, amount) =
            transition_state-kept parent refund_pending system now1 ok_moved in
          imply
            (λ r w' (p, c, e). (
              record {
                payments = _;
                pending = updated_row row moved now;
                is_inserted = rw (sym (amount_kept moved next amount)) p;
                row_after =
                    pending_row i.transaction_id parent moved row now d.txns found same held;
                pending_after = status;
              },
              c,
              e,
            ))
            (λ _ h. h) (insert_refund-Ends s i fresh parent' fits at3)
  where
    amount_kept :
        (moved : Txn) {parent' : Txn} {v : ℕ}
        → parent' ≡ record moved { version = v }
        → moved.amount ≡ parent.amount
        → parent'.amount ≡ parent.amount
    amount_kept moved e h = cc

pub require_refundable-Ends :
    {E : World → Type 0} (b : Bool) (w : World)
    → E w
    → Ends (λ _ w'. (b ≡ true) × (w' ≡ w)) E (require_refundable b w)
require_refundable-Ends true w h = done (refl, refl)
require_refundable-Ends false w h = stopped h

Unchanged-At :
    (w : World) {w2 : World}
    → At w.db w.clock w.effects w2
    → (w' : World) → Unchanged w2 w'
    → At w.db w.clock w.effects w'
Unchanged-At w at w' (d, c, e) = record {
  at_db = d ∙ at.at_db;
  at_clock = c ∙ at.at_clock;
  at_effects = e ∙ at.at_effects;
}

-- The transaction of a request, in a world that differs from the caller's in its faults only.
request_tx-Ends :
    (s : Service) (i : InitiateInput) (fresh : ℕ) (parent : Txn) (w w2 : World)
    → find_txn i.transaction_id w.db.txns ≡ some parent
    → IsInt64 (sum_active i.transaction_id w.db.refunds +ℤ i.amount)
    → At w.db w.clock w.effects w2
    → Ends
        (λ r w'. Begun i parent.amount w.db.refunds r w'.db)
        (At w.db w.clock w.effects)
        (within_tx (begin_refund s i fresh parent) w2)
request_tx-Ends s i fresh parent w w2 found fits at =
    imply (λ r w' (p, _, _). subst (λ d. Begun i parent.amount d.refunds r w'.db) at.at_db p)
      (Unchanged-At w at)
      (within_tx-Ends (Begun i parent.amount w2.db.refunds) (begin_refund s i fresh parent) w2
        (λ w3 at3. begin_refund-Ends s i fresh parent (rw at.at_db found) (rw at.at_db fits) at3))

initiate_refund-Ends :
    (s : Service) (i : InitiateInput) (fresh : ℕ) (w : World)
    → IsInt64 (sum_active i.transaction_id w.db.refunds +ℤ i.amount)
    → Ends
        (λ r w'. Requested i w.db r w'.db)
        (At w.db w.clock w.effects)
        (initiate_refund s i fresh w)
unfolding initiate_refund
initiate_refund-Ends s i fresh w fits =
    bind _ _ _
      (get_by_id-Kept i.transaction_id
        (record { at_db = refl; at_clock = refl; at_effects = refl }))
      λ parent w1 (e, at1).
        bind _ _ _ (require_refundable-Ends (is_refundable_status parent.status) w1 at1)
          λ _ w2 (may, same).
            imply (λ r w' p. (parent, e, may, p)) (λ _ h. h)
              (request_tx-Ends s i fresh parent w w2 e fits (rw same at1))

-- Whatever fails on the way, a refund request either leaves the tables, the clock and the outward
-- calls as they were and returns an error, or it found a payment in a refundable status, the payment is now
-- REFUND_PENDING, the refund is in the table, and all active refunds of the payment together stay within its amount. Condition:
-- the sum that the guard computes fits an int64 (`new_overflow` is about the other case).
pub initiate_refund_within_cap :
    (s : Service) (i : InitiateInput) (fresh : ℕ) (w : World)
    → IsInt64 (sum_active i.transaction_id w.db.refunds +ℤ i.amount)
    → Ends (λ r w'. Requested i w.db r w'.db) (Unchanged w) (initiate_refund s i fresh w)
initiate_refund_within_cap s i fresh w fits =
    imply (λ _ _ h. h) (λ _ at. (at.at_db, at.at_clock, at.at_effects))
      (initiate_refund-Ends s i fresh w fits)
