-- ===== src/Domain/Transaction/Machine.antt =====
-- internal/domain/transaction/state_machine.go: the transition table and `TransitionState`.
pub mod Diagram
pub mod Traces
use payment_service.Prelude.{
  ◌≡◌, Bool, true, false, not, ◌&&◌, ◌||◌, Option, none, some, List, [], ◌∷◌, contains,
  if◌then◌else◌, Result, ok, err,
}
use payment_service.Prelude.Int.{ℤ}
use payment_service.Domain.Transaction.{
  Status, pending, processing, authorized, captured, settled, failed, cancelled, refund_pending,
  partially_refunded, refunded, refund_failed, disputed, status_eq, Actor, Txn, TxnError,
  nil_transaction, cancel_intent_required, invalid_transition,
}

-- `none` would be a status with no row; every status has one.
unfoldable pub transition_table : Status → Option (List Status)
transition_table pending = some (processing ∷ authorized ∷ captured ∷ failed ∷ cancelled ∷ [])
transition_table processing = some (captured ∷ authorized ∷ failed ∷ cancelled ∷ [])
transition_table authorized = some (processing ∷ captured ∷ failed ∷ cancelled ∷ [])
transition_table captured =
    some (settled ∷ refund_pending ∷ refunded ∷ refund_failed ∷ disputed ∷ [])
transition_table settled = some (refund_pending ∷ refunded ∷ refund_failed ∷ disputed ∷ [])
transition_table failed = some (cancelled ∷ [])
transition_table refund_pending = some (refunded ∷ refund_failed ∷ partially_refunded ∷ [])
transition_table partially_refunded = some (refund_pending ∷ refunded ∷ refund_failed ∷ [])
transition_table refunded = some []
transition_table refund_failed = some (refund_pending ∷ [])
transition_table disputed = some (captured ∷ refunded ∷ [])
transition_table cancelled = some []

unfoldable pub is_valid_transition : Status → Status → Bool
unfolding transition_table
is_valid_transition from to = elim (transition_table from) [
  | none ↦ false
  | some allowed ↦ contains status_eq allowed to
]

-- Leaving PROCESSING for a resolved status gives the lease fields back.
unfoldable pub apply_transition_effects : Txn → Status → Status → Txn
apply_transition_effects tx from to =
    if (status_eq to failed
        || status_eq to cancelled
        || status_eq to captured
        || status_eq to settled
        || status_eq to authorized)
      && status_eq from processing
    then record tx { processing_started_at = none; processing_timeout = none }
    else tx

unfoldable pub transition_state : Option Txn → Status → Actor → ℤ → Result TxnError Txn
unfolding is_valid_transition apply_transition_effects
transition_state none to actor now = err nil_transaction
transition_state (some tx) to actor now =
    if not (is_valid_transition tx.status to)
    then err (invalid_transition tx.status to actor)
    else (if status_eq tx.status failed && status_eq to cancelled && not tx.cancel_intent
        then err cancel_intent_required
        else ok
            (apply_transition_effects (record tx { status = to; updated_at = now }) tx.status to))

unfoldable pub valid_transitions_from : Status → List Status
unfolding transition_table
valid_transitions_from s = elim (transition_table s) [ none ↦ [] | some result ↦ result ]

unfoldable pub all_statuses : List Status
all_statuses =
    pending ∷ processing ∷ authorized ∷ captured ∷ settled ∷ failed ∷ cancelled ∷ refund_pending
    ∷ partially_refunded ∷ refunded ∷ refund_failed ∷ disputed ∷ []
