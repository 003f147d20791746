-- ===== src/Domain/Transaction/Machine/Traces.antt =====
-- What holds of any sequence of transitions (internal/domain/transaction/state_machine.go).
use mathlib.Core.List.{Memᴰ}
use payment_service.Prelude.{
  ◌≡◌, refl, sym, ◌≢◌, ◌⊎◌, inl, inr, Bool, true, false, none, some, List, [], ◌∷◌, Result, ok, err,
  arith,
}
use payment_service.Prelude.Int.{ℤ}
use payment_service.Domain.Transaction.{
  Status, processing, captured, settled, cancelled, refund_pending, partially_refunded, refunded,
  refund_failed, disputed, Actor, Txn, is_terminal, TxnError,
}
use payment_service.Domain.Transaction.Machine.{transition_state}

-- A request for a transition, at a time.
pub record Request : Type 0 where
  pub target : Status
  pub actor : Actor
  pub at : ℤ

abbrev after : Txn → Result TxnError Txn → Txn
after tx (ok tx') = tx'
after tx (err _) = tx

-- One request; a refused one leaves the payment as it was.
unfoldable pub request : Txn → Request → Txn
request tx r = after tx (transition_state (some tx) r.target r.actor r.at)

unfoldable pub run : Txn → List Request → Txn
run tx [] = tx
run tx (r ∷ rs) = run (request tx r) rs

-- A payment that is not PROCESSING holds no lease fields.
abbrev pub IsLeaseConsistent : Txn → Type 0
IsLeaseConsistent tx =
    tx.status ≢ processing → (tx.processing_started_at ≡ none) × (tx.processing_timeout ≡ none)

request-IsLeaseConsistent :
    (tx : Txn) (r : Request) → IsLeaseConsistent tx → IsLeaseConsistent (request tx r)
unfolding request transition_state
request-IsLeaseConsistent tx r h = ground arith

-- A payment whose lease fields are set only while it is PROCESSING stays so over every sequence of
-- transition requests.
pub run-IsLeaseConsistent :
    (tx : Txn) (rs : List Request) → IsLeaseConsistent tx → IsLeaseConsistent (run tx rs)
unfolding run
run-IsLeaseConsistent tx [] h = h
run-IsLeaseConsistent tx (r ∷ rs) h =
    run-IsLeaseConsistent (request tx r) rs (request-IsLeaseConsistent tx r h)

-- The statuses of a payment whose money was taken.
abbrev pub is_taken : Status → Bool
is_taken captured = true
is_taken settled = true
is_taken refund_pending = true
is_taken partially_refunded = true
is_taken refunded = true
is_taken refund_failed = true
is_taken disputed = true
is_taken _ = false

abbrev pub targets : List Request → List Status
targets [] = []
targets (r ∷ rs) = r.target ∷ targets rs

request_taken :
    (tx : Txn) (r : Request)
    → is_taken tx.status ≡ false
    → (r.target ≡ captured) ⊎ (is_taken (request tx r).status ≡ false)
unfolding request transition_state
request_taken tx r h = ground arith

-- A payment that was not captured yet is refunded, settled or disputed by a sequence of requests
-- only if the sequence has a request for CAPTURED.
pub refund_needs_capture :
    (tx : Txn) (rs : List Request)
    → is_taken tx.status ≡ false
    → is_taken (run tx rs).status ≡ true
    → Memᴰ captured (targets rs)
unfolding run
refund_needs_capture tx [] h t = cc
refund_needs_capture tx (r ∷ rs) h t = elim (request_taken tx r h) [
  | inl e ↦ Memᴰ.head (sym e)
  | inr n ↦ Memᴰ.tail (refund_needs_capture (request tx r) rs n t)
]

request_terminal :
    (tx : Txn) (r : Request)
    → is_terminal tx.status ≡ true
    → is_terminal (request tx r).status ≡ true
unfolding request transition_state is_terminal
request_terminal tx r h = ground arith

request_final :
    (tx : Txn) (r : Request) → (tx.status ≡ cancelled) ⊎ (tx.status ≡ refunded) → request tx r ≡ tx
unfolding request transition_state
request_final tx r h = ground arith

run_final :
    (tx : Txn) (rs : List Request)
    → (tx.status ≡ cancelled) ⊎ (tx.status ≡ refunded)
    → run tx rs ≡ tx
unfolding run
run_final tx [] h = refl
run_final tx (r ∷ rs) h = rw (request_final tx r h) (run_final tx rs h)

run_still_terminal :
    (tx : Txn) (rs : List Request)
    → is_terminal tx.status ≡ true
    → is_terminal (run tx rs).status ≡ true
unfolding run
run_still_terminal tx [] h = h
run_still_terminal tx (r ∷ rs) h = run_still_terminal (request tx r) rs (request_terminal tx r h)

-- Once a payment can no longer be cancelled (`is_terminal`), no sequence of requests makes it
-- cancellable again; and a cancelled or refunded payment is not changed at all.
run_terminal :
    (tx : Txn) (rs : List Request)
    → (is_terminal tx.status ≡ true → is_terminal (run tx rs).status ≡ true)
      × ((tx.status ≡ cancelled) ⊎ (tx.status ≡ refunded) → run tx rs ≡ tx)
run_terminal tx rs = (run_still_terminal tx rs, run_final tx rs)
