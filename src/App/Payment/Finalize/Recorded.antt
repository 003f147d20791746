-- ===== src/App/Payment/Finalize/Recorded.antt =====
-- What `finalize` leaves (internal/app/payment/gateway.go).
use payment_service.Prelude.{
  Bool, true, false, ◌≡◌, refl, ap, ◌∙◌, Option, none, List, ◌∷◌, if◌then◌else◌,
}
use payment_service.Domain.Transaction.{Txn, Status, FailureReason, captured}
use payment_service.Ports.Gateway.{PaymentResponse}
use payment_service.Postgres.{World, Db, Effect, published, intent_exited, when, emit}
use payment_service.Postgres.Steps.{Ends, done, bind}
use payment_service.Postgres.Atomic.{Unchanged}
use payment_service.App.Payment.Outcome.{terminal}
use payment_service.App.Payment.Service.{Service, exit_intent}
use payment_service.App.Payment.Finalize.{
  finalize, with_response, cached_response, after_commit, resolve_cancel_if_requested, run_resolver,
}
use payment_service.App.Payment.Finalize.Commit.{Committed, commit-Ends}

-- The calls that leave the process after the commit, before those in `fx`.
abbrev pub effects_after : Service → Txn → Status → List Effect → List Effect
effects_after s t status fx =
    let told = if s.has_bus then published t.id status ∷ fx else fx in
    if s.has_intents then intent_exited t.gateway_id t.id ∷ told else told

-- The payment as `finalize` takes it into its transaction.
abbrev pub finalized : Txn → Option PaymentResponse → Txn
finalized txn resp = record (with_response resp txn) { actual_gateway = txn.gateway_id }

-- The transaction's tables stand, and the world has been told of them.
abbrev pub Finalized :
    Service
    → Txn
    → Option PaymentResponse
    → Status
    → Option FailureReason
    → World
    → Txn
    → World
    → Type 0
Finalized s txn resp status reason w t w' =
    Committed (finalized txn resp) status reason
      (cached_response (finalized txn resp) (terminal status reason)) w.db w.clock t w'.db
    × (w'.effects ≡ effects_after s t status w.effects)

abbrev pub Told : Db → List Effect → Unit {0} → World → Type 0
Told d fx _ w' = (w'.db ≡ d) × (w'.effects ≡ fx)

pub report-Ends :
    {E : World → Type 0} (b : Bool) (x : Effect) (d : Db) (fx : List Effect) (w : World)
    → (w.db ≡ d) × (w.effects ≡ fx)
    → Ends (Told d (if b then x ∷ fx else fx)) E (when b (emit x) w)
report-Ends true x d fx w (e, k) = done (e, ap (λ l. x ∷ l) k)
report-Ends false x d fx w h = done h

pub after_commit-Ends :
    {E : World → Type 0} (s : Service) (t : Txn) (status : Status) (reason : Option FailureReason)
    (w : World)
    → Ends
        (Told w.db (effects_after s t status w.effects))
        E
        (after_commit s t (terminal status reason) w)
unfolding after_commit exit_intent
after_commit-Ends s t status reason w =
    bind _ _ _ (report-Ends s.has_bus (published t.id status) w.db w.effects w (refl, refl))
      λ _ w1 h. report-Ends s.has_intents (intent_exited t.gateway_id t.id) _ _ w1 h

pub unless_captured-Ends :
    {E : World → Type 0} (s : Service) (t : Txn) (status : Status) (reason : Option FailureReason)
    (w : World)
    → s.cancel_resolver ≡ none
    → Ends (Told w.db w.effects) E (resolve_cancel_if_requested s t (terminal status reason) w)
unfolding resolve_cancel_if_requested
unless_captured-Ends s t captured reason w e = rw e (unresolved t.cancel_intent)
  where
    unresolved :
        {E : World → Type 0} (b : Bool)
        → Ends (Told w.db w.effects) E (when b (run_resolver none t) w)
    unresolved true = done (refl, refl)
    unresolved false = done (refl, refl)
unless_captured-Ends s t _ reason w e = done (refl, refl)

-- Whatever fails on the way, finalizing a payment with a terminal outcome either leaves every table,
-- the clock and the outward calls as they were and returns an error, or returns the payment with the
-- row, the outbox events and the cached response written together at the version that the caller
-- read, and the bus and the intent tracker told exactly then. Condition: no cancel resolver is set.
pub finalize_all_or_nothing :
    (s : Service) (txn : Txn) (resp : Option PaymentResponse) (status : Status)
    (reason : Option FailureReason) (w : World)
    → s.cancel_resolver ≡ none
    → Ends
        (Finalized s txn resp status reason w)
        (Unchanged w)
        (finalize s txn resp (terminal status reason) w)
unfolding finalize
finalize_all_or_nothing s txn resp status reason w e =
    bind _ _ _ (commit-Ends s (finalized txn resp) status reason _ w) λ t w1 (c, _, fx).
      bind _ _ _ (after_commit-Ends s t status reason w1) λ _ w2 (d2, fx2).
        bind _ _ _ (unless_captured-Ends s t status reason w2 e)
          λ _ w3 (d3, fx3). done (rw (d3 ∙ d2) c, fx3 ∙ fx2 ∙ ap (effects_after s t status) fx)
