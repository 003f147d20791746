-- ===== src/App/Payment/Process/Recovery.antt =====
-- What the recovery of an expired lease leaves (internal/app/payment/process.go).
use payment_service.Prelude.{
  ℕ, Bool, true, false, ◌≡◌, refl, ap, ◌∙◌, ◌⊎◌, inl, inr, Option, none, some, String, Result, err,
  if◌then◌else◌,
}
use payment_service.Domain.Transaction.{Txn}
use payment_service.Ports.Gateway.{
  Adapter, CallError, typed, GatewayError, ErrorCategory, network_timeout, PaymentResponse,
  StatusRequest,
}
use payment_service.Postgres.{World, Db, Effect, emit, when}
use payment_service.Postgres.Steps.{Ends, done, stopped, bind, imply, gets-Ends}
use payment_service.Postgres.Updates.{get_by_id-Kept}
use payment_service.App.Payment.Outcome.{
  resolve_outcome, as_gateway_error, open_outcome, Outcome, is_gateway_health_failure,
}
use payment_service.App.Payment.Service.{
  Service, adapter_for, found_adapter, check_status, record_breaker, status_request,
}
use payment_service.App.Payment.Process.{
  recover_expired_lease, recover, recover_if, recovery_gateway, finish_recovery,
}

-- An answer that says nothing about the payment.
abbrev pub IsUndecided : Result CallError PaymentResponse → Type 0
IsUndecided reply =
    (e : GatewayError) × (reply ≡ err (typed e))
    × ((e.category ≡ ErrorCategory.ambiguous) ⊎ (e.category ≡ network_timeout))

record Same (d : Db) (w : World) : Type 0 where
  kept : w.db ≡ d

undecided-open :
    (code : String) (reply : Result CallError PaymentResponse)
    → IsUndecided reply
    → resolve_outcome (as_gateway_error code reply) ≡ open_outcome
unfolding resolve_outcome as_gateway_error
undecided-open code reply (e, same, inl h) = rw same (rw h refl)
undecided-open code reply (e, same, inr h) = rw same (rw h refl)

module _ {d : Db} {w : World} (same : Same d w) where
  found_adapter-Ends :
      (g : String) (o : Option Adapter)
      → Ends (λ a w'. (o ≡ some a) × Same d w') (Same d) (found_adapter g o w)
  found_adapter-Ends g none = stopped same
  found_adapter-Ends g (some a) = done (refl, same)

  emit-Ends : (x : Effect) → Ends (λ _ w'. Same d w') (Same d) (emit x w)
  emit-Ends x = done (record { kept = same.kept })

  told_if-Ends :
      (b c : Bool) (x y : Effect)
      → Ends (λ _ w'. Same d w') (Same d) (when b (if c then emit x else emit y) w)
  told_if-Ends true true x y = done (record { kept = same.kept })
  told_if-Ends true false x y = done (record { kept = same.kept })
  told_if-Ends false c x y = done same

  record_breaker-Ends :
      (s : Service) (g : String) (reply : Result GatewayError PaymentResponse)
      → Ends (λ _ w'. Same d w') (Same d) (record_breaker s g reply w)
  unfolding record_breaker
  record_breaker-Ends s g reply = told_if-Ends s.has_breaker (is_gateway_health_failure reply) _ _

  check_status-Ends :
      (a : Adapter) (t : Txn)
      → Ends
          (λ reply w'.
            (reply ≡ as_gateway_error "status_check_failed" (a.check_status (status_request t)))
            × Same d w')
          (Same d)
          (check_status a t w)
  unfolding check_status
  check_status-Ends a t = bind _ _ _ (emit-Ends _) λ _ w1 same1. done (refl, same1)

finish_recovery-Ends :
    {d : Db} {w : World} (s : Service) (t : Txn) (resp : Option PaymentResponse) (o : Outcome)
    → Same d w
    → o ≡ open_outcome
    → Ends (λ _ w'. Same d w') (Same d) (finish_recovery o s t resp w)
finish_recovery-Ends s t resp o same e = rw e (done same)

module _ (s : Service)
    (undecided : (g : String) (a : Adapter)
      → s.gateways g ≡ some a
      → (q : StatusRequest) → IsUndecided (a.check_status q)) where
  recover-Ends :
      {d : Db} {w : World} (t : Txn) → Same d w → Ends (λ _ w'. Same d w') (Same d) (recover s t w)
  unfolding recover adapter_for
  recover-Ends t same =
      bind _ _ _ (found_adapter-Ends same _ (s.gateways (recovery_gateway t))) λ a w1 (e1, same1).
        bind _ _ _ (check_status-Ends same1 a (record t { gateway_id = recovery_gateway t }))
          λ reply w2 (e2, same2).
            bind _ _ _ (record_breaker-Ends same2 s (recovery_gateway t) reply) λ _ w3 same3.
              finish_recovery-Ends s _ _ (resolve_outcome reply) same3
                (ap resolve_outcome e2 ∙ undecided-open _ _ (undecided _ a e1 _))

  recover_if-Ends :
      {d : Db} {w : World} (b : Bool) (t : Txn)
      → Same d w
      → Ends (λ _ w'. Same d w') (Same d) (recover_if b s t w)
  recover_if-Ends true t same = recover-Ends t same
  recover_if-Ends false t same = done same

  recover_expired_lease-Ends :
      (id : ℕ) (w : World) → Ends (λ _ w'. Same w.db w') (Same w.db) (recover_expired_lease s id w)
  unfolding recover_expired_lease
  recover_expired_lease-Ends id w =
      bind _ _ _
        (imply (λ _ _ h. h) (λ _ at. record { kept = at.at_db })
          (get_by_id-Kept {d = w.db} {now = w.clock} {fx = w.effects} id
            (record { at_db = refl; at_clock = refl; at_effects = refl })))
        λ t w1 (_, at1).
          bind _ _ _ (gets-Ends at1 (λ w. w.clock))
            λ now w2 (_, at2). recover_if-Ends _ t (record { kept = at2.at_db })

-- As long as every gateway answers a status check with an ambiguous error or a timeout, recovering
-- an expired lease changes no table, whatever the database does meanwhile.
pub recover_guesses_nothing :
    (s : Service)
    → ((g : String) (a : Adapter)
        → s.gateways g ≡ some a
        → (q : StatusRequest) → IsUndecided (a.check_status q))
    → (id : ℕ) (w : World)
    → Ends (λ _ w'. w'.db ≡ w.db) (λ w'. w'.db ≡ w.db) (recover_expired_lease s id w)
recover_guesses_nothing s undecided id w =
    imply (λ _ _ h. h.kept) (λ _ h. h.kept) (recover_expired_lease-Ends s undecided id w)
