-- ===== src/App/Payment/Leased/Drivers.antt =====
-- The handlers that drive a payment, while another call holds its lease
-- (internal/app/payment/service.go, process.go).
use payment_service.Prelude.{
  ℕ, Bool, true, false, ◌≡◌, refl, ◌∙◌, inl, inr, Bool-cases, List, Result,
}
use payment_service.Prelude.Int.{ℤ}
use payment_service.Domain.Transaction.{Txn, processing, authorized, pending, system, status_eq}
use payment_service.Domain.Transaction.Machine.Diagram.{transition_state-kept}
use payment_service.Postgres.{Action, World, Effect, Error, gets, txn_error}
use payment_service.Postgres.Leases.{has_lease, cached_for, acquire, read_cached}
use payment_service.Postgres.Steps.{Ends, done, stopped, bind, imply}
use payment_service.App.Payment.Service.{Service, adapter_for}
use payment_service.App.Payment.Process.{process_payment, process_if, begin_processing}
use payment_service.App.Payment.Attempt.{
  attempt_leased, begin_attempt, authorize, authorize_call, capture, capture_call, lease_ttl,
  is_manual,
}
use payment_service.App.Payment.Initiate.{FeeConfig, process_gateway_initiate, lease_then_initiate}
use payment_service.App.Payment.Leased.{
  Held, Silent, get_by_id-Held, db_call-Held, try_acquire_direct-Held, found_adapter-Held,
  or_invalid_transition-Held, within_tx-Held, lift-Held, update_status-Held,
}

module _ {id : ℕ} where
  begin_attempt-Held :
      (t : Txn) (now : ℤ) {fx : List Effect} (w : World)
      → t.id ≡ id
      → Held id fx w
      → Ends (λ a w'. (a.id ≡ id) × Held id fx w') (Held id fx) (begin_attempt t now w)
  unfolding begin_attempt
  begin_attempt-Held t now {fx} w own h =
      bind {M = λ _. Held id fx} (gets (λ w. w.clock)) _ w (done h) λ now1 w1 h1.
        bind _ _ _ (lift-Held txn_error _ w1 h1) λ moved w2 (ok_moved, h2).
          let (kept, _, _, _) = transition_state-kept t processing system now1 ok_moved in
          imply (λ t' w3 (same, h3). (same ∙ kept ∙ own, h3)) (λ _ k. k)
            (update_status-Held _ w2 h2)

  attempt_leased-Held :
      (call : Txn → Action Txn) (t : Txn) {fx : List Effect} (w : World)
      → t.id ≡ id
      → Held id fx w
      → Silent id fx (attempt_leased call id t w)
  unfolding attempt_leased
  attempt_leased-Held call t {fx} w own h =
      bind {M = λ _. Held id fx} (gets (λ w. w.clock)) _ w (done h) λ now w1 h1.
        bind _ _ _
          (or_invalid_transition-Held _ w1 (
            within_tx-Held (λ a. a.id ≡ id) (begin_attempt t now) w1 h1
              (λ w2 h2. begin_attempt-Held t now w2 own h2)))
          λ t' w3 (own', h3).
            bind _ _ _ (try_acquire_direct-Held t'.id t'.id (lease_ttl t') w3 own' h3)
              λ won w4 (lost, h4).
                rw lost (imply (λ _ _ (_, k). k) (λ _ k. k) (get_by_id-Held id w4 h4))

  authorize-Held :
      (s : Service) {fx : List Effect} (w : World) → Held id fx w → Silent id fx (authorize s id w)
  unfolding authorize
  authorize-Held s w h = bind _ _ _ (get_by_id-Held id w h) λ t w1 (own, h1).
      elim (Bool-cases (is_manual t.capture_mode)) [
        | inl may ↦ rw may (attempt_leased-Held (authorize_call s) t w1 own h1)
        | inr may_not ↦ rw may_not (stopped h1)
      ]

  capture-Held :
      (s : Service) {fx : List Effect} (w : World) → Held id fx w → Silent id fx (capture s id w)
  unfolding capture
  capture-Held s w h = bind _ _ _ (get_by_id-Held id w h) λ t w1 (own, h1).
      elim (Bool-cases (status_eq t.status authorized)) [
        | inl may ↦ rw may (attempt_leased-Held (capture_call s) t w1 own h1)
        | inr may_not ↦ rw may_not (stopped h1)
      ]

  lease_then_initiate-Held :
      {F : Type 0} (b : Bool) (s : Service) (c : FeeConfig F) (t : Txn) {fx : List Effect}
      (w : World)
      → t.id ≡ id
      → Held id fx w
      → Silent id fx (lease_then_initiate b s c t w)
  lease_then_initiate-Held false s c t w own h = done h
  lease_then_initiate-Held true s c t w own h =
      bind _ _ _ (try_acquire_direct-Held t.id t.id (lease_ttl t) w own h)
        λ won w1 (lost, h1). rw lost (done h1)

  process_gateway_initiate-Held :
      {F : Type 0} (s : Service) (c : FeeConfig F) {fx : List Effect} (w : World)
      → Held id fx w
      → Silent id fx (process_gateway_initiate s c id w)
  unfolding process_gateway_initiate
  process_gateway_initiate-Held s c w h =
      bind _ _ _ (get_by_id-Held id w h)
        λ t w1 (own, h1). lease_then_initiate-Held _ s c t w1 own h1

  read_cached-Held :
      (key : ℕ) {fx : List Effect} (w : World)
      → Held id fx w
      → Ends (λ a w'. (a.0 ≡ false) × Held id fx w') (Held id fx) (read_cached false key w)
  read_cached-Held key {fx} w h = bind _ _ _ (db_call-Held w h) λ _ w1 h1.
      bind {M = λ _. Held id fx} (gets (λ w. cached_for key w.db.leases)) _ w1 (done h1)
        λ _ w2 h2. done (refl, h2)

  -- The transaction of `ProcessPayment`: the lease is not won.
  begin_processing-Held :
      (t : Txn) {fx : List Effect} (w : World)
      → t.id ≡ id
      → Held id fx w
      → Ends (λ a w'. (a.0 ≡ false) × Held id fx w') (Held id fx) (begin_processing t w)
  unfolding begin_processing acquire
  begin_processing-Held t {fx} w own h =
      bind {M = λ a w'. (a.0 ≡ false) × Held id fx w'} _ _ w
        (bind _ _ _ (try_acquire_direct-Held t.id t.id t.estimated_timeout_seconds w own h)
          λ won w1 (lost, h1). rw lost (read_cached-Held t.id w1 h1))
        λ a w2 (lost, h2).
          rw lost (bind _ _ _ (get_by_id-Held t.id w2 h2) λ current w3 (_, h3). done (refl, h3))

  process_if-Held :
      (b : Bool) (s : Service) (t : Txn) {fx : List Effect} (w : World)
      → t.id ≡ id
      → Held id fx w
      → Silent id fx (process_if b s t w)
  unfolding adapter_for
  process_if-Held false s t w own h = done h
  process_if-Held true s t w own h =
      bind _ _ _ (found_adapter-Held t.gateway_id (s.gateways t.gateway_id) w h) λ a w1 h1.
        bind _ _ _
          (within_tx-Held (λ b. b.0 ≡ false) (begin_processing t) w1 h1
            (λ w2 h2. begin_processing-Held t w2 own h2))
          λ begun w3 (lost, h3). rw lost (done h3)

  process_payment-Held :
      (s : Service) {fx : List Effect} (w : World)
      → Held id fx w
      → Silent id fx (process_payment s id w)
  unfolding process_payment
  process_payment-Held s w h =
      bind _ _ _ (get_by_id-Held id w h)
        λ t w1 (own, h1). process_if-Held (status_eq t.status pending) s t w1 own h1

-- A call of one of the four handlers that drive a payment.
pub data Driver (F : Type 0) : Type 0 where
  processing_event : Driver F
  initiation : FeeConfig F → Driver F
  authorization capturing : Driver F

abbrev pub effects_of : {F : Type 0} → Driver F → Service → ℕ → World → List Effect
effects_of processing_event s id w = (process_payment s id w).1.effects
effects_of (initiation c) s id w = (process_gateway_initiate s c id w).1.effects
effects_of authorization s id w = (authorize s id w).1.effects
effects_of capturing s id w = (capture s id w).1.effects

Silent-effects :
    {A : Type 0} {id : ℕ} {fx : List Effect} {p : Result Error A × World}
    → Silent id fx p
    → p.1.effects ≡ fx
Silent-effects (done h) = h.silent
Silent-effects (stopped h) = h.silent

-- While the lease of a payment is held, none of the handlers that drive a payment to its gateway
-- (`ProcessPayment`, `ProcessGatewayInitiate`, `Authorize`, `Capture`) makes any call that leaves the
-- database, whatever the payment's state is and whatever fails: no call to a gateway, so none that
-- could charge the payer twice.
pub held_lease_is_silent :
    {F : Type 0} (driver : Driver F) (s : Service) (id : ℕ) (w : World)
    → has_lease id w.db.leases ≡ true
    → effects_of driver s id w ≡ w.effects
held_lease_is_silent processing_event s id w h =
    Silent-effects (process_payment-Held s w (record { held = h; silent = refl }))
held_lease_is_silent (initiation c) s id w h =
    Silent-effects (process_gateway_initiate-Held s c w (record { held = h; silent = refl }))
held_lease_is_silent authorization s id w h =
    Silent-effects (authorize-Held s w (record { held = h; silent = refl }))
held_lease_is_silent capturing s id w h =
    Silent-effects (capture-Held s w (record { held = h; silent = refl }))
