-- ===== src/App/Refund/Covered/Run.antt =====
-- The runs of refunds keep the sums of the active refunds (internal/app/refund/process.go).
use payment_service.Prelude.{
  ℕ, Bool, true, false, ◌≡◌, refl, Option, none, some, String, Result, ok, err,
}
use payment_service.Prelude.Int.{ℤ}
use payment_service.Domain.Transaction.{Txn}
use payment_service.Domain.Refund.{Refund}
use payment_service.Ports.Gateway.{Adapter, GatewayError, RefundResponse}
use payment_service.Postgres.{Action, World, ◌>>=◌, within_tx}
use payment_service.Postgres.Refunds
use payment_service.Postgres.Refunds.{find_refund}
use payment_service.Postgres.Steps.{Ends, done, stopped, bind, imply, gets-Ends, db_call-Kept}
use payment_service.Postgres.Updates.{get_by_id-Kept}
use payment_service.Postgres.Kept.{within_tx-Leaves}
use payment_service.App.Payment.Service.{Service, adapter_for, found_adapter}
use payment_service.App.Refund.{
  RefundOutcome, open_refund, ended, call_gateway, resolve_refund_outcome,
}
use payment_service.App.Refund.Process.{
  settle_outcome, with_reply, after_claim, run_refund, run_if, process_refund, retry_stale_refund,
}
use payment_service.App.Refund.Covered.{IsCovered, Covers}
use payment_service.App.Refund.Covered.Updates.{
  Drives, Claimed, update_status-Covers, claim_processing-Covers,
}
use payment_service.App.Refund.Covered.Ended.{
  Stays, StaysInTx, here, end_refund-Covers, audited-Covers,
}

pub tx-Stays :
    {A : Type 0} {amount_of : ℕ → ℤ} (w : World) (body : Action A)
    → Covers amount_of w
    → ((w' : World) → w'.db ≡ w.db → StaysInTx amount_of (body w'))
    → Stays amount_of (within_tx body w)
tx-Stays {amount_of} w body c h =
    imply (λ _ _ left. left.tables) (λ _ held. rw held.same_db c)
      (within_tx-Leaves (λ _. IsCovered amount_of) body w
        λ w' held. imply (λ _ _ k. record { tables = k }) (λ _ _. tt) (h w' held.same_db))

adapter-Stays :
    {amount_of : ℕ → ℤ} (w : World) (s : Service) (name : String)
    → Covers amount_of w
    → Ends (λ _ w'. w' ≡ w) (Covers amount_of) (adapter_for s name w)
unfolding adapter_for
adapter-Stays {amount_of} w s name c = by_found (s.gateways name)
  where
    by_found :
        (o : Option Adapter) → Ends (λ _ w'. w' ≡ w) (Covers amount_of) (found_adapter name o w)
    by_found none = stopped c
    by_found (some a) = done refl

pub refund_read-Stays :
    {amount_of : ℕ → ℤ} (w : World) (id : ℕ)
    → Covers amount_of w
    → Stays amount_of (Refunds.get_by_id id w)
unfolding Refunds.get_by_id
refund_read-Stays {amount_of} w id c =
    bind _ _ _ (imply (λ _ _ at. at) (λ _ at. rw at.at_db c) (db_call-Kept (here w))) λ _ w1 at1.
      bind _ _ _ (gets-Ends at1 (λ w. find_refund id w.db.refunds))
        λ o w2 (_, at2). by_found o w2 (rw at2.at_db c)
  where
    by_found :
        (o : Option Refund) (w : World)
        → Covers amount_of w
        → Stays amount_of (Refunds.or_raise_not_found o w)
    by_found none w c = stopped c
    by_found (some r) w c = done c

with_reply-id :
    (reply : Result GatewayError RefundResponse) (r : Refund) → (with_reply reply r).id ≡ r.id
unfolding with_reply
with_reply-id (ok reply) r = refl
with_reply-id (err e) r = refl

module _ {amount_of : ℕ → ℤ} (w : World) (s : Service) where
  settle_outcome-Stays :
      (r : Refund) (parent : Txn) (o : RefundOutcome)
      → Drives amount_of r.id w.db
      → Stays amount_of (settle_outcome s r parent o w)
  unfolding settle_outcome
  settle_outcome-Stays r parent open_refund drives = tx-Stays w _ drives.covered λ w' e.
      update_status-Covers r drives (record { at_db = e; at_clock = refl; at_effects = refl })
  settle_outcome-Stays r parent (ended status reason) drives =
      bind _ _ _
        (tx-Stays w _ drives.covered λ w' e. end_refund-Covers w' s r parent status reason drives e)
        λ r' w1 c1. bind _ _ _ (audited-Covers w1 c1 s.has_audit _) λ _ w2 c2. done c2

call_gateway-Ends :
    {E : World → Type 0} (a : Adapter) (r : Refund) (parent : Txn) (w : World)
    → Ends (λ _ w'. w'.db ≡ w.db) E (call_gateway a r parent w)
unfolding call_gateway ◌>>=◌
call_gateway-Ends a r parent w = done refl

module _ {amount_of : ℕ → ℤ} (w : World) (s : Service) where
  after_claim-Stays :
      (a : Adapter) (parent : Txn) (b : Bool) (r : Refund) (id : ℕ)
      → Claimed amount_of id (b, r) w
      → Stays amount_of (after_claim s a parent b r w)
  unfolding after_claim
  after_claim-Stays a parent false r id (c, _) = refund_read-Stays w r.id c
  after_claim-Stays a parent true r id (c, h) =
      let (same, drives) = h refl in
      bind _ _ _ (call_gateway-Ends a r parent w) λ reply w1 e.
        settle_outcome-Stays w1 s (with_reply reply r) parent (resolve_refund_outcome reply)
          (rw (e, with_reply-id reply r, same) drives)

module _ {amount_of : ℕ → ℤ} (w : World) (s : Service) where
  run_refund-Stays : (r : Refund) → Covers amount_of w → Stays amount_of (run_refund s r w)
  unfolding run_refund
  run_refund-Stays r c =
      bind _ _ _
        (imply (λ _ _ h. h) (λ _ at. rw at.at_db c) (get_by_id-Kept r.transaction_id (here w)))
        λ parent w1 (_, at1).
          bind _ _ _ (adapter-Stays w1 s r.attempted_gateway (rw at1.at_db c)) λ a w2 same.
            bind _ _ _ (claim_processing-Covers {d = w2.db} r (rw (same, at1.at_db) c) (here w2))
              λ claim w3 claimed. after_claim-Stays w3 s a parent claim.0 claim.1 r.id claimed

  run_if-Stays : (b : Bool) (r : Refund) → Covers amount_of w → Stays amount_of (run_if b s r w)
  run_if-Stays true r c = run_refund-Stays r c
  run_if-Stays false r c = done c

module _ {amount_of : ℕ → ℤ} (w : World) (s : Service) where
  -- Driving a refund, whatever the gateway says.
  pub process_refund-Stays : (id : ℕ) → Covers amount_of w → Stays amount_of (process_refund s id w)
  unfolding process_refund
  process_refund-Stays id c =
      bind _ _ _ (refund_read-Stays w id c) λ r w1 c1. run_if-Stays w1 s _ r c1

  pub retry_stale_refund-Stays :
      (id : ℕ) → Covers amount_of w → Stays amount_of (retry_stale_refund s id w)
  unfolding retry_stale_refund
  retry_stale_refund-Stays id c =
      bind _ _ _ (refund_read-Stays w id c) λ r w1 c1. run_if-Stays w1 s _ r c1
