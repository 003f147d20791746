-- ===== src/App/Refund/Covered/Guarded.antt =====
-- The requests that go through the idempotency guard, and the refund of a payment that was to be
-- cancelled (internal/app/refund/service.go, process.go).
use payment_service.Prelude.{
  ℕ, Bool, true, false, ◌≡◌, refl, Option, none, some, List, String, str_eq, Result, err,
}
use payment_service.Prelude.Int.{ℤ}
use payment_service.Domain.Transaction.{Txn}
use payment_service.Domain.Refund.{Refund, over_refund}
use payment_service.Ports.Responses.{
  Response, refund, Verdict, created, replayed, in_progress, key_reused,
}
use payment_service.Postgres.{World, Db, Key, Error, refund_error}
use payment_service.Postgres.Refunds.{exists_by_reason, has_reason}
use payment_service.Postgres.Steps.{Ends, done, stopped, bind, imply, gets-Ends, db_call-Kept}
use payment_service.Postgres.Updates.{get_by_id-Kept}
use payment_service.Postgres.Kept.{Holds, Anywhere, Leaves}
use payment_service.App.Idempotency.{Answer, execute, require_key}
use payment_service.App.Idempotency.Results.{Made, execute-Made}
use payment_service.App.Idempotency.Hashes.{Texts}
use payment_service.App.Payment.Service.{Service}
use payment_service.App.Refund.{InitiateInput, is_refundable_status}
use payment_service.App.Refund.Requests.{require_refundable-Ends}
use payment_service.App.Refund.Guarded.{
  InitiateResult, refund_op, reload_refund, answer_refund, initiate_refund_guarded,
}
use payment_service.App.Refund.Cancelled.{
  cancel_input, unless_over, request_resolution, drive, resolve_unless, resolve_cancel_refund,
  reason_cancel_resolution,
}
use payment_service.App.Refund.Covered.{IsCovered, Covers}
use payment_service.App.Refund.Covered.Updates.{same_rows}
use payment_service.App.Refund.Covered.Ended.{Stays, here}
use payment_service.App.Refund.Covered.Run.{refund_read-Stays, process_refund-Stays}
use payment_service.App.Refund.Covered.Requests.{IsModest, begin_refund-Covers}

module _ {amount_of : ℕ → ℤ} (w : World) where
  require_key-Stays :
      (b : Bool) → Covers amount_of w → Ends (λ _ w'. w' ≡ w) (Covers amount_of) (require_key b w)
  require_key-Stays true c = stopped c
  require_key-Stays false c = done refl

  reload_refund-Stays : (x : Response) → Covers amount_of w → Stays amount_of (reload_refund x w)
  reload_refund-Stays (refund id) c = bind _ _ _ (refund_read-Stays w id c) λ r w1 c1. done c1
  reload_refund-Stays _ c = stopped c

  answer_refund-Stays :
      (a : Answer) (o : Option Refund) (v : Verdict)
      → Covers amount_of w
      → Stays amount_of (answer_refund (a, o) v w)
  answer_refund-Stays a o created c = done c
  answer_refund-Stays a o replayed c = reload_refund-Stays a.response c
  answer_refund-Stays a o in_progress c = done c
  answer_refund-Stays a o key_reused c = done c

Made-Covers :
    {amount_of : ℕ → ℤ} {d : Db} (a : Answer) (o : Option Refund) {d' : Db}
    → IsCovered amount_of d
    → Made (λ _. IsCovered amount_of) d (a, o) d'
    → IsCovered amount_of d'
Made-Covers a none c (_, same) = rw same c
Made-Covers a (some r) c (_, h) = h

module _ {amount_of : ℕ → ℤ} (s : Service) (i : InitiateInput) (fresh : ℕ) (parent : Txn) {d : Db}
    (c : IsCovered amount_of d) (e : parent.amount ≡ amount_of i.transaction_id)
    (m : IsModest (amount_of i.transaction_id)) (k : IsModest i.amount) where
  refund_op-Covers :
      (ks : List Key) (w : World)
      → Holds (record d { keys = ks }) w
      → Ends
          (λ r. Leaves (λ (r : Response × Refund) d'. IsCovered amount_of d') r)
          Anywhere
          (refund_op s i fresh parent w)
  unfolding refund_op
  refund_op-Covers ks w held =
      bind _ _ _
        (begin_refund-Covers w s i fresh parent (rw held.same_db (same_rows c refl refl)) e m k)
        λ r w1 c1. done (record { tables = c1 })

  guard-Stays :
      (x h : String) (w : World)
      → w.db ≡ d
      → Ends
          (Leaves (Made (λ _. IsCovered amount_of) d))
          (Holds d)
          (execute x h (refund_op s i fresh parent) w)
  guard-Stays =
      execute-Made (λ _. IsCovered amount_of) d (refund_op s i fresh parent)
        (λ r d' ks c'. same_rows c' refl refl) refund_op-Covers

module _ {amount_of : ℕ → ℤ} (w : World) (x : Texts) (s : Service) where
  -- A request with its key.
  pub initiate_refund_guarded-Stays :
      (i : InitiateInput) (key : String) (fresh : ℕ)
      → IsModest (amount_of i.transaction_id)
      → IsModest i.amount
      → Covers amount_of w
      → Stays amount_of (initiate_refund_guarded x s i key fresh w)
  unfolding initiate_refund_guarded
  initiate_refund_guarded-Stays i key fresh m k c =
      bind _ _ _
        (imply (λ _ _ h. h) (λ _ at. rw at.at_db c) (get_by_id-Kept i.transaction_id (here w)))
        λ parent w1 (found, at1).
          bind _ _ _
            (require_refundable-Ends (is_refundable_status parent.status) w1 (rw at1.at_db c))
            λ _ w2 (_, same).
              let c2 : Covers amount_of w2 = rw (same, at1.at_db) c in
              bind _ _ _ (require_key-Stays w2 (str_eq key "") c2) λ _ w3 same3.
                let c3 : Covers amount_of w3 = rw same3 c2 in
                bind _ _ _
                  (imply (λ _ _ h. h) (λ _ held. rw held.same_db c3)
                    (guard-Stays s i fresh parent c3 (c.is_priced i.transaction_id parent found) m k
                      _ _ w3 refl))
                  λ a w4 left.
                    answer_refund-Stays w4 a.0 a.1 a.0.verdict (Made-Covers a.0 a.1 c3 left.tables)

module _ {amount_of : ℕ → ℤ} where
  over-Stays :
      (e : Error) (w : World) → Covers amount_of w → Stays amount_of (unless_over (err e, w))
  over-Stays (refund_error (over_refund _ _ _)) w c = done c
  over-Stays _ w c = stopped c

  unless_over-Stays :
      {p : Result Error InitiateResult × World}
      → Stays amount_of p
      → Stays amount_of (unless_over p)
  unless_over-Stays (done h) = done h
  unless_over-Stays (stopped {e} {w} h) = over-Stays e w h

  drive-Stays :
      (w : World) (s : Service) (o : Option Refund)
      → Covers amount_of w
      → Stays amount_of (drive s o w)
  drive-Stays w s none c = done c
  drive-Stays w s (some r) c = bind _ _ _ (process_refund-Stays w s r.id c) λ _ w1 c1. done c1

module _ {amount_of : ℕ → ℤ} (w : World) (x : Texts) (s : Service) (id : ℕ) (amount : ℤ) (fresh : ℕ)
    (m : IsModest (amount_of id)) (k : IsModest amount) where
  resolve_unless-Stays :
      (b : Bool) → Covers amount_of w → Stays amount_of (resolve_unless b x s id amount fresh w)
  unfolding request_resolution
  resolve_unless-Stays true c = done c
  resolve_unless-Stays false c =
      bind _ _ _
        (unless_over-Stays
          (initiate_refund_guarded-Stays w x s (cancel_input id amount) _ fresh m k c))
        λ o w1 c1. drive-Stays w1 s o c1

module _ {amount_of : ℕ → ℤ} (w : World) (x : Texts) (s : Service) (id : ℕ) (amount : ℤ)
    (fresh : ℕ) where
  -- The refund of a payment that was to be cancelled.
  pub resolve_cancel_refund-Stays :
      IsModest (amount_of id)
      → IsModest amount
      → Covers amount_of w
      → Stays amount_of (resolve_cancel_refund x s id amount fresh w)
  unfolding resolve_cancel_refund exists_by_reason
  resolve_cancel_refund-Stays m k c =
      bind _ _ _
        (bind _ _ _ (imply (λ _ _ h. h) (λ _ at. rw at.at_db c) (db_call-Kept (here w))) λ _ w1 at1.
          imply (λ _ _ (_, at2). at2) (λ _ h. h)
            (gets-Ends at1 (λ w. has_reason id reason_cancel_resolution w.db.refunds)))
        λ b w2 at2. resolve_unless-Stays w2 x s id amount fresh m k b (rw at2.at_db c)
