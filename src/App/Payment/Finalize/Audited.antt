-- ===== src/App/Payment/Finalize/Audited.antt =====
-- What `finalize` adds to the audit log (internal/app/payment/gateway.go,
-- internal/adapters/postgres/audit.go).
use payment_service.Prelude.{Bool, true, false, ◌≡◌, refl, arith, Result, ok, err, List}
use payment_service.Domain.Transaction.{Txn}
use payment_service.Postgres.{World, AuditEntry, Error, when, lift, gets, txn_error}
use payment_service.Postgres.Transactions.{has_entry, write_audit}
use payment_service.Postgres.Steps.{Ends, done, stopped, bind}
use payment_service.App.Payment.Outcome.{Outcome, open_outcome, terminal}
use payment_service.App.Payment.Service.{Service}
use payment_service.App.Payment.Finalize.{apply_outcome}

-- The audit log of a world, which has an entry without an id.
record Logged (log : List AuditEntry) (w : World) : Type 0 where
  log_kept : w.audit ≡ log

kept_audit-Ends :
    (log : List AuditEntry) (e : AuditEntry) (b : Bool) (w : World)
    → has_entry e.id log ≡ true
    → (l : Logged log w) → Ends (λ _ w'. Logged log w') (Logged log) (when b (write_audit e) w)
unfolding write_audit
kept_audit-Ends log e true w h l = done (record { log_kept = ground arith })
kept_audit-Ends log e false w h l = done l

lift_same-Ends :
    {E A : Type 0} (log : List AuditEntry) (f : E → Error) (r : Result E A) (w : World)
    → Logged log w
    → Ends (λ _ w'. Logged log w') (Logged log) (lift f r w)
lift_same-Ends log f (ok a) w l = done l
lift_same-Ends log f (err e) w l = stopped l

apply_outcome-Ends :
    (log : List AuditEntry) (s : Service) (t : Txn) (o : Outcome) (w : World)
    → has_entry 0 log ≡ true
    → Logged log w
    → Ends (λ _ w'. Logged log w') (Logged log) (apply_outcome s t o w)
unfolding apply_outcome
apply_outcome-Ends log s t open_outcome w h l = done l
apply_outcome-Ends log s t (terminal status reason) w h l =
    bind {M = λ _ w'. Logged log w'} (gets (λ w. w.clock)) _ w (done l) λ _ w1 l1.
      bind _ _ _ (lift_same-Ends log txn_error _ w1 l1)
        λ t' w2 l2. bind _ _ _ (kept_audit-Ends log _ s.has_audit w2 h l2) λ _ w3 l3. done l3

Ends-world :
    {A : Type 0} {E : World → Type 0} {p : Result Error A × World} → Ends (λ _ w. E w) E p → E p.1
Ends-world (done h) = h
Ends-world (stopped h) = h

-- The handlers leave the id of an audit entry out, and the insert takes the missing id for a value:
-- once the audit log has an entry without an id, applying an outcome adds no entry, whatever the
-- outcome and whether or not it is applied.
pub audit_entry_lost :
    (s : Service) (t : Txn) (o : Outcome) (w : World)
    → has_entry 0 w.audit ≡ true
    → (apply_outcome s t o w).1.audit ≡ w.audit
audit_entry_lost s t o w h =
    (Ends-world (apply_outcome-Ends w.audit s t o w h (record { log_kept = refl }))).log_kept
