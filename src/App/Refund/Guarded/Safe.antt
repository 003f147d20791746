-- ===== src/App/Refund/Guarded/Safe.antt =====
-- What a guarded refund request leaves (internal/app/refund/service.go).
use payment_service.Prelude.{
  ℕ, Bool, true, false, ◌≡◌, ◌≢◌, refl, ap, ◌∙◌, Option, none, some, List, String, str_eq,
}
use payment_service.Prelude.Int.{ℤ, ◌+ℤ◌, IsInt64}
use payment_service.Domain.Transaction.{Txn}
use payment_service.Domain.Refund.{Refund}
use payment_service.Ports.Responses.{
  Response, refund, Verdict, created, replayed, in_progress, key_reused,
}
use payment_service.Postgres.{World, Db, Key, gets}
use payment_service.Postgres.Transactions.{find_txn}
use payment_service.Postgres.Refunds
use payment_service.Postgres.Refunds.{sum_active, find_refund}
use payment_service.Postgres.Steps.{Ends, done, stopped, bind, imply, db_call-Kept}
use payment_service.Postgres.Updates.{get_by_id-Kept}
use payment_service.Postgres.Kept.{Holds, Anywhere, Leaves}
use payment_service.App.Idempotency.{Answer, execute}
use payment_service.App.Idempotency.Results.{Made, execute-Made}
use payment_service.App.Idempotency.Hashes.{Texts}
use payment_service.App.Idempotency.{require_key}
use payment_service.App.Payment.Service.{Service}
use payment_service.App.Refund.{InitiateInput, is_refundable_status}
use payment_service.App.Refund.Requests.{
  Begun, Requested, begin_refund-Ends, require_refundable-Ends,
}
use payment_service.App.Refund.Guarded.{
  InitiateResult, refund_op, reload_refund, answer_refund, initiate_refund_guarded,
}

-- A result of the guarded request: a refund that was made, or nothing changed.
abbrev pub GuardedResult : InitiateInput → Db → InitiateResult → Db → Type 0
GuardedResult i d a d' =
    (a.verdict ≡ created → (r : Refund) × (a.refund ≡ some r) × Requested i d r d')
    × (a.verdict ≢ created → d' ≡ d)

Begun-keys :
    (i : InitiateInput) (amount : ℤ) (rs : List Refund) (r : Refund) (d : Db) (ks : List Key)
    → Begun i amount rs r d
    → Begun i amount rs r (record d { keys = ks })
Begun-keys i amount rs r d ks b = record {
  payments = b.payments;
  pending = b.pending;
  is_inserted = record {
    within_cap = b.is_inserted.within_cap;
    in_table = b.is_inserted.in_table;
    payments_kept = b.is_inserted.payments_kept;
    is_new = b.is_inserted.is_new;
  };
  row_after = b.row_after;
  pending_after = b.pending_after;
}

module _ (s : Service) (i : InitiateInput) (fresh : ℕ) (parent : Txn) (d : Db)
    (found : find_txn i.transaction_id d.txns ≡ some parent)
    (fits : IsInt64 (sum_active i.transaction_id d.refunds +ℤ i.amount)) where
  refund_op-Leaves :
      (ks : List Key) (w : World)
      → Holds (record d { keys = ks }) w
      → Ends
          (λ r. Leaves (λ (r : Response × Refund) d'. Begun i parent.amount d.refunds r.1 d') r)
          Anywhere
          (refund_op s i fresh parent w)
  unfolding refund_op
  refund_op-Leaves ks w held =
      bind _ _ _
        (imply (λ _ _ h. h) (λ _ _. tt)
          (begin_refund-Ends s i fresh parent {d = record d { keys = ks }} found fits
            (record { at_db = held.same_db; at_clock = refl; at_effects = refl })))
        λ r w1 (b, _, _). done (record { tables = b })

  pub execute_refund-Ends :
      (c h : String) (w : World)
      → w.db ≡ d
      → Ends
          (Leaves (Made (λ r d'. Begun i parent.amount d.refunds r d') d))
          (Holds d)
          (execute c h (refund_op s i fresh parent) w)
  execute_refund-Ends =
      execute-Made (λ r d'. Begun i parent.amount d.refunds r d') d (refund_op s i fresh parent)
        (λ r d' ks. Begun-keys i parent.amount d.refunds r d' ks) refund_op-Leaves

-- Nothing but a value: the tables are these, whether or not a refund is found.
loaded-Ends :
    {d : Db} {w : World} (o : Option Refund)
    → Holds d w
    → Ends (λ _. Holds d) (Holds d) (Refunds.or_raise_not_found o w)
loaded-Ends none held = stopped held
loaded-Ends (some r) held = done held

reload_refund-Ends :
    {d : Db} {w : World} (x : Response)
    → Holds d w
    → Ends (λ a w'. (a.verdict ≡ replayed) × Holds d w') (Holds d) (reload_refund x w)
unfolding Refunds.get_by_id
reload_refund-Ends {d} {w} (refund id) held =
    bind _ _ _
      (bind _ _ _
        (imply (λ _ _ at. at) (λ _ at. record { same_db = at.at_db })
          (db_call-Kept {d = d}
            (record { at_db = held.same_db; at_clock = refl; at_effects = refl })))
        λ _ w1 at1.
          bind {M = λ _. Holds d} (gets (λ w. find_refund id w.db.refunds)) _ w1
            (done (record { same_db = at1.at_db })) λ o w2 at2. loaded-Ends o at2)
      λ r w3 at3. done (refl, at3)
reload_refund-Ends Response.nothing held = stopped held
reload_refund-Ends (Response.payment _ _) held = stopped held
reload_refund-Ends (Response.cancel _ _) held = stopped held

made-GuardedResult :
    (i : InitiateInput) (parent : Txn) (d : Db) (r : Refund) (d' : Db)
    → find_txn i.transaction_id d.txns ≡ some parent
    → is_refundable_status parent.status ≡ true
    → Begun i parent.amount d.refunds r d'
    → GuardedResult i d (record { verdict = created; refund = some r }) d'
made-GuardedResult i parent d r d' found may b =
    ((λ _. (r, refl, (parent, found, may, b))), λ n. absurd (n refl))

answer_refund-Ends :
    (i : InitiateInput) (parent : Txn) (d : Db) (a : Answer × Option Refund) {w : World}
    → find_txn i.transaction_id d.txns ≡ some parent
    → is_refundable_status parent.status ≡ true
    → Leaves (Made (λ r d'. Begun i parent.amount d.refunds r d') d) a w
    → Ends (Leaves (GuardedResult i d)) (Holds d) (answer_refund a a.0.verdict w)
answer_refund-Ends i parent d (a, o) {w} found may left = by_verdict o a.verdict left.tables refl
  where
    by_verdict :
        (o : Option Refund) (v : Verdict)
        → Made (λ r d'. Begun i parent.amount d.refunds r d') d (a, o) w.db
        → a.verdict ≡ v
        → Ends (Leaves (GuardedResult i d)) (Holds d) (answer_refund (a, o) v w)
    by_verdict none created (h, same) e = absurd (h e)
    by_verdict (some r) created (e, b) _ =
        done (record { tables = made-GuardedResult i parent d r w.db found may b })
    by_verdict (some r) replayed (e, b) e' = absurd (cc)
    by_verdict (some r) in_progress (e, b) e' = absurd (cc)
    by_verdict (some r) key_reused (e, b) e' = absurd (cc)
    by_verdict none replayed (h, same) e =
        imply (λ x w' (v, held). record { tables = ((λ c. absurd (cc)), λ _. held.same_db) })
          (λ _ held. held) (reload_refund-Ends a.response (record { same_db = same }))
    by_verdict none in_progress (h, same) e =
        done (record { tables = ((λ c. absurd (cc)), λ _. same) })
    by_verdict none key_reused (h, same) e =
        done (record { tables = ((λ c. absurd (cc)), λ _. same) })

require_key-Ends :
    {d : Db} {w : World} (b : Bool) → Holds d w → Ends (λ _. Holds d) (Holds d) (require_key b w)
require_key-Ends true held = stopped held
require_key-Ends false held = done held

-- Whatever fails on the way, a guarded refund request that returns an error leaves the tables as
-- they were; one that returns `created` has made a refund of a payment that was refundable and is
-- now REFUND_PENDING, with all active refunds of the payment within its amount; and one that
-- returns any other verdict leaves the tables as they were. Condition: the sum that the guard on
-- over-refunds computes fits an int64.
pub guarded_refund_within_cap :
    (x : Texts) (s : Service) (i : InitiateInput) (key : String) (fresh : ℕ) (w : World)
    → IsInt64 (sum_active i.transaction_id w.db.refunds +ℤ i.amount)
    → Ends (Leaves (GuardedResult i w.db)) (Holds w.db) (initiate_refund_guarded x s i key fresh w)
unfolding initiate_refund_guarded
guarded_refund_within_cap x s i key fresh w fits =
    bind _ _ _
      (imply (λ _ _ h. h) (λ _ at. record { same_db = at.at_db })
        (get_by_id-Kept {d = w.db} i.transaction_id
          (record { at_db = refl; at_clock = refl; at_effects = refl })))
      λ parent w1 (e, at1).
        bind _ _ _
          (require_refundable-Ends (is_refundable_status parent.status) w1
            (record { same_db = at1.at_db }))
          λ _ w2 (may, same).
            bind _ _ _
              (require_key-Ends (str_eq key "")
                (record { same_db = ap (λ w. w.db) same ∙ at1.at_db }))
              λ _ w3 at3.
                bind _ _ _ (execute_refund-Ends s i fresh parent w.db e fits _ _ w3 at3.same_db)
                  λ a w4 left. answer_refund-Ends i parent w.db a e may left
