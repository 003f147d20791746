-- ===== src/Tests/Keys.antt =====
-- Idempotency keys, guarded refunds and cancellations.
use payment_service.Prelude.{
  if◌then◌else◌, ◌==◌, ℕ, ◌≡◌, refl, true, none, some, List, [], ◌∷◌, String, ok, err, arith,
  Option,
}
use payment_service.Prelude.Int.{IsInt64, pos, ◌+ℤ◌, add64}
use payment_service.Domain.Transaction.{tenant, api}
use payment_service.Ports.Responses.{Response, payment, created}
use payment_service.Postgres.{Action, World, pure, ◌>>=◌, db_call, within_tx, not_refundable}
use payment_service.Postgres.Keys.{find_key, reserve, complete, complete_key, lookup}
use payment_service.Postgres.Refunds.{sum_active}
use payment_service.Postgres.Steps.{Ends, done}
use payment_service.Postgres.Kept.{Holds, Leaves}
use payment_service.Postgres.Clear.{Clear}
use payment_service.App.Idempotency.{Answer, execute, attempt, verdict_of}
use payment_service.App.Idempotency.Hashes.{Texts, joined, split, split-joined, has_separator}
use payment_service.App.Idempotency.Verdicts.{KeepsKey, Explained, execute-Explained}
use payment_service.App.Idempotency.Replays.{answer_again, execute_twice}
use payment_service.App.Idempotency.Once.{Request, executions}
use payment_service.Domain.Transaction.Machine.{transition_state, apply_transition_effects}
use payment_service.Domain.Refund.{Refund, initiated, new}
use payment_service.Postgres.Transactions.{
  get_by_id, find_txn, replace_txn, update_status, write_event, write_audit, has_entry,
}
use payment_service.Postgres.Refunds.{lock_parent_transaction, sum_active_refunds, insert}
use payment_service.App.Refund.{InitiateInput, is_refundable_status, begin_refund, insert_refund}
use payment_service.App.Refund.Guarded.{refund_op, initiate_refund_guarded}
use payment_service.App.Refund.Guarded.Safe.{GuardedResult, guarded_refund_within_cap}
use payment_service.App.Refund.Guarded.Repeated.{repeat_refused}
use payment_service.App.Cancel.{CancelInput, cancel_payment}
use payment_service.App.Cancel.Requests.{Cancelled, cancel_payment-Cancelled}
use payment_service.Tests.Samples.{paid, paying, half, service, world_with}

abbrev fresh_world : World
fresh_world = world_with paid [] []

abbrev op : String → Action (Response × ℕ)
op token = pure (payment 7 token, 7)

op-KeepsKey : (token : String) → KeepsKey "k" (op token)
op-KeepsKey token w = done (record { tables = refl })

execute-Explained_example :
    Ends
      (Leaves (λ a d'. Explained "k" "h" fresh_world.db d' a.0))
      (Holds fresh_world.db)
      (execute "k" "h" (op "tok") fresh_world)
execute-Explained_example = execute-Explained "k" "h" (op "tok") fresh_world (op-KeepsKey "tok")

abbrev first_answer : Answer × Option ℕ
first_answer = (record { verdict = created; response = payment 7 "tok" }, some 7)

abbrev after_first : World
after_first = (execute "k" "h" (op "tok") fresh_world).1

first_run : execute "k" "h" (op "tok") fresh_world ≡ (ok first_answer, after_first)
unfolding execute attempt within_tx ◌>>=◌ db_call reserve complete find_key complete_key
first_run = refl

after_first-Clear : Clear after_first
unfolding execute attempt within_tx ◌>>=◌ db_call reserve complete find_key complete_key
after_first-Clear = record { no_faults = refl; not_aborted = refl }

execute_twice_example :
    execute "k" "other" (op "tok2") after_first
    ≡ (ok (answer_again "h" (payment 7 "tok") "other", none), after_first)
execute_twice_example =
    execute_twice "k" "h" "other" (op "tok") (op "tok2") fresh_world after_first (op-KeepsKey "tok")
      first_run refl refl after_first-Clear

abbrev two_requests : List (Request ℕ)
two_requests =
    record { request_hash = "h"; op = op "tok" }
    ∷ record { request_hash = "h"; op = op "tok2" }
    ∷ []

two_executions : executions "k" two_requests fresh_world ≡ 1
unfolding executions execute attempt within_tx ◌>>=◌ db_call reserve lookup complete find_key
    complete_key verdict_of
two_executions = refl

split-joined_example :
    split (joined ("7" ∷ "25000" ∷ "damaged" ∷ [])) ≡ "7" ∷ "25000" ∷ "damaged" ∷ []
unfolding has_separator
split-joined_example = split-joined "7" ("25000" ∷ "damaged" ∷ []) (refl, (refl, (refl, tt)))

abbrev texts : Texts
texts = record { uuid = λ n. if n == 7 then "7" else "1"; int = λ z. "25000"; hash = λ s. s }

abbrev asked : InitiateInput
asked = record { transaction_id = 7; amount = pos 25000; reason = "damaged"; initiated_by = "ops" }

guarded_refund_within_cap_example :
    Ends
      (Leaves (GuardedResult asked fresh_world.db))
      (Holds fresh_world.db)
      (initiate_refund_guarded texts service asked "key" 21 fresh_world)
unfolding sum_active ◌+ℤ◌
guarded_refund_within_cap_example =
    guarded_refund_within_cap texts service asked "key" 21 fresh_world (omega arith)

abbrev cancel_input : CancelInput
cancel_input = record {
  transaction_id = 7;
  tenant_id = 1;
  by = tenant;
  via = api;
  idempotency_key = "";
}

cancel_payment-Cancelled_example :
    Ends
      (Leaves (Cancelled 7 (world_with paying [] []).db))
      (Holds (world_with paying [] []).db)
      (cancel_payment true cancel_input (world_with paying [] []))
cancel_payment-Cancelled_example =
    cancel_payment-Cancelled true cancel_input (world_with paying [] [])

abbrev asked_refund : Refund
asked_refund = record half { status = initiated; attempts = 0; initiated_at = pos 60000000000 }

abbrev after_request : World
after_request = (initiate_refund_guarded texts service asked "key" 21 fresh_world).1

first_request :
    initiate_refund_guarded texts service asked "key" 21 fresh_world
    ≡ (ok (record { verdict = created; refund = some asked_refund }), after_request)
unfolding initiate_refund_guarded get_by_id find_txn is_refundable_status execute attempt within_tx
    ◌>>=◌ db_call reserve complete find_key complete_key refund_op begin_refund transition_state
    apply_transition_effects update_status insert_refund lock_parent_transaction sum_active_refunds
    sum_active new insert write_event write_audit replace_txn add64 has_entry
first_request = refl

after_request-Clear : Clear after_request
unfolding initiate_refund_guarded get_by_id find_txn is_refundable_status execute attempt within_tx
    ◌>>=◌ db_call reserve complete find_key complete_key refund_op begin_refund transition_state
    apply_transition_effects update_status insert_refund lock_parent_transaction sum_active_refunds
    sum_active new insert write_event write_audit replace_txn add64 has_entry
after_request-Clear = record { no_faults = refl; not_aborted = refl }

request_fits : IsInt64 (sum_active 7 fresh_world.db.refunds +ℤ asked.amount)
unfolding sum_active ◌+ℤ◌
request_fits = omega arith

repeat_refused_example :
    initiate_refund_guarded texts service asked "key" 22 after_request
    ≡ (err not_refundable, after_request)
repeat_refused_example =
    repeat_refused texts service asked asked "key" "key" 21 22 fresh_world request_fits
      first_request refl refl after_request-Clear
