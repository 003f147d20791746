-- ===== src/Tests/Services.antt =====
-- The webhook, dispute and reconciliation services, and the ring of shards, on concrete values.
use payment_service.Prelude.{
  ℕ, ◌<◌, ◌≡◌, ◌≢◌, ◌↔◌, refl, true, false, ◌||◌, ◌==◌, none, some, [], ◌∷◌, contains, All, ok,
  arith,
}
use payment_service.Prelude.Int.{pos}
use payment_service.Domain.Transaction.{Txn}
use payment_service.Domain.Dispute.{Dispute, Evidence, needs_response, receipt}
use payment_service.Domain.Reconciliation.{Job, pending}
use payment_service.Postgres.{World, JobRow, pure}
use payment_service.Postgres.Reconciliation.{find_job}
use payment_service.Postgres.Steps.{Ends, done}
use payment_service.Postgres.Atomic.{Unchanged}
use payment_service.App.Webhook.{Event, process}
use payment_service.App.Webhook
use payment_service.App.Webhook.Applied.{Processed}
use payment_service.App.Webhook.Processed.{told, process-Processed}
use payment_service.App.Webhook.Deliveries.{Delivery}
use payment_service.App.Dispute.{create_dispute}
use payment_service.App.Dispute
use payment_service.App.Dispute.Recorded.{Recorded, create_dispute-Recorded}
use payment_service.App.Dispute.Evidence.{submit_evidence}
use payment_service.App.Dispute.Evidence.Granted.{
  Granted, NothingOrUnmarked, submit_evidence-Granted,
}
use payment_service.App.Reconciliation.{SettlementEntry, Run, batch_entries}
use payment_service.App.Reconciliation.Complete.{IsSettled, IsMentioned, batch_entries_clean}
use payment_service.App.Reconciliation.Jobs.{run, run_job}
use payment_service.App.Reconciliation.Jobs
use payment_service.App.Reconciliation.Jobs.Kept.{IsReader}
use payment_service.App.Reconciliation.Jobs.Ended.{Completed, Broken, run-Completed}
use payment_service.App.Reconciliation.Jobs.Fresh.{run_job_unset}
use payment_service.Relay.Ring.{Library, owned_shards}
use payment_service.Relay.Ring.Spread.{IsSort, owned_shards-two}
use payment_service.Tests.Samples.{paying, paid, world_with}

-- A payment that its gateway knows, and the event that says it was paid.
abbrev referred : Txn
referred = record paying { gateway_reference_id = "pay_1"; version = 2 }

abbrev at_work : World
at_work = world_with referred [] []

abbrev webhooks : Webhook.Service
webhooks = record {
  has_audit = true;
  has_notif = true;
  has_webhooks = true;
  has_bus = true;
  cancel_resolver = none;
}

abbrev paid_event : Event
paid_event = record { event_id = "evt_1"; gateway_reference_id = "pay_1"; status = "paid" }

abbrev delivery : Delivery
delivery = record { gateway_id = "razorpay"; event = paid_event; raw = "{}" }

process-Processed_example :
    Ends
      (λ o w'.
        Processed "razorpay" paid_event "{}" at_work.db at_work.clock o w'.db
        × (w'.effects ≡ told webhooks o at_work.effects))
      (Unchanged at_work)
      (process webhooks "razorpay" paid_event "{}" at_work)
process-Processed_example = process-Processed webhooks "razorpay" paid_event "{}" at_work refl

-- A dispute of the payment, that the gateway opened.
abbrev chargeback : Dispute
chargeback = record {
  id = 31;
  transaction_id = 7;
  gateway_id = "razorpay";
  gateway_dispute_id = "disp_1";
  reason = "fraud";
  status = needs_response;
  amount = pos 51000;
  currency = "INR";
  evidence_due_by = some (pos 604800000000000);
  evidence_submitted_at = none;
  created_at = pos 0;
  resolved_at = none;
}

abbrev disputes : Dispute.Service
disputes = record { has_outbox = true; has_notif = true; has_webhooks = true; has_bus = true }

abbrev captured_world : World
captured_world = world_with paid [] []

create_dispute-Recorded_example :
    Ends
      (λ _ w'.
        Recorded disputes chargeback captured_world.db captured_world.clock captured_world.effects
          w'.db w'.effects)
      (λ w'. w'.db ≡ captured_world.db)
      (create_dispute disputes chargeback captured_world)
create_dispute-Recorded_example = create_dispute-Recorded disputes chargeback captured_world

abbrev delivery_note : Evidence
delivery_note = record {
  id = 41;
  dispute_id = 0;
  kind = receipt;
  file_url = "https://shop.test/receipt";
  notes = "";
  submitted_at = pos 70000000000;
}

abbrev disputed_world : World
disputed_world = record captured_world {
  db = record captured_world.db { disputes = chargeback ∷ [] };
}

submit_evidence-Granted_example :
    Ends
      (λ _ w'. Granted 1 31 delivery_note disputed_world.db w'.db)
      (NothingOrUnmarked 31 delivery_note disputed_world.db)
      (submit_evidence 1 31 delivery_note disputed_world)
submit_evidence-Granted_example = submit_evidence-Granted 1 31 delivery_note disputed_world

-- The settlement of the payment, as the gateway reports it, and a line of another merchant.
abbrev line : SettlementEntry
line = record {
  transaction_ref = "pay_1";
  gateway_status = "succeeded";
  gateway_amount = pos 51000;
  gateway_fees = none;
}

abbrev stray : SettlementEntry
stray = record line { transaction_ref = "pay_9" }

abbrev nightly : Run
nightly = record { job_id = 5; draw = λ i. i; total_of = λ _. pos 0 }

abbrev settled_payment : Txn
settled_payment = record paid { gateway_reference_id = "pay_1" }

batch_entries_clean_example :
    (batch_entries nightly (settled_payment ∷ []) (line ∷ stray ∷ []) ≡ []) ↔ (
      All (IsSettled nightly (settled_payment ∷ [])) (line ∷ stray ∷ [])
      × All
          (λ t. IsMentioned (settled_payment ∷ []) (line ∷ stray ∷ []) t.id)
          (settled_payment ∷ []))
batch_entries_clean_example = batch_entries_clean nightly (settled_payment ∷ []) (line ∷ stray ∷ [])

abbrev reconciliation : Jobs.Service
reconciliation = record {
  settlement_fetcher = λ _. some (λ _ _ _ _. ok (line ∷ stray ∷ []));
  list_ids = λ _ _ _ _. pure (7 ∷ []);
  draw = λ i. i;
  total_of = λ _. pos 0;
  error_text = λ _. "failed";
}

reconciliation-IsReader : IsReader reconciliation
reconciliation-IsReader = record { keeps_tables = λ _ _ _ _ _ _ _ _ at. done at }

abbrev nightly_job : Job
nightly_job = record {
  id = 5;
  gateway_id = "razorpay";
  tenant_id = some 1;
  transaction_id = none;
  period_start = some (pos 0);
  period_end = some (pos 86400000000000);
  status = pending;
  triggered_by = "ops";
  actor = "ops";
  mismatch_count = 0;
  error = "";
  started_at = none;
  completed_at = none;
  created_at = pos 0;
}

abbrev unset_row : JobRow
unset_row = record { job = nightly_job; error_set = false }

abbrev nightly_world : World
nightly_world = record captured_world { db = record captured_world.db { jobs = unset_row ∷ [] } }

run-Completed_example :
    Ends
      (λ _. Completed nightly_job nightly_world.db nightly_world.clock)
      (λ w'. Broken reconciliation nightly_job nightly_world.db nightly_world.clock w'.db)
      (run reconciliation nightly_job nightly_world)
run-Completed_example =
    run-Completed reconciliation nightly_job nightly_world reconciliation-IsReader

run_job_unset_example :
    Ends (λ _ _. ⊥) (λ w'. w'.db ≡ nightly_world.db) (run_job reconciliation "ops" 5 nightly_world)
unfolding find_job
run_job_unset_example = run_job_unset reconciliation "ops" 5 unset_row nightly_world refl refl

-- A library whose hash is the length of the text.
abbrev library : Library
library = record { itoa = λ _. "1"; fnv64a = λ _. 3; sort = λ vs. vs }

library-IsSort : IsSort library
library-IsSort = record { keeps_elements = λ _ _. refl }

owned_shards-two_example :
    (a c : ℕ) × (a ≢ c)
    × (a < 3)
    × (c < 3)
    × ((w : ℕ) → contains ◌==◌ (owned_shards library w 3 4) 2 ≡ ((a == w) || (c == w)))
owned_shards-two_example = owned_shards-two library 3 4 2 library-IsSort (omega arith) (omega arith)
