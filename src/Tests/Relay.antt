-- ===== src/Tests/Relay.antt =====
-- The relay: delays, a run over three events, and a dead letter.
use payment_service.Prelude.{
  ℕ, if◌then◌else◌, ◌==◌, ◌≤◌, ◌/◌, ◌≡◌, refl, none, some, List, [], ◌∷◌, ◌++◌, length, All, arith,
}
use payment_service.Prelude.Int.{ℤ, pos}
use payment_service.Domain.Transaction.{captured}
use payment_service.Ports.Outbox.{OutboxEvent, transaction, transaction_captured, callback}
use payment_service.Relay.Backoff.{Config, backoff}
use payment_service.Relay.Backoff.Bounds.{IsRandom, doubled, backoff_bounds}
use payment_service.Relay.Outbox.{Row, pending, DeadLetter, Store, is_row}
use payment_service.Relay.Outbox.Follows.{Follows}
use payment_service.Relay.Outbox.Replays.{replays, after_replays, IsCopy, replays_at_most_once}
use payment_service.Relay.Worker.{Publisher, run_once}
use payment_service.Relay.Worker.Deliveries.{run_once-Follows}

abbrev config : Config
config = record {
  shards = 0 ∷ [];
  batch_size = pos 10;
  max_attempts = pos 3;
  poll_interval = pos 0;
  base_backoff = pos 1000000000;
  max_backoff = pos 300000000000;
}

-- The smallest draw.
abbrev lowest : ℤ → ℤ
lowest n = pos 0

lowest-IsRandom : IsRandom lowest
lowest-IsRandom n h = (omega arith, h)

backoff_bounds_example :
    (n : ℕ) × (backoff lowest config 3 ≡ pos n)
    × (doubled 1000000000 300000000000 3 / 2 ≤ n)
    × (n ≤ doubled 1000000000 300000000000 3)
backoff_bounds_example =
    backoff_bounds lowest config 1000000000 300000000000 3 lowest-IsRandom refl refl (omega arith)
      (omega arith) (omega arith) (omega arith)

abbrev event : OutboxEvent
event = record {
  aggregate_id = 7;
  aggregate_type = transaction;
  event_type = transaction_captured;
  payload = callback 7 captured "";
  event_version = 1;
  aggregate_version = 3;
}

abbrev row : ℕ → ℕ → Row
row id attempts = record {
  id = id;
  created_at = pos 0;
  shard_index = 0;
  event = event;
  status = pending;
  attempts = attempts;
  next_attempt_at = pos 0;
  locked_at = none;
  published_at = none;
  last_error = "";
}

abbrev letter : DeadLetter
letter = record {
  id = 50;
  original_event_id = 5;
  event = event;
  failure_reason = "";
  failed_at = pos 0;
  resolved_at = none;
  resolved_by = "";
}

abbrev store : Store
store = record {
  rows = row 1 0 ∷ row 2 0 ∷ row 3 2 ∷ [];
  dead_letters = letter ∷ [];
  clock = pos 5;
  fresh = 100;
  owners = (7, 1) ∷ [];
  faults = [];
}

-- A publisher that takes the first event only.
abbrev picky : Publisher
picky r s = if r.id == 1 then none else some "refused"

run_once-Follows_example : Follows store (run_once picky lowest (pos 60) config store).1
unfolding is_row
run_once-Follows_example =
    run_once-Follows picky lowest (pos 60) config store ((refl, (refl, tt)), ((refl, tt), (tt, tt)))

replays_at_most_once_example :
    (new : List Row) × ((after_replays (λ _. 0) 50 ((1, "ops") ∷ (0, "ops") ∷ []) store).rows
      ≡ new ++ store.rows)
    × (length new ≡ replays (λ _. 0) 50 ((1, "ops") ∷ (0, "ops") ∷ []) store)
    × (length new ≤ 1)
    × All (IsCopy 50 store) new
replays_at_most_once_example = replays_at_most_once (λ _. 0) 50 ((1, "ops") ∷ (0, "ops") ∷ []) store
