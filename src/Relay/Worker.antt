-- ===== src/Relay/Worker.antt =====
-- `RunOnce` and `processEvent` (internal/relay/relay.go). The publisher is an argument: a function
-- that answers each event, in the state that it is called in, with an error text or nothing. The
-- metrics and the log are left out.
pub mod Deliveries
use payment_service.Prelude.{
  ℕ, suc, Bool, true, false, Option, none, some, List, [], ◌∷◌, String, length, if◌then◌else◌,
}
use payment_service.Prelude.Int.{ℤ, pos, ◌+ℤ◌, leb_ℤ, pos_part}
use payment_service.Relay.Backoff.{Config, backoff}
use payment_service.Relay.Outbox.{Row, Store, mark_published, mark_failed, mark_exhausted}
use payment_service.Relay.Outbox.Queue.{poll_pending}

abbrev pub Publisher : Type 0
Publisher = Row → Store → Option String

abbrev pub dead_or_later : Bool → (ℤ → ℤ) → Config → Row → String → Store → Bool × Store
dead_or_later true int64n c e reason s = (false, (mark_exhausted e.id e.created_at reason s).1)
dead_or_later false int64n c e reason s =
    (false, (mark_failed e.id e.created_at reason (s.clock +ℤ backoff int64n c e.attempts) s).1)

abbrev pub settle_event : (ℤ → ℤ) → Config → Row → Option String → Store → Bool × Store
settle_event int64n c e none s = mark_published e.id e.created_at s
settle_event int64n c e (some reason) s =
    dead_or_later (leb_ℤ c.max_attempts (pos (suc e.attempts))) int64n c e reason s

-- Whether the event was published and marked so; a failed mark is logged and dropped.
unfoldable pub process_event : Publisher → (ℤ → ℤ) → Config → Row → Store → Bool × Store
process_event publish int64n c e s = settle_event int64n c e (publish e s) s

unfoldable pub process_events : Publisher → (ℤ → ℤ) → Config → List Row → Store → ℕ × Store
process_events publish int64n c [] s = (0, s)
process_events publish int64n c (e ∷ es) s =
    let (published, s1) = process_event publish int64n c e s in
    let (n, s2) = process_events publish int64n c es s1 in (if published then suc n else n, s2)

abbrev pub run_polled :
    Publisher → (ℤ → ℤ) → Config → Option (List Row) × Store → Option (ℕ × ℕ) × Store
run_polled publish int64n c (none, s) = (none, s)
run_polled publish int64n c (some es, s) =
    let (published, s1) = process_events publish int64n c es s in (some (length es, published), s1)

-- How many events were polled and how many published; `none` is a failed poll.
unfoldable pub run_once : Publisher → (ℤ → ℤ) → ℤ → Config → Store → Option (ℕ × ℕ) × Store
run_once publish int64n ttl c s =
    run_polled publish int64n c (poll_pending ttl c.shards (pos_part c.batch_size) s)
