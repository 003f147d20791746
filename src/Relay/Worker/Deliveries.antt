-- ===== src/Relay/Worker/Deliveries.antt =====
-- What a run of the relay leaves (internal/relay/relay.go).
use payment_service.Prelude.{
  suc, Bool, true, false, refl, Option, none, some, List, [], ◌∷◌, String,
}
use payment_service.Prelude.Int.{ℤ, pos, ◌+ℤ◌, leb_ℤ, pos_part}
use payment_service.Relay.Backoff.{Config, backoff}
use payment_service.Relay.Outbox.{Row, Store}
use payment_service.Relay.Outbox.Queue.{poll_pending}
use payment_service.Relay.Outbox.Follows.{Follows, Follows-same, Follows-trans}
use payment_service.Relay.Outbox.Marks.{
  mark_published-Follows, mark_failed-Follows, mark_exhausted-Follows,
}
use payment_service.Relay.Outbox.Claims.{IsKeyed, poll_pending-Follows}
use payment_service.Relay.Worker.{
  Publisher, dead_or_later, settle_event, process_event, process_events, run_polled, run_once,
}

module _ (publish : Publisher) (int64n : ℤ → ℤ) (c : Config) where
  dead_or_later-Follows :
      (b : Bool) (e : Row) (reason : String) (s : Store)
      → Follows s (dead_or_later b int64n c e reason s).1
  dead_or_later-Follows true e reason s = mark_exhausted-Follows e.id e.created_at reason s
  dead_or_later-Follows false e reason s =
      mark_failed-Follows e.id e.created_at reason (s.clock +ℤ backoff int64n c e.attempts) s

  settle_event-Follows :
      (e : Row) (o : Option String) (s : Store) → Follows s (settle_event int64n c e o s).1
  settle_event-Follows e none s = mark_published-Follows e.id e.created_at s
  settle_event-Follows e (some reason) s =
      dead_or_later-Follows (leb_ℤ c.max_attempts (pos (suc e.attempts))) e reason s

  process_events-Follows :
      (es : List Row) (s : Store) → Follows s (process_events publish int64n c es s).1
  unfolding process_events process_event
  process_events-Follows [] s = Follows-same s s (refl, refl)
  process_events-Follows (e ∷ es) s =
      let s1 = (settle_event int64n c e (publish e s) s).1 in
      Follows-trans s s1 _ (settle_event-Follows e (publish e s) s) (process_events-Follows es s1)

  run_polled-Follows :
      (o : Option (List Row)) (s : Store) → Follows s (run_polled publish int64n c (o, s)).1
  run_polled-Follows none s = Follows-same s s (refl, refl)
  run_polled-Follows (some es) s = process_events-Follows es s

-- A run of the relay loses nothing, whatever the publisher answers and whichever database calls
-- fail: every event is still in the outbox with its id, its content and no fewer attempts; one that
-- was published or given up before the run has not changed; no dead letter is gone; and if before
-- the run every event that was given up had a dead letter with its content, then so after it.
-- Condition: no two rows have the same primary key.
pub run_once-Follows :
    (publish : Publisher) (int64n : ℤ → ℤ) (ttl : ℤ) (c : Config) (s : Store)
    → IsKeyed s.rows
    → Follows s (run_once publish int64n ttl c s).1
unfolding run_once
run_once-Follows publish int64n ttl c s keys =
    let polled = poll_pending ttl c.shards (pos_part c.batch_size) s in
    Follows-trans s polled.1 _ (poll_pending-Follows ttl c.shards (pos_part c.batch_size) s keys)
      (run_polled-Follows publish int64n c polled.0 polled.1)
