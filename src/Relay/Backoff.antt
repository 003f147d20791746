-- ===== src/Relay/Backoff.antt =====
-- The worker's configuration and the delay before an event is tried again (internal/relay/relay.go).
-- Durations are nanoseconds in int64.
pub mod Bounds
use payment_service.Prelude.{ℕ, Bool, ◌||◌, ◌^◌, ◌+◌, List, ltb, if◌then◌else◌}
use payment_service.Prelude.Int.{ℤ, pos, leb_ℤ, ltb_ℤ, add64, mul64, div64}

pub record Config : Type 0 where
  pub shards : List ℕ
  pub batch_size : ℤ
  pub max_attempts : ℤ
  pub poll_interval : ℤ
  pub base_backoff : ℤ
  pub max_backoff : ℤ

abbrev pub or_default : ℤ → ℤ → ℤ
or_default default z = if leb_ℤ z (pos 0) then default else z

-- The configuration that `NewWorker` keeps.
unfoldable pub new_worker : Config → Config
new_worker c = record c {
  batch_size = or_default (pos 50) c.batch_size;
  max_attempts = or_default (pos 5) c.max_attempts;
  poll_interval = or_default (pos 5000000000) c.poll_interval;
  base_backoff = or_default (pos 1000000000) c.base_backoff;
  max_backoff = or_default (pos 300000000000) c.max_backoff;
}

abbrev pub shift : ℕ → ℕ
shift attempts = if ltb 30 attempts then 30 else attempts

abbrev pub capped : Config → ℤ → ℤ
capped c d = if leb_ℤ d (pos 0) || ltb_ℤ c.max_backoff d then c.max_backoff else d

-- The delay before the random part; the shift drops the bits beyond the 64th.
unfoldable pub delay : Config → ℕ → ℤ
delay c attempts = capped c (mul64 c.base_backoff (pos (2 ^ shift attempts)))

-- `rand.Int64N` is an argument.
unfoldable pub backoff : (ℤ → ℤ) → Config → ℕ → ℤ
backoff int64n c attempts =
    let half = div64 (delay c attempts) (pos 2) in add64 half (int64n (add64 half (pos 1)))
