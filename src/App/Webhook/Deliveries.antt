-- ===== src/App/Webhook/Deliveries.antt =====
-- Events that come again (internal/app/webhook/service.go).
use payment_service.Prelude.{
  ℕ, ◌+◌, ◌&&◌, Bool, List, [], ◌∷◌, String, str_eq, Result, ok, err, if◌then◌else◌,
}
use payment_service.Postgres.{World, Db, Error}
use payment_service.Postgres.Webhooks.{is_recorded}
use payment_service.App.Webhook.{Service, Event, Outcome, process}
use payment_service.App.Webhook.Applied.{Processed}

pub record Delivery : Type 0 where
  pub gateway_id : String
  pub event : Event
  pub raw : String

abbrev pub is_of : String → String → Delivery → Bool
is_of e g x = str_eq x.event.event_id e && str_eq x.gateway_id g

abbrev pub resolved_now : Bool → Result Error Outcome → ℕ
resolved_now b (err _) = 0
resolved_now b (ok o) = if b && o.resolved then 1 else 0

-- How many of these deliveries are of this event and moved a payment, and committed it.
unfoldable pub resolutions : Service → String → String → List Delivery → World → ℕ
resolutions s e g [] w = 0
resolutions s e g (x ∷ xs) w =
    let (r, w') = process s x.gateway_id x.event x.raw w in
    resolved_now (is_of e g x) r + resolutions s e g xs w'

-- How many resolutions an event has left.
abbrev left : String → String → Db → ℕ
left e g d = if is_recorded e g d.webhook_events then 0 else 1
