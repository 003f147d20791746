-- ===== src/Postgres.antt =====
-- internal/adapters/postgres: the database and what surrounds it. `World` is the state of the tables
-- as the running call sees them, the audit log, the calls that left the process, the clock, and the
-- faults that lie ahead: each database call takes the next entry of `faults`, and fails if that is
-- `true`; a failed statement also aborts the transaction that it stands in. `Action` is a call that
-- reads and changes the world. The audit log is written on a connection of its own, so no
-- transaction covers it. The Valkey read cache of the transaction repository is not set (`SetCache`
-- is optional).
pub mod Transactions
pub mod Refunds
pub mod Leases
pub mod Keys
pub mod Webhooks
pub mod Disputes
pub mod Reconciliation
pub mod Atomic
pub mod Steps
pub mod Updates
pub mod Clear
pub mod Kept
pub mod Quiet
pub mod Told
use payment_service.Prelude.{
  ℕ, Bool, true, false, Option, none, some, List, [], ◌∷◌, ◌++◌, String, Result, ok, err,
  if◌then◌else◌,
}
use payment_service.Prelude.Int.{ℤ}
use payment_service.Domain.Transaction.{Txn, TxnError, Status}
use payment_service.Domain.Refund
use payment_service.Domain.Dispute.{Dispute, Evidence, DisputeError}
use payment_service.Domain.Dispute
use payment_service.Domain.Reconciliation.{Job, Entry}
use payment_service.Ports.Gateway.{
  PaymentRequest, StatusRequest, CaptureRequest, RefundRequest, CallError,
}
use payment_service.Ports.Outbox.{OutboxEvent, EventType}
use payment_service.Ports.Responses.{Response}

-- `cachedResponse`, the JSON that finalize leaves at the lease.
pub record CachedResponse : Type 0 where
  pub status : Status
  pub gateway_reference_id : String

-- A row of `processing_lease`.
pub record Lease : Type 0 where
  pub key : ℕ
  pub payment_intent_id : ℕ
  pub acquired_at : ℤ
  pub ttl_sec : ℤ
  pub cached_response : Option CachedResponse

pub data AuditReason : Type 0 where
  gateway_initiate gateway_finalize manual_settle refund_processed : AuditReason
  cancel_intent_set payment_created webhook_received : AuditReason
  refund_request : String → AuditReason

-- A state as the audit log names it: of a payment, of a refund, or none.
pub data AuditState : Type 0 where
  no_state : AuditState
  of_txn : Status → AuditState
  of_refund : Refund.Status → AuditState

-- `id` is 0 where the caller leaves it out.
pub record AuditEntry : Type 0 where
  pub id : ℕ
  pub transaction_id : ℕ
  pub actor : String
  pub previous : AuditState
  pub next : AuditState
  pub reason : AuditReason

pub data Notice : Type 0 where
  payment_success refund_completed dispute_opened dispute_won dispute_lost : Notice
  payment_failure refund_failed : Option String → Notice

-- What the services hand to the notification and tenant-webhook dispatchers; those write it with
-- the running transaction, so it goes back with it.
pub data Dispatch : Type 0 where
  notified : ℕ → Notice → Dispatch
  webhook : ℕ → EventType → Dispatch

pub data KeyStatus : Type 0 where
  reserved completed : KeyStatus

-- A row of `idempotency_keys`; `reserved` is the text 'PROCESSING'.
pub record Key : Type 0 where
  pub composite : String
  pub request_hash : String
  pub response : Response
  pub status : KeyStatus
  pub created_at : ℤ
  pub expires_at : ℤ

-- A row of `reconciliation_jobs`. Its column `error` is NULL until an update sets it.
pub record JobRow : Type 0 where
  pub job : Job
  pub error_set : Bool

-- A row of `reconciliation_entries`. The columns that say how it was resolved are NULL until an
-- update sets them.
pub record EntryRow : Type 0 where
  pub entry : Entry
  pub texts_set : Bool

pub record Db : Type 0 where
  pub txns : List Txn
  pub refunds : List Refund.Refund
  pub outbox : List OutboxEvent
  pub leases : List Lease
  pub gateway_metadata : List (ℕ × String × String)
  pub dispatched : List Dispatch
  pub keys : List Key
  pub webhook_events : List (String × String)
  pub disputes : List Dispute
  pub evidence : List Evidence
  pub jobs : List JobRow
  pub entries : List EntryRow

-- What leaves the database's reach, newest first: calls to gateways, to the circuit breaker, to the
-- intent tracker and to the event bus.
pub data Effect : Type 0 where
  initiated : String → PaymentRequest → Effect
  status_checked : String → StatusRequest → Effect
  capture_called : String → CaptureRequest → Effect
  refund_called : String → RefundRequest → Effect
  breaker_failure breaker_success : String → Effect
  intent_entered intent_exited : String → ℕ → Effect
  published : ℕ → Status → Effect

-- Where the running call stands: in no transaction, in one, or in one that a failed statement has
-- aborted, so that every later statement in it fails.
pub data TxState : Type 0 where
  outside inside aborted : TxState

pub record World : Type 0 where
  pub db : Db
  pub tx : TxState
  pub audit : List AuditEntry
  pub effects : List Effect
  pub clock : ℤ
  pub faults : List Bool

pub data Error : Type 0 where
  db_fault not_found version_conflict no_parent scan_failed : Error
  no_fetcher no_tenant no_scope fetch_failed : Error
  txn_error : TxnError → Error
  refund_error : Refund.RefundError → Error
  dispute_error : DisputeError → Error
  no_adapter : String → Error
  not_manual invalid_transition not_refundable key_required bad_response no_gateway
        tenant_required :
      Error
  config_failed timeout_not_configured fee_failed token_failed wrong_capture_mode : Error
  gateway_failed : CallError → Error

abbrev pub Action : Type 0 → Type 0
Action A = World → Result Error A × World

abbrev pub pure : {A : Type 0} → A → Action A
pure a w = (ok a, w)

abbrev pub raise : {A : Type 0} → Error → Action A
raise e w = (err e, w)

-- Shut, so that a proof takes a chain of calls apart by the rules of `Steps`.
infixl 5 ◌>>=◌ ◌>>◌
unfoldable pub ◌>>=◌ : {A B : Type 0} → Action A → (A → Action B) → Action B
◌>>=◌ m f w = let (r, w') = m w in elim r [ ok a ↦ f a w' | err e ↦ (err e, w') ]

abbrev pub ◌>>◌ : {B : Type 0} → Action (Unit {0}) → Action B → Action B
m >> k = m >>= λ _. k

-- An error of the domain packages becomes the service's.
abbrev pub lift : {E A : Type 0} → (E → Error) → Result E A → Action A
lift f (ok a) w = (ok a, w)
lift f (err e) w = (err (f e), w)

abbrev pub gets : {A : Type 0} → (World → A) → Action A
gets f w = (ok (f w), w)

abbrev pub modify : (World → World) → Action (Unit {0})
modify f w = (ok tt, f w)

abbrev pub emit : Effect → Action (Unit {0})
emit e = modify (λ w. record w { effects = e ∷ w.effects })

abbrev pub dispatch : Dispatch → Action (Unit {0})
dispatch d = modify (λ w. record w { db = record w.db { dispatched = d ∷ w.db.dispatched } })

abbrev pub when : Bool → Action (Unit {0}) → Action (Unit {0})
when true m = m
when false m = pure tt

-- `_ = f()`: the error is dropped, what was done stays.
abbrev pub ignore_error : Action (Unit {0}) → Action (Unit {0})
ignore_error m w = (ok tt, (m w).1)

abbrev pub take_fault : List Bool → Bool × List Bool
take_fault [] = (false, [])
take_fault (b ∷ bs) = (b, bs)

abbrev after_failure : TxState → TxState
after_failure outside = outside
after_failure _ = aborted

abbrev pub answered : Bool → TxState → World → Result Error (Unit {0}) × World
answered true state w = (err db_fault, record w { tx = after_failure state })
answered false state w = (ok tt, w)

abbrev pub round_trip : TxState → World → Result Error (Unit {0}) × World
round_trip aborted w = (err db_fault, w)
round_trip state w =
    let (broken, rest) = take_fault w.faults in answered broken state (record w { faults = rest })

-- One round trip to the database: it fails if the next fault says so.
unfoldable pub db_call : Action (Unit {0})
db_call w = round_trip w.tx w

-- The end of a transaction: the tables go back to what they were unless it committed, and the
-- caller's own transaction state, if it has one, comes back.
abbrev pub settle_tx : {A : Type 0} → World → Result Error A × World → Result Error A × World
settle_tx before (ok a, w) = (ok a, record w { tx = before.tx })
settle_tx before (err e, w) = (err e, record w { tx = before.tx; db = before.db })

abbrev pub set_tx : TxState → Action (Unit {0})
set_tx state = modify (λ w. record w { tx = state })

-- What runs between the begin and the end of `WithinTx`.
abbrev pub tx_body : {A : Type 0} → Action A → Action A
tx_body body = do set_tx outside; db_call; set_tx inside; a ← body; db_call; pure a

-- `Transactor.WithinTx`: begin on a new connection, body, commit; any error on the way rolls the
-- tables back, and nothing else.
unfoldable pub within_tx : {A : Type 0} → Action A → Action A
within_tx body w = settle_tx w (tx_body body w)
