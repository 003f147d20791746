-- ===== src/Lib.antt =====
-- A model of the payment service and the proofs about it.
--
-- The program takes payments to third-party gateways, records what became of them, and refunds them.
-- Its domain packages (internal/domain) are state machines on plain records; its services
-- (internal/app) drive them: they read a payment from PostgreSQL, call a gateway, and write the
-- outcome, the outbox events and the cached response in one database transaction
-- (internal/adapters/postgres). Jobs recover payments and refunds that were left behind.
--
-- Which file models which part:
--   Domain/Transaction        internal/domain/transaction/transaction.go: `Txn`, `Validate`; `New` is
--                             Creation
--   Domain/Transaction/Machine  state_machine.go: `TransitionState` and its table; its children prove
--                             the machine against a diagram and over sequences of requests
--   Domain/Refund             internal/domain/refund/refund.go
--   Domain/Dispute            internal/domain/dispute/dispute.go
--   Domain/Gateway            the circuit breaker of internal/domain/gateway/gateway.go
--   Domain/Reconciliation     internal/domain/reconciliation/reconciliation.go
--   Ports/Gateway, Ports/Outbox  internal/ports/gateway.go, outbox.go: requests, replies, events
--   Domain/Fees               internal/domain/fees/fees.go, over any arithmetic of floats
--   Ports/Responses           the answers that services keep with an idempotency key
--   Postgres                  internal/adapters/postgres/transactor.go, the state of the tables and
--                             the monad of calls; Transactions (with outbox.go, audit.go), Leases,
--                             Refunds, Keys (idempotency.go), Webhooks, Disputes and Reconciliation
--                             are the repositories; Steps, Updates, Atomic, Clear, Kept, Quiet and
--                             Told are the logic for calls
--   App/Idempotency           internal/app/idempotency/idempotency.go: the guard; Hashes its hashes
--   App/Payment               internal/app/payment: Outcome, Service and Finalize are gateway.go,
--                             Process is process.go; Attempt (Authorize, Capture, Settle), Initiate
--                             (ProcessGatewayInitiate) and Create are service.go
--   App/Refund                internal/app/refund: service.go (Guarded is the path with the guard),
--                             Process for process.go and Cancelled for its ResolveCancelRefund;
--                             Covered is about sequences of all of them
--   App/Cancel                internal/app/cancel/service.go
--   App/Webhook               internal/app/webhook/service.go: what a gateway's event does
--   App/Dispute               internal/app/dispute/service.go: CreateDispute; Ingest is
--                             IngestGatewayDispute, Evidence who may see a dispute and hand in evidence
--   App/Reconciliation        internal/app/reconciliation/service.go: the comparison of a report with
--                             the payments; Jobs is the life of a job
--   Relay                     internal/relay/relay.go (Backoff, Worker) and the delivery side of
--                             internal/adapters/postgres/outbox.go (Outbox, Outbox/Queue)
--   Relay/Ring                internal/relay/ring/ring.go: which worker polls which shards
--   Valkey/Breaker            internal/adapters/valkey: circuit_breaker.go and the breaker's scripts in
--                             scripts.go; Agreement is against Domain/Gateway
--   Prelude                   shared names, int64 arithmetic, lemmas on lists and texts
--   Tests                     runs on concrete values
--
-- How the code corresponds. A method on a pointer that changes a record is a function that returns
-- the changed record. A function with an error result returns `Result`, with a constructor for each
-- error. A service method is an `Action`: it takes a `World` (the tables, the audit log, the calls
-- that left the process, the clock, the faults ahead) to a result and a world. Each database call
-- takes one entry of `faults` and fails if that says so, so a theorem about every world is one about
-- every pattern of database failures. A transaction that fails restores the tables, and nothing
-- else. The gateways are an argument: a table of adapters, of which nothing is assumed. Within one call
-- an adapter answers the same request alike; a sequence of calls takes a new table for each.
--
-- UUIDs are numbers, 0 for the nil one; times are nanoseconds; amounts are `int64`, in ℤ with the
-- wrap-around written out (`add64`, `mul64`, ...) wherever the code computes with them; versions and
-- counters, which only grow by one, are natural numbers. JSON payloads are their fields. Every
-- function is structural but one: the walk round the ring of shards goes on a fuel of two steps more
-- than the ring has nodes, which meets every node and is enough to find two workers.
--
-- The relay has a state of its own, `Store`: the rows of the outbox with their delivery columns, which
-- the services do not read, the dead letters, and the faults ahead. Floats, the hashes, the
-- upper-case folding, the texts of UUIDs and numbers, the fee configuration and the random draw of the
-- backoff are arguments; where a theorem needs something of them, it is a named hypothesis.
--
-- Not modelled: logging, metrics and tracing, which change no state; the call of `ResolveCancelRefund`
-- from the payment and webhook services, which take it as an optional resolver (for the webhooks it
-- would be a transaction inside a transaction, on another connection); the read cache of the
-- transaction repository; two calls that interleave (a call runs with the database to itself between
-- its own faults); the time that passes within a call, whose clock stands still; the endless loops
-- around `RunOnce` and the jobs' timers; floats (discrepancy rates, `DaysUntilDue`, the rounding of
-- fees); the filtered lists and their pages, of which reconciliation takes the ids as an argument; the
-- notification, tenant webhook and gateway services; the HTTP API, the gateway adapters, the rest of
-- Valkey and the wiring.
pub mod Prelude
pub mod Domain
pub mod Ports
pub mod Postgres
pub mod App
pub mod Relay
pub mod Valkey
pub mod Tests
