-- ===== src/Lib.antt =====
-- go-saga-outbox: a booking saga over Kafka, with a transactional outbox and an inbox.
--
-- The program is four services, each with a PostgreSQL database of its own, that exchange commands
-- and events over Kafka. The orchestrator keeps the sagas: an event is taken by a consumer
-- (pkg/kafka/consumer.go), goes through the dead-letter wrapper (pkg/dlq/wrapper.go) and the router
-- (orchestrator/internal/consumer/router.go) to a handler of the saga service
-- (orchestrator/internal/service/saga.go). The handler runs in one transaction (pkg/trx/trx.go): it
-- notes the message in the inbox (pkg/inbox), changes the saga, appends a step and puts the next
-- command into the outbox (pkg/outbox), from where a relay publishes it. A scheduler sends the
-- commands of sagas again whose deadline has passed, and gives up after five attempts. The
-- inventory, payment and notification services take the commands in the same way and answer with
-- events.
--
-- The files:
--   Base          library names, Boolean tests, lists and integers over the native numbers.
--   Runtime       a service as a state monad: tables, clock, drawn ids, counters, errors, panics.
--                 What is not of this repository (PostgreSQL's faults and locks, the clock, UUIDs,
--                 error texts) is the record `Env`, indexed by the number of the event that asks.
--                 `statement` is one SQL statement; `Ends` says how a call ends, and `Keeps` what
--                 it keeps true of the tables.
--   Trx           pkg/trx/trx.go: `run` is runInTx, which does not tell its caller that a commit
--                 failed. Trx/Atomic, Trx/Ends and Trx/Keeps are its rules.
--   Storage       the rows of inbox, outbox and dead_message (the migrations).
--   Contracts     pkg/contracts and pkg/messaging: topics, event types, payloads, headers.
--   Inbox, Outbox pkg/inbox and pkg/outbox: the repositories, with NewOutbox.
--   Kafka         pkg/kafka/consumer.go: toMessage, GetSagaIDFromHeaders and Run, whose loop is
--                 recursion over the list of what the reader gives.
--   Relay         pkg/outbox/relay.go and producer.go with Send of pkg/kafka/producer.go. The loop
--                 of the relay recurs on the number of ticks that come before its context ends.
--   Dlq           pkg/dlq: Wrap, writeDLQ and the repository.
--   Collectors    pkg/metrics: what the collectors of the gauges read and show.
--   Orchestrator/Model    orchestrator/internal/model. StepTimeout shifts an int64, which is
--                 written out modulo 2 ^ 64.
--   Orchestrator/Repo     orchestrator/internal/repo: the tables saga and saga_step.
--   Orchestrator/Service  the methods of SagaService, one `on_` function for each transaction:
--                 Booking, Forward, Failures, Compensation, Scheduler and Replay, with what they
--                 share in Shared. Effects and Refusals describe abstractly what a handler writes
--                 and why it can fail; Rules and Sending are the proof rules.
--   Orchestrator/Service/Router  Route, and the handler that app.go gives to the consumers.
--                 Moves and Transitions are the ways of a saga's state; Service/Growing is about
--                 any sequence of the operations of the service.
--   Orchestrator/Handler  orchestrator/internal/handler and dto: the HTTP handlers, as functions of
--                 what echo binds.
--   Handling      what the handlers of the three services below share: the inbox, the transaction
--                 and the event in the outbox.
--   Payments      payment/internal: the model, the repository, the service and the router of the
--                 payment service. Charging and Refunding are its two handlers.
--   Reservations  inventory/internal, its tables in Reservations/Model. Reserving and Releasing are
--                 its two handlers, Holders and NoDoubleBooking who holds a seat.
--   Notifications notification/internal. Sending is its handler.
--   Flow          a booking from StartBooking through the relay and the consumer to the inventory
--                 service.
--   Tests         concrete inputs.
--
-- The model: a table is a list of rows, the latest first, and a statement is a function of the
-- tables that can also fail, by a fault of the moment, by a violated key, or in an aborted
-- transaction. Errors are what errors.Is and errors.As can tell apart. encoding/json is a record of
-- codecs; the theorems that need it assume that structs of texts, numbers and UUIDs marshal
-- (`Encodes`). Bytes that go through a JSONB column decode as before; dead_message.headers, which one
-- type writes and another reads, comes back through `Env.jsonb`, and the model keeps the bytes of
-- the other JSONB columns. No function needs fuel: every loop goes over a list that is there at its
-- start, and the relay's over its ticks.
--
-- Not modelled: the tickers that start the scheduler and the collectors, start-up, configuration
-- and shutdown, the metrics server, the set-up of the database and Kafka, and what echo does; they
-- are I/O. The unused Refund and Refunded of the notification contracts are left out. Two
-- transactions that run at the same time meet only in the locks of FOR UPDATE SKIP LOCKED, which
-- `Env` gives; the collectors read the tables of the moment of each query. The texts that
-- fmt.Errorf puts in front of errors are left out, and so are the logs.
pub mod Base
pub mod Runtime
pub mod Trx
pub mod Storage
pub mod Contracts
pub mod Inbox
pub mod Outbox
pub mod Kafka
pub mod Relay
pub mod Dlq
pub mod Orchestrator
pub mod Handling
pub mod Collectors
pub mod Notifications
pub mod Payments
pub mod Reservations
pub mod Flow
pub mod Tests
