-- ===== src/Lib.antt =====
-- The payment service: it takes payment requests of other services, charges them through a payment
-- gateway, follows what becomes of them through webhooks and a reconciler, refunds them, and
-- publishes what happened through an outbox.
--
-- The parts and their files:
--
-- Errors, Json: internal/pkg/apperror/errors.go, and the JSON values that payloads hold. A call
--   that returns (value, error) in Go is a Result here.
-- Domain: internal/domain/payment. Status, Method and Types hold the data; Aggregate holds New,
--   MarkPending, MarkCompleted, MarkFailed, MarkExpired and Cancel (aggregate.go), Refunds holds
--   RequestRefund, CompleteRefund and FailRefund with their sums (refund.go). Lifecycle makes the
--   operations a step relation; Invariant, RefundsValid, History, Closed, Changes, Keys, Amounts
--   and Outcomes are about it.
-- Ports: internal/application/ports, the gateway as a record of functions, the recorded attempts
--   and the cache keys.
-- Store: internal/adapter/outbound/postgres. Rows holds the tables, Queries the SQL statements with
--   the constraints of the migrations, Save the transaction of PaymentRepo.Save, Find the lookups,
--   Attempts the attempt recorder. Locking, Journal, RoundTrip and Numbering are about them.
-- Command: internal/application/command. World is the state that a handler changes and the
--   surroundings that answer it, Calls the calls of the ports; Create, Refund, Cancel, Callback,
--   Reconcile and ReconcileRefunds are the handlers, and Locked the passes under a lock of the
--   cache. LockedPasses and ReconcilePasses are about those passes. Frame, Yields, Sends and
--   Succeeds carry the rules by which the other files of that folder are proved.
-- Midtrans: internal/adapter/outbound/gateway/midtrans and gateway/factory.go. Of adapter.go, Host
--   holds the configuration and the library, Status the statuses, Transport do and send, Calls
--   CancelTransaction, GetTransaction and CreateRefund, Webhook ParseWebhook; of charge.go, Charge
--   builds a charge request, NextStep reads the customer's next step, and Adapter is
--   CreateTransaction and the gateway that Ports describes. Replies, Signed, RefundOutcomes,
--   StatusOutcomes, Forged, ChargeOutcomes and ChargeBody are about them.
-- Outbox: outbox_worker.go of internal/adapter/outbound/postgres (Worker, with Run over its ticks,
--   between which rows arrive and other replicas make passes), its statements in db/outbox.sql.go
--   (Queries), and internal/adapter/outbound/rabbitmq/event_publisher.go (Publisher). Delivery,
--   Retries, Passes and Routing are about them.
-- Query: internal/application/query. Views holds the cached reads, Cursor the page cursors, Listing
--   the listing with ListPaginated of the repository. Cached, Order, Pages and Own are about them.
-- Http: internal/adapter/inbound/http, its middleware, and internal/pkg/apikey. Replies is
--   WriteError of middleware/error.go, Idempotency the claimed keys, Payments and Refunds the
--   handlers that create or cancel a payment and create a refund, with the webhook, Reads those
--   that read with the paging parameters of list.go, Admin the admin listing and the forced expiry,
--   Keys and Auth the API keys. Claims, Replay, OwnListing and Tenants are about them.
-- Expiry: internal/adapter/outbound/postgres/expiry_job.go, in Job; Pass is about it.
-- Examples: concrete runs.
-- Common: shared names, Go's int64 and package strings.
--
-- How the state corresponds: a *Payment that a method mutates is a value that the operation takes
-- and returns. Every operation of the aggregate checks its guard before it writes, so an error
-- leaves the value that it was called with. A handler is a function of a World (tables, cache,
-- attempts, gateway calls, log, a tick) to a result and a World; the tick counts the accesses to
-- the surroundings, and the clock, the new UUIDs, failures of the database, commits of other
-- requests and the answers of a gateway are functions of the tick. Each call of the repository may
-- find that others committed before it, which is how concurrent requests appear. The payment and
-- its refunds are read by two queries, between which others may commit (later of a Session). A Save
-- is one transaction: each of its statements may fail, and then no table changes.
--
-- Bounds: amounts are int64 values, added and subtracted with wrap-around at 2^64; a well-formed
-- payment has an amount below 2^63. Sequence numbers of events are int32 values, with their
-- wrap-around at 2^32; versions are natural numbers. Times are integer nanoseconds, and a time that
-- is written to a payment or a refund becomes what the function column_time of a Session keeps of
-- it, since a TIMESTAMPTZ column has microseconds; the bounds of a listing are compared as they
-- are. UUIDs are their numbers. The VARCHAR limits of payments and refunds refuse every longer
-- value, also one that PostgreSQL would shorten by trailing spaces; in payment_attempts such a
-- refusal is one of the faults of its statement. The loops run over lists, and a ticker loop over
-- the ticks until its context ends, so no fuel is used; the attempt recorder tries three times, the
-- outbox worker retires a row at its limit of failures, and a page has at most 100 rows.
--
-- Code outside the repository is a parameter: the HTTP exchange with Midtrans and JSON decoding,
-- SHA-512 and SHA-256, the formats of numbers, times and UUIDs, base64, LIKE, the broker that takes
-- a message, and the Redis client.
--
-- Assumed of the surroundings: a new refund's UUID is not yet one of the payment's refunds, where a
-- refund opens in the step relation; for claimed keys, that the cache gives back a value that was
-- set or claimed, that SetNX keeps a value that is there, and that records survive their JSON
-- (Relies); for cached reads, that a missing key is an error; for pages, that the key of a row
-- survives its cursor (ReadsBack); for the outcomes of a charge, a refund or a status check, that
-- the request can be encoded and made (CanSend). Nothing is assumed of a gateway's or of Midtrans'
-- replies.
--
-- Not modelled: Info log lines, tracing and metrics, contexts and their cancellation, failures of
-- encoding the rows' JSON columns (such a column holds the value that it encodes), and the texts of
-- wrapped database errors. Outside the model are the admin reader and the handlers over it, the
-- route table, the generated server code, request logging, the wrappers of the Redis and RabbitMQ
-- connections, the configuration, the programs under cmd, and internal/testsupport.
pub mod Common
pub mod Errors
pub mod Json
pub mod Domain
pub mod Ports
pub mod Store
pub mod Command
pub mod Midtrans
pub mod Outbox
pub mod Query
pub mod Http
pub mod Expiry
pub mod Examples
