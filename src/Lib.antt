-- ===== src/Lib.antt =====
-- go-service-template-rest: a model of the service's runtime core and its theorems.
--
-- The program is a Go service template: HTTP and gRPC transports in front of feature code, with
-- PostgreSQL, JetStream and webhook adapters. Modelled are the parts that decide something: how a
-- repeated mutation is answered, when the service is ready, how background tasks fail, and how
-- errors become published failures.
--
-- Failure: internal/failure. The codes, `Classify`, and the chain of names and classes that stands
--   for an error in a log (Failure/Chain).
-- Health: internal/health/service.go. The cached verdict with its threshold and its staleness
--   guard; Health/Watch has the loop of `Watch`, its timer and its callback, as events in a list. An
--   iteration and a run of the timer have two steps, between which the drain may start.
-- Background: internal/background/background.go. How a task's end is classified, and the supervisor
--   as a step relation (Background/Lifecycle) in which goroutines end in any order. The test of
--   `recordStop` and its compare-and-swap are two steps.
-- Idempotency: internal/httpidempotency/idempotency.go. Keys, scopes, request identities and, in
--   Idempotency/Codec, stored results. Idempotency/Store has the queries of
--   internal/infra/postgres/queries/postgres_http_idempotency.sql, `execute` of
--   internal/infra/postgresidempotency/store.go with `InTx` of internal/infra/postgres/transaction.go
--   (Idempotency/Store/Execute), the executor of `NewExecutor` (Idempotency/Store/Executor) and
--   the removal of expired evidence (Idempotency/Store/Cleanup).
--   Its failures are those that Failure publishes.
-- Jetstream: internal/infra/natsjs. The configuration of a worker; Jetstream/Wire has the envelope
--   of a message, Jetstream/DeadLetter the transfer of a delivery that was given up and the event
--   restored from it, and Jetstream/Worker what `handle` does with one delivery, as the list of what
--   it asks of the broker and reports.
--   Jetstream/Domain is the event of internal/domainevent/event.go, Jetstream/Registry the routes and
--   handlers of registry.go, and Jetstream/Producer a publication (producer.go).
-- Http: internal/infra/http. Http/BodyShape is the streaming pass over a request body of
--   request_body_shape.go: the scan of the tokens against a shape, Http/BodyShape/Compile the shape of
--   a schema, Http/BodyShape/Request what is admitted and what the next handler reads. The scan has
--   three steps of fuel for each token and one, which is never used up.
-- Grpc: internal/infra/grpc. The standard health service; Grpc/Status is the boundary of status.go that
--   turns what a handler or a policy returned into a status, and Grpc/Admission the budgets of
--   concurrent calls with the drain of interceptor_admission.go, as a step relation in which calls
--   begin, go on and end while the server shuts down.
-- Webhook: internal/infra/postgreswebhook with internal/webhooksecret. Webhook/Manifest and
--   Webhook/Secrets are the endpoints and keys, Webhook/Dispatcher the preparation and the staging of
--   a fan-out, Webhook/Retry the schedule of a delivery, Webhook/Transport the addresses and what
--   sending gives, and Webhook/Delivery one attempt (`handler.Work`).
-- Inbound: internal/infra/postgresinboundwebhook with internal/inboundwebhook. What a signed delivery is
--   verified by; Inbound/Manifest has the endpoints with their keys, Inbound/Receiver the acceptance
--   of a delivery in a transaction, and Inbound/Worker hands a receipt to the handler of its endpoint.
-- Outbound: internal/outboundtrust/public_address.go, the addresses that may be connected to.
-- Base: integers, byte strings, lists and Go's error values, shared by all.
--
-- A Go function with state is a function from the state to the state and its results. A Go `error`
-- is a tree (Base/GoError) on which `errors.Is` and `errors.Unwrap` compute; messages are left out
-- where no code reads them. A context is what its Err gives at the moments the code asks. Times are
-- nanoseconds; a Duration is an int64 with its wrap-around, and lengths are natural numbers.
--
-- Parameters of the model: SHA-256, encoding/json, the probes, tasks and work of feature code, the
-- clock, and what the database, the broker and the network answer. A theorem that relies on one of
-- them names what it relies on among its hypotheses.
--
-- Fuel: the traversal of an error takes its height, which the theorem about it gives, a decimal twenty
-- digits, which a uint64 does not exceed, and a cleanup one batch more than there are identities. All
-- other loops recurse on their data.
--
-- Not modelled: wiring, telemetry, generated code, and the third-party clients; nor the problem
-- responses and the router of HTTP, the configuration, authentication, the outbox relay, migrations,
-- and the start and stop of the process. Two transactions on one row are ordered by the row lock of
-- the database, and a call runs on the table that the lock leaves it.
pub mod Base
pub mod Failure
pub mod Health
pub mod Background
pub mod Idempotency
pub mod Jetstream
pub mod Http
pub mod Grpc
pub mod Webhook
pub mod Outbound
pub mod Inbound
