-- ===== src/Lib.antt =====
-- TaskForge: a durable job queue on PostgreSQL. Clients submit jobs, workers claim them under
-- leases, and a job's whole life is decided by transactions of a few stores. This library models
-- those transactions, one function for each, and shows what holds of the database after any
-- sequence of them.
--
-- Parts, files and code:
--   Base         lists, options, numbers and results, and Base/Trim Go's strings.TrimSpace
--   Table        tables behind their primary keys, with the SELECT, INSERT and UPDATE that the
--                stores use; Table/Scan the queries that collect candidates, Table/Page keyset pages
--   Canonical    sets of names: canonicalSet of internal/workers/validation.go
--   Schema       the tables of migrations/, and the statuses of internal/jobs/job.go and
--                internal/workers/types.go
--   Lifecycle    internal/lifecycle: failure classes, error codes; Lifecycle/Retry is retry.go and
--                Lifecycle/Dlq is dlq.go
--   Outbox       internal/outbox: the insert of a `work.available` event; Outbox/Delivery is what
--                store.go offers the publisher, Outbox/Backoff backoff.go and Outbox/Publisher
--                publisher.go
--   Workers      internal/workers: requests and answers (types.go, validation.go);
--                Workers/Authority the fence (store.go lockAuthorityRows), Workers/Claim Claim,
--                Workers/Execution Start, Succeed (store.go) and RenewLease (heartbeat.go),
--                Workers/Finalize and Workers/Outcome outcome.go, Workers/Reconcile reconcile.go
--                and timeout.go, Workers/Sessions Register, Heartbeat and markSessionStale;
--                Workers/Calls, Workers/Replays and Workers/Success are about several of them
--   Jobs         internal/jobs: CanonicalJson (canonical.go), Normalize and Fingerprint
--                (submit.go), Submit (store.go), Cancel (cancel.go), Replay (dlq.go), Listing
--                (list.go, dlq.go), Schedule (schedule.go); Jobs/Idempotency, Jobs/Cancellation and
--                Jobs/Replays are about requests made again
--   Transitions  the abstract system: the few ways in which one transaction changes a job, its
--                attempt, its lease, its event and its dead-letter entry; its invariant in
--                Transitions/Invariant, and the job's state machine in Transitions/Graph
--   System       the stores' transactions as steps, and runs of them; System/Safety is about runs
--   Passes       RunOnce of internal/scheduler/scheduler.go and internal/reconciler/reconciler.go,
--                with the scans that they make; Passes/Accounts is about what a pass
--                of the scheduler reports
--   Auth         internal/auth: Auth/Key is key.go and Auth/Store store.go, of which
--                internal/workerauth/store.go is a copy over its own table
--   Worker       internal/worker: Worker/Registry is cancellation.go, Worker/Renewal the renewal
--                loop of renewal.go with parseRenewal and executionBudget of client.go, Worker/Retry
--                retry and reportFailure of runner.go, Worker/Outcome the end of its processMessage
--   Examples     runs on small numbers
--
-- How the code is read:
--   A transaction is a function from the database to a `Result`: an error writes nothing, since the
--   code rolls back. Rows are locked in the code so that concurrent transactions on the same job
--   behave as some sequence of transactions; a run is such a sequence. The rows that SKIP LOCKED
--   passes over are the argument `locked` of Claim and ClaimDue. The ids that ClaimDue
--   returns are listed in the order of its query, which UPDATE ... RETURNING does not promise. Lost connections and failed commits
--   are errors that write nothing. Fresh UUIDs, samples of the clock and samples of the jitter source
--   are arguments; a fresh UUID that is taken is a violation of the key, as in the database.
--   A pass reads its candidates without a lock. What other processes write before the scan and before
--   each candidate, the transactions that cannot begin, and what each of them draws, are the record
--   `Scan` (for the publisher `World`).
--   A UUID is a number and uuid.Nil is 0; instants and durations are numbers of nanoseconds, without
--   PostgreSQL's rounding to microseconds. A string is its bytes. CHECK constraints are not
--   enforced; primary keys and the unique indexes that the code meets are. The worker measures time
--   by the database's clock: in the code it adds durations to readings of its own.
--   Go's float64 is the parameter `Float64`, with the facts of IEEE 754 that the bounds need. SHA-256
--   and base64 are the parameter `Codec`, the formats of cursors `Formats`, the JSON decoder
--   `JsonCodec`, each with what its documentation promises. Submit takes the fingerprint of a request
--   as a parameter.
--   The network between worker and control plane may lose any request or answer. Which of the API's
--   errors a refusal becomes is a parameter of Worker/Retry.
--   Every loop of the code is structural recursion over a table, a string or the attempts of a
--   retry. TrimSpace takes at least one byte a turn, so the string's length is fuel enough; the
--   client that follows a listing has one page more than there are rows.
--
-- Not modelled: the first half of the worker's message processing (the deliveries in flight, the
-- claim and the start), the classification of a handler's error, the heartbeat loop and HTTP client
-- (goroutines around the operations here), the cancellation directives of a heartbeat's answer,
-- NormalizeRegistration, the listings of attempts and queues, the timers around the passes, the HTTP
-- API, configuration, metrics, and the adapters to SQS and S3.
pub mod Base
pub mod Table
pub mod Canonical
pub mod Lifecycle
pub mod Schema
pub mod Outbox
pub mod Workers
pub mod Jobs
pub mod Transitions
pub mod System
pub mod Passes
pub mod Auth
pub mod Worker
pub mod Examples
