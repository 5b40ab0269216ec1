-- ===== src/Lib.antt =====
-- GoPulse: the parts of its backend that must not lose or repeat data.
--
-- The business service stores an event in its outbox in the same transaction as the fact it is about; a
-- dispatcher leases the rows, publishes them and marks them. The monitor keeps what it collects in
-- a spool on disk until Kafka has accepted it. The marshaller consumes it from Kafka under leases on
-- the partitions that it owns. Users page through posts and notifications by cursors; alert rules are
-- evaluated again and again by schedulers under leases; old indices of logs and events are
-- deleted, and requests are limited by a quota that processes share.
--
-- Spool (backend/observability/monitor/internal/spool/spool.go). A queue is a record of the open
--   database, the sequences in flight, and its flags. The buckets of bbolt are a parameter (`Bolt`):
--   an association list in the order of the keys, metadata, and operations that may fail, a failed
--   transaction leaving the database as it was. JSON is a parameter (`Codec`) whose decoder undoes its
--   encoder. Store is the data, Queue `Queue`'s methods, Open `openQueue`, Manager the choice of a
--   queue and the sending loop of `Manager`; Bucket, Eviction, Sound, Accept, Failures, Refuse, Claim,
--   Acknowledge, Trace, Restart and Fairness are proofs. Eviction runs on fuel, one more than the
--   records stored, since each round deletes one: it never runs out. `uint64` sums wrap where the code's do.
-- Outbox (backend/business/internal/outbox/repository.go and model.go). The table `business_outbox` is
--   the list of its rows in the order of their IDs, and a statement is a function on it. Row is the
--   columns and the conditions, Repository the methods Insert (its statement), Claim, MarkPublished,
--   MarkPublishedBatch, ReleaseFailed, Opened `NewRepository`, Cleanup `CleanupPublished` and the
--   dispatcher's `CleanupOnce`, whose rounds are a list; Table, Claims, Trace, Exclusive, Acknowledge,
--   Published and Cleaned are proofs. A clock's reading, the rows that other transactions have locked
--   and whether the database answers come with each call; a text is the list of its bytes and a time
--   is in microseconds.
-- Delivery (backend/business/internal/outbox/dispatcher.go). Settings is `NewDispatcher`, Loop the
--   `select` of `deliver`, a pass of it one event, Publish `dispatchRecordWith`; Bounds, Workers and
--   Lease are proofs. The workers are a list of the records they have; the answers of the store and
--   the publisher, the timers' order and the jitter come with the events.
-- Consumer (backend/observability/marshaller/internal/consumer/ownership.go and processor.go).
--   Ownership is the map from partitions to generations and the contexts cancelled; Leases and Staleness
--   are proofs. Processor is `Handle`, `reject` and `commit`, over the answers that come on each
--   attempt: `commit` makes at most three, and the loop of `Handle`, which has no bound, ends in
--   `waiting` when the attempts given to it are used up. The decoder and the transformers are
--   parameters; Commits and Delivered are proofs.
-- Paging (backend/business/internal/post/pagination.go, service.go and repository.go, and the same files of
--   backend/business/internal/notification). Base64 is `encoding/base64` as the cursors use it, Cursor
--   `EncodeCursor`, `DecodeCursor` and `ParseListOptions`, Listing the order, the condition on the cursor and
--   the limit of the list statements, and `Service.List`; RoundTrip, Order and Walk are proofs. JSON and the
--   text of a time are a parameter (`Wire`). The client of Walk asks for as many pages as it is given.
-- Alert (backend/business/internal/alert/model.go, scheduler.go and repository.go). Rule is the data and
--   `condition`, Evaluation the lease of `evaluate` and the transaction `apply`, Changes `Mutate`; Trace is any
--   sequence of them. History says when a rule ought to fire, of all that was observed since it was last
--   changed; Incidents, Evaluated, Changed, Consistent, Follows and Refinement are proofs. The comparisons of
--   floats are a parameter, and a panic on a missing incident is `none`.
-- Retention (backend/observability/marshaller/internal/retention/policy.go, runner.go and the errors of
--   elasticsearch.go). Policy is the dates and decisions, over a parameter that writes and reads dates
--   (`Calendar`), Runner `RunOnce` and `remove`; their loop is a recursion on the retries left. The store's
--   answers, the clock and the end of a round come with each visit of an index. Agreement, Deletes and Budget
--   are proofs.
-- RateLimit (backend/business/internal/ratelimit/lease.go and limiter.go). Lease is the table of leases and
--   `SharedLimiter.Allow` over the answers of the script; in Account the two halves of requests, the
--   taking of a token and the answer of the script, come in any order; Room and Quota are proofs.
-- Base is what they share; Examples runs the theorems at concrete inputs.
--
-- Not modelled: metrics, logging and tracing, which change no state that is modelled; the manager's
-- start and shutdown; the retention accounting that the outbox's clean-up releases and the upgrade of an
-- event to the second schema version; the values that alert rules compare, and their validation; the
-- joins and filters of the listings; how an index is found to be owned; the script and the local
-- fallback of the rate limiter; the reading of configuration, HTTP handlers, SQL outside the outbox,
-- the alerts and the listings, the exporters, the frontend, the tools, and third-party libraries but
-- for what is a parameter.
pub mod Base
pub mod Spool
pub mod Outbox
pub mod Delivery
pub mod Consumer
pub mod Paging
pub mod Alert
pub mod Retention
pub mod RateLimit
mod Examples
