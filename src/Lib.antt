-- ===== src/Lib.antt =====
-- OfflinePay: offline payments with spending tokens, and their settlement.
--
-- A user reserves money for an offline token (internal/token). A device signs a payment and seals
-- it in an envelope (internal/intent), which relays pass on (internal/relay) to the settlement
-- service (internal/settlement). That one checks it, asks the risk engine (internal/risk) and runs
-- a saga (internal/saga) of four transactions over the repository (internal/repository): RESERVE
-- stores the payment and its nonce, CONSUME_TOKEN holds the token, LEDGER_COMMIT moves the money
-- and writes the ledger, PUBLISH writes the messages. A failed step is compensated, and the
-- failure recorded for recovery (internal/recovery), which retries it later. Workers publish the
-- messages of the outbox (internal/outbox), from which the read model is built
-- (internal/projection). A payment's events can be replayed (internal/eventsource), and a
-- simulated cluster replicates a log of commands (internal/cluster).
--
-- The files and the code that they model:
--   Prelude       shared names, Boolean tests, lists, int64 with its wrap-around (Prelude.Int)
--   Domain        internal/domain/models.go: states, transition tables, rows; Lifecycle proves
--                 what the tables guarantee
--   Database      the tables with the constraints of internal/db/migrations, and a monad of
--                 statements and transactions; Laws inverts each of them, Rows has lemmas on tables
--   Repository    internal/repository/repository.go, one function for each method, by table
--   EventSource   internal/eventsource/eventsource.go: Record saves events and snapshots, Replay
--                 replays them, Agreement compares the ways to do so, Parties has what it knows
--   Saga          internal/saga/saga.go: Execute and compensate
--   Recovery      internal/recovery: classifier, policy, states, RecordFailure, and RunOnce
--                 (Runner), whose attempts Attempts and Tries count
--   Risk          internal/risk/risk.go: Assess as a list of rules (Engine), ordered by Order
--   Settlement    internal/settlement/service.go: Platform has what it takes from other packages,
--                 Steps the saga's steps, Service the checks of Settle; Reserve, Effects, Publish,
--                 Checks, Reads, Outcome and Settled invert them, Exact, Money and Entries count, and
--                 Guarantees and Rollback state what callers can rely on; Envelope has the device's
--                 side, internal/intent/service.go
--   Token         internal/token/service.go: Issue and Release, with Laws and Reserve on the issue,
--                 Limit on the credit limit and Refund on the release
--   Cluster       internal/cluster/cluster.go: Nodes has the calls and System the steps; Change,
--                 Propose and Failover keep the nodes consistent, and Log, Leader and Election
--                 state what follows for every run
--   Outbox        internal/outbox/outbox.go: Worker has the calls, Attempt, Retry and Replay follow
--                 an event, and Waiting, Others and Stuck a row that no worker takes
--   Projection    internal/projection/worker.go: Worker has the handlers, Deliver and Order what
--                 one and two deliveries do
--   Relay         internal/relay/service.go: Service has the calls, Duplicates what the cache
--                 drops, Forward the retries
--   Validator     internal/validator/validator.go: the audit of the ledger and the accounts, with
--                 its queries in Repository/Audits; Accounts and Balanced invert it
--   Identity, Reconciliation
--                 internal/identity/service.go, and the scan of internal/reconciliation/service.go
--
-- The state is a `World`: the tables (lists of rows, newest first), the time, and the outages to
-- come. Each statement, begin and commit may fail by an outage, so a theorem on a result covers
-- the failures of the database too, unless it names a database that answers (`calm`). A call is a
-- function of the world into a result and the world after it; Go's errors are values of `Error`,
-- with `%w` as `wrap`. Each step of a saga is atomic, and the world is that of one request at a
-- time: the interleaving of two requests is not modelled, nor are row locks. An error's text keeps
-- the constant parts of its format, which is what the code searches for. The cluster and a relay's
-- cache have states of their own; the cluster's calls run one after the other, with the elections
-- and the late appends of cancelled proposals between them.
--
-- Loops are structural recursion on lists or on the number of attempts that are left, so no fuel
-- is needed. Money is an int64 as an integer with `add64` and `sub64`; times are nanoseconds since
-- Go's zero time as natural numbers; trust scores are counted in thousandths, confidences in
-- hundredths and risk scores in ten-thousandths.
--
-- Cryptography, JSON, the formatting and parsing of numbers, the answers of Redis, the ids of the
-- uuid package, the relay's settlement client and the LLM classifier are parameters. Not modelled:
-- logs and metrics, sleeps and tickers, the HTTP interface, the event bus and start-up.
pub mod Prelude
pub mod Domain
pub mod Database
pub mod Repository
pub mod Saga
pub mod Recovery
pub mod EventSource
pub mod Risk
pub mod Settlement
pub mod Token
pub mod Cluster
pub mod Outbox
pub mod Relay
pub mod Projection
pub mod Validator
mod Identity
mod Reconciliation
