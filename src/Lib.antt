-- ===== src/Lib.antt =====
-- A marketplace backend: users hold wallets of coins, place orders for published apps, pay them from
-- a wallet and receive a subscription through an outbox. The services are Go code over PostgreSQL;
-- what is modelled is their own logic and the statements that they send.
--
-- The parts.
-- - Wallet: services/wallet. `Wallet.Domain` has the entities (domain/wallet.go, transaction.go),
--   `Wallet.Store` the tables and single statements of repository/wallet_repository.go,
--   `Wallet.Change` its applyWalletChange with Credit, Debit and DebitInTx, `Wallet.Transfer` its
--   Transfer and ListTransactions. The proofs: `Ledger` (the invariant), `Records` (a
--   posting), `Posting` (one change), `Idempotency` (changes as callers see them), `Conservation` and
--   `Transfers` (transfers), `History` (any requests).
-- - Order: services/order. `Order.Domain` has the entity (domain/order.go), `Order.Store` the tables
--   and statements of repository/order_repository.go, `Order.Payment` its Create, Pay, Purchase and
--   Cancel, `Order.Outbox` the batches of the two workers. Pay debits the wallet through
--   `Wallet.Change.debit_in_tx` inside its own transaction. The proofs: `Rows` (how a row of the
--   table of orders may change), `States` (create and cancel), `PayStates` (pay and purchase) and
--   `WorkerStates` (both workers), `History` (any requests), `Settling` and `Settlement` (what a
--   payment does).
-- - Handlers: `Web` has what the handlers share; `Wallet.Handlers` and `Wallet.Queries` are those of
--   services/wallet/app (http_service.go and grpc_service.go), `Order.Handlers` and `Order.Queries`
--   those of services/order/app/http_service.go; `Wallet.Access` and
--   `Order.Access` are proofs about whose wallets and orders they touch.
-- - Accounts: services/iam with common/middleware/auth.go and common/utils. `Iam.Roles` has the roles
--   and their permissions (repository/role_repository.go, domain/rabc.go), `Iam.Groups` the groups
--   (app/services/group_service.go over repository/group_repository.go), `Iam.Passwords` the stored
--   hashes (common/utils/hash.go), `Iam.Sessions` tokens, sessions and the authentication of a
--   request (common/utils/jwt.go, common/middleware/auth.go), `Iam.Users` the handlers of
--   app/user_auth.go. The proofs: `RoleLaws`, `Members` and `Ownership`, `SessionLaws`, `Logins`
--   and `Accounts`.
-- - Market: services/market. `Market.Store` has the apps and their tables (domain/application.go,
--   respository/app_respository.go), `Market.Boards` the sorted sets of downloads, `Market.Cache` the
--   cache of details in Redis, `Market.Handlers` and `Market.Publish` the handlers of app/market.go.
--   The proofs: `Coherence`, `Writes` and `Details` (the cache and the table), `Owners` and `Authors`
--   (whose apps change), `Publishing` and `Republishing` (publications), `Downloads`, `RankOrder` and
--   `Ranked` (the rankings of `Market.Rankings`).
-- - Authorisation: common/middleware/authz.go with common/utils. `Authz.Policies` has what
--   casbin_adapter.go loads, `Authz.Pool` the enforcers that casbin_manager.go keeps, `Authz.Nodes` the
--   messages of common/queue/rocketmq/casbin.go and the middleware, `Authz.Handlers` the handlers of
--   services/iam/app/group_auth.go and role_auth.go over `Iam.Groups` and `Iam.Roles`, `Authz.Routes`
--   the routes of services/iam/router.go. The proofs: `Links` and `Others` (which policies a change
--   leaves), `Settled` and `Coherence` (what the pools hold), `Served`, `Alike` and `Current` (requests).
-- - Audit: common/audit. `Audit.Writer` has the queue of events and the goroutine that writes them
--   (audit.go), `Audit.Export` the export (export.go), `Audit.Retries` the deletes that are tried again
--   (audit.go). The proofs: `Known` and `Flushed` (the writer), `Order`, `Pages`, `Limits`, `Batches` and
--   `Complete` (exports), `Tried` and `Retried` (the retries).
-- - Administrators' lists: services/admin. `Admin.Rows` has the rows and what is shown of them,
--   `Admin.Filters` the conditions and pages, `Admin.Lists` the lists of app/http_service.go and
--   app/grpc_service.go. The proofs: `Agreement` (the two protocols), `Newest` (orders of rows) and
--   `Coverage` (the pages).
-- - Middleware: common/middleware. `Middleware.Breaker` is the circuit breaker of broker.go,
--   `Middleware.SlidingWindow` the limiter of redis_sliding_window.go; `WindowTimes`, `WindowBound` and
--   `Admissions` are proofs about the latter.
-- - Concurrency: common/utils/lock. `Concurrency.Versioned` is the optimistic value of optimistic.go,
--   `Concurrency.RedisLock` the lock of redis_lock.go, `Exclusion` the proofs about it. The waiting
--   loop takes one unit of fuel for each 100 milliseconds of the timeout, and two more.
-- - `Prelude`, `Errors`, `Table` and `Redis` are shared: native numbers, integers, texts as lists of code
--   points, errors as values, tables as lists of rows (`Table.Keyed`: those whose keys differ), and
--   whether Redis answers.
--
-- How the code corresponds. Amounts are integers, in the unit of the columns, DECIMAL(18,4): one
-- ten-thousandth of a coin; so they are amounts of at most four decimals. An id is a number, and
-- numbers are ordered as the strings of the ids are. A table is a list of rows, the newest first;
-- an insert is refused where a unique column clashes. A database transaction returns its state on
-- success and the old one on an error; transactions run one after another, which is what the row
-- locks and unique indexes are there for. Of the errors of the database only the missing row and
-- the refused insert occur. Times, fresh ids and the answers of the Redis lock are arguments
-- (`Env`, `Draw`, `EventDraw`), one reading of the clock for each operation. How the database orders
-- rows of one time is its choice: in the administrators' lists the order of a query is the parameter
-- `OrderDesc`, and `Admin.Coverage` says what is relied on; elsewhere equal times keep one order. The String method of
-- google/uuid is the parameter `uuid_string`, and the parsers of google/uuid and
-- shopspring/decimal are the record `Parsers`; nothing is assumed of them. Of argon2, base64 and fmt,
-- the record `HashLib`, and of golang-jwt, the record `Jwt`, two records named `IsFaithful` say what is
-- relied on; so do those of `Market.Coherence`, of encoding/json on apps, and of `Audit.Complete`, of
-- encoding/json and encoding/base64 on cursors. Of Minio, of the type and sum of a file and of Casbin's
-- decisions (the record `AuthzLib`) nothing is assumed, nor of which entries the LRU cache evicts. A
-- node loads an enforcer, or handles a request or a message, in one step; a message that the broker
-- takes reaches every node. Every function is structural recursion; the waiting loop of the lock and
-- the loop of the export have fuel, the latter one unit for each row and one more, since each batch but
-- the last has a row that no other has.
--
-- Not modelled: the upload of avatars, entitlements, the token bucket, queues,
-- storage and metrics, and the entry points, which are queries, wiring and input or output; the
-- timers of the workers; interleavings inside a transaction.
pub mod Prelude
pub mod Errors
pub mod Table
pub mod Redis
pub mod Wallet
pub mod Order
pub mod Middleware
pub mod Web
pub mod Concurrency
pub mod Iam
pub mod Market
pub mod Audit
pub mod Authz
pub mod Admin
