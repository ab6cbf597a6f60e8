-- ===== src/Lib.antt =====
-- The fund transfer service (src/fund_transfer): accounts, transfers by configured exchange rates,
-- cross-currency transfers by previewed exchange rate snapshots, notifications and an audit log.
--
-- An operation is a function on a `Session` (Session.antt): the tables, whether a transaction of the
-- session is open, and the number of random draws made. It returns a result or an error, and the
-- session after it; what was written before an error stays until `transaction`, the source's
-- `async with await _begin_transaction(session)`, rolls it back. A table is a list of rows, a query is
-- a filter of it, and a flush is an insertion or an update that a column may refuse.
--
-- What is not code of the repository is the parameter `Engine`: whether the session takes a `begin()`
-- after a query has opened a transaction, what a Numeric column makes of a value, whether a text column
-- takes a text, uuid4, random.choices, sha256 and the clocks. `NumericColumns` (Session/Numeric.antt)
-- says what the theorems rely on of it: a value at the column's scale is stored unchanged if its digits
-- fit and refused if not; `NumericRange` that what a column gives back is at its scale, within its
-- precision and with no sign added. The decoding of a token is the parameter `Jwt` (Security.antt).
--
-- A request (`handle` of Api/App.antt) goes from its token through the endpoint to a response, on a session
-- of its own. A run of the service (System.antt) is a sequence of starts and requests, each at a time of its own
-- and on the tables that the one before left committed; the theorems under System speak of all runs, by induction on them:
-- an order of the tables that every writing operation moves along (Session/Evolves, System/Requests) is
-- one that every run moves along. System/Balances is the abstract account book that the service implements.
--
-- The parts, and the files that model them:
--   Prelude, Prelude/*          lists, integers, Boolean tests
--   Decimal, Decimal/*          Python's decimal.Decimal: +, -, *, /, comparison, quantize
--   Errors                      src/fund_transfer/core/exceptions.py, and results that may be errors
--   Models                      src/fund_transfer/models/
--   Config, Security            src/fund_transfer/core/config.py, core/security.py, api/middleware/auth.py
--   Session, Session/*          the session, its tables and transactions; the accounts and their sums
--   Repository, Repository/*    src/fund_transfer/repositories/: one module per file; Insert has the
--                               columns of the models and the unique constraints, primary and
--                               foreign keys that an insertion meets
--   Service/ExchangeRateService, Service/TransferService, Service/Retry, Service/AccountService,
--   Service/FxRateProvider, Service/StaticFxRateProvider, Service/FxRateService,
--   Service/NotificationService, Service/CrossCurrencyTransferService
--                               src/fund_transfer/services/: one module per class, a function per method
--   Api/ErrorHandler, Api/Transfers, Api/Accounts, Api/Fx, Api/Notifications, Api/Startup
--                               src/fund_transfer/api/, and `_seed_currency_pairs` of main.py
--   Api/App                     src/fund_transfer/main.py and api/v1/router.py: the application
--   System, System/*            its runs: what the writes do (Writes, Operations, Accounts, Readings,
--                               Sides), and what holds in every run
--   Migrations, Migrations/*    alembic/versions/, and the columns that the models declare
--   Tests, Tests/*              a database, runs on it, and the theorems applied to these
--
-- `execute_transfer` (Service/TransferService.antt) is split where the source has a comment or a blank
-- line: `replay_or_run` looks at an earlier transfer with the key, `transfer_block` is the body of the
-- transaction and `move_money` its part after the tests. `initiate` (Service/CrossCurrencyTransferService)
-- is split into `validate`, the tests, and `perform`, the writes. The validators in the request schemas are
-- functions of their own, which the theorems take as a hypothesis on the request.
--
-- Loops: the retry of a deadlock counts the retries that are left, from 3; a refresh of the rates has the
-- three answers of the feed; the search for an account number has its 10 rounds. No fuel is used.
--
-- A Decimal is a coefficient and a scale, by value: exponents above 0, the sign of zero, NaN and
-- infinities are left out, and the request schemas refuse the last two. Ids and times are numbers. Not
-- modelled: the texts of messages, the JSON column `detail`, the formatting of responses, FastAPI's
-- parsing of paths, headers and bodies (with the length of an idempotency key), metrics, tracing and
-- logging, the correlation middleware, the pauses between retries, the engine's pool and the background
-- refresh loop. Concurrent sessions are not modelled: an operation runs alone, as the row locks that
-- the source takes are to ensure.
pub mod Prelude
pub mod Decimal
pub mod Errors
pub mod Migrations
pub mod Models
pub mod Session
pub mod System
pub mod Repository
pub mod Config
pub mod Security
pub mod Service
pub mod Api
pub mod Tests
