-- ===== src/Lib.antt =====
-- A model of the passwordless authentication service: phone sign-up and sign-in by one-time codes over
-- WhatsApp, resumption by Google, sessions and the administrators' operations.
--
-- The parts and the code they model:
--   Prelude           library names, Boolean tests and list helpers
--   Auth/Domain, Auth/Failure, Auth/Session, Auth/Verification, Auth/Phone
--                     internal/auth/domain.go: entities, errors, timed rules, phone numbers. A method
--                     that mutates its receiver returns the new value (Verification.Lock is `lock`).
--   Auth/Service and its children
--                     internal/auth/service.go: one module per use case, RequestVerification
--                     (Request), ConfirmVerification (Confirm), GoogleExchange (Google, with the link
--                     token of internal/auth/google.go), ResendVerification (Resend),
--                     ValidateSession, Account and RevokeSession (Sessions), ListAccounts,
--                     ClearLockout and Analytics (Admin). A handler is cut where it branches, and
--                     each cut is named for what it does.
--   Auth/GoogleVerifier
--                     GoogleIdentityVerifier of internal/auth/google.go, with its cache of keys
--   Auth/HttpError    the error mapping of internal/auth/handler.go
--   Auth/Handler      its handlers, each behind its middleware, the run of requests (Routes) and the
--                     operations as they are declared to huma (Operations)
--   Postgres          internal/auth/postgres/repository.go, its SQL statements and the constraints of
--                     migrations/: a statement is a function on the tables
--   Platform/World    the world of a run and the monad of the code that talks to it
--   Platform/Uow      internal/platform/db/uow.go: TxManager.InTx
--   Platform/Access   internal/platform/auth: the principals and the two middlewares
--   Platform/Config   internal/platform/config/config.go
--   Platform/Whatsapp internal/platform/whatsapp: the client of the Cloud API
--   Platform/HttpServer
--                     the checks of internal/platform/httpserver and internal/platform/observability
--   Cmd               cmd/serve.go: the service that RunServe composes
--   Tests             a concrete deployment, on which the theorems are applied
--
-- How they interact: a use case is a computation of `Exec`, a function of a `World` (the tables, the
-- number of outside calls made, the messages handed to the sender) to a result and a world. What is
-- done before an error stays done, so the world comes back beside the error too. The use cases call
-- the repositories; a repository hands a statement to the driver; `in_tx` restores the tables where
-- its body or the commit fails. The middlewares take the validator and the handler as arguments; the
-- handlers call the use cases behind them, and `serve_all` runs requests one after another. What a run
-- keeps of the tables (Keeps), how many calls it makes (Costs) and which errors it names (Raises) is followed from the driver through
-- the repositories and the use cases to the requests, by one rule for each way to build a run.
--
-- Auth/Verification/Life is the abstract life of a challenge, a graph of steps that knows of the tables
-- only how many sends to a phone count; Auth/Service/Life and Auth/Handler/Life say which of its steps a
-- use case and a request take. Postgres/Integrity/Keys states the unique keys and the references of
-- migrations/ one by one, apart from the tests with which the statements enforce them.
--
-- What is not in the repository is a parameter, the record `Env`: clock, database driver, random
-- source, UUIDs, bcrypt, SHA-256 and JWT. The ports IdentityVerifier and VerificationSender are in it
-- too; their adapters are modelled by themselves, over records `Outside` of the HTTP client and the
-- decoders. Each of the answers of `Env` may
-- depend on the number of outside calls so far, so that the theorems cover every schedule of
-- failures: a driver call answers, fails before it took effect, or fails after it did. The results on
-- what a run may do assume nothing of these parameters; those on what goes through, and on sessions
-- after a revocation, name what they need, a database that answers among it.
--
-- Bounds and simplifications: a time is a number of microseconds, and a time less a window stops at 0;
-- an id is a number, since the code only compares ids; Go's `int` counters are unbounded; the failure
-- rate of the analytics is an exact quotient in place of a float64; where SQL leaves the order of
-- rows open, it is the order of insertion. No function runs on fuel: every loop is a recursion on a
-- list or a text. Error texts made from times and numbers are not modelled.
--
-- Not modelled: panics, concurrent requests (a request runs alone; only in Confirm/Overlap
-- and Confirm/Twice are the load and the write of several confirms steps that may interleave), huma's checks of
-- the inputs by their tags, the command line, logging, tracing, CORS, the life of the HTTP server and
-- the connection pool, which are calls of libraries, and the migrations' down scripts.
pub mod Prelude
pub mod Platform
pub mod Postgres
pub mod Auth
pub mod Cmd
pub mod Tests
