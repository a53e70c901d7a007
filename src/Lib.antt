-- ===== src/Lib.antt =====
-- Vaulty: a vault that replaces card numbers and CVVs by tokens, modelled from its Go sources.
--
-- Two services share the code. The tokenizer (cmd/tokenizer/main.go) owns PostgreSQL, Redis and the
-- calls of AWS KMS: it tokenizes, reveals, deactivates and audits, per tenant. The proxy
-- (cmd/proxy/main.go) has no store: it replaces the tokens in a payload by what the tokenizer reveals
-- and forwards the payload.
--
-- Files and the code they model:
--   Model        internal/model: tokens, vault entries, tenants, the audit log
--   Json         decoded JSON values: mutual data types, with reading and writing a key
--   Server       internal/server/errors.go, and the bodies that the handlers encode
--   World        what the program calls: Redis, KMS, the ciphers, the random source, the clock
--   Store        the tables, Redis and the count of external calls; a handler is a function from the
--                store to an outcome (go on, or the response that was written) and the new store
--   Repository   internal/repository: each SQL statement over the tables, with the constraints of
--                migrations/*.up.sql
--   Card         validatePAN and validateCVV of internal/handler/tokenize.go
--   Audit        the masking of internal/audit/logger.go; Logger.Log is in Handler/Common
--   Pattern      the regular expressions of auth/tenant.go, handler/tenant.go and proxy/revealer.go
--   Cvv          internal/redis/cvv_store.go
--   Crypto       internal/crypto, and the calls of internal/kms/client.go for a tenant's key
--   Kms          the client of internal/kms/client.go and the calls for its own key
--   Auth         internal/auth, and correlationIDMiddleware of internal/server/router.go
--   Handler      internal/handler: a module per file; ServeHTTP is the function named after the file
--   Proxy        internal/proxy, and internal/handler/forward.go in Proxy/ForwardHandler
--   Config       config/config.go
--   Startup      the start and the end of cmd/tokenizer and cmd/proxy; cmd/migrate in Startup/Migrate;
--                Run of internal/server/server.go in Server/Run
--   Routes       the routes of the two services; a run of the tokenizer is a list of calls;
--                Routes/Logged has NewRouter and the request log of internal/server/router.go
--   Vaulted      what it means that a token stands for a PAN in the store; deactivated tokens and
--                tenants; the life of a CVV token
--   Isolation    what a tenant's calls leave alone, and which rows they read
--   Invariants   what every run of calls keeps of the tables
--   Interleaving calls served at once: each handler as a tree of its statements, calls that arrive and
--                make their statements in any order, what holds in every store they reach
--   Contract     what the services rely on of each other and their callers of them
--   Tests        a world to run the model in
--
-- Code outside the repository is a parameter: the record World holds Redis's commands, KMS, the
-- ciphers and the random source, and each external call has a number, so any one of them may fail
-- while others succeed. CryptoLaws and RedisLaws state their documented behaviour. A statement to
-- PostgreSQL is atomic and fails as the world says or when a constraint refuses it, and the reading
-- of a page's rows may break off; the code opens no transactions. Routes serves a call at once;
-- Interleaving, whose code of a handler is proved to run like the handler, lets other calls in
-- between any two statements and commands. A Go map is the list of its pairs in the order in which
-- one range loop visits them; statements hold for every such list.
--
-- There is no fuel: every loop of the code is structural recursion. Numbers are natural numbers, but
-- for the signed time to live of a CVV; the only parsed integers, the paging parameters, are checked
-- against the 64-bit range as strconv.Atoi does, and no sum in the code comes near it.
--
-- Not modelled: the sockets and the signals behind server.Run, the lines of the process log other than
-- a request's, chi's routing and its Recoverer, the time limits of the HTTP clients, the wiring of
-- constructors that keep no state, the wiping of buffers, and the encoding of responses as bytes.
pub mod Prelude
pub mod Model
pub mod Json
pub mod Server
pub mod World
pub mod Store
pub mod Card
pub mod Audit
pub mod Pattern
pub mod Repository
pub mod Cvv
pub mod Crypto
pub mod Auth
pub mod Handler
pub mod Proxy
pub mod Config
pub mod Kms
pub mod Startup
pub mod Routes
pub mod Vaulted
pub mod Isolation
pub mod Invariants
pub mod Contract
pub mod Interleaving
pub mod Tests
