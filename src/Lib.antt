-- ===== src/Lib.antt =====
-- The elephantine library, a Go toolbox for services: what each part promises, over a model of its
-- sources.
--
-- The parts and their files:
-- - pg/joblock.go with pg/postgres/queries.sql.go: JobLock. Processes agree through the table job_lock
--   on which of them runs a job. JobLock/Table is the table with its statements (GetJobLock,
--   InsertJobLock, PingJobLock, StealJobLock, ReleaseJobLock); JobLock/Lock is NewJobLock, acquire,
--   steal, attemptAcquire, ping and release; JobLock/Loop is the body of loop, one turn at a time, with
--   the channel `out`; JobLock/Fleet is a step relation of any number of processes over one table.
--   JobLock/Runner is RunWithContext and Stop, a step relation of the loop, the watcher and the caller;
--   JobLock/Jobs is many processes that call RunWithContext over one table.
--   JobLock/Lease is the abstract view of the table: a lease for each name, with the moves it allows.
-- - pg/pg.go: Transaction is WithTX, Rollback and SafeRollback. What the function given to WithTX does,
--   and how each request ends, are arguments.
-- - jwt.go, log.go, api_server.go: Claims is JWTClaims with HasScope, HasAnyScope and claimsToSubject;
--   LogContext is the values in a context, with the metadata maps on a heap since contexts share them;
--   Auth/Parser is AuthInfoFromHeader, and Auth/Parser/Made the parsers for one key and for a key
--   set; Auth/Hook is the RequestRouted hook of SetAuthInfoValidation, and RequireAnyScope.
-- - cors.go: Cors is validOrigin and CORSMiddleware.
-- - http.go, httprouter.go, twirp.go: HttpErrors is the making, recognising and writing of HTTP and
--   Twirp errors. Fault holds the errors of all parts, as the trees that errors.Is and errors.As walk.
-- - errgroup.go: Retry is GoWithRetries, as a run over the list of what each attempt met, and Retry/Crew
--   is ErrGroup, a step relation of the tasks of Go and GoWithRetries in one group, with Wait.
-- - grace.go: Shutdown is GracefulShutdown, a step relation of its two goroutines, the signals, the
--   calls of Stop and the passing of time; Shutdown/Derived is the contexts of CancelOnStop and
--   CancelOnQuit.
-- - parameters.go, vault.go, lazyssm.go, oidc.go: Secrets is ResolveParameter over the parameter
--   sources, the cached reads of Vault, the lazy client of LazySSM, and the credentials of
--   AuthenticationConfig.
-- - health.go: Health is HealthServer of both kinds, its mux, the handler of the checks and
--   LivenessReadyCheck.
-- - pg/pg.go again: Nullable is the conversions to the nullable structs of pgtype.
-- - vault.go again: Vault is KeepAlive, over the list of what each renewal returned, and Stop; Vault/Login
--   is NewVault with the logins that it tries.
-- - http.go, health.go and api_server.go again: Server is ListenAndServeContext (Server/Serving),
--   HealthServer.ListenAndServe (Server/HealthServing) and APIServer.ListenAndServe (Server/Api), step
--   relations of their goroutines, the last over a group whose laws Server/Group states.
-- - log.go again: Log is SetUpLogger with the handler that adds the metadata of the context.
-- - twirp.go, twirp_metrics.go and api_server.go again: Twirp is the hooks that log (Twirp/Logging),
--   count (Twirp/Metrics) and authenticate, and the options that chain them (Twirp/Options).
-- - io.go: Files is UnmarshalFile, MarshalFile, UnmarshalHTTPResource and SafeClose.
-- - oidc.go again: Oidc is AuthenticationConfigFromCLI, with the discovery document and the flags.
-- - api_server.go again: Routes is NewAPIServer, NewTestAPIServer (Routes/TestServers), RegisterAPI and
--   the handler that ListenAndServe sets up: log metadata, CORS, the mux, and the middleware that keeps the header for the hooks of Twirp.
-- - http.go again: Clients is NewHTTPClientIntrumentation, its Client, the gauge of requests in
--   flight and the histograms of the trace.
-- - pg/pg.go again: ConnString is SetConnStringVariables.
-- - test/*.go: Testing is the helpers of tests, as the calls that they make of their TestingT.
-- Prelude holds what the parts share, Duration the signed 64-bit time.Duration with its wrap-around and
-- the saturating time.Since. Each Tests module holds runs at concrete inputs.
--
-- Parameters: net/url (what url.Parse makes of a text, the encoding of a query, and the joining of
-- references), the jwt package (signature and claims validation), ttlcache, the regular expression of
-- the scope prefix, http.Error, http.StatusText, the twirp package (what it keeps in a context, its
-- status codes, ChainHooks), errgroup, prometheus (registration, round trippers), encoding/json, the SSM
-- client, the KV store of the vault and its logins, the mux of net/http, and the flags of the command
-- line.
-- The dictionaries are association lists keyed by text.
--
-- Bounds: no model runs on fuel. The loop of JobLock is a step relation, and the loops of GoWithRetries
-- and KeepAlive run over the list of what each of their rounds met, as `going` when the list ends first.
-- A bigint of Postgres is an unbounded number; an int64 of the process wraps.
--
-- Not modelled: the log handler of tests, which passes every call on to slog, and the glue that is
-- generated for the database. The text of an error keeps the constant part of its format only.
pub mod Prelude
pub mod Fault
pub mod Duration
pub mod JobLock
pub mod Cors
pub mod Claims
pub mod LogContext
pub mod Log
pub mod Auth
pub mod Retry
pub mod Shutdown
pub mod Testing
pub mod Transaction
pub mod HttpErrors
pub mod Secrets
pub mod Vault
pub mod Twirp
pub mod Server
pub mod Files
pub mod Routes
pub mod ConnString
pub mod Clients
pub mod Oidc
pub mod Nullable
pub mod Health
