-- ===== src/Lib.antt =====
-- disapyr-link keeps secrets that can be read once. The browser encrypts a secret and posts it; the
-- server stores the ciphertext under a random token, and the first request that reveals the token gets
-- the ciphertext, while its row is deleted in the same statement. These files model the server.
--
-- The parts, and the files that model them (paths from the root of the repository):
--
-- internal/model: Model. `Secret`, `CreateSecretInput`, `SecretPayload`, and the error values, whose
-- chain of `%w` is the constructor `wrapped`.
--
-- internal/repository/secret_repo.go: Repository. The tables `secrets`, `secret_events` and `app_logs`
-- are a `Db`. `Store` is `store`, `FetchAndDelete` is `fetch_and_delete`, `CleanupExpired` is
-- `cleanup_expired`, `recordEvent` is `record_event`. Each statement is sent with a `Call`, which says
-- what PostgreSQL does with it: carries it out, refuses it, or carries it out and loses the answer;
-- and which time its clock shows, which id it gives, and how it rounds a time stamp. The constraints
-- are those of internal/db/migrations: a token and an id are unique, and there are three kinds of
-- events. Repository/Trace has histories of these operations in any order, each as a whole. An
-- operation sends a statement and then, if it succeeded, a second one for its event:
-- Repository/Interleave has calls that are at work at the same time, with PostgreSQL running each
-- statement as a whole and the statements in any order. Repository/Vault is what the tables promise,
-- without rows or order: at most one secret under each token.
--
-- internal/service/secret_service.go: Service. `Create` is `create`, `Retrieve` is `retrieve`,
-- `generateToken` is `generate_token`. The random bytes, or the error instead of them, are an
-- argument.
--
-- internal/handler/handler.go: Handler. `CreateSecret` and `RevealSecret` are `create_secret` and
-- `reveal_secret` of Handler/Secrets, `isProbeRequest` is in Handler/Probe, `maskTokenInPath` in
-- Handler/Mask, `Middleware` in Handler/Middleware, and `New`, `parseTemplates`, `render`,
-- `ServeIndex` and `ServePage` in Handler/Pages, where a parsed template is an argument. A handler
-- takes a request and a `World`, the tables, the log and the response so far (Http), and returns a
-- world and how it ended: it may panic.
--
-- internal/handler/ratelimit.go: Handler/RateLimit. `Limit`, `getLimiter`, `cleanup`, `clientIP` and
-- `RetryAfterSeconds` over a table of limiters; the token bucket of golang.org/x/time/rate is an
-- argument, and so are the parsers of package net.
--
-- internal/handler/admin.go: Handler/Admin. `BasicAuth`, `sameOrigin`, `windowToInterval`,
-- `humanWindow` and `formatUptime` are in the module itself, `queryLogs` in its LogTable,
-- `querySecretStats` and `queryLogSummary` in Stats, `ServeHealth` and `ServeHealthLogs` in Health,
-- `ClearLogs` in Clear, and `NewAdminHandler`, `parseAdminTemplates` and what the templates are given
-- in Views. Arguments are SHA-256, `Request.BasicAuth`, `url.Parse`, the values of a query and of a
-- form, the subtraction of an interval, the order that a statement gives its rows, the number of rows
-- that arrive before a connection is lost, the groups of `GROUP BY`, the indentation of JSON, and the
-- templates.
--
-- internal/config/config.go: Config. `Load` and `Print` are in Config/Load, `kvDSNRedact` in
-- Config/Redact; the environment and `url.Parse` are arguments.
--
-- internal/logger: Logger. The attributes of db_handler.go are in Logger/Attrs; its queue, which
-- `Handle`, `Stop` and `run` share, is the step relation of Logger/Queue; `insert`, which writes the
-- records that `run` receives to app_logs, is in Logger/Writer; multi_handler.go is in Logger/Multi.
--
-- internal/db/db.go: Database. `Connect` is `connect` and `migrate` is `migrate`, over what pgx
-- answers.
--
-- cmd/server/main.go: Server. The start, up to the server that listens, is `start` of Server/Start.
-- The routing table and the handler of the server, the middleware around the mux around the limiters
-- and the guards around the handlers, are `routes` and `serve` of Server/Routes; how a mux of net/http
-- chooses among its patterns is in Server/Mux. One request is served in a `Turn`, which says what the
-- clock and the database answer while it lasts. Server/History has the server over time: requests, the
-- ticks of the worker that calls `CleanupExpired`, and those of the limiters, in any order; in
-- History/Once the answers of the reveal route are counted along such a history. Routes/Link is about
-- the paths of a link and Routes/Life follows a secret from one request to the next; Routes/Success is
-- about the answers with the status 200. Server/Serving makes the handlers from the running server
-- that the start ends with, and serves a request with the way of what it logs to app_logs: a record
-- that has the level of the log handler and finds room in its queue is inserted by the writer, which
-- has caught up at the end of the request; Routes and History leave what is logged in the world,
-- beside the tables. Server/Shutdown is the end of the process: main, the listener, the writer of the
-- log and the calls of `Handle` are goroutines, and their steps come in any order.
--
-- Encoding, Strings and Http have what these parts use of Go's library: hexadecimal, base64, decimal
-- and JSON texts, the functions of package strings, headers and response writers. What depends on the
-- tables of Unicode is an argument, `Unicode`. Common has lists, texts as lists of bytes, and
-- integers.
--
-- Integers of Go are integers here, and where an operation can overflow the wrap to 64 bits is written
-- out (`wrap64`). The times are nanoseconds. Two loops take fuel: each round of `redact` passes over a
-- byte, so the length of the text is enough, and each round of `digits` of Encoding/Decimal divides
-- the number by ten, so the number plus one is enough.
--
-- Not modelled: what html/template writes; the file server for static files; the address and the
-- timeouts of the server of net/http; and the assets of web, which run in the browser. Of the
-- handlers, the log record for a response that cannot be written is left out, since the writer here
-- does not fail. The environment chooses when a signal or a timer comes and what `ListenAndServe` and
-- `Shutdown` return. A record that main logs while the server ends is among the calls of `Handle`, and
-- so comes at any time; a crash of such a call is a flag of the queue, and the other goroutines of the
-- model go on.
pub mod Common
pub mod Model
pub mod Repository
pub mod Encoding
pub mod Service
pub mod Strings
pub mod Http
pub mod Handler
pub mod Config
pub mod Logger
pub mod Database
pub mod Server
