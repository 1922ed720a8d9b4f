-- ===== src/Lib.antt =====
-- The sample API of this repository (sample-api/): an HTTP server in Go for users, posts and
-- comments, with logins that issue signed tokens, over a PostgreSQL database. All paths below are under
-- sample-api/.
--
-- A request passes through these parts, from the outside to the inside:
--   - `(s *Server) Handler` (pkg/openapi/server.go): the identity of the bearer token, chi's router,
--     and the recovery from panics: Api.Identity and Api.Router (`serve`, `serve_all`);
--   - `ServerInterfaceWrapper` (pkg/openapi/gen.go), which binds the parameters of the path and the
--     query: Api.Wrapper, with the errors of parameters in Api.Codec and Api.ParamErrors;
--   - `strictHandler` (pkg/openapi/gen.go), which decodes the body, calls the method of `Server` and
--     writes its response object: Api.Strict, with the response objects in Api.Responses and the
--     requests in Api.Requests and Api.Types;
--   - the methods of `Server`: Api.Login (auth.go), Api.Users (user.go), Api.Posts and Api.Slug
--     (post.go), Api.Comments (comment.go), with what they share in Api.Mapping and Api.Server
--     (mapping.go);
--   - `auth.Signer` (pkg/auth/jwt.go), which signs the tokens: Auth;
--   - `db.Queries` (pkg/db), the statements: Db.Models, Db.Params, and the interface Db.Queries, a
--     record of a state and of one action for each statement. The handlers are defined over every such
--     record. Two things fill it:
--       - Db.Client, the methods of pkg/db/query.sql.go as Go runs them over a DBTX (pkg/db/db.go): the
--         statement, its arguments in their order, the rows scanned column by column, and `New` and
--         `WithTx` (`new`, `with_tx`). `NewServer` is `new_server` of Api.Server;
--       - Db.Store, what the statements of pkg/db/query.sql.go mean over the tables of
--         pkg/db/migrations/000001_init_schema.up.sql, constraints and cascades included.
--     Db.Store.Wire puts the tables behind a DBTX: it reads the arguments where the text of each
--     statement has them and writes rows as the columns that it selects. This joins the two.
-- The process around it (main.go, pkg/config, pkg/server, pkg/db/migrations.go):
--   - `main` and `run` of main.go: `run` loads the settings (Config), applies the migrations
--     (Db.Migrations), opens the pool, reads the private key (Auth) and starts the servers:
--     Process.Main, over the record Platform of what it calls, with the effects in a trace, the calls
--     of Up that RunMigrations makes among them, the deferred calls in their order, and the exit
--     status of `main`. flag.Parse gives the path of the settings or exits the process (Flags);
--   - `Run` of pkg/server/server.go: Process.Server, a step relation of the goroutines of the two
--     servers, the channel to which they report, and the caller, which waits and shuts both down. Any
--     interleaving of steps is a schedule, and `Reach` counts the steps of the caller. A Platform whose
--     `server_run` is the outcome of a schedule joins the two;
--   - the probes of HealthHandler: Process.Health.
-- Db.Store.Maps holds the tables as maps from ids to rows, the abstract view of the statements that
-- write, in whatever order the statements of requests come. Effect holds Go's `(value, error)` results
-- and the actions on a state; External the libraries that are parameters. Prelude holds numbers, lists
-- and tables. Api.Invariants carries an invariant of the queries through every request, and
-- Api.Statuses what is known of the status codes of the answers; Api.Store holds the server over the
-- tables, and Tests the theorems at concrete inputs. Api.Spec is the embedded specification of gen.go.
--
-- How the code is read:
--   - a pointer that may be nil is an Option; a pair of a value and an error is a Result; a panic is
--     an error that no handler sees and that the recovery answers by 500;
--   - an int32 is an integer whose operations wrap around; an int64 count is a natural number; a UUID
--     is a number of 128 bits and a time a number of nanoseconds;
--   - time, random texts and new ids that a request draws stand in Env; the ids and times that the
--     database draws are functions of the number of the statement;
--   - a table is a list of rows. SQL leaves the order of rows with the same time open, in each query
--     anew; the model has one order for them, and a theorem about several queries of a list asks for
--     distinct times;
--   - the error of a statement may come at once or after the rows: Db.Client has both, and Db.Store.Wire
--     reports it at once. The error of QueryRow is that of its Scan;
--   - requests are served one after the other by `serve_all`, and each statement is a transaction of its
--     own. Requests that run at the same time meet only in the database: Db.Queries.Interleaved is a
--     database on which others run statements between those of a request, and since the handlers are
--     defined over every Queries, they run over that one too (Api.Store.Interleaved).
-- All loops are structural recursion; nothing runs on fuel.
--
-- Parameters, since their code is not here: bcrypt, RS256 signatures and UUID text (Crypto, with the
-- documented behaviour of bcrypt in IsBcrypt), the parser of tokens and UUIDs (TokenParser), the
-- binding of parameters and JSON (Codec), chi's choice of a route (Router), the collation of the
-- database, pgx (Dbtx), the file system and the parsers of LoadPrivateKey and config.Load,
-- golang-migrate (Migrator), the loader of specifications (SpecLibrary), and what `run` asks of the
-- system (Platform). Of net/http the steps of Process.Server
-- assume that ListenAndServe returns ErrServerClosed only after Shutdown, and that a call of Shutdown
-- with a deadline returns.
--
-- Not modelled: the text of the embedded specification; middlewares and other options of the generated
-- handlers, which the program leaves empty; the log; requests with `Connection: Upgrade`, for which
-- chi's Recoverer writes no 500 after a panic; the connection to the client breaking while the body of
-- an answer is written, after its status; texts with NUL, which PostgreSQL refuses;
-- manifests, policies and scripts.
pub mod Prelude
pub mod Effect
pub mod Db
pub mod External
pub mod Auth
pub mod Config
pub mod Api
pub mod Process
pub mod Tests
