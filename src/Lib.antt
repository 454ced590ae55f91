-- ===== src/Lib.antt =====
-- Verification library of tdiscuss, a discussion board that members of a tailnet share: a web
-- server in Go over a PostgreSQL database.
--
-- A request passes the middleware, which finds the user, and reaches the handler of its route. The
-- handler checks method, path and form, cleans and validates what the user wrote, calls the
-- queries, and answers with a page, a redirect or an error.
--
--   Base        natives, lists, tests and whole numbers that all parts share
--   Text        text as a list of code points; trimming, replacing, cutting (Go's `strings`);
--               Text.Decimal is `strconv.ParseInt` and `fmt.Sscanf` of "%d"
--   Validation  validation.go: `Validator`, its checks, the four forms; Validation.Forms says what
--               the forms accept
--   Sanitize    validation.go: `SanitizeInput`, pass by pass; Sanitize.Laws is what it leaves,
--               Sanitize.Runs what becomes of each run, and Sanitize.Again what a second pass does
--   Store       queries.sql.go over the tables of models.go and sqlc/schema.sql: Store.Tables has
--               the rows and what a call is, Store.Members, Store.Threads and Store.Reads the
--               statements, Store.Window the updates that meet no row, Store.Traced those of
--               traced_querier.go, Store.SignIn what a sign-in finds of those before it, Store.Added
--               and Store.Ordered what insertions leave and what an `ORDER BY` gives, Store.Offered
--               which threads the list offers for editing
--   Web         requests, responses, pages, and the services outside the repository; Web.Action is
--               a handler's run; Web.Keeps has one rule for each way to build a run, by which a
--               relation between the database before and after is shown, and Web.Runs one for each
--               step of a run that goes on
--   Handlers    handlers.go, one module for a group of handlers, and `parseMarkdownToHTML`,
--               `parseHTMLStrict`, `parseHTMLLessStrict` of parser.go; Handlers.Routes leads from
--               the routes of routes.go to the handlers; Handlers.Created, Handlers.Edited and
--               Handlers.Listed say what whole requests leave and show where nothing fails,
--               Handlers.Saved what saving a profile does, and Handlers.Retitled what a refused
--               change of the board does;
--               Handlers.Otel is `OTELMiddleware`
--   Middleware  middleware/: Middleware is the core (chains, the context of a request), with
--               Middleware.Limits (rate limits), Middleware.Security (headers, cross-origin check,
--               size of a body), Middleware.Auth, Middleware.Adapters (middleware_adapters.go),
--               Middleware.Observe (logs and metrics),
--               Middleware.Setup and Middleware.Api (the chains) and Middleware.Writers (the
--               wrappers of responses);
--               Middleware.Outside is what they use of other libraries; Middleware.Quiet says which
--               headers a middleware leaves alone; Middleware.Limits.Shared is the limiter with
--               requests at the same time, Middleware.Limits.Requests what each of them holds, and
--               Middleware.Limits.Serial compares it with one limiter for each key
--   Routes      routes.go: the chain of each route, limits, static files; Routes.Claims is what a
--               claim about a handler is; Routes.Rules, Routes.SignIn and Routes.Chains have one
--               rule for each middleware, by which a claim about the handler becomes one about the
--               chain, and Routes.Whole puts them together; Routes.Setups is about the chain of the
--               API under any setup, Routes.Secured about the headers of every answer,
--               Routes.Foreign about requests from other sites
--   Access      who may change what, for each statement and each endpoint; Access.Permits and
--               Access.Handled lead from the statements to the handlers, for any relation;
--               Access.Safe and Access.Atomic are about requests that change nothing, or all that
--               they mean to
--   Consistency the numbers of the rows, the members that they belong to, the addresses, the profiles
--               and the counters of the schema's triggers, from request to request:
--               Consistency.Counts is about lists, Consistency.Sequences about failed calls and
--               rollbacks, Consistency.Changes, Consistency.Inserts and Consistency.Members
--               about the statements
--   PathId      parser.go: `parseID`
--   RateLimiter ratelimit.go: the limiter of the root package; RateLimiter.Laws is one visit,
--               RateLimiter.Alone any number of them
--   Startup     `setupDatabase` of helpers.go, `checkTailscaleReady` and `waitForShutdown` of
--               server.go; Startup.Telemetry is otel.go and metrics.go, Startup.Boot main.go up to
--               the servers, Startup.Process its end, and Startup.Settings the configuration;
--               Startup.Serving says when it reaches the servers
--   Examples    a small board and the theorems at it
--
-- How the code is modelled:
--   - Text is valid UTF-8, read as its code points, which is what the checks of length count.
--   - Times are microseconds, and a request happens at one instant, `now`.
--   - The database is a record of tables, in the order of insertion, with the sequences. Each call
--     takes one entry of a schedule of faults, which may make it fail before it changes anything,
--     so a theorem about every database holds for every placement of failures. A failed commit has
--     committed nothing; a rollback restores the tables and leaves the sequences advanced.
--   - A statement without `ORDER BY` returns rows in an order that is a parameter, `row_order`.
--   - A template fails before its first byte or not at all. goldmark, bluemonday,
--     `html.UnescapeString`, `url.Parse` and PostgreSQL's `LOWER` are parameters about which nothing
--     is assumed.
--   - A middleware takes a handler to a handler, and a handler takes a request and a `World` to an
--     answer or a panic: the database, the visitors of the two limiters that the routes make, the
--     headers set so far, and a log that stands for logs, counters and spans. Rates are thousandths
--     of a request each second. The token bucket, Tailscale's `WhoIs` and Go's
--     `CrossOriginProtection` are parameters about which nothing is assumed. A wrapper of a
--     response is the list of the calls that it makes.
--   - An error that a traced query wraps is another error than `pgx.ErrNoRows`, as for `==`.
--   - A handler is a function of the database; requests are served one after another. All
--     functions are structurally recursive, but for the loop of `checkTailscaleReady`, which may
--     wait for ever: it takes fuel for its rounds, one more than the calls before the one that ends
--     it, and decimal numerals, whose fuel is one more than the number.
--
-- Nothing calls the limiter of the root package, `GetTailscaleUserEmail`, `OTELMiddleware`, the chain
-- of the API and the `SetupRoutes` of the middleware package; they are modelled as they stand, the
-- last as the chain of each of its routes.
-- Each operation of a limiter is one step; its lock and its ticker have no state. A request at the
-- limiter of the middleware takes two, `getVisitor` under the lock and `Allow` later: the modules
-- from Middleware.Limits.Shared on let other requests in between, with the visitors as objects that
-- the map and the requests point to. Everywhere else the two are one.
--
-- Not modelled: the matching of paths by `http.ServeMux`; the options of exporters, of which only
-- the success counts; the hooks of the pool and the logger; the templates themselves; the attributes
-- of spans and the durations; the interleaving of the database calls of two requests; `Flush` of a
-- wrapped response, which no handler calls; a round of the cleanup between a request's `getVisitor`
-- and its `Allow`; what `Reserve` and `Cancel` leave of a limiter. Of the schema, the counters of a member, the table `thread_member` with
-- its dots, and the cookies are left out: no handler of the repository reads them.
pub mod Base
pub mod Text
pub mod Validation
pub mod Sanitize
pub mod Store
pub mod Web
pub mod PathId
pub mod RateLimiter
pub mod Startup
pub mod Handlers
pub mod Middleware
pub mod Routes
pub mod Access
pub mod Consistency
pub mod Examples
