-- ===== src/Lib.antt =====
-- CronPilot: its browser client, apps/cronpilot-frontend, a single-page React application in which
-- users sign in, and create, run, pause, edit and delete scheduled HTTP jobs, and administrators
-- manage the jobs and accounts of all users; of the services behind it, the routes, the handlers for
-- jobs, users, executions and reports, the executors and the scheduler; and the receiver that jobs can
-- be tried on. Unless said otherwise, paths below are relative to apps/cronpilot-frontend/src.
--
-- Parts, and the files that model them:
--   context/AuthContext.jsx: Session (the provider's state with localStorage, `setAuth`,
--     `clearAuth`, `isAuthenticated`, `isAdmin`) and Session/Guards (`ProtectedRoute`,
--     `AdminRoute`); Session/Sync is about the two copies of the session.
--   App.jsx: App (the route table, and where a visit ends) and App/Landing.
--   api/client.js and api/*.js: Api and its children, one function per call, each yielding the
--     request that it sends; `sign` is the interceptor.
--   components/CronHelper.jsx: Cron, with Cron/Laws and Cron/Clock.
--   components/StatusBadge.jsx, JobCard.jsx, ExecutionTable.jsx, JobForm.jsx, Header.jsx and
--     Sidebar.jsx: the modules of these names under Components.
--   components/Layout.jsx: Components/Layout.
--   pages/Report.jsx: Pages/Report (state, queries, download), Pages/Report/BarChart (the bar chart
--     with coordinates in doubles), with Bars and Labels about it, Figures (durations, rates and the
--     donut), Table (the statistics of the jobs) and View (the page), with View/Download about it.
--   Pages/Submissions, Components/JobForm/Submission: when the forms can be submitted.
--   pages/Login.jsx and Register.jsx: Pages/Credentials (what they share), Pages/Login and
--     Pages/Register; the other pages, and those in pages/admin, have modules of their names.
--   cronpilot-api/handler/jobs.go and admin.go (relative to apps): Server/Jobs and Server/AdminJobs,
--     the handlers that write jobs; Server/Jobs/Calls has them as one type of calls with a view of
--     the table as a map. Server/Store has the tables of jobs and executions of
--     cronpilot-api/db/schema.sql.
--   cronpilot-api/handler/auth.go and the handlers for users of admin.go: Server/Users, with
--     Credentials, Admins and Passwords about it.
--   cronpilot-api/middleware/auth.go: Server/Middleware and Middleware/Tokens.
--   cronpilot-api/main.go: Server/Routes (the route table and what stands before a handler), with
--     Routes/Guards, Requests and Calls about it.
--   cronpilot-api/executor and cronpilot-worker/executor: Server/Executor (triggers, policies, and
--     what runs write) and Executor/Request (`doRequest`), with Executor/Race, Policies, Ends and
--     Stuck about them.
--   cronpilot-api/handler/executions.go: Server/Query (the numbers in a query) and
--     Server/Executions, with Visibility and Listing about it.
--   cronpilot-api/handler/report.go: Server/Reports (summary and statistics of the jobs),
--     Reports/Timeline and Reports/Csv; about them Groups, Days and Chart (the timeline), Statuses and
--     Sums (the counts), and Reader, Fields and Export (the export, read back).
--   cronpilot-worker/scheduler/scheduler.go: Server/Scheduler, with Entries, Tidy, Turns, Timetable,
--     Callbacks, Freshness and Staleness about it.
--   cron-webhook/main.go and public/index.html (relative to apps): Webhook and Webhook/Feed, the
--     demonstration receiver with one dashboard.
--   Base, Text, Json, Dom, Doubles, Records and Effects: what all of these share.
--
-- How the code corresponds. A JavaScript string is a list of UTF-16 code units (Text). An object
-- whose keys matter is a list of entries in insertion order (Json); the server's answers are records
-- of the properties that the client reads (Records), and a null is `none`. A component's rendering
-- is a tree of elements (Dom) whose classes, icons and spacing are left out, except classes that
-- depend on the data (`tone`); its events carry messages. A handler or mutation is an update
-- function from the component's state and a message to the new state and the effects that it asks
-- for, in order (Effects): requests, navigation, invalidated queries, changes of the session.
-- Asynchronous work is split at its answer: `submit` sends, and `answered`, `changed`, `created` or
-- `failed` are separate messages, so that step relations can interleave them with the user's.
--
-- A table of the database is a list of rows, and a handler a function from the table, what the
-- request carries and the outcome of its statement to the new table and the answer (Server/Answer).
-- A body that cannot be decoded is `none`; `fault` says that a statement fails, and is its error where
-- the answer has that. Ids are UUIDs (`Uuid` in Server/Store), as the database reads them from the
-- texts in tokens, paths and bodies; only AdminDeleteUser compares two of those texts, and takes the
-- one in the path as it is sent. A handler runs at most one statement that writes, and handlers are not
-- interleaved: that another one comes between the two statements of AdminUpdateUser, a count and an
-- update, is left out. But the runs that a trigger starts are: `Race` interleaves the triggers with
-- the rows that their runs write later, and `Stuck` has what others do after a run. Times are milliseconds on one scale, and days are those of UTC. A query that
-- joins is a function on the rows of both tables, and `Reading` says how the reading of its rows goes.
--
-- Libraries are parameters, with the laws that are relied on: `UserCodec` (JSON.stringify and
-- JSON.parse on users), `Lowering` (toLowerCase), `Router` (react-router's matching of paths),
-- `QueryCache` (a query is invalidated by each prefix of its key), `Dates` (date-fns), `Doubles`
-- (floating-point numbers), `Cron` (robfig/cron), `Decoder` (encoding/json on a job), `Libraries`
-- (bcrypt, and texts in Go), `Http` (net/http, ToUpper and the parsing of headers), `Mux` (chi),
-- `Floats` (Go's floats and the database's averages), `Times` (formats of times), and `accepts`, the
-- texts that the database stores, and `cast`, how it reads a text as a UUID. What react-query reports about a query or
-- mutation in flight is an argument of the rendering.
--
-- Bounds. `visit` follows redirects with fuel; two steps are always enough, and the theorems about
-- it take any fuel from two on (one where no redirect is met). All other loops are structural.
-- Numbers are naturals; the browser's are doubles, which agree with them for the lengths, counts
-- and durations below 2^53 here.
--
-- Not modelled: main.jsx, the refetch intervals of the queries, keyboard focus, the browser's
-- validation of required fields, and properties that `palette` in StatusBadge.jsx inherits from
-- Object.prototype; of the services, the handlers that only read jobs or users, the signing and
-- parsing of tokens, negative timeouts, the executions that go with a deleted job, and the set-up in
-- main.go (connection, schema, first administrator, CORS). Of apps/cron-webhook, handlers that overlap,
-- ids and the rendering are left out. The Kafka programs, and the files under infra and kubernetes are
-- outside the development.
pub mod Base
pub mod Text
pub mod Cron
pub mod Dom
pub mod Json
pub mod Api
pub mod Session
pub mod App
pub mod Records
pub mod Doubles
pub mod Effects
pub mod Components
pub mod Pages
pub mod Server
pub mod Webhook
mod Tests
