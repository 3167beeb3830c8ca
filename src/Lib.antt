-- ===== src/Lib.antt =====
-- A verification library for the backend of fastapi_template (app/): users of several tenants, roles
-- and permissions that are kept as bit masks, access tokens that carry a mask, and a cache in each
-- worker that learns of changes through Redis.
--
-- The program's parts and the files that model them:
--
--   Rbac/Mask, Rbac/Registry      app/core/rbac/mask.py and registry.py: masks as 32 bytes and as hex
--                                 text, the catalog of permissions, implications
--   Rbac/Delegation               app/core/rbac/delegation.py: effective permissions and their mask,
--                                 what an actor may grant
--   Models, World                 app/models: the tables as lists of rows; World/Mirror is the part of
--                                 Redis that app/core/authz_cache/publisher.py writes
--   Repositories/*                app/repositories: one function for each method, with the commit and
--                                 the publication that follow it
--   Services/*                    app/services/rbac, users and tenant: the guards in the order of the
--                                 code, around the calls of the repositories
--   AuthzCache                    app/core/authz_cache/cache.py: what one worker knows
--   Auth/*                        app/services/auth, app/services/verify and app/core/dependencies.py:
--                                 tokens, sessions, accounts, the callback of Google, the gates
--   RateLimit/SlidingWindow       app/core/ratelimit: a sorted set of Redis for each key
--   Recovery/*                    app/core/resilience/recovery.py: circuit breaker and retry
--   Error, Http/*                 app/error: the exceptions, the handler of each class and its answer
--   Middleware/*                  app/middleware, stacked as in app/main.py, over any application;
--                                 Throttle is the reference that it is compared with
--   Routes/*                      app/api/v1/routes: every route with its guards in order, and in
--                                 Endpoints all of them as one type
--   Security/*                    app/core/security: identifiers, passwords, file names, and
--                                 the trimming of dictionaries
--   Cli/*                         app/cli: the mirror of the catalog, the first superuser
--   Logger/*                      app/core/logger: the redaction of arguments, the logged calls
--   Health                        app/core/health.py and the probes of routes/health.py
--   Prelude/*, World/Calls, World/Rows  what these share: Boolean tests, lists, bits, chains of calls,
--                                 rows under updates
--   Examples/*                    concrete inputs for the theorems
--
-- How the state and the operations correspond. A call is a function from a `World`, the tables and
-- Redis, to a result and a `World` (`Action`); an exception is an `Error`, and what was committed
-- before it stays. A method of the code has the same name in the file of its class. A transaction
-- that ends in one commit is one change of the tables; two requests never run inside one another's
-- transaction here. A row that is loaded with `selectinload` is a `LoadedRole` or a `LoadedUser`. Ids,
-- UUIDs and points in time are numbers, since the code only compares and adds them. Keys and unique
-- columns are tests at each insertion, which then raises `integrity_error`. The cache of a worker and
-- its subscription are a step relation (AuthzCache/Sync), and so are the calls that overlap at one
-- circuit breaker (Recovery/Breaker).
--
-- Code that is not of the repository is a parameter: JWT, bcrypt and the two lifetimes of the settings
-- (`Libraries` in Auth/Token, with the one law that a token decodes to its claims until it expires),
-- the keys and UUIDs of new rows, the draw of `random.uniform`, the order of a sorted query, the
-- address that Google answers with, what a ping raises, the text of an exception, and what the
-- middleware wraps.
--
-- Bounds. Masks are unbounded in Python, and so here; the column and the hex text take 256 bits and
-- raise beyond. The loop of `expand_implied` runs on three rounds of fuel, the depth of the
-- implications of the catalog and one more. `async_retry` recurses on the retries that are left. The
-- search for a username runs on one round more than there are users, since its candidates differ.
--
-- Not modelled: the reading of requests by pydantic and the serialisation of answers, the patterns
-- for addresses, telephone numbers, SQL and scripts, the handlers and formatters of the log, mail, the
-- redirection to Google, migrations, the connection to Postgres and Redis beyond whether Redis answers,
-- and the frontend. Failures of Postgres other than violated constraints are not modelled either.
pub mod Prelude
pub mod Error
pub mod Http
pub mod Rbac
pub mod Security
pub mod Models
pub mod World
pub mod Repositories
pub mod Services
pub mod AuthzCache
pub mod Auth
pub mod RateLimit
pub mod Recovery
pub mod Middleware
pub mod Routes
pub mod Cli
pub mod Health
pub mod Logger
mod Examples
