-- ===== src/Lib.antt =====
-- turl, a tiny-URL service: the parts that decide which link a short URL leads to.
--
-- The program. A command service creates short links: it takes the next number of a sequence, stores the URL
-- under that number, and answers with the number in base58. A query service decodes a short URL, looks in two
-- layers of cache and then in the database, and the HTTP handlers turn its answer into a redirect. Links may
-- expire; a janitor deletes the ones that have. The sequence is shared by all processes: each takes a block of
-- numbers at a time from one row of the database, guarded by an optimistic lock, and waits by a rate limiter
-- when it loses the race.
--
-- The files and the code that they follow:
--   Base58 (pkg/mapping/base58.go): `encode` is Base58Encode, `decode` is Base58Decode, with `init`'s tables
--     `indices` and `pow58`, `pow` and the in-place `reverse`. Sums and products keep the wrap-around of 64
--     bits. Base58.Numerals compares the numbers with their texts as types.
--   Expiry (app/turl/service.go): encodeCacheValue, decodeCacheValue, cacheTTL, isExpired.
--   Service (app/turl/service.go): `create`, `delete`, `janitor_tick`, `retrieve`, `get_by_long`, the health
--     check and Close. The world is a state `W` that every call passes on; a call ends with a value, an error
--     or a panic (Action, Errors). The database, the caches, the clock, the validator and the sequence are a
--     record of parameters. Service.Safety says what is relied on in them, and Service.Honest in the packages
--     that newService builds them from. Service.Grows follows a registered link through every call,
--     Service.Served the calls of Retrieve on it, and Service.Distant is about expiries beyond an int64 of
--     nanoseconds. Service.Indexed and Service.Again are about Create for a URL that is there.
--   Storage (pkg/storage/storage.go): the statements of the store over a database parameter.
--   Cache (pkg/cache): the redis cache, the in-process cache, the counting decorator and the proxy, over the
--     clients that they call. Cache.Contract is the contract between caches and their users, Cache.Layers is
--     about this contract for each layer, Cache.Accounts about the counts of the two layers, and Cache.Fresh
--     about a key after it is set or deleted.
--   Handler (app/turl/handler.go, app/turl/model): Create, Redirect, GetShortenInfo, Delete; what gin binds to
--     the request is a parameter. Handler.Build: NewHandler, CheckReadiness and Close, and the methods of a
--     service of which one side may be missing. Handler.Served follows a link from Create to later redirects.
--   Tddl (pkg/tddl/tddl.go): the sequence generator as a state machine, `advance`, whose program counter names
--     the places of `renew` and `worker` between two calls of the database or two channel operations.
--     Tddl.System interleaves any number of generators, in any order; Tddl.Ends follows one renewal among
--     arbitrary updates by others, and Tddl.New a generator from New to its first number.
--   RateLimit (pkg/workqueue/rate_limiters.go): the exponential, fast-slow, bucket and max-of limiters, and
--     RateLimit.RedisToken, the limiter over redis with the in-process bucket that takes over when redis fails;
--     RateLimit.Rescue interleaves its calls with the goroutines of waitForRedis.
--   RateLimit.TokenScript (pkg/workqueue/token_script.go): the script that redis runs, `allow_script`, over the
--     four commands that it sends and over the numbers of Lua, so that nothing is assumed of how its sums and
--     quotients round. TokenScript.Refused says what is relied on where the keys get no lifetime.
--   Routing (app/turl/http.go, pkg/middleware/gin.go): the calls of NewServer on gin's router as a list, and
--     the middlewares as functions on handlers. Routing.Server is the server that NewServer returns, with its
--     limiters and time limits, and Http the net/http server in it.
--   Config (configs): the structures, Validate, WithDefaults and, in Config.Read, ReadFile. Logging (pkg/log):
--     the logger of a configuration, and the handler that adds the identifiers of a span. Metrics
--     (pkg/metrics/metrics.go): the metrics and the helpers that record events. Clients (pkg/db): mysql.New and
--     redis.Client.
--   Cache.Build and Service.Build: the constructors of the caches, newService with its two modes, CheckHealth
--     and Close of the service as a whole.
--   Observability (pkg/observability/server.go): the admin server and its readiness probe. Shutdown
--     (pkg/shutdown): the steps of a graceful shutdown. Otel (pkg/otel): the start of the tracing. Validate
--     (pkg/validate): the shared validator. Cli (cli/server_command.go): the start of a server, from its
--     configuration to its shutdown, and the health command. Cli.App (cli/turl.go, cmd/turl/main.go): the
--     table of commands and `main`.
--   Action.Gives, Action.Holds and Action.Returns reason about what a call gives where it ends with a value,
--     about the world after it, and that it ends with a value.
--   Tests: concrete inputs, a world in memory, and runs.
--
-- Fuel. The loops over numbers and powers recurse on the order of the naturals and need none. The reversal
-- takes the length of the array as its count of rounds, and each round moves both ends. The rounding of a base
-- delay to a double halves it at most 11 times, and 10 are enough for an int64.
--
-- Parameters. Code outside the repository (gorm and its optimistic lock, the redis client and server, bigcache,
-- golang.org/x/time/rate, the validator, gin, net/http, koanf, prometheus, slog, urfave/cli, the exporter of
-- spans, the clock) is a parameter. The hypotheses about it are the records IsOptimistic (Tddl/Table),
-- IsResponsive (Tddl/Ends), IsDatabase and IsHonest (Service/Safety), IsServing (Service/Served), IsIndexed
-- and LeavesRows (Service/Indexed), IsAnswering (Service/Again), AreCaches and AreHonest (Service/Honest),
-- IsCache (Cache/Contract), IsStore and IsBigCache (Cache/Layers), IsPrometheus (Metrics/Counts), IsUrfave
-- (Cli/Exit), IsKoanf (Config/Read), AreDoubles and RefusesZero (RateLimit/TokenScript/Refused), IsLayered
-- (Cache/Fresh) and IsGin (Routing/Limits).
--
-- Fuel of a renewal. The loop of `renew` ends only when the database answers. Tddl.Ends runs it for the steps
-- of a list, of which two suffice for each time that another process touches the table, and two more.
--
-- Not modelled: the buckets of the histogram and the text format of the metrics; the table that the version
-- printer draws; the handlers of pprof and swagger. Log lines and spans are left out of what is modelled, a
-- sleep keeps only what it does to the state of its limiter, and a goroutine that newService or serverStart
-- starts is a call of a parameter.
pub mod Base
pub mod Errors
pub mod Base58
pub mod Expiry
pub mod RateLimit
pub mod Tddl
pub mod Action
pub mod Cache
pub mod Storage
pub mod Service
pub mod Handler
pub mod Routing
pub mod Clients
pub mod Config
pub mod Http
pub mod Validate
pub mod Otel
pub mod Logging
pub mod Observability
pub mod Shutdown
pub mod Metrics
pub mod Cli
pub mod Tests
