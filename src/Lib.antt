-- ===== src/Lib.antt =====
-- Sitey: a control panel that builds services from git repositories and serves them through Caddy.
--
-- The program's parts. A person or siteyctl calls the server's procedures (server/src/routers), which keep
-- services, domains and routes in a database. A change of the routes or a deployment calls reloadCaddy, which
-- builds a Caddy configuration from the database and pushes it to Caddy (server/src/services/caddy.ts); a
-- request to build a service goes through a queue (server/src/lib/queue.ts) to server/src/services/deployment.ts,
-- which reads the service's environment file. A
-- log of requests that Caddy writes is tailed into the tables of the analytics. siteyctl (siteyctl/src) is the client
-- for a terminal. This development models the parts of the server and of siteyctl that decide:
--
-- - Prelude, Text: shared helpers. A text is a list of UTF-16 code units, as JavaScript indexes it. Texts are
--   compared, trimmed, split, joined and put in lower case as the standard library does; lower case is that of
--   ASCII and of the Kelvin sign, the one other character whose lower case is in ASCII.
-- - RouteString: server/src/lib/routeString.ts. parseRouteString is `parse_route_string`, resolveRouteHost is
--   `resolve_route_host`, formatRouteString is `format_route_string`. Hostname, Parse, RoundTrip and Resolve
--   hold the proofs.
-- - Routes: server/src/services/routes.ts and the part of removeRoute (server/src/routers/services.ts) that takes
--   a host. A store is the list of the rows of ServiceRoute, each with its domain and service joined; every call
--   is one function from rows to an error or the rows afterwards. The source runs insertResolvedRoute and
--   insertDomainlessRoute each in one transaction; removeRoute finds a row and then deletes it in two, so for it
--   nothing is said of calls that overlap. The id of a new row is an argument. Hosts is about the query of
--   routesForHost, Insert about the outcomes of insertResolvedRoute, Ownership, Input and Remove about what the
--   callers rely on.
-- - EnvFile: server/src/lib/envFile.ts with its reader parseEnvString of server/src/services/deployment.ts.
-- - Queue: the class DeploymentQueue of server/src/lib/queue.ts. A job's run is a pair of steps, its start and
--   its end, and other steps may come between them in any order.
-- - Reloader: the class CaddyReloader of server/src/services/caddy.ts with the functions that it is given. What
--   runs between two suspensions of `reload` is one function. Steps keeps the rounds that run in a list of their
--   own, apart from `inFlight`, and lets calls, changes of the database, builds, pushes and failures of any of
--   them interleave. Building and pushing a configuration are steps that may succeed or throw.
-- - ServiceRef: server/src/lib/serviceRef.ts.
-- - SiteUrl: server/src/services/siteUrl.ts, with the platform's URL parser as an argument.
-- - StaticRouting: the lexer and checkCaddyFragment of server/src/services/staticRouting.ts. The loops' variables
--   are the record `Lexed` and a stack of `Block`. Serving holds indentFragment and staticServingLines.
-- - SiteBlocks: the rendering of site blocks in server/src/services/caddy.ts: resolveRouteHostname,
--   appendSiteBlock, appendRenderedSiteBlock and mergeRenderedSiteBlocks in the file itself, appendRouteHandler,
--   appendRouteBody, appendAdminHandlers and buildSiteBlockBodyLines in Bodies. A list of lines is what the
--   source's `lines` holds, one element for each that is pushed. The environment's addresses are arguments.
--   Sites is the map `hosts` of buildCaddyConfig, as the list of its entries in the order of their keys, and
--   Emitted holds toServiceRoutes and the loop that emits a block for each entry.
-- - Access: server/src/services/apiTokens.ts with createContext of server/src/context.ts and the checks of
--   server/src/trpc.ts. The table of tokens is a list of rows, and the hash of a token is an argument. Login is
--   about requests, Names about the key of the machine's own siteyctl among concurrent calls.
-- - Deployment: server/src/services/deployment.ts. Steps holds the monad of the code, whose state is the rows, the
--   log and the calls made; Server is deployServer, Run is deployStatic, handleFailure and runDeployment. The
--   functions of DeployDeps are arguments, of which each call answers a value or throws, and so does each update
--   of a row. Outcome and Final hold the proofs.
-- - OutputDir: server/src/lib/outputDir.ts. Inside is about where a path leads.
-- - Live: siteyctl/src/verify.ts. Probe holds probeHttp, one round of whose loop is `hop_outcome`, Report holds
--   runChecks and waitForLive. A request answers a function of its round and URL; what is loaded, what the probes
--   answer and whether the time is up are functions of the poll. Redirects, Verdict, Ended and Wait hold the
--   proofs.
-- - Args: siteyctl/src/args.ts, and in Spec the table COMMANDS of siteyctl/src/spec.ts without the texts of the
--   help. The platform's parseArgs is an argument.
-- - Profiles: siteyctl/src/profiles.ts without its files, with the platform's URL parser as an argument.
-- - Analytics: server/src/services/analytics. Ingest holds drainOpenFd, which answers the transactions that it
--   commits in their order; Poll holds poll and init, for files as they are when they are drained; Store holds
--   the tables with flush and runPrune. The file system, the parser of a line, and the day and week of a time are arguments. Lines, Consumed, Drained, Resumed,
--   Crashed, Rolled, Sums and Counters hold the proofs.
--
-- The loops are structural recursion on a text or a list and have no fuel, with these exceptions. `decimal` writes
-- a number with the number itself as fuel, which is at least the count of its digits. drainOpenFd has the length
-- of what it has read, and the number of bytes up to the file's size, as fuel; every round takes at least one of
-- them. probeHttp has a fuel of six rounds, which is always enough; waitForLive has the number of its polls as
-- fuel, which is enough if the time is up by the last of them. Numbers that the source counts (lines, versions,
-- ids, bytes) stay far below the bounds of a JavaScript number and are natural numbers here.
--
-- Not modelled: the database, Docker, GitHub, Caddy and the file system, which the server calls; the platform's
-- URL parser, JSON and dates; the web interface; scripts and tests. Of the program's own logic, the assembly of
-- the whole Caddy configuration (the end of buildCaddyConfig), the other procedures of server/src/routers, the
-- parser of a line of the access log, the days and weeks of the analytics, and the commands of siteyctl have no
-- model.
pub mod Prelude
pub mod Text
pub mod Access
pub mod Analytics
pub mod Args
pub mod Deployment
pub mod EnvFile
pub mod Live
pub mod OutputDir
pub mod Profiles
pub mod Queue
pub mod Reloader
pub mod RouteString
pub mod Routes
pub mod ServiceRef
pub mod SiteBlocks
pub mod SiteUrl
pub mod StaticRouting
