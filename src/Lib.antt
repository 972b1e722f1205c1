-- ===== src/Lib.antt =====
-- The DNS filter and admin server of the repository: what decides whether a query is blocked, the rules
-- of the administrator, and the detection of abusive clients.
--
-- The server (Go, admin/) downloads filter lists and merges them with the administrator's own rules into
-- one map from a blocked domain to the lists that name it (`blockAttribution`). CoreDNS answers queries
-- from a hosts file written from that map; the server reads the log of CoreDNS, and blocks clients whose
-- queries fit one of six patterns. The configuration in memory is what the handlers change; it is saved
-- to disk and the map reloaded after each change.
--
-- Files, with the code they are about:
-- - Text: byte strings and the functions of Go's `strings` that the code calls.
-- - Table: Go's maps, compared by what a lookup returns.
-- - Domain: `NormalizeDomain`, `isValidDomain` (admin/api_utils.go); Domain/Normal, Domain/Fixed.
-- - Adblock: `ParseAdblockRule` (admin/api_utils.go); Adblock/Parsed.
-- - Blocklist: `applyCurrentRules` (admin/config_blocklist.go), and the lookup that `parseLogLine`
--   (admin/dns_parser.go) and `handleSearch` (admin/api_rules.go) share; Blocklist/Parents,
--   Blocklist/Applied, Blocklist/Verdict.
-- - ListFile: `addDomain` and the line loop of `processList` (admin/config_blocklist.go); ListFile/Added.
-- - Server: the state, `saveConfigNoLock` (admin/config.go), `IsCriticalIP` (admin/api_utils.go).
-- - Loading: `loadConfig`, `ensureOfficialLists` (admin/config.go); Loading/Bounds.
-- - Rules: `handleRuleAdd`, `handleRuleRemove`, `handleToggleFiltering` (admin/api_rules.go) and
--   `reloadRulesFast` (admin/config_blocklist.go); Rules/Lists, Rules/Reload, Rules/Ends, Rules/Effects.
-- - Abuse: `analyzeQuery` and what it calls, `blockClientAuto` and the clean-up (admin/abuse.go);
--   Abuse/Window, Abuse/Counting, Abuse/Stages, Abuse/Rate, Abuse/Infrastructure,
--   Abuse/Blocking, Abuse/AutoBlock, Abuse/Cleanup.
-- - Auth: what a request shows, and the permissions (admin/auth_middleware.go); Auth/Middleware:
--   `authMiddleware`, and the clean-ups of admin/auth.go; Auth/Login: `handleLogin`, `handleLogout`,
--   `handleChangePassword` (admin/auth.go); Auth/Authorised, Auth/RateLimit,
--   Auth/Invisible, Auth/Lockout, Auth/Sessions.
-- - Clients: `handleClientAlias`, `handleClientBlock` (admin/api_client_handlers.go) and the token handlers
--   (admin/api_tokens.go); Clients/Blocked, Clients/Retrofit, Clients/Tokens,
--   Clients/Reachable.
-- - QueryLog: `parseLogLine`, `startAbuseAnalyzer` and `DoHRateLimitMiddleware` (admin/dns_parser.go);
--   QueryLog/Line reads a raw line (with `extractQuotes` of admin/api_utils.go), in a loop whose fuel is
--   the length of the line and one; QueryLog/Stripped, QueryLog/Tagged,
--   QueryLog/Untagged, QueryLog/Written (the `log` directive of admin/dns.go), QueryLog/Verdict,
--   QueryLog/Window.
-- - Cluster: `buildClusterConfigExport` (admin/config.go) and `applyClusterExport`
--   (admin/api_cluster_sync.go); Cluster/Primary and Cluster/Node: the handlers of admin/api_cluster.go on
--   either side, and `sanitizeRedirect` (admin/api_security.go); Cluster/OutboundUrl:
--   `safeOutboundURLRegex`; Cluster/Logs: `SyncClusterLogs`;
--   Cluster/Worker: `handleClusterWorkerScript`; Cluster/Setup: `handleSetup` (admin/auth.go);
--   Cluster/Mirror, Cluster/Joined, Cluster/Replicas,
--   Cluster/Revoked, Cluster/Synced, Cluster/Settled, Cluster/Delivered, Cluster/Drained, Cluster/Redirect.
-- - Routing: `handleRoutingRules` (admin/api_routing.go); Routing/Kept, Routing/Undone.
-- - Mcp: the tools of the assistant interface (admin/api_mcp_tools_rules.go,
--   admin/api_mcp_tools_filtering.go, admin/api_mcp_tools_cluster.go); Mcp/Call: `handleMCP`
--   (admin/api_mcp.go); Mcp/Allowed, Mcp/Kept.
--
-- How the model stands to the code:
-- - A string is the list of its bytes. Letter case and spaces are those of ASCII; text outside ASCII is
--   lowered and trimmed by Go in more ways, which is not modelled.
-- - A handler is a function from the state to the state and the status of its answer; a request is
--   given decoded. A handler that the runtime would stop, with the program, has no result. Each handler is
--   one step, and an interleaving is a sequence of calls; where the code
--   takes its locks more than once in a call (the middleware, the login, the creation of a token), what
--   other calls do in between is not modelled.
-- - Times are numbers of nanoseconds. All loops but the one over the tags of a line, whose fuel is above,
--   are structural recursion.
-- - What the code does not hold itself is an argument: whether the disk can be written, the answers of
--   other nodes, the parsers of addresses and URLs of packages net and net/url, what
--   json.Unmarshal makes of the defaults, the test of the entropy of a label, the feeds of countries and
--   threats.
-- - The integers of the configuration are natural numbers; a file that holds a negative one is not modelled.
--   The threshold of the entropy stands for the bits of a float that is not negative.
-- - A map is a list of its entries; statements that would read duplicate entries ask that each key stands
--   in the list once.
--
-- Not modelled: the files written for CoreDNS, the downloads, the database, the statistics and the frontend.
pub mod Prelude
pub mod Text
pub mod Table
pub mod Domain
pub mod Adblock
pub mod Blocklist
pub mod ListFile
pub mod Server
pub mod Loading
pub mod Routing
pub mod Rules
pub mod Abuse
pub mod Auth
pub mod Clients
pub mod Cluster
pub mod QueryLog
pub mod Mcp
