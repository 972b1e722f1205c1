-- ===== src/Auth.antt =====
-- admin/auth_middleware.go: what a request shows of its sender, and the permissions of API keys.
-- admin/models.go: `Session`. Times are nanoseconds since Go's zero time.
pub mod Middleware
pub mod Authorised
pub mod RateLimit
pub mod Invisible
pub mod Login
pub mod Lockout
pub mod Sessions
pub mod Tests
use shield_dns.Prelude.{
  ℕ, ◌+◌, ◌*◌, Bool, true, false, not, ◌&&◌, ◌||◌, List, [], ◌∷◌, any, Option, none, some,
  if◌then◌else◌,
}
use shield_dns.Text.{Text, lit, text_eq, is_empty, trim_space, has_prefix, trim_prefix, split}
use shield_dns.Table.{Table}
use shield_dns.Domain.{split_host_port}
use shield_dns.Server.{ApiKey, Server}

-- The parts of an `http.Request` that the middleware reads. A header that is absent is empty.
pub record Request : Type 0 where
  pub method : Text
  pub path : Text
  pub x_api_key : Text
  pub authorization : Text
  pub query_token : Text
  pub x_shield_request : Text
  pub cookie : Option Text
  pub user_agent : Text
  pub x_real_ip : Text
  pub x_forwarded_for : Text
  pub remote_addr : Text
  pub x_ingress_path : Text
  pub x_hassio_key : Text
  pub x_supervisor_token : Text

pub record Session : Type 0 where
  pub token : Text
  pub remote_ip : Text
  pub user_agent : Text
  pub created_at : ℕ
  pub expires_at : ℕ
  pub mfa_verified : Bool

-- `apiKeyQuota`
pub record Quota : Type 0 where
  pub count : ℕ
  pub reset : ℕ

-- The server, with `sessionStore`, `apiRateLimit`, `apiLastWrite` and `loginFailures`.
pub record Auth : Type 0 where
  pub server : Server
  pub sessions : Table Session
  pub quotas : Table Quota
  pub last_writes : Table ℕ
  pub failures : Table ℕ

-- What the code is told of the world: the time, whether the disk can be written, and `hashToken`.
pub record Clock : Type 0 where
  pub now : ℕ
  pub disk_ok : Bool
  pub hash : Text → Text

abbrev pub is_one_of : Text → List Text → Bool
is_one_of s l = any (λ t. text_eq s t) l

-- One permission of a key, against the one that is asked for.
unfoldable pub grants : Text → Text → Bool
grants perm p =
    is_one_of p (lit "admin:all" ∷ lit "read:all" ∷ perm ∷ [])
    || text_eq perm (lit "read:config")
      && is_one_of p (lit "cluster:sync" ∷ lit "write:config" ∷ [])
    || text_eq perm (lit "read:health") && text_eq p (lit "proxy:worker")
    || text_eq perm (lit "read:health")
      && is_one_of p (
          lit "read:stats"
          ∷ lit "read:system"
          ∷ lit "read:diagnostics"
          ∷ lit "read:config"
          ∷ lit "cluster:sync"
          ∷ [])

unfoldable pub has_permission : ApiKey → Text → Bool
has_permission key perm = any (grants perm) key.permissions

abbrev starts_with_one : Text → List Text → Bool
starts_with_one path l = any (λ p. has_prefix p path) l

-- `getRequiredPermission`
unfoldable pub required_permission : Request → Text
required_permission r =
    let under = starts_with_one r.path in
    let is_get = text_eq r.method (lit "GET") in
    if under (lit "/api/cluster/replicas/" ∷ [])
    then lit "cluster:sync"
    else if under (lit "/api/health" ∷ [])
    then lit "read:health"
    else if under
        (lit "/api/stats" ∷ lit "/api/history" ∷ lit "/api/metrics" ∷ lit "/api/clients" ∷ [])
    then lit "read:stats"
    else if under (
        lit "/api/queries"
        ∷ lit "/api/top-"
        ∷ lit "/api/search"
        ∷ lit "/api/export"
        ∷ lit "/api/ip-history"
        ∷ lit "/api/domain/"
        ∷ [])
    then lit "read:logs"
    else if under (lit "/api/diagnostics" ∷ [])
    then (if text_eq r.method (lit "POST") then lit "write:maintenance" else lit "read:diagnostics")
    else if under (lit "/api/system-logs" ∷ lit "/api/events" ∷ [])
    then lit "read:system"
    else if under (lit "/api/config" ∷ [])
    then (if is_get then lit "read:config" else lit "write:config")
    else if under
        (lit "/api/rules" ∷ lit "/api/toggle" ∷ lit "/api/client/" ∷ lit "/api/filtering" ∷ [])
    then (if is_get then lit "read:rules" else lit "write:rules")
    else if under (
        lit "/api/refresh"
        ∷ lit "/api/logs/clear"
        ∷ lit "/api/system/full-reload"
        ∷ lit "/api/restore"
        ∷ lit "/api/reset"
        ∷ lit "/api/restart-dns"
        ∷ lit "/api/backup"
        ∷ [])
    then lit "write:maintenance"
    else if under (lit "/api/tokens" ∷ lit "/api/keys" ∷ [])
    then lit "write:system"
    else if under (lit "/api/mcp" ∷ [])
    then lit "exec:mcp"
    else lit "admin:all"

unfoldable pub is_mfa_endpoint : Text → Bool
is_mfa_endpoint path =
    has_prefix (lit "/api/mfa/totp/verify") path
    || has_prefix (lit "/api/mfa/webauthn/login") path
    || text_eq path (lit "/api/mfa/status")

unfoldable pub is_ingress_request : Request → Bool
is_ingress_request r =
    not (is_empty r.x_ingress_path)
    || not (is_empty r.x_hassio_key)
    || not (is_empty r.x_supervisor_token)

abbrev head_or_empty : List Text → Text
head_or_empty [] = []
head_or_empty (p ∷ ps) = p

-- The end of `getClientIP`, where no header names an address.
unfoldable pub peer_ip : Text → Text
peer_ip addr = elim (split_host_port addr) [
  | none ↦ addr
  | some (ip, port) ↦ if is_empty ip then addr else ip
]

-- `getClientIP`
unfoldable pub get_client_ip : Request → Text
get_client_ip r =
    let first = trim_space (head_or_empty (split b',' r.x_forwarded_for)) in
    if not (is_empty r.x_real_ip)
    then trim_space r.x_real_ip
    else if not (is_empty r.x_forwarded_for) && not (is_empty first)
    then first
    else peer_ip r.remote_addr

-- The token of a request: `X-API-Key`, else a bearer token, else the query's.
unfoldable pub request_token : Request → Text
request_token r =
    let bearer =
      if has_prefix (lit "Bearer ") r.authorization
      then trim_prefix (lit "Bearer ") r.authorization
      else [] in
    if not (is_empty r.x_api_key)
    then r.x_api_key
    else if not (is_empty bearer)
    then bearer
    else r.query_token

-- `csrfMiddleware`: whether a request is let through.
unfoldable pub passes_csrf : Request → Bool
passes_csrf r =
    let has_api_key =
      not (is_empty r.x_api_key)
      || has_prefix (lit "Bearer ") r.authorization
      || not (is_empty r.query_token)
      || has_prefix (lit "/api/mcp") r.path in
    not (is_one_of r.method (lit "POST" ∷ lit "PUT" ∷ lit "DELETE" ∷ lit "PATCH" ∷ []))
    || has_api_key
    || text_eq r.x_shield_request (lit "true")
