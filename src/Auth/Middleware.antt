-- ===== src/Auth/Middleware.antt =====
-- admin/auth_middleware.go: `authMiddleware`; admin/auth.go: the clean-ups of its stores.
-- The handler behind the middleware is left out: a request passes, or it is answered with a status.
use shield_dns.Prelude.{
  ℕ, suc, ◌+◌, ◌*◌, Bool, not, ◌&&◌, ◌||◌, List, [], ◌∷◌, Option, none, some, option_or,
  if◌then◌else◌, ltb,
}
use shield_dns.Text.{Text, text_eq, is_empty}
use shield_dns.Table.{Table, lookup, insert, delete, keep_values}
use shield_dns.Server.{ApiKey, save_config}
use shield_dns.Auth.{
  Request, Session, Quota, Auth, Clock, has_permission, required_permission, is_mfa_endpoint,
  is_ingress_request, get_client_ip, request_token,
}

abbrev pub minute : ℕ
minute = 60_000_000_000

abbrev pub hour : ℕ
hour = 3_600_000_000_000

pub data Outcome : Type 0 where
  passed : Outcome
  refused : ℕ → Outcome

-- The quota of a token, with this request counted.
unfoldable pub take_quota : ℕ → Text → Table Quota → Quota
take_quota now h quotas =
    let q = option_or (lookup h quotas) (record { count = 0; reset = now + minute }) in
    if ltb q.reset now
    then record { count = 1; reset = now + minute }
    else record { count = suc q.count; reset = q.reset }

unfoldable pub find_key : Text → List ApiKey → Option ApiKey
find_key h [] = none
find_key h (k ∷ ks) = if text_eq k.token_hash h then some k else find_key h ks

-- `config.APIKeys[i].LastUsed = now` at the first key with the hash
unfoldable pub touch_key : ℕ → Text → List ApiKey → List ApiKey
touch_key now h [] = []
touch_key now h (k ∷ ks) =
    let rest = touch_key now h ks in
    if text_eq k.token_hash h then record k { last_used = now } ∷ ks else k ∷ rest

-- Step 1b, where the key is good: its use is recorded at most once an hour.
unfoldable pub record_use : Clock → Text → Auth → Auth
record_use w h s =
    let last = option_or (lookup h s.last_writes) 0 in
    let keys = touch_key w.now h s.server.config.api_keys in
    let touched = record s.server { config = record s.server.config { api_keys = keys } } in
    if ltb (last + hour) w.now
    then record s {
      server = (save_config w.disk_ok touched).0;
      last_writes = insert h w.now s.last_writes;
    }
    else record s { last_writes = insert h last s.last_writes }

unfoldable pub key_auth : Clock → Text → Request → Auth → Auth × Outcome
key_auth w h req s = elim (find_key h s.server.config.api_keys) [
  | none ↦ (s, refused 401)
  | some k ↦
      if has_permission k (required_permission req)
      then (record_use w h s, passed)
      else (s, refused 403)
]

unfoldable pub token_auth : Clock → Text → Request → Auth → Auth × Outcome
token_auth w h req s =
    let q = take_quota w.now h s.quotas in
    let counted = record s { quotas = insert h q s.quotas } in
    if ltb 100 q.count then (counted, refused 429) else key_auth w h req counted

-- The answer where there is no live session.
unfoldable pub without_session : Request → Outcome
without_session req = if is_ingress_request req then passed else refused 401

unfoldable pub drop_session : Text → Auth → Auth
drop_session t s = record s { sessions = delete t s.sessions }

-- Whether the session belongs to another connection.
unfoldable pub is_mismatch : Request → Session → Bool
is_mismatch req sess =
    (not (text_eq sess.remote_ip (get_client_ip req))
      || not (text_eq sess.user_agent req.user_agent))
    && not (is_ingress_request req)

-- Step 4: the session waits for its second factor.
unfoldable pub lacks_mfa : Request → Session → Auth → Bool
lacks_mfa req sess s =
    s.server.config.mfa_enabled && not sess.mfa_verified && not (is_mfa_endpoint req.path)

unfoldable pub check_session : ℕ → Request → Text → Session → Auth → Auth × Outcome
check_session now req t sess s =
    if ltb sess.expires_at now
    then (drop_session t s, without_session req)
    else if is_mismatch req sess
    then (drop_session t s, refused 401)
    else if lacks_mfa req sess s
    then (s, refused 403)
    else (s, passed)

unfoldable pub cookie_auth : ℕ → Request → Option Text → Auth → Auth × Outcome
cookie_auth now req none s = (s, without_session req)
cookie_auth now req (some t) s = elim (lookup t s.sessions) [
  | none ↦ (s, without_session req)
  | some sess ↦ check_session now req t sess s
]

-- `authMiddleware`
unfoldable pub auth_middleware : Clock → Request → Auth → Auth × Outcome
auth_middleware w req s =
    let token = request_token req in
    if not (is_empty token)
    then token_auth w (w.hash token) req s
    else if is_empty s.server.config.admin_password_hashed
    then (s, refused 403)
    else cookie_auth w.now req req.cookie s

-- `cleanupSessions`
unfoldable pub cleanup_sessions : ℕ → Auth → Auth
cleanup_sessions now s = record s {
  sessions = keep_values (λ sess. not (ltb sess.expires_at now)) s.sessions;
}

-- `cleanupRateLimits`
unfoldable pub cleanup_rate_limits : ℕ → Auth → Auth
cleanup_rate_limits now s = record s {
  quotas = keep_values (λ q. not (ltb (q.reset + hour) now)) s.quotas;
  last_writes = keep_values (λ t. not (ltb (t + 24 * hour) now)) s.last_writes;
}
