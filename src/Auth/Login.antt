-- ===== src/Auth/Login.antt =====
-- admin/auth.go: `handleLogin`, `handleLogout`, `handleChangePassword`, and the clean-up of the failures.
-- `verify` is `bcrypt.CompareHashAndPassword`, `make_hash` is `bcrypt.GenerateFromPassword`, and the token
-- of a new session is an argument. The delay after repeated failures is left out.
use shield_dns.Prelude.{
  ℕ, zero, suc, ◌+◌, ◌*◌, Bool, not, [], ◌∷◌, Option, none, some, option_or, if◌then◌else◌, ltb,
  leb, ◌==◌, length,
}
use shield_dns.Text.{Text}
use shield_dns.Table.{Table, lookup, insert, delete}
use shield_dns.Server.{Config, is_replica, save_config}
use shield_dns.Auth.{Request, Session, Auth, get_client_ip}
use shield_dns.Auth.Middleware.{hour}

pub record Passwords : Type 0 where
  pub verify : Text → Text → Bool  -- the hash, and the password
  pub make_hash : Text → Option Text
  pub new_token : Text
  pub now : ℕ
  pub disk_ok : Bool

abbrev pub session_duration : ℕ
session_duration = 24 * hour

abbrev pub failures_of : Text → Auth → ℕ
failures_of ip s = option_or (lookup ip s.failures) 0

unfoldable pub new_session : Passwords → Request → Config → Session
new_session p req c = record {
  token = p.new_token;
  remote_ip = get_client_ip req;
  user_agent = req.user_agent;
  created_at = p.now;
  expires_at = p.now + session_duration;
  mfa_verified = not c.mfa_enabled;
}

-- `LastLogin` moves to `PreviousLogin`, unless it is zero.
unfoldable pub record_login : ℕ → Config → Config
record_login now c = record c {
  previous_login = if c.last_login == 0 then c.previous_login else c.last_login;
  last_login = now;
}

unfoldable pub login_succeeds : Passwords → Request → Auth → Auth
login_succeeds p req s = record s {
  failures = delete (get_client_ip req) s.failures;
  sessions = insert p.new_token (new_session p req s.server.config) s.sessions;
  server =
      (save_config p.disk_ok (record s.server { config = record_login p.now s.server.config })).0;
}

unfoldable pub login_fails : Request → Auth → Auth
login_fails req s = record s {
  failures = insert (get_client_ip req) (suc (failures_of (get_client_ip req) s)) s.failures;
}

-- `handleLogin` behind the test of the failures.
unfoldable pub check_login : Passwords → Request → Option Text → Auth → Auth × ℕ
check_login p req none s = (s, 400)
check_login p req (some password) s =
    if p.verify s.server.config.admin_password_hashed password
    then (login_succeeds p req s, 200)
    else (login_fails req s, 401)

-- `handleLogin`, with the status of the answer. A save that fails is only logged.
unfoldable pub handle_login : Passwords → Request → Option Text → Auth → Auth × ℕ
handle_login p req body s =
    if leb 10 (failures_of (get_client_ip req) s) then (s, 429) else check_login p req body s

-- `handleLogout`
unfoldable pub handle_logout : Request → Auth → Auth × ℕ
handle_logout req s = elim req.cookie [
  | none ↦ (s, 200)
  | some t ↦ (record s { sessions = delete t s.sessions }, 200)
]

pub record PasswordChange : Type 0 where
  pub current : Text
  pub new : Text

unfoldable pub set_password : Passwords → Text → Auth → Auth
set_password p hash s = record s {
  server =
      (save_config p.disk_ok
        (record s.server { config = record s.server.config { admin_password_hashed = hash } })).0;
  sessions = [];
}

-- `handleChangePassword`. A save that fails is only logged.
unfoldable pub handle_change_password : Passwords → Option PasswordChange → Auth → Auth × ℕ
handle_change_password p none s = (s, 400)
handle_change_password p (some req) s =
    if is_replica s.server.config
    then (s, 403)
    else if not (p.verify s.server.config.admin_password_hashed req.current)
    then (s, 401)
    else if ltb (length req.new) 12
    then (s, 400)
    else elim (p.make_hash req.new) [ none ↦ (s, 500) | some hash ↦ (set_password p hash s, 200) ]

-- `cleanupLoginFailures`: each count that is positive goes down by one, and goes away at zero.
unfoldable pub forgive : Table ℕ → Table ℕ
forgive [] = []
forgive ((ip, zero) ∷ m) = (ip, zero) ∷ forgive m
forgive ((ip, suc count) ∷ m) =
    let rest = forgive m in if count == 0 then rest else (ip, count) ∷ rest

unfoldable pub cleanup_login_failures : Auth → Auth
cleanup_login_failures s = record s { failures = forgive s.failures }
