-- ===== src/Auth/Tests.antt =====
-- The middleware, the login and the clean-ups at concrete requests.
use shield_dns.Prelude.{suc, ◌+◌, ◌-◌, ◌*◌, ◌≤◌, ◌≡◌, refl, arith, true, false, [], ◌∷◌, some, none}
use shield_dns.Text.{
  Text, lit, text_eq, trim_space, has_prefix, trim_prefix, split, cut, cut_last, has_byte,
}
use shield_dns.Table.{lookup, insert, delete, member, keep_values}
use shield_dns.Domain.{split_host_port}
use shield_dns.Server.{ApiKey, is_unsafe, is_replica, save_config}
use shield_dns.Rules.Tests.{plain_config, server}
use shield_dns.Auth.{
  Request, Session, Auth, Clock, grants, has_permission, required_permission, is_mfa_endpoint,
  is_ingress_request, peer_ip, get_client_ip, request_token, passes_csrf,
}
use shield_dns.Auth.Middleware.{
  passed, refused, take_quota, find_key, touch_key, record_use, key_auth, token_auth,
  without_session, drop_session, is_mismatch, lacks_mfa, check_session, cookie_auth,
  auth_middleware, cleanup_sessions, cleanup_rate_limits, minute, hour,
}
use shield_dns.Auth.Authorised.{IsAuthorised, auth_middleware-IsAuthorised}
use shield_dns.Auth.RateLimit.{count_passes, count_passes-le}
use shield_dns.Auth.Invisible.{AreSame, clean_up, clean_up-AreSame}
use shield_dns.Auth.Login.{
  Passwords, PasswordChange, failures_of, new_session, record_login, login_succeeds, login_fails,
  check_login, handle_login, set_password, handle_change_password,
}
use shield_dns.Auth.Lockout.{Attempt, count_answers, count_answers-le}
use shield_dns.Auth.Sessions.{IsLogin, handle_login-IsLogin}

unfoldable pub auth_run : Unit {0}
unfolding lit text_eq trim_space has_prefix trim_prefix split cut cut_last has_byte lookup insert
    delete member keep_values split_host_port is_unsafe is_replica save_config grants has_permission
    required_permission is_mfa_endpoint is_ingress_request peer_ip get_client_ip request_token
    passes_csrf take_quota find_key touch_key record_use key_auth token_auth without_session
    drop_session is_mismatch lacks_mfa check_session cookie_auth auth_middleware cleanup_sessions
    cleanup_rate_limits clean_up count_passes new_session record_login login_succeeds login_fails
    check_login handle_login set_password handle_change_password count_answers
auth_run = tt

abbrev get : Text → Request
get path = record {
  method = lit "GET";
  path = path;
  x_api_key = [];
  authorization = [];
  query_token = [];
  x_shield_request = [];
  cookie = none;
  user_agent = lit "UA";
  x_real_ip = [];
  x_forwarded_for = [];
  remote_addr = lit "10.0.0.9:4000";
  x_ingress_path = [];
  x_hassio_key = [];
  x_supervisor_token = [];
}

abbrev with_cookie : Request
with_cookie = record (get (lit "/api/rules")) { cookie = some (lit "s1") }

abbrev pub with_key : Request
with_key = record (get (lit "/api/rules")) { authorization = lit "Bearer k1" }

abbrev reader : ApiKey
reader = record {
  id = lit "1";
  name = lit "reader";
  token_hash = lit "#k1";
  permissions = lit "read:rules" ∷ [];
  created_at = 0;
  last_used = 0;
}

abbrev session : Session
session = record {
  token = lit "s1";
  remote_ip = lit "10.0.0.9";
  user_agent = lit "UA";
  created_at = 0;
  expires_at = 30 * hour;
  mfa_verified = true;
}

abbrev pub auth : Auth
auth = record {
  server = record server {
    config = record plain_config {
      admin_password_hashed = lit "#pw";
      setup_done = true;
      api_keys = reader ∷ [];
    };
  };
  sessions = (lit "s1", session) ∷ [];
  quotas = (lit "#k1", record { count = 99; reset = 20 * hour + minute }) ∷ [];
  last_writes = [];
  failures = (lit "10.0.0.9", 9) ∷ [];
}

abbrev pub clock : Clock
clock = record { now = 20 * hour; disk_ok = true; hash = λ t. b'#' ∷ t }

abbrev passwords : Passwords
passwords = record {
  verify = λ h p. text_eq h (b'#' ∷ p);
  make_hash = λ p. some (b'#' ∷ p);
  new_token = lit "s2";
  now = 20 * hour;
  disk_ok = true;
}

abbrev wrong_guess : Attempt
wrong_guess = record { passwords = passwords; request = get (lit "/login"); body = some (lit "x") }

auth_tests :
    ((auth_middleware clock with_key auth).1 ≡ passed)
    × ((auth_middleware clock with_cookie auth).1 ≡ passed)
    × ((auth_middleware clock (get (lit "/api/rules")) auth).1 ≡ refused 401)
    × ((auth_middleware clock (record with_key { method = lit "POST" }) auth).1 ≡ refused 403)
    × ((auth_middleware clock (record (get (lit "/api/rules")) { x_ingress_path = lit "/" }) auth).1
        ≡ passed)
    × (count_passes (lit "#k1") ((clock, with_key) ∷ (clock, with_key) ∷ []) auth ≡ 1)
    × (passes_csrf (record with_cookie { method = lit "POST" }) ≡ false)
unfolding auth_run
auth_tests = (refl, refl, refl, refl, refl, refl, refl)

lockout_test :
    count_answers (lit "10.0.0.9") 401 (wrong_guess ∷ wrong_guess ∷ wrong_guess ∷ []) auth ≡ 1
unfolding auth_run
lockout_test = refl

auth_middleware-IsAuthorised_example : IsAuthorised clock with_cookie auth
unfolding auth_run
auth_middleware-IsAuthorised_example = auth_middleware-IsAuthorised clock with_cookie auth refl

count_passes-le_example :
    count_passes
      (lit "#k1")
      ((clock, with_key) ∷ (clock, with_cookie) ∷ (clock, with_key) ∷ [])
      auth
    ≤ 100 - 99
unfolding auth_run
count_passes-le_example =
    count_passes-le (lit "#k1") ((clock, with_key) ∷ (clock, with_cookie) ∷ (clock, with_key) ∷ [])
      auth (record { count = 99; reset = 20 * hour + minute }) refl
      (omega arith, (omega arith, (omega arith, tt)))

clean_up-AreSame_example :
    AreSame
      (auth_middleware clock with_key (clean_up (19 * hour) auth))
      (auth_middleware clock with_key auth)
unfolding auth_run
clean_up-AreSame_example =
    clean_up-AreSame clock with_key (19 * hour) auth (omega arith) (refl, tt) (refl, tt) tt

count_answers-le_example :
    count_answers (lit "10.0.0.9") 401 (wrong_guess ∷ wrong_guess ∷ []) auth
      + failures_of (lit "10.0.0.9") auth
    ≤ 10 * suc (count_answers (lit "10.0.0.9") 200 (wrong_guess ∷ wrong_guess ∷ []) auth)
unfolding auth_run
count_answers-le_example =
    count_answers-le (lit "10.0.0.9") (wrong_guess ∷ wrong_guess ∷ []) auth (omega arith)

handle_login-IsLogin_example :
    IsLogin passwords
      (get (lit "/login"))
      (some (lit "pw"))
      auth
      (handle_login passwords (get (lit "/login")) (some (lit "pw")) auth)
handle_login-IsLogin_example =
    handle_login-IsLogin passwords (get (lit "/login")) (some (lit "pw")) auth

abbrev change : PasswordChange
change = record { current = lit "pw"; new = lit "a new password" }
