-- ===== src/Auth/Sessions.antt =====
-- Where sessions come from and go to: admin/auth.go and admin/auth_middleware.go.
use shield_dns.Prelude.{
  ℕ, ◌+◌, ◌*◌, ◌≤◌, ◌<◌, ◌≡◌, ◌↔◌, refl, arith, true, false, Option, none, some, Bool-cases,
  Option-cases, lt_of_leb, le_of_ltb, ap, inl, inr, ltb, leb, length,
}
use shield_dns.Text.{Text}
use shield_dns.Text.Equality.{text_eq_refl}
use shield_dns.Table.{lookup, insert, lookup-delete}
use shield_dns.Server.{Config, is_replica, save_config-config}
use shield_dns.Auth.{Request, Session, Auth, get_client_ip}
use shield_dns.Auth.Middleware.{hour}
use shield_dns.Auth.Login.{
  Passwords, PasswordChange, failures_of, new_session, login_succeeds, login_fails, check_login,
  handle_login, set_password, handle_change_password,
}

-- A session of the client that asks for it, for a day, and verified where no second factor is asked for.
pub record IsNewSession (p : Passwords) (req : Request) (c : Config) (session : Session)
    : Type 0 where
  pub token : session.token ≡ p.new_token
  pub remote_ip : session.remote_ip ≡ get_client_ip req
  pub user_agent : session.user_agent ≡ req.user_agent
  pub created : session.created_at ≡ p.now
  pub expires : session.expires_at ≡ p.now + 24 * hour
  pub verified : (session.mfa_verified ≡ true) ↔ (c.mfa_enabled ≡ false)

new_session-IsNewSession :
    (p : Passwords) (req : Request) (c : Config) → IsNewSession p req c (new_session p req c)
unfolding new_session
new_session-IsNewSession p req c = record {
  token = refl;
  remote_ip = refl;
  user_agent = refl;
  created = refl;
  expires = refl;
  verified = ground arith;
}

-- What a login does to the sessions, and what must hold for it to make one.
pub data IsLogin (p : Passwords) (req : Request) (body : Option Text) (s : Auth)
    : Auth × ℕ → Type 0 where
  no_login :
      {s' : Auth} {status : ℕ}
      → 400 ≤ status
      → s'.sessions ≡ s.sessions
      → s'.server ≡ s.server
      → IsLogin p req body s (s', status)
  new_login :
      {s' : Auth} (password : Text) (session : Session)
      → body ≡ some password
      → p.verify s.server.config.admin_password_hashed password ≡ true
      → failures_of (get_client_ip req) s < 10
      → s'.sessions ≡ insert p.new_token session s.sessions
      → IsNewSession p req s.server.config session
      → failures_of (get_client_ip req) s' ≡ 0
      → IsLogin p req body s (s', 200)

login_succeeds-failures :
    (p : Passwords) (req : Request) (s : Auth)
    → failures_of (get_client_ip req) (login_succeeds p req s) ≡ 0
unfolding login_succeeds
login_succeeds-failures p req s = rw (lookup-delete, text_eq_refl (get_client_ip req)) refl

check_login-IsLogin :
    (p : Passwords) (req : Request) (body : Option Text) (s : Auth)
    → failures_of (get_client_ip req) s < 10
    → IsLogin p req body s (check_login p req body s)
unfolding check_login login_succeeds login_fails
check_login-IsLogin p req none s few = no_login (omega arith) refl refl
check_login-IsLogin p req (some password) s few =
    elim (Bool-cases (p.verify s.server.config.admin_password_hashed password)) [
      | inl e ↦ rw e (
          new_login password (new_session p req s.server.config) refl e few refl
            (new_session-IsNewSession p req s.server.config) (login_succeeds-failures p req s))
      | inr e ↦ rw e (no_login (omega arith) refl refl)
    ]

-- A login that is refused leaves the sessions and the server as they are. A login that succeeds was made
-- with the right password, after fewer than ten failures from its address; it adds one new session, under
-- the new token, with the address and the browser of the request and an end after 24 hours, which is verified
-- exactly where no second factor is asked for; and it forgets the failures.
pub handle_login-IsLogin :
    (p : Passwords) (req : Request) (body : Option Text) (s : Auth)
    → IsLogin p req body s (handle_login p req body s)
unfolding handle_login
handle_login-IsLogin p req body s = elim (Bool-cases (leb 10 (failures_of (get_client_ip req) s))) [
  | inl e ↦ rw e (no_login (omega arith) refl refl)
  | inr e ↦ rw e (check_login-IsLogin p req body s (lt_of_leb 10 _ e))
]

-- What a change of the password does: it is refused and changes nothing, or, where it was asked for with
-- the present password outside a replica, the new password has twelve bytes at least and all sessions end.
pub data IsPasswordChange (p : Passwords) (body : Option PasswordChange) (s : Auth)
    : Auth × ℕ → Type 0 where
  no_change :
      {s' : Auth} {status : ℕ} → 400 ≤ status → s' ≡ s → IsPasswordChange p body s (s', status)
  changed :
      {s' : Auth} (req : PasswordChange) (hash : Text)
      → body ≡ some req
      → is_replica s.server.config ≡ false
      → p.verify s.server.config.admin_password_hashed req.current ≡ true
      → 12 ≤ length req.new
      → p.make_hash req.new ≡ some hash
      → s'.server.config.admin_password_hashed ≡ hash
      → ((t : Text) → lookup t s'.sessions ≡ none)
      → IsPasswordChange p body s (s', 200)

set_password-hash :
    (p : Passwords) (hash : Text) (s : Auth)
    → (set_password p hash s).server.config.admin_password_hashed ≡ hash
unfolding set_password
set_password-hash p hash s =
    ap (λ (c : Config). c.admin_password_hashed) (save_config-config p.disk_ok _)

set_password-sessions :
    (p : Passwords) (hash : Text) (s : Auth) (t : Text)
    → lookup t (set_password p hash s).sessions ≡ none
unfolding set_password lookup
set_password-sessions p hash s t = refl

-- A change of the password is refused and changes nothing; or it was asked for with the present password
-- on a node that is no replica, with a new password of twelve bytes at least, whose hash is the one in
-- memory from then on, and no session is left.
pub handle_change_password-IsPasswordChange :
    (p : Passwords) (body : Option PasswordChange) (s : Auth)
    → IsPasswordChange p body s (handle_change_password p body s)
unfolding handle_change_password
handle_change_password-IsPasswordChange p none s = no_change (omega arith) refl
handle_change_password-IsPasswordChange p (some req) s =
    elim (Bool-cases (is_replica s.server.config)) [
      | inl e ↦ rw e (no_change (omega arith) refl)
      | inr main ↦ elim (Bool-cases (p.verify s.server.config.admin_password_hashed req.current)) [
        | inr bad ↦ rw (main, bad) (no_change (omega arith) refl)
        | inl good ↦ elim (Bool-cases (ltb (length req.new) 12)) [
          | inl short ↦ rw (main, good, short) (no_change (omega arith) refl)
          | inr long ↦ elim (Option-cases (p.make_hash req.new)) [
            | inl e ↦ rw (main, good, long, e) (no_change (omega arith) refl)
            | inr (hash, e) ↦
                rw (main, good, long, e)
                  (changed req hash refl main good (le_of_ltb _ 12 long) e
                    (set_password-hash p hash s) (set_password-sessions p hash s))
          ]
        ]
      ]
    ]
