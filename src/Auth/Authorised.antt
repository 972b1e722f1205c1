-- ===== src/Auth/Authorised.antt =====
-- `authMiddleware` of admin/auth_middleware.go lets no request pass without a reason.
use shield_dns.Prelude.{
  ◌≤◌, ◌≡◌, refl, arith, true, false, Option, none, some, Bool-cases, Option-cases, inl, inr, ◌⊎◌,
  ltb,
}
use shield_dns.Text.{Text, text_eq, is_empty}
use shield_dns.Table.{lookup}
use shield_dns.Server.{ApiKey}
use shield_dns.Auth.{
  Request, Session, Auth, Clock, has_permission, required_permission, is_ingress_request,
  is_mfa_endpoint, get_client_ip, request_token,
}
use shield_dns.Auth.Middleware.{
  passed, take_quota, find_key, key_auth, token_auth, without_session, is_mismatch, lacks_mfa,
  check_session, cookie_auth, auth_middleware,
}

-- The session began at the address and with the browser that the request comes from, where it does not
-- come through the supervisor's proxy.
abbrev pub IsSameConnection : Request → Session → Type 0
IsSameConnection req sess =
    (is_ingress_request req ≡ true)
    ⊎ ((text_eq sess.remote_ip (get_client_ip req) ≡ true)
        × (text_eq sess.user_agent req.user_agent ≡ true))

-- The session is verified, where a second factor is asked for and the path is not one that asks for it.
abbrev pub HasFactor : Request → Session → Auth → Type 0
HasFactor req sess s =
    (s.server.config.mfa_enabled ≡ false)
    ⊎ ((sess.mfa_verified ≡ true) ⊎ (is_mfa_endpoint req.path ≡ true))

-- Why a request may pass: a key with the permission, within its quota; or, once a password is set and
-- without a token, the mark of the supervisor's proxy, or a live session of the same connection that does
-- not lack a second factor.
pub data IsAuthorised (w : Clock) (req : Request) (s : Auth) : Type 0 where
  by_key :
      (k : ApiKey)
      → is_empty (request_token req) ≡ false
      → find_key (w.hash (request_token req)) s.server.config.api_keys ≡ some k
      → has_permission k (required_permission req) ≡ true
      → (take_quota w.now (w.hash (request_token req)) s.quotas).count ≤ 100
      → IsAuthorised w req s
  by_ingress :
      is_empty (request_token req) ≡ true
      → is_empty s.server.config.admin_password_hashed ≡ false
      → is_ingress_request req ≡ true
      → IsAuthorised w req s
  by_session :
      (t : Text) (sess : Session)
      → is_empty (request_token req) ≡ true
      → is_empty s.server.config.admin_password_hashed ≡ false
      → req.cookie ≡ some t
      → lookup t s.sessions ≡ some sess
      → w.now ≤ sess.expires_at
      → IsSameConnection req sess
      → HasFactor req sess s
      → IsAuthorised w req s

connection_of :
    (req : Request) (sess : Session) → is_mismatch req sess ≡ false → IsSameConnection req sess
unfolding is_mismatch
connection_of req sess e = elim (Bool-cases (is_ingress_request req)) [
  | inl proxy ↦ inl proxy
  | inr direct ↦ inr (ground arith, ground arith)
]

factor_of :
    (req : Request) (sess : Session) (s : Auth)
    → lacks_mfa req sess s ≡ false
    → HasFactor req sess s
unfolding lacks_mfa
factor_of req sess s e = elim (Bool-cases s.server.config.mfa_enabled) [
  | inr off ↦ inl off
  | inl on ↦ elim (Bool-cases sess.mfa_verified) [
    | inl verified ↦ inr (inl verified)
    | inr unverified ↦ inr (inr (ground arith))
  ]
]

module _ (w : Clock) (req : Request) (s : Auth) (bare : is_empty (request_token req) ≡ true) where
  without_session-IsAuthorised :
      is_empty s.server.config.admin_password_hashed ≡ false
      → without_session req ≡ passed
      → IsAuthorised w req s
  unfolding without_session
  without_session-IsAuthorised set ok = elim (Bool-cases (is_ingress_request req)) [
    | inl e ↦ by_ingress bare set e
    | inr e ↦ cc (rw e at ok)
  ]

  check_session-IsAuthorised :
      (t : Text) (sess : Session)
      → is_empty s.server.config.admin_password_hashed ≡ false
      → req.cookie ≡ some t
      → lookup t s.sessions ≡ some sess
      → (check_session w.now req t sess s).1 ≡ passed
      → IsAuthorised w req s
  unfolding check_session
  check_session-IsAuthorised t sess set sent known ok =
      elim (Bool-cases (ltb sess.expires_at w.now)) [
        | inl e ↦ without_session-IsAuthorised set (rw e at ok)
        | inr e ↦ elim (Bool-cases (is_mismatch req sess)) [
          | inl other ↦ cc (rw (e, other) at ok)
          | inr same ↦ elim (Bool-cases (lacks_mfa req sess s)) [
            | inl lacks ↦ cc (rw (e, same, lacks) at ok)
            | inr has ↦
                by_session t sess bare set sent known (ground arith) (connection_of req sess same)
                  (factor_of req sess s has)
          ]
        ]
      ]

  cookie_auth-IsAuthorised :
      (c : Option Text)
      → req.cookie ≡ c
      → is_empty s.server.config.admin_password_hashed ≡ false
      → (cookie_auth w.now req c s).1 ≡ passed
      → IsAuthorised w req s
  unfolding cookie_auth
  cookie_auth-IsAuthorised none sent set ok = without_session-IsAuthorised set ok
  cookie_auth-IsAuthorised (some t) sent set ok = elim (Option-cases (lookup t s.sessions)) [
    | inl e ↦ without_session-IsAuthorised set (rw (e, cookie_auth) at ok)
    | inr (sess, e) ↦ check_session-IsAuthorised t sess set sent e (rw (e, cookie_auth) at ok)
  ]

module _ (w : Clock) (req : Request) (s : Auth) where
  token_auth-IsAuthorised :
      is_empty (request_token req) ≡ false
      → (token_auth w (w.hash (request_token req)) req s).1 ≡ passed
      → IsAuthorised w req s
  unfolding token_auth key_auth
  token_auth-IsAuthorised given ok =
      let h = w.hash (request_token req) in
      elim (Bool-cases (ltb 100 (take_quota w.now h s.quotas).count)) [
        | inl e ↦ cc (rw e at ok)
        | inr e ↦ elim (Option-cases (find_key h s.server.config.api_keys)) [
          | inl missing ↦ cc (rw (e, missing, key_auth) at ok)
          | inr (k, found) ↦ elim (Bool-cases (has_permission k (required_permission req))) [
            | inl may ↦ by_key k given found may (ground arith)
            | inr may_not ↦ cc (rw (e, found, key_auth, may_not) at ok)
          ]
        ]
      ]

-- A request that passes `authMiddleware` is authorised: it has a known key with the permission that its
-- path asks for and is within the quota, or, with a password set and no token, it carries a mark of the
-- supervisor's proxy or a live session of its connection with the second factor where one is asked for.
pub auth_middleware-IsAuthorised :
    (w : Clock) (req : Request) (s : Auth)
    → (auth_middleware w req s).1 ≡ passed
    → IsAuthorised w req s
unfolding auth_middleware
auth_middleware-IsAuthorised w req s ok = elim (Bool-cases (is_empty (request_token req))) [
  | inr given ↦ token_auth-IsAuthorised w req s given (rw given at ok)
  | inl bare ↦ elim (Bool-cases (is_empty s.server.config.admin_password_hashed)) [
    | inl e ↦ cc (rw (bare, e) at ok)
    | inr set ↦ cookie_auth-IsAuthorised w req s bare req.cookie refl set (rw (bare, set) at ok)
  ]
]
