-- ===== src/Auth/RateLimit.antt =====
-- The quota of `authMiddleware` in admin/auth_middleware.go: a hundred requests a minute for a token.
use shield_dns.Prelude.{
  ℕ, suc, ◌+◌, ◌-◌, ◌≤◌, ◌≡◌, refl, arith, Bool, true, false, not, ◌&&◌, List, [], ◌∷◌, All, Option,
  none, some, if◌then◌else◌, Bool-cases, Option-cases, inl, inr, ltb, option_or, &&-true_parts, ◌∙◌,
}
use shield_dns.Text.{Text, text_eq, is_empty}
use shield_dns.Text.Equality.{text_eq_sound, text_eq_refl}
use shield_dns.Table.{Table, lookup, insert, lookup-insert}
use shield_dns.Auth.{
  Request, Session, Quota, Auth, Clock, has_permission, required_permission, request_token,
}
use shield_dns.Auth.Middleware.{
  Outcome, passed, refused, take_quota, find_key, record_use, key_auth, token_auth, drop_session,
  is_mismatch, lacks_mfa, check_session, cookie_auth, auth_middleware, hour,
}

-- Whether a request carries the token with this hash.
abbrev pub uses : Text → Clock → Request → Bool
uses h w req = not (is_empty (request_token req)) && text_eq (w.hash (request_token req)) h

abbrev pub is_passed : Outcome → Bool
is_passed passed = true
is_passed (refused status) = false

-- How many of the requests, handled one after the other, carry the token and pass.
unfoldable pub count_passes : Text → List (Clock × Request) → Auth → ℕ
count_passes h [] s = 0
count_passes h ((w, req) ∷ rs) s =
    let (s', outcome) = auth_middleware w req s in
    let rest = count_passes h rs s' in if uses h w req && is_passed outcome then suc rest else rest

record_use-quotas : (w : Clock) (h : Text) (s : Auth) → (record_use w h s).quotas ≡ s.quotas
unfolding record_use
record_use-quotas w h s =
    elim (Bool-cases (ltb (option_or (lookup h s.last_writes) 0 + hour) w.now)) [
      | inl e ↦ rw e refl
      | inr e ↦ rw e refl
    ]

key_auth-quotas :
    (w : Clock) (h : Text) (req : Request) (s : Auth) → (key_auth w h req s).0.quotas ≡ s.quotas
unfolding key_auth
key_auth-quotas w h req s = elim (Option-cases (find_key h s.server.config.api_keys)) [
  | inl e ↦ rw (e, key_auth) refl
  | inr (k, e) ↦ elim (Bool-cases (has_permission k (required_permission req))) [
    | inl may ↦ rw (e, key_auth, may) (record_use-quotas w h s)
    | inr may_not ↦ rw (e, key_auth, may_not) refl
  ]
]

token_auth-quotas :
    (w : Clock) (h : Text) (req : Request) (s : Auth)
    → (token_auth w h req s).0.quotas ≡ insert h (take_quota w.now h s.quotas) s.quotas
unfolding token_auth
token_auth-quotas w h req s = elim (Bool-cases (ltb 100 (take_quota w.now h s.quotas).count)) [
  | inl e ↦ rw e refl
  | inr e ↦ rw e (
      key_auth-quotas w h req
        (record s { quotas = insert h (take_quota w.now h s.quotas) s.quotas }))
]

check_session-quotas :
    (now : ℕ) (req : Request) (t : Text) (sess : Session) (s : Auth)
    → (check_session now req t sess s).0.quotas ≡ s.quotas
unfolding check_session drop_session
check_session-quotas now req t sess s = elim (Bool-cases (ltb sess.expires_at now)) [
  | inl e ↦ rw e refl
  | inr e ↦ elim (Bool-cases (is_mismatch req sess)) [
    | inl other ↦ rw (e, other) refl
    | inr same ↦ elim (Bool-cases (lacks_mfa req sess s)) [
      | inl lacks ↦ rw (e, same, lacks) refl
      | inr has ↦ rw (e, same, has) refl
    ]
  ]
]

cookie_auth-quotas :
    (now : ℕ) (req : Request) (c : Option Text) (s : Auth)
    → (cookie_auth now req c s).0.quotas ≡ s.quotas
unfolding cookie_auth
cookie_auth-quotas now req none s = refl
cookie_auth-quotas now req (some t) s = elim (Option-cases (lookup t s.sessions)) [
  | inl e ↦ rw (e, cookie_auth) refl
  | inr (sess, e) ↦ rw (e, cookie_auth) (check_session-quotas now req t sess s)
]

module _ (h : Text) (w : Clock) (req : Request) (s : Auth) where
  -- A request without the token leaves its quota alone.
  quota_of_other :
      uses h w req ≡ false → lookup h (auth_middleware w req s).0.quotas ≡ lookup h s.quotas
  unfolding auth_middleware
  quota_of_other other = elim (Bool-cases (is_empty (request_token req))) [
    | inr given ↦ rw (given, token_auth-quotas, lookup-insert) (rw (rw given at other) refl)
    | inl bare ↦ elim (Bool-cases (is_empty s.server.config.admin_password_hashed)) [
      | inl e ↦ rw (bare, e) refl
      | inr set ↦ rw (bare, set, cookie_auth-quotas) refl
    ]
  ]

take_quota-known :
    (now : ℕ) (h : Text) (q : Quota) (quotas : Table Quota)
    → lookup h quotas ≡ some q
    → now ≤ q.reset
    → take_quota now h quotas ≡ record { count = suc q.count; reset = q.reset }
unfolding take_quota
take_quota-known now h q quotas known le =
    rw known
      (elim (Bool-cases (ltb q.reset now)) [ inl e ↦ absurd (ground arith) | inr e ↦ rw e refl ])

token_auth-passed :
    (w : Clock) (h : Text) (req : Request) (s : Auth)
    → is_passed (token_auth w h req s).1 ≡ true
    → (take_quota w.now h s.quotas).count ≤ 100
unfolding token_auth
token_auth-passed w h req s ok = elim (Bool-cases (ltb 100 (take_quota w.now h s.quotas).count)) [
  | inl e ↦ cc (rw e at ok)
  | inr e ↦ ground arith
]

module _ (h : Text) (w : Clock) (req : Request) (s : Auth) (q : Quota) (mine : uses h w req ≡ true)
    (known : lookup h s.quotas ≡ some q) (le : w.now ≤ q.reset) where
  same_hash : w.hash (request_token req) ≡ h
  same_hash = text_eq_sound _ h (&&-true_parts _ _ mine).1

  has_token : is_empty (request_token req) ≡ false
  has_token = ground (arith, mine)

  -- A request with the token counts once.
  quota_of_user :
      lookup h (auth_middleware w req s).0.quotas
      ≡ some (record { count = suc q.count; reset = q.reset })
  unfolding auth_middleware
  quota_of_user =
      rw
        (
          has_token,
          same_hash,
          token_auth-quotas,
          lookup-insert,
          text_eq_refl h,
          take_quota-known w.now h q s.quotas known le,
        )
        refl

  passed_within : is_passed (auth_middleware w req s).1 ≡ true → suc q.count ≤ 100
  unfolding auth_middleware
  passed_within ok =
      rw (take_quota-known w.now h q s.quotas known le) at
        (token_auth-passed w h req s (rw (has_token, same_hash) at ok))

-- Of any sequence of requests up to the time at which the quota of a token is reset, handled one after
-- the other, at most a hundred pass with the token, less those that were counted before.
pub count_passes-le :
    (h : Text) (rs : List (Clock × Request)) (s : Auth) (q : Quota)
    → lookup h s.quotas ≡ some q
    → All (λ (r : Clock × Request). r.0.now ≤ q.reset) rs
    → count_passes h rs s ≤ 100 - q.count
unfolding count_passes
count_passes-le h [] s q known early = omega arith
count_passes-le h ((w, req) ∷ rs) s q known early =
    let (s', outcome) = auth_middleware w req s in
    elim (Bool-cases (uses h w req)) [
      | inr other ↦ rw other (
          count_passes-le h rs (auth_middleware w req s).0 q
            (quota_of_other h w req s other ∙ known) early.1)
      | inl mine ↦
          let rest =
            count_passes-le h rs (auth_middleware w req s).0
              (record { count = suc q.count; reset = q.reset })
              (quota_of_user h w req s q mine known early.0) early.1 in
          elim (Bool-cases (is_passed (auth_middleware w req s).1)) [
            | inr stopped ↦ rw (mine, stopped) (omega (arith, rest))
            | inl ok ↦
                rw (mine, ok) (omega (arith, rest, passed_within h w req s q mine known early.0 ok))
          ]
    ]
