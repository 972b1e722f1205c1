-- ===== src/Auth/Invisible.antt =====
-- The clean-ups of admin/auth.go do not change what `authMiddleware` answers.
use shield_dns.Prelude.{
  ℕ, ◌+◌, ◌*◌, ◌≤◌, ◌≡◌, refl, arith, Bool, true, false, not, Option, none, some, if◌then◌else◌,
  Bool-cases, Option-cases, inl, inr, ltb, ap, ◌∙◌, ltb_of_lt, sym,
}
use shield_dns.Text.{Text, is_empty}
use shield_dns.Table.{Table, IsMap, lookup, insert, keep_values, lookup-keep_values}
use shield_dns.Auth.{
  Request, Session, Quota, Auth, Clock, has_permission, required_permission, request_token,
}
use shield_dns.Auth.Middleware.{
  Outcome, passed, refused, take_quota, find_key, record_use, key_auth, token_auth, without_session,
  check_session, cookie_auth, auth_middleware, hour, minute, cleanup_sessions, cleanup_rate_limits,
  is_mismatch, lacks_mfa, drop_session,
}

-- The periodic clean-up of the sessions, the quotas and the times of the last writes.
unfoldable pub clean_up : ℕ → Auth → Auth
clean_up now s = cleanup_rate_limits now (cleanup_sessions now s)

-- The same answer, and the same server after it.
abbrev pub AreSame : Auth × Outcome → Auth × Outcome → Type 0
AreSame a b = (a.1 ≡ b.1) × (a.0.server ≡ b.0.server)

check_session-outcome :
    (now : ℕ) (req : Request) (t : Text) (sess : Session) (s : Auth)
    → (check_session now req t sess s).1 ≡ (
        if ltb sess.expires_at now
        then without_session req
        else if is_mismatch req sess
        then refused 401
        else if lacks_mfa req sess s
        then refused 403
        else passed)
unfolding check_session
check_session-outcome now req t sess s = elim (Bool-cases (ltb sess.expires_at now)) [
  | inl e ↦ rw e refl
  | inr e ↦ elim (Bool-cases (is_mismatch req sess)) [
    | inl other ↦ rw (e, other) refl
    | inr own ↦ elim (Bool-cases (lacks_mfa req sess s)) [
      | inl lacks ↦ rw (e, own, lacks) refl
      | inr has ↦ rw (e, own, has) refl
    ]
  ]
]

check_session-server :
    (now : ℕ) (req : Request) (t : Text) (sess : Session) (s s' : Auth)
    → s'.server ≡ s.server
    → (check_session now req t sess s').1 ≡ (check_session now req t sess s).1
unfolding lacks_mfa
check_session-server now req t sess s s' same =
    rw (check_session-outcome now req t sess s', check_session-outcome now req t sess s, same) refl

module _ (now later : ℕ) (le : now ≤ later) where
  abbrev is_recent : Quota → Bool
  is_recent q = not (ltb (q.reset + hour) now)

  abbrev is_alive : Session → Bool
  is_alive sess = not (ltb sess.expires_at now)

  abbrev is_written : ℕ → Bool
  is_written t = not (ltb (t + 24 * hour) now)

  -- A quota that is removed had run out, and a new one counts the same.
  take_quota-keep_values :
      (h : Text) (quotas : Table Quota)
      → IsMap quotas
      → take_quota later h (keep_values is_recent quotas) ≡ take_quota later h quotas
  unfolding take_quota
  take_quota-keep_values h quotas m =
      let kept = lookup-keep_values is_recent h quotas m in
      elim (Option-cases (lookup h quotas)) [
        | inl e ↦ rw (kept, e) refl
        | inr (q, e) ↦ elim (Bool-cases (ltb (q.reset + hour) now)) [
          | inl old ↦
              let ran_out : ltb q.reset later ≡ true = ltb_of_lt _ _ (ground (arith, old, le)) in
              let ahead : ltb (later + minute) later ≡ false = ground arith in
              rw (kept, e, old, ran_out, ahead) refl
          | inr fresh ↦ rw (kept, e, fresh) refl
        ]
      ]

  -- So had a session.
  cookie_auth-keep_values :
      (req : Request) (c : Option Text) (s s' : Auth)
      → IsMap s.sessions
      → s'.sessions ≡ keep_values is_alive s.sessions
      → s'.server ≡ s.server
      → (cookie_auth later req c s').1 ≡ (cookie_auth later req c s).1
  unfolding cookie_auth
  cookie_auth-keep_values req none s s' m kept same = refl
  cookie_auth-keep_values req (some t) s s' m kept same =
      let found = ap (lookup t) kept ∙ lookup-keep_values is_alive t s.sessions m in
      elim (Option-cases (lookup t s.sessions)) [
        | inl e ↦ rw (found, e, cookie_auth) refl
        | inr (sess, e) ↦ elim (Bool-cases (ltb sess.expires_at now)) [
          | inl old ↦
              let expired : ltb sess.expires_at later ≡ true =
                ltb_of_lt _ _ (ground (arith, old, le)) in
              rw (found, e, old, cookie_auth) (unfold check_session in rw expired refl)
          | inr alive ↦
              rw (found, e, alive, cookie_auth) (check_session-server later req t sess s s' same)
        ]
      ]

  record_use-keep_values :
      (w : Clock) (h : Text) (s s' : Auth)
      → w.now ≡ later
      → IsMap s.last_writes
      → s'.last_writes ≡ keep_values is_written s.last_writes
      → s'.server ≡ s.server
      → (record_use w h s').server ≡ (record_use w h s).server
  unfolding record_use
  record_use-keep_values w h s s' at_later m kept same =
      let found = ap (lookup h) kept ∙ lookup-keep_values is_written h s.last_writes m in
      elim (Option-cases (lookup h s.last_writes)) [
        | inl e ↦
            rw (found, e, same, at_later)
              (elim (Bool-cases (ltb hour later)) [ inl a ↦ rw a refl | inr a ↦ rw a refl ])
        | inr (t, e) ↦ elim (Bool-cases (ltb (t + 24 * hour) now)) [
          | inl old ↦
              let due : ltb (t + hour) later ≡ true = ltb_of_lt _ _ (ground (arith, old, le)) in
              let due' : ltb hour later ≡ true = ltb_of_lt _ _ (ground (arith, old, le)) in
              rw (found, e, old, at_later, due, due', same) refl
          | inr fresh ↦
              rw (found, e, fresh, at_later)
                (elim (Bool-cases (ltb (t + hour) later)) [
                  | inl a ↦ rw (a, same) refl
                  | inr a ↦ rw a same
                ])
        ]
      ]

  key_auth-keep_values :
      (w : Clock) (h : Text) (req : Request) (s s' : Auth)
      → w.now ≡ later
      → IsMap s.last_writes
      → s'.last_writes ≡ keep_values is_written s.last_writes
      → s'.server ≡ s.server
      → AreSame (key_auth w h req s') (key_auth w h req s)
  unfolding key_auth
  key_auth-keep_values w h req s s' at_later m kept same =
      elim (Option-cases (find_key h s.server.config.api_keys)) [
        | inl e ↦ rw (same, e, key_auth) (refl, same)
        | inr (k, e) ↦ elim (Bool-cases (has_permission k (required_permission req))) [
          | inr may_not ↦ rw (same, e, key_auth, may_not) (refl, same)
          | inl may ↦
              rw (same, e, key_auth, may)
                (refl, record_use-keep_values w h s s' at_later m kept same)
        ]
      ]

  token_auth-keep_values :
      (w : Clock) (h : Text) (req : Request) (s s' : Auth)
      → w.now ≡ later
      → IsMap s.quotas
      → IsMap s.last_writes
      → s'.quotas ≡ keep_values is_recent s.quotas
      → s'.last_writes ≡ keep_values is_written s.last_writes
      → s'.server ≡ s.server
      → AreSame (token_auth w h req s') (token_auth w h req s)
  unfolding token_auth
  token_auth-keep_values w h req s s' at_later mq m keptq kept same =
      let counted : take_quota w.now h s'.quotas ≡ take_quota w.now h s.quotas =
        rw (keptq, at_later) (take_quota-keep_values h s.quotas mq) in
      let q = take_quota w.now h s.quotas in
      rw counted (elim (Bool-cases (ltb 100 q.count)) [
        | inl e ↦ rw e (refl, same)
        | inr e ↦ rw e (
            key_auth-keep_values w h req (record s { quotas = insert h q s.quotas })
              (record s' { quotas = insert h q s'.quotas }) at_later m kept same)
      ])

  cookie_auth-server :
      (req : Request) (c : Option Text) (s : Auth) → (cookie_auth later req c s).0.server ≡ s.server
  unfolding cookie_auth check_session drop_session
  cookie_auth-server req none s = refl
  cookie_auth-server req (some t) s = elim (Option-cases (lookup t s.sessions)) [
    | inl e ↦ rw (e, cookie_auth) refl
    | inr (sess, e) ↦ elim (Bool-cases (ltb sess.expires_at later)) [
      | inl old ↦ rw (e, cookie_auth, old) refl
      | inr alive ↦ elim (Bool-cases (is_mismatch req sess)) [
        | inl other ↦ rw (e, cookie_auth, alive, other) refl
        | inr own ↦ elim (Bool-cases (lacks_mfa req sess s)) [
          | inl lacks ↦ rw (e, cookie_auth, alive, own, lacks) refl
          | inr has ↦ rw (e, cookie_auth, alive, own, has) refl
        ]
      ]
    ]
  ]

-- A clean-up of the sessions, the quotas and the write times changes neither the answer of
-- `authMiddleware` to a later request nor what that request does to the server. The stores name each key
-- once.
pub clean_up-AreSame :
    (w : Clock) (req : Request) (now : ℕ) (s : Auth)
    → now ≤ w.now
    → IsMap s.sessions
    → IsMap s.quotas
    → IsMap s.last_writes
    → AreSame (auth_middleware w req (clean_up now s)) (auth_middleware w req s)
unfolding auth_middleware clean_up cleanup_sessions cleanup_rate_limits
clean_up-AreSame w req now s le ms mq mw =
    let s' = cleanup_rate_limits now (cleanup_sessions now s) in
    elim (Bool-cases (is_empty (request_token req))) [
      | inr given ↦ rw given (
          token_auth-keep_values now w.now le w (w.hash (request_token req)) req s s' refl mq mw
            refl refl refl)
      | inl bare ↦ elim (Bool-cases (is_empty s.server.config.admin_password_hashed)) [
        | inl e ↦ rw (bare, e) (refl, refl)
        | inr set ↦
            rw (bare, set)
              (
                cookie_auth-keep_values now w.now le req req.cookie s s' ms refl refl,
                cookie_auth-server now w.now le req req.cookie s'
                    ∙ sym (cookie_auth-server now w.now le req req.cookie s),
              )
      ]
    ]
