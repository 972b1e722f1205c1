-- ===== src/Clients/Tokens.antt =====
-- The API tokens of admin/api_tokens.go, as `authMiddleware` sees them afterwards.
use shield_dns.Prelude.{
  ◌≡◌, ◌≢◌, ◌≤◌, refl, arith, Bool, true, false, not, ◌&&◌, List, [], ◌∷◌, ◌++◌, All, keep, none,
  some, Bool-cases, inl, inr, ℕ, ◌∙◌, ap, ltb_of_le,
}
use shield_dns.Text.{Text, text_eq, is_empty}
use shield_dns.Text.Equality.{text_eq_refl}
use shield_dns.Server.{ApiKey, Server, is_replica, save_config, save_config-config}
use shield_dns.Auth.{Request, Auth, Clock, has_permission, required_permission, request_token}
use shield_dns.Auth.Middleware.{passed, take_quota, find_key, key_auth, token_auth, auth_middleware}
use shield_dns.Auth.Authorised.{by_key, by_ingress, by_session, auth_middleware-IsAuthorised}
use shield_dns.Clients.{
  TokenRequest, new_key, with_key, save_change-config, handle_create_token, handle_delete_token,
}

-- Every key with the hash has the ID.
abbrev pub IsOnly : Text → Text → List ApiKey → Type 0
IsOnly h id keys =
    All (λ (k : ApiKey). (text_eq k.token_hash h && not (text_eq k.id id)) ≡ false) keys

find_key-keep :
    (h id : Text) (keys : List ApiKey)
    → IsOnly h id keys
    → find_key h (keep (λ (k : ApiKey). not (text_eq k.id id)) keys) ≡ none
unfolding find_key
find_key-keep h id [] only = refl
find_key-keep h id (k ∷ keys) only = elim (Bool-cases (text_eq k.id id)) [
  | inl gone ↦ rw gone (find_key-keep h id keys only.1)
  | inr stays ↦
      let other : text_eq k.token_hash h ≡ false = ground (arith, only.0, stays) in
      rw (stays, other) (find_key-keep h id keys only.1)
]

handle_delete_token-keys :
    (disk_ok : Bool) (id : Text) (s : Server)
    → (handle_delete_token disk_ok id s).1 ≡ 200
    → (handle_delete_token disk_ok id s).0.config.api_keys
      ≡ keep (λ (k : ApiKey). not (text_eq k.id id)) s.config.api_keys
unfolding handle_delete_token
handle_delete_token-keys disk_ok id s ok = elim (Bool-cases (is_empty id)) [
  | inl e ↦ absurd (omega (arith, rw e at ok))
  | inr e ↦ elim (Bool-cases (is_replica s.config)) [
    | inl r ↦ absurd (omega (arith, rw (e, r) at ok))
    | inr r ↦ rw (e, r, save_change-config) refl
  ]
]

-- After a token was deleted with answer 200, no request with that token passes `authMiddleware`. No other
-- key has the hash of the token.
pub deleted_token-not_passed :
    (disk_ok : Bool) (id : Text) (w : Clock) (req : Request) (s : Auth)
    → (handle_delete_token disk_ok id s.server).1 ≡ 200
    → is_empty (request_token req) ≡ false
    → IsOnly (w.hash (request_token req)) id s.server.config.api_keys
    → (auth_middleware w req (record s { server = (handle_delete_token disk_ok id s.server).0 })).1
      ≢ passed
deleted_token-not_passed disk_ok id w req s ok given only pass =
    let after : Auth = record s { server = (handle_delete_token disk_ok id s.server).0 } in
    let gone =
      ap (find_key (w.hash (request_token req))) (handle_delete_token-keys disk_ok id s.server ok)
      ∙ find_key-keep (w.hash (request_token req)) id s.server.config.api_keys only in
    elim (auth_middleware-IsAuthorised w req after pass) [
      | by_key k has found may within ↦ cc (found, gone)
      | by_ingress bare set proxy ↦ cc (bare, given)
      | by_session t sess bare set sent known alive same factor ↦ cc (bare, given)
    ]

find_key-append :
    (h : Text) (keys : List ApiKey) (k : ApiKey)
    → find_key h keys ≡ none
    → k.token_hash ≡ h
    → find_key h (keys ++ (k ∷ [])) ≡ some k
unfolding find_key
find_key-append h [] k new same = rw (same, text_eq_refl h) refl
find_key-append h (j ∷ keys) k new same = elim (Bool-cases (text_eq j.token_hash h)) [
  | inl e ↦ cc (rw e at new)
  | inr e ↦ rw e (find_key-append h keys k (rw e at new) same)
]

handle_create_token-config :
    (now : ℕ) (id hash : Text) (disk_ok : Bool) (treq : TokenRequest) (s : Server)
    → (handle_create_token now id hash disk_ok (some treq) s).1 ≡ 200
    → (handle_create_token now id hash disk_ok (some treq) s).0.config
      ≡ with_key (new_key now id hash treq) s.config
unfolding handle_create_token
handle_create_token-config now id hash disk_ok treq s ok =
    let full = record s { config = with_key (new_key now id hash treq) s.config } in
    elim (Bool-cases (is_replica s.config)) [
      | inl e ↦ absurd (omega (arith, rw e at ok))
      | inr e ↦ elim (Bool-cases (save_config disk_ok full).1) [
        | inl done ↦ rw (e, done) (save_config-config disk_ok full)
        | inr failed ↦ absurd (omega (arith, rw (e, failed) at ok))
      ]
    ]

-- After a token was created with answer 200, a request with it passes `authMiddleware`, as long as the
-- token has the permission that the request asks for, no older key has its hash, and the request is within
-- the quota.
pub created_token-passed :
    (now : ℕ) (id : Text) (disk_ok : Bool) (treq : TokenRequest) (w : Clock) (req : Request)
    (s : Auth)
    → (handle_create_token now id (w.hash (request_token req)) disk_ok (some treq) s.server).1 ≡ 200
    → is_empty (request_token req) ≡ false
    → find_key (w.hash (request_token req)) s.server.config.api_keys ≡ none
    → has_permission (new_key now id (w.hash (request_token req)) treq) (required_permission req)
      ≡ true
    → (take_quota w.now (w.hash (request_token req)) s.quotas).count ≤ 100
    → (auth_middleware w req (record s {
      server =
          (handle_create_token now id (w.hash (request_token req)) disk_ok (some treq) s.server).0;
    })).1
      ≡ passed
unfolding auth_middleware token_auth key_auth new_key
created_token-passed now id disk_ok treq w req s ok given new may within =
    let h = w.hash (request_token req) in
    let config = handle_create_token-config now id h disk_ok treq s.server ok in
    let found = find_key-append h s.server.config.api_keys (new_key now id h treq) new refl in
    rw
      (
        given,
        ltb_of_le 100 (take_quota w.now h s.quotas).count within,
        key_auth,
        config,
        found,
        key_auth,
        may,
      )
      refl
