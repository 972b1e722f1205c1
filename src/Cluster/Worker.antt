-- ===== src/Cluster/Worker.antt =====
-- admin/api_cluster_worker.go: the token of the Cloudflare worker in `handleClusterWorkerScript`.
-- The text of the script is left out. The random token and the ID of the key are given.
use shield_dns.Prelude.{
  ℕ, ◌≡◌, refl, ap, arith, Bool, true, false, ◌||◌, ◌&&◌, not, List, [], ◌∷◌, ◌++◌, any, any-append,
  if◌then◌else◌, Bool-cases, inl, inr,
}
use shield_dns.Text.{Text, lit, text_eq, is_empty}
use shield_dns.Text.Equality.{text_eq_refl}
use shield_dns.Server.{ApiKey, Config, Server, save_config, save_config-config}
use shield_dns.Auth.{has_permission, grants}

-- `len(k.Permissions) == 1 && k.Permissions[0] == "proxy:worker"`
abbrev is_proxy_only : List Text → Bool
is_proxy_only [] = false
is_proxy_only (p ∷ []) = text_eq p (lit "proxy:worker")
is_proxy_only (p ∷ q ∷ ps) = false

unfoldable pub is_worker_key : Text → ApiKey → Bool
is_worker_key h k = text_eq k.token_hash h && is_proxy_only k.permissions

unfoldable pub has_worker_token : (Text → Text) → Config → Bool
has_worker_token hash c =
    not (is_empty c.cluster_worker_token)
    && any (is_worker_key (hash c.cluster_worker_token)) c.api_keys

unfoldable pub worker_key : ℕ → Text → Text → ApiKey
worker_key now id h = record {
  id = id;
  name = lit "Cloudflare Worker Dispatcher";
  token_hash = h;
  permissions = lit "proxy:worker" ∷ [];
  created_at = now;
  last_used = 0;
}

-- The state afterwards, and the token that is written into the script.
unfoldable pub handle_worker_script :
    (Text → Text) → ℕ → Text → Text → Bool → Server → Server × Text
handle_worker_script hash now id fresh disk_ok s =
    let c : Config = record s.config {
      cluster_worker_token = fresh;
      api_keys = s.config.api_keys ++ (worker_key now id (hash fresh) ∷ []);
    } in
    if has_worker_token hash s.config
    then (s, s.config.cluster_worker_token)
    else ((save_config disk_ok (record s { config = c })).0, fresh)

fresh_token :
    (hash : Text → Text) (now : ℕ) (id fresh : Text) (disk_ok : Bool) (s : Server)
    → is_empty fresh ≡ false
    → has_worker_token hash (handle_worker_script hash now id fresh disk_ok s).0.config ≡ true
unfolding handle_worker_script has_worker_token is_worker_key worker_key
fresh_token hash now id fresh disk_ok s full = elim (Bool-cases (has_worker_token hash s.config)) [
  | inl old ↦ rw old old
  | inr new ↦
      rw
        (
          new,
          save_config-config,
          full,
          any-append,
          text_eq_refl (hash fresh),
          text_eq_refl (lit "proxy:worker"),
        )
        (ground arith)
]

handle_worker_script-token :
    (hash : Text → Text) (now : ℕ) (id fresh : Text) (disk_ok : Bool) (s : Server)
    → (handle_worker_script hash now id fresh disk_ok s).0.config.cluster_worker_token
      ≡ (handle_worker_script hash now id fresh disk_ok s).1
unfolding handle_worker_script
handle_worker_script-token hash now id fresh disk_ok s =
    elim (Bool-cases (has_worker_token hash s.config)) [
      | inl old ↦ rw old refl
      | inr new ↦ rw (new, save_config-config) refl
    ]

-- The script holds one token: a second request for the script gets the same token and changes nothing.
pub handle_worker_script_twice :
    (hash : Text → Text) (now now' : ℕ) (id id' fresh fresh' : Text) (disk_ok disk_ok' : Bool)
    (s : Server)
    → is_empty fresh ≡ false
    → handle_worker_script hash now' id' fresh' disk_ok'
        (handle_worker_script hash now id fresh disk_ok s).0
      ≡ handle_worker_script hash now id fresh disk_ok s
handle_worker_script_twice hash now now' id id' fresh fresh' disk_ok disk_ok' s full =
    let out = handle_worker_script hash now id fresh disk_ok s in
    let old : has_worker_token hash out.0.config ≡ true =
      fresh_token hash now id fresh disk_ok s full in
    let token = handle_worker_script-token hash now id fresh disk_ok s in
    unfold handle_worker_script in rw old (ap (λ (t : Text). (out.0, t)) token)

proxy_only :
    (all : text_eq (lit "proxy:worker") (lit "admin:all") ≡ false) × (read : text_eq
        (lit "proxy:worker")
        (lit "read:all")
      ≡ false)
    × (sync : text_eq (lit "proxy:worker") (lit "cluster:sync") ≡ false) × (write : text_eq
          (lit "proxy:worker")
          (lit "write:config")
        ≡ false)
    × (stats : text_eq (lit "proxy:worker") (lit "read:stats") ≡ false) × (system : text_eq
          (lit "proxy:worker")
          (lit "read:system")
        ≡ false)
    × (diagnostics : text_eq (lit "proxy:worker") (lit "read:diagnostics") ≡ false) × (text_eq
          (lit "proxy:worker")
          (lit "read:config")
        ≡ false)
unfolding lit text_eq
proxy_only = (refl, refl, refl, refl, refl, refl, refl, refl)

-- The key of the worker is good for reading the health and for nothing else.
pub worker_key-has_permission :
    (now : ℕ) (id h perm : Text)
    → has_permission (worker_key now id h) perm
      ≡ (text_eq (lit "proxy:worker") perm || text_eq perm (lit "read:health"))
unfolding has_permission grants worker_key
worker_key-has_permission now id h perm =
    let (all, read, sync, write, stats, system, diagnostics, config) = proxy_only in
    ground (
      arith,
      all,
      read,
      sync,
      write,
      stats,
      system,
      diagnostics,
      config,
      text_eq_refl (lit "proxy:worker"),
    )
