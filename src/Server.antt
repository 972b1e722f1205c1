-- ===== src/Server.antt =====
-- admin/models.go: the fields of `Config` that the modelled handlers read or write, and
-- admin/config.go: `saveConfigNoLock`. admin/api_utils.go: `IsCriticalIP`.
-- The state is the configuration in memory and on disk, with the global attribution map of
-- admin/config_blocklist.go. Times are numbers, and a time that is zero stands for no time.
use shield_dns.Prelude.{
  ℕ, Bool, true, false, not, ◌&&◌, ◌||◌, List, any, ◌==◌, Option, some, if◌then◌else◌, ◌≡◌, refl,
  ◌⊎◌, Bool-cases, inl, inr,
}
use shield_dns.Text.{Text, lit, text_eq, is_empty}
use shield_dns.Table.{Table, member}
use shield_dns.Blocklist.{Attribution}

pub record ClientRule : Type 0 where
  pub domain : Text
  pub client_ip : Text
  pub is_allowlist : Bool

pub record BlockedClientInfo : Type 0 where
  pub reason : Text
  pub blocked_at : ℕ
  pub auto : Bool
  pub country_code : Text

pub record ApiKey : Type 0 where
  pub id : Text
  pub name : Text
  pub token_hash : Text
  pub permissions : List Text
  pub created_at : ℕ
  pub last_used : ℕ

pub record ClusterReplica : Type 0 where
  pub id : Text
  pub name : Text
  pub url : Text
  pub token_hash : Text
  pub instance_type : Text
  pub created_at : ℕ
  pub last_seen : ℕ
  pub last_sync : ℕ

pub record RoutingRule : Type 0 where
  pub id : Text
  pub name : Text
  pub match_text : Text  -- Match
  pub match_type : Text
  pub target : Text
  pub host_target : Text
  pub wireguard_config : Text
  pub enabled : Bool
  pub created_at : ℕ

-- `List`
pub record ListSource : Type 0 where
  pub name : Text
  pub url : Text
  pub enabled : Bool
  pub category : Text
  pub is_recommended : Bool
  pub entries : ℕ
  pub updated_at : ℕ
  pub remote_updated_at : ℕ

pub record Config : Type 0 where
  pub custom_blocked : List Text
  pub custom_allowed : List Text
  pub custom_mappings : Table Text
  pub client_rules : List ClientRule
  pub filtering_enabled : Bool
  pub cluster_role : Text
  pub setup_done : Bool
  pub admin_password_hashed : Text
  pub mfa_enabled : Bool
  pub mfa_methods : ℕ  -- len(TOTPConfigs) + len(WebAuthnCredentials)
  pub api_keys : List ApiKey
  pub block_page_ip : Text
  pub autoblock_whitelist : List Text
  pub blocked_clients : List Text
  pub blocked_clients_info : Table BlockedClientInfo
  pub abuse_detection_enabled : Bool
  pub abuse_dga_min_len : ℕ
  pub malicious_ip_blocking_enabled : Bool
  pub doh_rate_limit : ℕ
  pub last_login : ℕ
  pub previous_login : ℕ
  pub upstreams : List Text
  pub upstream_dot : List Text
  pub prefer_encrypted : Bool
  pub lists : List ListSource
  pub allowlists : List ListSource
  pub admin_domain : Text
  pub latency_test_interval : ℕ
  pub smart_selection_policy : Text
  pub diagnostics_refresh_interval : ℕ
  pub serve_stale : Bool
  pub dnssec_enabled : Bool
  pub blocked_countries : List Text
  pub abuse_dga_threshold : ℕ  -- the bits of the float64
  pub client_aliases : Table Text
  pub malicious_ip_interval : ℕ
  pub verify_upstream_tls : Bool
  pub doh3_enabled : Bool
  pub rate_limit_rate : ℕ
  pub rate_limit_burst : ℕ
  pub ech_optimization_enabled : Bool
  pub update_channel : Text
  pub mcp_server_enabled : Bool
  pub dns_rebinding_protection : Bool
  pub strip_ecs : Bool
  pub cluster_instance_type : Text
  pub cluster_node_name : Text
  pub cluster_worker_domain : Text
  pub cluster_worker_token : Text
  pub cluster_log_sharing_mode : Text
  pub cluster_primary_url : Text
  pub cluster_primary_token : Text
  pub cluster_sync_interval : ℕ
  pub cluster_failover_mode : Bool
  pub cluster_last_sync : ℕ
  pub cluster_replicas : List ClusterReplica
  pub routing_rules : List RoutingRule
  pub wireguard_gateway : Text
  pub webhook_enabled : Bool
  pub webhook_url : Text
  pub webhook_token : Text

pub record Server : Type 0 where
  pub config : Config
  pub saved : Option Config  -- what is on disk, once something was saved
  pub attribution : Option Attribution  -- `blockAttribution`, nil before the first update
  pub updating : Bool  -- a full update was started in the background

-- A handler answers with an error's status, or with 200 and a value.
pub data Reply {ℓ} (A : Type ℓ) : Type ℓ where
  refused : ℕ → Reply A
  served : A → Reply A

pub Reply-cases {ℓ} :
    {A : Type ℓ} (o : Reply A) → ((code : ℕ) × (o ≡ refused code)) ⊎ ((a : A) × (o ≡ served a))
Reply-cases (refused code) = inl (code, refl)
Reply-cases (served a) = inr (a, refl)

unfoldable pub is_replica : Config → Bool
is_replica c = text_eq c.cluster_role (lit "replica")

-- The safety check of `saveConfigNoLock`: what must never reach the disk.
unfoldable pub is_unsafe : Config → Bool
is_unsafe c =
    c.setup_done
    && (is_empty c.admin_password_hashed
        || text_eq c.admin_password_hashed (lit "********")
        || any (λ (k : ApiKey). text_eq k.token_hash (lit "********")) c.api_keys
        || c.mfa_enabled && c.mfa_methods == 0)

-- `disk_ok` says whether the write succeeds; the result whether the save did.
unfoldable pub save_config : Bool → Server → Server × Bool
save_config disk_ok s =
    if is_unsafe s.config || not disk_ok
    then (s, false)
    else (record s { saved = some s.config }, true)

-- `IsCriticalIP`
unfoldable pub is_critical_ip : Text → Text → List Text → Bool
is_critical_ip ip block_page_ip whitelist =
    text_eq ip (lit "DoH Proxy")
    || text_eq ip (lit "127.0.0.1")
    || text_eq ip (lit "::1")
    || text_eq ip (lit "localhost")
    || not (is_empty ip) && text_eq ip block_page_ip
    || member ip whitelist

-- A save does not change the configuration in memory.
pub save_config-config : (ok : Bool) (s : Server) → (save_config ok s).0.config ≡ s.config
unfolding save_config
save_config-config ok s = elim (Bool-cases (is_unsafe s.config || not ok)) [
  | inl e ↦ rw e refl
  | inr e ↦ rw e refl
]
