-- ===== src/Cluster.antt =====
-- admin/config.go: `buildClusterConfigExport`. admin/api_cluster_sync.go: `applyClusterExport`.
-- What a primary hands to its replicas, how it travels, and what a replica makes of it. The downloads and
-- the restart of CoreDNS that `applyClusterExport` starts in the background are left out.
pub mod OutboundUrl
pub mod Primary
pub mod Mirror
pub mod Joined
pub mod Replicas
pub mod Revoked
pub mod Logs
pub mod Delivered
pub mod Drained
pub mod Synced
pub mod Settled
pub mod Worker
pub mod Redirect
pub mod Tests
pub mod Examples
pub mod Node
pub mod Setup
pub mod SetupTests
use shield_dns.Prelude.{
  ℕ, Bool, true, false, ◌&&◌, ◌||◌, not, List, [], ◌∷◌, Option, none, some, option_or,
  if◌then◌else◌, ltb, ◌==◌,
}
use shield_dns.Text.{Text, lit, text_eq, is_empty}
use shield_dns.Table.{Table}
use shield_dns.Server.{
  ListSource, RoutingRule, BlockedClientInfo, ClientRule, ApiKey, Config, Server, save_config,
}

-- A slice or map that the JSON tags mark `omitempty` is `none` where it is nil.
pub record ClusterConfigExport : Type 0 where
  pub primary_url : Text
  pub admin_password_hashed : Text
  pub cluster_worker_domain : Text
  pub cluster_log_sharing_mode : Text
  pub filtering_enabled : Bool
  pub lists : List ListSource
  pub allowlists : List ListSource
  pub custom_blocked : List Text
  pub custom_allowed : List Text
  pub custom_mappings : Table Text
  pub autoblock_whitelist : List Text
  pub blocked_countries : List Text
  pub smart_selection_policy : Text
  pub serve_stale : Bool
  pub dnssec_enabled : Bool
  pub abuse_detection_enabled : Bool
  pub abuse_dga_threshold : ℕ
  pub abuse_dga_min_len : ℕ
  pub malicious_ip_blocking_enabled : Bool
  pub malicious_ip_interval : ℕ
  pub verify_upstream_tls : Bool
  pub prefer_encrypted : Bool
  pub upstreams : List Text
  pub upstream_dot : List Text
  pub doh_rate_limit : ℕ
  pub doh3_enabled : Bool
  pub rate_limit_rate : ℕ
  pub rate_limit_burst : ℕ
  pub ech_optimization_enabled : Bool
  pub dns_rebinding_protection : Bool
  pub strip_ecs : Bool
  pub routing_rules : Option (List RoutingRule)
  pub wireguard_gateway : Text
  pub blocked_clients : Option (List Text)
  pub blocked_clients_info : Option (Table BlockedClientInfo)
  pub client_rules : Option (List ClientRule)
  pub client_aliases : Option (Table Text)
  pub mcp_server_enabled : Bool
  pub api_keys : Option (List ApiKey)
  pub timestamp : ℕ

abbrev export_of : ℕ → Text → Config → ClusterConfigExport
export_of now primary_url c = record {
  primary_url = primary_url;
  admin_password_hashed = c.admin_password_hashed;
  cluster_worker_domain = c.cluster_worker_domain;
  cluster_log_sharing_mode = c.cluster_log_sharing_mode;
  filtering_enabled = c.filtering_enabled;
  lists = c.lists;
  allowlists = c.allowlists;
  custom_blocked = c.custom_blocked;
  custom_allowed = c.custom_allowed;
  custom_mappings = c.custom_mappings;
  autoblock_whitelist = c.autoblock_whitelist;
  blocked_countries = c.blocked_countries;
  smart_selection_policy = c.smart_selection_policy;
  serve_stale = c.serve_stale;
  dnssec_enabled = c.dnssec_enabled;
  abuse_detection_enabled = c.abuse_detection_enabled;
  abuse_dga_threshold = c.abuse_dga_threshold;
  abuse_dga_min_len = c.abuse_dga_min_len;
  malicious_ip_blocking_enabled = c.malicious_ip_blocking_enabled;
  malicious_ip_interval = c.malicious_ip_interval;
  verify_upstream_tls = c.verify_upstream_tls;
  prefer_encrypted = c.prefer_encrypted;
  upstreams = c.upstreams;
  upstream_dot = c.upstream_dot;
  doh_rate_limit = c.doh_rate_limit;
  doh3_enabled = c.doh3_enabled;
  rate_limit_rate = c.rate_limit_rate;
  rate_limit_burst = c.rate_limit_burst;
  ech_optimization_enabled = c.ech_optimization_enabled;
  dns_rebinding_protection = c.dns_rebinding_protection;
  strip_ecs = c.strip_ecs;
  routing_rules = some c.routing_rules;
  wireguard_gateway = c.wireguard_gateway;
  blocked_clients = some c.blocked_clients;
  blocked_clients_info = some c.blocked_clients_info;
  client_rules = some c.client_rules;
  client_aliases = some c.client_aliases;
  mcp_server_enabled = c.mcp_server_enabled;
  api_keys = some c.api_keys;
  timestamp = now;
}

-- The part of `buildClusterConfigExport` that depends on the type of the instance.
unfoldable pub tuned : Text → ClusterConfigExport → ClusterConfigExport
tuned replica_type e =
    if text_eq replica_type (lit "public")
    then record e {
      doh_rate_limit =
          if e.doh_rate_limit == 0 || ltb 60 e.doh_rate_limit then 60 else e.doh_rate_limit;
      malicious_ip_blocking_enabled = true;
      abuse_detection_enabled = true;
      dns_rebinding_protection = false;
    }
    else if text_eq replica_type (lit "hybrid")
    then record e {
      doh_rate_limit =
          if e.doh_rate_limit == 0 || ltb e.doh_rate_limit 120 then 120 else e.doh_rate_limit;
      malicious_ip_blocking_enabled = true;
      abuse_detection_enabled = true;
      dns_rebinding_protection = false;
    }
    else record e {
      doh_rate_limit = if ltb e.doh_rate_limit 200 then 200 else e.doh_rate_limit;
      dns_rebinding_protection = true;
    }

-- `buildClusterConfigExport`, which does not read its argument `failoverMode`.
unfoldable pub build_export : ℕ → Text → Text → Config → ClusterConfigExport
build_export now replica_type primary_url c = tuned replica_type (export_of now primary_url c)

-- What arrives: a slice or map under `omitempty` is left out where it is empty.
abbrev pub omit_empty {ℓ} : {A : Type ℓ} → Option (List A) → Option (List A)
omit_empty none = none
omit_empty (some []) = none
omit_empty (some (x ∷ xs)) = some (x ∷ xs)

unfoldable pub sent : ClusterConfigExport → ClusterConfigExport
sent e = record e {
  routing_rules = omit_empty e.routing_rules;
  blocked_clients = omit_empty e.blocked_clients;
  blocked_clients_info = omit_empty e.blocked_clients_info;
  client_rules = omit_empty e.client_rules;
  client_aliases = omit_empty e.client_aliases;
  api_keys = omit_empty e.api_keys;
}

-- What a replica knows of its primary: the URL, the token, and how the replica is to run.
pub record Link : Type 0 where
  pub url : Text
  pub token : Text
  pub instance_type : Text
  pub failover : Bool

-- The upstreams; `ip_host` is the host of a URL where the URL parses and its host is an IP address.
unfoldable pub new_upstreams : (Text → Option Text) → Link → List Text → List Text
new_upstreams ip_host link ups =
    if link.failover && not (is_empty link.url)
    then elim (ip_host link.url) [ some host ↦ host ∷ ups | none ↦ ups ]
    else ups

unfoldable pub applied : (Text → Option Text) → ℕ → ClusterConfigExport → Link → Config → Config
applied ip_host now e link c = record c {
  cluster_role = lit "replica";
  cluster_primary_url = link.url;
  cluster_primary_token = link.token;
  cluster_instance_type = link.instance_type;
  cluster_failover_mode = link.failover;
  cluster_last_sync = now;
  cluster_log_sharing_mode =
      if is_empty e.cluster_log_sharing_mode
      then c.cluster_log_sharing_mode
      else e.cluster_log_sharing_mode;
  cluster_worker_domain = e.cluster_worker_domain;
  admin_password_hashed =
      if is_empty e.admin_password_hashed then c.admin_password_hashed else e.admin_password_hashed;
  setup_done = if is_empty e.admin_password_hashed then c.setup_done else true;
  filtering_enabled = e.filtering_enabled;
  lists = e.lists;
  allowlists = e.allowlists;
  custom_blocked = e.custom_blocked;
  custom_allowed = e.custom_allowed;
  custom_mappings = e.custom_mappings;
  autoblock_whitelist = e.autoblock_whitelist;
  blocked_countries = e.blocked_countries;
  smart_selection_policy = e.smart_selection_policy;
  serve_stale = e.serve_stale;
  dnssec_enabled = e.dnssec_enabled;
  abuse_detection_enabled = e.abuse_detection_enabled;
  abuse_dga_threshold = e.abuse_dga_threshold;
  abuse_dga_min_len = e.abuse_dga_min_len;
  malicious_ip_blocking_enabled = e.malicious_ip_blocking_enabled;
  malicious_ip_interval = e.malicious_ip_interval;
  verify_upstream_tls = e.verify_upstream_tls;
  prefer_encrypted = e.prefer_encrypted;
  doh3_enabled = e.doh3_enabled;
  rate_limit_rate = e.rate_limit_rate;
  rate_limit_burst = e.rate_limit_burst;
  ech_optimization_enabled = e.ech_optimization_enabled;
  dns_rebinding_protection = e.dns_rebinding_protection;
  strip_ecs = e.strip_ecs;
  routing_rules = option_or e.routing_rules c.routing_rules;
  wireguard_gateway =
      if is_empty e.wireguard_gateway then c.wireguard_gateway else e.wireguard_gateway;
  blocked_clients = option_or e.blocked_clients c.blocked_clients;
  blocked_clients_info = option_or e.blocked_clients_info c.blocked_clients_info;
  client_rules = option_or e.client_rules c.client_rules;
  client_aliases = option_or e.client_aliases c.client_aliases;
  mcp_server_enabled = e.mcp_server_enabled;
  api_keys = option_or e.api_keys c.api_keys;
  upstreams = new_upstreams ip_host link e.upstreams;
  upstream_dot = e.upstream_dot;
}

-- `applyClusterExport`; the result is whether the configuration was saved. The lists are fetched again
-- in the background once it was.
unfoldable pub apply_export :
    (Text → Option Text) → ℕ → Bool → ClusterConfigExport → Link → Server → Server × Bool
apply_export ip_host now disk_ok e link s =
    let (s', done) =
      save_config disk_ok (record s { config = applied ip_host now e link s.config }) in
    (record s' { updating = s'.updating || done }, done)
