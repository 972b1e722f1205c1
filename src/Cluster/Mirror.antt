-- ===== src/Cluster/Mirror.antt =====
-- What a replica holds after it applied the export of its primary: admin/config.go and
-- admin/api_cluster_sync.go.
use shield_dns.Prelude.{
  ℕ, ◌≡◌, refl, Bool, true, false, ◌||◌, ◌&&◌, not, arith, Option-cases, List, [], ◌∷◌, Option,
  none, some, option_or, if◌then◌else◌, Bool-cases, inl, inr,
}
use shield_dns.Text.{Text, lit, text_eq, is_empty}
use shield_dns.Server.{Config, Server, save_config-config}
use shield_dns.Cluster.{
  ClusterConfigExport, Link, export_of, tuned, build_export, sent, omit_empty, applied,
  apply_export, new_upstreams,
}

-- A list of the primary, or the replica's own where that of the primary is empty.
abbrev pub unless_empty {ℓ} : {A : Type ℓ} → List A → List A → List A
unless_empty [] own = own
unless_empty (x ∷ xs) own = x ∷ xs

abbrev pub is_exposed : Text → Bool
is_exposed t = text_eq t (lit "public") || text_eq t (lit "hybrid")

-- The primary's own address, which a replica in failover mode asks before all other upstreams.
abbrev pub asked_first : (Text → Option Text) → Link → Option Text
asked_first ip_host link =
    if link.failover && not (is_empty link.url) then ip_host link.url else none

-- `r` is what the replica `r0`, with the link `link` to its primary, becomes by the export that the primary
-- `p` makes for instances of type `t`. Every field of the configuration is named.
pub record Mirrors (ip_host : Text → Option Text) (t : Text) (link : Link) (p r0 r : Config)
    : Type 0 where
  pub custom_blocked : r.custom_blocked ≡ p.custom_blocked
  pub custom_allowed : r.custom_allowed ≡ p.custom_allowed
  pub custom_mappings : r.custom_mappings ≡ p.custom_mappings
  pub filtering_enabled : r.filtering_enabled ≡ p.filtering_enabled
  pub lists : r.lists ≡ p.lists
  pub allowlists : r.allowlists ≡ p.allowlists
  pub autoblock_whitelist : r.autoblock_whitelist ≡ p.autoblock_whitelist
  pub blocked_countries : r.blocked_countries ≡ p.blocked_countries
  pub upstream_dot : r.upstream_dot ≡ p.upstream_dot
  pub rate_limit_rate : r.rate_limit_rate ≡ p.rate_limit_rate
  pub rate_limit_burst : r.rate_limit_burst ≡ p.rate_limit_burst
  pub mcp_server_enabled : r.mcp_server_enabled ≡ p.mcp_server_enabled
  pub abuse_dga_min_len : r.abuse_dga_min_len ≡ p.abuse_dga_min_len
  pub smart_selection_policy : r.smart_selection_policy ≡ p.smart_selection_policy
  pub serve_stale : r.serve_stale ≡ p.serve_stale
  pub dnssec_enabled : r.dnssec_enabled ≡ p.dnssec_enabled
  pub abuse_dga_threshold : r.abuse_dga_threshold ≡ p.abuse_dga_threshold
  pub malicious_ip_interval : r.malicious_ip_interval ≡ p.malicious_ip_interval
  pub verify_upstream_tls : r.verify_upstream_tls ≡ p.verify_upstream_tls
  pub prefer_encrypted : r.prefer_encrypted ≡ p.prefer_encrypted
  pub doh3_enabled : r.doh3_enabled ≡ p.doh3_enabled
  pub ech_optimization_enabled : r.ech_optimization_enabled ≡ p.ech_optimization_enabled
  pub strip_ecs : r.strip_ecs ≡ p.strip_ecs
  pub cluster_worker_domain : r.cluster_worker_domain ≡ p.cluster_worker_domain
  pub upstreams :
      r.upstreams
      ≡ elim (asked_first ip_host link) [ none ↦ p.upstreams | some host ↦ host ∷ p.upstreams ]
  -- Set by the type of the instance.
  pub abuse_detection : r.abuse_detection_enabled ≡ (is_exposed t || p.abuse_detection_enabled)
  pub malicious_ips :
      r.malicious_ip_blocking_enabled ≡ (is_exposed t || p.malicious_ip_blocking_enabled)
  pub rebinding : r.dns_rebinding_protection ≡ not (is_exposed t)
  -- Empty on the wire means absent.
  pub client_rules : r.client_rules ≡ unless_empty p.client_rules r0.client_rules
  pub blocked_clients : r.blocked_clients ≡ unless_empty p.blocked_clients r0.blocked_clients
  pub client_aliases : r.client_aliases ≡ unless_empty p.client_aliases r0.client_aliases
  pub routing_rules : r.routing_rules ≡ unless_empty p.routing_rules r0.routing_rules
  pub api_keys : r.api_keys ≡ unless_empty p.api_keys r0.api_keys
  pub blocked_clients_info :
      r.blocked_clients_info ≡ unless_empty p.blocked_clients_info r0.blocked_clients_info
  pub log_sharing :
      r.cluster_log_sharing_mode
      ≡ unless_empty p.cluster_log_sharing_mode r0.cluster_log_sharing_mode
  pub gateway : r.wireguard_gateway ≡ unless_empty p.wireguard_gateway r0.wireguard_gateway
  pub password : r.admin_password_hashed ≡ (
      if is_empty p.admin_password_hashed
      then r0.admin_password_hashed
      else p.admin_password_hashed)
  pub setup_done : r.setup_done ≡ (r0.setup_done || not (is_empty p.admin_password_hashed))
  -- Its link to the primary.
  pub primary_url : r.cluster_primary_url ≡ link.url
  pub primary_token : r.cluster_primary_token ≡ link.token
  pub instance_type : r.cluster_instance_type ≡ link.instance_type
  pub failover_mode : r.cluster_failover_mode ≡ link.failover
  -- The replica's own.
  pub role : r.cluster_role ≡ lit "replica"
  pub node_name : r.cluster_node_name ≡ r0.cluster_node_name
  pub admin_domain : r.admin_domain ≡ r0.admin_domain
  pub block_page_ip : r.block_page_ip ≡ r0.block_page_ip
  pub doh_rate_limit : r.doh_rate_limit ≡ r0.doh_rate_limit
  pub mfa : r.mfa_enabled ≡ r0.mfa_enabled
  pub last_login : r.last_login ≡ r0.last_login
  pub previous_login : r.previous_login ≡ r0.previous_login
  pub mfa_methods : r.mfa_methods ≡ r0.mfa_methods
  pub latency_test_interval : r.latency_test_interval ≡ r0.latency_test_interval
  pub diagnostics_refresh_interval :
      r.diagnostics_refresh_interval ≡ r0.diagnostics_refresh_interval
  pub update_channel : r.update_channel ≡ r0.update_channel
  pub cluster_worker_token : r.cluster_worker_token ≡ r0.cluster_worker_token
  pub cluster_sync_interval : r.cluster_sync_interval ≡ r0.cluster_sync_interval
  pub cluster_replicas : r.cluster_replicas ≡ r0.cluster_replicas
  pub webhook_enabled : r.webhook_enabled ≡ r0.webhook_enabled
  pub webhook_url : r.webhook_url ≡ r0.webhook_url
  pub webhook_token : r.webhook_token ≡ r0.webhook_token

-- The four fields that depend on the type; the rate limit is of no account.
tuned_fields : Text → ℕ → ClusterConfigExport → ClusterConfigExport
tuned_fields t limit e = record e {
  doh_rate_limit = limit;
  malicious_ip_blocking_enabled = is_exposed t || e.malicious_ip_blocking_enabled;
  abuse_detection_enabled = is_exposed t || e.abuse_detection_enabled;
  dns_rebinding_protection = not (is_exposed t);
}

tuned-tuned_fields :
    (t : Text) (e : ClusterConfigExport) → (limit : ℕ) × (tuned t e ≡ tuned_fields t limit e)
unfolding tuned tuned_fields
tuned-tuned_fields t e = elim (Bool-cases (text_eq t (lit "public"))) [
  | inl public ↦ rw public (_, refl)
  | inr other ↦ elim (Bool-cases (text_eq t (lit "hybrid"))) [
    | inl hybrid ↦ rw (other, hybrid) (_, refl)
    | inr private ↦ rw (other, private) (_, refl)
  ]
]

option_or-omit_empty {ℓ} :
    {A : Type ℓ} (xs own : List A) → option_or (omit_empty (some xs)) own ≡ unless_empty xs own
option_or-omit_empty [] own = refl
option_or-omit_empty (x ∷ xs) own = refl

filled_text : (t own : Text) → (if is_empty t then own else t) ≡ unless_empty t own
filled_text [] own = refl
filled_text (c ∷ t) own = refl

set_up_once :
    (hash : Text) (done : Bool)
    → (if is_empty hash then done else true) ≡ (done || not (is_empty hash))
set_up_once [] done = ground arith
set_up_once (c ∷ hash) done = ground arith

new_upstreams-asked_first :
    (ip_host : Text → Option Text) (link : Link) (ups : List Text)
    → new_upstreams ip_host link ups
      ≡ elim (asked_first ip_host link) [ none ↦ ups | some host ↦ host ∷ ups ]
unfolding new_upstreams
new_upstreams-asked_first ip_host link ups =
    elim (Bool-cases (link.failover && not (is_empty link.url))) [
      | inl e ↦ elim (Option-cases (ip_host link.url)) [
        | inl f ↦ rw (new_upstreams, e, f) refl
        | inr (host, f) ↦ rw (new_upstreams, e, f) refl
      ]
      | inr e ↦ rw (new_upstreams, e) refl
    ]

fields-Mirrors :
    (ip_host : Text → Option Text) (now now' limit : ℕ) (t url : Text) (link : Link) (p r : Config)
    → Mirrors ip_host t link p r
        (applied ip_host now (sent (tuned_fields t limit (export_of now' url p))) link r)
unfolding applied sent tuned_fields
fields-Mirrors ip_host now now' limit t url link p r = record {
  custom_blocked = refl;
  custom_allowed = refl;
  custom_mappings = refl;
  filtering_enabled = refl;
  lists = refl;
  allowlists = refl;
  autoblock_whitelist = refl;
  blocked_countries = refl;
  upstream_dot = refl;
  rate_limit_rate = refl;
  rate_limit_burst = refl;
  mcp_server_enabled = refl;
  abuse_dga_min_len = refl;
  smart_selection_policy = refl;
  serve_stale = refl;
  dnssec_enabled = refl;
  abuse_dga_threshold = refl;
  malicious_ip_interval = refl;
  verify_upstream_tls = refl;
  prefer_encrypted = refl;
  doh3_enabled = refl;
  ech_optimization_enabled = refl;
  strip_ecs = refl;
  cluster_worker_domain = refl;
  upstreams = new_upstreams-asked_first ip_host link p.upstreams;
  abuse_detection = refl;
  malicious_ips = refl;
  rebinding = refl;
  client_rules = option_or-omit_empty p.client_rules r.client_rules;
  blocked_clients = option_or-omit_empty p.blocked_clients r.blocked_clients;
  client_aliases = option_or-omit_empty p.client_aliases r.client_aliases;
  routing_rules = option_or-omit_empty p.routing_rules r.routing_rules;
  api_keys = option_or-omit_empty p.api_keys r.api_keys;
  blocked_clients_info = option_or-omit_empty p.blocked_clients_info r.blocked_clients_info;
  log_sharing = filled_text p.cluster_log_sharing_mode r.cluster_log_sharing_mode;
  gateway = filled_text p.wireguard_gateway r.wireguard_gateway;
  password = refl;
  setup_done = set_up_once p.admin_password_hashed r.setup_done;
  primary_url = refl;
  primary_token = refl;
  instance_type = refl;
  failover_mode = refl;
  role = refl;
  node_name = refl;
  admin_domain = refl;
  block_page_ip = refl;
  doh_rate_limit = refl;
  mfa = refl;
  last_login = refl;
  previous_login = refl;
  mfa_methods = refl;
  latency_test_interval = refl;
  diagnostics_refresh_interval = refl;
  update_channel = refl;
  cluster_worker_token = refl;
  cluster_sync_interval = refl;
  cluster_replicas = refl;
  webhook_enabled = refl;
  webhook_url = refl;
  webhook_token = refl;
}

pub apply_export-config :
    (ip_host : Text → Option Text) (now : ℕ) (ok : Bool) (e : ClusterConfigExport) (link : Link)
    (s : Server)
    → (apply_export ip_host now ok e link s).0.config ≡ applied ip_host now e link s.config
unfolding apply_export
apply_export-config ip_host now ok e link s =
    save_config-config ok (record s { config = applied ip_host now e link s.config })

-- A replica that applies what its primary exports has the primary's rules, lists and settings, with those
-- that the type of the instance fixes and its link to the primary, and keeps what is its own, the rate limit
-- of DoH among it. Where a list or text that may be absent is empty on the primary, it keeps its old one.
pub apply_export-Mirrors :
    (ip_host : Text → Option Text) (now now' : ℕ) (ok : Bool) (t url : Text) (link : Link)
    (p : Config) (s : Server)
    → Mirrors ip_host t link p s.config
        (apply_export ip_host now ok (sent (build_export now' t url p)) link s).0.config
unfolding build_export
apply_export-Mirrors ip_host now now' ok t url link p s =
    let (limit, shape) = tuned-tuned_fields t (export_of now' url p) in
    rw (apply_export-config, shape) (fields-Mirrors ip_host now now' limit t url link p s.config)

if_twice {ℓ} :
    {A : Type ℓ} (b : Bool) (x y : A)
    → (if b then (if b then x else y) else y) ≡ (if b then x else y)
if_twice true x y = refl
if_twice false x y = refl

option_or_twice {ℓ} :
    {A : Type ℓ} (o : Option A) (a : A) → option_or o (option_or o a) ≡ option_or o a
option_or_twice none a = refl
option_or_twice (some b) a = refl

-- A replica that applies the same export again is not changed further, apart from the time.
pub applied_idempotent :
    (ip_host : Text → Option Text) (now now' : ℕ) (e : ClusterConfigExport) (link : Link)
    (c : Config)
    → applied ip_host now' e link (applied ip_host now e link c) ≡ applied ip_host now' e link c
unfolding applied
applied_idempotent ip_host now now' e link c = simp (if_twice, option_or_twice)
