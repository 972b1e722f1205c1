-- ===== src/Loading.antt =====
-- admin/config.go: `loadConfig` and `ensureOfficialLists`.
-- `json.Unmarshal` of the file over the defaults is a function of the defaults, which it may keep in part.
-- The presets of admin/presets_list.go are given, and so is the environment, where a variable that is not
-- set is empty. That Unmarshal also writes into the presets, whose array the defaults share, is left out.
pub mod Bounds
pub mod Tests
use shield_dns.Prelude.{
  ℕ, Bool, true, false, not, ◌&&◌, ◌||◌, List, [], ◌∷◌, ◌++◌, map, any, take, Option, none, some,
  option_or, if◌then◌else◌, ◌==◌,
}
use shield_dns.Text.{Text, lit, text_eq, is_empty, trim_space, to_lower, contains, trim, fields}
use shield_dns.Table.{Table, lookup}
use shield_dns.Server.{ListSource, Config, Server, is_replica, save_config}

pub record Env : Type 0 where
  pub upstream_dns : Text
  pub upstream_dot : Text
  pub block_page_ip : Text
  pub webhook_url : Text
  pub webhook_token : Text
  pub webhook_enabled : Text

-- The file: none, one that does not decode, or one by what `json.Unmarshal` makes of a configuration that it
-- is decoded over. `no_whitelist` says that `AutoblockWhitelist` is nil afterwards.
pub data File : Type 0 where
  missing corrupt : File
  decoded : (no_whitelist : Bool) → (Config → Config) → File

abbrev pub default_upstreams : List Text
default_upstreams =
    lit "86.54.11.100" ∷ lit "1.1.1.1" ∷ lit "9.9.9.9" ∷ lit "8.8.8.8" ∷ lit "1.0.0.1" ∷ []

abbrev pub default_dot : List Text
default_dot =
    lit "unfiltered.joindns4.eu"
    ∷ lit "dns.quad9.net"
    ∷ lit "one.one.one.one"
    ∷ lit "dns.google"
    ∷ []

abbrev pub default_whitelist : List Text
default_whitelist = lit "127.0.0.1" ∷ lit "::1" ∷ []

-- The bits of 3.8.
abbrev pub default_threshold : ℕ
default_threshold = 4615739258092021350

unfoldable pub default_config : List ListSource → List ListSource → Config
default_config presets allow_presets = record {
  custom_blocked = [];
  custom_allowed = [];
  custom_mappings =
      (lit "fritz.box", lit "192.168.178.1")
      ∷ (lit "openwrt.lan", lit "192.168.1.1")
      ∷ (lit "router.miwifi.com", lit "192.168.31.1")
      ∷ [];
  client_rules = [];
  filtering_enabled = true;
  cluster_role = lit "standalone";
  setup_done = false;
  admin_password_hashed = [];
  mfa_enabled = false;
  mfa_methods = 0;
  api_keys = [];
  block_page_ip = lit "0.0.0.0";
  autoblock_whitelist = default_whitelist;
  blocked_clients = [];
  blocked_clients_info = [];
  abuse_detection_enabled = true;
  abuse_dga_min_len = 8;
  malicious_ip_blocking_enabled = true;
  doh_rate_limit = 50;
  last_login = 0;
  previous_login = 0;
  upstreams = default_upstreams;
  upstream_dot = default_dot;
  prefer_encrypted = true;
  lists = presets;
  allowlists = allow_presets;
  admin_domain = lit "shielddns.local";
  latency_test_interval = 10;
  smart_selection_policy = lit "fastest";
  diagnostics_refresh_interval = 30;
  serve_stale = true;
  dnssec_enabled = true;
  blocked_countries = [];
  abuse_dga_threshold = default_threshold;
  client_aliases = [];
  malicious_ip_interval = 8;
  verify_upstream_tls = true;
  doh3_enabled = true;
  rate_limit_rate = 100;
  rate_limit_burst = 250;
  ech_optimization_enabled = true;
  update_channel = lit "stable";
  mcp_server_enabled = false;
  dns_rebinding_protection = false;
  strip_ecs = false;
  cluster_instance_type = lit "private";
  cluster_node_name = [];
  cluster_worker_domain = [];
  cluster_worker_token = [];
  cluster_log_sharing_mode = [];
  cluster_primary_url = [];
  cluster_primary_token = [];
  cluster_sync_interval = 0;
  cluster_failover_mode = false;
  cluster_last_sync = 0;
  cluster_replicas = [];
  routing_rules = [];
  wireguard_gateway = [];
  webhook_enabled = false;
  webhook_url = [];
  webhook_token = [];
}

abbrev pub or_text : Text → Text → Text
or_text s t = if is_empty s then t else s

abbrev pub or_number : ℕ → ℕ → ℕ
or_number n m = if n == 0 then m else n

-- What is filled in after a file was read.
unfoldable pub filled : Bool → Config → Config
filled no_whitelist c = record c {
  doh_rate_limit = or_number c.doh_rate_limit 50;
  autoblock_whitelist = if no_whitelist then default_whitelist else c.autoblock_whitelist;
  update_channel = or_text c.update_channel (lit "stable");
  cluster_role = or_text c.cluster_role (lit "standalone");
  cluster_sync_interval =
      if text_eq (or_text c.cluster_role (lit "standalone")) (lit "replica")
        && c.cluster_sync_interval == 0
      then 5
      else c.cluster_sync_interval;
  cluster_instance_type = or_text c.cluster_instance_type (lit "private");
}

-- `strings.Fields(strings.ReplaceAll(v, ",", " "))`, where it holds anything
unfoldable pub env_list : Text → List Text → List Text
env_list v old = elim (fields (map (λ c. if c == b',' then b' ' else c) v)) [
  | [] ↦ old
  | p ∷ ps ↦ p ∷ ps
]

-- The environment of a new installation.
unfoldable pub with_env : Env → Config → Config
with_env env c = record c {
  upstreams = env_list env.upstream_dns c.upstreams;
  upstream_dot = env_list env.upstream_dot c.upstream_dot;
  block_page_ip =
      if is_empty env.block_page_ip then c.block_page_ip else trim_space env.block_page_ip;
}

-- The environment of every start.
unfoldable pub with_webhook : Env → Config → Config
with_webhook env c = record c {
  webhook_url = if is_empty env.webhook_url then c.webhook_url else trim_space env.webhook_url;
  webhook_token =
      if is_empty env.webhook_token then c.webhook_token else trim_space env.webhook_token;
  webhook_enabled =
      if not (is_empty env.webhook_enabled)
      then text_eq (to_lower env.webhook_enabled) (lit "true")
        || text_eq env.webhook_enabled (lit "1")
      else if not (is_empty env.webhook_url)
      then true
      else c.webhook_enabled;
}

abbrev hagezi : Text → Text
hagezi s = lit "https://raw.githubusercontent.com/hagezi/dns-blocklists/main/" ++ s

unfoldable pub url_migrations : Table Text
url_migrations =
    (hagezi (lit "hosts/pro.txt"), hagezi (lit "adblock/pro.txt"))
    ∷ (hagezi (lit "hosts/light.txt"), hagezi (lit "adblock/light.txt"))
    ∷ (hagezi (lit "hosts/multi.txt"), hagezi (lit "adblock/multi.txt"))
    ∷ (hagezi (lit "hosts/pro.plus.txt"), hagezi (lit "adblock/pro.plus.txt"))
    ∷ (hagezi (lit "hosts/ultimate.txt"), hagezi (lit "adblock/ultimate.txt"))
    ∷ []

unfoldable pub migrated : ListSource → ListSource
migrated l = record l { url = option_or (lookup l.url url_migrations) l.url }

abbrev pub is_official : ListSource → Bool
is_official l = contains (lit "FaserF/ShieldDNS") l.url

abbrev official : Text → Text → ListSource
official name url = record {
  name = name;
  url = url;
  enabled = true;
  category = [];
  is_recommended = false;
  entries = 0;
  updated_at = 0;
  remote_updated_at = 0;
}

abbrev pub official_blocklist : ListSource
official_blocklist =
    official (lit "ShieldDNS Official Blocklist") (
      lit "https://raw.githubusercontent.com/FaserF/ShieldDNS/main/official/blocklists/default.txt")

abbrev pub official_allowlist : ListSource
official_allowlist =
    official (lit "ShieldDNS Official Allowlist") (
      lit "https://raw.githubusercontent.com/FaserF/ShieldDNS/main/official/allowlists/default.txt")

unfoldable pub with_official : ListSource → List ListSource → List ListSource
with_official l ls = if any is_official ls then ls else l ∷ ls

-- `ensureOfficialLists`
unfoldable pub ensure_official_lists : Config → Config
ensure_official_lists c = record c {
  lists = with_official official_blocklist (map migrated c.lists);
  allowlists = with_official official_allowlist (map migrated c.allowlists);
}

-- At most five, each without blanks and commas at its ends; the defaults where there is none.
unfoldable pub sane_upstreams : List Text → List Text → List Text
sane_upstreams [] fallback = map (trim (lit " ,")) (take 5 fallback)
sane_upstreams (u ∷ us) fallback = map (trim (lit " ,")) (take 5 (u ∷ us))

unfoldable pub sanitized : Config → Config
sanitized c = record c {
  upstreams = sane_upstreams c.upstreams default_upstreams;
  upstream_dot = sane_upstreams c.upstream_dot default_dot;
  admin_domain = or_text c.admin_domain (lit "shielddns.local");
  block_page_ip = or_text c.block_page_ip (lit "0.0.0.0");
  latency_test_interval = or_number c.latency_test_interval 10;
  smart_selection_policy = or_text c.smart_selection_policy (lit "fastest");
  diagnostics_refresh_interval = or_number c.diagnostics_refresh_interval 30;
  abuse_dga_threshold = or_number c.abuse_dga_threshold default_threshold;
  abuse_dga_min_len = or_number c.abuse_dga_min_len 8;
}

abbrev pub started : Option Config → Config → Server
started saved c = record { config = c; saved = saved; attribution = none; updating = false }

-- `loadConfig`; `none` is a stop of the program, which keeps a file that does not decode.
unfoldable pub load_config : Env → List ListSource → List ListSource → Bool → File → Option Server
load_config env presets allow_presets disk_ok missing =
    let c = with_webhook env (with_env env (default_config presets allow_presets)) in
    let saved = (save_config disk_ok (started none c)).0.saved in
    some (started saved (sanitized (ensure_official_lists c)))
load_config env presets allow_presets disk_ok corrupt = none
load_config env presets allow_presets disk_ok (decoded no_whitelist decode) =
    let c = decode (default_config presets allow_presets) in
    let c' = with_webhook env (filled no_whitelist c) in
    some (started none (sanitized (ensure_official_lists c')))
