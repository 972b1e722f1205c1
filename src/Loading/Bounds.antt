-- ===== src/Loading/Bounds.antt =====
-- What holds of every configuration that `loadConfig` of admin/config.go starts with.
use shield_dns.Prelude.{◌≡◌, ◌≢◌, ◌≤◌, true, false, List, map, any, length}
use shield_dns.Text.{Text, lit, text_eq, is_empty, trim}
use shield_dns.Table.{Table}
use shield_dns.Server.{Config, Server}
use shield_dns.Loading.{migrated, is_official}

-- From one to five, and trimmed.
pub record IsUpstreams (us : List Text) : Type 0 where
  pub some_given : 1 ≤ length us
  pub few : length us ≤ 5
  pub trimmed : map (trim (lit " ,")) us ≡ us

pub record IsInBounds (c : Config) : Type 0 where
  pub upstreams : IsUpstreams c.upstreams
  pub upstream_dot : IsUpstreams c.upstream_dot
  pub admin_domain : is_empty c.admin_domain ≡ false
  pub block_page_ip : is_empty c.block_page_ip ≡ false
  pub latency : c.latency_test_interval ≢ 0
  pub policy : is_empty c.smart_selection_policy ≡ false
  pub diagnostics : c.diagnostics_refresh_interval ≢ 0
  pub threshold : c.abuse_dga_threshold ≢ 0
  pub min_len : c.abuse_dga_min_len ≢ 0
  pub rate_limit : c.doh_rate_limit ≢ 0
  pub channel : is_empty c.update_channel ≡ false
  pub role : is_empty c.cluster_role ≡ false
  pub instance_type : is_empty c.cluster_instance_type ≡ false
  pub interval : text_eq c.cluster_role (lit "replica") ≡ true → c.cluster_sync_interval ≢ 0
  pub official_block : any is_official c.lists ≡ true
  pub official_allow : any is_official c.allowlists ≡ true
  pub current_block : map migrated c.lists ≡ c.lists
  pub current_allow : map migrated c.allowlists ≡ c.allowlists

-- What the earlier steps have to see to.
record IsFilled (c : Config) : Type 0 where
  rate_limit : c.doh_rate_limit ≢ 0
  channel : is_empty c.update_channel ≡ false
  role : is_empty c.cluster_role ≡ false
  instance_type : is_empty c.cluster_instance_type ≡ false
  interval : text_eq c.cluster_role (lit "replica") ≡ true → c.cluster_sync_interval ≢ 0
