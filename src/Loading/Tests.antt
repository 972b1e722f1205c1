-- ===== src/Loading/Tests.antt =====
-- The start of the server with concrete files.
use shield_dns.Prelude.{◌≡◌, refl, true, false, [], ◌∷◌, length, some, none, Option}
use shield_dns.Text.{lit}
use shield_dns.Server.{ListSource, Config, Server}
use shield_dns.Rules.Tests.{plain_config}
use shield_dns.Routing.Tests.{routing_run}
use shield_dns.Text.{fields, drop_empty}
use shield_dns.Loading.{
  Env, File, missing, decoded, default_config, filled, env_list, with_env, with_webhook,
  url_migrations, migrated, with_official, ensure_official_lists, sane_upstreams, sanitized,
  load_config,
}

loading_run : Unit {0}
unfolding routing_run fields drop_empty default_config filled env_list with_env with_webhook
    url_migrations migrated with_official ensure_official_lists sane_upstreams sanitized load_config
loading_run = tt

abbrev quiet_env : Env
quiet_env = record {
  upstream_dns = [];
  upstream_dot = [];
  block_page_ip = [];
  webhook_url = [];
  webhook_token = [];
  webhook_enabled = [];
}

abbrev new_env : Env
new_env = record quiet_env {
  upstream_dns = lit "9.9.9.9, 1.1.1.1";
  webhook_url = lit " https://h.de";
}

abbrev old_list : ListSource
old_list = record {
  name = lit "Hagezi";
  url = lit "https://raw.githubusercontent.com/hagezi/dns-blocklists/main/hosts/pro.txt";
  enabled = true;
  category = [];
  is_recommended = false;
  entries = 0;
  updated_at = 0;
  remote_updated_at = 0;
}

abbrev old_file : File
old_file = decoded true (λ c. record plain_config {
  upstreams = lit " 1.1.1.1," ∷ lit "a" ∷ lit "b" ∷ lit "c" ∷ lit "d" ∷ lit "e" ∷ [];
  cluster_role = lit "replica";
  doh_rate_limit = 0;
  lists = old_list ∷ [];
})

abbrev config_of : Option Server → Config
config_of none = plain_config
config_of (some s) = s.config

abbrev old_start : Config
unfolding loading_run
old_start = config_of (load_config quiet_env [] [] true old_file)

abbrev new_start : Config
unfolding loading_run
new_start = config_of (load_config new_env [] [] true missing)

loading_tests :
    (old_start.upstreams ≡ lit "1.1.1.1" ∷ lit "a" ∷ lit "b" ∷ lit "c" ∷ lit "d" ∷ [])
    × (old_start.cluster_sync_interval ≡ 5)
    × (old_start.doh_rate_limit ≡ 50)
    × (length old_start.lists ≡ 2)
    × (new_start.upstreams ≡ lit "9.9.9.9" ∷ lit "1.1.1.1" ∷ [])
    × (new_start.webhook_enabled ≡ true)
    × (new_start.webhook_url ≡ lit "https://h.de")
unfolding loading_run
loading_tests = (refl, refl, refl, refl, refl, refl, refl)
