-- ===== src/Rules/Tests.antt =====
-- The rule handlers at concrete requests.
use shield_dns.Prelude.{
  subst, arith, ◌≡◌, refl, inr, Bool, true, false, not, ◌&&◌, some, none, [], ◌∷◌,
}
use shield_dns.Text.{Text, lit, text_eq, join, trim_prefix, equal_fold}
use shield_dns.Text.Equality.{text_eq_sound}
use shield_dns.Table.{lookup, delete, keep_keys, member}
use shield_dns.Domain.{is_valid_domain}
use shield_dns.ListFile.Tests.{list_run}
use shield_dns.Blocklist.{
  Attribution, joined_tails, parent_domains, is_allowed, delete_wildcards, delete_parents,
  test_domain, test_source, apply_rules, first_wildcard, blocking_lists, is_blocked,
}
use shield_dns.Blocklist.Applied.{is_parent_wildcard, allowed-not_blocked}
use shield_dns.Server.{Config, Server, is_replica, is_unsafe, save_config}
use shield_dns.Rules.{
  custom_source, without_custom, add_custom, add_customs, allow_custom, reloaded, reload_rules_fast,
  RuleRequest, rule_target, remove_text, with_client_rule, with_blocked, with_allowed, with_mapping,
  apply_kind, new_config, save_and_reload, install, add_rule, handle_rule_add, without_rules,
  remove_rule, handle_rule_remove, handle_toggle_filtering,
}
use shield_dns.Rules.Lists.{IsApart}
use shield_dns.Rules.Ends.{Ends, handle_rule_add-Ends, replica_unchanged}
use shield_dns.Rules.Effects.{add_rule-allowed, add_rule-blocked, remove_rule-removed}

unfoldable pub rules_run : Unit {0}
unfolding list_run equal_fold join trim_prefix delete keep_keys is_valid_domain joined_tails
    parent_domains is_allowed delete_wildcards delete_parents test_domain test_source apply_rules
    first_wildcard blocking_lists is_blocked is_parent_wildcard is_replica is_unsafe save_config
    custom_source without_custom add_custom add_customs allow_custom reloaded reload_rules_fast
    rule_target remove_text with_client_rule with_blocked with_allowed with_mapping apply_kind
    new_config save_and_reload install add_rule handle_rule_add without_rules remove_rule
    handle_rule_remove handle_toggle_filtering
rules_run = tt

abbrev pub no_ip : Text → Bool
no_ip s = false

abbrev pub plain_config : Config
plain_config = record {
  custom_blocked = lit "b.de" ∷ [];
  custom_allowed = lit "c.de" ∷ [];
  custom_mappings = [];
  client_rules = [];
  filtering_enabled = true;
  cluster_role = lit "standalone";
  setup_done = false;
  admin_password_hashed = [];
  mfa_enabled = false;
  mfa_methods = 0;
  api_keys = [];
  block_page_ip = [];
  autoblock_whitelist = [];
  blocked_clients = [];
  blocked_clients_info = [];
  abuse_detection_enabled = true;
  abuse_dga_min_len = 8;
  malicious_ip_blocking_enabled = true;
  doh_rate_limit = 50;
  last_login = 0;
  previous_login = 0;
  upstreams = lit "1.1.1.1" ∷ [];
  upstream_dot = lit "dns.google" ∷ [];
  prefer_encrypted = true;
  lists = [];
  allowlists = [];
  admin_domain = lit "a.de";
  latency_test_interval = 10;
  smart_selection_policy = lit "fastest";
  diagnostics_refresh_interval = 30;
  serve_stale = true;
  dnssec_enabled = true;
  blocked_countries = [];
  abuse_dga_threshold = 1;
  client_aliases = [];
  malicious_ip_interval = 8;
  verify_upstream_tls = true;
  doh3_enabled = true;
  rate_limit_rate = 100;
  rate_limit_burst = 250;
  ech_optimization_enabled = true;
  update_channel = lit "stable";
  mcp_server_enabled = false;
  dns_rebinding_protection = false;
  strip_ecs = false;
  cluster_instance_type = lit "private";
  cluster_node_name = [];
  cluster_worker_domain = [];
  cluster_worker_token = [];
  cluster_log_sharing_mode = [];
  cluster_primary_url = [];
  cluster_primary_token = [];
  cluster_sync_interval = 0;
  cluster_failover_mode = false;
  cluster_last_sync = 0;
  cluster_replicas = [];
  routing_rules = [];
  wireguard_gateway = [];
  webhook_enabled = false;
  webhook_url = [];
  webhook_token = [];
}

abbrev listed_map : Attribution
listed_map = (lit "a.de", lit "L" ∷ []) ∷ (lit "*.a.de", lit "L" ∷ []) ∷ []

abbrev pub server : Server
server = record {
  config = plain_config;
  saved = none;
  attribution = some listed_map;
  updating = false;
}

abbrev replica : Server
replica = record server { config = record plain_config { cluster_role = lit "replica" } }

abbrev ask : Text → Text → RuleRequest
ask kind domain = record { domain = domain; kind = kind; ip = []; client_ip = [] }

abbrev allow_request : RuleRequest
allow_request = ask (lit "allow") (lit "x.a.de")

abbrev block_request : RuleRequest
block_request = ask (lit "block") (lit "||e.de^")

rule_tests :
    ((handle_rule_add no_ip true true (some allow_request) server).1 ≡ 200)
    × ((handle_rule_add no_ip true true (some (ask (lit "block") [])) server).1 ≡ 422)
    × ((handle_rule_add no_ip true true (some (ask (lit "block") (lit "a"))) replica).1 ≡ 403)
    × ((handle_rule_add no_ip false true (some block_request) server).1 ≡ 500)
    × ((handle_rule_add no_ip true true (some (ask (lit "drop") (lit "a"))) server).1 ≡ 400)
unfolding rules_run
rule_tests = (refl, refl, refl, refl, refl)

allowed-not_blocked_example :
    is_blocked (apply_rules listed_map (lit "x.a.de" ∷ [])) (lit "y.x.a.de") ≡ false
unfolding rules_run
allowed-not_blocked_example =
    allowed-not_blocked listed_map (lit "x.a.de" ∷ []) (lit "x.a.de") (lit "y.x.a.de") refl refl
      refl (inr (lit "y", refl))

b_is_not_c : (d : Text) → member d (lit "b.de" ∷ []) ≡ true → member d (lit "c.de" ∷ []) ≡ false
b_is_not_c d h =
    let same = text_eq_sound (lit "b.de") d (unfold member in ground (arith, h)) in
    subst (λ e. member e (lit "c.de" ∷ []) ≡ false) same (unfold rules_run in refl)

server-IsApart : IsApart plain_config
unfolding rules_run
server-IsApart = record { blocked_once = (refl, tt); allowed_once = (refl, tt); apart = b_is_not_c }

handle_rule_add-Ends_example :
    Ends server (handle_rule_add no_ip false true (some block_request) server)
handle_rule_add-Ends_example = handle_rule_add-Ends no_ip false true (some block_request) server

replica_unchanged_example :
    ((handle_rule_add no_ip true true (some block_request) replica).0 ≡ replica)
    × ((handle_rule_remove true true (some block_request) replica).0 ≡ replica)
    × ((handle_toggle_filtering true true (some false) replica).0 ≡ replica)
unfolding rules_run
replica_unchanged_example =
    replica_unchanged no_ip true true (some block_request) (some block_request) (some false) replica
      refl

add_rule-allowed_example :
    (m' : Attribution) × ((handle_rule_add no_ip true true
        (some allow_request)
        server).0.attribution
      ≡ some m')
    × (is_blocked m' (lit "y.x.a.de") ≡ false)
unfolding rules_run
add_rule-allowed_example =
    add_rule-allowed no_ip true allow_request server listed_map (lit "y.x.a.de") refl refl refl refl
      refl refl (inr (lit "y", refl))

add_rule-blocked_example :
    (m' : Attribution) × ((handle_rule_add no_ip true true
        (some block_request)
        server).0.attribution
      ≡ some m')
    × (is_blocked m' (lit "y.e.de") ≡ true)
unfolding rules_run
add_rule-blocked_example =
    add_rule-blocked no_ip true block_request server listed_map (lit "y.e.de") refl refl refl refl
      refl (refl, refl) (refl, refl) (inr (lit "y", refl))

remove_rule-removed_example :
    (member
        (lit "b.de")
        (handle_rule_remove true true (some (ask [] (lit "b.de"))) server).0.config.custom_blocked
      ≡ (not (text_eq (lit "b.de") (lit "b.de")) && member (lit "b.de") (lit "b.de" ∷ [])))
    × (member
          (lit "b.de")
          (handle_rule_remove true true (some (ask [] (lit "b.de"))) server).0.config.custom_allowed
        ≡ (not (text_eq (lit "b.de") (lit "b.de")) && member (lit "b.de") (lit "c.de" ∷ [])))
    × (lookup
          (lit "b.de")
          (handle_rule_remove true true
            (some (ask [] (lit "b.de")))
            server).0.config.custom_mappings
        ≡ none)
unfolding rules_run
remove_rule-removed_example =
    remove_rule-removed true (ask [] (lit "b.de")) server (lit "b.de") refl
