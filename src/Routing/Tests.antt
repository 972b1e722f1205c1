-- ===== src/Routing/Tests.antt =====
-- The routing rules at concrete requests.
use shield_dns.Prelude.{◌≡◌, refl, Bool, true, false, [], ◌∷◌, some, none, ◌||◌}
use shield_dns.Text.{Text, lit, text_eq, has_byte, trim, equal_fold}
use shield_dns.Domain.{normalize_domain}
use shield_dns.Server.{RoutingRule, Server}
use shield_dns.Rules.Tests.{server}
use shield_dns.Cluster.Tests.{cluster_run}
use shield_dns.Routing.{
  Net, RoutingRequest, guessed_type, match_type, target_kind, is_target, is_address, checked_match,
  lacks_host, made_rule, rule_at, checked_rule, put_rule, with_gateway, store_rule,
  handle_routing_post, is_meant, handle_routing_delete, routed_host, rule_zone,
}
use shield_dns.Routing.Kept.{IsRuleSet, start, posts, reachable-IsRuleSet}
use shield_dns.Routing.Undone.{posted_deleted}

unfoldable pub routing_run : Unit {0}
unfolding cluster_run normalize_domain equal_fold trim guessed_type match_type target_kind is_target
    is_address checked_match lacks_host made_rule rule_at checked_rule put_rule with_gateway
    store_rule handle_routing_post is_meant handle_routing_delete routed_host rule_zone
routing_run = tt

-- Addresses hold a colon or nothing but the digits of 10.0.0.1.
abbrev is_ip : Text → Bool
is_ip s = has_byte b':' s || text_eq s (lit "10.0.0.1")

abbrev pub net : Net
net = record { parse_ip = is_ip; parse_cidr = is_ip }

abbrev request : RoutingRequest
request = record {
  id = [];
  name = lit "office";
  match_text = lit " Intern.A.de ";
  match_type = [];
  target = lit "HOST";
  host_target = lit "10.0.0.1:53";
  wireguard_config = [];
  wireguard_gateway = lit "wg";
  enabled = none;
}

abbrev rule : RoutingRule
rule = record {
  id = lit "u1";
  name = lit "office";
  match_text = lit "intern.a.de";
  match_type = lit "domain";
  target = lit "host";
  host_target = lit "10.0.0.1:53";
  wireguard_config = [];
  enabled = true;
  created_at = 9;
}

abbrev posted : Server
posted = (handle_routing_post net 9 (lit "u1") true (some request) server).0

routing_tests :
    (posted.config.routing_rules ≡ rule ∷ [])
    × (posted.config.wireguard_gateway ≡ lit "wg")
    × ((handle_routing_post net 9
          (lit "u1")
          true
          (some (record request { host_target = [] }))
          server).1
        ≡ 400)
    × ((handle_routing_post net 9
          (lit "u1")
          true
          (some (record request { match_text = [] }))
          server).1
        ≡ 422)
    × ((handle_routing_delete true [] (lit "INTERN.a.de") posted).1 ≡ 200)
    × ((handle_routing_delete true (lit "u2") [] posted).1 ≡ 404)
    × (rule_zone is_ip posted.config rule ≡ some (lit "intern.a.de", lit "10.0.0.1:53"))
    × ((handle_routing_post net 9
          (lit "u2")
          true
          (some (record request { match_text = lit "::5" }))
          posted).1
        ≡ 200)
    × (rule_zone is_ip posted.config
          (record rule { match_text = lit "::5"; match_type = lit "client_ip" })
        ≡ none)
unfolding routing_run
routing_tests = (refl, refl, refl, refl, refl, refl, refl, refl, refl)

reachable-IsRuleSet_example : IsRuleSet net posted.config.routing_rules
reachable-IsRuleSet_example =
    reachable-IsRuleSet net server posted (posts 9 (lit "u1") true (some request) start)
      (record { valid = tt; named = tt })

posted_deleted_example :
    (handle_routing_delete false (lit "u1") [] posted).0.config.routing_rules
    ≡ server.config.routing_rules
unfolding routing_run
posted_deleted_example =
    posted_deleted net 9 (lit "u1") true false request server rule refl refl refl refl
