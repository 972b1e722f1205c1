-- ===== src/Cluster/Tests.antt =====
-- A primary and a replica at concrete requests.
use shield_dns.Prelude.{◌≡◌, refl, true, false, [], ◌∷◌, ◌++◌, Option, none, some, ◌==◌}
use shield_dns.Text.{
  Text, lit, trim_left, trim_right, is_space, cut_prefix, trim_prefix, cut, before, to_lower,
  contains, trim_suffix, lower_byte,
}
use shield_dns.Domain.{is_valid_domain}
use shield_dns.Server.{ApiKey, Server}
use shield_dns.Rules.Tests.{plain_config, server, no_ip}
use shield_dns.Auth.{Clock}
use shield_dns.Auth.Tests.{auth_run}
use shield_dns.Cluster.{tuned, build_export, sent, new_upstreams, applied, apply_export}
use shield_dns.Cluster.OutboundUrl.{
  is_digit, is_host_byte, is_ipv6_byte, is_regex_space, is_path_end, is_port_end, is_host_end,
  is_outbound_url,
}
use shield_dns.Cluster.Primary.{
  RegisterRequest, is_instance_type, normal_type, replica_token, find_replica, put_replica,
  new_replica, primary_url, may_register, registered, registered_id, handle_register, touch_replica,
  handle_get_config, without_replica, handle_revoke, named, may_ingest, handle_ingest,
}
use shield_dns.Cluster.Node.{
  Url, UrlLib, is_web, is_valid_redirect_url, sanitize_redirect, Node, Answer, unreachable,
  JoinRequest, World, with_scheme, join_url, join_name, endpoint, healthy, lost, joined, join_link,
  join_body, handle_join, link_of, answered, asked, replica_sync, is_linked, handle_sync,
  standalone, handle_leave,
}
use shield_dns.Cluster.Joined.{registers_at}

unfoldable pub cluster_run : Unit {0}
unfolding auth_run trim_left trim_right is_space cut_prefix before to_lower contains trim_suffix
    lower_byte is_valid_domain tuned build_export sent new_upstreams applied apply_export
    is_instance_type normal_type replica_token find_replica put_replica new_replica primary_url
    may_register registered registered_id handle_register touch_replica handle_get_config
    without_replica handle_revoke named may_ingest handle_ingest is_web is_valid_redirect_url
    sanitize_redirect with_scheme join_url join_name endpoint healthy lost joined join_link
    join_body handle_join link_of answered asked replica_sync is_linked handle_sync standalone
    handle_leave is_digit is_host_byte is_ipv6_byte is_regex_space is_path_end is_port_end
    is_host_end is_outbound_url
cluster_run = tt

-- A simple reading of URLs: a scheme, a host up to the first slash, and the rest.
unfoldable pub split_url : Option (Text × Text) → Option Url
split_url none = none
split_url (some (scheme, back)) =
    let host = before (λ c. c == b'/') back in
    some (record { scheme = scheme; host = host; hostname = host; rest = trim_prefix host back })

abbrev pub lib : UrlLib
lib = record {
  parse = λ s. split_url (cut (lit "://") s);
  print = λ u. u.scheme ++ (lit "://" ++ (u.host ++ u.rest));
  parse_ip = no_ip;
  is_link_local = no_ip;
}

abbrev pub world : World
world = record { now = 7; disk_ok = true; lib = lib; ip_host = λ u. none }

abbrev pub clock : Clock
clock = record { now = 5; disk_ok = true; hash = λ t. b'#' ∷ t }

abbrev pub node_key : ApiKey
node_key = record {
  id = lit "1";
  name = lit "node";
  token_hash = lit "#tok";
  permissions = lit "cluster:sync" ∷ [];
  created_at = 0;
  last_used = 0;
}

abbrev pub primary : Server
primary = record server {
  config = record plain_config {
    cluster_role = lit "primary";
    custom_blocked = lit "p.de" ∷ [];
    api_keys = node_key ∷ [];
  };
}

abbrev pub node : Node
node = record { server = server; connection_lost = false; sync_failed = false }

abbrev pub join_request : JoinRequest
join_request = record {
  primary_url = lit " a.de/ ";
  api_token = lit "tok";
  name = lit "n1";
  instance_type = lit "public";
  failover_mode = false;
}

abbrev pub ask : Text → Text → RegisterRequest → Answer
ask = registers_at clock (lit "rep-1") (lit "a.de") primary

abbrev pub replica_node : Node
unfolding cluster_run split_url
replica_node = (handle_join world ask (some join_request) node).0

cluster_tests :
    ((handle_join world ask (some join_request) node).1 ≡ 200)
    × (replica_node.server.config.cluster_primary_url ≡ lit "https://a.de")
    × (replica_node.server.config.custom_blocked ≡ lit "p.de" ∷ [])
    × (replica_node.server.config.cluster_instance_type ≡ lit "public")
    × ((handle_join world ask (some (record join_request { api_token = lit "no" })) node).1 ≡ 403)
    × ((handle_join world ask (some (record join_request { api_token = [] })) node).1 ≡ 400)
    × ((handle_sync world (λ _ _ _. unreachable) replica_node).1 ≡ 502)
    × ((handle_sync world (λ _ _ _. unreachable) node).1 ≡ 400)
    × ((handle_leave true replica_node).1 ≡ 200)
unfolding cluster_run split_url
cluster_tests = (refl, refl, refl, refl, refl, refl, refl, refl, refl)

outbound_tests :
    (is_outbound_url (lit "https://a.de:8443/x?y") ≡ true)
    × (is_outbound_url (lit "http://[fd00::1]") ≡ true)
    × (is_outbound_url (lit "http://a.de:123456") ≡ false)
    × (is_outbound_url (lit "http://a.de/x y") ≡ false)
    × (is_outbound_url (lit "http://u@a.de/") ≡ false)
    × (is_outbound_url (lit "//a.de") ≡ false)
    × (is_outbound_url (lit "ftp://a.de") ≡ false)
unfolding cluster_run
outbound_tests = (refl, refl, refl, refl, refl, refl, refl)
