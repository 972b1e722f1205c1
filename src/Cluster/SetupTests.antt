-- ===== src/Cluster/SetupTests.antt =====
-- The setup of a new node.
use shield_dns.Prelude.{◌≡◌, refl, false, [], Option, some, none}
use shield_dns.Text.{Text, lit}
use shield_dns.Cluster.Node.{World}
use shield_dns.Cluster.Setup.{
  SetupRequest, introduced, replica_name, join_request_of, set_up, with_config, save_setup,
  finish_setup, setup_node, handle_setup, handle_setup_twice,
}
use shield_dns.Cluster.Tests.{cluster_run, split_url, world, node, ask}

abbrev hash_of : Text → Option Text
hash_of password = some (lit "#secret")

abbrev request : SetupRequest
request = record {
  mode = lit "primary";
  password = lit "a long password";
  instance_type = lit "lan";
  primary_url = [];
  api_token = [];
  name = lit " n1 ";
  failover_mode = false;
}

-- The disk is full.
abbrev full_world : World
full_world = record world { disk_ok = false }

setup_run : Unit {0}
unfolding cluster_run introduced replica_name join_request_of set_up with_config save_setup
    finish_setup setup_node handle_setup
setup_run = tt

setup_tests :
    ((handle_setup world hash_of ask (some request) node).1 ≡ 200)
    × ((handle_setup world hash_of ask (some request) node).0.server.config.cluster_role
        ≡ lit "primary")
    × ((handle_setup full_world hash_of ask (some request) node).1 ≡ 500)
    × ((handle_setup world hash_of ask (some (record request { password = lit "short" })) node).1
        ≡ 400)
    × ((handle_setup world hash_of ask (some (record request { mode = lit "replica" })) node).1
        ≡ 400)
    × ((handle_setup world hash_of ask none node).1 ≡ 400)
unfolding setup_run split_url
setup_tests = (refl, refl, refl, refl, refl, refl)

handle_setup_twice_example :
    handle_setup world hash_of ask
      (some request)
      (handle_setup full_world hash_of ask (some request) node).0
    ≡ ((handle_setup full_world hash_of ask (some request) node).0, 409)
unfolding setup_run split_url
handle_setup_twice_example =
    handle_setup_twice full_world world hash_of hash_of ask ask request (some request) node
      (lit "#secret") refl refl refl refl refl
