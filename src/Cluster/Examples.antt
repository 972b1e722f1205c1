-- ===== src/Cluster/Examples.antt =====
-- The theorems on the cluster, at the nodes of the tests.
use shield_dns.Prelude.{
  ◌≡◌, ◌⊎◌, refl, arith, true, false, ◌&&◌, [], ◌∷◌, List, none, some, Bool, map, keep, ltb, leb,
}
use shield_dns.Text.{Text, lit}
use shield_dns.Server.{refused, served, ClusterReplica, Config, Server}
use shield_dns.Rules.Tests.{plain_config}
use shield_dns.Cluster.{build_export}
use shield_dns.Cluster.Primary.{
  RegisterRequest, normal_type, may_register, primary_url, handle_register, handle_get_config,
  handle_revoke, LogBatch,
}
use shield_dns.Cluster.Node.{
  handle_leave, unreachable, is_linked, sanitize_redirect, link_of, handle_join, handle_sync,
}
use shield_dns.Cluster.Mirror.{Mirrors}
use shield_dns.Cluster.Joined.{token_request, asked_link, handle_join-Mirrors}
use shield_dns.Cluster.Replicas.{start}
use shield_dns.Cluster.Revoked.{revoked-refused, registered-served}
use shield_dns.Cluster.Logs.{
  LogRow, own_name, is_own, pending, scanned, entry_of, max_seen, is_sharing, push_rows, sync_logs,
  next_cursor,
}
use shield_dns.Cluster.Delivered.{sync_logs-exact}
use shield_dns.Cluster.Drained.{rounds, received, rounds-pending}
use shield_dns.Cluster.Settled.{
  handle_leave-alone, SyncEnds, handle_sync-SyncEnds, Follows, Follows-link_of,
}
use shield_dns.Cluster.Redirect.{IsLocal, IsWebUrl, sanitize_redirect-IsLocal}
use shield_dns.Cluster.Tests.{
  cluster_run, split_url, lib, world, clock, primary, node, join_request, ask, replica_node,
}

handle_join-Mirrors_example :
    (may_register (lit "#tok") primary.config ≡ true)
    × Mirrors world.ip_host
        (normal_type (lit "public"))
        (asked_link join_request)
        primary.config
        plain_config
        (handle_join world ask (some join_request) node).0.server.config
unfolding cluster_run split_url
handle_join-Mirrors_example =
    handle_join-Mirrors world clock (lit "rep-1") (lit "a.de") primary join_request node refl

abbrev body : RegisterRequest
body = record { name = lit "n1"; url = []; instance_type = lit "public"; failover_mode = false }

abbrev registered_replica : ClusterReplica
registered_replica = record {
  id = lit "rep-1";
  name = lit "n1";
  url = [];
  token_hash = lit "#tok";
  instance_type = lit "public";
  created_at = 5;
  last_seen = 5;
  last_sync = 5;
}

abbrev busy_primary : Server
busy_primary = record primary {
  config = record primary.config { cluster_replicas = registered_replica ∷ [] };
}

revoked-refused_example :
    (handle_get_config clock
      (lit "a.de")
      (token_request (lit "tok"))
      []
      (handle_revoke false (lit "rep-1") busy_primary).0).1
    ≡ refused 403
unfolding cluster_run
revoked-refused_example =
    revoked-refused busy_primary busy_primary false clock (lit "a.de") (token_request (lit "tok"))
      [] registered_replica start (refl, tt) refl refl refl

abbrev new_config : Config
new_config = record primary.config { cluster_replicas = registered_replica ∷ [] }

registered-served_example :
    (c : Config) × ((handle_get_config clock
        (lit "a.de")
        (token_request (lit "tok"))
        (lit "n2")
        (handle_register clock
          (lit "rep-1")
          (lit "a.de")
          (token_request (lit "tok"))
          (some body)
          primary).0).0.config
      ≡ c)
    × ((handle_get_config clock
          (lit "a.de")
          (token_request (lit "tok"))
          (lit "n2")
          (handle_register clock
            (lit "rep-1")
            (lit "a.de")
            (token_request (lit "tok"))
            (some body)
            primary).0).1
        ≡ served (build_export 5 (normal_type (lit "public")) (primary_url (lit "a.de") c) c))
unfolding cluster_run
registered-served_example =
    registered-served clock clock (lit "rep-1") (lit "a.de") (lit "a.de")
      (token_request (lit "tok")) (token_request (lit "tok")) body (lit "n2") primary (lit "rep-1")
      (build_export 5 (lit "public") (primary_url (lit "a.de") new_config) new_config) refl refl
      refl

handle_sync-SyncEnds_example :
    SyncEnds world
      (λ _ _ _. unreachable)
      replica_node
      (handle_sync world (λ _ _ _. unreachable) replica_node)
handle_sync-SyncEnds_example = handle_sync-SyncEnds world (λ _ _ _. unreachable) replica_node

Follows-link_of_example :
    (link_of (handle_sync world (λ _ _ _. unreachable) replica_node).0.server.config
      ≡ link_of replica_node.server.config)
    × (is_linked (handle_sync world (λ _ _ _. unreachable) replica_node).0.server.config ≡ true)
unfolding cluster_run split_url
Follows-link_of_example =
    Follows-link_of replica_node (handle_sync world (λ _ _ _. unreachable) replica_node).0
      (Follows.syncs world (λ _ _ _. unreachable) Follows.start) refl

handle_leave-alone_example :
    ((handle_leave false replica_node).0.server.config ≡ record replica_node.server.config {
      cluster_role = lit "standalone";
      cluster_primary_url = [];
      cluster_primary_token = [];
      cluster_failover_mode = false;
    })
    × (handle_sync world (λ _ _ _. unreachable) (handle_leave false replica_node).0
        ≡ ((handle_leave false replica_node).0, 400))
handle_leave-alone_example = handle_leave-alone false world (λ _ _ _. unreachable) replica_node

sanitize_redirect-IsLocal_example :
    IsLocal (sanitize_redirect lib (lit "//evil.de"))
    ⊎ IsWebUrl lib (sanitize_redirect lib (lit "//evil.de"))
sanitize_redirect-IsLocal_example = sanitize_redirect-IsLocal lib (lit "//evil.de")

abbrev sharing_config : Config
sharing_config = record replica_node.server.config { cluster_log_sharing_mode = lit "full_sync" }

abbrev rows : List LogRow
rows =
    record { id = 3; domain = lit "a.de"; client_ip = []; node_name = some []; readable = true }
    ∷ record { id = 4; domain = lit "b.de"; client_ip = []; node_name = none; readable = true }
    ∷ record { id = 6; domain = lit "c.de"; client_ip = []; node_name = some []; readable = true }
    ∷ []

abbrev takes_all : Text → Text → LogBatch → Bool
takes_all target token b = true

logs_run : Unit {0}
unfolding cluster_run split_url own_name is_own pending scanned entry_of max_seen is_sharing
    push_rows sync_logs next_cursor rounds received
logs_run = tt

rounds-pending_example :
    (received 1 lib takes_all rows sharing_config 0
      ≡ map (entry_of (own_name sharing_config)) (pending (own_name sharing_config) 0 rows))
    × (pending (own_name sharing_config) (rounds 1 lib takes_all rows sharing_config 0) rows ≡ [])
unfolding logs_run
rounds-pending_example =
    rounds-pending 1 lib takes_all rows sharing_config 0
      (lit "https://a.de/api/cluster/logs/ingest")
      ((omega arith, (omega arith, tt)), ((omega arith, tt), (tt, tt))) (refl, (refl, (refl, tt)))
      refl refl refl (λ b. refl) (omega arith)

abbrev sent_batch : LogBatch
sent_batch = record {
  node_name = lit "ShieldDNS Replica";
  queries =
      record { id = 3; domain = lit "a.de"; client_ip = []; node_name = lit "ShieldDNS Replica" }
      ∷ record { id = 6; domain = lit "c.de"; client_ip = []; node_name = lit "ShieldDNS Replica" }
      ∷ [];
}

sync_logs-exact_example :
    sent_batch.queries
    ≡ map (entry_of (own_name sharing_config)) (
        keep
          (λ (r : LogRow).
            (ltb 0 r.id && is_own (own_name sharing_config) r) && (leb r.id 6 && r.readable))
          rows)
unfolding logs_run
sync_logs-exact_example =
    sync_logs-exact lib takes_all true rows sharing_config 0 6 sent_batch
      ((omega arith, (omega arith, tt)), ((omega arith, tt), (tt, tt))) refl
