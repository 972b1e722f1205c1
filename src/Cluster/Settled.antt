-- ===== src/Cluster/Settled.antt =====
-- How the handlers of a replica end: `handleClusterSync`, `handleClusterLeave` and
-- `handleClusterUpdateSettings` of admin/api_cluster.go.
use shield_dns.Prelude.{
  ℕ, ◌≡◌, refl, ap, ◌∙◌, arith, Bool, true, false, [], Option, none, some, Bool-cases, inl, inr,
}
use shield_dns.Text.{Text, lit, text_eq}
use shield_dns.Text.Equality.{text_eq_refl}
use shield_dns.Rules.Ends.{replica_unchanged}
use shield_dns.Server.{Config, Server, is_replica, save_config, save_config-config}
use shield_dns.Rules.{RuleRequest, handle_rule_add, handle_rule_remove, handle_toggle_filtering}
use shield_dns.Cluster.{ClusterConfigExport, applied}
use shield_dns.Cluster.Node.{
  Node, Answer, World, healthy, lost, link_of, replica_sync, is_linked, handle_sync, standalone,
  handle_leave,
}
use shield_dns.Cluster.Synced.{Hears, unchanged, updated, replica_sync-IsSync}

-- The link of a replica outlives each synchronisation: whatever the primary exports, the node stays a
-- replica of that primary, with its token and its type of instance.
link_of-applied :
    (ip_host : Text → Option Text) (now : ℕ) (e : ClusterConfigExport) (c : Config)
    → link_of (applied ip_host now e (link_of c) c) ≡ link_of c
unfolding link_of applied
link_of-applied ip_host now e c = refl

-- How the handler of a manual synchronisation ends.
pub data SyncEnds (w : World) (ask : Text → Text → Text → Answer) (n : Node) (out : Node × ℕ)
    : Type 0 where
  not_linked : is_linked n.server.config ≡ false → out ≡ (n, 400) → SyncEnds w ask n out
  synced :
      (e : ClusterConfigExport)
      → is_linked n.server.config ≡ true
      → Hears w ask n.server.config (some e)
      → out.0.server.config ≡ applied w.ip_host w.now e (link_of n.server.config) n.server.config
      → out.0.server.saved ≡ some out.0.server.config
      → out.0.connection_lost ≡ false
      → out.0.sync_failed ≡ false
      → out.1 ≡ 200
      → SyncEnds w ask n out
  cached :
      is_linked n.server.config ≡ true
      → Hears w ask n.server.config none
      → out ≡ (record n { connection_lost = true; sync_failed = true }, 502)
      → SyncEnds w ask n out
  unsaved :
      (e : ClusterConfigExport)
      → is_linked n.server.config ≡ true
      → Hears w ask n.server.config (some e)
      → out.0.server.config ≡ applied w.ip_host w.now e (link_of n.server.config) n.server.config
      → out.0.server.saved ≡ n.server.saved
      → out.0.connection_lost ≡ true
      → out.0.sync_failed ≡ true
      → out.1 ≡ 502
      → SyncEnds w ask n out

-- A manual synchronisation ends in one of four ways: 400 on a node that is no replica, which is left as it
-- was; 200, where the primary answered with an export, which is applied and saved, with the connection good;
-- 502, where it did not, with the configuration as it was and the connection marked as lost; or 502, where
-- the export was applied in memory but not saved, with the connection marked as lost too.
pub handle_sync-SyncEnds :
    (w : World) (ask : Text → Text → Text → Answer) (n : Node)
    → SyncEnds w ask n (handle_sync w ask n)
unfolding handle_sync healthy lost
handle_sync-SyncEnds w ask n = elim (Bool-cases (is_linked n.server.config)) [
  | inr other ↦ rw other (not_linked other refl)
  | inl linked ↦ elim (replica_sync-IsSync w ask n.server) [
    | unchanged heard same failed ↦ rw (linked, failed, same) (cached linked heard refl)
    | updated e heard same kept left ↦
        elim (Bool-cases (replica_sync w ask (link_of n.server.config) n.server).1) [
          | inl done ↦ rw (linked, done) (synced e linked heard same (kept done) refl refl refl)
          | inr failed ↦
              rw (linked, failed) (unsaved e linked heard same (left failed) refl refl refl)
        ]
  ]
]

-- The states of a node under synchronisations, whatever they are answered, and requests to change a rule.
pub data Follows (n : Node) : Node → Type 0 where
  start : Follows n n
  syncs :
      {m : Node} (w : World) (ask : Text → Text → Text → Answer)
      → Follows n m
      → Follows n (handle_sync w ask m).0
  requests :
      {m : Node} (parse_ip : Text → Bool) (disk_ok is_post : Bool)
      (add_body remove_body : Option RuleRequest) (toggle_body : Option Bool)
      → Follows n m
      → Follows n (record m {
        server =
            (handle_toggle_filtering disk_ok is_post toggle_body
              (handle_rule_remove disk_ok is_post remove_body
                (handle_rule_add parse_ip disk_ok is_post add_body m.server).0).0).0;
      })

is_linked-applied :
    (ip_host : Text → Option Text) (now : ℕ) (e : ClusterConfigExport) (c : Config)
    → is_linked c ≡ true
    → is_linked (applied ip_host now e (link_of c) c) ≡ true
unfolding is_linked link_of applied is_replica
is_linked-applied ip_host now e c h = rw (text_eq_refl (lit "replica")) (ground (arith, h))

handle_sync-link :
    (w : World) (ask : Text → Text → Text → Answer) (n : Node)
    → is_linked n.server.config ≡ true
    → (link_of (handle_sync w ask n).0.server.config ≡ link_of n.server.config)
      × (is_linked (handle_sync w ask n).0.server.config ≡ true)
handle_sync-link w ask n linked = elim (handle_sync-SyncEnds w ask n) [
  | not_linked other same ↦ cc (linked, other)
  | synced e _ _ same _ _ _ _ ↦ rw same (
    link_of-applied w.ip_host w.now e n.server.config,
    is_linked-applied w.ip_host w.now e n.server.config linked,
  )
  | cached _ _ same ↦ rw same (refl, linked)
  | unsaved e _ _ same _ _ _ _ ↦ rw same (
    link_of-applied w.ip_host w.now e n.server.config,
    is_linked-applied w.ip_host w.now e n.server.config linked,
  )
]

is_replica-linked : (c : Config) → is_linked c ≡ true → is_replica c ≡ true
unfolding is_linked
is_replica-linked c h = ground (arith, h)

-- A replica stays the replica of its primary under any sequence of synchronisations, whatever they are
-- answered, and of requests to change a rule: the primary's URL, the token, the type of the instance and
-- the failover mode are never changed by what the primary exports.
pub Follows-link_of :
    (n m : Node)
    → Follows n m
    → is_linked n.server.config ≡ true
    → (link_of m.server.config ≡ link_of n.server.config) × (is_linked m.server.config ≡ true)
Follows-link_of n _ start linked = (refl, linked)
Follows-link_of n _ (syncs {m} w ask path) linked =
    let (same, still) = Follows-link_of n m path linked in
    let (same', still') = handle_sync-link w ask m still in (same' ∙ same, still')
Follows-link_of n _ (requests {m} parse_ip disk_ok is_post add_body remove_body toggle_body path)
      linked =
    let (same, still) = Follows-link_of n m path linked in
    let (by_add, by_remove, by_toggle) =
      replica_unchanged parse_ip disk_ok is_post add_body remove_body toggle_body m.server
        (is_replica-linked m.server.config still) in
    rw (by_add, by_remove, by_toggle) (same, still)

handle_leave-config :
    (disk_ok : Bool) (n : Node)
    → (handle_leave disk_ok n).0.server.config ≡ standalone n.server.config
unfolding handle_leave healthy
handle_leave-config disk_ok n =
    let s' : Server = record n.server { config = standalone n.server.config } in
    let same = save_config-config disk_ok s' in
    elim (Bool-cases (save_config disk_ok s').1) [
      | inl done ↦ rw done same
      | inr failed ↦ rw failed same
    ]

is_linked-standalone : (c : Config) → is_linked (standalone c) ≡ false
unfolding is_linked is_replica standalone lit text_eq
is_linked-standalone c = refl

handle_sync-not_linked :
    (w : World) (ask : Text → Text → Text → Answer) (n : Node)
    → is_linked n.server.config ≡ false
    → handle_sync w ask n ≡ (n, 400)
unfolding handle_sync
handle_sync-not_linked w ask n other = rw other refl

-- A node that leaves the cluster is no replica any more, and keeps the rest of its configuration, whether
-- or not it can be saved; a synchronisation afterwards is refused with 400 and changes nothing.
pub handle_leave-alone :
    (disk_ok : Bool) (w : World) (ask : Text → Text → Text → Answer) (n : Node)
    → ((handle_leave disk_ok n).0.server.config ≡ record n.server.config {
      cluster_role = lit "standalone";
      cluster_primary_url = [];
      cluster_primary_token = [];
      cluster_failover_mode = false;
    })
      × (handle_sync w ask (handle_leave disk_ok n).0 ≡ ((handle_leave disk_ok n).0, 400))
unfolding standalone
handle_leave-alone disk_ok w ask n = (
  handle_leave-config disk_ok n,
  handle_sync-not_linked w ask (handle_leave disk_ok n).0
      (ap is_linked (handle_leave-config disk_ok n) ∙ is_linked-standalone n.server.config),
)
