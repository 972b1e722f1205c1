-- ===== src/Cluster/Primary.antt =====
-- admin/api_cluster.go: the handlers that a primary answers its replicas and its administrator with.
-- admin/api_cluster_sync.go: `handleClusterIngestLogs`, up to the call of `flushLogs`.
-- A body that is no JSON is `none`. The time and the ID of a new replica are given.
use shield_dns.Prelude.{
  ℕ, Bool, false, ◌&&◌, ◌||◌, not, List, [], ◌∷◌, ◌++◌, keep, any, map, Option, none, some,
  if◌then◌else◌,
}
use shield_dns.Text.{Text, lit, text_eq, is_empty, trim_space, has_prefix, trim_prefix}
use shield_dns.Server.{Reply, refused, served, ApiKey, ClusterReplica, Config, Server, save_config}
use shield_dns.Auth.{Request, Clock, has_permission}
use shield_dns.Auth.Middleware.{find_key}
use shield_dns.Cluster.{ClusterConfigExport, build_export}

pub record RegisterRequest : Type 0 where
  pub name : Text
  pub url : Text
  pub instance_type : Text
  pub failover_mode : Bool

unfoldable pub is_instance_type : Text → Bool
is_instance_type t =
    text_eq t (lit "public") || text_eq t (lit "private") || text_eq t (lit "hybrid")

unfoldable pub normal_type : Text → Text
normal_type t = if is_instance_type t then t else lit "private"

-- The token of a replica: `X-API-Key`, or else a bearer token.
unfoldable pub replica_token : Request → Text
replica_token r =
    if not (is_empty r.x_api_key)
    then r.x_api_key
    else if has_prefix (lit "Bearer ") r.authorization
    then trim_prefix (lit "Bearer ") r.authorization
    else []

unfoldable pub find_replica : Text → List ClusterReplica → Option ClusterReplica
find_replica h [] = none
find_replica h (r ∷ rs) = if text_eq r.token_hash h then some r else find_replica h rs

-- The first replica with the token of `new` is replaced, and keeps its ID and its time of creation;
-- where there is none, `new` goes to the end.
unfoldable pub put_replica : ClusterReplica → List ClusterReplica → List ClusterReplica
put_replica new [] = new ∷ []
put_replica new (r ∷ rs) =
    let rest = put_replica new rs in
    if text_eq r.token_hash new.token_hash
    then record new { id = r.id; created_at = r.created_at } ∷ rs
    else r ∷ rest

unfoldable pub new_replica : ℕ → Text → Text → RegisterRequest → ClusterReplica
new_replica now id hash req = record {
  id = id;
  name = if is_empty req.name then lit "ShieldDNS Replica" else req.name;
  url = req.url;
  token_hash = hash;
  instance_type = normal_type req.instance_type;
  created_at = now;
  last_seen = now;
  last_sync = now;
}

unfoldable pub primary_url : Text → Config → Text
primary_url host c = lit "https://" ++ (if is_empty c.admin_domain then host else c.admin_domain)

unfoldable pub may_register : Text → Config → Bool
may_register h c = elim (find_key h c.api_keys) [
  | none ↦ false
  | some k ↦ has_permission k (lit "cluster:sync")
]

unfoldable pub registered : ℕ → Text → Text → RegisterRequest → Config → Config
registered now id h req c = record c {
  cluster_role = lit "primary";
  cluster_replicas = put_replica (new_replica now id h req) c.cluster_replicas;
}

-- The ID that the handler answers with.
abbrev pub id_or : Text → Option ClusterReplica → Text
id_or id none = id
id_or id (some r) = r.id

unfoldable pub registered_id : Text → Text → Config → Text
registered_id id h c = id_or id (find_replica h c.cluster_replicas)

-- `handleClusterRegisterReplica` on POST.
unfoldable pub handle_register :
    Clock
    → Text
    → Text
    → Request
    → Option RegisterRequest
    → Server
    → Server × Reply (Text × ClusterConfigExport)
handle_register w id host r none s = (s, refused 400)
handle_register w id host r (some req) s =
    let h = w.hash (replica_token r) in
    let c = registered w.now id h req s.config in
    let (s', done) = save_config w.disk_ok (record s { config = c }) in
    if is_empty (replica_token r)
    then (s, refused 401)
    else if not (may_register h s.config)
    then (s, refused 403)
    else if done
    then (
      s',
      served (
        registered_id id h s.config,
        build_export w.now (normal_type req.instance_type) (primary_url host c) c,
      ),
    )
    else (s', refused 500)

-- The loop of `handleClusterGetReplicaConfig`: the first replica with the token was seen now.
unfoldable pub touch_replica : ℕ → Text → Text → List ClusterReplica → List ClusterReplica
touch_replica now reported h [] = []
touch_replica now reported h (r ∷ rs) =
    let rest = touch_replica now reported h rs in
    if text_eq r.token_hash h
    then record r {
      last_seen = now;
      last_sync = now;
      name = if is_empty reported then r.name else reported;
    }
      ∷ rs
    else r ∷ rest

-- `handleClusterGetReplicaConfig`; `node_name` is the header `X-Cluster-Node-Name`.
unfoldable pub handle_get_config :
    Clock → Text → Request → Text → Server → Server × Reply ClusterConfigExport
handle_get_config w host r node_name s =
    if is_empty (replica_token r)
    then (s, refused 401)
    else elim (find_replica (w.hash (replica_token r)) s.config.cluster_replicas) [
      | none ↦ (s, refused 403)
      | some rep ↦
          let c : Config = record s.config {
            cluster_replicas =
                touch_replica w.now (trim_space node_name) (w.hash (replica_token r))
                  s.config.cluster_replicas;
          } in
          (
            (save_config w.disk_ok (record s { config = c })).0,
            served (build_export w.now rep.instance_type (primary_url host c) c),
          )
    ]

unfoldable pub without_replica : Text → Config → Config
without_replica id c = record c {
  cluster_replicas = keep (λ (r : ClusterReplica). not (text_eq r.id id)) c.cluster_replicas;
}

-- `handleClusterRevokeReplica` on POST or DELETE.
unfoldable pub handle_revoke : Bool → Text → Server → Server × ℕ
handle_revoke disk_ok id s =
    let (s', done) = save_config disk_ok (record s { config = without_replica id s.config }) in
    if is_empty id then (s, 400) else (s', if done then 200 else 500)

-- A query log entry, as far as nodes exchange it.
pub record LogEntry : Type 0 where
  pub id : ℕ
  pub domain : Text
  pub client_ip : Text
  pub node_name : Text

pub record LogBatch : Type 0 where
  pub node_name : Text
  pub queries : List LogEntry

unfoldable pub may_ingest : Text → Config → Bool
may_ingest h c =
    any (λ (r : ClusterReplica). text_eq r.token_hash h) c.cluster_replicas
    || any (λ (k : ApiKey). text_eq k.token_hash h && has_permission k (lit "cluster:sync"))
        c.api_keys

unfoldable pub named : Text → LogEntry → LogEntry
named node q = if is_empty q.node_name then record q { node_name = node } else q

-- `handleClusterIngestLogs` on POST: the entries that it hands to `flushLogs`.
unfoldable pub handle_ingest :
    (Text → Text) → Request → Option LogBatch → Server → Reply (List LogEntry)
handle_ingest hash r body s =
    if is_empty (replica_token r)
    then refused 401
    else if not (may_ingest (hash (replica_token r)) s.config)
    then refused 403
    else elim body [ none ↦ refused 400 | some b ↦ served (map (named b.node_name) b.queries) ]
