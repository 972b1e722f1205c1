-- ===== src/Cluster/Node.antt =====
-- admin/api_cluster.go: the handlers of a replica. admin/api_cluster_sync.go: `performReplicaSync`.
-- admin/api_security.go: `isValidRedirectUrl`, `isSafeClusterTarget`, `sanitizeRedirect`.
-- The packages `net/url` and `net` are the record `UrlLib`, and the answer of the primary is
-- given as a function of what it is asked.
use shield_dns.Prelude.{
  ℕ, Bool, true, false, ◌&&◌, ◌||◌, not, [], ◌++◌, Option, none, some, if◌then◌else◌, ltb, length,
  ◌==◌,
}
use shield_dns.Text.{Text, lit, text_eq, is_empty, trim_space, trim_right, has_prefix, to_lower}
use shield_dns.Domain.{is_valid_domain}
use shield_dns.Server.{Config, Server, save_config, is_replica}
use shield_dns.Cluster.{ClusterConfigExport, Link, apply_export}
use shield_dns.Cluster.OutboundUrl.{is_outbound_url}
use shield_dns.Cluster.Primary.{RegisterRequest, is_instance_type, normal_type}

pub record Url : Type 0 where
  pub scheme : Text
  pub host : Text
  pub hostname : Text  -- `Hostname`: the host without its port
  pub rest : Text  -- what follows the host

pub record UrlLib : Type 0 where
  pub parse : Text → Option Url  -- `url.Parse`
  pub print : Url → Text  -- `String`
  pub parse_ip : Text → Bool  -- `net.ParseIP` returns an address
  pub is_link_local : Text → Bool  -- of an address: 169.254.169.254, or `IsLinkLocalUnicast`

unfoldable pub is_web : Url → Bool
is_web u = text_eq u.scheme (lit "http") || text_eq u.scheme (lit "https")

-- `isValidRedirectUrl`
unfoldable pub is_valid_redirect_url : UrlLib → Text → Bool
is_valid_redirect_url lib raw =
    if is_empty raw || ltb 2048 (length raw) || not (is_outbound_url raw)
    then false
    else elim (lib.parse raw) [
      | none ↦ false
      | some u ↦
          is_web u
          && is_valid_domain lib.parse_ip u.hostname
          && not (lib.parse_ip u.hostname && lib.is_link_local u.hostname)
    ]

-- `sanitizeRedirect`; its second test of the first two bytes repeats what the prefixes rule out.
unfoldable pub sanitize_redirect : UrlLib → Text → Text
sanitize_redirect lib target =
    let t = trim_space target in
    if is_empty t
    then lit "/admin/"
    else if has_prefix (lit "//") t || has_prefix (lit "/\\") t || has_prefix (lit "\\") t
    then lit "/admin/"
    else if has_prefix (lit "/") t
    then t
    else if is_valid_redirect_url lib t
    then t
    else lit "/admin/"

-- A node: the server, with `clusterConnLost` and `clusterLastSyncError`, by whether it is set.
pub record Node : Type 0 where
  pub server : Server
  pub connection_lost : Bool
  pub sync_failed : Bool

-- What the primary answers: nothing, a status other than 200, a body that does not decode, or an export.
pub data Answer : Type 0 where
  unreachable : Answer
  status : ℕ → Answer
  garbled : Answer
  exported : ClusterConfigExport → Answer

pub record JoinRequest : Type 0 where
  pub primary_url : Text
  pub api_token : Text
  pub name : Text
  pub instance_type : Text
  pub failover_mode : Bool

-- What a node is told of the world.
pub record World : Type 0 where
  pub now : ℕ
  pub disk_ok : Bool
  pub lib : UrlLib
  pub ip_host : Text → Option Text

unfoldable pub with_scheme : Text → Text
with_scheme u =
    if has_prefix (lit "http://") u || has_prefix (lit "https://") u then u else lit "https://" ++ u

unfoldable pub join_url : JoinRequest → Text
join_url req = trim_right (λ c. c == b'/') (trim_space req.primary_url)

unfoldable pub join_name : JoinRequest → Config → Text
join_name req c =
    if not (is_empty (trim_space req.name))
    then trim_space req.name
    else if not (is_empty (trim_space c.cluster_node_name))
    then trim_space c.cluster_node_name
    else lit "ShieldDNS Secondary Node"

-- The URL of the primary's handler, where the primary's URL passes every check.
unfoldable pub endpoint : UrlLib → Text → Text → Option Text
endpoint lib path url =
    if is_valid_redirect_url lib url
    then elim (lib.parse url) [
      | none ↦ none
      | some u ↦
          let target = lib.print (record u { rest = path }) in
          if is_web u
            && not (is_empty u.hostname)
            && is_valid_redirect_url lib (lib.print u)
            && is_valid_redirect_url lib target
          then some target
          else none
    ]
    else none

unfoldable pub healthy : Node → Node
healthy n = record n { connection_lost = false; sync_failed = false }

unfoldable pub lost : Node → Node
lost n = record n { connection_lost = true; sync_failed = true }

-- The end of `handleClusterJoin`, by the answer of the primary.
unfoldable pub joined : World → Link → Answer → Node → Node × ℕ
joined w link unreachable n = (n, 502)
joined w link (status code) n = (n, code)
joined w link garbled n = (n, 500)
joined w link (exported e) n =
    let (s, done) = apply_export w.ip_host w.now w.disk_ok e link n.server in
    let n' : Node = record n { server = s } in if done then (healthy n', 200) else (n', 500)

unfoldable pub join_link : JoinRequest → Link
join_link req = record {
  url = with_scheme (join_url req);
  token = req.api_token;
  instance_type = normal_type req.instance_type;
  failover = req.failover_mode;
}

unfoldable pub join_body : JoinRequest → Config → RegisterRequest
join_body req c = record {
  name = join_name req c;
  url = [];
  instance_type = normal_type req.instance_type;
  failover_mode = req.failover_mode;
}

-- `handleClusterJoin` on POST. `ask` is the primary: the URL, the token and the body that it is sent.
unfoldable pub handle_join :
    World → (Text → Text → RegisterRequest → Answer) → Option JoinRequest → Node → Node × ℕ
handle_join w ask none n = (n, 400)
handle_join w ask (some req) n =
    if is_empty (join_url req) || is_empty req.api_token
    then (n, 400)
    else elim (endpoint w.lib (lit "/api/cluster/replicas/register") (with_scheme (join_url req))) [
      | none ↦ (n, 400)
      | some target ↦
          joined w (join_link req) (ask target req.api_token (join_body req n.server.config)) n
    ]

unfoldable pub link_of : Config → Link
link_of c = record {
  url = c.cluster_primary_url;
  token = c.cluster_primary_token;
  instance_type = c.cluster_instance_type;
  failover = c.cluster_failover_mode;
}

-- `performReplicaSync`; the result is whether it returned no error. Its end, by the answer:
unfoldable pub answered : World → Link → Server → Answer → Server × Bool
answered w link s unreachable = (s, false)
answered w link s (status code) = (s, false)
answered w link s garbled = (s, false)
answered w link s (exported e) = apply_export w.ip_host w.now w.disk_ok e link s

unfoldable pub asked :
    World → (Text → Text → Text → Answer) → Link → Server → Option Text → Server × Bool
asked w ask link s none = (s, false)
asked w ask link s (some target) =
    answered w link s (ask target link.token (trim_space s.config.cluster_node_name))

unfoldable pub replica_sync : World → (Text → Text → Text → Answer) → Link → Server → Server × Bool
replica_sync w ask link s =
    asked w ask link s (endpoint w.lib (lit "/api/cluster/replicas/sync") link.url)

unfoldable pub is_linked : Config → Bool
is_linked c =
    is_replica c && not (is_empty c.cluster_primary_url) && not (is_empty c.cluster_primary_token)

-- `handleClusterSync` on POST.
unfoldable pub handle_sync : World → (Text → Text → Text → Answer) → Node → Node × ℕ
handle_sync w ask n =
    let (s, done) = replica_sync w ask (link_of n.server.config) n.server in
    let n' : Node = record n { server = s } in
    if not (is_linked n.server.config)
    then (n, 400)
    else if done
    then (healthy n', 200)
    else (lost n', 502)

unfoldable pub standalone : Config → Config
standalone c = record c {
  cluster_role = lit "standalone";
  cluster_primary_url = [];
  cluster_primary_token = [];
  cluster_failover_mode = false;
}

-- `handleClusterLeave` on POST.
unfoldable pub handle_leave : Bool → Node → Node × ℕ
handle_leave disk_ok n =
    let (s, done) = save_config disk_ok (record n.server { config = standalone n.server.config }) in
    let n' : Node = record n { server = s } in if done then (healthy n', 200) else (n', 500)

-- A pointer that may be nil is an `Option`; an interval is not negative.
pub record SettingsRequest : Type 0 where
  pub role : Text
  pub instance_type : Text
  pub node_name : Text
  pub log_sharing_mode : Text
  pub worker_domain : Option Text
  pub failover_mode : Option Bool
  pub sync_interval : Option ℕ

unfoldable pub is_sharing_mode : Text → Bool
is_sharing_mode m =
    text_eq m (lit "local_only") || text_eq m (lit "push_to_primary") || text_eq m (lit "full_sync")

unfoldable pub settled : SettingsRequest → Config → Config
settled req c = record c {
  cluster_role = if is_empty req.role then c.cluster_role else req.role;
  cluster_instance_type =
      if is_instance_type req.instance_type then req.instance_type else c.cluster_instance_type;
  cluster_node_name =
      if is_empty req.node_name then c.cluster_node_name else trim_space req.node_name;
  cluster_worker_domain = elim req.worker_domain [
    | none ↦ c.cluster_worker_domain
    | some d ↦ trim_space (to_lower d)
  ];
  cluster_log_sharing_mode =
      if is_sharing_mode req.log_sharing_mode
      then req.log_sharing_mode
      else c.cluster_log_sharing_mode;
  cluster_failover_mode = elim req.failover_mode [ none ↦ c.cluster_failover_mode | some f ↦ f ];
  cluster_sync_interval = elim req.sync_interval [ none ↦ c.cluster_sync_interval | some i ↦ i ];
}

-- `handleClusterUpdateSettings` on POST; the synchronisation that it starts in the background comes
-- afterwards.
unfoldable pub handle_settings :
    World → (Text → Text → Text → Answer) → Option SettingsRequest → Server → Server × ℕ
handle_settings w ask none s = (s, 400)
handle_settings w ask (some req) s =
    let (s', done) = save_config w.disk_ok (record s { config = settled req s.config }) in
    let later = (replica_sync w ask (link_of s'.config) s').0 in
    if not done then (s', 500) else (if is_linked s'.config then later else s', 200)
