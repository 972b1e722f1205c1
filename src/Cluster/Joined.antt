-- ===== src/Cluster/Joined.antt =====
-- A replica and its primary together: `handleClusterJoin` on the one calls
-- `handleClusterRegisterReplica` on the other, admin/api_cluster.go.
use shield_dns.Prelude.{
  ℕ, ◌≡◌, ◌≤◌, refl, ap, ◌∙◌, arith, ◌==◌, true, false, ◌||◌, [], none, some, Bool-cases,
  Option-cases, inl, inr,
}
use shield_dns.Text.{Text, lit, text_eq, is_empty, trim_space, trim_right}
use shield_dns.Server.{Reply, refused, served, Config, Server, save_config, save_config-config}
use shield_dns.Auth.{Request, Clock}
use shield_dns.Cluster.{ClusterConfigExport, Link, build_export, sent, apply_export}
use shield_dns.Cluster.Primary.{
  RegisterRequest, is_instance_type, normal_type, replica_token, primary_url, may_register,
  registered, registered_id, handle_register,
}
use shield_dns.Cluster.Node.{
  Node, Answer, status, exported, JoinRequest, World, with_scheme, join_url, endpoint, healthy,
  joined, join_link, join_body, handle_join,
}
use shield_dns.Cluster.Mirror.{Mirrors, apply_export-Mirrors}

-- The request that a node sends with its token.
abbrev pub token_request : Text → Request
token_request token = record {
  method = [];
  path = [];
  x_api_key = token;
  authorization = [];
  query_token = [];
  x_shield_request = lit "true";
  cookie = none;
  user_agent = [];
  x_real_ip = [];
  x_forwarded_for = [];
  remote_addr = [];
  x_ingress_path = [];
  x_hassio_key = [];
  x_supervisor_token = [];
}

abbrev pub registration : Reply (Text × ClusterConfigExport) → Answer
registration (refused code) = status code
registration (served (id, e)) = exported (sent e)

-- The primary `p` as a replica meets it.
abbrev pub registers_at : Clock → Text → Text → Server → Text → Text → RegisterRequest → Answer
registers_at cw id host p target token body =
    registration (handle_register cw id host (token_request token) (some body) p).1

normal_type_idempotent : (t : Text) → normal_type (normal_type t) ≡ normal_type t
unfolding normal_type
normal_type_idempotent t = elim (Bool-cases (is_instance_type t)) [
  | inl e ↦ rw (e, e) refl
  | inr e ↦ rw e (unfold is_instance_type lit text_eq in refl)
]

replica_token-token_request :
    (token : Text) → is_empty token ≡ false → replica_token (token_request token) ≡ token
unfolding replica_token
replica_token-token_request token given = rw given refl

-- How a registration ends: refused with an error, or served with the export of the new configuration.
pub data IsRegistration (w : Clock) (id host : Text) (r : Request) (req : RegisterRequest)
    (s : Server) (out : Server × Reply (Text × ClusterConfigExport)) : Type 0 where
  turned_away :
      (code : ℕ) → 400 ≤ code → out.1 ≡ refused code → IsRegistration w id host r req s out
  accepted :
      (c : Config)
      → c ≡ registered w.now id (w.hash (replica_token r)) req s.config
      → is_empty (replica_token r) ≡ false
      → may_register (w.hash (replica_token r)) s.config ≡ true
      → out.0.config ≡ c
      → out.1
        ≡ served (
          registered_id id (w.hash (replica_token r)) s.config,
          build_export w.now (normal_type req.instance_type) (primary_url host c) c,
        )
      → IsRegistration w id host r req s out

pub handle_register-IsRegistration :
    (w : Clock) (id host : Text) (r : Request) (req : RegisterRequest) (s : Server)
    → IsRegistration w id host r req s (handle_register w id host r (some req) s)
unfolding handle_register
handle_register-IsRegistration w id host r req s =
    let c = registered w.now id (w.hash (replica_token r)) req s.config in
    let full = record s { config = c } in
    elim (Bool-cases (is_empty (replica_token r))) [
      | inl bare ↦ rw bare (turned_away 401 (omega arith) refl)
      | inr given ↦ elim (Bool-cases (may_register (w.hash (replica_token r)) s.config)) [
        | inr no_key ↦ rw (given, no_key) (turned_away 403 (omega arith) refl)
        | inl key ↦ elim (Bool-cases (save_config w.disk_ok full).1) [
          | inl done ↦
              let same = save_config-config w.disk_ok full in
              rw (given, key, done) (accepted c refl given key same refl)
          | inr failed ↦ rw (given, key, failed) (turned_away 500 (omega arith) refl)
        ]
      ]
    ]

joined-Mirrors :
    (w : World) (now : ℕ) (url : Text) (p : Config) (link : Link) (n : Node)
    → (joined w link (exported (sent (build_export now link.instance_type url p))) n).1 ≡ 200
    → Mirrors w.ip_host link.instance_type link p n.server.config
        (joined w link
          (exported (sent (build_export now link.instance_type url p)))
          n).0.server.config
unfolding joined healthy
joined-Mirrors w now url p link n ok =
    let e = sent (build_export now link.instance_type url p) in
    let mirrors =
      apply_export-Mirrors w.ip_host w.now now w.disk_ok link.instance_type url link p n.server in
    elim (Bool-cases (apply_export w.ip_host w.now w.disk_ok e link n.server).1) [
      | inl done ↦ rw done mirrors
      | inr failed ↦ rw failed mirrors
    ]

-- The link that a request to join asks for.
abbrev pub asked_link : JoinRequest → Link
asked_link req = record {
  url = with_scheme (trim_right (λ c. c == b'/') (trim_space req.primary_url));
  token = req.api_token;
  instance_type = normal_type req.instance_type;
  failover = req.failover_mode;
}

abbrev config_of : Node × ℕ → Config
config_of out = out.0.server.config

registered_join :
    (w : World) (cw : Clock) (id host target : Text) (p : Server) (req : JoinRequest)
    (body : RegisterRequest) (n : Node)
    → body.instance_type ≡ normal_type req.instance_type
    → is_empty req.api_token ≡ false
    → (joined w (join_link req) (registers_at cw id host p target req.api_token body) n).1 ≡ 200
    → (may_register (cw.hash req.api_token) p.config ≡ true)
      × Mirrors w.ip_host
          (normal_type req.instance_type)
          (asked_link req)
          p.config
          n.server.config
          (config_of
            (joined w (join_link req) (registers_at cw id host p target req.api_token body) n))
unfolding join_link join_url registered joined build_export
registered_join w cw id host target p req body n typed given ok =
    elim (handle_register-IsRegistration cw id host (token_request req.api_token) body p) [
      | turned_away code big at ↦ absurd (omega (arith, big, rw at at ok))
      | accepted c same _ may _ at ↦
          let type : normal_type body.instance_type ≡ normal_type req.instance_type =
            ap normal_type typed ∙ normal_type_idempotent req.instance_type in
          (
            rw (replica_token-token_request req.api_token given) at may,
            rw (at, type, same)
                (joined-Mirrors w cw.now _ _ (join_link req) n (rw (at, type, same) at ok)),
          )
    ]

-- A node that joins with answer 200 mirrors its primary: the primary held the key of the token with the
-- permission `cluster:sync`. Every field of the node's configuration but the time of the synchronisation is
-- the primary's, in failover mode with the primary's own address before its upstreams; or fixed by the type
-- of the instance; or part of the link to the primary; or the node's own, as it was. Where a list, a map or a
-- text that may be absent is empty on the primary, the node keeps its old one.
pub handle_join-Mirrors :
    (w : World) (cw : Clock) (id host : Text) (p : Server) (req : JoinRequest) (n : Node)
    → (handle_join w (registers_at cw id host p) (some req) n).1 ≡ 200
    → (may_register (cw.hash req.api_token) p.config ≡ true)
      × Mirrors w.ip_host
          (normal_type req.instance_type)
          (asked_link req)
          p.config
          n.server.config
          (handle_join w (registers_at cw id host p) (some req) n).0.server.config
unfolding handle_join
handle_join-Mirrors w cw id host p req n ok =
    elim (Bool-cases (is_empty (join_url req) || is_empty req.api_token)) [
      | inl bad ↦ absurd (omega (arith, rw bad at ok))
      | inr good ↦
          elim (Option-cases
            (endpoint w.lib (lit "/api/cluster/replicas/register") (with_scheme (join_url req)))) [
              | inl unsafe ↦ absurd (omega (arith, rw (good, unsafe) at ok))
              | inr (target, safe) ↦
                  let given : is_empty req.api_token ≡ false = ground (arith, good) in
                  rw (good, safe)
                    (registered_join w cw id host target p req (join_body req n.server.config) n
                      (unfold join_body in refl) given (rw (good, safe) at ok))
            ]
    ]
