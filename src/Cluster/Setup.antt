-- ===== src/Cluster/Setup.antt =====
-- admin/auth.go: `handleSetup`, the first request that a new node answers. `make_hash` is
-- `bcrypt.GenerateFromPassword`, of which `none` is an error.
use shield_dns.Prelude.{
  ℕ, ◌≡◌, refl, ap, ◌∙◌, Bool, true, false, not, ◌||◌, Option, none, some, if◌then◌else◌, ltb,
  length,
}
use shield_dns.Text.{Text, lit, text_eq, is_empty, trim_space}
use shield_dns.Server.{Config, save_config, save_config-config}
use shield_dns.Cluster.Primary.{RegisterRequest, normal_type}
use shield_dns.Cluster.Node.{Node, Answer, World, JoinRequest, handle_join}

pub record SetupRequest : Type 0 where
  pub mode : Text  -- "standalone", "primary", "replica"
  pub password : Text
  pub instance_type : Text
  pub primary_url : Text
  pub api_token : Text
  pub name : Text
  pub failover_mode : Bool

-- The type and the name of the node are taken over before the rest of the request is looked at.
unfoldable pub introduced : SetupRequest → Config → Config
introduced req c = record c {
  cluster_instance_type = normal_type req.instance_type;
  cluster_node_name =
      if is_empty (trim_space req.name) then c.cluster_node_name else trim_space req.name;
}

unfoldable pub replica_name : SetupRequest → Config → Text
replica_name req c =
    if not (is_empty (trim_space req.name))
    then trim_space req.name
    else if not (is_empty (trim_space c.cluster_node_name))
    then trim_space c.cluster_node_name
    else lit "Secondary Node"

unfoldable pub join_request_of : SetupRequest → Config → JoinRequest
join_request_of req c = record {
  primary_url = req.primary_url;
  api_token = req.api_token;
  name = replica_name req c;
  instance_type = normal_type req.instance_type;
  failover_mode = req.failover_mode;
}

unfoldable pub set_up : Text → SetupRequest → Config → Config
set_up hash req c = record c {
  admin_password_hashed = hash;
  setup_done = true;
  cluster_role = if text_eq req.mode (lit "primary") then lit "primary" else lit "standalone";
}

unfoldable pub with_config : Config → Node → Node
with_config c n = record n { server = record n.server { config = c } }

-- The save decides between 200 and 500; the password stays in memory.
unfoldable pub save_setup : Bool → Node → Node × ℕ
save_setup disk_ok n =
    let (s, done) = save_config disk_ok n.server in
    (record n { server = s }, if done then 200 else 500)

unfoldable pub finish_setup : Bool → Option Text → SetupRequest → Node → Node × ℕ
finish_setup disk_ok none req n = (n, 500)
finish_setup disk_ok (some hash) req n =
    save_setup disk_ok (with_config (set_up hash req n.server.config) n)

unfoldable pub setup_node :
    World
    → (Text → Option Text)
    → (Text → Text → RegisterRequest → Answer)
    → SetupRequest
    → Node
    → Node × ℕ
setup_node w make_hash ask req n =
    let c = introduced req n.server.config in
    let n' = with_config c n in
    if text_eq req.mode (lit "replica")
    then (if is_empty req.primary_url || is_empty req.api_token
        then (n', 400)
        else handle_join w ask (some (join_request_of req c)) n')
    else if ltb (length req.password) 12
    then (n', 400)
    else finish_setup w.disk_ok (make_hash req.password) req n'

-- `handleSetup`
unfoldable pub handle_setup :
    World
    → (Text → Option Text)
    → (Text → Text → RegisterRequest → Answer)
    → Option SetupRequest
    → Node
    → Node × ℕ
handle_setup w make_hash ask body n =
    if not (is_empty n.server.config.admin_password_hashed)
    then (n, 409)
    else elim body [ none ↦ (n, 400) | some req ↦ setup_node w make_hash ask req n ]

save_setup-hash :
    (disk_ok : Bool) (n : Node)
    → (save_setup disk_ok n).0.server.config.admin_password_hashed
      ≡ n.server.config.admin_password_hashed
unfolding save_setup
save_setup-hash disk_ok n = ap (λ c. c.admin_password_hashed) (save_config-config disk_ok n.server)

setup_refused :
    (w : World) (make_hash : Text → Option Text) (ask : Text → Text → RegisterRequest → Answer)
    (body : Option SetupRequest) (n : Node)
    → is_empty n.server.config.admin_password_hashed ≡ false
    → handle_setup w make_hash ask body n ≡ (n, 409)
unfolding handle_setup
setup_refused w make_hash ask body n real = rw (handle_setup, real) refl

setup_writes :
    (w : World) (make_hash : Text → Option Text) (ask : Text → Text → RegisterRequest → Answer)
    (req : SetupRequest) (n : Node) (hash : Text)
    → text_eq req.mode (lit "replica") ≡ false
    → ltb (length req.password) 12 ≡ false
    → make_hash req.password ≡ some hash
    → (setup_node w make_hash ask req n).0.server.config.admin_password_hashed ≡ hash
unfolding setup_node finish_setup set_up with_config
setup_writes w make_hash ask req n hash alone long hashed =
    let n' = with_config (introduced req n.server.config) n in
    rw (setup_node, alone, long, hashed, finish_setup)
      (save_setup-hash w.disk_ok (with_config (set_up hash req n'.server.config) n'))

setup_starts :
    (w : World) (make_hash : Text → Option Text) (ask : Text → Text → RegisterRequest → Answer)
    (req : SetupRequest) (n : Node)
    → is_empty n.server.config.admin_password_hashed ≡ true
    → handle_setup w make_hash ask (some req) n ≡ setup_node w make_hash ask req n
unfolding handle_setup
setup_starts w make_hash ask req n fresh = rw (handle_setup, fresh) refl

-- When a setup of a node without a password, in a mode other than "replica" and with a password of twelve
-- bytes or more, has come as far as the hash of the password, and the hash is not empty, each later setup is
-- refused with 409 and changes nothing, whether or not the first was saved.
pub handle_setup_twice :
    (w w' : World) (make_hash make_hash' : Text → Option Text)
    (ask ask' : Text → Text → RegisterRequest → Answer) (req : SetupRequest)
    (body : Option SetupRequest) (n : Node) (hash : Text)
    → is_empty n.server.config.admin_password_hashed ≡ true
    → text_eq req.mode (lit "replica") ≡ false
    → ltb (length req.password) 12 ≡ false
    → make_hash req.password ≡ some hash
    → is_empty hash ≡ false
    → handle_setup w' make_hash' ask' body (handle_setup w make_hash ask (some req) n).0
      ≡ ((handle_setup w make_hash ask (some req) n).0, 409)
handle_setup_twice w w' make_hash make_hash' ask ask' req body n hash fresh alone long hashed real =
    let starts = setup_starts w make_hash ask req n fresh in
    let written =
      ap (λ r. r.0.server.config.admin_password_hashed) starts
      ∙ setup_writes w make_hash ask req n hash alone long hashed in
    setup_refused w' make_hash' ask' body (handle_setup w make_hash ask (some req) n).0
      (ap is_empty written ∙ real)
