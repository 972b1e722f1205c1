-- ===== src/Routing.antt =====
-- admin/api_routing.go: `handleRoutingRules`; admin/dns_corefile.go: which rules `getRoutingBlocks` writes.
-- A request is given decoded; `net.ParseIP` and `net.ParseCIDR` are given by whether they succeed, and so
-- are the time and the fresh UUID. The file for CoreDNS and its restart are left out.
pub mod Kept
pub mod Undone
pub mod Tests
use shield_dns.Prelude.{
  ℕ, Bool, true, false, not, ◌&&◌, ◌||◌, List, [], ◌∷◌, ◌++◌, keep, any, Option, none, some,
  option_or, if◌then◌else◌, ◌==◌,
}
use shield_dns.Text.{
  Text, lit, text_eq, is_empty, trim_space, to_lower, equal_fold, contains, trim, trim_prefix,
}
use shield_dns.Domain.{normalize_domain, is_valid_domain}
use shield_dns.Server.{Reply, refused, served, RoutingRule, Config, Server, is_replica, save_config}

pub record Net : Type 0 where
  pub parse_ip : Text → Bool
  pub parse_cidr : Text → Bool

pub record RoutingRequest : Type 0 where
  pub id : Text
  pub name : Text
  pub match_text : Text
  pub match_type : Text
  pub target : Text
  pub host_target : Text
  pub wireguard_config : Text
  pub wireguard_gateway : Text
  pub enabled : Option Bool

-- The type of a match, where none is given: an address or a range, or else a domain.
unfoldable pub guessed_type : Net → Text → Text
guessed_type net m =
    if net.parse_ip m || contains (lit "/") m then lit "client_ip" else lit "domain"

unfoldable pub match_type : Net → RoutingRequest → Text
match_type net req =
    let t = to_lower (trim_space req.match_type) in
    if is_empty t then guessed_type net (trim_space req.match_text) else t

unfoldable pub target_kind : RoutingRequest → Text
target_kind req =
    let t = to_lower (trim_space req.target) in if is_empty t then lit "default" else t

unfoldable pub is_target : Text → Bool
is_target t = text_eq t (lit "default") || text_eq t (lit "host") || text_eq t (lit "wireguard")

-- An address, or a range of addresses where there is a slash.
unfoldable pub is_address : Net → Text → Bool
is_address net m = if contains (lit "/") m then net.parse_cidr m else net.parse_ip m

-- The match that is stored, or the status of the refusal.
unfoldable pub checked_match : Net → RoutingRequest → Reply Text
checked_match net req =
    let m = trim_space req.match_text in
    let d = normalize_domain m in
    if is_empty m
    then refused 422
    else if text_eq (match_type net req) (lit "domain")
    then (if is_empty d || not (is_valid_domain net.parse_ip d) then refused 400 else served d)
    else if text_eq (match_type net req) (lit "client_ip")
    then (if is_address net m then served m else refused 400)
    else refused 400

unfoldable pub lacks_host : RoutingRequest → Bool
lacks_host req = text_eq (target_kind req) (lit "host") && is_empty (trim_space req.host_target)

unfoldable pub made_rule : Net → ℕ → Text → Text → RoutingRequest → RoutingRule
made_rule net now fresh m req = record {
  id = if is_empty (trim_space req.id) then fresh else trim_space req.id;
  name = trim_space req.name;
  match_text = m;
  match_type = match_type net req;
  target = target_kind req;
  host_target = trim_space req.host_target;
  wireguard_config = trim_space req.wireguard_config;
  enabled = option_or req.enabled true;
  created_at = now;
}

unfoldable pub rule_at : Net → ℕ → Text → RoutingRequest → Reply Text → Reply RoutingRule
rule_at net now fresh req (refused code) = refused code
rule_at net now fresh req (served m) =
    if not (is_target (target_kind req)) || lacks_host req
    then refused 400
    else served (made_rule net now fresh m req)

unfoldable pub checked_rule : Net → ℕ → Text → RoutingRequest → Reply RoutingRule
checked_rule net now fresh req = rule_at net now fresh req (checked_match net req)

-- The first rule with the ID is replaced, and its time of creation kept; otherwise the rule is appended.
unfoldable pub put_rule : RoutingRule → List RoutingRule → List RoutingRule
put_rule new [] = new ∷ []
put_rule new (r ∷ rs) =
    let rest = put_rule new rs in
    if text_eq r.id new.id then record new { created_at = r.created_at } ∷ rs else r ∷ rest

-- The update of the gateway, which comes before the checks of the rule.
unfoldable pub with_gateway : Bool → Text → Server → Server
with_gateway disk_ok gateway s =
    if is_empty gateway
    then s
    else (save_config disk_ok
        (record s { config = record s.config { wireguard_gateway = trim_space gateway } })).0

unfoldable pub store_rule : Bool → Reply RoutingRule → Server → Server × ℕ
store_rule disk_ok (refused code) s = (s, code)
store_rule disk_ok (served rule) s =
    let (s', done) = save_config disk_ok (record s {
      config = record s.config { routing_rules = put_rule rule s.config.routing_rules };
    }) in
    (s', if done then 200 else 500)

-- `handleRoutingRules` on POST.
unfoldable pub handle_routing_post :
    Net → ℕ → Text → Bool → Option RoutingRequest → Server → Server × ℕ
handle_routing_post net now fresh disk_ok none s =
    if is_replica s.config then (s, 403) else (s, 400)
handle_routing_post net now fresh disk_ok (some req) s =
    if is_replica s.config
    then (s, 403)
    else store_rule disk_ok (checked_rule net now fresh req)
        (with_gateway disk_ok req.wireguard_gateway s)

unfoldable pub is_meant : Text → Text → RoutingRule → Bool
is_meant id m r =
    not (is_empty id) && text_eq r.id id || not (is_empty m) && equal_fold r.match_text m

-- `handleRoutingRules` on DELETE, with the query parameters `id` and `match`.
unfoldable pub handle_routing_delete : Bool → Text → Text → Server → Server × ℕ
handle_routing_delete disk_ok id m s =
    let rules = keep (λ r. not (is_meant id m r)) s.config.routing_rules in
    let (s', done) =
      save_config disk_ok (record s { config = record s.config { routing_rules = rules } }) in
    if is_replica s.config
    then (s, 403)
    else if is_empty id && is_empty m
    then (s, 400)
    else if any (is_meant id m) s.config.routing_rules
    then (s', if done then 200 else 500)
    else (s, 404)

-- The zone of a rule in the file for CoreDNS, and the host that its queries go to.
unfoldable pub routed_host : Config → RoutingRule → Text
routed_host c r =
    if text_eq r.target (lit "host")
    then trim_space r.host_target
    else if text_eq r.target (lit "wireguard")
    then (if is_empty (trim_space r.wireguard_config)
        then trim_space c.wireguard_gateway
        else trim_space r.wireguard_config)
    else []

unfoldable pub rule_zone : (Text → Bool) → Config → RoutingRule → Option (Text × Text)
rule_zone parse_ip c r =
    let m = trim_space r.match_text in
    if not r.enabled
      || text_eq r.match_type (lit "client_ip")
      || is_empty m
      || not (is_valid_domain parse_ip m)
      || is_empty (routed_host c r)
    then none
    else some (trim (lit ".") (trim_prefix (lit "*.") m), routed_host c r)
