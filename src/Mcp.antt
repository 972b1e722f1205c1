-- ===== src/Mcp.antt =====
-- admin/api_mcp_tools_rules.go, admin/api_mcp_tools_filtering.go, admin/api_mcp_tools_cluster.go: the tools
-- of the assistant interface that change the configuration. admin/api_mcp.go: who may call them.
-- An argument that is missing or of another type is the empty text or `none`. The time is given.
pub mod Call
pub mod Allowed
pub mod Kept
pub mod Tests
use shield_dns.Prelude.{
  ℕ, Bool, true, false, not, ◌&&◌, ◌||◌, List, [], ◌∷◌, ◌++◌, keep, any, Option, none, some,
  option_or, if◌then◌else◌, ◌==◌,
}
use shield_dns.Text.{Text, lit, text_eq, is_empty, trim_space, equal_fold, contains}
use shield_dns.Table.{insert, delete, add}
use shield_dns.Domain.{normalize_domain, is_valid_domain}
use shield_dns.Adblock.{parse_adblock_rule}
use shield_dns.Server.{
  ListSource, RoutingRule, BlockedClientInfo, ApiKey, Config, Server, save_config,
}
use shield_dns.Rules.{Target, remove_text, same_client_rule, with_client_rule, reload_rules_fast}
use shield_dns.Routing.{Net, guessed_type}
use shield_dns.Cluster.Primary.{is_instance_type}
use shield_dns.Cluster.Node.{is_sharing_mode}

pub record RoutingArgs : Type 0 where
  pub name : Text
  pub match_text : Text
  pub match_type : Text
  pub target : Text
  pub host_target : Text
  pub wireguard_config : Text
  pub enabled : Option Bool

pub record ListArgs : Type 0 where
  pub action : Text
  pub list_type : Text
  pub name : Text
  pub url : Text
  pub enabled : Option Bool
  pub category : Text

pub record RuleArgs : Type 0 where
  pub kind : Text  -- "blocked" or "allowed"
  pub domain : Text
  pub client_ip : Text

pub record SettingsArgs : Type 0 where
  pub role : Text
  pub instance_type : Text
  pub node_name : Option Text
  pub log_sharing_mode : Text
  pub failover_mode : Option Bool
  pub sync_interval : Option ℕ

-- The tools, by the names under which they are called.
pub data ToolCall : Type 0 where
  set_routing_rule : RoutingArgs → ToolCall
  delete_routing_rule : Text → ToolCall
  toggle_global_filtering : Option Bool → ToolCall
  manage_filter_lists : ListArgs → ToolCall
  block_client_ip : Text → Option Bool → Text → ToolCall
  set_client_alias : Text → Text → ToolCall
  add_custom_rule : RuleArgs → ToolCall
  remove_custom_rule : RuleArgs → ToolCall
  set_custom_mapping : Text → Text → ToolCall
  remove_custom_mapping : Text → ToolCall
  update_cluster_settings : SettingsArgs → ToolCall

unfoldable pub required_perm : ToolCall → Text
required_perm (manage_filter_lists args) = lit "write:config"
required_perm (update_cluster_settings args) = lit "write:config"
required_perm call = lit "write:rules"

-- What a tool makes of the configuration; `none` is an error, and nothing is changed.
unfoldable pub put_by_match : RoutingRule → List RoutingRule → List RoutingRule
put_by_match new [] = new ∷ []
put_by_match new (r ∷ rs) =
    let rest = put_by_match new rs in
    if equal_fold r.match_text new.match_text then new ∷ rs else r ∷ rest

unfoldable pub routing_rule : Net → ℕ → RoutingArgs → RoutingRule
routing_rule net now args =
    let m = trim_space args.match_text in
    record {
      id = m;
      name = args.name;
      match_text = m;
      match_type = if is_empty args.match_type then guessed_type net m else args.match_type;
      target = args.target;
      host_target = args.host_target;
      wireguard_config = args.wireguard_config;
      enabled = option_or args.enabled true;
      created_at = now;
    }

unfoldable pub with_routing_rule : Net → ℕ → RoutingArgs → Config → Option Config
with_routing_rule net now args c =
    if is_empty (trim_space args.match_text)
    then none
    else some
        (record c { routing_rules = put_by_match (routing_rule net now args) c.routing_rules })

unfoldable pub is_named : Text → RoutingRule → Bool
is_named m r = equal_fold r.match_text m || text_eq r.id m

unfoldable pub without_routing_rule : Text → Config → Option Config
without_routing_rule arg c =
    let m = trim_space arg in
    if is_empty m || not (any (is_named m) c.routing_rules)
    then none
    else some (record c { routing_rules = keep (λ r. not (is_named m r)) c.routing_rules })

unfoldable pub new_list : ℕ → ListArgs → ListSource
new_list now args = record {
  name = args.name;
  url = args.url;
  enabled = option_or args.enabled true;
  category = args.category;
  is_recommended = false;
  entries = 0;
  updated_at = now;
  remote_updated_at = 0;
}

abbrev pub is_list : ListArgs → ListSource → Bool
is_list args l = text_eq l.name args.name || text_eq l.url args.url

-- The first list with the name or the URL is switched.
unfoldable pub switch_list : Bool → ListArgs → List ListSource → List ListSource
switch_list on args [] = []
switch_list on args (l ∷ ls) =
    let rest = switch_list on args ls in
    if is_list args l then record l { enabled = on } ∷ ls else l ∷ rest

unfoldable pub changed_lists : ℕ → ListArgs → List ListSource → Option (List ListSource)
changed_lists now args ls =
    if text_eq args.action (lit "add")
    then (if is_empty args.name || is_empty args.url
        then none
        else some (ls ++ (new_list now args ∷ [])))
    else if text_eq args.action (lit "remove")
    then (if is_empty args.name && is_empty args.url
        then none
        else some (keep (λ l. not (is_list args l)) ls))
    else if text_eq args.action (lit "toggle")
    then elim args.enabled [
      | none ↦ none
      | some on ↦ if any (is_list args) ls then some (switch_list on args ls) else none
    ]
    else none

unfoldable pub install_blocklists : Config → Option (List ListSource) → Option Config
install_blocklists c none = none
install_blocklists c (some ls) = some (record c { lists = ls })

unfoldable pub install_allowlists : Config → Option (List ListSource) → Option Config
install_allowlists c none = none
install_allowlists c (some ls) = some (record c { allowlists = ls })

-- Adding and removing take any type but "block" for the allowlists, switching any but "allow" for the
-- blocklists.
unfoldable pub is_for_block : ListArgs → Bool
is_for_block args =
    if text_eq args.action (lit "toggle")
    then not (text_eq args.list_type (lit "allow"))
    else is_empty args.list_type || text_eq args.list_type (lit "block")

unfoldable pub with_lists : ℕ → ListArgs → Config → Option Config
with_lists now args c =
    if is_for_block args
    then install_blocklists c (changed_lists now args c.lists)
    else install_allowlists c (changed_lists now args c.allowlists)

unfoldable pub is_core_client : Text → Bool
is_core_client ip =
    text_eq ip (lit "127.0.0.1")
    || text_eq ip (lit "::1")
    || text_eq ip (lit "localhost")
    || text_eq ip (lit "DoH Proxy")

abbrev pub tool_info : ℕ → Text → BlockedClientInfo
tool_info now reason = record {
  reason = if is_empty reason then lit "MCP Admin Action" else reason;
  blocked_at = now;
  auto = false;
  country_code = [];
}

unfoldable pub with_client : ℕ → Text → Option Bool → Text → Config → Option Config
with_client now arg none reason c = none
with_client now arg (some block) reason c =
    let ip = trim_space arg in
    if is_empty ip || block && is_core_client ip
    then none
    else if block
    then some (record c {
      blocked_clients = add ip c.blocked_clients;
      blocked_clients_info = insert ip (tool_info now reason) c.blocked_clients_info;
    })
    else some (record c {
      blocked_clients = remove_text ip c.blocked_clients;
      blocked_clients_info = delete ip c.blocked_clients_info;
    })

unfoldable pub with_alias : Text → Text → Config → Option Config
with_alias arg alias c =
    let ip = trim_space arg in
    if is_empty ip
    then none
    else some (record c {
      client_aliases =
          if is_empty (trim_space alias)
          then delete ip c.client_aliases
          else insert ip (trim_space alias) c.client_aliases;
    })
