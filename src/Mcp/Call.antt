-- ===== src/Mcp/Call.antt =====
-- admin/api_mcp.go: `handleMCP` and `tools/call` of `handleMCPMethod`; the tools for custom rules, mappings
-- and the cluster's settings of admin/api_mcp_tools_filtering.go and admin/api_mcp_tools_cluster.go.
use shield_dns.Prelude.{
  ℕ, Bool, true, false, not, ◌&&◌, ◌||◌, List, [], ◌∷◌, ◌++◌, keep, any, Option, none, some,
  option_or, if◌then◌else◌,
}
use shield_dns.Text.{Text, lit, text_eq, is_empty, trim_space, equal_fold}
use shield_dns.Table.{insert, delete}
use shield_dns.Domain.{normalize_domain, is_valid_domain}
use shield_dns.Adblock.{parse_adblock_rule}
use shield_dns.Server.{ClientRule, ApiKey, Config, Server, save_config}
use shield_dns.Rules.{Target, same_client_rule, reload_rules_fast}
use shield_dns.Routing.{Net}
use shield_dns.Auth.{Request, has_permission, request_token}
use shield_dns.Auth.Middleware.{find_key}
use shield_dns.Cluster.Primary.{is_instance_type}
use shield_dns.Cluster.Node.{is_sharing_mode}
use shield_dns.Mcp.{
  RuleArgs, ListArgs, SettingsArgs, ToolCall, set_routing_rule, delete_routing_rule,
  toggle_global_filtering, manage_filter_lists, block_client_ip, set_client_alias, add_custom_rule,
  remove_custom_rule, set_custom_mapping, remove_custom_mapping, update_cluster_settings,
  required_perm, with_routing_rule, without_routing_rule, with_lists, with_client, with_alias,
}

-- How a tool ends: an error, success without a change, or a configuration to be saved, after which the
-- rules are reloaded or the lists fetched again where the tool asks for it.
pub data Effect : Type 0 where
  failed already : Effect
  stored stored_reloading stored_updating : Config → Effect

unfoldable pub tool_target : RuleArgs → Target
tool_target args =
    let client = trim_space args.client_ip in
    let plain : Target = record {
      domain = normalize_domain (trim_space args.domain);
      kind = args.kind;
      client_ip = client;
    } in
    elim (parse_adblock_rule (trim_space args.domain)) [
      | none ↦ plain
      | some rule ↦ if is_empty rule.domain then plain else record {
        domain = rule.domain;
        kind =
            if rule.is_allowlist && text_eq args.kind (lit "blocked")
            then lit "allowed"
            else args.kind;
        client_ip =
            if not (is_empty rule.client_ip) && is_empty client then rule.client_ip else client;
      }
    ]

abbrev pub tool_client_rule : Target → ClientRule
tool_client_rule t = record {
  domain = t.domain;
  client_ip = t.client_ip;
  is_allowlist = text_eq t.kind (lit "allowed");
}

unfoldable pub append_rule : (List Text → Config) → Text → List Text → Effect
append_rule set d l = if any (λ e. equal_fold e d) l then already else stored (set (l ++ (d ∷ [])))

unfoldable pub add_rule_tool : Net → RuleArgs → Config → Effect
add_rule_tool net args c =
    let t = tool_target args in
    if is_empty t.domain || not (is_valid_domain net.parse_ip t.domain)
    then failed
    else if not (is_empty t.client_ip)
    then stored_reloading (record c {
      client_rules =
          keep (λ r. not (same_client_rule t.domain t.client_ip r)) c.client_rules
          ++ (tool_client_rule t ∷ []);
    })
    else if text_eq t.kind (lit "blocked")
    then append_rule (λ l. record c { custom_blocked = l }) t.domain c.custom_blocked
    else if text_eq t.kind (lit "allowed")
    then append_rule (λ l. record c { custom_allowed = l }) t.domain c.custom_allowed
    else failed

unfoldable pub remove_fold : Text → List Text → List Text
remove_fold d l = keep (λ e. not (equal_fold e d)) l

-- Removing does not turn the type of the rule.
unfoldable pub remove_rule_tool : RuleArgs → Config → Effect
remove_rule_tool args c =
    let t = tool_target args in
    if not (is_empty t.client_ip)
    then stored_reloading (record c {
      client_rules = keep (λ r. not (same_client_rule t.domain t.client_ip r)) c.client_rules;
    })
    else if text_eq args.kind (lit "blocked")
    then stored (record c { custom_blocked = remove_fold t.domain c.custom_blocked })
    else if text_eq args.kind (lit "allowed")
    then stored (record c { custom_allowed = remove_fold t.domain c.custom_allowed })
    else failed

unfoldable pub mapping_tool : Net → Text → Text → Config → Effect
mapping_tool net domain ip c =
    let d = normalize_domain domain in
    if is_empty d || not (is_valid_domain net.parse_ip d) || is_empty (trim_space ip)
    then failed
    else stored (record c { custom_mappings = insert d (trim_space ip) c.custom_mappings })

abbrev is_role : Text → Bool
is_role r = text_eq r (lit "standalone") || text_eq r (lit "primary") || text_eq r (lit "replica")

unfoldable pub tool_settings : SettingsArgs → Config → Config
tool_settings args c = record c {
  cluster_role = if is_role args.role then args.role else c.cluster_role;
  cluster_instance_type =
      if is_instance_type args.instance_type then args.instance_type else c.cluster_instance_type;
  cluster_node_name = elim args.node_name [ none ↦ c.cluster_node_name | some n ↦ trim_space n ];
  cluster_log_sharing_mode =
      if is_sharing_mode args.log_sharing_mode
      then args.log_sharing_mode
      else c.cluster_log_sharing_mode;
  cluster_failover_mode = option_or args.failover_mode c.cluster_failover_mode;
  cluster_sync_interval = option_or args.sync_interval c.cluster_sync_interval;
}

abbrev stored_or_failed : Option Config → Effect
stored_or_failed none = failed
stored_or_failed (some c) = stored c

abbrev updating_or_failed : Option Config → Effect
updating_or_failed none = failed
updating_or_failed (some c) = stored_updating c

unfoldable pub lists_tool : ℕ → ListArgs → Config → Effect
lists_tool now args c =
    if text_eq args.action (lit "list") then already else updating_or_failed (with_lists now args c)

unfoldable pub tool_effect : Net → ℕ → ToolCall → Config → Effect
tool_effect net now (set_routing_rule args) c = stored_or_failed (with_routing_rule net now args c)
tool_effect net now (delete_routing_rule m) c = stored_or_failed (without_routing_rule m c)
tool_effect net now (toggle_global_filtering none) c = failed
tool_effect net now (toggle_global_filtering (some on)) c =
    stored (record c { filtering_enabled = on })
tool_effect net now (manage_filter_lists args) c = lists_tool now args c
tool_effect net now (block_client_ip ip block reason) c =
    stored_or_failed (with_client now ip block reason c)
tool_effect net now (set_client_alias ip alias) c = stored_or_failed (with_alias ip alias c)
tool_effect net now (add_custom_rule args) c = add_rule_tool net args c
tool_effect net now (remove_custom_rule args) c = remove_rule_tool args c
tool_effect net now (set_custom_mapping domain ip) c = mapping_tool net domain ip c
tool_effect net now (remove_custom_mapping domain) c =
    stored (record c { custom_mappings = delete (normalize_domain domain) c.custom_mappings })
tool_effect net now (update_cluster_settings args) c = stored (tool_settings args c)

-- The end of a tool; the result is whether it returns no error.
unfoldable pub run_effect : Bool → Effect → Server → Server × Bool
run_effect disk_ok failed s = (s, false)
run_effect disk_ok already s = (s, true)
run_effect disk_ok (stored c) s = save_config disk_ok (record s { config = c })
run_effect disk_ok (stored_reloading c) s =
    let (s', done) = save_config disk_ok (record s { config = c }) in
    if done then (reload_rules_fast s', true) else (s', false)
run_effect disk_ok (stored_updating c) s =
    let (s', done) = save_config disk_ok (record s { config = c }) in
    if done then (record s' { updating = true }, true) else (s', false)

unfoldable pub run_tool : Net → ℕ → Bool → ToolCall → Server → Server × Bool
run_tool net now disk_ok call s = run_effect disk_ok (tool_effect net now call s.config) s

-- How a request to call a tool is answered.
pub data McpAnswer : Type 0 where
  status : ℕ → McpAnswer  -- of `handleMCP`
  denied errored done : McpAnswer

-- `getActiveAPIKey`
unfoldable pub active_key : (Text → Text) → Request → Config → Option ApiKey
active_key hash r c =
    if is_empty (request_token r) then none else find_key (hash (request_token r)) c.api_keys

unfoldable pub call_tool : Net → ℕ → Bool → ApiKey → ToolCall → Server → Server × McpAnswer
call_tool net now disk_ok key call s =
    let (s', ok) = run_tool net now disk_ok call s in
    if has_permission key (required_perm call)
    then (s', if ok then done else errored)
    else (s, denied)

unfoldable pub keyed_call : Net → ℕ → Bool → ToolCall → Server → Option ApiKey → Server × McpAnswer
keyed_call net now disk_ok call s none = (s, status 401)
keyed_call net now disk_ok call s (some key) =
    if has_permission key (lit "exec:mcp")
    then call_tool net now disk_ok key call s
    else (s, status 403)

-- `handleMCP` on a POST that calls a tool.
unfoldable pub handle_mcp :
    Net → ℕ → Bool → (Text → Text) → Request → ToolCall → Server → Server × McpAnswer
handle_mcp net now disk_ok hash r call s =
    if s.config.mcp_server_enabled
    then keyed_call net now disk_ok call s (active_key hash r s.config)
    else (s, status 503)
