-- ===== src/Mcp/Tests.antt =====
-- The tools at concrete calls.
use shield_dns.Prelude.{◌≡◌, ◌⊎◌, refl, true, [], ◌∷◌, some, none}
use shield_dns.Text.{Text, lit}
use shield_dns.Server.{ApiKey, Config, Server, is_critical_ip}
use shield_dns.Rules.Tests.{plain_config, server, rules_run}
use shield_dns.Auth.Tests.{with_key, clock}
use shield_dns.Clients.{
  handle_client_block, change_client, block_client, unblock_client, save_change,
}
use shield_dns.Routing.Tests.{routing_run, net}
use shield_dns.Mcp.{
  ToolCall, toggle_global_filtering, manage_filter_lists, block_client_ip, add_custom_rule,
  required_perm, put_by_match, routing_rule, with_routing_rule, is_named, without_routing_rule,
  new_list, switch_list, changed_lists, install_blocklists, install_allowlists, is_for_block,
  with_lists, is_core_client, with_client, with_alias,
}
use shield_dns.Mcp.Call.{
  tool_target, append_rule, add_rule_tool, remove_fold, remove_rule_tool, mapping_tool,
  tool_settings, lists_tool, tool_effect, run_effect, run_tool, status, denied, done, errored,
  active_key, call_tool, keyed_call, handle_mcp,
}
use shield_dns.Mcp.Allowed.{IsAllowed, handle_mcp-IsAllowed}
use shield_dns.Mcp.Kept.{block_client_ip-handle_client_block}

mcp_run : Unit {0}
unfolding routing_run rules_run is_critical_ip required_perm put_by_match routing_rule
    with_routing_rule is_named without_routing_rule new_list switch_list changed_lists
    install_blocklists install_allowlists is_for_block with_lists is_core_client with_client
    with_alias tool_target append_rule add_rule_tool remove_fold remove_rule_tool mapping_tool
    tool_settings lists_tool tool_effect run_effect run_tool active_key call_tool keyed_call
    handle_mcp handle_client_block change_client block_client unblock_client save_change
mcp_run = tt

abbrev mcp_key : ApiKey
mcp_key = record {
  id = lit "9";
  name = lit "assistant";
  token_hash = lit "#k1";
  permissions = lit "exec:mcp" ∷ lit "write:rules" ∷ [];
  created_at = 0;
  last_used = 0;
}

abbrev mcp_server : Server
mcp_server = record server {
  config = record plain_config { mcp_server_enabled = true; api_keys = mcp_key ∷ [] };
}

abbrev block_call : ToolCall
block_call = block_client_ip (lit "10.0.0.1") (some true) []

abbrev list_call : ToolCall
list_call = manage_filter_lists (record {
  action = lit "add";
  list_type = [];
  name = lit "L";
  url = lit "https://a.de/l";
  enabled = none;
  category = [];
})

abbrev rule_call : Text → Text → ToolCall
rule_call kind domain = add_custom_rule (record { kind = kind; domain = domain; client_ip = [] })

abbrev changed : ToolCall → Config
unfolding mcp_run
changed call = (handle_mcp net 5 true clock.hash with_key call mcp_server).0.config

mcp_tests :
    ((handle_mcp net 5 true clock.hash with_key block_call mcp_server).1 ≡ done)
    × ((changed block_call).blocked_clients ≡ lit "10.0.0.1" ∷ [])
    × ((handle_mcp net 5 true clock.hash with_key list_call mcp_server).1 ≡ denied)
    × ((handle_mcp net 5 true clock.hash with_key block_call server).1 ≡ status 503)
    × ((handle_mcp net 5 true clock.hash with_key (toggle_global_filtering none) mcp_server).1
        ≡ errored)
    × ((changed (rule_call (lit "blocked") (lit "c.de"))).custom_blocked
        ≡ lit "b.de" ∷ lit "c.de" ∷ [])
    × ((changed (rule_call (lit "blocked") (lit "c.de"))).custom_allowed ≡ lit "c.de" ∷ [])
    × ((changed (rule_call (lit "blocked") (lit "@@||d.de^"))).custom_allowed
        ≡ lit "c.de" ∷ lit "d.de" ∷ [])
unfolding mcp_run
mcp_tests = (refl, refl, refl, refl, refl, refl, refl, refl)

handle_mcp-IsAllowed_example :
    ((handle_mcp net 5 true clock.hash with_key block_call mcp_server).0 ≡ mcp_server)
    ⊎ (IsAllowed clock.hash with_key block_call mcp_server
        × ((handle_mcp net 5 true clock.hash with_key block_call mcp_server).0
            ≡ (run_tool net 5 true block_call mcp_server).0))
handle_mcp-IsAllowed_example =
    handle_mcp-IsAllowed net 5 true clock.hash with_key block_call mcp_server

block_client_ip-handle_client_block_example :
    (run_tool net 5 true block_call mcp_server).0.config.blocked_clients
    ≡ (handle_client_block 5
        (λ ip. [])
        true
        (some (record { ip = lit "10.0.0.1"; action = lit "block" }))
        mcp_server).0.config.blocked_clients
unfolding mcp_run
block_client_ip-handle_client_block_example =
    block_client_ip-handle_client_block net 5 (λ ip. []) true (lit "10.0.0.1") [] true mcp_server
      refl refl refl
