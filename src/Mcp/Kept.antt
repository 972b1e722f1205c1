-- ===== src/Mcp/Kept.antt =====
-- What the tools keep, and where they agree with the handlers of the web interface:
-- admin/api_mcp_tools_rules.go, admin/api_mcp_tools_filtering.go.
use shield_dns.Prelude.{ℕ, ◌≡◌, refl, sym, ◌∙◌, arith, Bool, true, false, List, some, if◌then◌else◌}
use shield_dns.Text.{Text, lit, text_eq, is_empty, trim_space}
use shield_dns.Text.Equality.{text_eq_refl}
use shield_dns.Table.{add}
use shield_dns.Rules.{remove_text}
use shield_dns.Server.{Server, is_replica, is_critical_ip, save_config-config}
use shield_dns.Clients.{
  block_client, unblock_client, save_change-config, change_client, handle_client_block,
}
use shield_dns.Mcp.{with_client, is_core_client, block_client_ip}
use shield_dns.Routing.{Net}
use shield_dns.Mcp.Call.{run_tool, run_effect, tool_effect}

unblock_other : text_eq (lit "unblock") (lit "block") ≡ false
unfolding lit text_eq
unblock_other = refl

is_core_client-critical :
    (ip page : Text) (l : List Text) → is_critical_ip ip page l ≡ false → is_core_client ip ≡ false
unfolding is_critical_ip is_core_client
is_core_client-critical ip page l safe = ground (arith, safe)

tool-clients :
    (net : Net) (now : ℕ) (disk_ok : Bool) (ip reason : Text) (block : Bool) (s : Server)
    → is_empty (trim_space ip) ≡ false
    → is_core_client (trim_space ip) ≡ false
    → (run_tool net now disk_ok (block_client_ip ip (some block) reason) s).0.config.blocked_clients
      ≡ (if block
          then add (trim_space ip) s.config.blocked_clients
          else remove_text (trim_space ip) s.config.blocked_clients)
unfolding run_tool run_effect tool_effect with_client
tool-clients net now disk_ok ip reason true s given safe = rw (given, safe, save_config-config) refl
tool-clients net now disk_ok ip reason false s given safe = rw (given, save_config-config) refl

-- The tool that blocks a client does to the list of blocked clients what the request of the web interface
-- does, and so does the one that unblocks: on a server that is no replica, for an address that is not
-- critical.
pub block_client_ip-handle_client_block :
    (net : Net) (now : ℕ) (country_of : Text → Text) (disk_ok : Bool) (ip reason : Text)
    (block : Bool) (s : Server)
    → is_replica s.config ≡ false
    → is_empty (trim_space ip) ≡ false
    → is_critical_ip (trim_space ip) s.config.block_page_ip s.config.autoblock_whitelist ≡ false
    → (run_tool net now disk_ok (block_client_ip ip (some block) reason) s).0.config.blocked_clients
      ≡ (handle_client_block now country_of disk_ok
          (some (record { ip = ip; action = if block then lit "block" else lit "unblock" }))
          s).0.config.blocked_clients
unfolding handle_client_block change_client block_client unblock_client
block_client_ip-handle_client_block net now country_of disk_ok ip reason true s own given safe =
    let core =
      is_core_client-critical (trim_space ip) s.config.block_page_ip s.config.autoblock_whitelist
        safe in
    tool-clients net now disk_ok ip reason true s given core
    ∙ sym (rw (own, given, text_eq_refl (lit "block"), safe, save_change-config) refl)
block_client_ip-handle_client_block net now country_of disk_ok ip reason false s own given safe =
    let core =
      is_core_client-critical (trim_space ip) s.config.block_page_ip s.config.autoblock_whitelist
        safe in
    tool-clients net now disk_ok ip reason false s given core
    ∙ sym (rw (own, given, unblock_other, save_change-config) refl)
