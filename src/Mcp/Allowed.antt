-- ===== src/Mcp/Allowed.antt =====
-- Who changes the configuration through the assistant interface: admin/api_mcp.go.
use shield_dns.Prelude.{
  ℕ, ◌≡◌, ◌⊎◌, inl, inr, refl, Bool, true, false, some, if◌then◌else◌, Bool-cases, Option-cases,
}
use shield_dns.Text.{Text, lit}
use shield_dns.Server.{ApiKey, Server}
use shield_dns.Auth.{Request, has_permission}
use shield_dns.Routing.{Net}
use shield_dns.Mcp.{ToolCall, required_perm}
use shield_dns.Mcp.Call.{run_tool, McpAnswer, status, active_key, call_tool, keyed_call, handle_mcp}

-- A call that reached its tool.
pub record IsAllowed (hash : Text → Text) (r : Request) (call : ToolCall) (s : Server)
    : Type 0 where
  pub enabled : s.config.mcp_server_enabled ≡ true
  pub key : ApiKey
  pub found : active_key hash r s.config ≡ some key
  pub may_execute : has_permission key (lit "exec:mcp") ≡ true
  pub may_call : has_permission key (required_perm call) ≡ true

abbrev IsHandled :
    Net → ℕ → Bool → (Text → Text) → Request → ToolCall → Server → Server × McpAnswer → Type 0
IsHandled net now disk_ok hash r call s out =
    (out.0 ≡ s) ⊎ (IsAllowed hash r call s × (out.0 ≡ (run_tool net now disk_ok call s).0))

enabled-IsHandled :
    (net : Net) (now : ℕ) (disk_ok : Bool) (hash : Text → Text) (r : Request) (call : ToolCall)
    (s : Server)
    → s.config.mcp_server_enabled ≡ true
    → IsHandled net now disk_ok hash r call s
        (keyed_call net now disk_ok call s (active_key hash r s.config))
unfolding keyed_call call_tool
enabled-IsHandled net now disk_ok hash r call s on =
    elim (Option-cases (active_key hash r s.config)) [
      | inl unknown ↦ rw unknown (inl refl)
      | inr (key, found) ↦ elim (Bool-cases (has_permission key (lit "exec:mcp"))) [
        | inr no_exec ↦ rw (found, no_exec) (inl refl)
        | inl exec ↦ elim (Bool-cases (has_permission key (required_perm call))) [
          | inr no_tool ↦ rw (found, exec, no_tool) (inl refl)
          | inl may ↦
              let allowed : IsAllowed hash r call s = record {
                enabled = on;
                key = key;
                found = found;
                may_execute = exec;
                may_call = may;
              } in
              rw (found, exec, may) (inr (allowed, refl))
        ]
      ]
    ]

gate-IsHandled :
    (net : Net) (now : ℕ) (disk_ok : Bool) (hash : Text → Text) (r : Request) (call : ToolCall)
    (s : Server) (b : Bool)
    → s.config.mcp_server_enabled ≡ b
    → IsHandled net now disk_ok hash r call s (
        if b
        then keyed_call net now disk_ok call s (active_key hash r s.config)
        else (s, status 503))
gate-IsHandled net now disk_ok hash r call s true on =
    enabled-IsHandled net now disk_ok hash r call s on
gate-IsHandled net now disk_ok hash r call s false off = inl refl

-- A call changes nothing, or the interface is enabled and the call has a known key with the permission to
-- use the interface and the one that the tool asks for; it then does what the tool does.
pub handle_mcp-IsAllowed :
    (net : Net) (now : ℕ) (disk_ok : Bool) (hash : Text → Text) (r : Request) (call : ToolCall)
    (s : Server)
    → ((handle_mcp net now disk_ok hash r call s).0 ≡ s)
      ⊎ (IsAllowed hash r call s
          × ((handle_mcp net now disk_ok hash r call s).0 ≡ (run_tool net now disk_ok call s).0))
unfolding handle_mcp
handle_mcp-IsAllowed net now disk_ok hash r call s =
    gate-IsHandled net now disk_ok hash r call s s.config.mcp_server_enabled refl
