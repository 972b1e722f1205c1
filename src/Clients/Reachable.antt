-- ===== src/Clients/Reachable.antt =====
-- The lists of blocked clients under any sequence of automatic and manual changes: admin/abuse.go and
-- admin/api_client_handlers.go.
use shield_dns.Prelude.{ℕ, ◌≡◌, Bool, some}
use shield_dns.Text.{Text}
use shield_dns.Server.{Server}
use shield_dns.Abuse.Blocking.{Feeds, block_client_auto}
use shield_dns.Abuse.AutoBlock.{IsRegistered, block_client_auto-IsRegistered}
use shield_dns.Clients.{ClientRequest, handle_client_block, handle_client_list}
use shield_dns.Clients.Blocked.{handle_client_block-IsRegistered}
use shield_dns.Clients.Retrofit.{handle_client_list-informed}

-- The states that the changes of blocked clients lead to.
pub data Reaches (s : Server) : Server → Type 0 where
  start : Reaches s s
  auto_block :
      {t : Server} (f : Feeds) (ip reason : Text)
      → Reaches s t
      → Reaches s (block_client_auto f ip reason t)
  by_hand :
      {t : Server} (now : ℕ) (country_of : Text → Text) (disk_ok : Bool) (req : ClientRequest)
      → Reaches s t
      → Reaches s (handle_client_block now country_of disk_ok (some req) t).0
  listed :
      {t u : Server} (now : ℕ) (country_of : Text → Text) (disk_ok : Bool) (code : ℕ)
      → Reaches s t
      → handle_client_list now country_of disk_ok t ≡ some (u, code)
      → Reaches s u

handle_client_list-IsRegistered :
    (now : ℕ) (country_of : Text → Text) (disk_ok : Bool) (s t : Server) (code : ℕ)
    → handle_client_list now country_of disk_ok s ≡ some (t, code)
    → IsRegistered s.config
    → IsRegistered t.config
handle_client_list-IsRegistered now country_of disk_ok s t code answered h =
    let (same, informed) = handle_client_list-informed now country_of disk_ok s t code answered in
    record { distinct = rw same h.distinct; informed = λ j m. informed j (rw same at m) }

-- Whatever sequence of automatic blocks, requests to block and unblock, and listings the server goes
-- through, no client is listed as blocked twice and each that is has its information, if this was so at the
-- start. The saves of automatic blocks and of requests may fail; a listing whose save fails ends the program
-- and leads to no state.
pub reachable-IsRegistered :
    (s t : Server) → Reaches s t → IsRegistered s.config → IsRegistered t.config
reachable-IsRegistered s _ start h = h
reachable-IsRegistered s _ (auto_block {t} f ip reason r) h =
    block_client_auto-IsRegistered f ip reason t (reachable-IsRegistered s t r h)
reachable-IsRegistered s _ (by_hand {t} now country_of disk_ok req r) h =
    handle_client_block-IsRegistered now country_of disk_ok req t (reachable-IsRegistered s t r h)
reachable-IsRegistered s _ (listed {t} {u} now country_of disk_ok code r answered) h =
    handle_client_list-IsRegistered now country_of disk_ok t u code answered
      (reachable-IsRegistered s t r h)
