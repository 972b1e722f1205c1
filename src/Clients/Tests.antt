-- ===== src/Clients/Tests.antt =====
-- The client and token handlers at concrete requests.
use shield_dns.Prelude.{none, ◌≡◌, ◌≢◌, refl, arith, true, false, [], ◌∷◌, some}
use shield_dns.Text.{Text, lit}
use shield_dns.Table.{add, insert, delete, lookup}
use shield_dns.Server.{Server, is_critical_ip}
use shield_dns.Rules.{remove_text}
use shield_dns.Rules.Tests.{plain_config, server}
use shield_dns.Auth.{Request}
use shield_dns.Auth.Tests.{auth_run, auth, clock, with_key}
use shield_dns.Auth.Middleware.{passed, auth_middleware}
use shield_dns.Abuse.AutoBlock.{IsRegistered}
use shield_dns.Clients.{
  ClientRequest, TokenRequest, block_client, unblock_client, save_change, change_client,
  handle_client_block, retrofit_entry, retrofit, handle_client_list, new_key, handle_create_token,
  handle_delete_token, update_key, handle_update_token, with_client_alias, handle_client_alias,
}
use shield_dns.Clients.Reachable.{start, auto_block, by_hand, reachable-IsRegistered}
use shield_dns.Abuse.Blocking.{Feeds, block_client_auto}
use shield_dns.Clients.Tokens.{created_token-passed, deleted_token-not_passed}

clients_run : Unit {0}
unfolding auth_run is_critical_ip add remove_text block_client unblock_client save_change
    change_client handle_client_block retrofit_entry retrofit handle_client_list new_key
    handle_create_token handle_delete_token update_key handle_update_token with_client_alias
    handle_client_alias insert delete lookup
clients_run = tt

abbrev country : Text → Text
country ip = lit "DE"

abbrev ask : Text → Text → ClientRequest
ask ip action = record { ip = ip; action = action }

abbrev blocked_server : Server
blocked_server = record server {
  config = record plain_config { blocked_clients = lit "10.0.0.7" ∷ [] };
}

abbrev writer : TokenRequest
writer = record { id = lit "1"; name = lit "writer"; permissions = lit "write:rules" ∷ [] }

client_tests :
    ((handle_client_block 5 country true (some (ask (lit "127.0.0.1") (lit "block"))) server).1
      ≡ 403)
    × ((handle_client_block 5 country true (some (ask (lit " ") (lit "block"))) server).1 ≡ 400)
    × ((handle_client_block 5 country true
          (some (ask (lit "10.0.0.7 ") (lit "unblock")))
          blocked_server).0.config.blocked_clients
        ≡ [])
    × (handle_client_list 5 country false blocked_server ≡ none)
    × ((handle_update_token true (some writer) auth.server).1 ≡ 200)
    × ((auth_middleware clock
          (record with_key { method = lit "POST" })
          (record auth { server = (handle_update_token true (some writer) auth.server).0 })).1
        ≡ passed)
unfolding clients_run
client_tests = (refl, refl, refl, refl, refl, refl)

alias_tests :
    (lookup
        (lit "10.0.0.7")
        (handle_client_alias true (some (lit "10.0.0.7", lit "tv")) server).0.config.client_aliases
      ≡ some (lit "tv"))
    × ((handle_client_alias false (some (lit "10.0.0.7", [])) server).1 ≡ 500)
    × ((handle_client_alias true (some ([], lit "tv")) server).1 ≡ 400)
unfolding clients_run
alias_tests = (refl, refl, refl)

no_blocked-IsRegistered : IsRegistered plain_config
unfolding clients_run
no_blocked-IsRegistered = record { distinct = tt; informed = λ j h. absurd (ground (arith, h)) }

deleted_token-not_passed_example :
    (auth_middleware clock with_key
      (record auth { server = (handle_delete_token true (lit "1") auth.server).0 })).1
    ≢ passed
unfolding clients_run
deleted_token-not_passed_example =
    deleted_token-not_passed true (lit "1") clock with_key auth refl refl (refl, tt)

abbrev post_with_new : Request
post_with_new = record with_key { method = lit "POST"; x_api_key = lit "k2" }

created_token-passed_example :
    (auth_middleware clock post_with_new (record auth {
      server = (handle_create_token 5 (lit "2") (lit "#k2") true (some writer) auth.server).0;
    })).1
    ≡ passed
unfolding clients_run
created_token-passed_example =
    created_token-passed 5 (lit "2") true writer clock post_with_new auth refl refl refl refl
      (omega arith)

abbrev feeds : Feeds
feeds = record { is_malicious = λ ip. false; country_of = country; disk_ok = false; now = 6 }

reachable-IsRegistered_example :
    IsRegistered
      (handle_client_block 7 country true
        (some (ask (lit "10.0.0.7") (lit "block")))
        (block_client_auto feeds (lit "10.0.0.7") (lit "Flood") server)).0.config
reachable-IsRegistered_example =
    reachable-IsRegistered server _
      (by_hand 7 country true (ask (lit "10.0.0.7") (lit "block"))
        (auto_block feeds (lit "10.0.0.7") (lit "Flood") start))
      no_blocked-IsRegistered
