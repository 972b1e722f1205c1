-- ===== src/Clients.antt =====
-- admin/api_client_handlers.go: `handleClientAlias`, `handleClientBlock`; admin/api_tokens.go: the
-- handlers of the API tokens. A request is given decoded; a body that is no JSON
-- is `none`.
pub mod Blocked
pub mod Retrofit
pub mod Reachable
pub mod Tokens
pub mod Tests
use shield_dns.Prelude.{
  ℕ, Bool, true, false, not, ◌&&◌, ◌||◌, List, [], ◌∷◌, ◌++◌, keep, any, Option, none, some,
  if◌then◌else◌, ◌≡◌,
}
use shield_dns.Text.{Text, lit, text_eq, is_empty, trim_space}
use shield_dns.Table.{Table, lookup, insert, delete, add}
use shield_dns.Server.{
  ApiKey, BlockedClientInfo, Config, Server, is_replica, is_critical_ip, save_config,
  save_config-config,
}
use shield_dns.Rules.{remove_text}

pub record ClientRequest : Type 0 where
  pub ip : Text
  pub action : Text  -- "block" or "unblock"

abbrev pub manual_info : ℕ → Text → BlockedClientInfo
manual_info now country = record {
  reason = lit "manual";
  blocked_at = now;
  auto = false;
  country_code = country;
}

unfoldable pub block_client : ℕ → Text → Text → Config → Config
block_client now country ip c = record c {
  blocked_clients = add ip c.blocked_clients;
  blocked_clients_info = insert ip (manual_info now country) c.blocked_clients_info;
}

unfoldable pub unblock_client : Text → Config → Config
unblock_client ip c = record c {
  blocked_clients = remove_text ip c.blocked_clients;
  blocked_clients_info = delete ip c.blocked_clients_info;
}

-- The end of each handler: the save decides between 200 and 500, and the change stays in memory.
unfoldable pub save_change : Bool → Config → Server → Server × ℕ
save_change disk_ok c s =
    let (s', done) = save_config disk_ok (record s { config = c }) in
    (s', if done then 200 else 500)

-- A change stays in memory, whether or not the save succeeds.
pub save_change-config :
    (disk_ok : Bool) (c : Config) (s : Server) → (save_change disk_ok c s).0.config ≡ c
unfolding save_change
save_change-config disk_ok c s = save_config-config disk_ok (record s { config = c })

-- `handleClientAlias` on POST, with the address and the alias. An empty alias is deleted.
unfoldable pub with_client_alias : Text → Text → Config → Config
with_client_alias ip alias c = record c {
  client_aliases =
      if is_empty alias then delete ip c.client_aliases else insert ip alias c.client_aliases;
}

unfoldable pub handle_client_alias : Bool → Option (Text × Text) → Server → Server × ℕ
handle_client_alias disk_ok body s = if is_replica s.config then (s, 403) else elim body [
  | none ↦ (s, 400)
  | some (ip, alias) ↦
      if is_empty ip then (s, 400) else save_change disk_ok (with_client_alias ip alias s.config) s
]

unfoldable pub change_client : ℕ → (Text → Text) → Bool → ClientRequest → Server → Server × ℕ
change_client now country_of disk_ok req s =
    let ip = trim_space req.ip in
    if is_empty ip
    then (s, 400)
    else if text_eq req.action (lit "block")
    then (if is_critical_ip ip s.config.block_page_ip s.config.autoblock_whitelist
        then (s, 403)
        else save_change disk_ok (block_client now (country_of ip) ip s.config) s)
    else save_change disk_ok (unblock_client ip s.config) s

-- `handleClientBlock` on POST.
unfoldable pub handle_client_block :
    ℕ → (Text → Text) → Bool → Option ClientRequest → Server → Server × ℕ
handle_client_block now country_of disk_ok none s =
    if is_replica s.config then (s, 403) else (s, 400)
handle_client_block now country_of disk_ok (some req) s =
    if is_replica s.config then (s, 403) else change_client now country_of disk_ok req s

-- The entry that GET writes for a blocked client, if any: one for a client without, and one with the
-- country where that was missing.
unfoldable pub retrofit_entry : ℕ → Text → Option BlockedClientInfo → Option BlockedClientInfo
retrofit_entry now country none = some (manual_info now country)
retrofit_entry now country (some info) =
    if (is_empty info.country_code || text_eq info.country_code (lit "-"))
      && not (is_empty country)
      && not (text_eq country info.country_code)
    then some (record info { country_code = country })
    else none

-- The loop of GET, and whether it changed anything.
unfoldable pub retrofit :
    ℕ → (Text → Text) → List Text → Table BlockedClientInfo → Table BlockedClientInfo × Bool
retrofit now country_of [] infos = (infos, false)
retrofit now country_of (ip ∷ ips) infos =
    elim (retrofit_entry now (country_of ip) (lookup ip infos)) [
      | none ↦ retrofit now country_of ips infos
      | some info ↦ ((retrofit now country_of ips (insert ip info infos)).0, true)
    ]

-- `handleClientBlock` on GET. A save that fails unlocks `configLock` twice, here and by `defer`, which the
-- runtime answers with a fatal error: `none` is the end of the program.
unfoldable pub handle_client_list : ℕ → (Text → Text) → Bool → Server → Option (Server × ℕ)
handle_client_list now country_of disk_ok s =
    let (infos, changed) =
      retrofit now country_of s.config.blocked_clients s.config.blocked_clients_info in
    let (s', done) =
      save_config disk_ok
        (record s { config = record s.config { blocked_clients_info = infos } }) in
    if not changed then some (s, 200) else if done then some (s', 200) else none

pub record TokenRequest : Type 0 where
  pub id : Text
  pub name : Text
  pub permissions : List Text

unfoldable pub new_key : ℕ → Text → Text → TokenRequest → ApiKey
new_key now id hash req = record {
  id = id;
  name = req.name;
  token_hash = hash;
  permissions = req.permissions;
  created_at = now;
  last_used = 0;
}

abbrev pub with_key : ApiKey → Config → Config
with_key key c = record c { api_keys = c.api_keys ++ (key ∷ []) }

-- `handleCreateToken`; the ID and the hash of the random token are given. A save that fails takes the key
-- off again.
unfoldable pub handle_create_token :
    ℕ → Text → Text → Bool → Option TokenRequest → Server → Server × ℕ
handle_create_token now id hash disk_ok none s = if is_replica s.config then (s, 403) else (s, 400)
handle_create_token now id hash disk_ok (some req) s =
    let (s', done) =
      save_config disk_ok (record s { config = with_key (new_key now id hash req) s.config }) in
    if is_replica s.config then (s, 403) else if done then (s', 200) else (s, 500)

-- `handleDeleteToken`
unfoldable pub handle_delete_token : Bool → Text → Server → Server × ℕ
handle_delete_token disk_ok id s =
    if is_empty id
    then (s, 400)
    else if is_replica s.config
    then (s, 403)
    else save_change disk_ok
        (record s.config {
          api_keys = keep (λ (k : ApiKey). not (text_eq k.id id)) s.config.api_keys;
        })
        s

-- The loop of `handleUpdateToken`: the first key with the ID gets the name and the permissions.
unfoldable pub update_key : TokenRequest → List ApiKey → List ApiKey
update_key req [] = []
update_key req (k ∷ ks) =
    let rest = update_key req ks in
    if text_eq k.id req.id
    then record k { name = req.name; permissions = req.permissions } ∷ ks
    else k ∷ rest

-- `handleUpdateToken`
unfoldable pub handle_update_token : Bool → Option TokenRequest → Server → Server × ℕ
handle_update_token disk_ok none s = (s, 400)
handle_update_token disk_ok (some req) s =
    if is_replica s.config
    then (s, 403)
    else if any (λ (k : ApiKey). text_eq k.id req.id) s.config.api_keys
    then save_change disk_ok (record s.config { api_keys = update_key req s.config.api_keys }) s
    else (s, 404)
