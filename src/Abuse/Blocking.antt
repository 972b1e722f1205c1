-- ===== src/Abuse/Blocking.antt =====
-- admin/abuse.go: `blockClientAuto`, and one round of `startAbuseCleanup`.
-- `is_malicious` and `country_of` are the feeds of malicious addresses and of countries, whose state other
-- files keep. The webhook and the update of the Corefile, which run in the background, are left out.
use shield_dns.Prelude.{
  ℕ, Bool, true, not, ◌&&◌, ◌||◌, List, [], ◌∷◌, ◌++◌, ◌*◌, length, ◌==◌, if◌then◌else◌,
}
use shield_dns.Text.{Text, lit, contains}
use shield_dns.Table.{Table, insert, member}
use shield_dns.Server.{BlockedClientInfo, Config, Server, is_critical_ip, save_config}
use shield_dns.Abuse.{Counters, minute, prune_window}

-- What the block is told of the world.
pub record Feeds : Type 0 where
  pub is_malicious : Text → Bool
  pub country_of : Text → Text
  pub disk_ok : Bool
  pub now : ℕ

unfoldable pub block_reason : Feeds → Text → Text → Text
block_reason f ip reason =
    if f.is_malicious ip && not (contains (lit "Malicious") reason)
    then reason ++ lit " (Malicious Source)"
    else reason

unfoldable pub block_info : Feeds → Text → Text → BlockedClientInfo
block_info f ip reason = record {
  reason = block_reason f ip reason;
  blocked_at = f.now;
  auto = true;
  country_code = f.country_of ip;
}

unfoldable pub with_blocked_client : Feeds → Text → Text → Config → Config
with_blocked_client f ip reason c = record c {
  blocked_clients = c.blocked_clients ++ (ip ∷ []);
  blocked_clients_info = insert ip (block_info f ip reason) c.blocked_clients_info;
}

-- `blockClientAuto`. A save that fails is only logged, and the client stays blocked in memory.
unfoldable pub block_client_auto : Feeds → Text → Text → Server → Server
block_client_auto f ip reason s =
    if is_critical_ip ip s.config.block_page_ip s.config.autoblock_whitelist
      || member ip s.config.blocked_clients
    then s
    else (save_config f.disk_ok (record s { config = with_blocked_client f ip reason s.config })).0

-- The loops that prune a table of times and delete what is empty.
unfoldable pub prune_table : ℕ → Table (List ℕ) → Table (List ℕ)
prune_table now [] = []
prune_table now ((k, ts) ∷ m) =
    let rest = prune_table now m in
    let kept = prune_window ts now (10 * minute) in
    if length kept == 0 then rest else (k, kept) ∷ rest

unfoldable pub prune_counters : ℕ → Counters → Counters
prune_counters now c = record {
  domain_times = prune_table now c.domain_times;
  all_query_times = prune_window c.all_query_times now (10 * minute);
  nxdomain_times = prune_window c.nxdomain_times now (10 * minute);
  tld_counts = prune_table now c.tld_counts;
  dga_times = prune_window c.dga_times now (10 * minute);
}

unfoldable pub is_idle : Counters → Bool
is_idle c =
    length c.all_query_times == 0
    && length c.domain_times == 0
    && length c.nxdomain_times == 0
    && length c.dga_times == 0

-- One tick of `startAbuseCleanup`.
unfoldable pub abuse_cleanup : ℕ → Table Counters → Table Counters
abuse_cleanup now [] = []
abuse_cleanup now ((ip, c) ∷ all) =
    let rest = abuse_cleanup now all in
    let c' = prune_counters now c in if is_idle c' then rest else (ip, c') ∷ rest
