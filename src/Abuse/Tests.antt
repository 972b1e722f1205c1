-- ===== src/Abuse/Tests.antt =====
-- The analysis of queries, the automatic block and the clean-up at concrete clients.
use shield_dns.Prelude.{
  ℕ, ◌+◌, ◌*◌, ◌≤◌, ◌≡◌, ◌↔◌, refl, arith, true, false, List, [], ◌∷◌, keep, length, some, none,
  option_or,
}
use shield_dns.Text.{
  lit, text_eq, to_lower, has_suffix, has_prefix, contains, split, cut, lower_byte,
}
use shield_dns.Table.{Table, lookup, insert, member}
use shield_dns.Server.{is_critical_ip, is_unsafe, save_config}
use shield_dns.Rules.Tests.{plain_config}
use shield_dns.Abuse.{
  Counters, new_counters, World, rate_limit, rebinding, second, minute, drop_old, prune_window,
  count_query, count_key, extract_tld, is_infrastructure_domain, is_rebinding_domain, total_count,
  bypasses_dga, is_dga_label, check_rate, check_domain, check_nxdomain, check_tld, check_dga,
  check_rebinding, analyze, analyze_query,
}
use shield_dns.Abuse.Window.{IsTimely, in_window, touches_window}
use shield_dns.Abuse.Counting.{AreOrdered}
use shield_dns.Abuse.Rate.{kept, queries_of, analyze_query-rate_limit}
use shield_dns.Abuse.Blocking.{
  Feeds, block_reason, block_info, with_blocked_client, block_client_auto, prune_table,
  prune_counters, is_idle, abuse_cleanup,
}
use shield_dns.Abuse.AutoBlock.{IsRegistered}
use shield_dns.Abuse.Cleanup.{SeesSame, abuse_cleanup-SeesSame}

abuse_run : Unit {0}
unfolding lit text_eq to_lower has_suffix has_prefix contains split cut lower_byte lookup insert
    member is_critical_ip is_unsafe save_config drop_old prune_window count_query count_key
    extract_tld is_infrastructure_domain is_rebinding_domain total_count bypasses_dga is_dga_label
    check_rate check_domain check_nxdomain check_tld check_dga check_rebinding analyze analyze_query
    block_reason block_info with_blocked_client block_client_auto prune_table prune_counters is_idle
    abuse_cleanup
abuse_run = tt

abbrev hour : ℕ
hour = 60 * minute

abbrev times : List ℕ
times = 10 ∷ hour ∷ (hour + minute) ∷ []

abbrev client : Counters
client = record new_counters { all_query_times = times; domain_times = (lit "a.de", times) ∷ [] }

abbrev clients : Table Counters
clients =
    (lit "10.0.0.7", client)
    ∷ (lit "10.0.0.8", record new_counters { all_query_times = 5 ∷ [] })
    ∷ []

abbrev world : World
world = record {
  now = hour + minute + second;
  high_entropy = λ s. false;
  is_local = text_eq (lit "10.0.0.1");
}

abbrev feeds : Feeds
feeds = record { is_malicious = λ s. true; country_of = λ s. lit "DE"; disk_ok = true; now = 7 }

extract_tld_tests :
    (extract_tld (lit "www.a.co.uk") ≡ lit "co.uk")
    × (extract_tld (lit "www.a.de") ≡ lit "de")
    × (extract_tld (lit "localhost") ≡ [])
unfolding abuse_run
extract_tld_tests = (refl, refl, refl)

analyze_tests :
    ((analyze_query world plain_config
        (lit "10.0.0.7")
        (lit "10-0-0-1.nip.io")
        (lit "Allowed")
        clients).1
      ≡ some rebinding)
    × ((analyze_query world plain_config (lit "10.0.0.7") (lit "a.de") (lit "Allowed") clients).1
        ≡ none)
unfolding abuse_run
analyze_tests = (refl, refl)

cleanup_test : length (abuse_cleanup (hour + minute + second) clients) ≡ 1
unfolding abuse_run
cleanup_test = refl

times-IsTimely : IsTimely (hour + minute + second) times
times-IsTimely = record {
  ascending = (omega arith, (omega arith, tt));
  past = (omega arith, (omega arith, (omega arith, tt)));
}

nil-IsTimely : IsTimely (hour + minute + second) []
nil-IsTimely = record { ascending = tt; past = tt }

clients-AreOrdered : AreOrdered (hour + minute + second) clients
clients-AreOrdered = (
  record {
    domains = (times-IsTimely, tt);
    queries = times-IsTimely;
    nxdomains = nil-IsTimely;
    tlds = tt;
    labels = nil-IsTimely;
  },
  (
    record {
      domains = tt;
      queries = record { ascending = tt; past = (omega arith, tt) };
      nxdomains = nil-IsTimely;
      tlds = tt;
      labels = nil-IsTimely;
    },
    tt,
  ),
)

analyze_query-rate_limit_example :
    (((analyze_query world plain_config (lit "10.0.0.7") (lit "a.de") (lit "Allowed") clients).1
        ≡ some rate_limit)
      ↔ (1000 ≤ kept world.now client))
    × (length
          (keep (in_window world.now (60 * second)) (queries_of (lit "10.0.0.7") world.now clients))
        ≤ kept world.now client)
    × (kept world.now client
        ≤ length (
            keep
              (touches_window world.now (60 * second))
              (queries_of (lit "10.0.0.7") world.now clients)))
unfolding abuse_run
analyze_query-rate_limit_example =
    analyze_query-rate_limit world plain_config (lit "10.0.0.7") (lit "a.de") (lit "Allowed")
      clients refl times-IsTimely

no_clients-IsRegistered : IsRegistered plain_config
unfolding abuse_run
no_clients-IsRegistered = record { distinct = tt; informed = λ j h. absurd (ground (arith, h)) }

abuse_cleanup-SeesSame_example :
    SeesSame
      (hour + hour)
      (option_or (lookup (lit "10.0.0.7") (abuse_cleanup world.now clients)) new_counters)
      client
unfolding abuse_run
abuse_cleanup-SeesSame_example =
    abuse_cleanup-SeesSame world.now (hour + hour) (lit "10.0.0.7") client clients (omega arith)
      (refl, (refl, tt)) (refl, tt) refl
