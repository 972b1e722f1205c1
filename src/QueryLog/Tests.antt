-- ===== src/QueryLog/Tests.antt =====
-- Lines of the log, and requests to the DoH endpoint.
use shield_dns.Prelude.{
  ℕ, ◌-◌, ◌*◌, ◌≤◌, ◌≡◌, ◌≢◌, refl, arith, Bool, true, false, List, [], ◌∷◌, some, none,
}
use shield_dns.Text.{
  Text, lit, text_eq, equal_fold, to_lower, has_suffix, has_prefix, contains, split, join, cut,
  cut_last, has_byte,
}
use shield_dns.Table.{lookup, insert, member}
use shield_dns.Domain.{split_host_port}
use shield_dns.Blocklist.{
  joined_tails, parent_domains, first_wildcard, blocking_lists, is_blocked, test_domain,
}
use shield_dns.Server.{Server}
use shield_dns.Rules.Tests.{plain_config, server}
use shield_dns.Abuse.{nxdomain_flood, World, second}
use shield_dns.QueryLog.{
  Answer, is_placeholder, answer_ip, is_local_ip, signature_key, is_repeat, shown_ip,
  is_health_check, rule_matches, client_override, is_query_blocked, query_status, entry_of,
  log_answer, analyze_entry, count_access, doh_rate_limit,
}
use shield_dns.QueryLog.Verdict.{nxdomain_never}
use shield_dns.QueryLog.Window.{count_admitted, count_admitted-le}

log_run : Unit {0}
unfolding lit text_eq equal_fold to_lower has_suffix has_prefix contains split join cut cut_last
    has_byte lookup insert member split_host_port joined_tails parent_domains first_wildcard
    blocking_lists is_blocked test_domain is_placeholder answer_ip is_local_ip signature_key
    is_repeat shown_ip is_health_check rule_matches client_override is_query_blocked query_status
    entry_of log_answer count_access doh_rate_limit count_admitted
log_run = tt

abbrev answer : Answer
answer = record {
  remote = lit "10.0.0.9:5353";
  kind = lit "A";
  domain = lit "x.a.de";
  rcode = lit "NOERROR";
  flags = lit "qr,rd";
  real_ip = lit "-";
}

abbrev own_rules : Server
own_rules = record server {
  config = record plain_config {
    client_rules =
        record { domain = lit "a.de"; client_ip = lit "10.0.0.9"; is_allowlist = true } ∷ [];
  };
}

abbrev nobody : Text → Bool
nobody ip = false

abbrev world : World
world = record { now = 9 * second; high_entropy = nobody; is_local = nobody }

log_tests :
    ((log_answer 9 nobody server answer []).1
      ≡ some (record {
        ip = lit "10.0.0.9";
        domain = lit "x.a.de";
        status = lit "Blocked";
        blocked = true;
      }))
    × ((log_answer 9 nobody own_rules answer []).1
        ≡ some (record {
          ip = lit "10.0.0.9";
          domain = lit "x.a.de";
          status = lit "Allowed";
          blocked = false;
        }))
    × ((log_answer 9 nobody server
          (record answer { remote = lit "127.0.0.1:1"; domain = lit "google.com" })
          []).1
        ≡ none)
unfolding log_run
log_tests = (refl, refl, refl)

nxdomain_never_example :
    (analyze_entry world server.config
      (log_answer 9 nobody server (record answer { rcode = lit "NXDOMAIN" }) []).1
      []).1
    ≢ some nxdomain_flood
nxdomain_never_example =
    nxdomain_never 9 nobody world server (record answer { rcode = lit "NXDOMAIN" }) [] []

abbrev accesses : List (ℕ × Text)
accesses =
    (5, lit "10.0.0.9") ∷ (6, lit "10.0.0.8") ∷ (7, lit "10.0.0.9") ∷ (8, lit "10.0.0.9") ∷ []

count_admitted-le_example :
    count_admitted 3
      (lit "10.0.0.9")
      accesses
      ((lit "10.0.0.9", record { count = 1; last_access = 4 }) ∷ [])
    ≤ 3 - 1
unfolding log_run
count_admitted-le_example =
    count_admitted-le 3 (lit "10.0.0.9") refl accesses
      ((lit "10.0.0.9", record { count = 1; last_access = 4 }) ∷ [])
      (record { count = 1; last_access = 4 }) refl
      (omega arith, (omega arith, (omega arith, (omega arith, tt))))
