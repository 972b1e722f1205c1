-- ===== src/QueryLog.antt =====
-- admin/dns_parser.go: what `parseLogLine` makes of the fields of a line of the log (Line takes them
-- from the line), the analyser that it feeds, and `DoHRateLimitMiddleware`.
-- Latency, the counters of the dashboard, the user agents and the anonymising of stored addresses are left
-- out. `is_malicious` is the feed of malicious addresses.
pub mod Line
pub mod LineTests
pub mod Stripped
pub mod Tagged
pub mod Untagged
pub mod Verdict
pub mod Written
pub mod Window
pub mod Tests
use shield_dns.Prelude.{
  ℕ, suc, ◌+◌, ◌*◌, Bool, true, false, not, ◌&&◌, ◌||◌, List, [], ◌∷◌, ◌++◌, Option, none, some,
  option_or, if◌then◌else◌, ltb, is_some,
}
use shield_dns.Text.{Text, lit, text_eq, is_empty, equal_fold, has_suffix, contains}
use shield_dns.Table.{Table, lookup, insert, member}
use shield_dns.Domain.{split_host_port}
use shield_dns.Blocklist.{Attribution, is_blocked, test_domain}
use shield_dns.Server.{ClientRule, Config, Server}
use shield_dns.Abuse.{Counters, Reason, World, analyze_query, second}

-- The fields of a line, of which the domain is normalised.
pub record Answer : Type 0 where
  pub remote : Text
  pub kind : Text
  pub domain : Text
  pub rcode : Text
  pub flags : Text
  pub real_ip : Text

-- `querySignature`
pub record Signature : Type 0 where
  pub ip : Text
  pub time : ℕ

-- What is logged of a query.
pub record Entry : Type 0 where
  pub ip : Text
  pub domain : Text
  pub status : Text
  pub blocked : Bool

unfoldable pub is_placeholder : Text → Bool
is_placeholder ip =
    is_empty ip
    || text_eq ip (lit "-")
    || text_eq ip (lit "none")
    || text_eq ip (lit "{>X-Real-IP}")

-- The address of the client: the forwarded one, else the peer's without its port.
unfoldable pub answer_ip : Answer → Text
answer_ip a =
    if not (is_placeholder a.real_ip)
    then a.real_ip
    else elim (split_host_port a.remote) [ none ↦ a.remote | some (host, port) ↦ host ]

unfoldable pub is_local_ip : Text → Bool
is_local_ip ip = text_eq ip (lit "127.0.0.1") || text_eq ip (lit "::1")

unfoldable pub signature_key : Answer → Text
signature_key a = a.domain ++ (b'|' ∷ a.kind)

-- A query from this host that was seen less than two seconds ago.
unfoldable pub is_repeat : ℕ → Answer → Table Signature → Bool
is_repeat now a recent = elim (lookup (signature_key a) recent) [
  | none ↦ false
  | some sig ↦ ltb now (sig.time + 2 * second) && is_local_ip (answer_ip a)
]

-- The name under which a query of this host is logged.
unfoldable pub shown_ip : Answer → Text
shown_ip a =
    if is_local_ip (answer_ip a) && is_placeholder a.real_ip then lit "DoH Proxy" else answer_ip a

unfoldable pub is_health_check : Answer → Bool
is_health_check a =
    (text_eq a.domain test_domain || text_eq a.domain (lit "google.com"))
    && text_eq (shown_ip a) (lit "DoH Proxy")

unfoldable pub rule_matches : Text → Text → ClientRule → Bool
rule_matches ip q r =
    text_eq r.client_ip ip && (equal_fold r.domain q || has_suffix (b'.' ∷ r.domain) q)

-- The first rule of the client for the domain, by whether it blocks.
unfoldable pub client_override : Text → Text → List ClientRule → Option Bool
client_override ip q [] = none
client_override ip q (r ∷ rs) =
    if rule_matches ip q r then some (not r.is_allowlist) else client_override ip q rs

unfoldable pub is_query_blocked : Server → Text → Text → Bool
is_query_blocked s ip q =
    option_or (client_override ip q s.config.client_rules)
      (is_blocked (option_or s.attribution []) q)

-- The status, and whether the query counts as blocked.
unfoldable pub query_status : (Text → Bool) → Server → Text → Answer → Text × Bool
query_status is_malicious s ip a =
    if text_eq a.rcode (lit "REFUSED")
    then (
      if member ip s.config.blocked_clients
          then lit "Blocked (Client IP)"
          else if is_malicious ip
          then lit "Blocked (Threat Intelligence)"
          else lit "Blocked (Policy)",
      true,
    )
    else if is_query_blocked s ip a.domain
    then (lit "Blocked", true)
    else (lit "Allowed", false)

unfoldable pub entry_of : (Text → Bool) → Server → Answer → Entry
entry_of is_malicious s a =
    let (status, blocked) = query_status is_malicious s (shown_ip a) a in
    record { ip = shown_ip a; domain = a.domain; status = status; blocked = blocked }

-- One line of the log: the signatures after it, and what is logged.
unfoldable pub log_answer :
    ℕ → (Text → Bool) → Server → Answer → Table Signature → Table Signature × Option Entry
log_answer now is_malicious s a recent =
    let recent' = insert (signature_key a) (record { ip = answer_ip a; time = now }) recent in
    if not (contains (lit "qr") a.flags) || is_repeat now a recent
    then (recent, none)
    else (recent', if is_health_check a then none else some (entry_of is_malicious s a))

-- `startAbuseAnalyzer`, on what was logged.
unfoldable pub analyze_entry :
    World → Config → Option Entry → Table Counters → Table Counters × Option Reason
analyze_entry w c none all = (all, none)
analyze_entry w c (some e) all =
    if c.abuse_detection_enabled then analyze_query w c e.ip e.domain e.status all else (all, none)

-- `rateLimitEntry`
pub record RateEntry : Type 0 where
  pub count : ℕ
  pub last_access : ℕ

unfoldable pub count_access : ℕ → Text → Table RateEntry → RateEntry
count_access now ip entries =
    let e = option_or (lookup ip entries) (record { count = 0; last_access = now }) in
    if ltb (e.last_access + second) now
    then record { count = 1; last_access = now }
    else record { count = suc e.count; last_access = e.last_access }

-- `DoHRateLimitMiddleware` for an address, with the limit: the entries, and whether the request passes.
unfoldable pub doh_rate_limit : ℕ → ℕ → Text → Table RateEntry → Table RateEntry × Bool
doh_rate_limit limit now ip entries =
    let e = count_access now ip entries in
    if is_empty ip || is_local_ip ip
    then (entries, true)
    else (insert ip e entries, not (ltb limit e.count))
