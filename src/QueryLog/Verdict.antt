-- ===== src/QueryLog/Verdict.antt =====
-- The status of a query in admin/dns_parser.go, and what the analyser makes of it.
use shield_dns.Prelude.{
  ℕ, ◌≡◌, ◌≢◌, refl, arith, Bool, true, false, not, ◌||◌, Option, none, some, option_or,
  if◌then◌else◌, Bool-cases, inl, inr,
}
use shield_dns.Text.{Text, lit, text_eq, contains}
use shield_dns.Table.{Table, lookup, member}
use shield_dns.Server.{Config, Server}
use shield_dns.Abuse.{
  Counters, new_counters, Reason, nxdomain_flood, World, analyze_query, check_rate, check_domain,
  check_nxdomain, check_tld, check_dga, check_rebinding,
}
use shield_dns.Abuse.Stages.{analyze-reason}
use shield_dns.QueryLog.{
  Answer, Signature, shown_ip, is_repeat, is_health_check, is_query_blocked, query_status, entry_of,
  log_answer, analyze_entry,
}

-- What each status says.
abbrev pub Says : Text × Bool → Type 0
Says r = (text_eq r.0 (lit "Allowed") ≡ not r.1) × (text_eq r.0 (lit "NXDOMAIN") ≡ false)

-- A query counts as blocked exactly when CoreDNS refused it, or its domain is blocked by the client's own
-- rules or else by the lists; its status is "Allowed" exactly when it does not count as blocked, and it is
-- never "NXDOMAIN".
pub query_status_lem :
    (is_malicious : Text → Bool) (s : Server) (ip : Text) (a : Answer)
    → ((query_status is_malicious s ip a).1
        ≡ (text_eq a.rcode (lit "REFUSED") || is_query_blocked s ip a.domain))
      × Says (query_status is_malicious s ip a)
unfolding query_status text_eq lit
query_status_lem is_malicious s ip a = elim (Bool-cases (text_eq a.rcode (lit "REFUSED"))) [
  | inl e ↦ elim (Bool-cases (member ip s.config.blocked_clients)) [
    | inl listed ↦ rw (e, listed) (refl, (refl, refl))
    | inr free ↦ elim (Bool-cases (is_malicious ip)) [
      | inl bad ↦ rw (e, free, bad) (refl, (refl, refl))
      | inr good ↦ rw (e, free, good) (refl, (refl, refl))
    ]
  ]
  | inr e ↦ elim (Bool-cases (is_query_blocked s ip a.domain)) [
    | inl b ↦ rw (e, b) (refl, (refl, refl))
    | inr b ↦ rw (e, b) (refl, (refl, refl))
  ]
]

abbrev IsOther : Option Reason → Type 0
IsOther o = o ≢ some nxdomain_flood

check_rate-IsOther : (now : ℕ) (c : Counters) → IsOther (check_rate now c).1
unfolding check_rate
check_rate-IsOther now c = ground arith

check_domain-IsOther : (now : ℕ) (d : Text) (c : Counters) → IsOther (check_domain now d c).1
unfolding check_domain
check_domain-IsOther now d c = ground arith

check_nxdomain-IsOther :
    (now : ℕ) (status : Text) (c : Counters)
    → text_eq status (lit "NXDOMAIN") ≡ false
    → IsOther (check_nxdomain now status c).1
unfolding check_nxdomain
check_nxdomain-IsOther now status c other = rw other (λ p. cc p)

check_tld-IsOther : (now : ℕ) (d : Text) (c : Counters) → IsOther (check_tld now d c).1
unfolding check_tld
check_tld-IsOther now d c = ground arith

check_dga-IsOther :
    (high_entropy : Text → Bool) (min_len now : ℕ) (d : Text) (c : Counters)
    → IsOther (check_dga high_entropy min_len now d c).1
unfolding check_dga
check_dga-IsOther high_entropy min_len now d c = ground arith

check_rebinding-IsOther :
    (is_local : Text → Bool) (d : Text) (c : Counters) → IsOther (check_rebinding is_local d c).1
unfolding check_rebinding
check_rebinding-IsOther is_local d c = ground arith

analyze_query-IsOther :
    (w : World) (c : Config) (ip d status : Text) (all : Table Counters)
    → text_eq status (lit "NXDOMAIN") ≡ false
    → IsOther (analyze_query w c ip d status all).1
unfolding analyze_query
analyze_query-IsOther w c ip d status all other = elim (Bool-cases (member ip c.blocked_clients)) [
  | inl e ↦ rw e (λ p. cc p)
  | inr e ↦ rw e (
      let counters = option_or (lookup ip all) new_counters in
      analyze-reason IsOther w c.abuse_dga_min_len d status counters
        (check_rate-IsOther w.now counters) (check_domain-IsOther w.now d)
        (λ k. check_nxdomain-IsOther w.now status k other) (check_tld-IsOther w.now d)
        (check_dga-IsOther w.high_entropy c.abuse_dga_min_len w.now d)
        (check_rebinding-IsOther w.is_local d))
]

if-IsOther :
    (on : Bool) (all : Table Counters) (r : Table Counters × Option Reason)
    → IsOther r.1
    → IsOther (if on then r else (all, none)).1
if-IsOther true all r h = h
if-IsOther false all r h = λ p. cc p

entry-IsOther :
    (is_malicious : Text → Bool) (w : World) (s : Server) (a : Answer) (all : Table Counters)
    → IsOther (analyze_entry w s.config (some (entry_of is_malicious s a)) all).1
unfolding analyze_entry entry_of
entry-IsOther is_malicious w s a all = if-IsOther s.config.abuse_detection_enabled all _ (
    analyze_query-IsOther w s.config (shown_ip a) a.domain _ all
      (query_status_lem is_malicious s (shown_ip a) a).1.1)

-- Whatever line of the log is parsed, the analysis of what is logged of it never calls for a block for a
-- flood of failed lookups: the status that it is given is never "NXDOMAIN".
pub nxdomain_never :
    (now : ℕ) (is_malicious : Text → Bool) (w : World) (s : Server) (a : Answer)
    (recent : Table Signature) (all : Table Counters)
    → (analyze_entry w s.config (log_answer now is_malicious s a recent).1 all).1
      ≢ some nxdomain_flood
unfolding log_answer
nxdomain_never now is_malicious w s a recent all =
    elim (Bool-cases (not (contains (lit "qr") a.flags) || is_repeat now a recent)) [
      | inl e ↦ rw e (unfold analyze_entry in λ p. cc p)
      | inr e ↦ elim (Bool-cases (is_health_check a)) [
        | inl h ↦ rw (e, h) (unfold analyze_entry in λ p. cc p)
        | inr h ↦ rw (e, h) (entry-IsOther is_malicious w s a all)
      ]
    ]
