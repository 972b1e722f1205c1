-- ===== src/Abuse.antt =====
-- admin/abuse.go: the counters of a client, `pruneWindow`, the six patterns of `analyzeQuery`,
-- `blockClientAuto` and one round of `startAbuseCleanup`.
-- Times and windows are numbers of nanoseconds. An auto-block that the code starts in the background is
-- returned as its reason. The tests on an address by `net.ParseIP`, and the comparison of the entropy of
-- a label with the threshold, which is on floats, are arguments.
pub mod Window
pub mod Counting
pub mod Stages
pub mod Rate
pub mod Blocking
pub mod AutoBlock
pub mod Infrastructure
pub mod Cleanup
pub mod Tests
use shield_dns.Prelude.{
  ℕ, zero, suc, ◌+◌, ◌*◌, Bool, true, false, not, ◌&&◌, ◌||◌, List, [], ◌∷◌, ◌++◌, any, length,
  Option, none, some, if◌then◌else◌, ltb, leb, ◌==◌, option_or, map, is_some,
}
use shield_dns.Text.{Text, lit, text_eq, is_empty, to_lower, has_suffix, contains, split}
use shield_dns.Table.{Table, lookup, insert, delete, member}
use shield_dns.Server.{BlockedClientInfo, Config, Server, is_critical_ip, save_config}

abbrev pub second : ℕ
second = 1_000_000_000

abbrev pub minute : ℕ
minute = 60_000_000_000

pub record Counters : Type 0 where
  pub domain_times : Table (List ℕ)
  pub all_query_times : List ℕ
  pub nxdomain_times : List ℕ
  pub tld_counts : Table (List ℕ)
  pub dga_times : List ℕ

abbrev pub new_counters : Counters
new_counters = record {
  domain_times = [];
  all_query_times = [];
  nxdomain_times = [];
  tld_counts = [];
  dga_times = [];
}

-- `times[idx:]` at the first entry after the cutoff, which is `now - window`.
unfoldable pub drop_old : ℕ → ℕ → List ℕ → List ℕ
drop_old now window [] = []
drop_old now window (t ∷ ts) =
    let rest = drop_old now window ts in if ltb now (t + window) then t ∷ ts else rest

-- `pruneWindow`. The oldest entry stays where it is not before the cutoff.
unfoldable pub prune_window : List ℕ → ℕ → ℕ → List ℕ
prune_window [] now window = []
prune_window (t ∷ ts) now window =
    if leb now (t + window) then t ∷ ts else drop_old now window (t ∷ ts)

-- `times = append(times, now); times = pruneWindow(times, now, window)`
unfoldable pub count_query : List ℕ → ℕ → ℕ → List ℕ
count_query times now window = prune_window (times ++ (now ∷ [])) now window

-- The list of `m[k]`, with the query counted.
unfoldable pub count_key : Text → ℕ → ℕ → Table (List ℕ) → List ℕ
count_key k now window m = count_query (option_or (lookup k m) []) now window

abbrev is_two_part : Text → Bool
is_two_part s = member s (
    lit "co" ∷ lit "com" ∷ lit "net" ∷ lit "org" ∷ lit "gov" ∷ lit "gv" ∷ lit "ac" ∷ lit "edu" ∷ [])

-- The last two parts of a split domain, and whether a third one stands before them.
abbrev last_two : Bool → List Text → Option (Text × Text × Bool)
last_two more [] = none
last_two more (p ∷ []) = none
last_two more (p ∷ q ∷ []) = some (p, q, more)
last_two more (p ∷ q ∷ r ∷ ps) = last_two true (q ∷ r ∷ ps)

unfoldable pub extract_tld : Text → Text
extract_tld domain = elim (last_two false (split b'.' domain)) [
  | none ↦ []
  | some (second_last, last, more) ↦
      if more && is_two_part second_last && length last == 2
      then second_last ++ (b'.' ∷ last)
      else last
]

abbrev infra_suffixes : List Text
infra_suffixes =
    lit "google.com"
    ∷ lit "googleapis.com"
    ∷ lit "gstatic.com"
    ∷ lit "googlevideo.com"
    ∷ lit "googleusercontent.com"
    ∷ lit "apple.com"
    ∷ lit "icloud.com"
    ∷ lit "mzstatic.com"
    ∷ lit "apple-dns.net"
    ∷ lit "microsoft.com"
    ∷ lit "office.com"
    ∷ lit "office365.com"
    ∷ lit "windows.com"
    ∷ lit "live.com"
    ∷ lit "outlook.com"
    ∷ lit "msftncsi.com"
    ∷ lit "windows.net"
    ∷ lit "visualstudio.com"
    ∷ lit "amazon.com"
    ∷ lit "amazonaws.com"
    ∷ lit "amzn.to"
    ∷ lit "cloudflare.com"
    ∷ lit "cloudflare.net"
    ∷ lit "akamai.net"
    ∷ lit "akamaized.net"
    ∷ lit "fastly.net"
    ∷ lit "github.com"
    ∷ lit "githubusercontent.com"
    ∷ lit "fabiseitz.de"
    ∷ []

unfoldable pub is_infrastructure_domain : Text → Bool
is_infrastructure_domain domain =
    let d = to_lower domain in any (λ s. text_eq d s || has_suffix (b'.' ∷ s) d) infra_suffixes

-- `strings.ReplaceAll(p, "-", ".")`
abbrev dotted : Text → Text
dotted p = map (λ c. if c == b'-' then b'.' else c) p

-- `is_local` says of a text that it is a loopback, private or link-local address.
unfoldable pub is_rebinding_domain : (Text → Bool) → Text → Bool
is_rebinding_domain is_local domain =
    let d = to_lower domain in
    if has_suffix (lit ".rebind.network") d
      || has_suffix (lit ".rbndr.us") d
      || has_suffix (lit ".make-me-a-rebind.net") d
    then true
    else (contains (lit ".nip.io") d || contains (lit ".sslip.io") d)
      && any (λ p. is_local p || is_local (dotted p)) (split b'.' d)

pub data Reason : Type 0 where
  rate_limit domain_flood nxdomain_flood tld_scan dga rebinding : Reason

-- A stage of the analysis: the counters that it leaves, and the block that it calls for.
abbrev pub Verdict : Type 0
Verdict = Counters × Option Reason

-- A stage that calls for a block ends the analysis.
infixl 5 ◌>>◌
abbrev pub ◌>>◌ : Verdict → (Counters → Verdict) → Verdict
◌>>◌ (c, some r) next = (c, some r)
◌>>◌ (c, none) next = next c

abbrev verdict_at : ℕ → ℕ → Reason → Counters → Verdict
verdict_at limit count r c = (c, if leb limit count then some r else none)

unfoldable pub check_rate : ℕ → Counters → Verdict
check_rate now c =
    let times = count_query c.all_query_times now (60 * second) in
    verdict_at 1000 (length times) rate_limit (record c { all_query_times = times })

unfoldable pub check_domain : ℕ → Text → Counters → Verdict
check_domain now domain c =
    let times = count_key domain now (60 * second) c.domain_times in
    if is_infrastructure_domain domain
    then (c, none)
    else verdict_at 300 (length times) domain_flood
        (record c { domain_times = insert domain times c.domain_times })

unfoldable pub check_nxdomain : ℕ → Text → Counters → Verdict
check_nxdomain now status c =
    let times = count_query c.nxdomain_times now (60 * second) in
    if text_eq status (lit "NXDOMAIN")
    then verdict_at 300 (length times) nxdomain_flood (record c { nxdomain_times = times })
    else (c, none)

-- `total5m`
unfoldable pub total_count : Table (List ℕ) → ℕ
total_count [] = 0
total_count ((k, ts) ∷ m) = length ts + total_count m

-- `float64(n)/float64(total) >= 0.95`, which for counts below 2^48 is this test on integers.
unfoldable pub check_tld : ℕ → Text → Counters → Verdict
check_tld now domain c =
    let tld = extract_tld domain in
    let times = count_key tld now (5 * minute) c.tld_counts in
    let counts = insert tld times c.tld_counts in
    if is_empty tld || is_infrastructure_domain domain then (c, none) else (
      record c { tld_counts = counts },
      if leb 1000 (length times) && leb (95 * total_count counts) (100 * length times)
          then some tld_scan
          else none,
    )

abbrev bypass_suffixes : List Text
bypass_suffixes =
    lit ".local"
    ∷ lit ".lan"
    ∷ lit ".home.arpa"
    ∷ lit "duckdns.org"
    ∷ lit "no-ip.org"
    ∷ lit "dyndns.org"
    ∷ lit "dynamic-dns.net"
    ∷ []

unfoldable pub bypasses_dga : Text → Bool
bypasses_dga domain =
    is_infrastructure_domain (to_lower domain)
    || any (λ s. has_suffix s (to_lower domain)) bypass_suffixes

-- `high_entropy` says of a label that its entropy is above the threshold.
unfoldable pub is_dga_label : (Text → Bool) → ℕ → List Text → Bool
is_dga_label high_entropy min_len (sub ∷ p ∷ ps) = ltb min_len (length sub) && high_entropy sub
is_dga_label high_entropy min_len ps = false

unfoldable pub check_dga : (Text → Bool) → ℕ → ℕ → Text → Counters → Verdict
check_dga high_entropy min_len now domain c =
    let times = count_query c.dga_times now (5 * minute) in
    if not (bypasses_dga domain) && is_dga_label high_entropy min_len (split b'.' domain)
    then verdict_at 50 (length times) dga (record c { dga_times = times })
    else (c, none)

unfoldable pub check_rebinding : (Text → Bool) → Text → Counters → Verdict
check_rebinding is_local domain c =
    (c, if is_rebinding_domain is_local domain then some rebinding else none)

-- What the analysis is told of the world beside the query.
pub record World : Type 0 where
  pub now : ℕ
  pub high_entropy : Text → Bool
  pub is_local : Text → Bool

-- `analyzeQuery` on the counters of a client that is not blocked.
unfoldable pub analyze : World → ℕ → Text → Text → Counters → Verdict
analyze w min_len domain status c =
    check_rate w.now c
    >> check_domain w.now domain
    >> check_nxdomain w.now status
    >> check_tld w.now domain
    >> check_dga w.high_entropy min_len w.now domain
    >> check_rebinding w.is_local domain

-- `analyzeQuery`: the counters of every client, by address.
unfoldable pub analyze_query :
    World → Config → Text → Text → Text → Table Counters → Table Counters × Option Reason
analyze_query w cfg ip domain status all =
    let c = option_or (lookup ip all) new_counters in
    let (c', reason) = analyze w cfg.abuse_dga_min_len domain status c in
    if member ip cfg.blocked_clients then (insert ip c all, none) else (insert ip c' all, reason)
