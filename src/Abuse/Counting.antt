-- ===== src/Abuse/Counting.antt =====
-- When the analysis calls for a block, and that it keeps the counters in order.
use shield_dns.Prelude.{
  ℕ, ◌*◌, ◌≤◌, Bool, not, ◌&&◌, ◌||◌, List, [], ◌∷◌, All, Bool-cases, inl, inr, none, some,
  option_or,
}
use shield_dns.Text.{Text, text_eq, lit, is_empty, split}
use shield_dns.Table.{Table, lookup, insert, member}
use shield_dns.Server.{Config}
use shield_dns.Abuse.{
  Counters, new_counters, count_key, Verdict, ◌>>◌, second, check_rate, check_domain,
  check_nxdomain, check_tld, check_dga, check_rebinding, World, analyze, analyze_query,
  is_infrastructure_domain, extract_tld, minute, bypasses_dga, is_dga_label,
}
use shield_dns.Abuse.Window.{IsTimely, IsTimely-later, count_query-IsTimely}

-- Every list of a table is in order.
abbrev pub AreTimely : ℕ → Table (List ℕ) → Type 0
AreTimely now m = All (λ (e : Text × List ℕ). IsTimely now e.1) m

pub record IsOrdered (now : ℕ) (c : Counters) : Type 0 where
  pub domains : AreTimely now c.domain_times
  pub queries : IsTimely now c.all_query_times
  pub nxdomains : IsTimely now c.nxdomain_times
  pub tlds : AreTimely now c.tld_counts
  pub labels : IsTimely now c.dga_times

insert-AreTimely :
    (now : ℕ) (k : Text) (ts : List ℕ) (m : Table (List ℕ))
    → IsTimely now ts
    → AreTimely now m
    → AreTimely now (insert k ts m)
unfolding insert
insert-AreTimely now k ts [] h all = (h, tt)
insert-AreTimely now k ts ((j, us) ∷ m) h all = elim (Bool-cases (text_eq j k)) [
  | inl e ↦ rw e (h, all.1)
  | inr e ↦ rw e (all.0, insert-AreTimely now k ts m h all.1)
]

nil-IsTimely : (now : ℕ) → IsTimely now []
nil-IsTimely now = record { ascending = tt; past = tt }

lookup-IsTimely :
    (now : ℕ) (k : Text) (m : Table (List ℕ))
    → AreTimely now m
    → IsTimely now (option_or (lookup k m) [])
unfolding lookup
lookup-IsTimely now k [] all = nil-IsTimely now
lookup-IsTimely now k ((j, us) ∷ m) all = elim (Bool-cases (text_eq j k)) [
  | inl e ↦ rw e all.0
  | inr e ↦ rw e (lookup-IsTimely now k m all.1)
]

count_key-IsTimely :
    (now window : ℕ) (k : Text) (m : Table (List ℕ))
    → AreTimely now m
    → IsTimely now (count_key k now window m)
unfolding count_key
count_key-IsTimely now window k m all =
    count_query-IsTimely now window (option_or (lookup k m) []) (lookup-IsTimely now k m all)

-- A stage keeps the counters in order.
abbrev Keeps : ℕ → (Counters → Verdict) → Type 0
Keeps now stage = (c : Counters) → IsOrdered now c → IsOrdered now (stage c).0

>>-Keeps :
    (now : ℕ) (v : Verdict) (next : Counters → Verdict)
    → IsOrdered now v.0
    → Keeps now next
    → IsOrdered now (v >> next).0
>>-Keeps now (c, none) next h k = k c h
>>-Keeps now (c, some r) next h k = h

check_rate-Keeps : (now : ℕ) → Keeps now (check_rate now)
unfolding check_rate
check_rate-Keeps now c h =
    let counted = count_query-IsTimely now (60 * second) c.all_query_times h.queries in
    record {
      domains = h.domains;
      queries = counted;
      nxdomains = h.nxdomains;
      tlds = h.tlds;
      labels = h.labels;
    }

check_domain-Keeps : (now : ℕ) (d : Text) → Keeps now (check_domain now d)
unfolding check_domain
check_domain-Keeps now d c h = elim (Bool-cases (is_infrastructure_domain d)) [
  | inl e ↦ rw e h
  | inr e ↦ rw e (record {
    domains =
        insert-AreTimely now d _ c.domain_times
          (count_key-IsTimely now (60 * second) d c.domain_times h.domains) h.domains;
    queries = h.queries;
    nxdomains = h.nxdomains;
    tlds = h.tlds;
    labels = h.labels;
  })
]

check_nxdomain-Keeps : (now : ℕ) (status : Text) → Keeps now (check_nxdomain now status)
unfolding check_nxdomain
check_nxdomain-Keeps now status c h = elim (Bool-cases (text_eq status (lit "NXDOMAIN"))) [
  | inr e ↦ rw e h
  | inl e ↦ rw e (record {
    domains = h.domains;
    queries = h.queries;
    nxdomains = count_query-IsTimely now (60 * second) c.nxdomain_times h.nxdomains;
    tlds = h.tlds;
    labels = h.labels;
  })
]

check_tld-Keeps : (now : ℕ) (d : Text) → Keeps now (check_tld now d)
unfolding check_tld
check_tld-Keeps now d c h =
    elim (Bool-cases (is_empty (extract_tld d) || is_infrastructure_domain d)) [
      | inl e ↦ rw e h
      | inr e ↦ rw e (record {
        domains = h.domains;
        queries = h.queries;
        nxdomains = h.nxdomains;
        tlds =
            insert-AreTimely now (extract_tld d) _ c.tld_counts
              (count_key-IsTimely now (5 * minute) (extract_tld d) c.tld_counts h.tlds) h.tlds;
        labels = h.labels;
      })
    ]

check_dga-Keeps :
    (high_entropy : Text → Bool) (min_len now : ℕ) (d : Text)
    → Keeps now (check_dga high_entropy min_len now d)
unfolding check_dga
check_dga-Keeps high_entropy min_len now d c h =
    elim (Bool-cases (not (bypasses_dga d) && is_dga_label high_entropy min_len (split b'.' d))) [
      | inr e ↦ rw e h
      | inl e ↦ rw e (record {
        domains = h.domains;
        queries = h.queries;
        nxdomains = h.nxdomains;
        tlds = h.tlds;
        labels = count_query-IsTimely now (5 * minute) c.dga_times h.labels;
      })
    ]

check_rebinding-Keeps :
    (is_local : Text → Bool) (now : ℕ) (d : Text) → Keeps now (check_rebinding is_local d)
unfolding check_rebinding
check_rebinding-Keeps is_local now d c h = h

analyze-Keeps :
    (w : World) (min_len : ℕ) (d status : Text) → Keeps w.now (analyze w min_len d status)
unfolding analyze
analyze-Keeps w min_len d status c h =
    let v1 = check_rate w.now c in
    let v2 = v1 >> check_domain w.now d in
    let v3 = v2 >> check_nxdomain w.now status in
    let v4 = v3 >> check_tld w.now d in
    let v5 = v4 >> check_dga w.high_entropy min_len w.now d in
    let h1 = check_rate-Keeps w.now c h in
    let h2 = >>-Keeps w.now v1 (check_domain w.now d) h1 (check_domain-Keeps w.now d) in
    let h3 =
      >>-Keeps w.now v2 (check_nxdomain w.now status) h2 (check_nxdomain-Keeps w.now status) in
    let h4 = >>-Keeps w.now v3 (check_tld w.now d) h3 (check_tld-Keeps w.now d) in
    let h5 =
      >>-Keeps w.now v4 (check_dga w.high_entropy min_len w.now d) h4
        (check_dga-Keeps w.high_entropy min_len w.now d) in
    >>-Keeps w.now v5 (check_rebinding w.is_local d) h5 (check_rebinding-Keeps w.is_local w.now d)

AreTimely-later : (a b : ℕ) (m : Table (List ℕ)) → a ≤ b → AreTimely a m → AreTimely b m
AreTimely-later a b [] le h = tt
AreTimely-later a b ((k, ts) ∷ m) le h =
    (IsTimely-later a b ts le h.0, AreTimely-later a b m le h.1)

IsOrdered-later : (a b : ℕ) (c : Counters) → a ≤ b → IsOrdered a c → IsOrdered b c
IsOrdered-later a b c le h = record {
  domains = AreTimely-later a b c.domain_times le h.domains;
  queries = IsTimely-later a b c.all_query_times le h.queries;
  nxdomains = IsTimely-later a b c.nxdomain_times le h.nxdomains;
  tlds = AreTimely-later a b c.tld_counts le h.tlds;
  labels = IsTimely-later a b c.dga_times le h.labels;
}

new_counters-IsOrdered : (now : ℕ) → IsOrdered now new_counters
new_counters-IsOrdered now = record {
  domains = tt;
  queries = nil-IsTimely now;
  nxdomains = nil-IsTimely now;
  tlds = tt;
  labels = nil-IsTimely now;
}

-- The counters of every client are in order.
abbrev pub AreOrdered : ℕ → Table Counters → Type 0
AreOrdered now all = All (λ (e : Text × Counters). IsOrdered now e.1) all

AreOrdered-later : (a b : ℕ) (all : Table Counters) → a ≤ b → AreOrdered a all → AreOrdered b all
AreOrdered-later a b [] le h = tt
AreOrdered-later a b ((k, c) ∷ all) le h =
    (IsOrdered-later a b c le h.0, AreOrdered-later a b all le h.1)

insert-AreOrdered :
    (now : ℕ) (k : Text) (c : Counters) (all : Table Counters)
    → IsOrdered now c
    → AreOrdered now all
    → AreOrdered now (insert k c all)
unfolding insert
insert-AreOrdered now k c [] h rest = (h, tt)
insert-AreOrdered now k c ((j, d) ∷ all) h rest = elim (Bool-cases (text_eq j k)) [
  | inl e ↦ rw e (h, rest.1)
  | inr e ↦ rw e (rest.0, insert-AreOrdered now k c all h rest.1)
]

lookup-IsOrdered :
    (now : ℕ) (k : Text) (all : Table Counters)
    → AreOrdered now all
    → IsOrdered now (option_or (lookup k all) new_counters)
unfolding lookup
lookup-IsOrdered now k [] h = new_counters-IsOrdered now
lookup-IsOrdered now k ((j, c) ∷ all) h = elim (Bool-cases (text_eq j k)) [
  | inl e ↦ rw e h.0
  | inr e ↦ rw e (lookup-IsOrdered now k all h.1)
]

-- Each query leaves the counters of every client in order: all their windows are ascending, with no
-- time after the query's, if they were so at an earlier time.
pub analyze_query-AreOrdered :
    (w : World) (cfg : Config) (ip d status : Text) (all : Table Counters) (earlier : ℕ)
    → earlier ≤ w.now
    → AreOrdered earlier all
    → AreOrdered w.now (analyze_query w cfg ip d status all).0
unfolding analyze_query
analyze_query-AreOrdered w cfg ip d status all earlier le before =
    let h = AreOrdered-later earlier w.now all le before in
    let c = lookup-IsOrdered w.now ip all h in
    elim (Bool-cases (member ip cfg.blocked_clients)) [
      | inl e ↦ rw e (insert-AreOrdered w.now ip _ all c h)
      | inr e ↦
          rw e (
            insert-AreOrdered w.now ip _ all (analyze-Keeps w cfg.abuse_dga_min_len d status _ c) h)
    ]
