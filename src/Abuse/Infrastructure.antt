-- ===== src/Abuse/Infrastructure.antt =====
-- `analyzeQuery` of admin/abuse.go on the domains of the large providers, and on blocked clients.
use shield_dns.Prelude.{
  ℕ, ◌≡◌, refl, arith, Bool, true, false, Option, some, Bool-cases, inl, inr, [], ◌∷◌, sym, ◌∙◌,
}
use shield_dns.Text.{Text, to_lower, is_empty, lower_byte}
use shield_dns.Table.{Table, member}
use shield_dns.Server.{Config}
use shield_dns.Abuse.Stages.{analyze-reason}
use shield_dns.Abuse.{
  Counters, Reason, domain_flood, tld_scan, dga, Verdict, check_rate, check_domain, check_nxdomain,
  check_tld, check_dga, check_rebinding, World, analyze, analyze_query, is_infrastructure_domain,
  extract_tld, bypasses_dga,
}

-- The patterns that look at the name alone.
abbrev pub is_by_name : Option Reason → Bool
is_by_name (some domain_flood) = true
is_by_name (some tld_scan) = true
is_by_name (some dga) = true
is_by_name o = false

abbrev IsSpared : (Counters → Verdict) → Type 0
IsSpared stage = (c : Counters) → is_by_name (stage c).1 ≡ false

check_rate-IsSpared : (now : ℕ) → IsSpared (check_rate now)
unfolding check_rate
check_rate-IsSpared now c = ground arith

check_nxdomain-IsSpared : (now : ℕ) (status : Text) → IsSpared (check_nxdomain now status)
unfolding check_nxdomain
check_nxdomain-IsSpared now status c = ground arith

check_rebinding-IsSpared :
    (is_local : Text → Bool) (d : Text) → IsSpared (check_rebinding is_local d)
unfolding check_rebinding
check_rebinding-IsSpared is_local d c = ground arith

lower_byte_twice : (c : ℕ) → lower_byte (lower_byte c) ≡ lower_byte c
unfolding lower_byte
lower_byte_twice c = ground arith

to_lower_twice : (s : Text) → to_lower (to_lower s) ≡ to_lower s
unfolding to_lower
to_lower_twice [] = refl
to_lower_twice (c ∷ s) = rw (lower_byte_twice, to_lower_twice s) refl

is_infrastructure_domain-to_lower :
    (d : Text) → is_infrastructure_domain (to_lower d) ≡ is_infrastructure_domain d
unfolding is_infrastructure_domain
is_infrastructure_domain-to_lower d = rw (to_lower_twice d) refl

module _ (d : Text) (infra : is_infrastructure_domain d ≡ true) where
  check_domain-IsSpared : (now : ℕ) → IsSpared (check_domain now d)
  unfolding check_domain
  check_domain-IsSpared now c = rw infra refl

  check_tld-IsSpared : (now : ℕ) → IsSpared (check_tld now d)
  unfolding check_tld
  check_tld-IsSpared now c = elim (Bool-cases (is_empty (extract_tld d))) [
    | inl e ↦ rw e refl
    | inr e ↦ rw (e, infra) refl
  ]

  bypasses_dga_infra : bypasses_dga d ≡ true
  unfolding bypasses_dga
  bypasses_dga_infra = rw (is_infrastructure_domain-to_lower, infra) refl

  check_dga-IsSpared :
      (high_entropy : Text → Bool) (min_len now : ℕ)
      → IsSpared (check_dga high_entropy min_len now d)
  unfolding check_dga
  check_dga-IsSpared high_entropy min_len now c = rw bypasses_dga_infra refl

  analyze-IsSpared :
      (w : World) (min_len : ℕ) (status : Text) → IsSpared (analyze w min_len d status)
  analyze-IsSpared w min_len status c =
      analyze-reason (λ o. is_by_name o ≡ false) w min_len d status c (check_rate-IsSpared w.now c)
        (check_domain-IsSpared w.now) (check_nxdomain-IsSpared w.now status)
        (check_tld-IsSpared w.now) (check_dga-IsSpared w.high_entropy min_len w.now)
        (check_rebinding-IsSpared w.is_local d)

-- A query for a domain of the listed providers, in whatever case it is spelt, never makes `analyzeQuery`
-- call for a block as a flood of one domain, a scan of a TLD or a generated domain.
pub infrastructure_spared :
    (w : World) (cfg : Config) (ip d status : Text) (all : Table Counters)
    → is_infrastructure_domain (to_lower d) ≡ true
    → is_by_name (analyze_query w cfg ip d status all).1 ≡ false
unfolding analyze_query
infrastructure_spared w cfg ip d status all infra =
    elim (Bool-cases (member ip cfg.blocked_clients)) [
      | inl e ↦ rw e refl
      | inr e ↦ rw e (
          analyze-IsSpared d (sym (is_infrastructure_domain-to_lower d) ∙ infra) w
            cfg.abuse_dga_min_len status _)
    ]
