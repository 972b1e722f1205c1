-- ===== src/Abuse/Rate.antt =====
-- When the analysis calls for a block for the rate of queries, and what is never blocked.
use shield_dns.Prelude.{
  ℕ, ◌*◌, ◌≤◌, ◌≡◌, refl, Bool, false, List, [], ◌∷◌, ◌++◌, keep, length, arith, leb, Bool-cases,
  inl, inr, Option, some, option_or, ◌≢◌, ◌↔◌,
}
use shield_dns.Text.{Text}
use shield_dns.Table.{Table, lookup, member}
use shield_dns.Server.{Config}
use shield_dns.Abuse.{
  Counters, new_counters, count_query, Reason, rate_limit, second, check_rate, check_domain,
  check_nxdomain, check_tld, check_dga, check_rebinding, World, analyze, analyze_query,
}
use shield_dns.Abuse.Stages.{analyze-reason}
use shield_dns.Abuse.Window.{
  IsTimely, in_window, touches_window, prune_window-le, in_window-le, append-IsTimely,
}

-- What a later stage can call for.
abbrev IsLater : Option Reason → Type 0
IsLater o = o ≢ some rate_limit

check_domain-IsLater : (now : ℕ) (d : Text) (c : Counters) → IsLater (check_domain now d c).1
unfolding check_domain
check_domain-IsLater now d c = ground arith

check_nxdomain-IsLater : (now : ℕ) (d : Text) (c : Counters) → IsLater (check_nxdomain now d c).1
unfolding check_nxdomain
check_nxdomain-IsLater now d c = ground arith

check_tld-IsLater : (now : ℕ) (d : Text) (c : Counters) → IsLater (check_tld now d c).1
unfolding check_tld
check_tld-IsLater now d c = ground arith

check_dga-IsLater :
    (high_entropy : Text → Bool) (min_len now : ℕ) (d : Text) (c : Counters)
    → IsLater (check_dga high_entropy min_len now d c).1
unfolding check_dga
check_dga-IsLater high_entropy min_len now d c = ground arith

check_rebinding-IsLater :
    (is_local : Text → Bool) (d : Text) (c : Counters) → IsLater (check_rebinding is_local d c).1
unfolding check_rebinding
check_rebinding-IsLater is_local d c = ground arith

-- The number of queries that are kept, with the one at hand.
abbrev pub kept : ℕ → Counters → ℕ
kept now c = length (count_query c.all_query_times now (60 * second))

-- The analysis calls for the rate limit exactly when a thousand queries are kept.
analyze-rate_limit :
    (w : World) (min_len : ℕ) (d status : Text) (c : Counters)
    → ((analyze w min_len d status c).1 ≡ some rate_limit) ↔ (1000 ≤ kept w.now c)
analyze-rate_limit w min_len d status c = elim (Bool-cases (leb 1000 (kept w.now c))) [
  | inl many ↦ (λ e. ground arith, λ h. unfold analyze check_rate in rw many refl)
  | inr few ↦ (
    λ e. absurd (
        analyze-reason IsLater w min_len d status c (unfold check_rate in rw few (λ p. cc p))
          (check_domain-IsLater w.now d) (check_nxdomain-IsLater w.now status)
          (check_tld-IsLater w.now d) (check_dga-IsLater w.high_entropy min_len w.now d)
          (check_rebinding-IsLater w.is_local d) e),
    λ h. absurd (few_not h few),
  )
]
  where
    few_not : 1000 ≤ kept w.now c → leb 1000 (kept w.now c) ≡ false → ⊥
    few_not h e = ground arith

-- The times of a client's queries, with the one at hand.
abbrev pub queries_of : Text → ℕ → Table Counters → List ℕ
queries_of ip now all = (option_or (lookup ip all) new_counters).all_query_times ++ (now ∷ [])

-- For a client that is not blocked and whose recorded times are in order, `analyzeQuery` calls for a
-- block for the rate of queries exactly when it keeps a thousand of them, with the one at hand. It keeps
-- all queries that are less than a minute old, and none that is more than a minute old.
pub analyze_query-rate_limit :
    (w : World) (cfg : Config) (ip d status : Text) (all : Table Counters)
    → member ip cfg.blocked_clients ≡ false
    → IsTimely w.now (option_or (lookup ip all) new_counters).all_query_times
    → (((analyze_query w cfg ip d status all).1 ≡ some rate_limit)
        ↔ (1000 ≤ kept w.now (option_or (lookup ip all) new_counters)))
      × (length (keep (in_window w.now (60 * second)) (queries_of ip w.now all))
          ≤ kept w.now (option_or (lookup ip all) new_counters))
      × (kept w.now (option_or (lookup ip all) new_counters)
          ≤ length (keep (touches_window w.now (60 * second)) (queries_of ip w.now all)))
unfolding analyze_query count_query
analyze_query-rate_limit w cfg ip d status all free h =
    let c = option_or (lookup ip all) new_counters in
    let ts = queries_of ip w.now all in
    rw free (
      analyze-rate_limit w cfg.abuse_dga_min_len d status c,
      in_window-le w.now (60 * second) ts,
      prune_window-le w.now (60 * second) ts (append-IsTimely w.now c.all_query_times h).ascending,
    )
