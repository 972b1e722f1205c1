-- ===== src/Abuse/Stages.antt =====
-- `analyzeQuery` of admin/abuse.go stage by stage: what holds of the reason of each stage holds of the
-- whole.
use shield_dns.Prelude.{ℕ, Option, none, some}
use shield_dns.Text.{Text}
use shield_dns.Abuse.{
  Counters, Reason, Verdict, ◌>>◌, check_rate, check_domain, check_nxdomain, check_tld, check_dga,
  check_rebinding, World, analyze,
}

module _ (P : Option Reason → Type 0) where
  >>-reason :
      (v : Verdict) (next : Counters → Verdict)
      → P v.1
      → ((c : Counters) → P (next c).1)
      → P (v >> next).1
  >>-reason (c, none) next h k = k c
  >>-reason (c, some r) next h k = h

  pub analyze-reason :
      (w : World) (min_len : ℕ) (d status : Text) (c : Counters)
      → P (check_rate w.now c).1
      → ((c : Counters) → P (check_domain w.now d c).1)
      → ((c : Counters) → P (check_nxdomain w.now status c).1)
      → ((c : Counters) → P (check_tld w.now d c).1)
      → ((c : Counters) → P (check_dga w.high_entropy min_len w.now d c).1)
      → ((c : Counters) → P (check_rebinding w.is_local d c).1)
      → P (analyze w min_len d status c).1
  unfolding analyze
  analyze-reason w min_len d status c h1 h2 h3 h4 h5 h6 =
      let v1 = check_rate w.now c in
      let v2 = v1 >> check_domain w.now d in
      let v3 = v2 >> check_nxdomain w.now status in
      let v4 = v3 >> check_tld w.now d in
      let v5 = v4 >> check_dga w.high_entropy min_len w.now d in
      let k2 = >>-reason v1 (check_domain w.now d) h1 h2 in
      let k3 = >>-reason v2 (check_nxdomain w.now status) k2 h3 in
      let k4 = >>-reason v3 (check_tld w.now d) k3 h4 in
      let k5 = >>-reason v4 (check_dga w.high_entropy min_len w.now d) k4 h5 in
      >>-reason v5 (check_rebinding w.is_local d) k5 h6
