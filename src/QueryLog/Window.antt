-- ===== src/QueryLog/Window.antt =====
-- The window of `DoHRateLimitMiddleware` in admin/dns_parser.go.
use shield_dns.Prelude.{
  ℕ, suc, ◌+◌, ◌-◌, ◌≤◌, ◌≡◌, refl, arith, true, false, ◌||◌, ◌&&◌, List, [], ◌∷◌, All, some,
  if◌then◌else◌, Bool-cases, inl, inr, ltb_of_le, ◌∙◌, le_of_ltb,
}
use shield_dns.Text.{Text, text_eq, is_empty}
use shield_dns.Text.Equality.{text_eq_sound, text_eq_refl}
use shield_dns.Table.{Table, lookup, lookup-insert}
use shield_dns.Abuse.{second}
use shield_dns.QueryLog.{RateEntry, is_local_ip, count_access, doh_rate_limit}

-- How many of the requests, each with its time and address, are from the address and pass.
unfoldable pub count_admitted : ℕ → Text → List (ℕ × Text) → Table RateEntry → ℕ
count_admitted limit ip [] entries = 0
count_admitted limit ip ((now, from) ∷ rs) entries =
    let (entries', ok) = doh_rate_limit limit now from entries in
    let rest = count_admitted limit ip rs entries' in
    if text_eq from ip && ok then suc rest else rest

module _ (limit : ℕ) (ip : Text) (limited : (is_empty ip || is_local_ip ip) ≡ false) where
  lookup-other :
      (now : ℕ) (from : Text) (entries : Table RateEntry)
      → text_eq from ip ≡ false
      → lookup ip (doh_rate_limit limit now from entries).0 ≡ lookup ip entries
  unfolding doh_rate_limit
  lookup-other now from entries other = elim (Bool-cases (is_empty from || is_local_ip from)) [
    | inl e ↦ rw e refl
    | inr e ↦ rw (e, lookup-insert, other) refl
  ]

  module _ (now : ℕ) (entries : Table RateEntry) (e : RateEntry)
      (known : lookup ip entries ≡ some e) (early : now ≤ e.last_access + second) where
    count_access-known :
        count_access now ip entries ≡ record { count = suc e.count; last_access = e.last_access }
    unfolding count_access
    count_access-known = rw (known, ltb_of_le (e.last_access + second) now early) refl

    lookup-own :
        lookup ip (doh_rate_limit limit now ip entries).0
        ≡ some (record { count = suc e.count; last_access = e.last_access })
    unfolding doh_rate_limit
    lookup-own = rw (limited, lookup-insert, text_eq_refl ip, count_access-known) refl

    admitted-le : (doh_rate_limit limit now ip entries).1 ≡ true → suc e.count ≤ limit
    unfolding doh_rate_limit
    admitted-le ok =
        le_of_ltb limit (suc e.count) (ground (arith, rw (limited, count_access-known) at ok))

  -- Of any sequence of requests to the DoH endpoint that come no later than a second after the start of
  -- the window of an address, at most as many pass from that address as the limit allows, less those that
  -- were counted before. The address is neither empty nor a loopback one.
  pub count_admitted-le :
      (rs : List (ℕ × Text)) (entries : Table RateEntry) (e : RateEntry)
      → lookup ip entries ≡ some e
      → All (λ (r : ℕ × Text). r.0 ≤ e.last_access + second) rs
      → count_admitted limit ip rs entries ≤ limit - e.count
  unfolding count_admitted
  count_admitted-le [] entries e known early = omega arith
  count_admitted-le ((now, from) ∷ rs) entries e known early = elim (Bool-cases (text_eq from ip)) [
    | inr other ↦ rw other (
        count_admitted-le rs (doh_rate_limit limit now from entries).0 e
          (lookup-other now from entries other ∙ known) early.1)
    | inl own ↦
        rw (text_eq_sound from ip own, text_eq_refl ip)
          (let rest =
              count_admitted-le rs (doh_rate_limit limit now ip entries).0
                (record { count = suc e.count; last_access = e.last_access })
                (lookup-own now entries e known early.0) early.1 in
            elim (Bool-cases (doh_rate_limit limit now ip entries).1) [
              | inr stopped ↦ rw stopped (omega (arith, rest))
              | inl ok ↦ rw ok (omega (arith, rest, admitted-le now entries e known early.0 ok))
            ])
  ]
