-- ===== src/Rules/Effects.antt =====
-- What the handlers answer, and what an answer of 200 says of the state.
use shield_dns.Prelude.{
  ℕ, ◌≡◌, refl, subst, Bool, true, false, not, ◌||◌, ◌&&◌, [], arith, Option, none, some, ◌⊎◌,
  Bool-cases, inl, inr, if◌then◌else◌, some_injective,
}
use shield_dns.Text.{Text, lit, text_eq, is_empty, has_prefix}
use shield_dns.Text.Equality.{text_eq_refl}
use shield_dns.Table.{lookup, member, member-add, lookup-delete}
use shield_dns.Domain.{is_valid_domain}
use shield_dns.Blocklist.{Attribution, wildcard, is_blocked, test_domain}
use shield_dns.Blocklist.Parents.{sub_domain}
use shield_dns.Server.{Config, Server, is_replica, is_unsafe, save_config}
use shield_dns.Rules.{
  Target, RuleRequest, rule_target, apply_kind, new_config, with_blocked, with_allowed,
  without_rules, save_and_reload, reload_rules_fast, reloaded, install, add_rule, handle_rule_add,
  remove_rule, handle_rule_remove,
}
use shield_dns.Rules.Lists.{member-remove_text, config-save_and_reload}
use shield_dns.Rules.Reload.{reloaded-allowed, reloaded-blocked, IsUntouched}

save_and_reload-done :
    (disk_ok : Bool) (s : Server) (m : Attribution)
    → s.attribution ≡ some m
    → (save_and_reload disk_ok s).1 ≡ 200
    → (save_and_reload disk_ok s).0.attribution ≡ some (reloaded s.config m)
unfolding save_and_reload save_config
save_and_reload-done disk_ok s m known ok = elim (Bool-cases (is_unsafe s.config || not disk_ok)) [
  | inl bad ↦ absurd (failed_code (rw bad at ok))
  | inr good ↦ rw good (unfold reload_rules_fast in rw (known, reload_rules_fast))
]
  where
    failed_code : ◌≡◌ {A = ℕ} 500 200 → ⊥
    failed_code e = omega arith

install-installed :
    (disk_ok : Bool) (s : Server) (o : Option Config)
    → (install disk_ok s o).1 ≡ 200
    → (c : Config) × (o ≡ some c)
      × (install disk_ok s o ≡ save_and_reload disk_ok (record s { config = c }))
unfolding install
install-installed disk_ok s none ok = absurd (omega (arith, ok))
install-installed disk_ok s (some c) ok = (c, refl, refl)

-- An answer of 200 comes from the end of the handler.
add_rule-installed :
    (parse_ip : Text → Bool) (disk_ok : Bool) (req : RuleRequest) (s : Server)
    → (add_rule parse_ip disk_ok req s).1 ≡ 200
    → (c : Config) × (new_config parse_ip (rule_target req) req.ip s.config ≡ some c)
      × (add_rule parse_ip disk_ok req s ≡ save_and_reload disk_ok (record s { config = c }))
unfolding add_rule
add_rule-installed parse_ip disk_ok req s ok =
    elim (Bool-cases (is_empty (rule_target req).domain)) [
      | inl e ↦ absurd (omega (arith, rw e at ok))
      | inr full ↦ elim (Bool-cases (is_valid_domain parse_ip (rule_target req).domain)) [
        | inr bad ↦ absurd (omega (arith, rw (full, bad) at ok))
        | inl valid ↦ elim (Bool-cases (is_replica s.config)) [
          | inl replica ↦ absurd (omega (arith, rw (full, valid, replica) at ok))
          | inr primary ↦
              rw (full, valid, primary)
                (install-installed disk_ok s (new_config parse_ip (rule_target req) req.ip s.config)
                  (rw (full, valid, primary) at ok))
        ]
      ]
    ]

-- The attribution map and the configuration behind an answer of 200.
add_rule-done :
    (parse_ip : Text → Bool) (disk_ok : Bool) (req : RuleRequest) (s : Server) (m : Attribution)
    → s.attribution ≡ some m
    → (add_rule parse_ip disk_ok req s).1 ≡ 200
    → (c : Config) × (new_config parse_ip (rule_target req) req.ip s.config ≡ some c)
      × ((add_rule parse_ip disk_ok req s).0.attribution ≡ some (reloaded c m))
add_rule-done parse_ip disk_ok req s m known ok =
    let (c, made, whole) = add_rule-installed parse_ip disk_ok req s ok in
    (
      c,
      made,
      rw whole (save_and_reload-done disk_ok (record s { config = c }) m known (rw whole at ok)),
    )

new_config-allow :
    (parse_ip : Text → Bool) (t : Target) (ip : Text) (c c' : Config)
    → t.kind ≡ lit "allow"
    → t.client_ip ≡ []
    → new_config parse_ip t ip c ≡ some c'
    → with_allowed t.domain c ≡ c'
unfolding new_config apply_kind
new_config-allow parse_ip t ip c c' kind client made =
    some_injective (rw (client, kind, text_eq_refl (lit "allow"), allow_is_no_block) at made)
  where
    allow_is_no_block : text_eq (lit "allow") (lit "block") ≡ false
    allow_is_no_block = unfold lit text_eq in refl

new_config-block :
    (parse_ip : Text → Bool) (t : Target) (ip : Text) (c c' : Config)
    → t.kind ≡ lit "block"
    → t.client_ip ≡ []
    → new_config parse_ip t ip c ≡ some c'
    → with_blocked t.domain c ≡ c'
unfolding new_config apply_kind
new_config-block parse_ip t ip c c' kind client made =
    some_injective (rw (client, kind, text_eq_refl (lit "block")) at made)

-- After a global allow rule was added with answer 200, its domain and every subdomain are not
-- blocked. The rule names no wildcard, the query is not the built-in test domain, and an attribution
-- map was there.
pub add_rule-allowed :
    (parse_ip : Text → Bool) (disk_ok : Bool) (req : RuleRequest) (s : Server) (m : Attribution)
    (q : Text)
    → s.attribution ≡ some m
    → (handle_rule_add parse_ip disk_ok true (some req) s).1 ≡ 200
    → (rule_target req).kind ≡ lit "allow"
    → (rule_target req).client_ip ≡ []
    → has_prefix (lit "*.") (rule_target req).domain ≡ false
    → text_eq test_domain q ≡ false
    → (q ≡ (rule_target req).domain) ⊎ ((x : Text) × (q ≡ sub_domain x (rule_target req).domain))
    → (m' : Attribution) × ((handle_rule_add parse_ip disk_ok true (some req) s).0.attribution
        ≡ some m')
      × (is_blocked m' q ≡ false)
unfolding handle_rule_add
add_rule-allowed parse_ip disk_ok req s m q known ok kind client plain other below =
    let d = (rule_target req).domain in
    let (c, made, after) = add_rule-done parse_ip disk_ok req s m known ok in
    let same = new_config-allow parse_ip (rule_target req) req.ip s.config c kind client made in
    let listed : member d c.custom_allowed ≡ true =
      rw (← same)
        (unfold with_allowed in rw (member-add d d s.config.custom_allowed, text_eq_refl d)) in
    (reloaded c m, after, reloaded-allowed c m d q listed plain other below)

-- After a global block rule was added with answer 200, its domain and every subdomain are blocked,
-- unless an allow rule takes the entry for the domain or for its wildcard away. The rule names no
-- wildcard, and an attribution map was there.
pub add_rule-blocked :
    (parse_ip : Text → Bool) (disk_ok : Bool) (req : RuleRequest) (s : Server) (m : Attribution)
    (q : Text)
    → s.attribution ≡ some m
    → (handle_rule_add parse_ip disk_ok true (some req) s).1 ≡ 200
    → (rule_target req).kind ≡ lit "block"
    → (rule_target req).client_ip ≡ []
    → has_prefix (lit "*.") (rule_target req).domain ≡ false
    → IsUntouched (with_blocked (rule_target req).domain s.config) (rule_target req).domain
    → IsUntouched
        (with_blocked (rule_target req).domain s.config)
        (wildcard (rule_target req).domain)
    → (q ≡ (rule_target req).domain) ⊎ ((x : Text) × (q ≡ sub_domain x (rule_target req).domain))
    → (m' : Attribution) × ((handle_rule_add parse_ip disk_ok true (some req) s).0.attribution
        ≡ some m')
      × (is_blocked m' q ≡ true)
unfolding handle_rule_add
add_rule-blocked parse_ip disk_ok req s m q known ok kind client plain free free' below =
    let d = (rule_target req).domain in
    let (c, made, after) = add_rule-done parse_ip disk_ok req s m known ok in
    let same = new_config-block parse_ip (rule_target req) req.ip s.config c kind client made in
    let listed : member d c.custom_blocked ≡ true =
      rw (← same)
        (unfold with_blocked in rw (member-add d d s.config.custom_blocked, text_eq_refl d)) in
    (
      reloaded c m,
      after,
      reloaded-blocked c m d q listed plain (subst (λ e. IsUntouched e d) same free)
          (subst (λ e. IsUntouched e (wildcard d)) same free') below,
    )

-- After a rule was removed with answer 200, its domain is in none of the custom lists and mappings, and
-- every other domain is listed as before.
pub remove_rule-removed :
    (disk_ok : Bool) (req : RuleRequest) (s : Server) (k : Text)
    → (handle_rule_remove disk_ok true (some req) s).1 ≡ 200
    → let c = (handle_rule_remove disk_ok true (some req) s).0.config in
      let d = (rule_target req).domain in
      (member k c.custom_blocked ≡ (not (text_eq d k) && member k s.config.custom_blocked))
      × (member k c.custom_allowed ≡ (not (text_eq d k) && member k s.config.custom_allowed))
      × (lookup k c.custom_mappings
          ≡ (if text_eq d k then none else lookup k s.config.custom_mappings))
unfolding handle_rule_remove remove_rule
remove_rule-removed disk_ok req s k ok =
    let d = (rule_target req).domain in
    elim (Bool-cases (is_empty d)) [
      | inl e ↦ absurd (omega (arith, rw e at ok))
      | inr full ↦ elim (Bool-cases (is_replica s.config)) [
        | inl replica ↦ absurd (omega (arith, rw (full, replica) at ok))
        | inr primary ↦
            rw
              (
                full,
                primary,
                config-save_and_reload disk_ok
                    (record s { config = without_rules (rule_target req) s.config }),
              )
              (unfold without_rules in
                (
                  member-remove_text d k s.config.custom_blocked,
                  member-remove_text d k s.config.custom_allowed,
                  lookup-delete d k s.config.custom_mappings,
                ))
      ]
    ]
