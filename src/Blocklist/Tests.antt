-- ===== src/Blocklist/Tests.antt =====
-- The application of the allowlist, and the verdict, on a small map.
use shield_dns.Prelude.{◌≡◌, ◌||◌, some, none, if◌then◌else◌, [], ◌∷◌}
use shield_dns.Text.{lit, text_eq}
use shield_dns.Table.{lookup}
use shield_dns.Blocklist.{Attribution, is_allowed, test_domain, test_source, apply_rules}
use shield_dns.Blocklist.Applied.{is_parent_wildcard, lookup-apply_rules}

abbrev some_map : Attribution
some_map = (lit "a.de", lit "L" ∷ []) ∷ (lit "*.a.de", lit "L" ∷ []) ∷ []

lookup-apply_rules_example : lookup (lit "*.a.de") (apply_rules some_map (lit "x.a.de" ∷ [])) ≡ (
    if text_eq test_domain (lit "*.a.de")
    then some (test_source ∷ [])
    else if is_allowed (lit "x.a.de" ∷ []) (lit "*.a.de")
        || is_parent_wildcard (lit "x.a.de" ∷ []) (lit "*.a.de")
    then none
    else lookup (lit "*.a.de") some_map)
lookup-apply_rules_example = lookup-apply_rules some_map (lit "x.a.de" ∷ []) (lit "*.a.de")
