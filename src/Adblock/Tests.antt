-- ===== src/Adblock/Tests.antt =====
-- Runs of `parse_adblock_rule`.
use shield_dns.Prelude.{◌≡◌, refl, true, some, none, [], ◌∷◌}
use shield_dns.Text.{
  lit, text_eq, to_lower, equal_fold, trim_space, trim, has_prefix, trim_prefix, has_suffix,
  trim_suffix, contains, cut, split,
}
use shield_dns.Domain.{normalize_domain}
use shield_dns.Adblock.Parsed.{IsParsed, parse_adblock_rule-IsParsed}
use shield_dns.Adblock.{
  empty_rule, is_browser_modifier, is_cosmetic, client_value, add_modifier, add_modifiers,
  is_regex_line, drop_last, inner, check_line, with_domain, before_caret, domain_part,
  parse_pattern, parse_modifiers, parse_adblock_rule,
}

unfoldable pub adblock_run : Unit {0}
unfolding lit text_eq to_lower equal_fold trim_space trim has_prefix trim_prefix has_suffix
    trim_suffix contains cut split normalize_domain is_browser_modifier is_cosmetic client_value
    add_modifier add_modifiers is_regex_line drop_last inner check_line with_domain before_caret
    domain_part parse_pattern parse_modifiers parse_adblock_rule
adblock_run = tt

parse_tests :
    (parse_adblock_rule (lit "||Example.com^$important,client='10.0.0.1'")
      ≡ some (record empty_rule {
        domain = lit "example.com";
        is_important = true;
        is_dns_rule = true;
        client_ip = lit "10.0.0.1";
        modifiers = lit "important" ∷ lit "client='10.0.0.1'" ∷ [];
      }))
    × (parse_adblock_rule (lit "@@|https://a.de/|")
        ≡ some (record empty_rule { domain = lit "a.de"; is_allowlist = true; is_dns_rule = true }))
    × (parse_adblock_rule (lit "/ads[0-9]/")
        ≡ some (record empty_rule { domain = lit "ads[0-9]"; is_regex = true }))
    × (parse_adblock_rule (lit "||a.de/banner.gif") ≡ none)
    × (parse_adblock_rule (lit "||a.de^$script") ≡ none)
    × (parse_adblock_rule (lit "a.de##.ad") ≡ none)
    × (parse_adblock_rule (lit "# comment") ≡ none)
unfolding adblock_run
parse_tests = (refl, refl, refl, refl, refl, refl, refl)

parse_adblock_rule-IsParsed_example :
    IsParsed (has_prefix (lit "@@") (trim_space (lit "@@||a.de^$important"))) (record empty_rule {
      domain = lit "a.de";
      is_allowlist = true;
      is_important = true;
      is_dns_rule = true;
      modifiers = lit "important" ∷ [];
    })
unfolding adblock_run
parse_adblock_rule-IsParsed_example = parse_adblock_rule-IsParsed (lit "@@||a.de^$important") _ refl
