-- ===== src/ListFile/Tests.antt =====
-- Runs over the lines of a list, and the properties of `add_domain` at one domain.
use shield_dns.Prelude.{◌≡◌, refl, false, some, none, [], ◌∷◌, ◌||◌}
use shield_dns.Text.{Text, lit, text_eq, has_byte, cut, split, fields}
use shield_dns.Table.{lookup, insert, member, add}
use shield_dns.Adblock.Tests.{adblock_run}
use shield_dns.Blocklist.{wildcard, parent_domains, is_blocked}
use shield_dns.ListFile.{
  Maps, append_list, add_allowed, add_blocked, add_one, add_domain, add_counted, add_normalized,
  add_all_normalized, is_hosts_line, before_comment, raw_domains, fallback_domains, listed_names,
  applies, process_rule, process_line, process_lines,
}
use shield_dns.ListFile.Added.{block_of, is_blocked-add_domain}

unfoldable pub list_run : Unit {0}
unfolding adblock_run text_eq has_byte cut split fields lookup insert member add append_list
    add_allowed add_blocked add_one add_domain add_counted add_normalized add_all_normalized
    is_hosts_line before_comment raw_domains fallback_domains listed_names applies process_rule
    process_line process_lines
list_run = tt

abbrev no_maps : Maps
no_maps = record { block = some []; allow_set = some []; allow_attr = none }

abbrev list_name : Text
list_name = lit "L"

process_test :
    process_lines false list_name
      (lit "# c" ∷ lit "0.0.0.0 a.de b.de" ∷ lit "||a.de^" ∷ lit "@@||c.de^" ∷ lit "x.y # t" ∷ [])
      (no_maps, 0)
    ≡ (
      record {
        block = some (
            (lit "a.de", list_name ∷ [])
            ∷ (lit "*.a.de", list_name ∷ [])
            ∷ (lit "b.de", list_name ∷ [])
            ∷ (lit "*.b.de", list_name ∷ [])
            ∷ (lit "x.y", list_name ∷ [])
            ∷ (lit "*.x.y", list_name ∷ [])
            ∷ []);
        allow_set = some (lit "c.de" ∷ lit "*.c.de" ∷ []);
        allow_attr = none;
      },
      4,
    )
unfolding list_run
process_test = refl

is_blocked-add_domain_example :
    is_blocked (block_of (add_domain (lit "a.de") false list_name no_maps).0) (lit "x.a.de") ≡ (
      text_eq (wildcard (lit "a.de")) (lit "x.a.de")
      || text_eq (lit "a.de") (lit "x.a.de")
      || member (lit "a.de") (parent_domains (lit "x.a.de"))
      || is_blocked [] (lit "x.a.de"))
unfolding list_run
is_blocked-add_domain_example =
    is_blocked-add_domain (lit "a.de") list_name (lit "x.a.de") no_maps [] refl refl
