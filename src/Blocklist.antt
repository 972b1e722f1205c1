-- ===== src/Blocklist.antt =====
-- admin/config_blocklist.go: the maps behind a blocklist update, how the allowlist is applied to
-- them, and the lookup that decides a query (the loops of `parseLogLine` and `handleSearch`).
pub mod Parents
pub mod Applied
pub mod Verdict
pub mod Tests
use shield_dns.Prelude.{
  ℕ, ◌≡◌, refl, Bool, true, false, not, ◌&&◌, ◌||◌, List, [], ◌∷◌, ◌++◌, any, keep, Option, none,
  some, if◌then◌else◌, is_some, option_or, String,
}
use shield_dns.Text.{Text, lit, text_eq, is_empty, has_prefix, trim_prefix, split, join}
use shield_dns.Table.{Table, lookup, insert, delete, keep_keys, member, add}

-- `map[string][]string`: a blocked domain, with the lists that name it.
abbrev pub Attribution : Type 0
Attribution = Table (List Text)

-- `"*." + d`
abbrev pub wildcard : Text → Text
wildcard d = b'*' ∷ b'.' ∷ d

-- `strings.Join(parts[i:], ".")` for `i := 1; i < len(parts); i++`
unfoldable pub joined_tails : List Text → List Text
joined_tails [] = []
joined_tails (p ∷ []) = []
joined_tails (p ∷ q ∷ ps) = join b'.' (q ∷ ps) ∷ joined_tails (q ∷ ps)

unfoldable pub parent_domains : Text → List Text
parent_domains d = joined_tails (split b'.' d)

-- The first loop of `applyCurrentRules`: the domain or a parent of it is on the allowlist.
unfoldable pub is_allowed : List Text → Text → Bool
is_allowed allow d = member d allow || any (λ p. member p allow) (parent_domains d)

-- The second loop: the wildcards over each allowed domain go.
unfoldable pub delete_wildcards : List Text → Attribution → Attribution
delete_wildcards [] m = m
delete_wildcards (p ∷ ps) m = delete_wildcards ps (delete (wildcard p) m)

unfoldable pub delete_parents : List Text → Attribution → Attribution
delete_parents [] m = m
delete_parents (a ∷ allow) m =
    delete_parents allow (delete_wildcards (parent_domains (trim_prefix (lit "*.") a)) m)

unfoldable pub test_domain : Text
test_domain = lit "shielddns-maleware.test"

unfoldable pub test_source : Text
test_source = lit "ShieldDNS Built-in Test Domain"

-- `applyCurrentRules`, up to the files that it writes from the result.
unfoldable pub apply_rules : Attribution → List Text → Attribution
apply_rules attribution allow =
    insert test_domain (test_source ∷ [])
      (delete_parents allow (keep_keys (λ d. not (is_allowed allow d)) attribution))

-- The lists that block a query: those of the domain itself, or of the first wildcard above it.
unfoldable pub first_wildcard : List Text → Attribution → Option (List Text)
first_wildcard [] m = none
first_wildcard (p ∷ ps) m = elim (lookup (wildcard p) m) [
  | none ↦ first_wildcard ps m
  | some lists ↦ some lists
]

unfoldable pub blocking_lists : Attribution → Text → Option (List Text)
blocking_lists m query = elim (lookup query m) [
  | none ↦ first_wildcard (parent_domains query) m
  | some lists ↦ some lists
]

unfoldable pub is_blocked : Attribution → Text → Bool
is_blocked m query = is_some (blocking_lists m query)
