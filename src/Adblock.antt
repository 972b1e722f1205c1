-- ===== src/Adblock.antt =====
-- admin/api_utils.go: `AdblockRule`, `isBrowserModifier` and `ParseAdblockRule`.
-- A nil rule is `none`.
pub mod Parsed
pub mod Tests
use shield_dns.Prelude.{
  ℕ, ◌≡◌, refl, Bool, true, false, not, ◌&&◌, ◌||◌, List, [], ◌∷◌, ◌++◌, any, Option, none, some,
  length, ltb, if◌then◌else◌, ◌==◌,
}
use shield_dns.Text.{
  Text, lit, text_eq, is_empty, to_lower, equal_fold, trim_space, trim, has_prefix, trim_prefix,
  has_suffix, trim_suffix, contains, cut, split,
}
use shield_dns.Domain.{normalize_domain}

pub record AdblockRule : Type 0 where
  pub domain : Text
  pub is_allowlist : Bool
  pub is_important : Bool
  pub is_dns_rule : Bool
  pub is_regex : Bool
  pub client_ip : Text
  pub modifiers : List Text

abbrev pub empty_rule : AdblockRule
empty_rule = record {
  domain = [];
  is_allowlist = false;
  is_important = false;
  is_dns_rule = false;
  is_regex = false;
  client_ip = [];
  modifiers = [];
}

unfoldable pub is_browser_modifier : Text → Bool
is_browser_modifier raw =
    let mod' = trim_space (to_lower raw) in
    if text_eq mod' (lit "important")
      || text_eq mod' (lit "~important")
      || text_eq mod' (lit "badfilter")
    then false
    else if has_prefix (lit "client=") mod'
        || has_prefix (lit "ctag=") mod'
        || has_prefix (lit "dnstype=") mod'
        || has_prefix (lit "dnsrewrite=") mod'
    then false
    else true

-- The markers of cosmetic rules.
unfoldable pub is_cosmetic : Text → Bool
is_cosmetic line =
    contains (lit "##") line
    || contains (lit "#@#") line
    || contains (lit "#?#") line
    || contains (lit "#$#") line
    || contains (lit "#@$#") line
    || contains (lit "#%#") line
    || contains (lit "#@%#") line
    || contains (lit "$$") line

-- `mod[len("client="):]`, and that without its quotes
abbrev after_client : Text → Text
after_client (a ∷ b ∷ c ∷ d ∷ e ∷ f ∷ g ∷ s) = s
after_client s = []

unfoldable pub client_value : Text → Text
client_value mod' = trim (lit "'\" ") (after_client mod')

-- One modifier that is not empty, in the loop over the modifiers.
unfoldable pub add_modifier : AdblockRule → Text → AdblockRule
add_modifier rule mod' = record rule {
  modifiers = rule.modifiers ++ (to_lower mod' ∷ []);
  is_important = rule.is_important || equal_fold mod' (lit "important");
  client_ip =
      if has_prefix (lit "client=") (to_lower mod') then client_value mod' else rule.client_ip;
}

unfoldable pub add_modifiers : AdblockRule → List Text → Option AdblockRule
add_modifiers rule [] = some rule
add_modifiers rule (m ∷ ms) =
    let mod' = trim_space m in
    let skipped = add_modifiers rule ms in
    let added = add_modifiers (add_modifier rule mod') ms in
    if is_empty mod' then skipped else if is_browser_modifier (to_lower mod') then none else added

-- `/pattern/`, with its length above 2 and no slash behind the first one
unfoldable pub is_regex_line : Text → Bool
is_regex_line (a ∷ b ∷ c ∷ s) =
    a == b'/' && has_suffix (lit "/") (a ∷ b ∷ c ∷ s) && not (b == b'/') && not (b == b'\\')
is_regex_line s = false

-- `line[1 : len(line)-1]`
unfoldable pub drop_last : Text → Text
drop_last [] = []
drop_last (c ∷ []) = []
drop_last (c ∷ d ∷ s) = c ∷ drop_last (d ∷ s)

unfoldable pub inner : Text → Text
inner [] = []
inner (c ∷ s) = drop_last s

-- `checkLine`: the rule with its anchors, protocol, separator and one slash taken off.
unfoldable pub check_line : Text → Text
check_line line =
    let bare = trim_prefix (lit "||") line in
    let open_end = if has_prefix (lit "|") bare then trim (lit "|") bare else bare in
    let host =
      if has_prefix (lit "https://") open_end
      then trim_prefix (lit "https://") open_end
      else trim_prefix (lit "http://") open_end in
    trim_suffix (lit "/") (trim_suffix (lit "^") host)

-- The rule for `content`, where that normalises to a domain.
unfoldable pub with_domain : AdblockRule → Text → Option AdblockRule
with_domain rule content =
    let d = normalize_domain content in
    if is_empty d then none else some (record rule { domain = d; is_dns_rule = true })

-- `content[:idx]` at the first "^"
unfoldable pub before_caret : Text → Text
before_caret content = elim (cut (lit "^") content) [ none ↦ content | some (front, back) ↦ front ]

-- The part of the line that holds the domain: steps 4 to 7.
unfoldable pub domain_part : Text → Text
domain_part line =
    if has_prefix (lit "||") line
    then before_caret (trim_prefix (lit "||") line)
    else if has_prefix (lit "|") line
    then trim (lit "|") line
    else if has_suffix (lit "^") line
    then trim_suffix (lit "^") line
    else line

-- Steps 3 to 7, behind the modifiers.
unfoldable pub parse_pattern : AdblockRule → Text → Option AdblockRule
parse_pattern rule line =
    if is_regex_line line
    then some (record rule { is_regex = true; domain = inner line })
    else if contains (lit "/") (check_line line)
    then none
    else with_domain rule (domain_part line)

-- Step 2: the modifiers behind the first "$".
unfoldable pub parse_modifiers : AdblockRule → Text → Option AdblockRule
parse_modifiers rule line = elim (cut (lit "$") line) [
  | none ↦ parse_pattern rule line
  | some (pattern', mods) ↦ elim (add_modifiers rule (split b',' mods)) [
    | none ↦ none
    | some rule' ↦ parse_pattern rule' pattern'
  ]
]

abbrev pub is_skipped : Text → Bool
is_skipped line =
    is_empty line || has_prefix (lit "#") line || has_prefix (lit "!") line || is_cosmetic line

unfoldable pub parse_adblock_rule : Text → Option AdblockRule
parse_adblock_rule raw =
    let line = trim_space raw in
    if is_skipped line
    then none
    else if has_prefix (lit "@@") line
    then parse_modifiers (record empty_rule { is_allowlist = true }) (trim_prefix (lit "@@") line)
    else parse_modifiers empty_rule line
