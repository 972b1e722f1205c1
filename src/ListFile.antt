-- ===== src/ListFile.antt =====
-- admin/config_blocklist.go: `addDomain`, and the loop of `processList` over the lines of a list.
-- Opening the file or the download is left out: the lines are given.
pub mod Added
pub mod Tests
use shield_dns.Prelude.{
  ℕ, zero, suc, ◌+◌, ◌≡◌, refl, Bool, true, false, not, ◌&&◌, ◌||◌, List, [], ◌∷◌, ◌++◌, any,
  Option, none, some, if◌then◌else◌, ◌==◌, option_or,
}
use shield_dns.Text.{
  Text, lit, text_eq, is_empty, trim_space, has_prefix, has_byte, cut, split, fields,
}
use shield_dns.Table.{lookup, insert, member, add}
use shield_dns.Domain.{normalize_domain}
use shield_dns.Adblock.{AdblockRule, is_skipped, parse_adblock_rule}
use shield_dns.Blocklist.{Attribution, wildcard}

-- The maps that a list fills; a nil map is `none`.
pub record Maps : Type 0 where
  pub block : Option Attribution
  pub allow_set : Option (List Text)
  pub allow_attr : Option Attribution

-- `m[d] = append(m[d], name)`
unfoldable pub append_list : Text → Text → Attribution → Attribution
append_list d name m = insert d (option_or (lookup d m) [] ++ (name ∷ [])) m

abbrev append_attr : Text → Text → Option Attribution → Option Attribution
append_attr d name none = none
append_attr d name (some m) = some (append_list d name m)

-- One round of the loop of `addDomain`, into the allowlist and into the blocklist.
unfoldable pub add_allowed : Text → Text → Maps → Option (List Text) → Maps × Bool
add_allowed d name maps none = (maps, false)
add_allowed d name maps (some set) = (
  record maps { allow_set = some (add d set); allow_attr = append_attr d name maps.allow_attr },
  not (member d set),
)

unfoldable pub add_blocked : Text → Text → Maps → Option Attribution → Maps × Bool
add_blocked d name maps none = (maps, false)
add_blocked d name maps (some m) =
    if member name (option_or (lookup d m) [])
    then (maps, false)
    else (record maps { block = some (append_list d name m) }, true)

unfoldable pub add_one : Bool → Text → Text → Maps → Maps × Bool
add_one true name d maps = add_allowed d name maps maps.allow_set
add_one false name d maps = add_blocked d name maps maps.block

-- `addDomain`, which every caller calls with `isWildcard` set.
unfoldable pub add_domain : Text → Bool → Text → Maps → Maps × Bool
add_domain d is_allowlist name maps =
    let (maps', added) = add_one is_allowlist name d maps in
    let (maps'', added') = add_one is_allowlist name (wildcard d) maps' in
    if has_prefix (lit "*.") d then (maps', added) else (maps'', added || added')

-- The maps, and how many calls of `addDomain` added something.
abbrev pub Progress : Type 0
Progress = Maps × ℕ

unfoldable pub add_counted : Bool → Text → Text → Progress → Progress
add_counted is_allowlist name d (maps, count) =
    let (maps', added) = add_domain d is_allowlist name maps in
    (maps', if added then suc count else count)

-- `d := NormalizeDomain(p); if d != "" { addDomain(d, …) }`
unfoldable pub add_normalized : Bool → Text → Text → Progress → Progress
add_normalized is_allowlist name p progress =
    let d = normalize_domain p in
    if is_empty d then progress else add_counted is_allowlist name d progress

unfoldable pub add_all_normalized : Bool → Text → List Text → Progress → Progress
add_all_normalized is_allowlist name [] progress = progress
add_all_normalized is_allowlist name (p ∷ ps) progress =
    add_all_normalized is_allowlist name ps (add_normalized is_allowlist name p progress)

unfoldable pub is_hosts_line : Text → Bool
is_hosts_line line =
    has_prefix (lit "0.0.0.0 ") line
    || has_prefix (lit "127.0.0.1 ") line
    || has_prefix (lit "::1 ") line
    || has_prefix (lit ":: ") line

abbrev rest_of : List Text → List Text
rest_of [] = []
rest_of (p ∷ ps) = ps

-- `parts[1]`, where there are three parts
abbrev second_of_three : List Text → List Text
second_of_three (a ∷ b ∷ c ∷ ps) = b ∷ []
second_of_three ps = []

abbrev ends_in_space : Text → Bool
ends_in_space [] = false
ends_in_space (c ∷ []) = c == b' ' || c == b'\t'
ends_in_space (c ∷ d ∷ s) = ends_in_space (d ∷ s)

-- The text before an inline comment; `none` where the mark has no space before it.
unfoldable pub before_comment : ℕ → Text → Option Text
before_comment mark line = elim (cut (mark ∷ []) line) [
  | none ↦ some line
  | some (front, back) ↦ if ends_in_space front then some (trim_space front) else none
]

-- Step 6: a domain, or several with spaces or commas between them.
abbrev split_commas : List Text → List Text
split_commas [] = []
split_commas (p ∷ ps) = split b',' p ++ split_commas ps

unfoldable pub raw_domains : Text → List Text
raw_domains line =
    if is_empty line || any (λ c. has_byte c (lit "/?=&:$*")) line
    then []
    else split_commas (fields line)

unfoldable pub fallback_domains : Text → List Text
fallback_domains line = elim (before_comment b'#' line) [
  | none ↦ []
  | some bare ↦ elim (before_comment b'!' bare) [ none ↦ [] | some host ↦ raw_domains host ]
]

-- Steps 4 to 6: the names on a line that is no filter rule.
unfoldable pub listed_names : Text → List Text
listed_names line =
    if is_hosts_line line
    then rest_of (fields line)
    else if has_prefix (lit "address=/") line
    then second_of_three (split b'/' line)
    else fallback_domains line

-- Step 3: whether the line is a filter rule that applies.
unfoldable pub applies : AdblockRule → Bool
applies rule = not (is_empty rule.domain) && not (member (lit "badfilter") rule.modifiers)

unfoldable pub process_rule : Bool → Text → Text → Option AdblockRule → Progress → Progress
process_rule is_allowlist name line none progress =
    add_all_normalized is_allowlist name (listed_names line) progress
process_rule is_allowlist name line (some rule) progress =
    if applies rule
    then add_counted (is_allowlist || rule.is_allowlist) name rule.domain progress
    else add_all_normalized is_allowlist name (listed_names line) progress

abbrev drop_two : Text → Text
drop_two (a ∷ b ∷ s) = s
drop_two s = []

-- One line of the list.
unfoldable pub process_line : Bool → Text → Text → Progress → Progress
process_line is_allowlist name raw progress =
    let line = trim_space raw in
    if is_skipped line
    then progress
    else if has_prefix (lit "@@") line
    then process_rule true name (drop_two line) (parse_adblock_rule (drop_two line)) progress
    else process_rule is_allowlist name line (parse_adblock_rule line) progress

unfoldable pub process_lines : Bool → Text → List Text → Progress → Progress
process_lines is_allowlist name [] progress = progress
process_lines is_allowlist name (raw ∷ raws) progress =
    process_lines is_allowlist name raws (process_line is_allowlist name raw progress)
