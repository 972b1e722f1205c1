-- ===== src/Domain.antt =====
-- admin/api_utils.go: `NormalizeDomain` and `isValidDomain`, with `net.SplitHostPort`.
-- `net.ParseIP` is the argument `parse_ip`, by whether it returns an address.
pub mod Normal
pub mod Fixed
pub mod Tests
use shield_dns.Prelude.{
  ℕ, ◌+◌, ◌≡◌, refl, Bool, true, false, not, ◌&&◌, ◌||◌, List, [], ◌∷◌, ◌++◌, all, any, Option,
  none, some, length, leb, ltb, ◌==◌, if◌then◌else◌,
}
use shield_dns.Text.{
  Text, lit, text_eq, is_empty, to_lower, trim_space, has_byte, has_prefix, trim_prefix, contains,
  trim_suffix, cut, before, cut_last, split,
}

-- `net.SplitHostPort`; `none` is an error. The cases of a host in brackets:
-- `end` is the text behind the first `]`.
host_in_brackets : Option (Text × Text) → Option (Text × Text)
host_in_brackets none = none
host_in_brackets (some (host, [])) = none
host_in_brackets (some (host, c ∷ port)) =
    if c == b':'
      && not (has_byte b':' port || has_byte b'[' host || has_byte b'[' port || has_byte b']' port)
    then some (host, port)
    else none

host_before_colon : Option (Text × Text) → Option (Text × Text)
host_before_colon none = none
host_before_colon (some (host, port)) =
    if has_byte b':' host
      || has_byte b'[' host
      || has_byte b'[' port
      || has_byte b']' host
      || has_byte b']' port
    then none
    else some (host, port)

unfoldable pub split_host_port : Text → Option (Text × Text)
unfolding host_in_brackets host_before_colon has_byte cut cut_last
split_host_port [] = none
split_host_port (c ∷ s) =
    if c == b'['
    then host_in_brackets (cut (b']' ∷ []) s)
    else host_before_colon (cut_last b':' (c ∷ s))

-- The bytes that a normalised domain may hold.
unfoldable pub is_domain_byte : ℕ → Bool
is_domain_byte c =
    leb b'a' c && leb c b'z'
    || leb b'0' c && leb c b'9'
    || c == b'.'
    || c == b'-'
    || c == b'_'
    || c == b'*'

-- `len(s) > 1 && s[0] == '/' && (s[1] == '/' || s[1] == '\\')`
starts_two_slashes : Text → Bool
starts_two_slashes (c ∷ d ∷ s) = c == b'/' && (d == b'/' || d == b'\\')
starts_two_slashes s = false

unfoldable pub is_rejected : Text → Bool
unfolding has_prefix contains starts_two_slashes lit
is_rejected s =
    has_prefix (lit "//") s
    || has_prefix (lit "/\\") s
    || starts_two_slashes s
    || has_prefix (lit "/") s
    || has_prefix (lit "\\") s
    || contains (lit "..") s

unfoldable pub strip_protocol : Text → Text
unfolding cut lit
strip_protocol s = elim (cut (lit "://") s) [ none ↦ s | some (scheme, rest) ↦ rest ]

unfoldable pub strip_path : Text → Text
unfolding before has_byte lit
strip_path s = before (λ c. has_byte c (lit "/?#\\")) s

unfoldable pub strip_port : Text → Text
unfolding split_host_port
strip_port s = elim (split_host_port s) [
  | none ↦ s
  | some (host, port) ↦ if is_empty host then s else host
]

-- Everything behind the rejections: protocol, path, port, trailing dot, and the last check.
unfoldable pub strip_all : Text → Text
unfolding strip_protocol strip_path strip_port trim_suffix is_domain_byte lit
strip_all s =
    let host = trim_suffix (lit ".") (strip_port (strip_path (strip_protocol s))) in
    if all is_domain_byte host then host else []

-- `NormalizeDomain` behind its first line, which lowers and trims.
unfoldable pub normalize_trimmed : Text → Text
unfolding is_rejected strip_all
normalize_trimmed s = if is_empty s then [] else if is_rejected s then [] else strip_all s

unfoldable pub normalize_domain : Text → Text
unfolding to_lower trim_space normalize_trimmed
normalize_domain raw = normalize_trimmed (trim_space (to_lower raw))

-- `[a-zA-Z0-9_]`, and with the dash
unfoldable pub is_word_byte : ℕ → Bool
is_word_byte c =
    leb b'a' c && leb c b'z' || leb b'A' c && leb c b'Z' || leb b'0' c && leb c b'9' || c == b'_'

abbrev last_or : ℕ → Text → ℕ
last_or c [] = c
last_or c (d ∷ s) = last_or d s

-- `[a-zA-Z0-9_]([a-zA-Z0-9-_]{0,61}[a-zA-Z0-9_])?`
unfoldable pub is_label : Text → Bool
unfolding is_word_byte
is_label [] = false
is_label (c ∷ s) =
    is_word_byte c
    && is_word_byte (last_or c s)
    && all (λ d. is_word_byte d || d == b'-') s
    && leb (length (c ∷ s)) 63

-- `domainRegex`: an optional "*.", and labels with dots between them
unfoldable pub matches_domain_regex : Text → Bool
unfolding is_label split trim_prefix lit
matches_domain_regex s = all is_label (split b'.' (trim_prefix (lit "*.") s))

unfoldable pub is_valid_domain : (Text → Bool) → Text → Bool
unfolding matches_domain_regex has_byte lit
is_valid_domain parse_ip s =
    if is_empty s
    then false
    else if parse_ip s
    then true
    else if ltb 253 (length s)
    then false
    else if any (λ c. has_byte c (lit " \n\r\t{}()<>\\\"'`|")) s
    then false
    else matches_domain_regex s
