-- ===== src/Cluster/OutboundUrl.antt =====
-- admin/api_security.go: `safeOutboundURLRegex`. What follows each part of the expression is a byte that
-- the part before cannot hold, so each part takes the longest run.
use shield_dns.Prelude.{
  ℕ, Bool, true, false, not, ◌&&◌, ◌||◌, [], ◌∷◌, all, leb, length, none, some, ◌==◌, if◌then◌else◌,
}
use shield_dns.Text.{Text, lit, cut_prefix, trim_left, before, is_empty}

unfoldable pub is_digit : ℕ → Bool
is_digit c = leb b'0' c && leb c b'9'

-- `[a-zA-Z0-9.-]`
unfoldable pub is_host_byte : ℕ → Bool
is_host_byte c =
    is_digit c || leb b'a' c && leb c b'z' || leb b'A' c && leb c b'Z' || c == b'.' || c == b'-'

-- `[a-fA-F0-9:]`
unfoldable pub is_ipv6_byte : ℕ → Bool
is_ipv6_byte c = is_digit c || leb b'a' c && leb c b'f' || leb b'A' c && leb c b'F' || c == b':'

-- `\s`, which is '\t' '\n' '\f' '\r' ' '
unfoldable pub is_regex_space : ℕ → Bool
is_regex_space c = c == 9 || c == 10 || c == 12 || c == 13 || c == 32

-- `(?:/[^\s]*)?$`
unfoldable pub is_path_end : Text → Bool
is_path_end [] = true
is_path_end (c ∷ s) = c == b'/' && all (λ d. not (is_regex_space d)) s

-- `(?::[0-9]{1,5})?`, and the rest
unfoldable pub is_port_end : Text → Bool
is_port_end [] = true
is_port_end (c ∷ s) =
    if c == b':'
    then (let digits = before (λ d. not (is_digit d)) s in
        leb 1 (length digits) && leb (length digits) 5 && is_path_end (trim_left is_digit s))
    else is_path_end (c ∷ s)

-- `([a-zA-Z0-9.-]+|\[[a-fA-F0-9:]+\])`, and the rest
unfoldable pub is_host_end : Text → Bool
is_host_end [] = false
is_host_end (c ∷ s) =
    if c == b'['
    then (let inside = before (λ d. not (is_ipv6_byte d)) s in
        not (is_empty inside) && elim (cut_prefix (b']' ∷ []) (trim_left is_ipv6_byte s)) [
          | none ↦ false
          | some rest ↦ is_port_end rest
        ])
    else is_host_byte c && is_port_end (trim_left is_host_byte s)

-- `safeOutboundURLRegex.MatchString`
unfoldable pub is_outbound_url : Text → Bool
is_outbound_url raw = elim (cut_prefix (lit "http://") raw) [
  | some rest ↦ is_host_end rest
  | none ↦ elim (cut_prefix (lit "https://") raw) [ some rest ↦ is_host_end rest | none ↦ false ]
]
