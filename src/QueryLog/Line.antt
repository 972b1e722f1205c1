-- ===== src/QueryLog/Line.antt =====
-- admin/dns_parser.go: `parseLogLine` up to the fields of a line, and `extractQuotes` of
-- admin/api_utils.go. The duration and the user agent are left out, as in the parent. A stamp such as
-- "[16:23:02]" is ten bytes.
use shield_dns.Prelude.{
  ℕ, zero, suc, Bool, true, false, not, ◌&&◌, ◌||◌, List, [], ◌∷◌, ◌++◌, Option, none, some,
  if◌then◌else◌, leb, ltb, length, drop, ◌==◌,
}
use shield_dns.Text.{
  Text, lit, is_empty, trim_space, cut_prefix, has_prefix, contains, before, cut_last, fields,
}
use shield_dns.Table.{Table}
use shield_dns.Domain.{normalize_domain}
use shield_dns.Server.{Server}
use shield_dns.QueryLog.{Answer, Signature, Entry, log_answer}

abbrev pub log_prefixes : List Text
log_prefixes =
    lit "[INFO]" ∷ lit "[DEBUG]" ∷ lit "[ERROR]" ∷ lit "[CoreDNS]" ∷ lit "[CoreDNS-ERR]" ∷ []

-- The line behind the first of the prefixes that it has.
unfoldable pub behind_prefix : List Text → Text → Option Text
behind_prefix [] line = none
behind_prefix (p ∷ ps) line = elim (cut_prefix p line) [
  | some rest ↦ some (trim_space rest)
  | none ↦ behind_prefix ps line
]

unfoldable pub behind_stamp : Text → Option Text
behind_stamp line =
    if ltb 10 (length line) && has_prefix (b'[' ∷ []) line && has_prefix (b']' ∷ []) (drop 9 line)
    then some (trim_space (drop 10 line))
    else none

unfoldable pub behind_tag : Text → Option Text
behind_tag line = elim (behind_prefix log_prefixes line) [
  | some rest ↦ some rest
  | none ↦ behind_stamp line
]

-- The loop over the tags, for a number of rounds. An empty line has no tag and ends it too.
unfoldable pub strip_tags : ℕ → Text → Text
strip_tags zero line = line
strip_tags (suc n) line = elim (behind_tag (trim_space line)) [
  | none ↦ trim_space line
  | some rest ↦ strip_tags n rest
]

-- `extractQuotes`, with what stands behind an open quote so far.
unfoldable pub quotes_from : Option Text → Text → List Text
quotes_from start [] = []
quotes_from none (c ∷ s) = elim (c == b'"') [
  | true ↦ quotes_from (some []) s
  | false ↦ quotes_from none s
]
quotes_from (some q) (c ∷ s) = elim (c == b'"') [
  | true ↦ q ∷ quotes_from none s
  | false ↦ quotes_from (some (q ++ (c ∷ []))) s
]

abbrev pub extract_quotes : Text → List Text
extract_quotes s = quotes_from none s

unfoldable pub first_text : List Text → Text
first_text [] = []
first_text (w ∷ ws) = w

-- The type and the domain of "TYPE CLASS NAME +flags".
unfoldable pub query_words : List Text → Text × Text
query_words (kind ∷ class ∷ name ∷ ws) = (kind, normalize_domain name)
query_words ws = ([], [])

-- The return code and the flags behind the last quote.
unfoldable pub result_words : List Text → Text × Text
result_words (rcode ∷ flags ∷ w ∷ ws) = (rcode, flags)
result_words ws = ([], [])

abbrev pub last_part : Option (Text × Text) → Text
last_part none = []
last_part (some (front, back)) = back

-- The format of CoreDNS: remote:port - id "query_info" rcode rflags size duration
unfoldable pub default_answer : List Text → Text → Text → Answer
default_answer ws quote line =
    let (kind, domain) = query_words (fields quote) in
    let (rcode, flags) = result_words (fields (trim_space (last_part (cut_last b'"' line)))) in
    record {
      remote = first_text ws;
      kind = kind;
      domain = domain;
      rcode = rcode;
      flags = flags;
      real_ip = [];
    }

-- The format of the server: remote type name rcode rflags duration "user-agent" "x-real-ip"
unfoldable pub custom_answer : List Text → List Text → Option Answer
custom_answer (remote ∷ kind ∷ name ∷ rcode ∷ flags ∷ duration ∷ ws) quotes = some (record {
  remote = remote;
  kind = kind;
  domain = normalize_domain name;
  rcode = rcode;
  flags = flags;
  real_ip = first_text quotes;
})
custom_answer ws quotes = none

unfoldable pub answer_from : Text → List Text → Option Answer
answer_from line [] = none
answer_from line (quote ∷ quotes) =
    let front = trim_space (before (λ c. c == b'"') line) in
    if contains (lit " - ") front && leb 3 (length (fields front))
    then some (default_answer (fields front) quote line)
    else custom_answer (fields front) quotes

unfoldable pub is_whole : Answer → Bool
is_whole a = not (is_empty a.kind || is_empty a.domain || is_empty a.rcode)

unfoldable pub whole_answer : Option Answer → Option Answer
whole_answer none = none
whole_answer (some a) = if is_whole a then some a else none

unfoldable pub line_answer : Text → Option Answer
line_answer line =
    let stripped = strip_tags (suc (length line)) line in
    whole_answer (answer_from stripped (extract_quotes stripped))

unfoldable pub parse_log_line :
    ℕ → (Text → Bool) → Server → Text → Table Signature → Table Signature × Option Entry
parse_log_line now is_malicious s line recent = elim (line_answer line) [
  | none ↦ (recent, none)
  | some a ↦ log_answer now is_malicious s a recent
]
