-- ===== src/QueryLog/Written.antt =====
-- A line that is written in the server's own format (the `log` directive in admin/dns.go), and read back.
use shield_dns.Prelude.{
  ℕ, suc, ◌≡◌, refl, sym, ap, ◌∙◌, Bool, false, List, [], ◌∷◌, ◌++◌, append_assoc, append-nil, none,
  some, length, ◌==◌,
}
use shield_dns.Text.{Text, lit, is_empty, is_space, trim_right, trim_space, contains, join}
use shield_dns.Text.Words.{
  IsFree, IsFree-append, Leads, Leads-append, Leads-IsFree, trim_left-Leads, IsKept, IsKept-append,
  before-append, AreWords, trim_right-join, fields-join,
}
use shield_dns.Domain.{normalize_domain}
use shield_dns.QueryLog.{Answer}
use shield_dns.QueryLog.Untagged.{is_bracket, behind_tag-Leads}
use shield_dns.QueryLog.Line.{
  behind_tag, strip_tags, quotes_from, extract_quotes, first_text, custom_answer, answer_from,
  is_whole, whole_answer, line_answer,
}

abbrev pub is_quote : ℕ → Bool
is_quote c = c == b'"'

pub record LogLine : Type 0 where
  pub remote : Text
  pub kind : Text
  pub name : Text
  pub rcode : Text
  pub flags : Text
  pub duration : Text
  pub user_agent : Text
  pub real_ip : Text

abbrev pub front_words : LogLine → List Text
front_words l = l.remote ∷ l.kind ∷ l.name ∷ l.rcode ∷ l.flags ∷ l.duration ∷ []

abbrev pub quoted : LogLine → Text
quoted l = l.user_agent ++ (b'"' ∷ b' ' ∷ b'"' ∷ (l.real_ip ++ (b'"' ∷ [])))

unfoldable pub write_line : LogLine → Text
write_line l = (join b' ' (front_words l) ++ (b' ' ∷ [])) ++ (b'"' ∷ quoted l)

quotes_from-none :
    (s t : Text) → IsFree is_quote s → quotes_from none (s ++ (b'"' ∷ t)) ≡ quotes_from (some []) t
unfolding quotes_from IsFree
quotes_from-none [] t free = refl
quotes_from-none (c ∷ s) t (here, free) = rw (quotes_from, here) (quotes_from-none s t free)

quotes_from-some :
    (q s t : Text)
    → IsFree is_quote s
    → quotes_from (some q) (s ++ (b'"' ∷ t)) ≡ (q ++ s) ∷ quotes_from none t
unfolding quotes_from IsFree
quotes_from-some q [] t free = ap (λ r. r ∷ quotes_from none t) (sym (append-nil q))
quotes_from-some q (c ∷ s) t (here, free) =
    rw (quotes_from, here)
      (quotes_from-some (q ++ (c ∷ [])) s t free
        ∙ ap (λ r. r ∷ quotes_from none t) (append_assoc q (c ∷ []) s))

extract_quotes-written :
    (front agent ip : Text)
    → IsFree is_quote front
    → IsFree is_quote agent
    → IsFree is_quote ip
    → extract_quotes (front ++ (b'"' ∷ (agent ++ (b'"' ∷ b' ' ∷ b'"' ∷ (ip ++ (b'"' ∷ []))))))
      ≡ agent ∷ ip ∷ []
unfolding quotes_from
extract_quotes-written front agent ip free-front free-agent free-ip =
    quotes_from-none front (agent ++ (b'"' ∷ b' ' ∷ b'"' ∷ (ip ++ (b'"' ∷ [])))) free-front
    ∙ (quotes_from-some [] agent (b' ' ∷ b'"' ∷ (ip ++ (b'"' ∷ []))) free-agent
        ∙ ap (λ r. agent ∷ r) (quotes_from-some [] ip [] free-ip))

-- Six words without spaces or quotes, no dash between two spaces, no bracket at the start, the name of a
-- domain, and no quotes within the last two fields.
pub record IsWritable (l : LogLine) : Type 0 where
  pub words : AreWords (front_words l)
  pub unquoted : IsFree is_quote (join b' ' (front_words l))
  pub agent : IsFree is_quote l.user_agent
  pub ip : IsFree is_quote l.real_ip
  pub bracket : Leads is_bracket l.remote
  pub dash : contains (lit " - ") (join b' ' (front_words l)) ≡ false
  pub named : is_empty (normalize_domain l.name) ≡ false

Leads-line : (p : ℕ → Bool) (l : LogLine) → Leads p l.remote → Leads p (write_line l)
unfolding write_line join
Leads-line p l leads = Leads-append p (join b' ' (front_words l) ++ (b' ' ∷ [])) (b'"' ∷ quoted l) (
    Leads-append p (join b' ' (front_words l)) (b' ' ∷ []) (
      Leads-append p l.remote
        (b' ' ∷ join b' ' (l.kind ∷ l.name ∷ l.rcode ∷ l.flags ∷ l.duration ∷ [])) leads))

IsKept-line : (l : LogLine) → IsKept is_space (write_line l)
unfolding write_line IsKept trim_right is_space
IsKept-line l =
    IsKept-append is_space (join b' ' (front_words l) ++ (b' ' ∷ [])) (b'"' ∷ quoted l) (
      IsKept-append is_space (b'"' ∷ []) (quoted l) (
        IsKept-append is_space l.user_agent (b'"' ∷ b' ' ∷ b'"' ∷ (l.real_ip ++ (b'"' ∷ []))) (
          IsKept-append is_space (b'"' ∷ b' ' ∷ b'"' ∷ []) (l.real_ip ++ (b'"' ∷ []))
            (IsKept-append is_space l.real_ip (b'"' ∷ []) (refl, refl)))))

Leads-remote : (l : LogLine) → AreWords (front_words l) → Leads is_space l.remote
unfolding AreWords
Leads-remote l words = Leads-IsFree is_space l.remote words.0 words.1

strip_tags-none :
    (n : ℕ) (line : Text)
    → behind_tag (trim_space line) ≡ none
    → strip_tags (suc n) line ≡ trim_space line
unfolding strip_tags
strip_tags-none n line h = rw (strip_tags, h) refl

strip_tags-line :
    (n : ℕ) (l : LogLine)
    → AreWords (front_words l)
    → Leads is_bracket l.remote
    → strip_tags (suc n) (write_line l) ≡ write_line l
unfolding trim_space IsKept
strip_tags-line n l words bracket =
    let line = write_line l in
    let left = trim_left-Leads is_space line (Leads-line is_space l (Leads-remote l words)) in
    let trimmed : trim_space line ≡ line = ap (trim_right is_space) left ∙ (IsKept-line l).0 in
    let no_tag = behind_tag-Leads line (Leads-line is_bracket l bracket) in
    strip_tags-none n line (ap behind_tag trimmed ∙ no_tag) ∙ trimmed

front-trimmed :
    (l : LogLine)
    → AreWords (front_words l)
    → trim_space (join b' ' (front_words l) ++ (b' ' ∷ [])) ≡ join b' ' (front_words l)
unfolding trim_space join
front-trimmed l words =
    ap (trim_right is_space) (
      trim_left-Leads is_space (join b' ' (front_words l) ++ (b' ' ∷ [])) (
        Leads-append is_space (join b' ' (front_words l)) (b' ' ∷ []) (
          Leads-append is_space l.remote
            (b' ' ∷ join b' ' (l.kind ∷ l.name ∷ l.rcode ∷ l.flags ∷ l.duration ∷ []))
            (Leads-remote l words))))
    ∙ trim_right-join l.remote (l.kind ∷ l.name ∷ l.rcode ∷ l.flags ∷ l.duration ∷ []) words

-- What the fields of a written line are read as.
abbrev pub written_answer : LogLine → Answer
written_answer l = record {
  remote = l.remote;
  kind = l.kind;
  domain = normalize_domain l.name;
  rcode = l.rcode;
  flags = l.flags;
  real_ip = l.real_ip;
}

IsFree-front :
    (l : LogLine) → IsWritable l → IsFree is_quote (join b' ' (front_words l) ++ (b' ' ∷ []))
unfolding IsFree
IsFree-front l good =
    IsFree-append is_quote (join b' ' (front_words l)) (b' ' ∷ []) good.unquoted (refl, tt)

answer_from-line :
    (l : LogLine)
    → IsWritable l
    → answer_from (write_line l) (l.user_agent ∷ l.real_ip ∷ []) ≡ some (written_answer l)
unfolding answer_from write_line custom_answer first_text
answer_from-line l good =
    let front = join b' ' (front_words l) ++ (b' ' ∷ []) in
    let cut = before-append is_quote front (quoted l) b'"' (IsFree-front l good) refl in
    rw
      (
        answer_from,
        cut,
        front-trimmed l good.words,
        good.dash,
        fields-join l.remote (l.kind ∷ l.name ∷ l.rcode ∷ l.flags ∷ l.duration ∷ []) good.words,
      )
      refl

whole_answer-line :
    (l : LogLine) → IsWritable l → whole_answer (some (written_answer l)) ≡ some (written_answer l)
unfolding whole_answer is_whole AreWords
whole_answer-line l good =
    rw (whole_answer, is_whole, good.words.2.0, good.named, good.words.2.2.2.0) refl

-- A line that the front end writes in the format of the server is read back as the fields that were
-- written, the domain normalised, if the six fields in front are words that hold no quotes, none of them
-- makes a lone dash between two spaces, the first does not start with a bracket, the name is one of a
-- domain, and the user agent and the forwarded address hold no quotes.
pub line_answer-write_line :
    (l : LogLine) → IsWritable l → line_answer (write_line l) ≡ some (written_answer l)
unfolding line_answer write_line
line_answer-write_line l good =
    let front = join b' ' (front_words l) ++ (b' ' ∷ []) in
    let stripped = strip_tags-line (length (write_line l)) l good.words good.bracket in
    let quotes =
      extract_quotes-written front l.user_agent l.real_ip (IsFree-front l good) good.agent
        good.ip in
    ap (λ t. whole_answer (answer_from t (extract_quotes t))) stripped
    ∙ (ap (λ q. whole_answer (answer_from (write_line l) q)) quotes
        ∙ (ap whole_answer (answer_from-line l good) ∙ whole_answer-line l good))
