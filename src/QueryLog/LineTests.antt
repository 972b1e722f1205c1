-- ===== src/QueryLog/LineTests.antt =====
-- Lines of the log as they come from the front end.
use shield_dns.Prelude.{◌≡◌, refl, arith, [], none, some, inl}
use shield_dns.Text.{
  Text, lit, text_eq, trim_space, trim_left, trim_right, is_space, cut_prefix, has_prefix, contains,
  before, cut_last, fields, join, split, drop_empty, to_lower, lower_byte, has_byte, trim_suffix,
}
use shield_dns.Domain.{normalize_domain}
use shield_dns.QueryLog.{Answer}
use shield_dns.QueryLog.Line.{
  behind_prefix, behind_stamp, behind_tag, strip_tags, quotes_from, first_text, query_words,
  result_words, default_answer, custom_answer, answer_from, is_whole, whole_answer, line_answer,
}
use shield_dns.QueryLog.Stripped.{IsStripped, strip_tags-IsStripped}
use shield_dns.Text.Words.{IsFree, IsFree-any, AreWords, Leads}
use shield_dns.QueryLog.Written.{
  is_quote, front_words, LogLine, write_line, written_answer, IsWritable, line_answer-write_line,
}
use shield_dns.QueryLog.Tagged.{IsOneOf, line_answer-prefix}

abbrev custom_line : Text
custom_line = lit "10.0.0.9:53 A X.a.de. NOERROR qr,rd 0.001s \"curl\" \"10.0.0.7\""

abbrev read_answer : Answer
read_answer = record {
  remote = lit "10.0.0.9:53";
  kind = lit "A";
  domain = lit "x.a.de";
  rcode = lit "NOERROR";
  flags = lit "qr,rd";
  real_ip = lit "10.0.0.7";
}

line_run : Unit {0}
unfolding lit text_eq trim_space trim_left trim_right is_space cut_prefix has_prefix contains before
    cut_last fields split drop_empty to_lower lower_byte has_byte trim_suffix normalize_domain
    behind_prefix behind_stamp behind_tag strip_tags quotes_from first_text query_words result_words
    default_answer custom_answer answer_from is_whole whole_answer line_answer IsOneOf IsStripped
    join IsFree AreWords Leads write_line
line_run = tt

custom_line_example : line_answer custom_line ≡ some read_answer
unfolding line_run
custom_line_example = refl

tagged_line_example :
    line_answer
      (lit " [INFO] [16:23:02] 10.0.0.9:53 A X.a.de. NOERROR qr,rd 0.001s \"curl\" \"10.0.0.7\" ")
    ≡ some read_answer
unfolding line_run
tagged_line_example = refl

default_line_example :
    line_answer (lit "10.0.0.9:53 - 7 \"A IN x.a.de. udp 40 false 512\" NOERROR qr,rd 80 0.001s")
    ≡ some (record read_answer { real_ip = [] })
unfolding line_run
default_line_example = refl

-- An address in brackets of ten bytes is taken for a stamp, and the line is lost.
bracketed_line_example :
    line_answer (lit "[fd00::10] A x.a.de. NOERROR qr,rd 0.001s \"-\" \"-\"") ≡ none
unfolding line_run
bracketed_line_example = refl

strip_tags-IsStripped_example :
    IsStripped (strip_tags 9 (lit "[INFO] a"))
    × (strip_tags 9 (lit "[INFO] a") ≡ strip_tags 9 (lit "[INFO] a"))
unfolding line_run
strip_tags-IsStripped_example = strip_tags-IsStripped 9 (lit "[INFO] a") (omega arith)

line_answer-prefix_example :
    line_answer (lit "[INFO]10.0.0.9:53 A X.a.de. NOERROR qr,rd 0.001s \"curl\" \"10.0.0.7\"")
    ≡ line_answer custom_line
unfolding line_run
line_answer-prefix_example = line_answer-prefix (lit "[INFO]") custom_line (inl refl)

abbrev log_line : LogLine
log_line = record {
  remote = lit "10.0.0.9:53";
  kind = lit "A";
  name = lit "X.a.de.";
  rcode = lit "NOERROR";
  flags = lit "qr,rd";
  duration = lit "0.001s";
  user_agent = lit "curl";
  real_ip = lit "10.0.0.7";
}

log_line-IsWritable : IsWritable log_line
unfolding line_run
log_line-IsWritable = record {
  words = (
    refl,
    IsFree-any is_space log_line.remote refl,
    (
      refl,
      IsFree-any is_space log_line.kind refl,
      (
        refl,
        IsFree-any is_space log_line.name refl,
        (
          refl,
          IsFree-any is_space log_line.rcode refl,
          (
            refl,
            IsFree-any is_space log_line.flags refl,
            (refl, IsFree-any is_space log_line.duration refl, tt),
          ),
        ),
      ),
    ),
  );
  unquoted = IsFree-any is_quote (join b' ' (front_words log_line)) refl;
  agent = IsFree-any is_quote log_line.user_agent refl;
  ip = IsFree-any is_quote log_line.real_ip refl;
  bracket = refl;
  dash = refl;
  named = refl;
}

line_answer-write_line_example : line_answer (write_line log_line) ≡ some (written_answer log_line)
line_answer-write_line_example = line_answer-write_line log_line log_line-IsWritable
