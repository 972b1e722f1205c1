-- ===== src/Adblock/Parsed.antt =====
-- What a rule that `parse_adblock_rule` returns satisfies.
use shield_dns.Prelude.{
  ◌≡◌, refl, subst, Bool, true, false, List, [], ◌∷◌, All, All-append, some, Bool-cases,
  Option-cases, some_injective, inl, inr, ◌⊎◌,
}
use shield_dns.Text.{Text, lit, is_empty, has_prefix, trim_space, to_lower, cut, split, contains}
use shield_dns.Domain.{normalize_domain}
use shield_dns.Domain.Normal.{IsNormal, normalize_domain-IsNormal}
use shield_dns.Adblock.{
  AdblockRule, is_browser_modifier, is_skipped, add_modifier, add_modifiers, is_regex_line,
  check_line, with_domain, domain_part, parse_pattern, parse_modifiers, parse_adblock_rule,
}

-- What the steps up to the pattern keep: nothing is known of the domain yet, the exception mark is
-- the one that was read, and no modifier is one for browsers.
record IsOpen (exception : Bool) (r : AdblockRule) : Type 0 where
  pub marked : r.is_allowlist ≡ exception
  pub no_regex : r.is_regex ≡ false
  pub no_dns : r.is_dns_rule ≡ false
  pub enforceable : All (λ m. is_browser_modifier m ≡ false) r.modifiers

-- A finished rule is a regular expression, or names a domain in normal form.
pub record IsParsed (exception : Bool) (r : AdblockRule) : Type 0 where
  pub marked : r.is_allowlist ≡ exception
  pub enforceable : All (λ m. is_browser_modifier m ≡ false) r.modifiers
  pub shape :
      ((r.is_regex ≡ true) × (r.is_dns_rule ≡ false))
      ⊎ ((r.is_regex ≡ false)
          × (r.is_dns_rule ≡ true)
          × IsNormal r.domain
          × (is_empty r.domain ≡ false))

add_modifier-IsOpen :
    {e : Bool} (rule : AdblockRule) (m : Text)
    → IsOpen e rule
    → is_browser_modifier (to_lower m) ≡ false
    → IsOpen e (add_modifier rule m)
unfolding add_modifier
add_modifier-IsOpen rule m h b = record {
  marked = h.marked;
  no_regex = h.no_regex;
  no_dns = h.no_dns;
  enforceable =
      All-append (λ k. is_browser_modifier k ≡ false) rule.modifiers _ h.enforceable (b, tt);
}

add_modifiers-IsOpen :
    {e : Bool} (rule : AdblockRule) (ms : List Text) (r : AdblockRule)
    → IsOpen e rule
    → add_modifiers rule ms ≡ some r
    → IsOpen e r
unfolding add_modifiers
add_modifiers-IsOpen {e} rule [] r h found = subst (IsOpen e) (some_injective found) h
add_modifiers-IsOpen rule (m ∷ ms) r h found = elim (Bool-cases (is_empty (trim_space m))) [
  | inl skip ↦ add_modifiers-IsOpen rule ms r h (rw skip at found)
  | inr more ↦ elim (Bool-cases (is_browser_modifier (to_lower (trim_space m)))) [
    | inl browser ↦ cc (rw (more, browser) at found)
    | inr dns ↦
        add_modifiers-IsOpen (add_modifier rule (trim_space m)) ms r
          (add_modifier-IsOpen rule (trim_space m) h dns) (rw (more, dns) at found)
  ]
]

with_domain-IsParsed :
    {e : Bool} (rule : AdblockRule) (content : Text) (r : AdblockRule)
    → IsOpen e rule
    → with_domain rule content ≡ some r
    → IsParsed e r
unfolding with_domain
with_domain-IsParsed {e} rule content r h found =
    elim (Bool-cases (is_empty (normalize_domain content))) [
      | inl empty ↦ cc (rw empty at found)
      | inr full ↦ subst (IsParsed e) (some_injective (rw full at found)) (record {
        marked = h.marked;
        enforceable = h.enforceable;
        shape = inr (h.no_regex, refl, normalize_domain-IsNormal content, full);
      })
    ]

parse_pattern-IsParsed :
    {e : Bool} (rule : AdblockRule) (line : Text) (r : AdblockRule)
    → IsOpen e rule
    → parse_pattern rule line ≡ some r
    → IsParsed e r
unfolding parse_pattern
parse_pattern-IsParsed {e} rule line r h found = elim (Bool-cases (is_regex_line line)) [
  | inl regex ↦
      subst (IsParsed e) (some_injective (rw regex at found))
        (record { marked = h.marked; enforceable = h.enforceable; shape = inl (refl, h.no_dns) })
  | inr plain ↦ elim (Bool-cases (contains (lit "/") (check_line line))) [
    | inl path ↦ cc (rw (plain, path) at found)
    | inr host ↦ with_domain-IsParsed rule (domain_part line) r h (rw (plain, host) at found)
  ]
]

parse_modifiers-IsParsed :
    {e : Bool} (rule : AdblockRule) (line : Text) (r : AdblockRule)
    → IsOpen e rule
    → parse_modifiers rule line ≡ some r
    → IsParsed e r
unfolding parse_modifiers
parse_modifiers-IsParsed rule line r h found = elim (Option-cases (cut (lit "$") line)) [
  | inl bare ↦ parse_pattern-IsParsed rule line r h (rw (bare, parse_modifiers) at found)
  | inr ((front, mods), split_off) ↦ elim (Option-cases (add_modifiers rule (split b',' mods))) [
    | inl bad ↦ cc (rw (split_off, parse_modifiers, bad) at found)
    | inr (rule', good) ↦
        parse_pattern-IsParsed rule' front r
          (add_modifiers-IsOpen rule (split b',' mods) rule' h good)
          (rw (split_off, parse_modifiers, good) at found)
  ]
]

-- A rule that `ParseAdblockRule` returns is an exception exactly when the trimmed line starts with
-- "@@", has no modifier that only a browser can enforce, and either is a regular expression or names
-- a non-empty domain in normal form.
pub parse_adblock_rule-IsParsed :
    (raw : Text) (r : AdblockRule)
    → parse_adblock_rule raw ≡ some r
    → IsParsed (has_prefix (lit "@@") (trim_space raw)) r
unfolding parse_adblock_rule
parse_adblock_rule-IsParsed raw r found = elim (Bool-cases (is_skipped (trim_space raw))) [
  | inl skip ↦ cc (rw skip at found)
  | inr line ↦ elim (Bool-cases (has_prefix (lit "@@") (trim_space raw))) [
    | inl marked ↦ rw marked (
        parse_modifiers-IsParsed _ _ r
          (record { marked = refl; no_regex = refl; no_dns = refl; enforceable = tt })
          (rw (line, marked) at found))
    | inr unmarked ↦ rw unmarked (
        parse_modifiers-IsParsed _ _ r
          (record { marked = refl; no_regex = refl; no_dns = refl; enforceable = tt })
          (rw (line, unmarked) at found))
  ]
]
