-- ===== src/QueryLog/Untagged.antt =====
-- A line of the log that does not start with a bracket has no tag.
use shield_dns.Prelude.{
  ℕ, ◌≡◌, refl, ◌∙◌, Bool, false, ◌∷◌, [], List, ltb, Bool-cases, inl, inr, none, length, ◌==◌,
}
use shield_dns.Text.{Text, lit, cut_prefix, has_prefix}
use shield_dns.Text.Words.{Leads}
use shield_dns.QueryLog.Line.{log_prefixes, behind_prefix, behind_stamp, behind_tag}

abbrev pub is_bracket : ℕ → Bool
is_bracket c = b'[' == c

behind_prefix-Leads :
    (p : Text) (ps : List Text) (c : ℕ) (s : Text)
    → (b'[' == c) ≡ false
    → behind_prefix ((b'[' ∷ p) ∷ ps) (c ∷ s) ≡ behind_prefix ps (c ∷ s)
unfolding behind_prefix cut_prefix
behind_prefix-Leads p ps c s other = rw (behind_prefix, cut_prefix, other) refl

log_prefixes-Leads :
    (c : ℕ) (s : Text) → (b'[' == c) ≡ false → behind_prefix log_prefixes (c ∷ s) ≡ none
unfolding behind_prefix lit
log_prefixes-Leads c s other =
    behind_prefix-Leads (lit "INFO]")
      (lit "[DEBUG]" ∷ lit "[ERROR]" ∷ lit "[CoreDNS]" ∷ lit "[CoreDNS-ERR]" ∷ []) c s other
    ∙ (behind_prefix-Leads (lit "DEBUG]")
          (lit "[ERROR]" ∷ lit "[CoreDNS]" ∷ lit "[CoreDNS-ERR]" ∷ []) c s other
        ∙ (behind_prefix-Leads (lit "ERROR]") (lit "[CoreDNS]" ∷ lit "[CoreDNS-ERR]" ∷ []) c s other
            ∙ (behind_prefix-Leads (lit "CoreDNS]") (lit "[CoreDNS-ERR]" ∷ []) c s other
                ∙ behind_prefix-Leads (lit "CoreDNS-ERR]") [] c s other)))

behind_stamp-Leads : (c : ℕ) (s : Text) → (b'[' == c) ≡ false → behind_stamp (c ∷ s) ≡ none
unfolding behind_stamp has_prefix cut_prefix
behind_stamp-Leads c s other = elim (Bool-cases (ltb 10 (length (c ∷ s)))) [
  | inl e ↦ rw (behind_stamp, e, has_prefix, cut_prefix, other) refl
  | inr e ↦ rw (behind_stamp, e) refl
]

pub behind_tag-Leads : (s : Text) → Leads is_bracket s → behind_tag s ≡ none
unfolding Leads behind_tag
behind_tag-Leads [] leads = elim leads [ ]
behind_tag-Leads (c ∷ s) leads =
    rw (behind_tag, log_prefixes-Leads c s leads, behind_stamp-Leads c s leads) refl
