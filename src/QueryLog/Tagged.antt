-- ===== src/QueryLog/Tagged.antt =====
-- A prefix of the log in front of a line.
use shield_dns.Prelude.{
  ℕ, suc, ◌<◌, ◌≡◌, refl, ap, ◌∙◌, arith, List, [], ◌∷◌, ◌++◌, ◌⊎◌, none, some, inl, inr, length,
  length-append,
}
use shield_dns.Text.{Text, lit, is_space, trim_space, trim_right, trim_left, cut_prefix}
use shield_dns.Text.Trims.{trim_space_idempotent, trim_space-trim_right}
use shield_dns.QueryLog.Line.{log_prefixes, behind_prefix, behind_tag, strip_tags, line_answer}
use shield_dns.QueryLog.Stripped.{strip_tags-enough}

-- `p` is one of the prefixes.
unfoldable pub IsOneOf : List Text → Text → Type 0
IsOneOf [] p = ⊥
IsOneOf (q ∷ qs) p = (p ≡ q) ⊎ IsOneOf qs p

behind_tag-prefix :
    (p line : Text)
    → IsOneOf log_prefixes p
    → behind_tag (trim_space (p ++ line)) ≡ some (trim_space (trim_right is_space line))
unfolding IsOneOf behind_tag behind_prefix trim_space trim_left trim_right is_space cut_prefix lit
behind_tag-prefix p line (inl e) = rw e refl
behind_tag-prefix p line (inr (inl e)) = rw e refl
behind_tag-prefix p line (inr (inr (inl e))) = rw e refl
behind_tag-prefix p line (inr (inr (inr (inl e)))) = rw e refl
behind_tag-prefix p line (inr (inr (inr (inr (inl e))))) = rw e refl
behind_tag-prefix p line (inr (inr (inr (inr (inr x))))) = elim x [ ]

strip_tags-step :
    (n : ℕ) (line rest : Text)
    → behind_tag (trim_space line) ≡ some rest
    → strip_tags (suc n) line ≡ strip_tags n rest
unfolding strip_tags
strip_tags-step n line rest h = rw (strip_tags, h) refl

strip_tags-trim_space :
    (n : ℕ) (line : Text) → strip_tags (suc n) (trim_space line) ≡ strip_tags (suc n) line
unfolding strip_tags
strip_tags-trim_space n line =
    ap (λ t. elim (behind_tag t) [ none ↦ t | some rest ↦ strip_tags n rest ])
      (trim_space_idempotent line)

strip_tags-prefix :
    (n : ℕ) (p line : Text)
    → IsOneOf log_prefixes p
    → strip_tags (suc (suc n)) (p ++ line) ≡ strip_tags (suc n) line
strip_tags-prefix n p line one =
    strip_tags-step (suc n) (p ++ line) (trim_space (trim_right is_space line))
      (behind_tag-prefix p line one)
    ∙ (ap (strip_tags (suc n)) (trim_space-trim_right line) ∙ strip_tags-trim_space n line)

prefix-long : (p : Text) → IsOneOf log_prefixes p → 0 < length p
unfolding IsOneOf lit
prefix-long p (inl e) = rw e (omega arith)
prefix-long p (inr (inl e)) = rw e (omega arith)
prefix-long p (inr (inr (inl e))) = rw e (omega arith)
prefix-long p (inr (inr (inr (inl e)))) = rw e (omega arith)
prefix-long p (inr (inr (inr (inr (inl e))))) = rw e (omega arith)
prefix-long p (inr (inr (inr (inr (inr x))))) = elim x [ ]

stripped_same :
    (p line : Text)
    → IsOneOf log_prefixes p
    → strip_tags (suc (length (p ++ line))) (p ++ line) ≡ strip_tags (suc (length line)) line
stripped_same p line one =
    let longer = prefix-long p one in
    let parts = length-append p line in
    strip_tags-enough (suc (length (p ++ line))) (suc (suc (length (p ++ line)))) (p ++ line)
      (omega arith) (omega arith)
    ∙ (strip_tags-prefix (length (p ++ line)) p line one
        ∙ strip_tags-enough (suc (length (p ++ line))) (suc (length line)) line (omega arith)
            (omega arith))

-- A prefix of the log in front of a line, with or without space behind it, changes nothing of what is read
-- from the line.
pub line_answer-prefix :
    (p line : Text) → IsOneOf log_prefixes p → line_answer (p ++ line) ≡ line_answer line
unfolding line_answer
line_answer-prefix p line one = rw (stripped_same p line one) refl
