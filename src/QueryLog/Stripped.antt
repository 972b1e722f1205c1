-- ===== src/QueryLog/Stripped.antt =====
-- The loop of `parseLogLine` over the tags in front of a line.
use shield_dns.Prelude.{
  ℕ, zero, suc, ◌+◌, ◌≤◌, ◌<◌, ◌≡◌, refl, ap, subst, ◌∙◌, arith, List, [], ◌∷◌, none, some,
  Option-cases, inl, inr, length, drop, length-drop, length-append,
}
use shield_dns.Text.{Text, lit, trim_space, cut_prefix}
use shield_dns.Text.Cuts.{cut_prefix-append}
use shield_dns.Text.Trims.{length-trim_space, trim_space_idempotent}
use shield_dns.QueryLog.Line.{log_prefixes, behind_prefix, behind_stamp, behind_tag, strip_tags}

AreTags : List Text → Type 0
AreTags [] = Unit
AreTags (p ∷ ps) = (0 < length p) × AreTags ps

log_prefixes-AreTags : AreTags log_prefixes
unfolding lit AreTags
log_prefixes-AreTags = (omega arith, (omega arith, (omega arith, (omega arith, (omega arith, tt)))))

trimmed_shorter :
    (p line back rest : Text)
    → 0 < length p
    → cut_prefix p line ≡ some back
    → some (trim_space back) ≡ some rest
    → length rest < length line
trimmed_shorter p line back rest long found same =
    let whole : length line ≡ length p + length back =
      ap length (cut_prefix-append p line back found) ∙ length-append p back in
    let here : trim_space back ≡ rest = cc in
    let le : length rest ≤ length back =
      subst (λ t. length t ≤ length back) here (length-trim_space back) in
    omega arith

behind_prefix-shorter :
    (ps : List Text) (line rest : Text)
    → AreTags ps
    → behind_prefix ps line ≡ some rest
    → length rest < length line
unfolding behind_prefix AreTags
behind_prefix-shorter [] line rest tags h = cc
behind_prefix-shorter (p ∷ ps) line rest (long, tags) h = elim (Option-cases (cut_prefix p line)) [
  | inl e ↦ behind_prefix-shorter ps line rest tags (rw (e, behind_prefix) at h)
  | inr (back, e) ↦ trimmed_shorter p line back rest long e (rw (e, behind_prefix) at h)
]

behind_stamp-shorter :
    (line rest : Text) → behind_stamp line ≡ some rest → length rest < length line
unfolding behind_stamp
behind_stamp-shorter line rest h =
    let le = length-trim_space (drop 10 line) in let cut = length-drop 10 line in ground arith

behind_tag-shorter : (line rest : Text) → behind_tag line ≡ some rest → length rest < length line
unfolding behind_tag
behind_tag-shorter line rest h = elim (Option-cases (behind_prefix log_prefixes line)) [
  | inl e ↦ behind_stamp-shorter line rest (rw (e, behind_tag) at h)
  | inr (r, e) ↦
      let same : some r ≡ some rest = rw (e, behind_tag) at h in
      behind_prefix-shorter log_prefixes line rest log_prefixes-AreTags (cc)
]

-- A trimmed line without a tag: where the loop is left.
unfoldable pub IsStripped : Text → Type 0
IsStripped line = (trim_space line ≡ line) × (behind_tag line ≡ none)

round_shorter :
    (line rest : Text) → behind_tag (trim_space line) ≡ some rest → length rest < length line
round_shorter line rest h =
    omega (arith, behind_tag-shorter (trim_space line) rest h, length-trim_space line)

strip_tags-IsStripped_lem : (n : ℕ) (line : Text) → length line < n → IsStripped (strip_tags n line)
unfolding strip_tags IsStripped
strip_tags-IsStripped_lem zero line enough = ground arith
strip_tags-IsStripped_lem (suc n) line enough = elim (Option-cases (behind_tag (trim_space line))) [
  | inl e ↦ rw (e, strip_tags) (trim_space_idempotent line, e)
  | inr (rest, e) ↦
      let less = round_shorter line rest e in
      rw (e, strip_tags) (strip_tags-IsStripped_lem n rest (omega arith))
]

-- More rounds than the length change nothing.
pub strip_tags-enough :
    (n m : ℕ) (line : Text)
    → length line < n
    → length line < m
    → strip_tags n line ≡ strip_tags m line
unfolding strip_tags
strip_tags-enough zero m line below below' = ground arith
strip_tags-enough (suc n) zero line below below' = ground arith
strip_tags-enough (suc n) (suc m) line below below' =
    elim (Option-cases (behind_tag (trim_space line))) [
      | inl e ↦ rw (e, strip_tags) refl
      | inr (rest, e) ↦
          let less = round_shorter line rest e in
          rw (e, strip_tags) (strip_tags-enough n m rest (omega arith) (omega arith))
    ]

-- For any line the loop ends within as many rounds as the line has bytes and one, in a trimmed line without
-- a tag, and with any greater number of rounds it ends in the same line.
pub strip_tags-IsStripped :
    (n : ℕ) (line : Text)
    → length line < n
    → IsStripped (strip_tags n line) × (strip_tags n line ≡ strip_tags (suc (length line)) line)
strip_tags-IsStripped n line below = (
  strip_tags-IsStripped_lem n line below,
  strip_tags-enough n (suc (length line)) line below (omega arith),
)
