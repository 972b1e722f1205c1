-- ===== src/Text/Tests.antt =====
-- Runs of the text functions.
use shield_dns.Prelude.{◌≡◌, refl, true, false, some, [], ◌∷◌}
use shield_dns.Text.{
  lit, text_eq, to_lower, equal_fold, trim_space, trim, has_prefix, trim_prefix, has_suffix,
  trim_suffix, contains, cut, split, join, fields, cut_last,
}

text_tests :
    (trim_space (lit " \ta b  ") ≡ lit "a b")
    × (to_lower (lit "Ab.C") ≡ lit "ab.c")
    × (trim_prefix (lit "||") (lit "||a") ≡ lit "a")
    × (trim_suffix (lit "^") (lit "a^^") ≡ lit "a^")
    × (contains (lit "..") (lit "a..b") ≡ true)
    × (has_suffix (lit ".de") (lit "a.de") ≡ true)
    × (has_prefix (lit "b") (lit "ab") ≡ false)
    × (cut (lit "://") (lit "x://y://z") ≡ some (lit "x", lit "y://z"))
    × (split b'.' (lit "a..b") ≡ lit "a" ∷ [] ∷ lit "b" ∷ [])
    × (join b'.' (split b'.' (lit "a..b")) ≡ lit "a..b")
    × (fields (lit "  a \t b c") ≡ lit "a" ∷ lit "b" ∷ lit "c" ∷ [])
    × (cut_last b':' (lit "a:b:c") ≡ some (lit "a:b", lit "c"))
    × (trim (lit "'\" ") (lit "'x' ") ≡ lit "x")
    × (equal_fold (lit "aB") (lit "Ab") ≡ true)
unfolding lit text_eq to_lower equal_fold trim_space trim has_prefix trim_prefix has_suffix
    trim_suffix contains cut split join fields cut_last
text_tests = (refl, refl, refl, refl, refl, refl, refl, refl, refl, refl, refl, refl, refl, refl)
