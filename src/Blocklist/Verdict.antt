-- ===== src/Blocklist/Verdict.antt =====
-- The lookup of a query, as one Boolean equation.
use shield_dns.Prelude.{◌≡◌, refl, ◌||◌, List, [], ◌∷◌, any, Option-cases, inl, inr, is_some}
use shield_dns.Text.{Text}
use shield_dns.Table.{lookup}
use shield_dns.Blocklist.{
  Attribution, wildcard, parent_domains, first_wildcard, blocking_lists, is_blocked,
}

is_some-first_wildcard :
    (m : Attribution) (ps : List Text)
    → is_some (first_wildcard ps m) ≡ any (λ p. is_some (lookup (wildcard p) m)) ps
unfolding first_wildcard
is_some-first_wildcard m [] = refl
is_some-first_wildcard m (p ∷ ps) = elim (Option-cases (lookup (wildcard p) m)) [
  | inl e ↦ rw (e, first_wildcard) (is_some-first_wildcard m ps)
  | inr (lists, e) ↦ rw (e, first_wildcard)
]

-- A query is blocked exactly when its domain is a key, or a wildcard over one of its parents is.
pub is_blocked_lem :
    (m : Attribution) (q : Text)
    → is_blocked m q
      ≡ (is_some (lookup q m) || any (λ p. is_some (lookup (wildcard p) m)) (parent_domains q))
unfolding is_blocked blocking_lists
is_blocked_lem m q = elim (Option-cases (lookup q m)) [
  | inl e ↦ rw (e, blocking_lists) (is_some-first_wildcard m (parent_domains q))
  | inr (lists, e) ↦ rw (e, blocking_lists)
]
