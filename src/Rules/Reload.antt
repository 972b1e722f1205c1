-- ===== src/Rules/Reload.antt =====
-- What a reload makes of the custom rules.
use shield_dns.Prelude.{
  ◌≡◌, refl, true, false, ◌||◌, List, [], ◌∷◌, arith, ◌⊎◌, Bool-cases, inl, inr, is_some,
}
use shield_dns.Text.{Text, lit, text_eq, has_prefix}
use shield_dns.Text.Equality.{text_eq_refl, text_eq_sound}
use shield_dns.Table.{lookup, member, add, member-add}
use shield_dns.Blocklist.{Attribution, wildcard, is_allowed, is_blocked, test_domain}
use shield_dns.Blocklist.Parents.{sub_domain, any-parent_domains}
use shield_dns.Blocklist.Verdict.{is_blocked_lem}
use shield_dns.Blocklist.Applied.{lookup-apply_rules, allowed-not_blocked, is_parent_wildcard}
use shield_dns.ListFile.Added.{is_some-append_list}
use shield_dns.Server.{Config}
use shield_dns.Rules.{
  custom_source, add_custom, add_customs, allow_custom, without_custom, reloaded,
}

member-allow_custom :
    (ds allow : List Text) (k : Text)
    → (member k ds || member k allow) ≡ true
    → member k (allow_custom ds allow) ≡ true
unfolding allow_custom
member-allow_custom [] allow k h = unfold member in h
member-allow_custom (d ∷ ds) allow k h = elim (Bool-cases (has_prefix (lit "*.") d)) [
  | inl e ↦
      rw e (member-allow_custom ds (add d allow) k (rw member-add (unfold member in ground arith)))
  | inr e ↦ rw e (
      member-allow_custom ds (add (wildcard d) (add d allow)) k
        (rw (member-add, member-add) (unfold member in ground arith)))
]

-- A custom allowed domain and its subdomains are not blocked after a reload.
pub reloaded-allowed :
    (c : Config) (m : Attribution) (d q : Text)
    → member d c.custom_allowed ≡ true
    → has_prefix (lit "*.") d ≡ false
    → text_eq test_domain q ≡ false
    → (q ≡ d) ⊎ ((x : Text) × (q ≡ sub_domain x d))
    → is_blocked (reloaded c m) q ≡ false
unfolding reloaded
reloaded-allowed c m d q listed plain other below =
    allowed-not_blocked _ (allow_custom c.custom_allowed []) d q
      (member-allow_custom c.custom_allowed [] d (rw listed refl)) plain other below

is_some-add_custom :
    (d k : Text) (m : Attribution)
    → (text_eq d k || is_some (lookup k m)) ≡ true
    → is_some (lookup k (add_custom d m)) ≡ true
unfolding add_custom
is_some-add_custom d k m h = elim (Bool-cases (has_prefix (lit "*.") d)) [
  | inl e ↦ rw (e, is_some-append_list d k custom_source m, h)
  | inr e ↦
      rw
        (
          e,
          is_some-append_list (wildcard d) k custom_source,
          is_some-append_list d k custom_source m,
        )
        (rw h (ground arith))
]

is_some-add_customs :
    (ds : List Text) (k : Text) (m : Attribution)
    → (member k ds || is_some (lookup k m)) ≡ true
    → is_some (lookup k (add_customs ds m)) ≡ true
unfolding add_customs
is_some-add_customs [] k m h = unfold member in h
is_some-add_customs (d ∷ ds) k m h =
    is_some-add_customs ds k (add_custom d m)
      (unfold member in ground (arith, is_some-add_custom d k m))

is_some-add_custom-wildcard :
    (d : Text) (m : Attribution)
    → has_prefix (lit "*.") d ≡ false
    → is_some (lookup (wildcard d) (add_custom d m)) ≡ true
unfolding add_custom
is_some-add_custom-wildcard d m plain =
    rw (
      plain,
      is_some-append_list (wildcard d) (wildcard d) custom_source,
      text_eq_refl (wildcard d),
    )

is_some-add_customs-wildcard :
    (ds : List Text) (d : Text) (m : Attribution)
    → member d ds ≡ true
    → has_prefix (lit "*.") d ≡ false
    → is_some (lookup (wildcard d) (add_customs ds m)) ≡ true
unfolding add_customs
is_some-add_customs-wildcard [] d m h plain =
    let none_there : false ≡ true = unfold member in h in cc
is_some-add_customs-wildcard (e ∷ ds) d m h plain = elim (Bool-cases (text_eq e d)) [
  | inl same ↦ rw (text_eq_sound e d same) (
      is_some-add_customs ds (wildcard d) (add_custom d m)
        (rw (is_some-add_custom-wildcard d m plain) (ground arith)))
  | inr other ↦
      is_some-add_customs-wildcard ds d (add_custom e m) (unfold member in ground arith) plain
]

-- No allow rule takes this key out of the map.
abbrev pub IsUntouched : Config → Text → Type 0
IsUntouched c k =
    (is_allowed (allow_custom c.custom_allowed []) k ≡ false)
    × (is_parent_wildcard (allow_custom c.custom_allowed []) k ≡ false)

is_some-reloaded :
    (c : Config) (m : Attribution) (k : Text)
    → is_some (lookup k (add_customs c.custom_blocked (without_custom m))) ≡ true
    → IsUntouched c k
    → is_some (lookup k (reloaded c m)) ≡ true
unfolding reloaded
is_some-reloaded c m k h (unlisted, below) =
    rw (lookup-apply_rules _ (allow_custom c.custom_allowed []) k, unlisted, below)
      (ground (arith, h))

is_blocked_of_wildcard :
    (m : Attribution) (x d : Text)
    → is_some (lookup (wildcard d) m) ≡ true
    → is_blocked m (sub_domain x d) ≡ true
is_blocked_of_wildcard m x d h =
    rw
      (
        is_blocked_lem m (sub_domain x d),
        any-parent_domains (λ p. is_some (lookup (wildcard p) m)) x d h,
      )
      (ground arith)

-- A custom blocked domain and its subdomains are blocked after a reload, unless an allow rule takes
-- the entry for the domain or for its wildcard away.
pub reloaded-blocked :
    (c : Config) (m : Attribution) (d q : Text)
    → member d c.custom_blocked ≡ true
    → has_prefix (lit "*.") d ≡ false
    → IsUntouched c d
    → IsUntouched c (wildcard d)
    → (q ≡ d) ⊎ ((x : Text) × (q ≡ sub_domain x d))
    → is_blocked (reloaded c m) q ≡ true
reloaded-blocked c m d q listed plain free free' (inl same) = rw (
  same,
  is_blocked_lem (reloaded c m) d,
  is_some-reloaded c m d (is_some-add_customs c.custom_blocked d _ (rw listed)) free,
)
reloaded-blocked c m d q listed plain free free' (inr (x, below)) = rw below (
    is_blocked_of_wildcard (reloaded c m) x d (
      is_some-reloaded c m (wildcard d)
        (is_some-add_customs-wildcard c.custom_blocked d _ listed plain) free'))
