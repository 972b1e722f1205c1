-- ===== src/Blocklist/Applied.antt =====
-- What `apply_rules` leaves in the attribution map, and what it guarantees to allowed domains.
use shield_dns.Prelude.{
  ◌≡◌, refl, Bool, true, false, not, List, [], ◌∷◌, All, any, arith, ◌||◌, none, some, Bool-cases,
  inl, inr, if◌then◌else◌, ◌⊎◌,
}
use shield_dns.Text.{Text, text_eq, trim_prefix, lit, has_prefix}
use shield_dns.Text.Equality.{text_eq_refl, text_eq_sound}
use shield_dns.Table.{lookup, member, delete, lookup-insert, lookup-delete, lookup-keep_keys}
use shield_dns.Blocklist.{
  Attribution, wildcard, parent_domains, is_allowed, delete_wildcards, delete_parents, test_domain,
  test_source, apply_rules, first_wildcard, blocking_lists, is_blocked,
}
use shield_dns.Blocklist.Parents.{sub_domain, parent_domains-All, any-parent_domains}

-- `k` is the wildcard over a parent of an allowed domain.
unfoldable pub is_parent_wildcard : List Text → Text → Bool
is_parent_wildcard allow k =
    any (λ a. any (λ p. text_eq (wildcard p) k) (parent_domains (trim_prefix (lit "*.") a))) allow

lookup-delete_wildcards :
    (ps : List Text) (k : Text) (m : Attribution)
    → lookup k (delete_wildcards ps m)
      ≡ (if any (λ p. text_eq (wildcard p) k) ps then none else lookup k m)
unfolding delete_wildcards
lookup-delete_wildcards [] k m = refl
lookup-delete_wildcards (p ∷ ps) k m =
    rw (lookup-delete_wildcards ps k (delete (wildcard p) m), lookup-delete (wildcard p) k m)
      (ground arith)

lookup-delete_parents :
    (allow : List Text) (k : Text) (m : Attribution)
    → lookup k (delete_parents allow m) ≡ (if is_parent_wildcard allow k then none else lookup k m)
unfolding delete_parents is_parent_wildcard
lookup-delete_parents [] k m = refl
lookup-delete_parents (a ∷ allow) k m =
    rw
      (
        lookup-delete_parents allow k _,
        lookup-delete_wildcards (parent_domains (trim_prefix (lit "*.") a)) k m,
      )
      (unfold is_parent_wildcard in ground arith)

-- The map after `applyCurrentRules`, at each key: the test domain is named by its own source, a
-- key that is allowed or is a wildcard over an allowed domain is gone, and every other key has the
-- lists that it had.
pub lookup-apply_rules :
    (m : Attribution) (allow : List Text) (k : Text)
    → lookup k (apply_rules m allow) ≡ (
        if text_eq test_domain k
        then some (test_source ∷ [])
        else if is_allowed allow k || is_parent_wildcard allow k
        then none
        else lookup k m)
unfolding apply_rules
lookup-apply_rules m allow k =
    rw
      (
        lookup-insert test_domain k _ _,
        lookup-delete_parents allow k _,
        lookup-keep_keys (λ d. not (is_allowed allow d)) k m,
      )
      (ground arith)

any_of_member :
    (f : Text → Bool) (d : Text) (allow : List Text)
    → member d allow ≡ true
    → f d ≡ true
    → any f allow ≡ true
unfolding member
any_of_member f d [] h e = cc
any_of_member f d (a ∷ allow) h e = elim (Bool-cases (text_eq a d)) [
  | inl same ↦ rw (text_eq_sound a d same, e)
  | inr other ↦ ground (arith, any_of_member f d allow)
]

is_allowed-sub_domain :
    (allow : List Text) (x d : Text)
    → member d allow ≡ true
    → is_allowed allow (sub_domain x d) ≡ true
unfolding is_allowed
is_allowed-sub_domain allow x d h =
    rw (any-parent_domains (λ p. member p allow) x d h) (ground arith)

test_domain-ne-wildcard : (d : Text) → text_eq test_domain (wildcard d) ≡ false
unfolding test_domain lit text_eq
test_domain-ne-wildcard d = refl

-- Each parent of an allowed domain has its wildcard among those that go.
each_member {ℓ} :
    (P : Text → Type ℓ) (ps : List Text) → ((p : Text) → member p ps ≡ true → P p) → All P ps
unfolding member
each_member P [] h = tt
each_member P (p ∷ ps) h =
    (h p (rw text_eq_refl refl), each_member P ps (λ q e. h q (ground arith)))

first_wildcard-none :
    (m : Attribution) (ps : List Text)
    → All (λ p. lookup (wildcard p) m ≡ none) ps
    → first_wildcard ps m ≡ none
unfolding first_wildcard
first_wildcard-none m [] h = refl
first_wildcard-none m (p ∷ ps) h = rw (h.0, first_wildcard) (first_wildcard-none m ps h.1)

is_blocked-none :
    (m : Attribution) (q : Text)
    → lookup q m ≡ none
    → All (λ p. lookup (wildcard p) m ≡ none) (parent_domains q)
    → is_blocked m q ≡ false
unfolding is_blocked blocking_lists
is_blocked-none m q h above = rw (h, blocking_lists, first_wildcard-none m (parent_domains q) above)

module _ (m : Attribution) (allow : List Text) (d : Text) (listed : member d allow ≡ true)
    (plain : has_prefix (lit "*.") d ≡ false) where
  abbrev IsGone : Text → Type 0
  IsGone p = lookup (wildcard p) (apply_rules m allow) ≡ none

  trim_prefix_plain : trim_prefix (lit "*.") d ≡ d
  unfolding trim_prefix has_prefix
  trim_prefix_plain = ground arith

  IsGone-of_allowed : (p : Text) → is_allowed allow (wildcard p) ≡ true → IsGone p
  IsGone-of_allowed p h = rw (lookup-apply_rules m allow (wildcard p), test_domain-ne-wildcard p, h)

  IsGone-of_parent : (p : Text) → member p (parent_domains d) ≡ true → IsGone p
  IsGone-of_parent p h =
      let covers : is_parent_wildcard allow (wildcard p) ≡ true =
        unfold is_parent_wildcard in
        any_of_member
          (λ a.
            any (λ q. text_eq (wildcard q) (wildcard p))
              (parent_domains (trim_prefix (lit "*.") a)))
          d allow listed
          (rw trim_prefix_plain (
            any_of_member (λ q. text_eq (wildcard q) (wildcard p)) p (parent_domains d) h
              (text_eq_refl (wildcard p)))) in
      rw (lookup-apply_rules m allow (wildcard p), test_domain-ne-wildcard p, covers) (ground arith)

  IsGone-above : All IsGone (parent_domains d)
  IsGone-above = each_member IsGone (parent_domains d) IsGone-of_parent

  IsGone-above_sub : (x : Text) → All IsGone (parent_domains (sub_domain x d))
  IsGone-above_sub x =
      parent_domains-All IsGone x d
        (λ y.
          IsGone-of_allowed (sub_domain y d) (is_allowed-sub_domain allow (wildcard y) d listed))
        (IsGone-of_allowed d (is_allowed-sub_domain allow (b'*' ∷ []) d listed)) IsGone-above

  gone_self :
      (q : Text)
      → is_allowed allow q ≡ true
      → text_eq test_domain q ≡ false
      → lookup q (apply_rules m allow) ≡ none
  gone_self q h other = rw (lookup-apply_rules m allow q, other, h)

-- A domain on the allowlist, and each of its subdomains, is not blocked after `applyCurrentRules`,
-- whatever the lists say of it, of its parents or of wildcards over them. The allowlist entry is
-- no wildcard, and the query is not the built-in test domain.
pub allowed-not_blocked :
    (m : Attribution) (allow : List Text) (d q : Text)
    → member d allow ≡ true
    → has_prefix (lit "*.") d ≡ false
    → text_eq test_domain q ≡ false
    → (q ≡ d) ⊎ ((x : Text) × (q ≡ sub_domain x d))
    → is_blocked (apply_rules m allow) q ≡ false
allowed-not_blocked m allow d q listed plain other (inl same) =
    is_blocked-none (apply_rules m allow) q
      (gone_self m allow d listed plain q (rw same (unfold is_allowed in rw listed refl)) other)
      (rw same (IsGone-above m allow d listed plain))
allowed-not_blocked m allow d q listed plain other (inr (x, below)) =
    is_blocked-none (apply_rules m allow) q
      (gone_self m allow d listed plain q (rw below (is_allowed-sub_domain allow x d listed)) other)
      (rw below (IsGone-above_sub m allow d listed plain x))

-- The built-in test domain is blocked after `applyCurrentRules`, whatever is on the allowlist.
pub test_domain_blocked :
    (m : Attribution) (allow : List Text) → is_blocked (apply_rules m allow) test_domain ≡ true
unfolding is_blocked blocking_lists
test_domain_blocked m allow =
    rw (lookup-apply_rules m allow test_domain, text_eq_refl test_domain, blocking_lists)
