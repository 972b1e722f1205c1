-- ===== src/ListFile/Added.antt =====
-- What `add_domain` does to the blocklist map.
use shield_dns.Prelude.{
  ◌≡◌, refl, sym, subst, Bool, true, false, ◌||◌, List, [], ◌∷◌, ◌++◌, any, arith, Option, none,
  some, Bool-cases, inl, inr, if◌then◌else◌, option_or, is_some, any-append,
}
use shield_dns.Text.{Text, lit, text_eq, has_prefix}
use shield_dns.Text.Equality.{text_eq_refl, text_eq_sound, text_eq_iff}
use shield_dns.Table.{lookup, member, lookup-insert}
use shield_dns.Blocklist.{Attribution, wildcard, parent_domains, is_blocked}
use shield_dns.Blocklist.Verdict.{is_blocked_lem}
use shield_dns.ListFile.{Maps, append_list, add_blocked, add_one, add_domain}

-- The lists that name a key.
abbrev pub names : Text → Attribution → List Text
names k m = option_or (lookup k m) []

-- The blocklist map after the round for one key.
abbrev put_name : Text → Text → Attribution → Attribution
put_name d name m = if member name (names d m) then m else append_list d name m

abbrev pub block_of : Maps → Attribution
block_of maps = option_or maps.block []

pub names-append_list :
    (d k name : Text) (m : Attribution)
    → names k (append_list d name m) ≡ (if text_eq d k then names d m ++ (name ∷ []) else names k m)
unfolding append_list
names-append_list d k name m = rw (lookup-insert d k _ m) (ground arith)

pub is_some-append_list :
    (d k name : Text) (m : Attribution)
    → is_some (lookup k (append_list d name m)) ≡ (text_eq d k || is_some (lookup k m))
unfolding append_list
is_some-append_list d k name m = rw (lookup-insert d k _ m) (ground arith)

add_one-put_name :
    (name d : Text) (maps : Maps) (m : Attribution)
    → maps.block ≡ some m
    → (add_one false name d maps).0.block ≡ some (put_name d name m)
unfolding add_one add_blocked
add_one-put_name name d maps m e = rw (e, add_blocked) (ground arith)

member-names :
    (name : Text) (o : Option (List Text)) → member name (option_or o []) ≡ true → is_some o ≡ true
unfolding member
member-names name none h = cc
member-names name (some l) h = refl

-- After the round the key is there, and no other key has changed.
put_name-key :
    (d k name : Text) (m : Attribution)
    → is_some (lookup k (put_name d name m)) ≡ (text_eq d k || is_some (lookup k m))
put_name-key d k name m = elim (Bool-cases (member name (names d m))) [
  | inl old ↦ rw old (elim (Bool-cases (text_eq d k)) [
    | inl same ↦ rw same (
        subst (λ j. is_some (lookup j m) ≡ true) (text_eq_sound d k same)
          (member-names name (lookup d m) old))
    | inr other ↦ rw other
  ])
  | inr new ↦ rw new (is_some-append_list d k name m)
]

-- Adding a blocked domain: the keys afterwards are those before, the domain, and its wildcard.
pub add_domain-keys :
    (d name k : Text) (maps : Maps) (m : Attribution)
    → maps.block ≡ some m
    → has_prefix (lit "*.") d ≡ false
    → is_some (lookup k (block_of (add_domain d false name maps).0))
      ≡ (text_eq (wildcard d) k || (text_eq d k || is_some (lookup k m)))
unfolding add_domain
add_domain-keys d name k maps m e plain =
    let first = add_one-put_name name d maps m e in
    let second = add_one-put_name name (wildcard d) (add_one false name d maps).0 _ first in
    rw (plain, second, put_name-key (wildcard d) k name, put_name-key d k name m)

any_or : (f g : Text → Bool) (ps : List Text) → any (λ p. f p || g p) ps ≡ (any f ps || any g ps)
any_or f g [] = refl
any_or f g (p ∷ ps) = ground (arith, any_or f g ps)

pub text_eq_flip : (s t : Text) → text_eq s t ≡ text_eq t s
text_eq_flip s t = ground (arith, text_eq_iff s t, text_eq_iff t s)

pub wildcard-ne-plain :
    (d p : Text) → has_prefix (lit "*.") d ≡ false → text_eq d (wildcard p) ≡ false
wildcard-ne-plain d p plain = elim (Bool-cases (text_eq d (wildcard p))) [
  | inl same ↦ cc (
    subst (λ t. has_prefix (lit "*.") t ≡ false) (text_eq_sound d (wildcard p) same) plain,
    starred p,
  )
  | inr other ↦ other
]
  where
    starred : (t : Text) → has_prefix (lit "*.") (wildcard t) ≡ true
    starred t = unfold has_prefix lit in refl

pub text_eq-wildcard : (d p : Text) → text_eq (wildcard d) (wildcard p) ≡ text_eq d p
unfolding text_eq
text_eq-wildcard d p = refl

module _ (d name : Text) (maps : Maps) (m : Attribution) (started : maps.block ≡ some m)
    (plain : has_prefix (lit "*.") d ≡ false) where
  abbrev added : Attribution
  added = block_of (add_domain d false name maps).0

  wildcard_key :
      (p : Text)
      → is_some (lookup (wildcard p) added) ≡ (text_eq p d || is_some (lookup (wildcard p) m))
  wildcard_key p = rw (
    add_domain-keys d name (wildcard p) maps m started plain,
    text_eq-wildcard d p,
    wildcard-ne-plain d p plain,
    text_eq_flip d p,
  )

  any-wildcard_key :
      (ps : List Text)
      → any (λ p. is_some (lookup (wildcard p) added)) ps
        ≡ (any (λ p. text_eq p d) ps || any (λ p. is_some (lookup (wildcard p) m)) ps)
  any-wildcard_key [] = refl
  any-wildcard_key (p ∷ ps) = rw (wildcard_key p, any-wildcard_key ps) (ground arith)

-- Adding a blocked domain blocks the domain, its wildcard and every query that has the domain among
-- its parents; the verdict on any other query is as before.
pub is_blocked-add_domain :
    (d name q : Text) (maps : Maps) (m : Attribution)
    → maps.block ≡ some m
    → has_prefix (lit "*.") d ≡ false
    → is_blocked (block_of (add_domain d false name maps).0) q
      ≡ (text_eq (wildcard d) q || text_eq d q || member d (parent_domains q) || is_blocked m q)
is_blocked-add_domain d name q maps m started plain =
    unfold member in
    rw
      (
        is_blocked_lem (block_of (add_domain d false name maps).0) q,
        add_domain-keys d name q maps m started plain,
        any-wildcard_key d name maps m started plain (parent_domains q),
        is_blocked_lem m q,
      )
      (ground arith)

member-append_self : (name : Text) (l : List Text) → member name (l ++ (name ∷ [])) ≡ true
unfolding member
member-append_self name [] = rw text_eq_refl
member-append_self name (x ∷ l) = ground (arith, member-append_self name l)

add_one_known :
    (name d : Text) (maps : Maps) (m : Attribution)
    → maps.block ≡ some m
    → member name (names d m) ≡ true
    → add_one false name d maps ≡ (maps, false)
unfolding add_one add_blocked
add_one_known name d maps m e known =
    subst (λ o. add_blocked d name maps o ≡ (maps, false)) (sym e) (rw known)

-- The round for one key keeps the names of every key, and adds its own.
put_name-names :
    (d k name other : Text) (m : Attribution)
    → member other (names k m) ≡ true
    → member other (names k (put_name d name m)) ≡ true
put_name-names d k name other m h = elim (Bool-cases (member name (names d m))) [
  | inl old ↦ rw old h
  | inr new ↦ rw new (elim (Bool-cases (text_eq d k)) [
    | inl same ↦
        rw (names-append_list d k name m, same)
          (unfold member in
            rw any-append (
              rw (subst (λ j. member other (names j m) ≡ true) (sym (text_eq_sound d k same)) h)
                refl))
    | inr differs ↦ rw (names-append_list d k name m, differs) h
  ])
]

put_name-own : (d name : Text) (m : Attribution) → member name (names d (put_name d name m)) ≡ true
put_name-own d name m = elim (Bool-cases (member name (names d m))) [
  | inl old ↦ rw old old
  | inr new ↦
      rw (new, names-append_list d d name m, text_eq_refl d) (member-append_self name (names d m))
]

-- Adding a blocked domain a second time for the same list changes nothing and reports that nothing
-- was added, so a list's count of entries counts each domain once.
pub add_domain_twice :
    (d name : Text) (maps : Maps) (m : Attribution)
    → maps.block ≡ some m
    → has_prefix (lit "*.") d ≡ false
    → add_domain d false name (add_domain d false name maps).0
      ≡ ((add_domain d false name maps).0, false)
unfolding add_domain
add_domain_twice d name maps m started plain =
    let first = add_one-put_name name d maps m started in
    let second = add_one-put_name name (wildcard d) (add_one false name d maps).0 _ first in
    let knows_d = put_name-names (wildcard d) d name name _ (put_name-own d name m) in
    let knows_w = put_name-own (wildcard d) name (put_name d name m) in
    let maps' = (add_one false name (wildcard d) (add_one false name d maps).0).0 in
    rw (
      plain,
      add_one_known name d maps' _ second knows_d,
      add_one_known name (wildcard d) maps' _ second knows_w,
    )
