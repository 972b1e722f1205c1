-- ===== src/Domain/Normal.antt =====
-- What `normalize_domain` returns, and what it leaves alone.
use shield_dns.Prelude.{
  ◌≡◌, refl, ap, Bool, true, false, [], ◌∷◌, ◌++◌, all, Option, none, some, arith, Option-cases,
  Bool-cases, inl, inr, ◌==◌, subst,
}
use shield_dns.Text.{
  Text, lit, to_lower, trim_space, has_byte, has_prefix, contains, trim_suffix, cut, cut_last,
  has_suffix, is_empty,
}
use shield_dns.Text.Cuts.{cut-append, before-append, cut_last-append}
use shield_dns.Domain.{
  split_host_port, is_domain_byte, is_rejected, strip_protocol, strip_path, strip_port, strip_all,
  normalize_domain, normalize_trimmed, host_in_brackets, host_before_colon,
}

-- ".." stands in the text
abbrev pub has_dots : Text → Bool
has_dots s = contains (46 ∷ 46 ∷ []) s

dots_back : (s t : Text) → has_dots (s ++ t) ≡ false → has_dots t ≡ false
unfolding contains
dots_back [] t h = h
dots_back (c ∷ s) t h = dots_back s t (ground arith)

dots_front : (s t : Text) → has_dots (s ++ t) ≡ false → has_dots s ≡ false
unfolding contains has_prefix
dots_front [] t h = refl
dots_front (c ∷ []) t h = ground arith
dots_front (c ∷ d ∷ s) t h = ground (arith, dots_front (d ∷ s) t)

strip_protocol-dots : (s : Text) → has_dots s ≡ false → has_dots (strip_protocol s) ≡ false
unfolding strip_protocol
strip_protocol-dots s h = elim (Option-cases (cut (lit "://") s)) [
  | inl e ↦ rw (e, strip_protocol) h
  | inr ((front, back), e) ↦
      rw (e, strip_protocol)
        (dots_back (lit "://") back
          (dots_back front _ (rw (cut-append (lit "://") s front back e) at h)))
]

strip_path-dots : (s : Text) → has_dots s ≡ false → has_dots (strip_path s) ≡ false
unfolding strip_path
strip_path-dots s h =
    let (back, whole) = before-append (λ c. has_byte c (lit "/?#\\")) s in
    dots_front _ back (subst (λ t. has_dots t ≡ false) whole h)

suffix_dot :
    (s : Text) → has_dots s ≡ false → has_suffix (46 ∷ []) (trim_suffix (46 ∷ []) s) ≡ false
unfolding contains has_suffix trim_suffix has_prefix
suffix_dot [] h = refl
suffix_dot (c ∷ []) h = ground arith
suffix_dot (c ∷ d ∷ s) h = ground (arith, suffix_dot (d ∷ s))

host_in_brackets-eq-some :
    (o : Option (Text × Text)) (host port : Text)
    → host_in_brackets o ≡ some (host, port)
    → (back : Text) × (o ≡ some (host, back))
unfolding host_in_brackets
host_in_brackets-eq-some none host port h = cc
host_in_brackets-eq-some (some (front, [])) host port h = cc
host_in_brackets-eq-some (some (front, c ∷ back)) host port h = (c ∷ back, ground arith)

host_before_colon-eq-some :
    (o : Option (Text × Text)) (host port : Text)
    → host_before_colon o ≡ some (host, port)
    → o ≡ some (host, port)
unfolding host_before_colon
host_before_colon-eq-some none host port h = cc
host_before_colon-eq-some (some (front, back)) host port h = ground arith

-- The host is a part of the text.
split_host_port-part :
    (s host port : Text)
    → split_host_port s ≡ some (host, port)
    → (front : Text) × (back : Text) × (s ≡ front ++ (host ++ back))
unfolding split_host_port
split_host_port-part [] host port h = cc
split_host_port-part (c ∷ s) host port h = elim (Bool-cases (c == b'[')) [
  | inl e ↦
      let (back, found) = host_in_brackets-eq-some (cut (b']' ∷ []) s) host port (rw e at h) in
      (c ∷ [], b']' ∷ back, ap (λ t. c ∷ t) (cut-append (b']' ∷ []) s host back found))
  | inr e ↦
      let found = host_before_colon-eq-some (cut_last b':' (c ∷ s)) host port (rw e at h) in
      ([], b':' ∷ port, cut_last-append b':' (c ∷ s) host port found)
]

strip_port-dots : (s : Text) → has_dots s ≡ false → has_dots (strip_port s) ≡ false
unfolding strip_port
strip_port-dots s h = elim (Option-cases (split_host_port s)) [
  | inl e ↦ rw (e, strip_port) h
  | inr ((host, port), e) ↦
      let (front, back, whole) = split_host_port-part s host port e in
      let part =
        dots_front host back (dots_back front _ (subst (λ t. has_dots t ≡ false) whole h)) in
      rw (e, strip_port) (elim (Bool-cases (is_empty host)) [ inl b ↦ rw b h | inr b ↦ rw b part ])
]

trim_suffix-dots : (s : Text) → has_dots s ≡ false → has_dots (trim_suffix (46 ∷ []) s) ≡ false
unfolding trim_suffix contains has_prefix
trim_suffix-dots [] h = refl
trim_suffix-dots (c ∷ []) h = ground arith
trim_suffix-dots (c ∷ d ∷ s) h = ground (arith, trim_suffix-dots (d ∷ s))

-- A domain in normal form: lower-case letters, digits and ". - _ *" only, no empty label inside,
-- and no dot at the end.
pub record IsNormal (s : Text) : Type 0 where
  pub bytes : all is_domain_byte s ≡ true
  pub no_dots : has_dots s ≡ false
  pub no_last_dot : has_suffix (46 ∷ []) s ≡ false

IsNormal-nil : IsNormal []
unfolding contains has_suffix
IsNormal-nil = record { bytes = refl; no_dots = refl; no_last_dot = refl }

strip_all-IsNormal : (s : Text) → has_dots s ≡ false → IsNormal (strip_all s)
unfolding strip_all
strip_all-IsNormal s h =
    let part = strip_port-dots _ (strip_path-dots _ (strip_protocol-dots s h)) in
    elim (Bool-cases
      (all is_domain_byte (trim_suffix (lit ".") (strip_port (strip_path (strip_protocol s)))))) [
        | inl e ↦ rw e (record {
          bytes = e;
          no_dots = trim_suffix-dots _ part;
          no_last_dot = suffix_dot _ part;
        })
        | inr e ↦ rw e IsNormal-nil
      ]

no_dots_of_accepted : (s : Text) → is_rejected s ≡ false → has_dots s ≡ false
unfolding is_rejected
no_dots_of_accepted s h = ground arith

normalize_trimmed-IsNormal : (s : Text) → IsNormal (normalize_trimmed s)
unfolding normalize_trimmed
normalize_trimmed-IsNormal s = elim (Bool-cases (is_empty s)) [
  | inl e ↦ rw e IsNormal-nil
  | inr e ↦ elim (Bool-cases (is_rejected s)) [
    | inl r ↦ rw (e, r) IsNormal-nil
    | inr r ↦ rw (e, r) (strip_all-IsNormal s (no_dots_of_accepted s r))
  ]
]

-- Whatever the input, `NormalizeDomain` returns a text of domain bytes only, in lower case, with no
-- ".." in it and no dot at its end.
pub normalize_domain-IsNormal : (raw : Text) → IsNormal (normalize_domain raw)
unfolding normalize_domain
normalize_domain-IsNormal raw = normalize_trimmed-IsNormal (trim_space (to_lower raw))
