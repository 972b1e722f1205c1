-- ===== src/Domain/Fixed.antt =====
-- `normalize_domain` leaves a domain in normal form alone.
use shield_dns.Prelude.{◌≡◌, refl, ap, ◌∙◌, true, false, [], ◌∷◌, all, none, arith}
use shield_dns.Text.{
  Text, lit, to_lower, trim_space, trim_suffix, cut, cut_last, has_suffix, trim_left, trim_right,
  is_space,
}
use shield_dns.Domain.{
  split_host_port, is_domain_byte, is_rejected, strip_protocol, strip_path, strip_port, strip_all,
  normalize_domain, normalize_trimmed,
}
use shield_dns.Domain.Normal.{IsNormal, has_dots, normalize_domain-IsNormal}

abbrev IsPlain : Text → Type 0
IsPlain s = all is_domain_byte s ≡ true

to_lower_plain : (s : Text) → IsPlain s → to_lower s ≡ s
unfolding to_lower is_domain_byte
to_lower_plain [] h = refl
to_lower_plain (c ∷ s) h = ground (arith, to_lower_plain s)

trim_right_plain : (s : Text) → IsPlain s → trim_right is_space s ≡ s
unfolding trim_right is_domain_byte is_space
trim_right_plain [] h = refl
trim_right_plain (c ∷ s) h = ground (arith, trim_right_plain s)

trim_left_plain : (s : Text) → IsPlain s → trim_left is_space s ≡ s
unfolding trim_left is_domain_byte is_space
trim_left_plain [] h = refl
trim_left_plain (c ∷ s) h = ground arith

trim_space_plain : (s : Text) → IsPlain s → trim_space s ≡ s
unfolding trim_space
trim_space_plain s h = rw (trim_left_plain s h) (trim_right_plain s h)

cut_protocol_plain : (s : Text) → IsPlain s → cut (lit "://") s ≡ none
unfolding cut is_domain_byte lit
cut_protocol_plain [] h = refl
cut_protocol_plain (c ∷ s) h = ground (arith, cut_protocol_plain s)

before_plain : (s : Text) → IsPlain s → strip_path s ≡ s
unfolding strip_path is_domain_byte
before_plain [] h = refl
before_plain (c ∷ s) h = ground (arith, before_plain s)

cut_last_plain : (s : Text) → IsPlain s → cut_last b':' s ≡ none
unfolding cut_last is_domain_byte
cut_last_plain [] h = refl
cut_last_plain (c ∷ s) h = ground (arith, cut_last_plain s)

split_host_port_plain : (s : Text) → IsPlain s → split_host_port s ≡ none
unfolding split_host_port is_domain_byte
split_host_port_plain [] h = refl
split_host_port_plain (c ∷ s) h = ground (arith, cut_last_plain (c ∷ s))

trim_suffix_plain : (s : Text) → has_suffix (46 ∷ []) s ≡ false → trim_suffix (46 ∷ []) s ≡ s
unfolding trim_suffix has_suffix
trim_suffix_plain [] h = refl
trim_suffix_plain (c ∷ s) h = ground (arith, trim_suffix_plain s)

is_rejected_plain : (s : Text) → IsPlain s → has_dots s ≡ false → is_rejected s ≡ false
unfolding is_rejected is_domain_byte
is_rejected_plain [] h d = refl
is_rejected_plain (c ∷ []) h d = ground arith
is_rejected_plain (c ∷ e ∷ s) h d = ground arith

strip_protocol_plain : (s : Text) → IsPlain s → strip_protocol s ≡ s
unfolding strip_protocol
strip_protocol_plain s h = rw (cut_protocol_plain s h, strip_protocol)

strip_port_plain : (s : Text) → IsPlain s → strip_port s ≡ s
unfolding strip_port
strip_port_plain s h = rw (split_host_port_plain s h, strip_port)

strip_all_plain : (s : Text) → IsNormal s → strip_all s ≡ s
strip_all_plain s n =
    let stripped : strip_port (strip_path (strip_protocol s)) ≡ s =
      rw (strip_protocol_plain s n.bytes, before_plain s n.bytes) (strip_port_plain s n.bytes) in
    unfold strip_all in rw (stripped, trim_suffix_plain s n.no_last_dot, n.bytes)

normalize_trimmed_plain : (s : Text) → IsNormal s → normalize_trimmed s ≡ s
unfolding normalize_trimmed
normalize_trimmed_plain [] n = refl
normalize_trimmed_plain (c ∷ s) n =
    rw (is_rejected_plain (c ∷ s) n.bytes n.no_dots) (strip_all_plain (c ∷ s) n)

-- `NormalizeDomain` leaves a domain in normal form as it is.
pub normalize_domain_fixed : (s : Text) → IsNormal s → normalize_domain s ≡ s
normalize_domain_fixed s n =
    let trimmed : trim_space (to_lower s) ≡ s =
      rw (to_lower_plain s n.bytes) (trim_space_plain s n.bytes) in
    unfold normalize_domain in ap normalize_trimmed trimmed ∙ normalize_trimmed_plain s n

-- `NormalizeDomain` is idempotent: on its own result it changes nothing, so a stored domain is
-- found again by a normalised query.
pub normalize_domain_idempotent :
    (raw : Text) → normalize_domain (normalize_domain raw) ≡ normalize_domain raw
normalize_domain_idempotent raw =
    normalize_domain_fixed (normalize_domain raw) (normalize_domain-IsNormal raw)
